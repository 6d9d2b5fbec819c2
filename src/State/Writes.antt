-- ===== src/State/Writes.antt =====
-- The intents and the signal records of rs/src/state.rs: `signal_key`, `intent_key`, `apply_intent`
-- and `apply_signal_record`.
use bbg.Prelude.{ℕ, ◌++◌}
use bbg.Bytes.{Bytes32, bytes32_ord}
use bbg.Root.{Hemera}
use bbg.Wire.{le_bytes}
use bbg.Map
use bbg.Commits.{signal_value}
use bbg.Keyed
use bbg.Keyed.{bytes32_key}
use bbg.Types.{SignalRecord, IntentRecord}
use bbg.State.{BbgState}

module _ ⦃H : Hemera⦄ where
  unfoldable pub signal_key : Bytes32 → ℕ → Bytes32
  signal_key neuron step = H.hash (neuron.0 ++ le_bytes 8 step)

  unfoldable pub intent_key : Bytes32 → ℕ → Bytes32 → Bytes32
  intent_key neuron h0 scope_hash = H.hash (neuron.0 ++ (le_bytes 8 h0 ++ scope_hash.0))

  unfoldable pub apply_intent : IntentRecord → BbgState → BbgState × Bytes32
  unfolding intent_key
  apply_intent intent s =
      let key = intent_key intent.neuron intent.h0 intent.scope_hash in
      (record s { intents = Map.insert key intent s.intents }, key)

  unfoldable pub apply_signal_record : SignalRecord → BbgState → BbgState × Bytes32
  unfolding signal_key
  apply_signal_record r s =
      let key = signal_key r.neuron r.step in
      (record s { signals = (Keyed.insert ⦃value = signal_value⦄ key r s.signals).0 }, key)
