-- ===== src/State.antt =====
-- rs/src/state.rs: `BbgState` and `BbgState::insert`, the application of a signal, with the signals
-- of rs/src/signal.rs and the records of rs/src/types.rs that it changes.
pub mod Spends
pub mod Balances
pub mod Invariant
pub mod Root
pub mod Writes
use bbg.Prelude.{
  ℕ, ◌+◌, ◌-◌, ◌^◌, Bool, true, false, Option, none, some, List, [], ◌∷◌, ◌++◌, if◌then◌else◌, ◌==◌,
  leb,
}
use bbg.Bytes.{Bytes32, bytes32_ord}
use bbg.Root.{Hemera}
use bbg.Map
use bbg.Map.{Map}
use bbg.AxonIndex
use bbg.AxonIndex.{AxonIndex, add}
use bbg.Cards
use bbg.Cards.{Cards}
use bbg.Commits.{particle_value, neuron_value, location_value, coin_value, file_value, signal_value}
use bbg.Keyed.Heights.{U64, u64_ord, u64_key}
use bbg.Keyed
use bbg.Types.{
  ParticleRecord, zero_particle, NeuronRecord, LocationRecord, CoinRecord, FileRecord, SignalRecord,
  IntentRecord,
}
use bbg.Keyed.{
  Keyed, bytes32_key, u64_value, field_value, bytes32_value, unit_value, insert as keyed_insert,
  remove as keyed_remove, modify, upsert,
}

-- A `u64` is a number below 2^64.
abbrev pub u64_max : ℕ
u64_max = 18446744073709551615

unfoldable pub saturating_add : ℕ → ℕ → ℕ
saturating_add a b = if leb (a + b) u64_max then a + b else u64_max

-- `KeyedSet<[u8; 32]>` of rs/src/keyed.rs: a dimension with empty records.
abbrev pub KeySet : ⦃H : Hemera⦄ → Type 0
KeySet = Keyed Bytes32 (Unit {0})

-- The valence, an `i8`, is its bit pattern, a number below 256.
pub record Cyberlink : Type 0 where
  pub from : Bytes32
  pub to : Bytes32
  pub token : Bytes32
  pub amount : ℕ
  pub valence : ℕ

pub record BoxMove : Type 0 where
  pub nullifier : Bytes32
  pub commitment : Option (Bytes32 × ℕ)

pub record Signal : Type 0 where
  pub neuron : Bytes32
  pub links : List Cyberlink
  pub box_moves : List BoxMove
  pub height : ℕ

pub data InsertError : Type 0 where
  double_spend : InsertError

-- Which derivation of the commitment leaves the root folds over; `v2` is the default.
pub data RootVersion : Type 0 where
  v1 : RootVersion
  v2 : RootVersion

pub record BbgState ⦃H : Hemera⦄ : Type 0 where
  pub particles : Keyed Bytes32 ParticleRecord
  pub axons_out : AxonIndex
  pub axons_in : AxonIndex
  pub neurons : Keyed Bytes32 NeuronRecord
  pub commitments : Keyed Bytes32 H.Field
  pub nullifiers : KeySet
  pub balances : Keyed Bytes32 ℕ
  pub axon_edges : Map Bytes32 (Bytes32 × Bytes32)
  pub locations : Keyed Bytes32 LocationRecord
  pub coins : Keyed Bytes32 CoinRecord
  pub cards : Cards
  pub files : Keyed Bytes32 FileRecord
  pub time : Keyed U64 Bytes32
  pub signals : Keyed Bytes32 SignalRecord
  pub intents : Map Bytes32 IntentRecord
  pub diameter_override : Option ℕ
  pub height : ℕ
  pub root_version : RootVersion

module _ ⦃H : Hemera⦄ where
  -- `BbgState::new`
  unfoldable pub new : BbgState
  new = record {
    particles = Keyed.empty ⦃value = particle_value⦄;
    axons_out = AxonIndex.empty;
    axons_in = AxonIndex.empty;
    neurons = Keyed.empty ⦃value = neuron_value⦄;
    commitments = Keyed.empty ⦃value = field_value⦄;
    nullifiers = Keyed.empty ⦃value = unit_value⦄;
    balances = Keyed.empty ⦃value = u64_value⦄;
    axon_edges = [];
    locations = Keyed.empty ⦃value = location_value⦄;
    coins = Keyed.empty ⦃value = coin_value⦄;
    cards = Cards.new;
    files = Keyed.empty ⦃value = file_value⦄;
    time = Keyed.empty ⦃path = u64_key⦄ ⦃value = bytes32_value⦄;
    signals = Keyed.empty ⦃value = signal_value⦄;
    intents = [];
    diameter_override = none;
    height = 0;
    root_version = v2;
  }

  unfoldable pub axon_id : Bytes32 → Bytes32 → Bytes32
  axon_id from to = H.hash (from.0 ++ to.0)

  unfoldable pub balance_key : Bytes32 → Bytes32 → Bytes32
  balance_key owner token = H.hash (owner.0 ++ token.0)

  unfoldable pub is_spent : BbgState → Bytes32 → Bool
  is_spent s nullifier = Map.contains nullifier s.nullifiers.map

  -- The first loop of `insert`.
  unfoldable pub any_spent : BbgState → List BoxMove → Bool
  unfolding is_spent
  any_spent s [] = false
  any_spent s (mv ∷ moves) =
      let rest = any_spent s moves in if is_spent s mv.nullifier then true else rest

  unfoldable pub apply_move : BoxMove → BbgState → BbgState
  apply_move mv s =
      let spent = (keyed_insert ⦃value = unit_value⦄ mv.nullifier tt s.nullifiers).0 in
      elim mv.commitment [
        | none ↦ record s { nullifiers = spent }
        | some (point, value) ↦ record s {
          nullifiers = spent;
          commitments = (keyed_insert ⦃value = field_value⦄ point (H.new value) s.commitments).0;
        }
      ]

  -- The second loop of `insert`.
  unfoldable pub apply_moves : List BoxMove → BbgState → BbgState
  unfolding apply_move
  apply_moves [] s = s
  apply_moves (mv ∷ moves) s = apply_moves moves (apply_move mv s)

  abbrev pub amount_or_add : (ParticleRecord → ℕ) → ℕ → Option ParticleRecord → ℕ
  amount_or_add field amount none = amount
  amount_or_add field amount (some p) = saturating_add (field p) amount

  abbrev pub credited : ℕ → Option ℕ → ℕ
  credited amount none = amount
  credited amount (some b) = saturating_add b amount

  abbrev pub debited : ℕ → Option ℕ → ℕ
  debited amount none = 0
  debited amount (some b) = b - amount

  -- `axon_edges.entry(axon_id).or_insert(...)`
  unfoldable pub record_edge : Bytes32 → Cyberlink → BbgState → BbgState
  record_edge axon link s = elim (Map.get axon s.axon_edges) [
    | none ↦ record s { axon_edges = Map.insert axon (link.from, link.to) s.axon_edges }
    | some edge ↦ s
  ]

  -- The topology of a link, always.
  unfoldable pub link_axons : Bytes32 → Cyberlink → BbgState → BbgState
  unfolding record_edge
  link_axons axon link s = record_edge axon link (record s {
    axons_out = (add link.from axon s.axons_out).0;
    axons_in = (add link.to axon s.axons_in).0;
  })

  -- The weight of the axon, the energy of the target.
  unfoldable pub link_particles : Bytes32 → Cyberlink → BbgState → BbgState
  link_particles axon link s =
      let w = amount_or_add (λ p. p.weight) link.amount (Map.get axon s.particles.map) in
      let weighed = upsert axon zero_particle (λ p. record p { weight = w }) s.particles in
      let e = amount_or_add (λ p. p.energy) link.amount (Map.get link.to weighed.map) in
      record s { particles = upsert link.to zero_particle (λ p. record p { energy = e }) weighed }

  -- The focus of the neuron, if it is there.
  unfoldable pub link_focus : Bytes32 → Cyberlink → BbgState → BbgState
  link_focus neuron link s =
      elim (modify neuron (λ n. record n { focus = n.focus - link.amount }) s.neurons) [
        | none ↦ s
        | some neurons ↦ record s { neurons = neurons }
      ]

  unfoldable pub credit : Bytes32 → ℕ → Keyed Bytes32 ℕ → Keyed Bytes32 ℕ
  credit key amount balances =
      (keyed_insert ⦃value = u64_value⦄ key (credited amount (Map.get key balances.map)) balances).0

  -- A zero balance is an absent row.
  unfoldable pub debit : Bytes32 → ℕ → Keyed Bytes32 ℕ → Keyed Bytes32 ℕ
  debit key amount balances =
      let next = debited amount (Map.get key balances.map) in
      if next == 0
      then (keyed_remove ⦃value = u64_value⦄ key balances).0
      else (keyed_insert ⦃value = u64_value⦄ key next balances).0

  unfoldable pub link_balances : Cyberlink → BbgState → BbgState
  unfolding credit debit balance_key
  link_balances link s = record s {
    balances =
        debit (balance_key link.from link.token) link.amount
          (credit (balance_key link.to link.token) link.amount s.balances);
  }

  unfoldable pub apply_link : Bytes32 → Cyberlink → BbgState → BbgState
  unfolding axon_id link_axons link_particles link_focus link_balances
  apply_link neuron link s =
      let axon = axon_id link.from link.to in
      let linked = link_axons axon link s in
      if link.amount == 0
      then linked
      else link_balances link (link_focus neuron link (link_particles axon link linked))

  -- The third loop of `insert`.
  unfoldable pub apply_links : Bytes32 → List Cyberlink → BbgState → BbgState
  unfolding apply_link
  apply_links neuron [] s = s
  apply_links neuron (link ∷ links) s = apply_links neuron links (apply_link neuron link s)

  -- `BbgState::insert`; `none` is `Ok(())`.
  unfoldable pub insert : Signal → BbgState → BbgState × Option InsertError
  unfolding any_spent apply_moves apply_links
  insert signal s =
      if any_spent s signal.box_moves
      then (s, some double_spend)
      else (apply_links signal.neuron signal.links (apply_moves signal.box_moves s), none)
