-- ===== src/Transition.antt =====
-- rs/src/transition/mod.rs: the validation of a signal before a transition prepares it, and the
-- errors of a transition. The names of counters and bounds are those that the errors carry.
pub mod Spending
pub mod Amounts
use bbg.Prelude.{
  ℕ, ◌+◌, ◌-◌, Bool, true, false, ◌||◌, not, Option, none, some, List, [], ◌∷◌, length,
  if◌then◌else◌, ◌==◌, ltb,
}
use bbg.Prelude.Ord.{beq}
use bbg.Bytes.{Bytes32, bytes32_ord}
use bbg.Root.{Hemera}
use bbg.Map
use bbg.Map.{Map}
use bbg.Types.{SignalRecord}
use bbg.State.{BbgState, Signal, Cyberlink, BoxMove, is_spent, balance_key, u64_max}

abbrev pub max_keys : ℕ
max_keys = 65536

abbrev pub u32_max : ℕ
u32_max = 4294967295

pub data Counter : Type 0 where
  height : Counter
  link_count : Counter
  balance : Counter
  focus : Counter

pub data Bound : Type 0 where
  event_count : Bound
  pruning_rank_floor : Bound
  pruning_candidates : Bound
  signal_items : Bound
  undo_keys : Bound
  undo_bytes : Bound
  adjacency_bytes : Bound
  write_set_bytes : Bound

pub data Error : Type 0 where
  arguments : Error
  checkpoint_proof : Error
  double_spend : Error
  overflow : Counter → Error
  limit : Bound → Error
  signal_exists : Error

-- A check, and the ones behind it.
infixr 4 ◌then_check◌
abbrev pub ◌then_check◌ : Option Error → Option Error → Option Error
none then_check next = next
(some e) then_check next = some e

abbrev pub refuse_if : Bool → Error → Option Error
refuse_if test e = if test then some e else none

abbrev pub or_zero : Option ℕ → ℕ
or_zero none = 0
or_zero (some n) = n

module _ ⦃H : Hemera⦄ where
  unfoldable pub header_differs : Signal → SignalRecord → Bool
  header_differs signal header =
      not (beq header.neuron signal.neuron)
      || not (header.link_count == length signal.links)
      || not (header.block_height == signal.height)

  -- The loop over the moves; `seen` is the set of nullifiers.
  unfoldable pub check_moves : BbgState → Map Bytes32 (Unit {0}) → List BoxMove → Option Error
  check_moves s seen [] = none
  check_moves s seen (mv ∷ moves) =
      let rest = check_moves s (Map.insert mv.nullifier tt seen) moves in
      if is_spent s mv.nullifier || Map.contains mv.nullifier seen then some double_spend else rest

  -- `entry(key).or_insert_with(..)`: the running balance, at first the one of the state.
  unfoldable pub running : BbgState → Map Bytes32 ℕ → Bytes32 → ℕ
  running s balances key = elim (Map.get key balances) [
    | none ↦ or_zero (Map.get key s.balances.map)
    | some n ↦ n
  ]

  -- The running balances after one link.
  unfoldable pub run_link : BbgState → Map Bytes32 ℕ → Cyberlink → Map Bytes32 ℕ
  unfolding running
  run_link s balances link =
      let to = balance_key link.to link.token in
      let from = balance_key link.from link.token in
      let credited = Map.insert to (running s balances to + link.amount) balances in
      Map.insert from (running s credited from - link.amount) credited

  -- The loop over the links.
  unfoldable pub check_links : BbgState → Map Bytes32 ℕ → List Cyberlink → Option Error
  unfolding running run_link
  check_links s balances [] = none
  check_links s balances (link ∷ links) =
      let rest = check_links s (run_link s balances link) links in
      if ltb u64_max (running s balances (balance_key link.to link.token) + link.amount)
      then some (overflow balance)
      else rest

  -- The checks before the loops.
  unfoldable pub check_header : BbgState → Signal → Bytes32 → SignalRecord → Option Error
  unfolding header_differs
  check_header s signal key header =
      refuse_if (ltb u64_max (s.height + 1)) (overflow height)
      then_check refuse_if (ltb u32_max (length signal.links)) (overflow link_count)
      then_check refuse_if (header_differs signal header) arguments
      then_check refuse_if (Map.contains key s.signals.map) signal_exists
      then_check refuse_if (ltb max_keys (length signal.links + length signal.box_moves))
          (limit signal_items)

  -- `none` is `Ok(())`.
  unfoldable pub validate : BbgState → Signal → Bytes32 → SignalRecord → Option Error
  unfolding check_header check_moves check_links
  validate s signal key header =
      check_header s signal key header
      then_check check_moves s [] signal.box_moves
      then_check check_links s [] signal.links
