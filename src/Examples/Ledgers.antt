-- ===== src/Examples/Ledgers.antt =====
-- The theorems on the adjacency index, cards, roots, pruning and blocks at concrete inputs.
use bbg.Prelude.{
  ◌^◌, ℕ, ◌≤◌, ◌<◌, ◌*◌, ◌≡◌, refl, ap, sym, Bool, true, false, Option, none, some, List, [], ◌∷◌,
  length, arith, ◌⊎◌, leb, All, is_some, if◌then◌else◌,
}
use bbg.Prelude.Ord.{beq}
use bbg.Prelude.Sort.{count, IsAscending, sort_by_key, insert_by}
use bbg.Bytes.{Bytes32, bytes32_ord}
use bbg.Map
use bbg.Map.Sorted.{IsSorted}
use bbg.Types.{CardRecord, SignalRecord, ParticleRecord, for_edge, zero_particle}
use bbg.Commits.{particle_value}
use bbg.Keyed
use bbg.Keyed.{bytes32_key, u64_value}
use bbg.Keyed.Invariant.{insert-IsKeyed, empty-IsKeyed}
use bbg.AxonIndex.Runs.{Call, on_add, on_insert, on_remove_axon, on_truncate, on_commitment}
use bbg.AxonIndex.{degree, max_degree, AxonIndex, add, remove_axon, empty as axons_empty}
use bbg.AxonIndex.AddLaw.{IsMirror, empty-IsMirror, add-AddLaw}
use bbg.AxonIndex.RemoveLaw.{RemoveAxonLaw, remove_axon-RemoveAxonLaw}
use bbg.Cards
use bbg.Cards.{Cards}
use bbg.Cards.Index.{IsCards, new-IsCards, insert-IsCards, remove-IsCards, on_axon-is_some}
use bbg.State
use bbg.State.{BbgState, Signal, double_spend}
use bbg.State.Invariant.{IsState}
use bbg.State.Root.{root}
use bbg.State.Root.Invariant.{StateRead, root-StateRead}
use bbg.State.Spends.{names}
use bbg.Prune.{
  PruneConfig, PruneState, scores, rank_floor, over_budget, eligible, candidates, estimate_bytes,
  prune_records, unprotected, pi_or_zero, usize_max, floor_of, lists_bytes,
}
use bbg.Prune.Floor.{rank_floor_protects}
use bbg.Prune.Plan.{candidates_lem, weight_of}
use bbg.Prune.Effect.{prune_records-protected, prune_records_budget}
use bbg.Table.Fields.{SameFields, dim_entries-SameFields}
use bbg.Transition.{
  validate, check_header, header_differs, check_moves, check_links, run_link, running,
}
use bbg.Transition.Spending.{AreFresh, validate-AreFresh}
use bbg.Transition.Amounts.{accounts, moved_all, validate-moved_all}
use bbg.Positions.{positions}
use bbg.Positions.Sums.{PositionsLaw, positions-PositionsLaw}
use bbg.Facade.{Bbg, new, insert, finalize_block}
use bbg.Facade.Blocks.{BlockLaw, finalize_block-BlockLaw}
use bbg.Facade.Ledger.{Reaches, done, signal, block, new_reached-IsState, reached_refused}
use bbg.Storage.Buffer.{WriteBuffer, empty as no_writes, put, delete}
use bbg.Storage.Buffer.Pending.{empty-IsPending}
use bbg.Storage.Buffer.Reads.{WriteLaw, put-delete-WriteLaw}
use bbg.Examples.Toy.{Term, num, zeros, low, high, mixed, toy}

-- A card on one axon, and the card moved to another one.
abbrev staked : CardRecord
staked = record { owner = low; particle = high; author = low; valence = for_edge; since = 4 }

abbrev moved : CardRecord
moved = record { owner = low; particle = mixed; author = low; valence = for_edge; since = 5 }

abbrev cards_or_new : Option (Cards × Option CardRecord) → Cards
cards_or_new none = Cards.new
cards_or_new (some (cards, _)) = cards

abbrev once : Cards
once = cards_or_new (Cards.insert low staked Cards.new)

once-IsCards : IsCards once
once-IsCards = let (next, eq, m, v) = insert-IsCards low staked Cards.new new-IsCards in rw eq v

insert-IsCards_example :
    (next : Cards) × (Cards.insert low moved once ≡ some (next, Map.get low once.records.map))
    × (next.records.map ≡ Map.insert low moved once.records.map)
    × IsCards next
insert-IsCards_example = insert-IsCards low moved once once-IsCards

remove-IsCards_example :
    (next : Cards) × (Cards.remove low once ≡ some (next, Map.get low once.records.map))
    × ((q : Bytes32)
        → Map.get q next.records.map ≡ (if beq q low then none else Map.get q once.records.map))
    × IsCards next
remove-IsCards_example = remove-IsCards low once once-IsCards

on_axon-is_some_example : is_some (Cards.on_axon high once) ≡ true
on_axon-is_some_example = on_axon-is_some high once once-IsCards

abbrev index : AxonIndex
index = (add low mixed axons_empty).0

index-IsMirror : IsMirror index
index-IsMirror = (add-AddLaw low mixed axons_empty empty-IsMirror).mirror

abbrev calls : List Call
calls =
    on_commitment
    ∷ on_truncate high 1
    ∷ on_remove_axon low mixed
    ∷ on_insert high (low ∷ mixed ∷ low ∷ [])
    ∷ on_add low high
    ∷ on_add low mixed
    ∷ []

remove_axon-RemoveAxonLaw_example : RemoveAxonLaw low mixed index (remove_axon low mixed index)
remove_axon-RemoveAxonLaw_example = remove_axon-RemoveAxonLaw low mixed index index-IsMirror

-- A commitment to polynomials in place of the lens crate's.
abbrev lens : List Term → Bytes32
lens fields = zeros

abbrev spend : Signal
spend = record {
  height = 1;
  neuron = mixed;
  links = record { from = low; to = high; token = mixed; amount = 7; valence = 1 } ∷ [];
  box_moves = record { nullifier = low; commitment = some (high, 5) } ∷ [];
}

abbrev start : Bbg
start = new lens

abbrev after_spend : Bbg
after_spend = (insert lens spend start).0

root-StateRead_example : StateRead after_spend.state (root lens after_spend.state).0
root-StateRead_example = root-StateRead lens after_spend.state

finalize_block-BlockLaw_example :
    BlockLaw lens after_spend.state (finalize_block lens after_spend).state
finalize_block-BlockLaw_example = finalize_block-BlockLaw lens after_spend

path : Reaches lens after_spend (finalize_block lens after_spend)
path = block after_spend _ (done _)

new_reached-IsState_example : IsState (finalize_block lens after_spend).state
new_reached-IsState_example =
    new_reached-IsState lens (finalize_block lens after_spend) (signal start _ spend path)

accepted : (insert lens spend start).1 ≡ none
unfolding insert new bbg.Facade.checkpoint_of root bbg.State.Root.root_leaves
    bbg.State.Root.version_leaves bbg.State.Root.v2_leaves State.insert State.any_spent
    State.is_spent State.new Map.contains Map.get Keyed.empty Keyed.commitment Keyed.flush
    Keyed.flush_all
accepted = refl

named : names low spend.box_moves ≡ true
unfolding names bytes32_ord bbg.Prelude.Ord.cmp_list
named = refl

reached_refused_example :
    (insert lens spend (finalize_block lens after_spend)).1 ≡ some double_spend
reached_refused_example =
    reached_refused lens start (finalize_block lens after_spend) spend spend low accepted named path
      named

-- Two particles, of which the one with the lower score may be pruned; the budget holds one.
abbrev weak : ParticleRecord
weak = record zero_particle { pi_star = 3; weight = 10 }

abbrev strong : ParticleRecord
strong = record zero_particle { pi_star = 9; weight = 2 }

abbrev two : BbgState
two = record State.new {
  particles =
      (Keyed.insert ⦃value = particle_value⦄ high strong
        (Keyed.insert ⦃value = particle_value⦄ low weak
          (Keyed.empty ⦃value = particle_value⦄)).0).0;
}

abbrev config : PruneConfig
config = record { max_bytes = 100; rank_floor_pct = 50; half_life_epochs = 1 }

abbrev untouched : PruneState
untouched = record { last_touched = [] }

two-IsSorted : IsSorted two.particles.map
two-IsSorted =
    (insert-IsKeyed ⦃value = particle_value⦄ high strong _ (
      insert-IsKeyed ⦃value = particle_value⦄ low weak _
        (empty-IsKeyed ⦃value = particle_value⦄))).sorted

rank_floor_protects_example :
    length two.particles.map * 50 ≤ count (leb (rank_floor two 50)) (scores two.particles.map) * 100
rank_floor_protects_example = rank_floor_protects two 50 (omega arith) (omega arith)

candidates_example :
    ((1 < length (eligible two untouched config 0)) × (candidates two untouched config 0 1 ≡ none))
    ⊎ ((length (eligible two untouched config 0) ≤ 1)
        × ((list : List Bytes32) × (candidates two untouched config 0 1
              ≡ some (over_budget two config, list))
            × All
                (λ id.
                  pi_or_zero (Map.get id two.particles.map) < rank_floor two config.rank_floor_pct)
                list
            × IsAscending (weight_of two.particles.map) list))
candidates_example = candidates_lem two untouched config 0 1 two-IsSorted

high-held : Map.get high two.particles.map ≡ some strong
unfolding Map.get Map.insert Keyed.insert Keyed.touched Keyed.empty State.new bytes32_ord
    bbg.Prelude.Ord.cmp_list
high-held = refl

high-ranked : rank_floor two config.rank_floor_pct ≤ strong.pi_star
unfolding rank_floor floor_of sort_by_key insert_by Map.insert Keyed.insert Keyed.touched
    Keyed.empty State.new bytes32_ord bbg.Prelude.Ord.cmp_list
high-ranked = omega arith

prune_records-protected_example :
    Map.get high (prune_records config 0 (two, untouched)).0.particles.map ≡ some strong
prune_records-protected_example =
    prune_records-protected config 0 two untouched high strong two-IsSorted high-held high-ranked

two-over : over_budget two config ≡ true
unfolding over_budget estimate_bytes lists_bytes Map.insert Keyed.insert Keyed.touched Keyed.empty
    State.new bytes32_ord bbg.Prelude.Ord.cmp_list bbg.AxonIndex.empty
two-over = refl

few : length (unprotected (rank_floor two config.rank_floor_pct) two.particles.map) ≤ usize_max
unfolding unprotected Map.insert Keyed.insert Keyed.touched Keyed.empty State.new bytes32_ord
    bbg.Prelude.Ord.cmp_list rank_floor floor_of sort_by_key insert_by
few = omega arith

prune_records_budget_example :
    (estimate_bytes (prune_records config 0 (two, untouched)).0 ≤ config.max_bytes)
    ⊎ ((id : Bytes32) (p : ParticleRecord)
        → Map.get id (prune_records config 0 (two, untouched)).0.particles.map ≡ some p
        → rank_floor two config.rank_floor_pct ≤ p.pi_star)
prune_records_budget_example = prune_records_budget config 0 two untouched two-over few

dim_entries-SameFields_example : SameFields two
dim_entries-SameFields_example = dim_entries-SameFields two

-- A state with the card, and the stake 5 on it.
abbrev with_stake : BbgState
with_stake = record State.new {
  cards = once;
  balances =
      (Keyed.insert ⦃value = u64_value⦄ (Cards.stake_key low) 5
        (Keyed.empty ⦃value = u64_value⦄)).0;
}

positions-PositionsLaw_example : PositionsLaw with_stake (positions with_stake)
positions-PositionsLaw_example = positions-PositionsLaw with_stake once-IsCards

-- A header for the signal, and its validation against the empty state.
abbrev header : SignalRecord
header = record {
  neuron = mixed;
  network = zeros;
  link_count = 1;
  block_height = 1;
  proof_hash = zeros;
  step = 0;
}

header-valid : validate State.new spend high header ≡ none
unfolding validate check_header header_differs check_moves check_links run_link running
    State.is_spent State.new Map.contains Map.get Map.insert Keyed.empty bytes32_ord
    bbg.Prelude.Ord.cmp_list
header-valid = refl

validate-AreFresh_example :
    AreFresh State.new [] spend.box_moves × ((State.insert spend State.new).1 ≡ none)
validate-AreFresh_example = validate-AreFresh State.new spend high header header-valid

validate-moved_all_example :
    accounts (State.insert spend State.new).0 zeros
    ≡ moved_all spend.links (accounts State.new) zeros
validate-moved_all_example = validate-moved_all State.new spend high header header-valid zeros

-- One pending entry.
abbrev one_write : WriteBuffer
one_write = (put 3 low (num 7 ∷ []) no_writes).0

one_write-WriteLaw : WriteLaw 3 low (some (num 7 ∷ [])) no_writes (put 3 low (num 7 ∷ []) no_writes)
unfolding no_writes
one_write-WriteLaw =
    (put-delete-WriteLaw 3 low (num 7 ∷ []) no_writes empty-IsPending (omega arith)).0

put-delete-WriteLaw_example :
    WriteLaw 3 low (some (num 9 ∷ [])) one_write (put 3 low (num 9 ∷ []) one_write)
    × WriteLaw 3 low none one_write (delete 3 low one_write)
put-delete-WriteLaw_example =
    put-delete-WriteLaw 3 low (num 9 ∷ []) one_write one_write-WriteLaw.kept
      one_write-WriteLaw.bounded
