-- ===== src/Prune.antt =====
-- rs/src/prune.rs: what pruning at an epoch boundary removes, in the order in which it does.
pub mod Plan
pub mod Invariant
pub mod Floor
pub mod Effect
pub mod Untouched
use bbg.Prelude.{
  ℕ, zero, suc, ◌+◌, ◌-◌, ◌*◌, ◌/◌, Bool, true, false, ◌&&◌, Option, none, some, List, [], ◌∷◌, map,
  length, if◌then◌else◌, ◌==◌, ltb, leb, get_or,
}
use bbg.Prelude.Sort.{sort_by_key}
use bbg.Bytes.{Bytes32, bytes32_ord}
use bbg.Root.{Hemera}
use bbg.Map
use bbg.Map.{Map}
use bbg.Types.{ParticleRecord}
use bbg.Commits.{particle_value}
use bbg.Keyed
use bbg.Keyed.{bytes32_key}
use bbg.AxonIndex
use bbg.State.{BbgState, u64_max}
use bbg.State.Root.{root}

pub record PruneConfig : Type 0 where
  pub max_bytes : ℕ
  pub rank_floor_pct : ℕ
  pub half_life_epochs : ℕ

-- `PruneConfig::default`
abbrev pub default_config : PruneConfig
default_config = record { max_bytes = 1073741824; rank_floor_pct = 20; half_life_epochs = 1000 }

pub record PruneState : Type 0 where
  pub last_touched : Map Bytes32 ℕ

unfoldable pub touch : Bytes32 → ℕ → PruneState → PruneState
touch axon epoch ps = record { last_touched = Map.insert axon epoch ps.last_touched }

abbrev pub pi_or_zero : Option ParticleRecord → ℕ
pi_or_zero none = 0
pi_or_zero (some p) = p.pi_star

abbrev pub weight_or_zero : Option ParticleRecord → ℕ
weight_or_zero none = 0
weight_or_zero (some p) = p.weight

abbrev pub scores : Map Bytes32 ParticleRecord → List ℕ
scores m = map (λ (_, p). p.pi_star) m

-- `rank_floor` of the scores. Of a percentage above 100 the boundary is the first score.
unfoldable pub floor_of : ℕ → List ℕ → ℕ
floor_of pct list =
    let protected_count = (length list * pct + 99) / 100 in
    if length list == 0
    then 0
    else get_or (sort_by_key (λ x. x) list) (length list - protected_count) 0

-- Bytes of the lists of an adjacency index.
unfoldable pub lists_bytes : Map Bytes32 (List Bytes32) → ℕ
lists_bytes [] = 0
lists_bytes ((_, v) ∷ m) = 32 + length v * 32 + lists_bytes m

-- The filters of `candidates`, with the weight of each candidate.
unfoldable pub unprotected : ℕ → Map Bytes32 ParticleRecord → List (Bytes32 × ℕ)
unprotected floor [] = []
unprotected floor ((id, p) ∷ m) =
    let rest = unprotected floor m in if ltb p.pi_star floor then (id, p.weight) ∷ rest else rest

unfoldable pub is_stale : Map Bytes32 ParticleRecord → ℕ → ℕ → ℕ → Bytes32 → ℕ → Bool
is_stale particles floor half_life epoch id last =
    ltb (pi_or_zero (Map.get id particles)) floor && ltb half_life (epoch - last)

unfoldable pub stale : Map Bytes32 ParticleRecord → ℕ → ℕ → ℕ → Map Bytes32 ℕ → List (Bytes32 × ℕ)
unfolding is_stale
stale particles floor half_life epoch [] = []
stale particles floor half_life epoch ((id, last) ∷ m) =
    let rest = stale particles floor half_life epoch m in
    if is_stale particles floor half_life epoch id last
    then (id, weight_or_zero (Map.get id particles)) ∷ rest
    else rest

-- `usize::MAX` on a 64-bit machine
abbrev pub usize_max : ℕ
usize_max = 18446744073709551615

module _ ⦃H : Hemera⦄ where
  unfoldable pub rank_floor : BbgState → ℕ → ℕ
  unfolding floor_of
  rank_floor s pct = if pct == 0 then u64_max else floor_of pct (scores s.particles.map)

  unfoldable pub estimate_bytes : BbgState → ℕ
  unfolding lists_bytes
  estimate_bytes s =
      length s.particles.map * 80
      + lists_bytes s.axons_out.map
      + lists_bytes s.axons_in.map
      + length s.neurons.map * 64

  unfoldable pub over_budget : BbgState → PruneConfig → Bool
  over_budget s config = ltb config.max_bytes (estimate_bytes s)

  -- The candidates of `candidates`, in the order of the maps.
  unfoldable pub eligible : BbgState → PruneState → PruneConfig → ℕ → List (Bytes32 × ℕ)
  unfolding over_budget rank_floor unprotected stale
  eligible s ps config epoch =
      if over_budget s config
      then unprotected (rank_floor s config.rank_floor_pct) s.particles.map
      else stale s.particles.map (rank_floor s config.rank_floor_pct) config.half_life_epochs epoch
          ps.last_touched

  -- `none` is `Err(())`: there are more candidates than the limit.
  unfoldable pub candidates :
      BbgState → PruneState → PruneConfig → ℕ → ℕ → Option (Bool × List Bytes32)
  unfolding eligible over_budget
  candidates s ps config epoch limit =
      let found = eligible s ps config epoch in
      if leb (length found) limit
      then some (over_budget s config, map (λ (id, _). id) (sort_by_key (λ (_, w). w) found))
      else none

  -- The lists of the two ends of an axon without it.
  unfoldable pub remove_edge : Option (Bytes32 × Bytes32) → Bytes32 → BbgState → BbgState
  remove_edge none axon s = s
  remove_edge (some (from, to)) axon s = record s {
    axon_edges = Map.remove axon s.axon_edges;
    axons_out = (AxonIndex.remove_axon from axon s.axons_out).0;
    axons_in = (AxonIndex.remove_axon to axon s.axons_in).0;
  }

  unfoldable pub remove_axon : Bytes32 → BbgState × PruneState → BbgState × PruneState
  unfolding remove_edge
  remove_axon axon (s, ps) =
      let particles = (Keyed.remove ⦃value = particle_value⦄ axon s.particles).0 in
      (
        remove_edge (Map.get axon s.axon_edges) axon (record s { particles = particles }),
        record { last_touched = Map.remove axon ps.last_touched },
      )

  -- The loop of `prune`.
  unfoldable pub remove_until :
      Bool → ℕ → List Bytes32 → BbgState × PruneState → BbgState × PruneState
  unfolding remove_axon
  remove_until over max_bytes [] b = b
  remove_until over max_bytes (axon ∷ list) b =
      let rest = remove_until over max_bytes list (remove_axon axon b) in
      if over && leb (estimate_bytes b.0) max_bytes then b else rest

  -- The `expect` of the source does not fail: no map has more than `usize::MAX` entries. That case
  -- changes nothing here.
  unfoldable pub prune_records : PruneConfig → ℕ → BbgState × PruneState → BbgState × PruneState
  unfolding remove_until
  prune_records config epoch (s, ps) = elim (candidates s ps config epoch usize_max) [
    | none ↦ (s, ps)
    | some (over, sorted) ↦ remove_until over config.max_bytes sorted (s, ps)
  ]

  unfoldable pub prune :
      (List H.Field → Bytes32) → PruneConfig → ℕ → BbgState × PruneState → BbgState × PruneState
  unfolding prune_records
  prune lens config epoch b = let (s, ps) = prune_records config epoch b in ((root lens s).0, ps)
