-- ===== src/Prune/Effect.antt =====
-- What is left after pruning in rs/src/prune.rs.
use bbg.Prelude.{
  ℕ, ◌≤◌, ◌<◌, ◌≡◌, refl, ap, sym, ◌∙◌, true, none, some, List, [], ◌∷◌, map, length, leb, ltb,
  arith, if◌then◌else◌, Bool-cases, inl, inr, ◌⊎◌,
}
use bbg.Prelude.Ord.{beq}
use bbg.Prelude.Sort.{sort_by_key, count, count-sort_by_key}
use bbg.Bytes.{Bytes32, bytes32_ord}
use bbg.Root.{Hemera}
use bbg.Map
use bbg.Map.{Map}
use bbg.Map.Sorted.{IsSorted}
use bbg.Types.{ParticleRecord}
use bbg.AxonIndex.AddLaw.{mem}
use bbg.State.{BbgState}
use bbg.Prune.{
  PruneConfig, PruneState, unprotected, rank_floor, over_budget, eligible, candidates, usize_max,
  estimate_bytes, remove_axon, remove_until, prune_records,
}
use bbg.Prune.Plan.{Records, candidates_lem, particles-remove_axon, remove_until-protected}

module _ ⦃H : Hemera⦄ where
  -- A record whose score is not below the floor is still there after pruning, as it was, however far
  -- the state is over its budget. The condition is that the particles are in ascending order of
  -- their ids.
  pub prune_records-protected :
      (config : PruneConfig) (epoch : ℕ) (s : BbgState) (ps : PruneState) (id : Bytes32)
      (p : ParticleRecord)
      → IsSorted s.particles.map
      → Map.get id s.particles.map ≡ some p
      → rank_floor s config.rank_floor_pct ≤ p.pi_star
      → Map.get id (prune_records config epoch (s, ps)).0.particles.map ≡ some p
  unfolding prune_records
  prune_records-protected config epoch s ps id p sorted e high =
      elim (candidates_lem s ps config epoch usize_max sorted) [
        | inl h ↦ rw (h.1, prune_records) e
        | inr h ↦
            rw (h.1.1, prune_records)
              (remove_until-protected (over_budget s config) config.max_bytes
                (rank_floor s config.rank_floor_pct) h.1.0 (s, ps) s.particles.map id p h.1.2 e high
                e)
      ]

  -- The loop ends within the budget or has removed every axon of the list.
  remove_until-left :
      (max_bytes : ℕ) (list : List Bytes32) (b : BbgState × PruneState)
      → (estimate_bytes (remove_until true max_bytes list b).0 ≤ max_bytes)
        ⊎ ((id : Bytes32)
            → Map.get id (remove_until true max_bytes list b).0.particles.map
              ≡ (if mem id list then none else Map.get id b.0.particles.map))
  unfolding remove_until mem
  remove_until-left max_bytes [] b = inr (λ id. refl)
  remove_until-left max_bytes (axon ∷ list) b =
      elim (Bool-cases (leb (estimate_bytes b.0) max_bytes)) [
        | inl e ↦ rw (e, remove_until) (inl (ground (arith, e)))
        | inr e ↦ elim (remove_until-left max_bytes list (remove_axon axon b)) [
          | inl within ↦ inl (rw (e, remove_until) within)
          | inr gone ↦ inr (λ id.
              rw (e, remove_until) (ground (arith, gone id, particles-remove_axon axon id b)))
        ]
      ]

  -- A list has an id exactly if some entry has it; so sorting keeps the ids.
  mem-map :
      (id : Bytes32) (list : List (Bytes32 × ℕ))
      → mem id (map (λ (i, _). i) list) ≡ ltb 0 (count (λ (i, _). beq id i) list)
  unfolding mem
  mem-map id [] = refl
  mem-map id (c ∷ list) = ground (arith, mem-map id list)

  mem-sorted :
      (id : Bytes32) (list : List (Bytes32 × ℕ))
      → mem id (map (λ (i, _). i) (sort_by_key (λ (_, w). w) list))
        ≡ mem id (map (λ (i, _). i) list)
  mem-sorted id list =
      mem-map id (sort_by_key (λ (_, w). w) list)
      ∙ ap (ltb 0) (count-sort_by_key (λ (_, w). w) (λ (i, _). beq id i) list)
      ∙ sym (mem-map id list)

  -- A record below the floor is among the unprotected ones.
  unprotected_complete :
      (floor : ℕ) (m : Records) (id : Bytes32) (p : ParticleRecord)
      → Map.get id m ≡ some p
      → p.pi_star < floor
      → mem id (map (λ (i, _). i) (unprotected floor m)) ≡ true
  unfolding unprotected Map.get mem
  unprotected_complete floor [] id p e low = absurd (cc e)
  unprotected_complete floor ((j, q) ∷ m) id p e low = elim (Bool-cases (beq id j)) [
    | inl same ↦
        let found : some q ≡ some p = rw same at e in
        let one : q ≡ p = cc found in
        let lower : ltb q.pi_star floor ≡ true = rw one (ground (arith, low)) in
        rw lower (ground (arith, same))
    | inr other ↦
        let rest = unprotected_complete floor m id p (rw other at e) low in ground (arith, rest)
  ]

  abbrev below : BbgState → PruneConfig → List (Bytes32 × ℕ)
  below s config = unprotected (rank_floor s config.rank_floor_pct) s.particles.map

  -- What `candidates` lists of a state over its budget.
  candidates-over :
      (s : BbgState) (ps : PruneState) (config : PruneConfig) (epoch : ℕ)
      → over_budget s config ≡ true
      → length (below s config) ≤ usize_max
      → candidates s ps config epoch usize_max
        ≡ some (true, map (λ (i, _). i) (sort_by_key (λ (_, w). w) (below s config)))
  unfolding candidates eligible
  candidates-over s ps config epoch over few =
      let fits : leb (length (below s config)) usize_max ≡ true = ground (arith, few) in
      rw (over, fits) refl

  -- Pruning of a state that is over its budget ends within the budget, or every record below the
  -- floor is gone. The condition is that no more than `usize::MAX` records are below the floor.
  pub prune_records_budget :
      (config : PruneConfig) (epoch : ℕ) (s : BbgState) (ps : PruneState)
      → over_budget s config ≡ true
      → length (below s config) ≤ usize_max
      → (estimate_bytes (prune_records config epoch (s, ps)).0 ≤ config.max_bytes)
        ⊎ ((id : Bytes32) (p : ParticleRecord)
            → Map.get id (prune_records config epoch (s, ps)).0.particles.map ≡ some p
            → rank_floor s config.rank_floor_pct ≤ p.pi_star)
  unfolding prune_records
  prune_records_budget config epoch s ps over few =
      let ids = map (λ (i, _). i) (sort_by_key (λ (_, w). w) (below s config)) in
      let floor = rank_floor s config.rank_floor_pct in
      let planned = candidates-over s ps config epoch over few in
      elim (remove_until-left config.max_bytes ids (s, ps)) [
        | inl within ↦ inl (rw (planned, prune_records) within)
        | inr gone ↦ inr (λ id p e.
            let left : (if mem id ids then none else Map.get id s.particles.map) ≡ some p =
              sym (gone id) ∙ rw (planned, prune_records) at e in
            elim (Bool-cases (ltb p.pi_star floor)) [
              | inl low ↦
                  let kept : Map.get id s.particles.map ≡ some p = ground (arith, left) in
                  let listed : mem id ids ≡ true =
                    mem-sorted id (below s config)
                    ∙ unprotected_complete floor s.particles.map id p kept (ground (arith, low)) in
                  absurd (cc (rw listed at left))
              | inr high ↦ ground (arith, high)
            ])
      ]
