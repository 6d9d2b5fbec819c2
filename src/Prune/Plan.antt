-- ===== src/Prune/Plan.antt =====
-- What pruning in rs/src/prune.rs may remove, what it must leave, and where it stops.
use bbg.Prelude.{
  ℕ, ◌≤◌, ◌<◌, ◌≡◌, refl, ap, ◌∙◌, Bool, true, ◌&&◌, Option, none, some, List, [], ◌∷◌, map, length,
  leb, ltb, arith, All, if◌then◌else◌, Bool-cases, inl, inr, ◌⊎◌,
}
use bbg.Prelude.Ord.{beq, eq_of_beq}
use bbg.Prelude.Sort.{sort_by_key, IsAscending, sort_by_key-IsAscending, All-sort_by_key}
use bbg.Bytes.{Bytes32, bytes32_ord}
use bbg.Root.{Hemera}
use bbg.Map
use bbg.Map.{Map}
use bbg.Map.Sorted.{IsSorted, entries_held}
use bbg.Types.{ParticleRecord}
use bbg.Commits.{particle_value}
use bbg.Keyed.{bytes32_key}
use bbg.Keyed.Invariant.{remove_gets}
use bbg.State.{BbgState}
use bbg.Prune.{
  PruneConfig, PruneState, pi_or_zero, weight_or_zero, unprotected, is_stale, stale, rank_floor,
  over_budget, eligible, candidates, estimate_bytes, remove_edge, remove_axon, remove_until,
}

abbrev pub Records : Type 0
Records = Map Bytes32 ParticleRecord

-- A candidate has a score below the floor and its own weight.
pub record IsCandidate (particles : Records) (floor : ℕ) (c : Bytes32 × ℕ) : Type 0 where
  pub below : pi_or_zero (Map.get c.0 particles) < floor
  pub weighs : c.1 ≡ weight_or_zero (Map.get c.0 particles)

unprotected-All :
    (particles : Records) (floor : ℕ) (m : Records)
    → All (λ e. Map.get e.0 particles ≡ some e.1) m
    → All (IsCandidate particles floor) (unprotected floor m)
unfolding unprotected
unprotected-All particles floor [] h = tt
unprotected-All particles floor ((id, p) ∷ m) h = elim (Bool-cases (ltb p.pi_star floor)) [
  | inl e ↦
      rw (e, unprotected)
        (
          record { below = rw h.0 (ground (arith, e)); weighs = rw h.0 refl },
          unprotected-All particles floor m h.1,
        )
  | inr e ↦ rw (e, unprotected) (unprotected-All particles floor m h.1)
]

is_stale-below :
    (particles : Records) (floor half_life epoch : ℕ) (id : Bytes32) (last : ℕ)
    → is_stale particles floor half_life epoch id last ≡ true
    → pi_or_zero (Map.get id particles) < floor
unfolding is_stale
is_stale-below particles floor half_life epoch id last h = ground (arith, h)

stale-All :
    (particles : Records) (floor half_life epoch : ℕ) (m : Map Bytes32 ℕ)
    → All (IsCandidate particles floor) (stale particles floor half_life epoch m)
unfolding stale
stale-All particles floor half_life epoch [] = tt
stale-All particles floor half_life epoch ((id, last) ∷ m) =
    elim (Bool-cases (is_stale particles floor half_life epoch id last)) [
      | inl e ↦
          rw (e, stale)
            (
              record {
                below = is_stale-below particles floor half_life epoch id last e;
                weighs = refl;
              },
              stale-All particles floor half_life epoch m,
            )
      | inr e ↦ rw (e, stale) (stale-All particles floor half_life epoch m)
    ]

module _ ⦃H : Hemera⦄ where
  eligible-All :
      (s : BbgState) (ps : PruneState) (config : PruneConfig) (epoch : ℕ)
      → IsSorted s.particles.map
      → All
          (IsCandidate s.particles.map (rank_floor s config.rank_floor_pct))
          (eligible s ps config epoch)
  unfolding eligible
  eligible-All s ps config epoch sorted = elim (Bool-cases (over_budget s config)) [
    | inl e ↦
        rw (e, eligible) (unprotected-All _ _ s.particles.map (entries_held s.particles.map sorted))
    | inr e ↦ rw (e, eligible) (stale-All _ _ _ epoch ps.last_touched)
  ]

  abbrev pub weight_of : Records → Bytes32 → ℕ
  weight_of particles id = weight_or_zero (Map.get id particles)

  ids_below :
      (particles : Records) (floor : ℕ) (list : List (Bytes32 × ℕ))
      → All (IsCandidate particles floor) list
      → All (λ id. pi_or_zero (Map.get id particles) < floor) (map (λ (id, _). id) list)
  ids_below particles floor [] h = tt
  ids_below particles floor (c ∷ list) h = (h.0.below, ids_below particles floor list h.1)

  ids_above :
      (particles : Records) (floor bound : ℕ) (list : List (Bytes32 × ℕ))
      → All (IsCandidate particles floor) list
      → All (λ c. bound ≤ c.1) list
      → All (λ id. bound ≤ weight_of particles id) (map (λ (id, _). id) list)
  ids_above particles floor bound [] h a = tt
  ids_above particles floor bound (c ∷ list) h a =
      (rw (← h.0.weighs) a.0, ids_above particles floor bound list h.1 a.1)

  ids-IsAscending :
      (particles : Records) (floor : ℕ) (list : List (Bytes32 × ℕ))
      → All (IsCandidate particles floor) list
      → IsAscending (λ (_, w). w) list
      → IsAscending (weight_of particles) (map (λ (id, _). id) list)
  ids-IsAscending particles floor [] h a = tt
  ids-IsAscending particles floor (c ∷ list) h a = (
    rw (← h.0.weighs) (ids_above particles floor c.1 list h.1 a.0),
    ids-IsAscending particles floor list h.1 a.1,
  )

  -- `candidates` fails exactly if there are more eligible entries than the limit. Otherwise it tells
  -- whether the state is over its budget, every candidate has a score below the floor (0 if it has
  -- no record), and the candidates ascend by weight (0 if there is no record). The condition is
  -- that the particles are in ascending order of their ids.
  pub candidates_lem :
      (s : BbgState) (ps : PruneState) (config : PruneConfig) (epoch limit : ℕ)
      → IsSorted s.particles.map
      → ((limit < length (eligible s ps config epoch))
          × (candidates s ps config epoch limit ≡ none))
        ⊎ ((length (eligible s ps config epoch) ≤ limit)
            × ((list : List Bytes32) × (candidates s ps config epoch limit
                  ≡ some (over_budget s config, list))
                × All
                    (λ id.
                      pi_or_zero (Map.get id s.particles.map) < rank_floor s config.rank_floor_pct)
                    list
                × IsAscending (weight_of s.particles.map) list))
  unfolding candidates
  candidates_lem s ps config epoch limit sorted =
      let found = eligible s ps config epoch in
      let fit = All-sort_by_key (λ (_, w). w) _ found (eligible-All s ps config epoch sorted) in
      elim (Bool-cases (leb (length found) limit)) [
        | inl e ↦ inr (
          ground (arith, e),
          (
            map (λ (id, _). id) (sort_by_key (λ (_, w). w) found),
            rw (e, candidates) refl,
            ids_below _ _ _ fit,
            ids-IsAscending _ _ _ fit (sort_by_key-IsAscending (λ (_, w). w) found),
          ),
        )
        | inr e ↦ inl (ground (arith, e), rw (e, candidates) refl)
      ]

  -- The records that the removal of one axon leaves.
  pub particles-remove_axon :
      (axon id : Bytes32) (b : BbgState × PruneState)
      → Map.get id (remove_axon axon b).0.particles.map
        ≡ (if beq id axon then none else Map.get id b.0.particles.map)
  unfolding remove_axon remove_edge
  particles-remove_axon axon id (s, ps) =
      ap (λ m. Map.get id m) (kept (Map.get axon s.axon_edges) _)
      ∙ remove_gets ⦃value = particle_value⦄ axon s.particles id
    where
      kept :
          (edge : Option (Bytes32 × Bytes32)) (t : BbgState)
          → (remove_edge edge axon t).particles.map ≡ t.particles.map
      kept none t = refl
      kept (some (from, to)) t = refl

  pub remove_until-protected :
      (over : Bool) (max_bytes floor : ℕ) (list : List Bytes32) (b : BbgState × PruneState)
      (particles : Records) (id : Bytes32) (p : ParticleRecord)
      → All (λ c. pi_or_zero (Map.get c particles) < floor) list
      → Map.get id particles ≡ some p
      → floor ≤ p.pi_star
      → Map.get id b.0.particles.map ≡ some p
      → Map.get id (remove_until over max_bytes list b).0.particles.map ≡ some p
  unfolding remove_until
  remove_until-protected over max_bytes floor [] b particles id p h e high now = now
  remove_until-protected over max_bytes floor (axon ∷ list) b particles id p h e high now =
      elim (Bool-cases (over && leb (estimate_bytes b.0) max_bytes)) [
        | inl stop ↦ rw (stop, remove_until) now
        | inr go ↦
            rw (go, remove_until)
              (remove_until-protected over max_bytes floor list (remove_axon axon b) particles id p
                h.1 e high
                (particles-remove_axon axon id b ∙ elim (Bool-cases (beq id axon)) [
                  | inl same ↦ absurd (clash same)
                  | inr other ↦ rw other now
                ]))
      ]
    where
      clash : beq id axon ≡ true → ⊥
      clash same =
          let below : pi_or_zero (Map.get id particles) < floor =
            rw (← eq_of_beq id axon same) at h.0 in
          let wrong : p.pi_star < floor = rw e at below in omega (arith, wrong, high)
