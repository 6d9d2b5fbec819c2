-- ===== src/Prune/Floor.antt =====
-- `rank_floor` of rs/src/prune.rs protects at least the percentage that it is given.
use bbg.Prelude.{
  ℕ, zero, suc, ◌+◌, ◌-◌, ◌*◌, ◌/◌, ◌≤◌, ◌<◌, ◌≡◌, refl, ap, ◌∙◌, false, List, [], ◌∷◌, length, leb,
  arith, All, get_or, map, ◌==◌, ==_iff, Bool-cases, inl, inr, subst,
}
use bbg.Prelude.Sort.{
  sort_by_key, IsAscending, sort_by_key-IsAscending, count, count-sort_by_key, length-sort_by_key,
}
use bbg.Root.{Hemera}
use bbg.State.{BbgState}
use bbg.Prune.{floor_of, scores, rank_floor}

abbrev id : ℕ → ℕ
id x = x

count-All : (a : ℕ) (list : List ℕ) → All (λ b. a ≤ b) list → count (leb a) list ≡ length list
count-All a [] h = refl
count-All a (b ∷ list) h = ground (arith, h.0, count-All a list h.1)

-- In an ascending list, the element at a place and those behind it are not below it.
count_from :
    (list : List ℕ) (at : ℕ)
    → IsAscending id list
    → at < length list
    → length list ≤ count (leb (get_or list at 0)) list + at
count_from [] at h lt = absurd (omega (arith, lt))
count_from (a ∷ list) zero h lt = ground (arith, count-All a list h.0)
count_from (a ∷ list) (suc at) h lt = ground (arith, count_from list at h.1)

times_le : (n a b : ℕ) → a ≤ b → n * a ≤ n * b
times_le zero a b h = omega arith
times_le (suc n) a b h = omega (arith, times_le n a b h, h)

times_pos : (n a : ℕ) → 1 ≤ n → 1 ≤ a → 1 ≤ n * a
times_pos zero a h k = absurd (omega (arith, h))
times_pos (suc n) a h k = omega (arith, k)

floor_of_lem :
    (pct : ℕ) (list : List ℕ)
    → pct ≤ 100
    → 1 ≤ pct
    → length list * pct ≤ count (leb (floor_of pct list)) list * 100
unfolding floor_of
floor_of_lem pct list h pos = elim (Bool-cases (length list == 0)) [
  | inl e ↦
      let empty : length list ≡ 0 = (==_iff (length list) 0).0 e in
      let nothing : length list * pct ≡ 0 = ap (λ n. n * pct) empty ∙ omega arith in
      omega (arith, nothing)
  | inr e ↦
      let filled : 1 ≤ length list = ground (arith, e) in
      let sorted = sort_by_key id list in
      let n = length list in
      let at = n - (n * pct + 99) / 100 in
      let here : at < length sorted =
        omega (arith, length-sort_by_key id list, times_pos n pct filled pos) in
      let many : length sorted ≤ count (leb (get_or sorted at 0)) sorted + at =
        count_from sorted at (sort_by_key-IsAscending id list) here in
      let same : count (leb (get_or sorted at 0)) sorted ≡ count (leb (get_or sorted at 0)) list =
        count-sort_by_key id (leb (get_or sorted at 0)) list in
      rw (e, floor_of) (omega (arith, many, same, length-sort_by_key id list, times_le n pct 100 h))
]

module _ ⦃H : Hemera⦄ where
  -- For a percentage from 1 to 100, at least that share of the particles has a score that is not
  -- below the floor, and so is protected.
  pub rank_floor_protects :
      (s : BbgState) (pct : ℕ)
      → pct ≤ 100
      → 1 ≤ pct
      → length s.particles.map * pct ≤ count (leb (rank_floor s pct)) (scores s.particles.map) * 100
  unfolding rank_floor
  rank_floor_protects s pct h pos =
      let some_share : (pct == 0) ≡ false = ground (arith, pos) in
      let same : length (scores s.particles.map) ≡ length s.particles.map =
        length-map _ s.particles.map in
      rw (some_share, rank_floor)
        (subst
          (λ n.
            n * pct
            ≤ count (leb (floor_of pct (scores s.particles.map))) (scores s.particles.map) * 100)
          same (floor_of_lem pct (scores s.particles.map) h pos))
    where
      length-map : {A B : Type 0} (f : A → B) (list : List A) → length (map f list) ≡ length list
      length-map f [] = refl
      length-map f (a ∷ list) = ap suc (length-map f list)
