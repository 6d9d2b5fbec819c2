-- ===== src/AxonIndex/Longest.antt =====
-- `AxonIndex::max_degree` of rs/src/keyed.rs, a read of the histogram, against the lists themselves.
use bbg.Prelude.{
  ℕ, ◌≤◌, ◌≡◌, refl, false, none, some, List, [], ◌∷◌, length, ◌==◌, arith, Bool-cases, inl, inr,
  ◌∙◌, ◌⊎◌,
}
use bbg.Prelude.Ord.{beq, eq_of_beq, beq_self, nat_ord}
use bbg.Bytes.{Bytes32, bytes32_ord}
use bbg.Root.{Hemera}
use bbg.Map
use bbg.Map.{Map}
use bbg.Map.Sorted.{IsSorted, Above, get-Above}
use bbg.AxonIndex.{AxonIndex, degree, last_key, max_degree}
use bbg.AxonIndex.Degrees.{count, length_at}
use bbg.AxonIndex.AddLaw.{IsMirror}

module _ ⦃H : Hemera⦄ where
  last_key-Above : (d n : ℕ) (m : Map ℕ ℕ) → IsSorted m → Above d m → d ≤ last_key ((d, n) ∷ m)
  unfolding last_key nat_ord
  last_key-Above d n [] s a = omega arith
  last_key-Above d n ((e, k) ∷ m) s a = ground (arith, a.0, last_key-Above e k m s.1 s.0)

  last_key-bound : (m : Map ℕ ℕ) → IsSorted m → (d n : ℕ) → Map.get d m ≡ some n → d ≤ last_key m
  unfolding last_key nat_ord Map.get
  last_key-bound [] s d n h = absurd (cc h)
  last_key-bound ((e, k) ∷ []) s d n h = ground (arith, h)
  last_key-bound ((e, k) ∷ f ∷ m) s d n h = elim (Bool-cases (beq d e)) [
    | inl same ↦ rw (eq_of_beq d e same) (last_key-Above e k (f ∷ m) s.1 s.0)
    | inr other ↦ last_key-bound (f ∷ m) s.1 d n (ground (arith, other, h))
  ]

  last_key-held :
      (d n : ℕ) (m : Map ℕ ℕ) → (k : ℕ) × (Map.get (last_key ((d, n) ∷ m)) ((d, n) ∷ m) ≡ some k)
  unfolding last_key nat_ord Map.get
  last_key-held d n [] = (n, ground arith)
  last_key-held d n ((e, i) ∷ m) =
      let last = last_key ((e, i) ∷ m) in
      let (k, held) = last_key-held e i m in
      elim (Bool-cases (beq last d)) [
        | inl same ↦ (n, rw same refl)
        | inr other ↦ (k, rw other held)
      ]

  count-held :
      (p : Bytes32) (m : Map Bytes32 (List Bytes32))
      → length_at p m ≡ 0 ⊎ 1 ≤ count (length_at p m) m
  unfolding count Map.get
  count-held p [] = inl refl
  count-held p ((q, list) ∷ m) = elim (Bool-cases (beq p q)) [
    | inl same ↦ inr (ground (arith, same))
    | inr other ↦ ground (arith, other, count-held p m)
  ]

  -- A counted list is some particle's.
  held-count :
      (d : ℕ) (m : Map Bytes32 (List Bytes32))
      → (d == 0) ≡ false
      → IsSorted m
      → 1 ≤ count d m
      → (p : Bytes32) × (length_at p m ≡ d)
  unfolding count Map.get
  held-count d [] pos s h = absurd (omega (arith, h))
  held-count d ((q, list) ∷ m) pos s h = elim (Bool-cases (length list == d)) [
    | inl same ↦ (q, ground (arith, same, beq_self q))
    | inr other ↦
        let (p, found) = held-count d m pos s.1 (ground (arith, h, other)) in
        elim (Bool-cases (beq p q)) [
          | inl equal ↦
              let gone : Map.get p m ≡ none = rw (eq_of_beq p q equal) (get-Above q m s.0) in
              let none_there : length_at p m ≡ 0 = rw gone refl in
              absurd (ground (arith, pos, found, none_there))
          | inr far ↦ (p, ground (arith, far, found))
        ]
  ]

  -- In a well-formed index, no particle's list is longer than `max_degree` says, and some particle's
  -- list is that long, unless it says 0.
  pub max_degree-longest :
      (x : AxonIndex)
      → IsMirror x
      → ((p : Bytes32) → degree x p ≤ max_degree x)
        × ((max_degree x ≡ 0) ⊎ ((p : Bytes32) × (degree x p ≡ max_degree x)))
  unfolding degree max_degree
  max_degree-longest x v = (
    λ p. elim (Bool-cases (degree x p == 0)) [
      | inl e ↦ ground (arith, e)
      | inr e ↦
          let d = degree x p in
          let some_held : 1 ≤ count d x.map = ground (arith, e, count-held p x.map) in
          last_key-bound x.degrees v.tracks.ordered d (count d x.map)
            (v.tracks.tracked d ∙ ground (arith, e, some_held))
    ],
    attained x.degrees refl,
  )
    where
      attained :
          (degrees : Map ℕ ℕ)
          → x.degrees ≡ degrees
          → (last_key x.degrees ≡ 0) ⊎ ((p : Bytes32) × (degree x p ≡ last_key x.degrees))
      attained [] e = inl (rw e refl)
      attained ((d, n) ∷ m) e = elim (Bool-cases (last_key x.degrees == 0)) [
        | inl none_there ↦ inl (ground (arith, none_there))
        | inr pos ↦
            let held : (k : ℕ) × (Map.get (last_key x.degrees) x.degrees ≡ some k) =
              rw e (last_key-held d n m) in
            let counted : 1 ≤ count (last_key x.degrees) x.map =
              ground (arith, held.1, pos, v.tracks.tracked (last_key x.degrees)) in
            inr (held-count (last_key x.degrees) x.map pos v.sorted counted)
      ]
