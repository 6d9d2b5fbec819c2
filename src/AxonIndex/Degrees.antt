-- ===== src/AxonIndex/Degrees.antt =====
-- The histogram of `AxonIndex` in rs/src/keyed.rs, by its method `degree_moved`: it counts the lists
-- of every length, and the moves of one list keep it so without a panic.
use bbg.Prelude.{
  ℕ, ◌+◌, ◌-◌, ◌≤◌, ◌≡◌, refl, false, Option, none, some, List, [], ◌∷◌, length, if◌then◌else◌,
  ◌==◌, arith, Bool-cases, Option-cases, inl, inr, ◌∙◌,
}
use bbg.Prelude.Ord.{beq, eq_of_beq, nat_ord}
use bbg.Bytes.{Bytes32, bytes32_ord}
use bbg.Root.{Hemera}
use bbg.Map
use bbg.Map.{Map}
use bbg.Map.Laws.{get-insert, get-remove}
use bbg.Map.Sorted.{
  IsSorted, insert-IsSorted, remove-IsSorted, get-Above, Above-trans, Ordering-cases,
}
use bbg.AxonIndex.{AxonIndex, list_or_empty, degree_left, degree_entered, degree_moved}

module _ ⦃H : Hemera⦄ where
  -- 1 for a list of the degree.
  abbrev pub one : ℕ → ℕ → ℕ
  one d n = if n == d then 1 else 0

  unfoldable pub count : ℕ → Map Bytes32 (List Bytes32) → ℕ
  count d [] = 0
  count d ((p, list) ∷ m) = one d (length list) + count d m

  -- What the histogram holds under `d` if `n` lists have that length.
  abbrev pub tally : ℕ → ℕ → Option ℕ
  tally d n = if d == 0 then none else if n == 0 then none else some n

  abbrev pub length_at : Bytes32 → Map Bytes32 (List Bytes32) → ℕ
  length_at p m = length (list_or_empty (Map.get p m))

  pub count-insert :
      (d : ℕ) (p : Bytes32) (list : List Bytes32) (m : Map Bytes32 (List Bytes32))
      → (d == 0) ≡ false
      → IsSorted m
      → count d (Map.insert p list m) + one d (length_at p m) ≡ count d m + one d (length list)
  unfolding count Map.insert Map.get
  count-insert d p list [] h s = ground (arith, h)
  count-insert d p list ((q, other) ∷ m) h s = elim (Ordering-cases (bytes32_ord.cmp p q)) [
    | inl before ↦
        let gone = get-Above p m (Above-trans p q m before s.0) in ground (arith, h, before, gone)
    | inr (inl same) ↦ ground (arith, same)
    | inr (inr after) ↦ ground (arith, after, count-insert d p list m h s.1)
  ]

  pub count-remove :
      (d : ℕ) (p : Bytes32) (m : Map Bytes32 (List Bytes32))
      → (d == 0) ≡ false
      → IsSorted m
      → count d (Map.remove p m) + one d (length_at p m) ≡ count d m
  unfolding count Map.remove Map.get
  count-remove d p [] h s = ground (arith, h)
  count-remove d p ((q, other) ∷ m) h s = elim (Bool-cases (beq p q)) [
    | inl same ↦
        let gone : Map.get p m ≡ none = rw (eq_of_beq p q same) (get-Above q m s.0) in
        ground (arith, h, same, gone, count-remove d p m h s.1)
    | inr other ↦ ground (arith, other, count-remove d p m h s.1)
  ]

  -- The histogram is that of the counts `c`.
  pub record Tracks (degrees : Map ℕ ℕ) (c : ℕ → ℕ) : Type 0 where
    pub tracked : (d : ℕ) → Map.get d degrees ≡ tally d (c d)
    pub ordered : IsSorted degrees

  degree_left-Tracks :
      (old : ℕ) (degrees : Map ℕ ℕ) (c : ℕ → ℕ)
      → Tracks degrees c
      → ((old == 0) ≡ false → 1 ≤ c old)
      → (left : Map ℕ ℕ) × (degree_left old degrees ≡ some left)
        × Tracks left (λ d. c d - one d old)
  unfolding degree_left nat_ord
  degree_left-Tracks old degrees c t held = elim (Bool-cases (old == 0)) [
    | inl e ↦ (
      degrees,
      rw e refl,
      record { tracked = λ d. ground (arith, e, t.tracked d); ordered = t.ordered },
    )
    | inr e ↦
        let here : Map.get old degrees ≡ some (c old) = ground (arith, t.tracked old, e, held e) in
        let some_held : (c old == 0) ≡ false = ground (arith, held e) in
        elim (Bool-cases (c old - 1 == 0)) [
          | inl last ↦ (
            Map.remove old degrees,
            rw (e, here, some_held, last) refl,
            record {
              tracked = λ d. get-remove old degrees d ∙ ground (arith, last, e, t.tracked d);
              ordered = remove-IsSorted old degrees t.ordered;
            },
          )
          | inr more ↦ (
            Map.insert old (c old - 1) degrees,
            rw (e, here, some_held, more) refl,
            record {
              tracked =
                  λ d. get-insert old (c old - 1) degrees d ∙ ground (arith, more, e, t.tracked d);
              ordered = insert-IsSorted old (c old - 1) degrees t.ordered;
            },
          )
        ]
  ]

  degree_entered-Tracks :
      (next : ℕ) (degrees : Map ℕ ℕ) (c : ℕ → ℕ)
      → Tracks degrees c
      → Tracks (degree_entered next degrees) (λ d. c d + one d next)
  unfolding degree_entered nat_ord
  degree_entered-Tracks next degrees c t = elim (Bool-cases (next == 0)) [
    | inl e ↦
        rw (e, degree_entered)
          (record { tracked = λ d. ground (arith, e, t.tracked d); ordered = t.ordered })
    | inr e ↦ elim (Option-cases (Map.get next degrees)) [
      | inl absent ↦
          rw (e, absent, degree_entered)
            (record {
              tracked = λ d.
                  get-insert next 1 degrees d
                  ∙ ground (arith, e, absent, t.tracked d, t.tracked next);
              ordered = insert-IsSorted next 1 degrees t.ordered;
            })
      | inr (n, found) ↦
          rw (e, found, degree_entered)
            (record {
              tracked = λ d.
                  get-insert next (n + 1) degrees d
                  ∙ ground (arith, e, found, t.tracked d, t.tracked next);
              ordered = insert-IsSorted next (n + 1) degrees t.ordered;
            })
    ]
  ]

  same_counts :
      (degrees : Map ℕ ℕ) (c after : ℕ → ℕ)
      → Tracks degrees c
      → ((d : ℕ) → (d == 0) ≡ false → after d ≡ c d)
      → Tracks degrees after
  same_counts degrees c after t same = record {
    tracked = λ d. t.tracked d ∙ ground (arith, same d);
    ordered = t.ordered;
  }

  -- Where the histogram tracks the lists before one of them goes from length `old` to `next`,
  -- `degree_moved` does not panic and makes it track them afterwards.
  pub degree_moved-Tracks :
      (old next : ℕ) (x : AxonIndex) (c after : ℕ → ℕ)
      → Tracks x.degrees c
      → ((d : ℕ) → (d == 0) ≡ false → after d + one d old ≡ c d + one d next)
      → ((degree_moved old next x).panicked ≡ x.panicked)
        × Tracks (degree_moved old next x).degrees after
  unfolding degree_moved
  degree_moved-Tracks old next x c after t moves = elim (Bool-cases (old == next)) [
    | inl e ↦
        rw (e, degree_moved)
          (refl, same_counts x.degrees c after t (λ d h. ground (arith, e, moves d h)))
    | inr e ↦
        let (left, done, t1) =
          degree_left-Tracks old x.degrees c t (λ h. ground (arith, e, moves old h)) in
        rw (e, done, degree_moved)
          (
            refl,
            same_counts _ _ after (degree_entered-Tracks next left _ t1)
                (λ d h. ground (arith, e, moves d h)),
          )
  ]
