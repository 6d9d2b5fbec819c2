-- ===== src/Prelude/Sort.antt =====
-- `sort_by_key` of a slice: the stable sort by a number, with what it keeps and what it orders.
use Prim.Native.Nat.{ℕ, suc, ◌≤◌}
use mathlib.Core.Path.{◌≡◌, refl, ap, ◌∙◌}
use mathlib.Core.Logic.{inl, inr}
use mathlib.Core.Bool.{Bool}
use mathlib.Core.List.{List, [], ◌∷◌}
use native.Mathlib.Omega.{arith}
use bbg.Prelude.Tests.{leb, if◌then◌else◌, Bool-cases}
use bbg.Prelude.Lists.{length, All}

-- How many elements pass a test; sorting does not change it.
abbrev pub count : {A : Type 0} → (A → Bool) → List A → ℕ
count test [] = 0
count test (a ∷ list) = if test a then suc (count test list) else count test list

module _ {A : Type 0} (key : A → ℕ) where
  -- Before the first element that is not smaller.
  unfoldable pub insert_by : A → List A → List A
  insert_by a [] = a ∷ []
  insert_by a (b ∷ list) =
      let rest = insert_by a list in if leb (key a) (key b) then a ∷ b ∷ list else b ∷ rest

  unfoldable pub sort_by_key : List A → List A
  unfolding insert_by
  sort_by_key [] = []
  sort_by_key (a ∷ list) = insert_by a (sort_by_key list)

  abbrev pub IsAscending : List A → Type 0
  IsAscending [] = Unit
  IsAscending (a ∷ list) = All (λ b. key a ≤ key b) list × IsAscending list

  All-insert_by :
      (P : A → Type 0) (a : A) (list : List A) → P a → All P list → All P (insert_by a list)
  unfolding insert_by
  All-insert_by P a [] p h = (p, tt)
  All-insert_by P a (b ∷ list) p h = elim (Bool-cases (leb (key a) (key b))) [
    | inl e ↦ rw e (p, h)
    | inr e ↦ rw e (h.0, All-insert_by P a list p h.1)
  ]

  -- What holds of every element holds of every element of the sorted list.
  pub All-sort_by_key : (P : A → Type 0) (list : List A) → All P list → All P (sort_by_key list)
  unfolding sort_by_key
  All-sort_by_key P [] h = tt
  All-sort_by_key P (a ∷ list) h =
      All-insert_by P a (sort_by_key list) h.0 (All-sort_by_key P list h.1)

  All-imp : (P Q : A → Type 0) → ((a : A) → P a → Q a) → (list : List A) → All P list → All Q list
  All-imp P Q f [] h = tt
  All-imp P Q f (a ∷ list) h = (f a h.0, All-imp P Q f list h.1)

  insert_by-IsAscending :
      (a : A) (list : List A) → IsAscending list → IsAscending (insert_by a list)
  unfolding insert_by
  insert_by-IsAscending a [] h = (tt, tt)
  insert_by-IsAscending a (b ∷ list) h = elim (Bool-cases (leb (key a) (key b))) [
    | inl e ↦
        let le : key a ≤ key b = ground (arith, e) in
        rw e (
          (
            le,
            All-imp (λ c. key b ≤ key c) (λ c. key a ≤ key c) (λ c k. omega (arith, k, le)) list
                h.0,
          ),
          h,
        )
    | inr e ↦
        let ge : key b ≤ key a = ground (arith, e) in
        rw e (All-insert_by (λ c. key b ≤ key c) a list ge h.0, insert_by-IsAscending a list h.1)
  ]

  pub sort_by_key-IsAscending : (list : List A) → IsAscending (sort_by_key list)
  unfolding sort_by_key
  sort_by_key-IsAscending [] = tt
  sort_by_key-IsAscending (a ∷ list) =
      insert_by-IsAscending a (sort_by_key list) (sort_by_key-IsAscending list)

  count-insert_by :
      (test : A → Bool) (a : A) (list : List A)
      → count test (insert_by a list) ≡ count test (a ∷ list)
  unfolding insert_by
  count-insert_by test a [] = refl
  count-insert_by test a (b ∷ list) = ground (arith, count-insert_by test a list)

  pub count-sort_by_key :
      (test : A → Bool) (list : List A) → count test (sort_by_key list) ≡ count test list
  unfolding sort_by_key
  count-sort_by_key test [] = refl
  count-sort_by_key test (a ∷ list) =
      count-insert_by test a (sort_by_key list) ∙ ground (arith, count-sort_by_key test list)

  length-insert_by : (a : A) (list : List A) → length (insert_by a list) ≡ suc (length list)
  unfolding insert_by
  length-insert_by a [] = refl
  length-insert_by a (b ∷ list) = ground (arith, length-insert_by a list)

  pub length-sort_by_key : (list : List A) → length (sort_by_key list) ≡ length list
  unfolding sort_by_key
  length-sort_by_key [] = refl
  length-sort_by_key (a ∷ list) =
      length-insert_by a (sort_by_key list) ∙ ap suc (length-sort_by_key list)
