-- ===== src/Prelude/Ord.antt =====
-- Rust's `Ord` on a key type: a three-way comparison with the laws that the trait asks of it, its
-- `==` read as `≡`. Instances for the numbers and, lexicographically, for lists of numbers.
use Prim.Native.Nat.{ℕ, compare, Ordering}
use Prim.Native.Nat.Ordering.{lt, eq, gt}
use mathlib.Core.Path.{◌≡◌, refl}
use mathlib.Core.Logic.{◌↔◌, ◌≢◌, inl, inr}
use mathlib.Core.Bool.{Bool, true, false}
use mathlib.Core.List.{List, [], ◌∷◌}
use bbg.Prelude.Tests.{Bool-cases}
use native.Mathlib.Omega.{arith}

pub record IsTotalOrder {ℓ} {K : Type ℓ} (cmp : K → K → Ordering) : Type ℓ where
  pub lt_trans : (x y z : K) → cmp x y ≡ lt → cmp y z ≡ lt → cmp x z ≡ lt
  pub eq_of_cmp : (x y : K) → cmp x y ≡ eq → x ≡ y
  pub gt_of_lt : (x y : K) → cmp x y ≡ lt → cmp y x ≡ gt
  pub cmp_refl : (x : K) → cmp x x ≡ eq
  pub lt_of_gt : (x y : K) → cmp x y ≡ gt → cmp y x ≡ lt

-- The comparison with its laws, which are fields of the interface too.
pub record Ord {ℓ} (K : Type ℓ) : Type ℓ where
  pub cmp : K → K → Ordering
  pub total : IsTotalOrder cmp
  pub open total use *

-- `k == j` of the source.
abbrev pub beq {ℓ} : {K : Type ℓ} ⦃o : Ord K⦄ → K → K → Bool
beq ⦃o⦄ a b = elim (o.cmp a b) [ eq ↦ true | _ ↦ false ]

pub beq_iff {ℓ} : {K : Type ℓ} ⦃o : Ord K⦄ (a b : K) → (beq a b ≡ true) ↔ (a ≡ b)
beq_iff ⦃o⦄ a b = (λ h. ground (arith, o.eq_of_cmp a b), λ h. ground (arith, o.cmp_refl a))

module _ {ℓ} {K : Type ℓ} ⦃o : Ord K⦄ where
  pub eq_of_beq : (a b : K) → beq a b ≡ true → a ≡ b
  eq_of_beq a b h = (beq_iff a b).0 h

  pub beq_self : (a : K) → beq a a ≡ true
  beq_self a = (beq_iff a a).1 refl

  pub beq_of_ne : (a b : K) → a ≢ b → beq a b ≡ false
  beq_of_ne a b h = elim (Bool-cases (beq a b)) [ inl e ↦ absurd (h (eq_of_beq a b e)) | inr e ↦ e ]

  pub ne_of_beq : (a b : K) → beq a b ≡ false → a ≢ b
  ne_of_beq a b h e = cc ((beq_iff a b).1 e)

pub compare-IsTotalOrder : IsTotalOrder compare
compare-IsTotalOrder = ground arith

instance unfoldable pub nat_ord : Ord ℕ
nat_ord = record { cmp = compare; total = compare-IsTotalOrder }

abbrev then_cmp : Ordering → Ordering → Ordering
then_cmp eq second = second
then_cmp first _ = first

unfoldable pub cmp_list : List ℕ → List ℕ → Ordering
cmp_list [] [] = eq
cmp_list [] (y ∷ ys) = lt
cmp_list (x ∷ xs) [] = gt
cmp_list (x ∷ xs) (y ∷ ys) = then_cmp (compare x y) (cmp_list xs ys)

cmp_list_refl : (a : List ℕ) → cmp_list a a ≡ eq
unfolding cmp_list
cmp_list_refl [] = refl
cmp_list_refl (x ∷ xs) = ground (arith, cmp_list_refl xs)

eq_of_cmp_list : (a b : List ℕ) → cmp_list a b ≡ eq → a ≡ b
unfolding cmp_list
eq_of_cmp_list [] [] h = refl
eq_of_cmp_list [] (y ∷ ys) h = ground arith
eq_of_cmp_list (x ∷ xs) [] h = ground arith
eq_of_cmp_list (x ∷ xs) (y ∷ ys) h = ground (arith, eq_of_cmp_list xs ys)

gt_of_lt_list : (a b : List ℕ) → cmp_list a b ≡ lt → cmp_list b a ≡ gt
unfolding cmp_list
gt_of_lt_list [] [] h = ground arith
gt_of_lt_list [] (y ∷ ys) h = refl
gt_of_lt_list (x ∷ xs) [] h = ground arith
gt_of_lt_list (x ∷ xs) (y ∷ ys) h = ground (arith, gt_of_lt_list xs ys)

lt_of_gt_list : (a b : List ℕ) → cmp_list a b ≡ gt → cmp_list b a ≡ lt
unfolding cmp_list
lt_of_gt_list [] [] h = ground arith
lt_of_gt_list [] (y ∷ ys) h = ground arith
lt_of_gt_list (x ∷ xs) [] h = refl
lt_of_gt_list (x ∷ xs) (y ∷ ys) h = ground (arith, lt_of_gt_list xs ys)

lt_trans_list : (a b c : List ℕ) → cmp_list a b ≡ lt → cmp_list b c ≡ lt → cmp_list a c ≡ lt
unfolding cmp_list
lt_trans_list [] [] c h k = ground arith
lt_trans_list [] (y ∷ ys) [] h k = ground arith
lt_trans_list [] (y ∷ ys) (z ∷ zs) h k = refl
lt_trans_list (x ∷ xs) [] c h k = ground arith
lt_trans_list (x ∷ xs) (y ∷ ys) [] h k = ground arith
lt_trans_list (x ∷ xs) (y ∷ ys) (z ∷ zs) h k = ground (arith, lt_trans_list xs ys zs)

pub cmp_list-IsTotalOrder : IsTotalOrder cmp_list
cmp_list-IsTotalOrder = record {
  cmp_refl = cmp_list_refl;
  eq_of_cmp = eq_of_cmp_list;
  gt_of_lt = gt_of_lt_list;
  lt_of_gt = lt_of_gt_list;
  lt_trans = lt_trans_list;
}
