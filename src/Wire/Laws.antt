-- ===== src/Wire/Laws.antt =====
-- Reading back what was written, with any bytes behind it.
use mathlib.Core.HLevel.{Σ_prop_path}
use mathlib.Core.Bool.{Bool-set}
use native.Mathlib.Nat.{pow-succ'}
use bbg.Prelude.{
  ℕ, zero, suc, ◌/◌, ◌^◌, ◌<◌, ◌≡◌, refl, ap, sym, ◌∙◌, true, false, Option, none, some, List, [],
  ◌∷◌, ◌++◌, length, ◌==◌, ◌&&◌, ==_iff, &&-eq_true, Bool-cases, inl, inr, ◌⊎◌, arith, append_assoc,
  All,
}
use bbg.Bytes.{are_bytes}
use bbg.Wire.{
  take, drop, Array, le_bytes, from_le, to_array, Read, read_array, read_le, read_list, concat_map,
}

pub take-append {ℓ} : {A : Type ℓ} (n : ℕ) (xs ys : List A) → length xs ≡ n → take n (xs ++ ys) ≡ xs
take-append zero [] ys h = refl
take-append zero (x ∷ xs) ys h = absurd (omega arith)
take-append (suc n) [] ys h = absurd (omega arith)
take-append (suc n) (x ∷ xs) ys h = ap (λ r. x ∷ r) (take-append n xs ys (omega arith))

pub drop-append {ℓ} : {A : Type ℓ} (n : ℕ) (xs ys : List A) → length xs ≡ n → drop n (xs ++ ys) ≡ ys
drop-append zero [] ys h = refl
drop-append zero (x ∷ xs) ys h = absurd (omega arith)
drop-append (suc n) [] ys h = absurd (omega arith)
drop-append (suc n) (x ∷ xs) ys h = drop-append n xs ys (omega arith)

pub length-le_bytes : (k v : ℕ) → length (le_bytes k v) ≡ k
unfolding le_bytes
length-le_bytes zero v = refl
length-le_bytes (suc k) v = ap suc (length-le_bytes k (v / 256))

pub from_le-le_bytes : (k v : ℕ) → v < 256 ^ k → from_le (le_bytes k v) ≡ v
unfolding le_bytes from_le
from_le-le_bytes zero v h = omega arith
from_le-le_bytes (suc k) v h =
    omega (arith, from_le-le_bytes k (v / 256) (omega (arith, pow-succ' 256 k, h)))

pub length-Array : (n : ℕ) (a : Array n) → length a.0 ≡ n
length-Array n a = (==_iff _ _).0 (&&-eq_true (length a.0 == n) (are_bytes a.0) a.1).0

pub Array-eq : (n : ℕ) (a b : Array n) → a.0 ≡ b.0 → a ≡ b
Array-eq n a b h =
    Σ_prop_path {B = λ bs. (length bs == n && are_bytes bs) ≡ true} (λ bs. Bool-set _ true) h

pub to_array_self : (n : ℕ) (a : Array n) → to_array n a.0 ≡ some a
unfolding to_array
to_array_self n a = split_on (Bool-cases (length a.0 == n && are_bytes a.0))
  where
    split_on :
        (c : ((length a.0 == n && are_bytes a.0) ≡ true)
          ⊎ ((length a.0 == n && are_bytes a.0) ≡ false))
        → (elim c as (λ _. Option (Array n)) [ inl fits ↦ some (a.0, fits) | inr _ ↦ none ])
          ≡ some a
    split_on (inl fits) = ap some (Array-eq n (a.0, fits) a refl)
    split_on (inr e) = absurd (cc (sym a.1 ∙ e))

pub read_array-append :
    (n : ℕ) (a : Array n) (rest : List ℕ) → read_array n (a.0 ++ rest) ≡ some (a, rest)
unfolding read_array
read_array-append n a rest =
    rw
      (
        take-append n a.0 rest (length-Array n a),
        drop-append n a.0 rest (length-Array n a),
        to_array_self n a,
      )
      refl

pub read_le-append :
    (k v : ℕ) (rest : List ℕ) → v < 256 ^ k → read_le k (le_bytes k v ++ rest) ≡ some (v, rest)
unfolding read_le
read_le-append k v rest h =
    let l = length-le_bytes k v in
    rw
      (
        take-append k (le_bytes k v) rest l,
        drop-append k (le_bytes k v) rest l,
        (==_iff _ _).1 l,
        from_le-le_bytes k v h,
      )
      refl

-- A list is read back if each of its elements is.
pub read_list-append {ℓ} :
    {A : Type ℓ} (read : Read A) (encode : A → List ℕ) (Fits : A → Type 0)
    → ((a : A) (rest : List ℕ) → Fits a → read (encode a ++ rest) ≡ some (a, rest))
    → (list : List A) (rest : List ℕ) → All Fits list
    → read_list read (length list) (concat_map encode list ++ rest) ≡ some (list, rest)
unfolding read_list concat_map
read_list-append read encode Fits one [] rest h = refl
read_list-append read encode Fits one (a ∷ list) rest h =
    rw
      (
        append_assoc (encode a) (concat_map encode list) rest,
        one a (concat_map encode list ++ rest) h.0,
        read_list-append read encode Fits one list rest h.1,
      )
      refl
