-- ===== src/Wire.antt =====
-- Byte encodings that the program writes by hand: little- and big-endian integers, arrays of a fixed
-- length, and cursors over a buffer. A cursor is the bytes that are left; a read that wants more
-- bytes than are left fails.
pub mod Laws
use bbg.Prelude.{
  ℕ, zero, suc, ◌+◌, ◌*◌, ◌/◌, ◌%◌, ◌^◌, ◌≡◌, Bool, true, false, Option, none, some, List, [], ◌∷◌,
  ◌++◌, length, if◌then◌else◌, ◌==◌, ◌&&◌, Bool-cases, inl, inr,
}
use mathlib.Core.List.{reverse}
use bbg.Bytes.{are_bytes}

-- A chain of reads, each of which may fail.
infixl 5 ◌>>=◌
abbrev pub ◌>>=◌ {ℓ κ} : {A : Type ℓ} {B : Type κ} → Option A → (A → Option B) → Option B
none >>= f = none
some a >>= f = f a

abbrev pub take {ℓ} : {A : Type ℓ} → ℕ → List A → List A
take zero xs = []
take (suc n) [] = []
take (suc n) (x ∷ xs) = x ∷ take n xs

abbrev pub drop {ℓ} : {A : Type ℓ} → ℕ → List A → List A
drop zero xs = xs
drop (suc n) [] = []
drop (suc n) (x ∷ xs) = drop n xs

-- `[u8; n]`
abbrev pub Array : ℕ → Type 0
Array n = (bs : List ℕ) × ((length bs == n && are_bytes bs) ≡ true)

-- `to_le_bytes` of an integer of `k` bytes
unfoldable pub le_bytes : ℕ → ℕ → List ℕ
le_bytes zero v = []
le_bytes (suc k) v = v % 256 ∷ le_bytes k (v / 256)

-- `from_le_bytes`
unfoldable pub from_le : List ℕ → ℕ
from_le [] = 0
from_le (b ∷ bs) = b + 256 * from_le bs

-- `to_be_bytes` of an integer of `k` bytes
unfoldable pub be_bytes : ℕ → ℕ → List ℕ
unfolding le_bytes
be_bytes k v = reverse (le_bytes k v)

-- The bytes as an array, if they are as many as it has.
unfoldable pub to_array : (n : ℕ) → List ℕ → Option (Array n)
to_array n bs = elim (Bool-cases (length bs == n && are_bytes bs)) [
  | inl fits ↦ some (bs, fits)
  | inr _ ↦ none
]

-- A read: what it takes and the bytes left behind it.
abbrev pub Read {ℓ} : Type ℓ → Type ℓ
Read A = List ℕ → Option (A × List ℕ)

unfoldable pub read_array : (n : ℕ) → Read (Array n)
unfolding to_array
read_array n bs = to_array n (take n bs) >>= λ a. some (a, drop n bs)

-- An integer of `k` bytes, little-endian.
unfoldable pub read_le : (k : ℕ) → Read ℕ
unfolding from_le
read_le k bs = if length (take k bs) == k then some (from_le (take k bs), drop k bs) else none

unfoldable pub read_byte : Read ℕ
read_byte [] = none
read_byte (b ∷ bs) = some (b, bs)

-- `count` elements, one after another.
unfoldable pub read_list {ℓ} : {A : Type ℓ} → Read A → ℕ → Read (List A)
read_list read zero bs = some ([], bs)
read_list read (suc n) bs =
    read bs >>= λ (a, left). read_list read n left >>= λ (rest, last). some (a ∷ rest, last)

-- The encodings of a list's elements, one after another.
unfoldable pub concat_map {ℓ} : {A : Type ℓ} → (A → List ℕ) → List A → List ℕ
concat_map encode [] = []
concat_map encode (a ∷ list) = encode a ++ concat_map encode list
