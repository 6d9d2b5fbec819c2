-- ===== src/Bytes.antt =====
-- 32-byte keys (`[u8; 32]`: particles, neuron ids, trie paths) and the bit tests of
-- rs/src/trie.rs (`key_bit`, `first_diff_bit`). A byte is a number below 256 and a key a list of
-- 32 of them, most significant bit of the first byte first.
pub mod Xor
pub mod Bits
use Prim.Native.Nat.{bit_xor}
use mathlib.Core.HLevel.{Σ_prop_path}
use mathlib.Core.Bool.{Bool-set}
use bbg.Prelude.{
  ℕ, zero, suc, ◌+◌, ◌-◌, ◌*◌, ◌/◌, ◌%◌, ◌^◌, ◌≡◌, Bool, true, ◌&&◌, List, [], ◌∷◌, length, get_or,
  ltb, ◌==◌, if◌then◌else◌,
}
use bbg.Prelude.Ord.{Ord, cmp_list, cmp_list-IsTotalOrder}

unfoldable pub are_bytes : List ℕ → Bool
are_bytes [] = true
are_bytes (b ∷ bs) = ltb b 256 && are_bytes bs

-- `[u8; 32]`
abbrev pub Bytes32 : Type 0
Bytes32 = (bs : List ℕ) × ((length bs == 32 && are_bytes bs) ≡ true)

pub Bytes32-eq : (a b : Bytes32) → a.0 ≡ b.0 → a ≡ b
Bytes32-eq a b h =
    Σ_prop_path {B = λ bs. (length bs == 32 && are_bytes bs) ≡ true} (λ bs. Bool-set _ true) h

-- The derived `Ord` of an array: lexicographic.
instance unfoldable pub bytes32_ord : Ord Bytes32
bytes32_ord = record {
  cmp = λ a b. cmp_list a.0 b.0;
  total = record {
    cmp_refl = λ a. cmp_list-IsTotalOrder.cmp_refl a.0;
    eq_of_cmp = λ a b h. Bytes32-eq a b (cmp_list-IsTotalOrder.eq_of_cmp a.0 b.0 h);
    gt_of_lt = λ a b. cmp_list-IsTotalOrder.gt_of_lt a.0 b.0;
    lt_of_gt = λ a b. cmp_list-IsTotalOrder.lt_of_gt a.0 b.0;
    lt_trans = λ a b c. cmp_list-IsTotalOrder.lt_trans a.0 b.0 c.0;
  };
}

-- `(byte >> (7 - m)) & 1 == 1`
unfoldable pub byte_bit : ℕ → ℕ → Bool
byte_bit b m = b / 2 ^ (7 - m) % 2 == 1

-- A read past the end does not happen below bit 256; it reads a zero byte here.
unfoldable pub bytes_bit : List ℕ → ℕ → Bool
unfolding byte_bit
bytes_bit bs i = byte_bit (get_or bs (i / 8) 0) (i % 8)

unfoldable pub key_bit : Bytes32 → ℕ → Bool
unfolding bytes_bit
key_bit key i = bytes_bit key.0 i

-- `u8::leading_zeros`, from the top bit of `width` bits down.
unfoldable pub leading_zeros : ℕ → ℕ → ℕ
leading_zeros zero d = 0
leading_zeros (suc width) d = if d / 2 ^ width % 2 == 1 then 0 else suc (leading_zeros width d)

-- The loop over the zipped bytes; `i` counts them. On equal keys the source panics
-- (`unreachable!`): `first_diff_bit` is called on distinct keys only.
unfoldable pub first_diff_bytes : ℕ → List ℕ → List ℕ → ℕ
unfolding leading_zeros
first_diff_bytes i (x ∷ xs) (y ∷ ys) =
    let d = bit_xor x y in
    let rest = first_diff_bytes (i + 1) xs ys in if d == 0 then rest else i * 8 + leading_zeros 8 d
first_diff_bytes i [] ys = i * 8
first_diff_bytes i (x ∷ xs) [] = i * 8

unfoldable pub first_diff_bit : Bytes32 → Bytes32 → ℕ
unfolding first_diff_bytes
first_diff_bit a b = first_diff_bytes 0 a.0 b.0
