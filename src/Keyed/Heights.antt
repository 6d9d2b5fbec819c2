-- ===== src/Keyed/Heights.antt =====
-- `impl TrieKey for u64` of rs/src/keyed.rs: heights, little-endian in the first 8 bytes of a path.
use mathlib.Core.HLevel.{Σ_prop_path}
use mathlib.Core.Bool.{Bool-set}
use bbg.Prelude.{
  ℕ, zero, suc, ◌/◌, ◌%◌, ◌≡◌, refl, ap, sym, ◌∙◌, true, List, [], ◌∷◌, ◌++◌, length, length-append,
  ltb, ◌==◌, ==_iff, ◌&&◌, arith,
}
use bbg.Prelude.Ord.{Ord, nat_ord}
use bbg.Bytes.{Bytes32, are_bytes}
use bbg.Wire.{le_bytes, from_le, take}
use bbg.Wire.Laws.{length-le_bytes, from_le-le_bytes, take-append}
use bbg.Keyed.{TrieKey}

abbrev pub u64_mod : ℕ
u64_mod = 18446744073709551616

-- A `u64`
abbrev pub U64 : Type 0
U64 = (n : ℕ) × (ltb n u64_mod ≡ true)

pub wrapped-fits : (n : ℕ) → ltb (n % u64_mod) u64_mod ≡ true
wrapped-fits n = ground arith

-- A number as a `u64`, wrapped round.
unfoldable pub to_u64 : ℕ → U64
to_u64 n = (n % u64_mod, wrapped-fits n)

pub U64-eq : (a b : U64) → a.0 ≡ b.0 → a ≡ b
U64-eq a b h = Σ_prop_path {B = λ n. ltb n u64_mod ≡ true} (λ n. Bool-set _ true) h

instance unfoldable pub u64_ord : Ord U64
u64_ord = record {
  cmp = λ a b. nat_ord.cmp a.0 b.0;
  total = record {
    cmp_refl = λ a. nat_ord.cmp_refl a.0;
    eq_of_cmp = λ a b h. U64-eq a b (nat_ord.eq_of_cmp a.0 b.0 h);
    gt_of_lt = λ a b. nat_ord.gt_of_lt a.0 b.0;
    lt_of_gt = λ a b. nat_ord.lt_of_gt a.0 b.0;
    lt_trans = λ a b c. nat_ord.lt_trans a.0 b.0 c.0;
  };
}

abbrev pub padding : List ℕ
padding =
    0 ∷ 0 ∷ 0 ∷ 0 ∷ 0 ∷ 0 ∷ 0 ∷ 0 ∷ 0 ∷ 0 ∷ 0 ∷ 0 ∷ 0 ∷ 0 ∷ 0 ∷ 0 ∷ 0 ∷ 0 ∷ 0 ∷ 0 ∷ 0 ∷ 0 ∷ 0 ∷ 0
    ∷ []

pub are_bytes-le_bytes :
    (k v : ℕ) (rest : List ℕ) → are_bytes rest ≡ true → are_bytes (le_bytes k v ++ rest) ≡ true
unfolding are_bytes le_bytes
are_bytes-le_bytes zero v rest h = h
are_bytes-le_bytes (suc k) v rest h = ground (arith, are_bytes-le_bytes k (v / 256) rest h)

pub padding-bytes : are_bytes padding ≡ true
unfolding are_bytes
padding-bytes = refl

pub padded-fits :
    (h : U64)
    → (length (le_bytes 8 h.0 ++ padding) == 32 && are_bytes (le_bytes 8 h.0 ++ padding)) ≡ true
padded-fits h = ground (
  arith,
  are_bytes-le_bytes 8 h.0 padding padding-bytes,
  length-append (le_bytes 8 h.0) padding,
  length-le_bytes 8 h.0,
  ==_iff (length (le_bytes 8 h.0 ++ padding)) 32,
)

unfoldable pub height_bytes : U64 → Bytes32
height_bytes h = (le_bytes 8 h.0 ++ padding, padded-fits h)

pub height_bytes-inj : (a b : U64) → height_bytes a ≡ height_bytes b → a ≡ b
unfolding height_bytes
height_bytes-inj a b h =
    let first = λ (c : U64). take-append 8 (le_bytes 8 c.0) padding (length-le_bytes 8 c.0) in
    let same : le_bytes 8 a.0 ≡ le_bytes 8 b.0 = sym (first a) ∙ ap (λ k. take 8 k.0) h ∙ first b in
    let back = λ (c : U64). from_le-le_bytes 8 c.0 (ground (arith, c.1)) in
    U64-eq a b (sym (back a) ∙ ap from_le same ∙ back b)

instance abbrev pub u64_key : TrieKey U64
u64_key = record { key_bytes = height_bytes; key_bytes_inj = height_bytes-inj }
