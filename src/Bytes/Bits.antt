-- ===== src/Bytes/Bits.antt =====
-- `key_bit` and `first_diff_bit` of rs/src/trie.rs: two distinct keys differ at the bit that
-- `first_diff_bit` returns, agree on every bit before it, and it is below 256.
use Prim.Native.Nat.{bit_xor}
use native.Mathlib.Decide.{dec_lt, ℕ_discrete}
use native.Mathlib.Nat.{zero-div}
use bbg.Prelude.{
  ℕ, suc, zero, ◌^◌, ◌≤◌, get_or, ◌+◌, ◌-◌, ◌*◌, ◌/◌, ◌%◌, ◌<◌, ◌≡◌, ◌≢◌, refl, ap₂, sym, ◌∙◌,
  arith, ◌==◌, ==_iff, true, List, [], ◌∷◌, length, &&-eq_true,
}
use bbg.Bytes.{
  Bytes32, Bytes32-eq, are_bytes, byte_bit, bytes_bit, key_bit, leading_zeros, first_diff_bytes,
  first_diff_bit,
}
use bbg.Bytes.Xor.{bit, leading_zeros_split, leading_zeros_shared, bit_xor_diff, eq_of_bit_xor}

byte_bit-eq : (x y m : ℕ) → bit x (7 - m) ≡ bit y (7 - m) → byte_bit x m ≡ byte_bit y m
unfolding byte_bit
byte_bit-eq x y m h = rw h

byte_bit-ne : (x y m : ℕ) → bit x (7 - m) ≢ bit y (7 - m) → byte_bit x m ≢ byte_bit y m
unfolding byte_bit
byte_bit-ne x y m h e = ground (arith, h, e)

bytes_bit-head : (x : ℕ) (xs : List ℕ) (n : ℕ) → n < 8 → bytes_bit (x ∷ xs) n ≡ byte_bit x n
unfolding bytes_bit
bytes_bit-head x xs n h =
    let q : n / 8 ≡ 0 = omega arith in let r : n % 8 ≡ n = omega arith in rw (q, r)

bytes_bit-tail : (x : ℕ) (xs : List ℕ) (n : ℕ) → bytes_bit (x ∷ xs) (8 + n) ≡ bytes_bit xs n
unfolding bytes_bit
bytes_bit-tail x xs n =
    let q : (8 + n) / 8 ≡ suc (n / 8) = omega arith in
    let r : (8 + n) % 8 ≡ n % 8 = omega arith in rw (q, r)

first_diff_bytes_shift :
    (i : ℕ) (xs ys : List ℕ) → first_diff_bytes i xs ys ≡ i * 8 + first_diff_bytes 0 xs ys
unfolding first_diff_bytes
first_diff_bytes_shift i [] ys = omega arith
first_diff_bytes_shift i (x ∷ xs) [] = omega arith
first_diff_bytes_shift i (x ∷ xs) (y ∷ ys) =
    ground (arith, first_diff_bytes_shift (i + 1) xs ys, first_diff_bytes_shift (0 + 1) xs ys)

module _ (x y : ℕ) (xs ys : List ℕ) where
  -- The two branches of the loop.
  first_diff_bytes_next :
      bit_xor x y ≡ 0 → first_diff_bytes 0 (x ∷ xs) (y ∷ ys) ≡ 8 + first_diff_bytes 0 xs ys
  unfolding first_diff_bytes
  first_diff_bytes_next h = ground (arith, first_diff_bytes_shift (0 + 1) xs ys)

  first_diff_bytes_here :
      bit_xor x y ≢ 0 → first_diff_bytes 0 (x ∷ xs) (y ∷ ys) ≡ leading_zeros 8 (bit_xor x y)
  unfolding first_diff_bytes
  first_diff_bytes_here h = ground arith

-- What the loop is to find in two lists of bytes.
record IsFirstDiff (n : ℕ) (xs ys : List ℕ) : Type 0 where
  differs : bytes_bit xs n ≢ bytes_bit ys n
  agrees : (m : ℕ) → m < n → bytes_bit xs m ≡ bytes_bit ys m
  inside : n < 8 * length xs

here-IsFirstDiff :
    (x y : ℕ) (xs ys : List ℕ)
    → x < 256
    → y < 256
    → bit_xor x y ≢ 0
    → IsFirstDiff (leading_zeros 8 (bit_xor x y)) (x ∷ xs) (y ∷ ys)
here-IsFirstDiff x y xs ys hx hy d =
    let n = leading_zeros 8 (bit_xor x y) in
    let l : n < 8 = bit_xor_diff x y hx hy d in
    record {
      differs =
          rw (bytes_bit-head x xs n l, bytes_bit-head y ys n l)
            (byte_bit-ne x y n (leading_zeros_split x y 8 l));
      agrees = λ m h.
          rw (bytes_bit-head x xs m (omega arith), bytes_bit-head y ys m (omega arith))
            (byte_bit-eq x y m (leading_zeros_shared x y 8 m h));
      inside = omega arith;
    }

next-IsFirstDiff :
    (x y : ℕ) (xs ys : List ℕ) (n : ℕ)
    → x ≡ y
    → IsFirstDiff n xs ys
    → IsFirstDiff (8 + n) (x ∷ xs) (y ∷ ys)
next-IsFirstDiff x y xs ys n e v = record {
  differs = rw (bytes_bit-tail x xs n, bytes_bit-tail y ys n) v.differs;
  agrees = λ m h. agrees_at m h (dec_lt m 8);
  inside = omega (arith, v.inside);
}
  where
    agrees_at : (m : ℕ) → m < 8 + n → Dec (m < 8) → bytes_bit (x ∷ xs) m ≡ bytes_bit (y ∷ ys) m
    agrees_at m h (yes p) = rw (bytes_bit-head x xs m p, bytes_bit-head y ys m p, e)
    agrees_at m h (no p) =
        let s : m ≡ 8 + (m - 8) = omega arith in
        rw (s, bytes_bit-tail x xs (m - 8), bytes_bit-tail y ys (m - 8))
          (v.agrees (m - 8) (omega arith))

pub are_bytes-cons :
    (x : ℕ) (xs : List ℕ) → are_bytes (x ∷ xs) ≡ true → (x < 256) × (are_bytes xs ≡ true)
unfolding are_bytes
are_bytes-cons x xs h = ground arith

first_diff_bytes-IsFirstDiff :
    (xs ys : List ℕ)
    → are_bytes xs ≡ true
    → are_bytes ys ≡ true
    → length xs ≡ length ys
    → xs ≢ ys
    → IsFirstDiff (first_diff_bytes 0 xs ys) xs ys
first_diff_bytes-IsFirstDiff [] [] h k l d = absurd (d refl)
first_diff_bytes-IsFirstDiff [] (y ∷ ys) h k l d = absurd (omega arith)
first_diff_bytes-IsFirstDiff (x ∷ xs) [] h k l d = absurd (omega arith)
first_diff_bytes-IsFirstDiff (x ∷ xs) (y ∷ ys) h k l d =
    let (hx, hxs) = are_bytes-cons x xs h in
    let (hy, hys) = are_bytes-cons y ys k in
    elim (ℕ_discrete (bit_xor x y) 0) [
      | yes p ↦
          let e : x ≡ y = eq_of_bit_xor x y hx hy p in
          rw (first_diff_bytes_next x y xs ys p) (
            next-IsFirstDiff x y xs ys _ e
              (first_diff_bytes-IsFirstDiff xs ys hxs hys (omega arith) (λ q. d (ap₂ ◌∷◌ e q))))
      | no p ↦ rw (first_diff_bytes_here x y xs ys p) (here-IsFirstDiff x y xs ys hx hy p)
    ]

pub length-Bytes32 : (a : Bytes32) → length a.0 ≡ 32
length-Bytes32 a = (==_iff _ _).0 (&&-eq_true (length a.0 == 32) (are_bytes a.0) a.1).0

module _ (a b : Bytes32) (distinct : a ≢ b) where
  first_diff_bit-IsFirstDiff : IsFirstDiff (first_diff_bit a b) a.0 b.0
  unfolding first_diff_bit
  first_diff_bit-IsFirstDiff =
      first_diff_bytes-IsFirstDiff a.0 b.0 (&&-eq_true (length a.0 == 32) (are_bytes a.0) a.1).1
        (&&-eq_true (length b.0 == 32) (are_bytes b.0) b.1).1
        (length-Bytes32 a ∙ sym (length-Bytes32 b)) (λ e. distinct (Bytes32-eq a b e))

  pub first_diff_bit_differs : key_bit a (first_diff_bit a b) ≢ key_bit b (first_diff_bit a b)
  unfolding key_bit
  first_diff_bit_differs = first_diff_bit-IsFirstDiff.differs

  pub first_diff_bit_agrees : (m : ℕ) → m < first_diff_bit a b → key_bit a m ≡ key_bit b m
  unfolding key_bit
  first_diff_bit_agrees = first_diff_bit-IsFirstDiff.agrees

  pub first_diff_bit-lt : first_diff_bit a b < 256
  first_diff_bit-lt = omega (arith, first_diff_bit-IsFirstDiff.inside, length-Bytes32 a)

  -- The bit that `first_diff_bit` returns for two distinct keys is the first on which they differ:
  -- it is one of the 256, the keys differ there and agree on every bit before it.
  pub first_diff_bit_first :
      (first_diff_bit a b < 256)
      × (key_bit a (first_diff_bit a b) ≢ key_bit b (first_diff_bit a b))
      × ((m : ℕ) → m < first_diff_bit a b → key_bit a m ≡ key_bit b m)
  first_diff_bit_first = (first_diff_bit-lt, first_diff_bit_differs, first_diff_bit_agrees)

get_or-past : (bs : List ℕ) (i : ℕ) → length bs ≤ i → get_or bs i 0 ≡ 0
get_or-past [] i h = refl
get_or-past (b ∷ bs) zero h = absurd (omega arith)
get_or-past (b ∷ bs) (suc i) h = get_or-past bs i (omega arith)

-- A bit past the last is not set.
pub key_bit-lt : (a : Bytes32) (i : ℕ) → key_bit a i ≡ true → i < 256
unfolding key_bit bytes_bit byte_bit
key_bit-lt a i h = elim (dec_lt i 256) [
  | yes p ↦ p
  | no p ↦
      let past : get_or a.0 (i / 8) 0 ≡ 0 =
        get_or-past a.0 (i / 8) (omega (arith, length-Bytes32 a)) in
      absurd (cc (rw (past, zero-div (2 ^ (7 - i % 8))) at h))
]
