-- ===== src/Bytes/Xor.antt =====
-- `^` on bytes, bit by bit: the exclusive or has a one exactly where its arguments differ, so its
-- leading zeros count the leading bits that they share.
use Prim.Native.Nat.{bit_xor, bit_xor-bitwise, digits, differ}
use native.Mathlib.Nat.{div-div-eq-div-mul, pow-succ'}
use native.Mathlib.Decide.{dec_le, dec_lt}
use mathlib.Core.Path.{◌∙◌}
use bbg.Prelude.{
  ℕ, zero, suc, ◌+◌, ◌-◌, ◌*◌, ◌/◌, ◌%◌, ◌^◌, ◌≤◌, ◌<◌, ◌≡◌, ◌≢◌, refl, ap, arith, ◌==◌, ==_iff,
  Bool-cases, inl, inr, false,
}
use bbg.Bytes.{leading_zeros}

-- The recursion on digits that the native operation stands for, with the fuel left open.
abbrev xor_digits : ℕ → ℕ → ℕ → ℕ
xor_digits = digits (λ b. b) differ

xor_digits_more : (fuel a b : ℕ) → a ≤ fuel → xor_digits (suc fuel) a b ≡ xor_digits fuel a b
xor_digits_more zero zero b h = refl
xor_digits_more zero (suc a) b h = absurd (omega arith)
xor_digits_more (suc fuel) zero b h = refl
xor_digits_more (suc fuel) (suc a) b h =
    omega (arith, xor_digits_more fuel (suc a / 2) (b / 2) (omega arith))

xor_digits_enough : (fuel a b : ℕ) → a ≤ fuel → xor_digits fuel a b ≡ xor_digits a a b
xor_digits_enough zero zero b h = refl
xor_digits_enough zero (suc a) b h = absurd (omega arith)
xor_digits_enough (suc fuel) a b h = elim (dec_le a fuel) [
  | yes q ↦ xor_digits_more fuel a b q ∙ xor_digits_enough fuel a b q
  | no q ↦ let e : a ≡ suc fuel = omega arith in rw e
]

differ_lem : (x y : ℕ) → x < 2 → y < 2 → differ x y ≡ (x + y) % 2
differ_lem zero zero h k = refl
differ_lem zero (suc zero) h k = refl
differ_lem (suc zero) zero h k = refl
differ_lem (suc zero) (suc zero) h k = refl
differ_lem zero (suc (suc y)) h k = absurd (omega arith)
differ_lem (suc zero) (suc (suc y)) h k = absurd (omega arith)
differ_lem (suc (suc x)) y h k = absurd (omega arith)

pub bit_xor_step : (a b : ℕ) → bit_xor a b ≡ bit_xor (a / 2) (b / 2) * 2 + (a + b) % 2
bit_xor_step zero b = simp bit_xor-bitwise (omega arith)
bit_xor_step (suc a) b = simp bit_xor-bitwise (
    omega (
      arith,
      xor_digits_enough a (suc a / 2) (b / 2) (omega arith),
      differ_lem (suc a % 2) (b % 2) (omega arith) (omega arith),
    ))

-- Bit `k` of a number.
abbrev pub bit : ℕ → ℕ → ℕ
bit x k = x / 2 ^ k % 2

bit-half : (k x : ℕ) → bit x (suc k) ≡ bit (x / 2) k
bit-half k x = rw (pow-succ' 2 k, ← div-div-eq-div-mul x 2 (2 ^ k))

bit-bit_xor : (k x y : ℕ) → bit (bit_xor x y) k ≡ (bit x k + bit y k) % 2
bit-bit_xor zero x y = omega (arith, bit_xor_step x y)
bit-bit_xor (suc k) x y =
    let half : bit_xor x y / 2 ≡ bit_xor (x / 2) (y / 2) = omega (arith, bit_xor_step x y) in
    rw (bit-half k (bit_xor x y), bit-half k x, bit-half k y, half) (bit-bit_xor k (x / 2) (y / 2))

-- The top zeros of a difference are bits that the two numbers share, and the next is not.
module _ (x y : ℕ) where
  abbrev SharedTo : ℕ → ℕ → Type 0
  SharedTo width n = (m : ℕ) → m < n → bit x (width - 1 - m) ≡ bit y (width - 1 - m)

  abbrev SplitAt : ℕ → ℕ → Type 0
  SplitAt width n = n < width → bit x (width - 1 - n) ≢ bit y (width - 1 - n)

  pub leading_zeros_split : (width : ℕ) → SplitAt width (leading_zeros width (bit_xor x y))
  unfolding leading_zeros
  leading_zeros_split zero h = absurd (omega arith)
  leading_zeros_split (suc width) h = elim (Bool-cases (bit (bit_xor x y) width == 1)) [
    | inl e ↦ rw e (
        let top : suc width - 1 - 0 ≡ width = omega arith in
        rw top
          (λ q. omega (arith, bit-bit_xor width x y, (==_iff (bit (bit_xor x y) width) 1).0 e)))
    | inr e ↦ rw e (
        let n = leading_zeros width (bit_xor x y) in
        let next : suc width - 1 - suc n ≡ width - 1 - n = omega arith in
        rw next (leading_zeros_split width (ground (arith, h))))
  ]

  top_bit : (width : ℕ) → (bit (bit_xor x y) width == 1) ≡ false → bit x width ≡ bit y width
  top_bit width e = ground (arith, bit-bit_xor width x y, e)

  pub leading_zeros_shared : (width : ℕ) → SharedTo width (leading_zeros width (bit_xor x y))
  unfolding leading_zeros
  leading_zeros_shared zero m h = absurd (omega arith)
  leading_zeros_shared (suc width) m h = elim (Bool-cases (bit (bit_xor x y) width == 1)) [
    | inl e ↦ let none_left : m < 0 = rw e at h in absurd (omega arith)
    | inr e ↦
        let below : m < suc (leading_zeros width (bit_xor x y)) = rw e at h in
        elim (dec_le m 0) [
          | yes z ↦ let top : suc width - 1 - m ≡ width = omega arith in rw top (top_bit width e)
          | no z ↦
              let next : suc width - 1 - m ≡ width - 1 - (m - 1) = omega arith in
              rw next (leading_zeros_shared width (m - 1) (omega arith))
        ]
  ]

pub leading_zeros-le : (width d : ℕ) → leading_zeros width d ≤ width
unfolding leading_zeros
leading_zeros-le zero d = omega arith
leading_zeros-le (suc width) d = ground (arith, leading_zeros-le width d)

bit_xor_self : (n x : ℕ) → x ≤ n → bit_xor x x ≡ 0
bit_xor_self zero zero h = refl
bit_xor_self zero (suc x) h = absurd (omega arith)
bit_xor_self (suc n) x h = omega (arith, bit_xor_step x x, bit_xor_self n (x / 2) (omega arith))

pub eq_of_bits :
    (x y : ℕ) → x < 256 → y < 256 → ((m : ℕ) → m < 8 → bit x (7 - m) ≡ bit y (7 - m)) → x ≡ y
eq_of_bits x y h k e = omega (
  arith,
  e 0 (omega arith),
  e 1 (omega arith),
  e 2 (omega arith),
  e 3 (omega arith),
  e 4 (omega arith),
  e 5 (omega arith),
  e 6 (omega arith),
  e 7 (omega arith),
)

pub bit_xor_diff :
    (x y : ℕ) → x < 256 → y < 256 → bit_xor x y ≢ 0 → leading_zeros 8 (bit_xor x y) < 8
bit_xor_diff x y h k d = elim (dec_lt (leading_zeros 8 (bit_xor x y)) 8) [
  | yes p ↦ p
  | no p ↦
      let all_shared : x ≡ y =
        eq_of_bits x y h k (λ m l. leading_zeros_shared x y 8 m (omega arith)) in
      absurd (d (rw all_shared (bit_xor_self y y (omega arith))))
]

pub eq_of_bit_xor : (x y : ℕ) → x < 256 → y < 256 → bit_xor x y ≡ 0 → x ≡ y
eq_of_bit_xor x y h k d =
    eq_of_bits x y h k λ m l. omega (arith, bit-bit_xor (7 - m) x y, ap (λ z. bit z (7 - m)) d)
