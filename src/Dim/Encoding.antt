-- ===== src/Dim/Encoding.antt =====
-- rs/src/dim.rs: the encodings of numbers below 2^64 and of keys are injective, and a table of
-- records of one width can be read back.
use bbg.Prelude.{
  ℕ, zero, suc, sym, ◌+◌, ◌*◌, ◌/◌, ◌%◌, ◌^◌, ◌<◌, ◌≡◌, refl, ap, ap₂, List, [], ◌∷◌, get_or,
  length, arith, true, ◌∙◌, ◌==◌, &&-eq_true,
}
use bbg.Bytes.{Bytes32, Bytes32-eq, are_bytes}
use bbg.Bytes.Bits.{length-Bytes32, are_bytes-cons}
use bbg.Root.{Hemera, IsCollisionFree}
use bbg.Dim.{u32_at, u64_limbs, bytes32_limbs}

module _ ⦃H : Hemera⦄ where
  head_eq : (a b : H.Field) (x y : List H.Field) → a ∷ x ≡ b ∷ y → (a ≡ b) × (x ≡ y)
  head_eq a b x y h = (cc, cc)

  -- Without collisions, two different 64-bit numbers have different limbs.
  pub u64_limbs-inj :
      IsCollisionFree → (v w : ℕ) → v < 2 ^ 64 → w < 2 ^ 64 → u64_limbs v ≡ u64_limbs w → v ≡ w
  unfolding u64_limbs
  u64_limbs-inj free v w hv hw h =
      let (low, rest) = head_eq _ _ _ _ h in
      let (high, _) = head_eq _ _ _ _ rest in
      omega (
        arith,
        free.new_inj (v % 2 ^ 32) (w % 2 ^ 32) (omega arith) (omega arith) low,
        free.new_inj (v / 2 ^ 32) (w / 2 ^ 32) (omega arith) (omega arith) high,
      )

  -- The limbs, one by one.
  limb_at :
      (a : Bytes32) (n : ℕ)
      → n < 8
      → get_or (bytes32_limbs a) n H.fzero ≡ H.new (u32_at a.0 (4 * n))
  unfolding bytes32_limbs
  limb_at a zero l = refl
  limb_at a (suc zero) l = refl
  limb_at a (suc (suc zero)) l = refl
  limb_at a (suc (suc (suc zero))) l = refl
  limb_at a (suc (suc (suc (suc zero)))) l = refl
  limb_at a (suc (suc (suc (suc (suc zero))))) l = refl
  limb_at a (suc (suc (suc (suc (suc (suc zero)))))) l = refl
  limb_at a (suc (suc (suc (suc (suc (suc (suc zero))))))) l = refl
  limb_at a (suc (suc (suc (suc (suc (suc (suc (suc n)))))))) l = absurd (omega arith)

  limb_eq :
      (a b : Bytes32)
      → bytes32_limbs a ≡ bytes32_limbs b
      → (n : ℕ) → n < 8
      → H.new (u32_at a.0 (4 * n)) ≡ H.new (u32_at b.0 (4 * n))
  limb_eq a b h n l = sym (limb_at a n l) ∙ ap (λ xs. get_or xs n H.fzero) h ∙ limb_at b n l

get_or-lt : (bs : List ℕ) (i : ℕ) → are_bytes bs ≡ true → get_or bs i 0 < 256
get_or-lt [] i h = omega arith
get_or-lt (b ∷ bs) zero h = (are_bytes-cons b bs h).0
get_or-lt (b ∷ bs) (suc i) h = get_or-lt bs i (are_bytes-cons b bs h).1

eq_of_get_or :
    (xs ys : List ℕ)
    → length xs ≡ length ys
    → ((i : ℕ) → i < length xs → get_or xs i 0 ≡ get_or ys i 0)
    → xs ≡ ys
eq_of_get_or [] [] l h = refl
eq_of_get_or [] (y ∷ ys) l h = absurd (omega arith)
eq_of_get_or (x ∷ xs) [] l h = absurd (omega arith)
eq_of_get_or (x ∷ xs) (y ∷ ys) l h =
    ap₂ ◌∷◌ (h 0 (omega arith)) (eq_of_get_or xs ys (omega arith) (λ i p. h (suc i) (omega arith)))

-- Four bytes below 256 are determined by the number that they make.
u32_at-lt : (bs : List ℕ) (at : ℕ) → are_bytes bs ≡ true → u32_at bs at < 4294967296
unfolding u32_at
u32_at-lt bs at h = omega (
  arith,
  get_or-lt bs at h,
  get_or-lt bs (at + 1) h,
  get_or-lt bs (at + 2) h,
  get_or-lt bs (at + 3) h,
)

-- So they are determined by the number that they make.
module _ (xs ys : List ℕ) (at : ℕ) (h : are_bytes xs ≡ true) (k : are_bytes ys ≡ true) where
  abbrev SameAt : ℕ → Type 0
  SameAt r = get_or xs (at + r) 0 ≡ get_or ys (at + r) 0

  u32_at-inj :
      u32_at xs at ≡ u32_at ys at
      → (get_or xs at 0 ≡ get_or ys at 0) × SameAt 1 × SameAt 2 × SameAt 3
  unfolding u32_at
  u32_at-inj e = omega (
    arith,
    get_or-lt xs at h,
    get_or-lt xs (at + 1) h,
    get_or-lt xs (at + 2) h,
    get_or-lt xs (at + 3) h,
    get_or-lt ys at k,
    get_or-lt ys (at + 1) k,
    get_or-lt ys (at + 2) k,
    get_or-lt ys (at + 3) k,
  )

  same_bytes : u32_at xs at ≡ u32_at ys at → (r : ℕ) → r < 4 → SameAt r
  same_bytes e zero l = let z : at + 0 ≡ at = omega arith in rw z (u32_at-inj e).0
  same_bytes e (suc zero) l = (u32_at-inj e).1
  same_bytes e (suc (suc zero)) l = (u32_at-inj e).2
  same_bytes e (suc (suc (suc zero))) l = (u32_at-inj e).3
  same_bytes e (suc (suc (suc (suc r)))) l = absurd (omega arith)

module _ ⦃H : Hemera⦄ where
  -- Without collisions, two different keys have different limbs.
  pub bytes32_limbs-inj :
      IsCollisionFree → (a b : Bytes32) → bytes32_limbs a ≡ bytes32_limbs b → a ≡ b
  bytes32_limbs-inj free a b h = Bytes32-eq a b (
      eq_of_get_or a.0 b.0 (length-Bytes32 a ∙ sym (length-Bytes32 b)) λ i l.
        let n = i / 4 in
        let pa = (&&-eq_true (length a.0 == 32) (are_bytes a.0) a.1).1 in
        let pb = (&&-eq_true (length b.0 == 32) (are_bytes b.0) b.1).1 in
        let inside : n < 8 = omega (arith, length-Bytes32 a) in
        let word : u32_at a.0 (4 * n) ≡ u32_at b.0 (4 * n) =
          free.new_inj _ _ (omega (arith, u32_at-lt a.0 (4 * n) pa))
            (omega (arith, u32_at-lt b.0 (4 * n) pb)) (limb_eq a b h n inside) in
        let at : i ≡ 4 * n + i % 4 = omega arith in
        rw at (same_bytes a.0 b.0 (4 * n) pa pb word (i % 4) (omega arith)))
