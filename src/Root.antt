-- ===== src/Root.antt =====
-- rs/src/root.rs: digests, the compression `compress4` and the fold of the 14 leaves into the root.
-- The field (nebu) and the permutation and hash (hemera) are other crates: they are the record
-- `Hemera`, which every definition that hashes takes as an instance.
pub mod Fold
use mathlib.Core.List.{foldl}
use bbg.Prelude.{ℕ, ◌≡◌, ◌≢◌, ◌<◌, refl, Bool, true, false, List, [], ◌∷◌, ◌++◌, get_or}
use bbg.Bytes.{Bytes32}

pub record Hemera : Type 1 where
  -- `nebu::Goldilocks`
  pub Field : Type 0
  pub new : ℕ → Field
  pub fzero : Field
  pub as_u64 : Field → ℕ
  pub field_discrete : Discrete Field
  -- `hemera::field::Goldilocks`, and the conversions of `compress4`
  -- (`HGold::new(a.canonicalize().as_u64())`, `Goldilocks::new(s.as_canonical_u64())`)
  pub HGold : Type 0
  pub hzero : HGold
  pub to_hgold : Field → HGold
  pub of_hgold : HGold → Field
  -- `hemera::permutation::permute` on the 16-element state
  pub permute : List HGold → List HGold
  -- `hemera::hash(bytes).as_bytes()`, 32 bytes
  pub hash : List ℕ → Bytes32

-- The order of the Goldilocks field, 2^64 - 2^32 + 1.
abbrev pub field_order : ℕ
field_order = 0xffffffff00000001

module _ ⦃H : Hemera⦄ where
  -- `[Goldilocks; 4]`
  pub record Digest : Type 0 where
    pub limb0 : H.Field
    pub limb1 : H.Field
    pub limb2 : H.Field
    pub limb3 : H.Field

  pub Digest-discrete : Discrete Digest
  Digest-discrete = hlevel H.field_discrete

  -- `==` on digests.
  unfoldable pub digest_eq : Digest → Digest → Bool
  digest_eq a b = elim (Digest-discrete a b) [ yes _ ↦ true | no _ ↦ false ]

  pub eq_of_digest_eq : (a b : Digest) → digest_eq a b ≡ true → a ≡ b
  unfolding digest_eq
  eq_of_digest_eq a b h = split_on (Digest-discrete a b) h
    where
      split_on : (c : Dec (a ≡ b)) → (elim c [ yes _ ↦ true | no _ ↦ false ]) ≡ true → a ≡ b
      split_on (yes e) k = e
      split_on (no e) k = absurd (cc k)

  pub digest_eq_self : (a : Digest) → digest_eq a a ≡ true
  unfolding digest_eq
  digest_eq_self a = split_on (Digest-discrete a a)
    where
      split_on : (c : Dec (a ≡ a)) → (elim c [ yes _ ↦ true | no _ ↦ false ]) ≡ true
      split_on (yes e) = refl
      split_on (no e) = absurd (e refl)

  -- The first 4 elements of `P([a ‖ b ‖ 0⁸])`.
  unfoldable pub compress4 : Digest → Digest → Digest
  compress4 a b =
      let z = H.hzero in
      let state = H.permute (
        H.to_hgold a.limb0
        ∷ H.to_hgold a.limb1
        ∷ H.to_hgold a.limb2
        ∷ H.to_hgold a.limb3
        ∷ H.to_hgold b.limb0
        ∷ H.to_hgold b.limb1
        ∷ H.to_hgold b.limb2
        ∷ H.to_hgold b.limb3
        ∷ z
        ∷ z
        ∷ z
        ∷ z
        ∷ z
        ∷ z
        ∷ z
        ∷ z
        ∷ []) in
      record {
        limb0 = H.of_hgold (get_or state 0 z);
        limb1 = H.of_hgold (get_or state 1 z);
        limb2 = H.of_hgold (get_or state 2 z);
        limb3 = H.of_hgold (get_or state 3 z);
      }

  -- `RootLeaves`: the commitments of the 11 dimensions, of A, of N, and of the statistics.
  pub record RootLeaves : Type 0 where
    pub dims : List Digest
    pub a : Digest
    pub n : Digest
    pub stats : Digest

  -- `RootLeaves::ordered`
  unfoldable pub ordered : RootLeaves → List Digest
  ordered leaves = leaves.dims ++ leaves.a ∷ leaves.n ∷ leaves.stats ∷ []

  -- `"bbg-root"` as a little-endian u64.
  abbrev pub root_tag : ℕ
  root_tag = 0x746f6f722d676262

  unfoldable pub root_iv : Digest
  root_iv = record { limb0 = H.new root_tag; limb1 = H.fzero; limb2 = H.fzero; limb3 = H.fzero }

  unfoldable pub root_from_leaves : RootLeaves → Digest
  unfolding ordered root_iv
  root_from_leaves leaves = foldl compress4 root_iv (ordered leaves)

  -- What is relied on of hemera and nebu where a digest is to bind what it was made from: the
  -- compression has no collisions, its last limb is never zero (so no output is one of the
  -- initial vectors, whose last limb is), and numbers below the field's order are distinct in it.
  pub record IsCollisionFree : Type 0 where
    pub compress_inj : (a b c d : Digest) → compress4 a b ≡ compress4 c d → (a ≡ c) × (b ≡ d)
    pub output_limb3 : (a b : Digest) → (compress4 a b).limb3 ≢ H.fzero
    pub new_inj : (x y : ℕ) → x < field_order → y < field_order → H.new x ≡ H.new y → x ≡ y
