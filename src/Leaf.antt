-- ===== src/Leaf.antt =====
-- `leaf_digest` of rs/src/trie.rs: the digest of one record under its key.
pub mod Binding
use bbg.Prelude.{ℕ, List, [], ◌∷◌, length, get_or}
use bbg.Bytes.{Bytes32}
use bbg.Root.{Hemera, Digest, compress4}
use bbg.Dim.{bytes32_limbs, dimension_version}
use bbg.Trie.{leaf_tag}

module _ ⦃H : Hemera⦄ where
  unfoldable pub block : H.Field → H.Field → H.Field → H.Field → Digest
  block a b c d = record { limb0 = a; limb1 = b; limb2 = c; limb3 = d }

  -- `for chunk in vals.chunks(4)`: the last chunk is padded with zeros.
  unfoldable pub fold_chunks : Digest → List H.Field → Digest
  unfolding block
  fold_chunks acc [] = acc
  fold_chunks acc (a ∷ []) = compress4 acc (block a H.fzero H.fzero H.fzero)
  fold_chunks acc (a ∷ b ∷ []) = compress4 acc (block a b H.fzero H.fzero)
  fold_chunks acc (a ∷ b ∷ c ∷ []) = compress4 acc (block a b c H.fzero)
  fold_chunks acc (a ∷ b ∷ c ∷ d ∷ rest) = fold_chunks (compress4 acc (block a b c d)) rest

  unfoldable pub leaf_iv : ℕ → Digest
  unfolding block
  leaf_iv count = block (H.new leaf_tag) (H.new count) (H.new dimension_version) H.fzero

  unfoldable pub leaf_digest : Bytes32 → List H.Field → Digest
  unfolding fold_chunks leaf_iv bytes32_limbs
  leaf_digest key vals = fold_chunks (fold_chunks (leaf_iv (length vals)) (bytes32_limbs key)) vals
