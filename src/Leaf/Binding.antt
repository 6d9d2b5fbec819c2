-- ===== src/Leaf/Binding.antt =====
-- `leaf_digest` of rs/src/trie.rs: without collisions it determines the key and the values, and it
-- is never the digest of a branch.
use bbg.Prelude.{ℕ, ◌≡◌, ◌≢◌, refl, ap, List, [], ◌∷◌, length, arith, ◌∙◌, sym}
use bbg.Bytes.{Bytes32}
use bbg.Root.{Hemera, Digest, compress4, IsCollisionFree}
use bbg.Dim.{bytes32_limbs}
use bbg.Dim.Encoding.{bytes32_limbs-inj}
use bbg.Trie.{empty_digest, branch_iv, branch_digest, leaf_tag, branch_tag}
use bbg.Trie.Soundness.{IsLeafDigest}
use bbg.Leaf.{block, fold_chunks, leaf_iv, leaf_digest}

module _ ⦃H : Hemera⦄ (free : IsCollisionFree) where
  -- Two folds over lists of one length come to one digest only from the same start and lists.
  fold_chunks-inj :
      (s t : Digest) (xs ys : List H.Field)
      → length xs ≡ length ys
      → fold_chunks s xs ≡ fold_chunks t ys
      → (s ≡ t) × (xs ≡ ys)
  unfolding fold_chunks block
  fold_chunks-inj s t [] [] l h = (h, refl)
  fold_chunks-inj s t (a ∷ []) (a' ∷ []) l h =
      let e = free.compress_inj _ _ _ _ h in (e.0, cc (e.1))
  fold_chunks-inj s t (a ∷ b ∷ []) (a' ∷ b' ∷ []) l h =
      let e = free.compress_inj _ _ _ _ h in (e.0, cc (e.1))
  fold_chunks-inj s t (a ∷ b ∷ c ∷ []) (a' ∷ b' ∷ c' ∷ []) l h =
      let e = free.compress_inj _ _ _ _ h in (e.0, cc (e.1))
  fold_chunks-inj s t (a ∷ b ∷ c ∷ d ∷ xs) (a' ∷ b' ∷ c' ∷ d' ∷ ys) l h =
      let r =
        fold_chunks-inj (compress4 s (block a b c d)) (compress4 t (block a' b' c' d')) xs ys
          (omega arith) h in
      let e = free.compress_inj _ _ _ _ r.0 in (e.0, cc (e.1, r.1))
  fold_chunks-inj s t xs ys l h = absurd (omega arith)

  -- Without collisions, the leaf digests of two records with the same number of value fields are
  -- equal only if the keys and the values are.
  pub leaf_digest-inj :
      (k k' : Bytes32) (vals vals' : List H.Field)
      → length vals ≡ length vals'
      → leaf_digest k vals ≡ leaf_digest k' vals'
      → (k ≡ k') × (vals ≡ vals')
  unfolding leaf_digest
  leaf_digest-inj k k' vals vals' l h =
      let outer = fold_chunks-inj _ _ vals vals' l h in
      let inner =
        fold_chunks-inj _ _ (bytes32_limbs k) (bytes32_limbs k') (limb_count k k') outer.0 in
      (bytes32_limbs-inj free k k' inner.1, outer.1)
    where
      limb_count : (a b : Bytes32) → length (bytes32_limbs a) ≡ length (bytes32_limbs b)
      limb_count a b = unfold bytes32_limbs in refl

  -- A digest made by two compressions at least, and not like a branch's.
  record IsDeep (d : Digest) : Type 0 where
    leaf : IsLeafDigest d
    first : Digest
    second : Digest
    last : Digest
    made : d ≡ compress4 (compress4 first second) last

  compress4-IsDeep : (d c : Digest) → IsDeep d → IsDeep (compress4 d c)
  unfolding IsLeafDigest branch_digest branch_iv
  compress4-IsDeep d c v = record {
    leaf = λ b l r e.
        let under = sym v.made ∙ (free.compress_inj _ _ _ _ e).0 in
        let iv = (free.compress_inj _ _ _ _ under).0 in
        free.output_limb3 v.first v.second (ap (λ x. x.limb3) iv);
    first = compress4 v.first v.second;
    second = v.last;
    last = c;
    made = ap (λ x. compress4 x c) v.made;
  }

  fold_chunks-IsDeep : (d : Digest) (xs : List H.Field) → IsDeep d → IsDeep (fold_chunks d xs)
  unfolding fold_chunks
  fold_chunks-IsDeep d [] v = v
  fold_chunks-IsDeep d (a ∷ []) v = compress4-IsDeep d _ v
  fold_chunks-IsDeep d (a ∷ b ∷ []) v = compress4-IsDeep d _ v
  fold_chunks-IsDeep d (a ∷ b ∷ c ∷ []) v = compress4-IsDeep d _ v
  fold_chunks-IsDeep d (a ∷ b ∷ c ∷ e ∷ xs) v =
      fold_chunks-IsDeep (compress4 d (block a b c e)) xs (compress4-IsDeep d _ v)

  two_compressions-IsDeep :
      (count : ℕ) (x y : Digest) → IsDeep (compress4 (compress4 (leaf_iv count) x) y)
  unfolding IsLeafDigest branch_digest branch_iv leaf_iv block
  two_compressions-IsDeep count x y = record {
    leaf = λ b l r e.
        let under = (free.compress_inj _ _ _ _ e).0 in
        let iv = (free.compress_inj _ _ _ _ under).0 in
        absurd (
          omega (
            arith,
            free.new_inj leaf_tag branch_tag (omega arith) (omega arith) (ap (λ d. d.limb0) iv),
          ));
    first = leaf_iv count;
    second = x;
    last = y;
    made = refl;
  }

  leaf_digest-IsDeep : (k : Bytes32) (vals : List H.Field) → IsDeep (leaf_digest k vals)
  unfolding leaf_digest
  leaf_digest-IsDeep k vals =
      fold_chunks-IsDeep _ vals (unfold fold_chunks bytes32_limbs in two_compressions-IsDeep _ _ _)

  -- Without collisions, no leaf digest is the digest of a branch: the domain tags keep the two
  -- apart.
  pub leaf_digest-IsLeafDigest :
      (k : Bytes32) (vals : List H.Field) → IsLeafDigest (leaf_digest k vals)
  leaf_digest-IsLeafDigest k vals = (leaf_digest-IsDeep k vals).leaf

  pub leaf_digest-not_empty :
      (k : Bytes32) (vals : List H.Field) → leaf_digest k vals ≢ empty_digest
  unfolding empty_digest
  leaf_digest-not_empty k vals e =
      let v = leaf_digest-IsDeep k vals in
      free.output_limb3 _ v.last (ap (λ d. d.limb3) (sym v.made ∙ e))
