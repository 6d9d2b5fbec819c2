-- ===== src/Keyed/Soundness.antt =====
-- What a verifier of a proof of rs/src/keyed.rs learns: with records of one width, an accepted proof
-- of inclusion against a dimension's commitment shows the record that the map has.
use bbg.Prelude.{
  ◌≡◌, refl, ap, true, Option, none, some, [], ◌∷◌, length, ◌∙◌, sym, inl, inr, Bool-cases,
}
use bbg.Prelude.Ord.{Ord, beq, eq_of_beq}
use bbg.Bytes.{Bytes32, bytes32_ord}
use bbg.Root.{Hemera, Digest, IsCollisionFree}
use bbg.Map
use bbg.Map.{Map}
use bbg.Trie.{TrieProof, verify}
use bbg.Trie.Soundness.{IsLeafDigest, StepsFit, Binds, verify_sound}
use bbg.Leaf.Binding.{leaf_digest-inj, leaf_digest-IsLeafDigest, leaf_digest-not_empty}
use bbg.Keyed.{TrieKey, LeafValue, Keyed, leaf, flush, commitment}
use bbg.Keyed.Entries.{leaf_at, leaf_of, leaf_at-key_bytes}
use bbg.Keyed.Invariant.{IsKeyed}
use bbg.Keyed.Commitment.{get-flush, flush-IsTrie}

-- Every record has the same number of value fields, and they determine it.
pub record IsInjective ⦃H : Hemera⦄ (V : Type 0) ⦃value : LeafValue V⦄ : Type 0 where
  pub width : (v w : V) → length (value.leaf_vals v) ≡ length (value.leaf_vals w)
  pub vals_inj : (v w : V) → value.leaf_vals v ≡ value.leaf_vals w → v ≡ w

module _ ⦃H : Hemera⦄ {K V : Type 0} ⦃o : Ord K⦄ ⦃path : TrieKey K⦄ ⦃value : LeafValue V⦄ where
  pub leaf-inj :
      IsCollisionFree
      → IsInjective V
      → (j k : K) (v w : V) → leaf j v ≡ leaf k w
      → (j ≡ k) × (v ≡ w)
  unfolding leaf
  leaf-inj free inj j k v w e =
      let both = leaf_digest-inj free _ _ _ _ (inj.width v w) e in
      (path.key_bytes_inj j k both.0, inj.vals_inj v w both.1)

  -- A leaf that the map asks for is a record's, under the path of the record's key.
  at-leaf :
      (P : Bytes32 → Digest → Type 0) (m : Map K V)
      → ((k : K) (v : V) → P (path.key_bytes k) (leaf k v))
      → (b : Bytes32) (d : Digest) → leaf_at b m ≡ some d
      → P b d
  unfolding leaf_at
  at-leaf P [] f b d h = absurd (cc h)
  at-leaf P ((k, v) ∷ m) f b d h = elim (Bool-cases (beq (path.key_bytes k) b)) [
    | inl e ↦
        let same : leaf k v ≡ d = cc (rw (e, leaf_at) at h) in
        rw (← same, ← eq_of_beq (path.key_bytes k) b e) (f k v)
    | inr e ↦ at-leaf P m f b d (rw (e, leaf_at) at h)
  ]

  leaf-Binds :
      IsCollisionFree
      → IsInjective V
      → (k : Keyed K V) (key : K) (v : V) → IsKeyed k
      → Binds (flush k).trie (path.key_bytes key) (leaf key v)
  unfolding leaf
  leaf-Binds free inj k key v valid = record {
    leaf_digests = λ b d h.
        at-leaf (λ _ d. IsLeafDigest d) k.map (λ j w. leaf_digest-IsLeafDigest free _ _) b d
          (sym (get-flush k b valid) ∙ h);
    claimed = leaf_digest-IsLeafDigest free _ _;
    not_empty = leaf_digest-not_empty free _ _;
    only_key = λ b h.
        at-leaf (λ b d. d ≡ leaf key v → b ≡ path.key_bytes key) k.map
          (λ j w e. ap path.key_bytes (leaf-inj free inj j key w v e).0) b (leaf key v)
          (sym (get-flush k b valid) ∙ h) refl;
  }

  -- Without collisions, where all records have one width and their fields determine them: if
  -- `verify` accepts any proof, with bits of the source's type `u16`, that a record stands under a
  -- key, against the commitment of a dimension in which the invariant holds, then the map has that
  -- record under that key.
  pub commitment_sound :
      IsCollisionFree
      → IsInjective V
      → (k : Keyed K V) (p : TrieProof) (key : K) (v : V) → IsKeyed k
      → StepsFit p.steps
      → verify p (commitment k).1 (path.key_bytes key) (some (leaf key v)) ≡ some true
      → Map.get key k.map ≡ some v
  unfolding commitment
  commitment_sound free inj k p key v valid fit h =
      let held =
        verify_sound free (flush k).trie p (path.key_bytes key) (leaf key v) (flush-IsTrie k valid)
          fit (leaf-Binds free inj k key v valid) h in
      let e : leaf_of key (Map.get key k.map) ≡ some (leaf key v) =
        sym (leaf_at-key_bytes key k.map) ∙ sym (get-flush k (path.key_bytes key) valid) ∙ held in
      from_leaf (Map.get key k.map) e
    where
      from_leaf : (r : Option V) → leaf_of key r ≡ some (leaf key v) → r ≡ some v
      from_leaf none e = absurd (cc e)
      from_leaf (some w) e = ap some (leaf-inj free inj key key w v (cc e)).1
