-- ===== src/Trie/Soundness.antt =====
-- `TrieProof::verify` of rs/src/trie.rs against a dishonest prover, the compression being taken as
-- free of collisions.
use mathlib.Core.List.{reverse, reverse-cons}
use bbg.Prelude.{
  leb, some, ℕ, ◌^◌, ◌<◌, ◌≡◌, ◌≢◌, refl, ap, true, Option, none, some, List, [], ◌∷◌, ◌++◌, arith,
  Bool-cases, inl, inr, ◌∙◌, sym, All,
}
use bbg.Prelude.Ord.{beq_self, beq_of_ne}
use bbg.Bytes.{Bytes32, bytes32_ord, key_bit}
use bbg.Root.{Hemera, Digest, digest_eq_self, eq_of_digest_eq, IsCollisionFree}
use bbg.Trie.{
  Node, leaf, branch, Trie, TrieProof, get, root, verify, verify_terminal, climb, fold_step,
  out_of_order, branch_digest, branch_iv, empty_digest,
}
use bbg.Trie.Shape.{IsCanon, AllKeys, reach, lookup}
use bbg.Trie.Lookup.{lookup-reached}
use bbg.Trie.Cache.{digest_of}
use bbg.Trie.Invariant.{IsNode, IsTrie, get-lookup}
use bbg.Trie.Depth.{branch_bit-lt}
use bbg.Trie.Canonical.{root-root_digest}

module _ ⦃H : Hemera⦄ where
  branch_digest-inj :
      IsCollisionFree
      → (b c : ℕ) (l r l' r' : Digest) → b < 2 ^ 16
      → c < 2 ^ 16
      → branch_digest b l r ≡ branch_digest c l' r'
      → (b ≡ c) × (l ≡ l') × (r ≡ r')
  unfolding branch_digest branch_iv
  branch_digest-inj free b c l r l' r' hb hc e =
      let outer = free.compress_inj _ _ _ _ e in
      let inner = free.compress_inj _ _ _ _ outer.0 in
      (free.new_inj b c (omega arith) (omega arith) (ap (λ d. d.limb1) inner.0), inner.1, outer.1)

  -- Not the digest of a branch.
  unfoldable pub IsLeafDigest : Digest → Type 0
  IsLeafDigest d = (b : ℕ) (l r : Digest) → d ≢ branch_digest b l r

  -- `verify`'s loop without its order test, from the root's end.
  fold_down : Bytes32 → Digest → List (ℕ × Digest) → Digest
  fold_down key d [] = d
  fold_down key d ((b, s) ∷ steps) = fold_step key b s (fold_down key d steps)

  fold_up : Bytes32 → Digest → List (ℕ × Digest) → Digest
  fold_up key d [] = d
  fold_up key d ((b, s) ∷ steps) = fold_up key (fold_step key b s d) steps

  fold_up-append :
      (key : Bytes32) (d : Digest) (xs ys : List (ℕ × Digest))
      → fold_up key d (xs ++ ys) ≡ fold_up key (fold_up key d xs) ys
  unfolding fold_up
  fold_up-append key d [] ys = refl
  fold_up-append key d ((b, s) ∷ xs) ys = fold_up-append key (fold_step key b s d) xs ys

  fold_up-reverse :
      (key : Bytes32) (d : Digest) (xs : List (ℕ × Digest))
      → fold_up key d (reverse xs) ≡ fold_down key d xs
  unfolding fold_up fold_down
  fold_up-reverse key d [] = refl
  fold_up-reverse key d ((b, s) ∷ xs) =
      ap (fold_up key d) (reverse-cons (b, s) xs)
      ∙ fold_up-append key d (reverse xs) ((b, s) ∷ [])
      ∙ ap (fold_step key b s) (fold_up-reverse key d xs)

  some-inj : {A : Type 0} (x y : A) → some x ≡ some y → x ≡ y
  some-inj x y h = cc h

  climb-fold_up :
      (key : Bytes32) (goal d : Digest) (last : Option ℕ) (steps : List (ℕ × Digest))
      → climb key goal d last steps ≡ some true
      → fold_up key d steps ≡ goal
  unfolding climb fold_up
  climb-fold_up key goal d last [] h = eq_of_digest_eq d goal (some-inj _ _ h)
  climb-fold_up key goal d last ((b, s) ∷ steps) h = elim (Bool-cases (out_of_order b last)) [
    | inl e ↦ absurd (cc (rw e at h))
    | inr e ↦ elim (Bool-cases (leb 256 b)) [
      | inl far ↦ absurd (cc (rw (e, far) at h))
      | inr near ↦ climb-fold_up key goal (fold_step key b s d) (some b) steps (rw (e, near) at h)
    ]
  ]

  -- A predicate of every leaf.
  abbrev AllEntries : (Bytes32 → Digest → Type 0) → Node → Type 0
  AllEntries P (leaf k d) = P k d
  AllEntries P (branch bit left right digest dirty) = AllEntries P left × AllEntries P right

  AllEntries-imp :
      (P Q : Bytes32 → Digest → Type 0)
      → ((k : Bytes32) (d : Digest) → P k d → Q k d)
      → (n : Node) → AllEntries P n
      → AllEntries Q n
  AllEntries-imp P Q f (leaf k d) a = f k d a
  AllEntries-imp P Q f (branch bit left right digest dirty) a =
      (AllEntries-imp P Q f left a.0, AllEntries-imp P Q f right a.1)

  AllEntries-keys :
      (P : Bytes32 → Digest → Type 0) (Q : Bytes32 → Type 0) (n : Node)
      → AllEntries P n
      → AllKeys Q n
      → AllEntries (λ k d. P k d × Q k) n
  AllEntries-keys P Q (leaf k d) a b = (a, b)
  AllEntries-keys P Q (branch bit left right digest dirty) a b =
      (AllEntries-keys P Q left a.0 b.0, AllEntries-keys P Q right a.1 b.1)

  AllEntries-found : (n : Node) → IsCanon n → AllEntries (λ k d. lookup k n ≡ some d) n
  unfolding lookup
  AllEntries-found (leaf k d) c = rw (beq_self k)
  AllEntries-found (branch bit left right digest dirty) c = (
    AllEntries-imp _ _ (λ k d h. rw (h.1, lookup) h.0) left
        (AllEntries-keys _ _ left (AllEntries-found left c.3) c.0),
    AllEntries-imp _ _ (λ k d h. rw (h.1, lookup) h.0) right
        (AllEntries-keys _ _ right (AllEntries-found right c.4) c.1),
  )

  AllEntries-reach :
      (P : Bytes32 → Digest → Type 0) (key : Bytes32) (n : Node)
      → AllEntries P n
      → P (reach key n).0 (reach key n).1
  unfolding reach
  AllEntries-reach P key (leaf k d) a = a
  AllEntries-reach P key (branch bit left right digest dirty) a =
      elim (Bool-cases (key_bit key bit)) [
        | inl e ↦ rw (e, reach) (AllEntries-reach P key right a.1)
        | inr e ↦ rw (e, reach) (AllEntries-reach P key left a.0)
      ]

  -- A list of steps whose bits are of the source's type, `u16`.
  abbrev pub StepsFit : List (ℕ × Digest) → Type 0
  StepsFit = All (λ s. s.0 < 2 ^ 16)

  abbrev BitsFit : Node → Type 0
  BitsFit (leaf k d) = Unit
  BitsFit (branch bit left right digest dirty) = (bit < 256) × BitsFit left × BitsFit right

  BitsFit-canon : (n : Node) → IsCanon n → BitsFit n
  BitsFit-canon (leaf k d) c = tt
  BitsFit-canon (branch bit left right digest dirty) c =
      (branch_bit-lt bit left right digest dirty c, BitsFit-canon left c.3, BitsFit-canon right c.4)

  -- If the steps lead from a leaf digest to the digest of a node, they are the node's own.
  fold_down-reach :
      IsCollisionFree
      → (key : Bytes32) (d : Digest) (n : Node) (steps : List (ℕ × Digest)) → StepsFit steps
      → BitsFit n
      → IsLeafDigest d
      → AllEntries (λ k e. IsLeafDigest e) n
      → digest_of n ≡ fold_down key d steps
      → (reach key n).1 ≡ d
  unfolding fold_down fold_step reach digest_of IsLeafDigest
  fold_down-reach free key d (leaf k e) [] f b l a h = h
  fold_down-reach free key d (branch bit left right digest dirty) [] f b l a h =
      absurd (l bit _ _ (sym h))
  fold_down-reach free key d (leaf k e) ((bit', s) ∷ steps) f b l a h =
      elim (Bool-cases (key_bit key bit')) [
        | inl t ↦ absurd (a bit' _ _ (rw t at h))
        | inr t ↦ absurd (a bit' _ _ (rw t at h))
      ]
  fold_down-reach free key d (branch bit left right digest dirty) ((bit', s) ∷ steps) f b l a h =
      elim (Bool-cases (key_bit key bit')) [
        | inl t ↦
            let (same, _, below) =
              branch_digest-inj free bit bit' _ _ _ _ (omega arith) (omega arith) (rw t at h) in
            rw (same, t, reach) (fold_down-reach free key d right steps f.1 b.2 l a.1 below)
        | inr t ↦
            let (same, below, _) =
              branch_digest-inj free bit bit' _ _ _ _ (omega arith) (omega arith) (rw t at h) in
            rw (same, t, reach) (fold_down-reach free key d left steps f.1 b.1 l a.0 below)
      ]

  -- What a verifier's digest for a key must satisfy: it is no branch's and not the empty trie's, and
  -- the trie holds it under that key only; all follow from how leaf digests are made.
  pub record Binds (t : Trie) (key : Bytes32) (e : Digest) : Type 0 where
    pub leaf_digests : (k : Bytes32) (d : Digest) → get t k ≡ some d → IsLeafDigest d
    pub claimed : IsLeafDigest e
    pub not_empty : e ≢ empty_digest
    pub only_key : (k : Bytes32) → get t k ≡ some e → k ≡ key

  -- The terminal that an inclusion proof must carry, and the climb from it.
  verify-climb :
      (p : TrieProof) (goal : Digest) (key : Bytes32) (e : Digest)
      → verify p goal key (some e) ≡ some true
      → climb key goal e none (reverse p.steps) ≡ some true
  unfolding verify
  verify-climb p goal key e h = on_terminal p.terminal h
    where
      on_terminal :
          (o : Option (Bytes32 × Digest))
          → verify_terminal o (some e) p.steps goal key ≡ some true
          → climb key goal e none (reverse p.steps) ≡ some true
      on_terminal none k = absurd (cc k)
      on_terminal (some (k, d)) w = ground (arith, w, eq_of_digest_eq d e)

  branch_root :
      IsCollisionFree
      → (n : Node) (len : ℕ) (v : IsNode n) (key : Bytes32) (e : Digest) (steps : List (ℕ × Digest))
      → StepsFit steps
      → Binds (record { root = some n; len = len }) key e
      → digest_of n ≡ fold_down key e steps
      → lookup key n ≡ some e
  branch_root free n len v key e steps fit b h =
      let t : Trie = record { root = some n; len = len } in
      let found = AllEntries-found n v.canon in
      let leaves = AllEntries-imp _ _ (λ k d q. b.leaf_digests k d (get-lookup t k ∙ q)) n found in
      let met =
        fold_down-reach free key e n steps fit (BitsFit-canon n v.canon) b.claimed leaves h in
      let held = AllEntries-reach _ key n found in
      let k : (reach key n).0 ≡ key =
        b.only_key (reach key n).0 (get-lookup t _ ∙ held ∙ ap some met) in
      lookup-reached key n k ∙ ap some met

  fold_down-not_empty :
      IsCollisionFree
      → (key : Bytes32) (d : Digest) (steps : List (ℕ × Digest)) → d ≢ empty_digest
      → empty_digest ≢ fold_down key d steps
  unfolding fold_down empty_digest fold_step branch_digest
  fold_down-not_empty free key d [] ne h = ne (sym h)
  fold_down-not_empty free key d ((b, s) ∷ steps) ne h = elim (Bool-cases (key_bit key b)) [
    | inl e ↦ free.output_limb3 _ _ (ap (λ x. x.limb3) (sym (rw (e) at h)))
    | inr e ↦ free.output_limb3 _ _ (ap (λ x. x.limb3) (sym (rw (e) at h)))
  ]

  verify_sound_on :
      IsCollisionFree
      → (o : Option Node) (len : ℕ) (p : TrieProof) (key : Bytes32) (e : Digest)
      → IsTrie (record { root = o; len = len })
      → StepsFit p.steps
      → Binds (record { root = o; len = len }) key e
      → (root (record { root = o; len = len })).1 ≡ fold_down key e p.steps
      → get (record { root = o; len = len }) key ≡ some e
  unfolding empty_digest root
  verify_sound_on free none len p key e v fit b h =
      absurd (fold_down-not_empty free key e p.steps b.not_empty h)
  verify_sound_on free (some n) len p key e v fit b h =
      let t : Trie = record { root = some n; len = len } in
      get-lookup t key
      ∙ branch_root free n len v.node key e p.steps fit b (sym (root-root_digest t v) ∙ h)

  -- Without collisions, a proof of inclusion that `verify` accepts against the root of a valid trie
  -- tells the truth, whoever made it: the trie holds the claimed digest under the key. The proof's
  -- bits are of the source's type `u16`, every digest that the trie holds is a leaf's, and the
  -- claimed one is a leaf's too, is not the empty trie's and is held under no other key.
  pub verify_sound :
      IsCollisionFree
      → (t : Trie) (p : TrieProof) (key : Bytes32) (e : Digest) → IsTrie t
      → StepsFit p.steps
      → Binds t key e
      → verify p (root t).1 key (some e) ≡ some true
      → get t key ≡ some e
  verify_sound free t p key e v fit b h =
      let up = climb-fold_up key (root t).1 e none (reverse p.steps) (verify-climb p _ key e h) in
      verify_sound_on free t.root t.len p key e v fit b (sym up ∙ fold_up-reverse key e p.steps)

  -- A proof that names some other key and gives the root itself as that key's digest.
  pub forged_absence : Bytes32 → Digest → TrieProof
  forged_absence other root_claimed = record { steps = []; terminal = some (other, root_claimed) }

  -- `verify` accepts a proof of the absence of any key against the root of any trie: the terminal's
  -- digest is not tied to the terminal's key.
  pub forged_absence-verify :
      (t : Trie) (key other : Bytes32)
      → other ≢ key
      → verify (forged_absence other (root t).1) (root t).1 key none ≡ some true
  unfolding verify forged_absence climb
  forged_absence-verify t key other ne = rw (beq_of_ne other key ne, digest_eq_self (root t).1) refl
