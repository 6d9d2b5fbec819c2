-- ===== src/Trie/Canonical.antt =====
-- `Trie::root` of rs/src/trie.rs: it is the header's `node(S)`, and depends on the entries alone.
use bbg.Prelude.{ℕ, ◌≡◌, refl, ap, Option, none, some, ◌∙◌, sym}
use bbg.Bytes.{Bytes32}
use bbg.Root.{Hemera, Digest}
use bbg.Trie.{Node, Trie, root, hash, empty_digest, get}
use bbg.Trie.Shape.{IsCanon, lookup, size, reach, AllKeys-reach}
use bbg.Trie.Size.{root_size}
use bbg.Trie.Lookup.{lookup_rest}
use bbg.Trie.Cache.{
  digest_of, hash-digest, hash-IsClean, strip-hash, IsClean-IsCached, IsCanon-strip,
  IsCanon-unstrip, size-strip, lookup-strip, digest_of-strip,
}
use bbg.Trie.Unique.{IsFound, AllKeys-IsFound, unique}
use bbg.Trie.Invariant.{IsNode, OnRoot, IsTrie, get-lookup}

module _ ⦃H : Hemera⦄ where
  -- The commitment that the header defines.
  abbrev pub root_digest : Option Node → Digest
  root_digest none = empty_digest
  root_digest (some n) = digest_of n

  root-root_digest_on :
      (o : Option Node) (len : ℕ)
      → IsTrie (record { root = o; len = len })
      → (root (record { root = o; len = len })).1 ≡ root_digest o
  unfolding root
  root-root_digest_on none len v = refl
  root-root_digest_on (some n) len v = hash-digest n v.node.cached

  -- The digest that `root` computes from the caches is the one that the tree defines.
  pub root-root_digest : (t : Trie) → IsTrie t → (root t).1 ≡ root_digest t.root
  root-root_digest t v = root-root_digest_on t.root t.len v

  pub hash-IsNode : (n : Node) → IsNode n → IsNode (hash n).0
  hash-IsNode n v = record {
    canon = IsCanon-unstrip _ (rw (strip-hash n) (IsCanon-strip n v.canon));
    cached = IsClean-IsCached _ (hash-IsClean n v.cached);
  }

  pub size-hash : (n : Node) → size (hash n).0 ≡ size n
  size-hash n = sym (size-strip _) ∙ ap size (strip-hash n) ∙ size-strip n

  pub lookup-hash : (q : Bytes32) (n : Node) → lookup q (hash n).0 ≡ lookup q n
  lookup-hash q n = sym (lookup-strip q _) ∙ ap (lookup q) (strip-hash n) ∙ lookup-strip q n

  root-IsTrie_on :
      (o : Option Node) (len : ℕ)
      → IsTrie (record { root = o; len = len })
      → IsTrie (root (record { root = o; len = len })).0
  unfolding root
  root-IsTrie_on none len v = v
  root-IsTrie_on (some n) len v = record {
    node = hash-IsNode n v.node;
    count = v.count ∙ sym (size-hash n);
  }

  -- Reading the root changes caches only.
  pub root-IsTrie : (t : Trie) → IsTrie t → IsTrie (root t).0
  root-IsTrie t v = root-IsTrie_on t.root t.len v

  get-root_on :
      (o : Option Node) (len : ℕ) (q : Bytes32)
      → get (root (record { root = o; len = len })).0 q ≡ get (record { root = o; len = len }) q
  unfolding root
  get-root_on none len q = refl
  get-root_on (some n) len q =
      get-lookup (record { root = some (hash n).0; len = len }) q
      ∙ lookup-hash q n
      ∙ sym (get-lookup (record { root = some n; len = len }) q)

  pub get-root : (t : Trie) (q : Bytes32) → get (root t).0 q ≡ get t q
  get-root t q = get-root_on t.root t.len q

  abbrev pub SameEntries : Trie → Trie → Type 0
  SameEntries t u = (q : Bytes32) → get t q ≡ get u q

  -- A node is not empty.
  never_empty : (n : Node) → IsCanon n → ((q : Bytes32) → lookup q n ≡ none) → (any : Bytes32) → ⊥
  never_empty n c h any =
      let found = AllKeys-reach (λ k. IsFound (lookup k n)) any n (AllKeys-IsFound n c) in
      cc (h (reach any n).0, found.1)

  some_key : Node → Bytes32
  some_key (Node.leaf k d) = k
  some_key (Node.branch bit left right digest dirty) = some_key left

  root_unique_on :
      (o p : Option Node)
      → OnRoot IsNode o
      → OnRoot IsNode p
      → ((q : Bytes32) → lookup_rest q o ≡ lookup_rest q p)
      → (root_digest o ≡ root_digest p) × (root_size o ≡ root_size p)
  root_unique_on none none v w same = (refl, refl)
  root_unique_on none (some m) v w same =
      absurd (never_empty m w.canon (λ q. sym (same q)) (some_key m))
  root_unique_on (some n) none v w same = absurd (never_empty n v.canon same (some_key n))
  root_unique_on (some n) (some m) v w same =
      let e = unique n m v.canon w.canon same in
      (
        sym (digest_of-strip n) ∙ ap digest_of e ∙ digest_of-strip m,
        sym (size-strip n) ∙ ap size e ∙ size-strip m,
      )

  -- Two valid tries that hold the same digest under every key, however they were made, have the
  -- same root and the same length.
  pub root_unique :
      (t u : Trie)
      → IsTrie t
      → IsTrie u
      → SameEntries t u
      → ((root t).1 ≡ (root u).1) × (t.len ≡ u.len)
  root_unique t u v w same =
      let both =
        root_unique_on t.root u.root v.node w.node
          (λ q. sym (get-lookup t q) ∙ same q ∙ get-lookup u q) in
      (root-root_digest t v ∙ both.0 ∙ sym (root-root_digest u w), v.count ∙ both.1 ∙ sym w.count)
