-- ===== src/Trie/Cache.antt =====
-- The cached digests of rs/src/trie.rs: what `hash` returns, the flags that say which digests hold,
-- and that hashing changes nothing but them.
use bbg.Prelude.{
  ℕ, ◌+◌, ◌≡◌, refl, ap₂, true, false, Option, none, some, ltb, Bool-cases, inl, inr, ◌∙◌, sym,
}
use bbg.Bytes.{Bytes32, key_bit}
use bbg.Root.{Hemera, Digest}
use bbg.Trie.{Node, leaf, branch, split_branch, branch_digest, empty_digest, hash, node_digest}
use bbg.Trie.Shape.{
  AllKeys, IsCanon, lookup, size, add, update, remainder_right, remainder_left, delete,
}
use bbg.Trie.Canon.{OnRest}

module _ ⦃H : Hemera⦄ where
  -- The header's `node(S)`: the digest that a node stands for, whatever is cached.
  unfoldable pub digest_of : Node → Digest
  digest_of (leaf k d) = d
  digest_of (branch bit left right digest dirty) =
      branch_digest bit (digest_of left) (digest_of right)

  -- The node without its caches.
  unfoldable pub strip : Node → Node
  strip (leaf k d) = leaf k d
  strip (branch bit left right digest dirty) =
      branch bit (strip left) (strip right) empty_digest true

  abbrev pub IsClean : Node → Type 0
  IsClean (leaf k d) = Unit
  IsClean (branch bit left right digest dirty) =
      (dirty ≡ false)
      × (digest ≡ branch_digest bit (digest_of left) (digest_of right))
      × IsClean left
      × IsClean right

  -- A digest that is not marked stale holds, and so do all below it.
  abbrev pub IsCached : Node → Type 0
  IsCached (leaf k d) = Unit
  IsCached (branch bit left right digest dirty) =
      (dirty ≡ false → IsClean (branch bit left right digest dirty))
      × IsCached left
      × IsCached right

  pub IsClean-IsCached : (n : Node) → IsClean n → IsCached n
  IsClean-IsCached (leaf k d) c = tt
  IsClean-IsCached (branch bit left right digest dirty) c =
      ((λ _. c), IsClean-IsCached left c.2, IsClean-IsCached right c.3)

  pub node_digest-IsClean : (n : Node) → IsClean n → node_digest n ≡ digest_of n
  unfolding node_digest digest_of
  node_digest-IsClean (leaf k d) c = refl
  node_digest-IsClean (branch bit left right digest dirty) c = c.1

  pub hash-digest : (n : Node) → IsCached n → (hash n).1 ≡ digest_of n
  unfolding hash digest_of
  hash-digest (leaf k d) c = refl
  hash-digest (branch bit left right digest true) c =
      ap₂ (branch_digest bit) (hash-digest left c.1) (hash-digest right c.2)
  hash-digest (branch bit left right digest false) c = (c.0 refl).1

  pub digest_of-hash : (n : Node) → digest_of (hash n).0 ≡ digest_of n
  unfolding hash digest_of
  digest_of-hash (leaf k d) = refl
  digest_of-hash (branch bit left right digest true) =
      ap₂ (branch_digest bit) (digest_of-hash left) (digest_of-hash right)
  digest_of-hash (branch bit left right digest false) = refl

  pub hash-IsClean : (n : Node) → IsCached n → IsClean (hash n).0
  unfolding hash
  hash-IsClean (leaf k d) c = tt
  hash-IsClean (branch bit left right digest true) c = (
    refl,
    ap₂ (branch_digest bit) (hash-digest left c.1 ∙ sym (digest_of-hash left))
        (hash-digest right c.2 ∙ sym (digest_of-hash right)),
    hash-IsClean left c.1,
    hash-IsClean right c.2,
  )
  hash-IsClean (branch bit left right digest false) c = c.0 refl

  pub strip-hash : (n : Node) → strip (hash n).0 ≡ strip n
  unfolding hash strip
  strip-hash (leaf k d) = refl
  strip-hash (branch bit left right digest true) = cc (strip-hash left, strip-hash right)
  strip-hash (branch bit left right digest false) = refl

  -- What does not read the caches is the same after `strip`.
  pub digest_of-strip : (n : Node) → digest_of (strip n) ≡ digest_of n
  unfolding strip digest_of
  digest_of-strip (leaf k d) = refl
  digest_of-strip (branch bit left right digest dirty) =
      ap₂ (branch_digest bit) (digest_of-strip left) (digest_of-strip right)

  pub size-strip : (n : Node) → size (strip n) ≡ size n
  unfolding strip size
  size-strip (leaf k d) = refl
  size-strip (branch bit left right digest dirty) = ap₂ ◌+◌ (size-strip left) (size-strip right)

  pub lookup-strip : (q : Bytes32) (n : Node) → lookup q (strip n) ≡ lookup q n
  unfolding strip lookup
  lookup-strip q (leaf k d) = refl
  lookup-strip q (branch bit left right digest dirty) = elim (Bool-cases (key_bit q bit)) [
    | inl e ↦ rw (e, strip, lookup) (lookup-strip q right)
    | inr e ↦ rw (e, strip, lookup) (lookup-strip q left)
  ]

  pub AllKeys-strip : (P : Bytes32 → Type 0) (n : Node) → AllKeys P n → AllKeys P (strip n)
  unfolding strip
  AllKeys-strip P (leaf k d) a = a
  AllKeys-strip P (branch bit left right digest dirty) a =
      (AllKeys-strip P left a.0, AllKeys-strip P right a.1)

  pub AllKeys-unstrip : (P : Bytes32 → Type 0) (n : Node) → AllKeys P (strip n) → AllKeys P n
  unfolding strip
  AllKeys-unstrip P (leaf k d) a = a
  AllKeys-unstrip P (branch bit left right digest dirty) a =
      (AllKeys-unstrip P left a.0, AllKeys-unstrip P right a.1)

  pub IsCanon-strip : (n : Node) → IsCanon n → IsCanon (strip n)
  unfolding strip
  IsCanon-strip (leaf k d) c = tt
  IsCanon-strip (branch bit left right digest dirty) c =
      let (p, l, r) = c.2 in
      (
        AllKeys-strip _ left c.0,
        AllKeys-strip _ right c.1,
        (p, AllKeys-strip _ left l, AllKeys-strip _ right r),
        IsCanon-strip left c.3,
        IsCanon-strip right c.4,
      )

  pub IsCanon-unstrip : (n : Node) → IsCanon (strip n) → IsCanon n
  unfolding strip
  IsCanon-unstrip (leaf k d) c = tt
  IsCanon-unstrip (branch bit left right digest dirty) c =
      let (p, l, r) = c.2 in
      (
        AllKeys-unstrip _ left c.0,
        AllKeys-unstrip _ right c.1,
        (p, AllKeys-unstrip _ left l, AllKeys-unstrip _ right r),
        IsCanon-unstrip left c.3,
        IsCanon-unstrip right c.4,
      )

  -- A branch that is marked stale asks nothing of its own digest.
  stale :
      (bit : ℕ) (left right : Node) (digest : Digest)
      → IsCached left
      → IsCached right
      → IsCached (branch bit left right digest true)
  stale bit left right digest l r = ((λ e. absurd (cc e)), l, r)

  split_branch-IsCached :
      (j : ℕ) (n : Node) (key : Bytes32) (d : Digest)
      → IsCached n
      → IsCached (split_branch j n key d)
  unfolding split_branch
  split_branch-IsCached j n key d c = elim (Bool-cases (key_bit key j)) [
    | inl e ↦ rw e (stale j n (leaf key d) empty_digest c tt)
    | inr e ↦ rw e (stale j (leaf key d) n empty_digest tt c)
  ]

  pub add-IsCached :
      (j : ℕ) (key : Bytes32) (d : Digest) (n : Node) → IsCached n → IsCached (add j key d n)
  unfolding add
  add-IsCached j key d (leaf k e) c = split_branch-IsCached j (leaf k e) key d c
  add-IsCached j key d (branch bit left right digest dirty) c = elim (Bool-cases (ltb bit j)) [
    | inl before ↦ elim (Bool-cases (key_bit key bit)) [
      | inl e ↦ rw (before, e, add) (stale bit left _ digest c.1 (add-IsCached j key d right c.2))
      | inr e ↦ rw (before, e, add) (stale bit _ right digest (add-IsCached j key d left c.1) c.2)
    ]
    | inr after ↦
        rw (after, add) (split_branch-IsCached j (branch bit left right digest dirty) key d c)
  ]

  pub update-IsCached :
      (key : Bytes32) (d : Digest) (n : Node) → IsCached n → IsCached (update key d n)
  unfolding update
  update-IsCached key d (leaf k e) c = tt
  update-IsCached key d (branch bit left right digest dirty) c =
      elim (Bool-cases (key_bit key bit)) [
        | inl e ↦ rw (e, update) (stale bit left _ digest c.1 (update-IsCached key d right c.2))
        | inr e ↦ rw (e, update) (stale bit _ right digest (update-IsCached key d left c.1) c.2)
      ]

  remainder_right-IsCached :
      (bit : ℕ) (left : Node) (digest : Digest) (o : Option Node)
      → IsCached left
      → OnRest IsCached o
      → IsCached (remainder_right bit left digest o)
  unfolding remainder_right
  remainder_right-IsCached bit left digest none l r = l
  remainder_right-IsCached bit left digest (some n) l r = stale bit left n digest l r

  remainder_left-IsCached :
      (bit : ℕ) (right : Node) (digest : Digest) (o : Option Node)
      → IsCached right
      → OnRest IsCached o
      → IsCached (remainder_left bit right digest o)
  unfolding remainder_left
  remainder_left-IsCached bit right digest none r l = r
  remainder_left-IsCached bit right digest (some n) r l = stale bit n right digest l r

  pub delete-IsCached : (key : Bytes32) (n : Node) → IsCached n → OnRest IsCached (delete key n)
  unfolding delete
  delete-IsCached key (leaf k e) c = tt
  delete-IsCached key (branch bit left right digest dirty) c = elim (Bool-cases (key_bit key bit)) [
    | inl e ↦
        rw (e, delete)
          (remainder_right-IsCached bit left digest _ c.1 (delete-IsCached key right c.2))
    | inr e ↦
        rw (e, delete)
          (remainder_left-IsCached bit right digest _ c.2 (delete-IsCached key left c.1))
  ]
