-- ===== src/Trie/Invariant.antt =====
-- The tries of rs/src/trie.rs: the invariant, that every operation keeps it, and what each does to
-- the digests held under keys, the count and the returned flag.
use bbg.Prelude.{◌+◌, ◌-◌, ◌≡◌, refl, ap, true, false, Option, none, some, [], ◌∙◌}
use bbg.Prelude.Ord.{beq}
use bbg.Bytes.{Bytes32, bytes32_ord, first_diff_bit}
use bbg.Root.{Hemera, Digest, digest_eq}
use bbg.Trie.{Node, Trie, new, descend, mark, rebuild, drop_leaf, set_at, remove_at, get_at, get}
use bbg.Trie.Shape.{IsCanon, reach, add, update, delete}
use bbg.Trie.Path.{
  descend-key, descend-digest, close, rebuild-update, drop_leaf-delete, split_at, split_at-add,
}
use bbg.Trie.Size.{root_size}
use bbg.Trie.Lookup.{get_at-lookup, lookup_rest}
use bbg.Trie.Cache.{IsCached}

module _ ⦃H : Hemera⦄ where
  pub record IsNode (n : Node) : Type 0 where
    pub canon : IsCanon n
    pub cached : IsCached n

  abbrev pub OnRoot : (Node → Type 0) → Option Node → Type 0
  OnRoot P none = Unit
  OnRoot P (some n) = P n

  -- The shape, the caches and the count.
  pub record IsTrie (t : Trie) : Type 0 where
    pub node : OnRoot IsNode t.root
    pub count : t.len ≡ root_size t.root

  pub new-IsTrie : IsTrie new
  new-IsTrie = record { node = tt; count = refl }

  -- The code's walks below a root come to the direct recursions.
  pub set_at-add :
      (t : Trie) (n : Node) (key : Bytes32) (d : Digest)
      → IsCanon n
      → beq (reach key n).0 key ≡ false
      → set_at t (descend key n []) key d ≡ (
        record { root = some (add (first_diff_bit key (reach key n).0) key d n); len = t.len + 1 },
        true,
      )
  unfolding set_at split_at
  set_at-add t n key d c h =
      let j = first_diff_bit key (reach key n).0 in
      let e = split_at-add j key d n [] c (λ m. refl) in
      rw (descend-key key n [], descend-digest key n [], h)
        (ap (λ m. (record { root = some m; len = t.len + 1 }, true)) e)

  pub set_at-update :
      (t : Trie) (n : Node) (key : Bytes32) (d : Digest)
      → beq (reach key n).0 key ≡ true
      → digest_eq (reach key n).1 d ≡ false
      → set_at t (descend key n []) key d ≡ (record t { root = some (update key d n) }, false)
  unfolding set_at
  set_at-update t n key d h ne =
      rw (descend-key key n [], descend-digest key n [], h, ne)
        (ap (λ m. (record t { root = some m }, false)) (rebuild-update key d n []))

  pub set_at-same :
      (t : Trie) (n : Node) (key : Bytes32) (d : Digest)
      → beq (reach key n).0 key ≡ true
      → digest_eq (reach key n).1 d ≡ true
      → set_at t (descend key n []) key d ≡ (t, false)
  unfolding set_at
  set_at-same t n key d h e = rw (descend-key key n [], descend-digest key n [], h, e)

  close-nil : (o : Option Node) → close o [] ≡ o
  unfolding drop_leaf mark rebuild
  close-nil none = refl
  close-nil (some m) = refl

  pub remove_at-delete :
      (t : Trie) (n : Node) (key : Bytes32)
      → beq (reach key n).0 key ≡ true
      → remove_at t (descend key n []) key ≡ (record { root = delete key n; len = t.len - 1 }, true)
  unfolding remove_at mark rebuild
  remove_at-delete t n key h =
      rw (descend-key key n [], h)
        (ap (λ o. (record { root = o; len = t.len - 1 }, true))
          (drop_leaf-delete key n [] ∙ close-nil (delete key n)))

  pub get-lookup : (t : Trie) (q : Bytes32) → get t q ≡ lookup_rest q t.root
  unfolding get
  get-lookup t q = on_root t.root
    where
      on_root :
          (o : Option Node)
          → (elim o [ none ↦ none | some r ↦ get_at (descend q r []) q ]) ≡ lookup_rest q o
      on_root none = refl
      on_root (some n) = get_at-lookup q n
