-- ===== src/Trie/RemoveLaw.antt =====
-- `Trie::remove` of rs/src/trie.rs: the map that it makes, the count and the flag, on every branch.
use bbg.Prelude.{
  is_none, ℕ, ◌+◌, ◌-◌, ◌≡◌, Bool, true, false, not, Option, none, some, [], arith, if◌then◌else◌,
  Bool-cases, inl, inr, ◌∙◌,
}
use bbg.Prelude.Ord.{beq, eq_of_beq}
use bbg.Bytes.{Bytes32, bytes32_ord}
use bbg.Root.{Hemera}
use bbg.Trie.{Node, Trie, descend, remove_at, remove, get}
use bbg.Trie.Shape.{IsCanon, reach, lookup, size, delete}
use bbg.Trie.Path.{descend-key}
use bbg.Trie.Size.{size-delete}
use bbg.Trie.Canon.{OnRest, delete-IsCanon}
use bbg.Trie.Lookup.{lookup-reached, lookup-reach, lookup-delete}
use bbg.Trie.Cache.{IsCached, delete-IsCached}
use bbg.Trie.Invariant.{IsNode, OnRoot, IsTrie, remove_at-delete, get-lookup}

module _ ⦃H : Hemera⦄ where
  pub record RemoveLaw (t : Trie) (key : Bytes32) (r : Trie × Bool) : Type 0 where
    pub valid : IsTrie r.0
    pub gets : (q : Bytes32) → get r.0 q ≡ (if beq key q then none else get t q)
    pub was_there : r.1 ≡ not (is_none (get t key))
    pub counts : t.len ≡ (if is_none (get t key) then r.0.len else r.0.len + 1)

  module _ (len : ℕ) (n : Node) (key : Bytes32) (v : IsNode n) (count : len ≡ size n) where
    abbrev before : Trie
    before = record { root = some n; len = len }

    abbrev after : Trie
    after = record { root = delete key n; len = len - 1 }

    rest-IsNode : (o : Option Node) → OnRest IsCanon o → OnRest IsCached o → OnRoot IsNode o
    rest-IsNode none c d = tt
    rest-IsNode (some m) c d = record { canon = c; cached = d }

    remove-present :
        beq (reach key n).0 key ≡ true
        → RemoveLaw before key (remove_at before (descend key n []) key)
    remove-present h =
        let e = eq_of_beq (reach key n).0 key h in
        let held : lookup key n ≡ some (reach key n).1 = lookup-reached key n e in
        rw (remove_at-delete before n key h) (record {
          valid = record {
            node =
                rest-IsNode (delete key n) (delete-IsCanon key n v.canon)
                  (delete-IsCached key n v.cached);
            count = omega (arith, size-delete key n);
          };
          gets =
              λ q. rw (get-lookup before q) (get-lookup after q ∙ lookup-delete key n q v.canon e);
          was_there = rw (get-lookup before key, held);
          counts = rw (get-lookup before key, held) (omega (arith, size-delete key n));
        })

    remove-missing :
        beq (reach key n).0 key ≡ false
        → RemoveLaw before key (remove_at before (descend key n []) key)
    unfolding remove_at
    remove-missing h =
        let gone : lookup key n ≡ none = rw (lookup-reach key n, h) in
        let same : remove_at before (descend key n []) key ≡ (before, false) =
          rw (descend-key key n [], h) in
        rw same (record {
          valid = record { node = v; count = count };
          gets = λ q. elim (Bool-cases (beq key q)) [
            | inl e ↦ rw (e, ← eq_of_beq key q e, get-lookup before key) gone
            | inr e ↦ rw e
          ];
          was_there = rw (get-lookup before key, gone);
          counts = rw (get-lookup before key, gone);
        })

  remove-RemoveLaw_on :
      (o : Option Node) (len : ℕ) (key : Bytes32)
      → IsTrie (record { root = o; len = len })
      → RemoveLaw (record { root = o; len = len }) key (remove (record { root = o; len = len }) key)
  unfolding remove
  remove-RemoveLaw_on none len key v = record {
    valid = v;
    gets = λ q. rw (get-lookup (record { root = none; len = len }) q) (ground arith);
    was_there = rw (get-lookup (record { root = none; len = len }) key);
    counts = rw (get-lookup (record { root = none; len = len }) key);
  }
  remove-RemoveLaw_on (some n) len key v = elim (Bool-cases (beq (reach key n).0 key)) [
    | inl h ↦ remove-present len n key v.node v.count h
    | inr h ↦ remove-missing len n key v.node v.count h
  ]

  -- On a valid trie `remove` keeps the trie valid, and afterwards the key is absent and every other
  -- key has the digest it had. It returns true exactly when the key was present, and `len` falls by
  -- one exactly then.
  pub remove-RemoveLaw : (t : Trie) (key : Bytes32) → IsTrie t → RemoveLaw t key (remove t key)
  remove-RemoveLaw t key v = remove-RemoveLaw_on t.root t.len key v
