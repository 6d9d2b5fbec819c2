-- ===== src/Trie/SetLaw.antt =====
-- `Trie::set` of rs/src/trie.rs: the map that it makes, the count and the flag, on every branch.
use bbg.Prelude.{
  is_none, ℕ, ◌+◌, ◌≡◌, ◌≢◌, refl, ap, Bool, true, false, Option, none, some, [], arith,
  if◌then◌else◌, Bool-cases, inl, inr, ◌∙◌, sym,
}
use bbg.Prelude.Ord.{beq, eq_of_beq, ne_of_beq}
use bbg.Bytes.{Bytes32, bytes32_ord, first_diff_bit}
use bbg.Bytes.Bits.{first_diff_bit_differs, first_diff_bit_agrees}
use bbg.Root.{Hemera, Digest, digest_eq, eq_of_digest_eq}
use bbg.Trie.{Node, leaf, Trie, descend, set_at, set, get}
use bbg.Trie.Shape.{Apart, reach, lookup, size, add, update}
use bbg.Trie.Size.{size-add, size-update}
use bbg.Trie.Canon.{add-IsCanon, update-IsCanon}
use bbg.Trie.Lookup.{lookup-reached, lookup-reach, lookup-add, lookup-update}
use bbg.Trie.Cache.{add-IsCached, update-IsCached}
use bbg.Trie.Invariant.{IsNode, IsTrie, set_at-add, set_at-update, set_at-same, get-lookup}

module _ ⦃H : Hemera⦄ where
  -- What `set` is to return.
  pub record SetLaw (t : Trie) (key : Bytes32) (d : Digest) (r : Trie × Bool) : Type 0 where
    pub valid : IsTrie r.0
    pub gets : (q : Bytes32) → get r.0 q ≡ (if beq key q then some d else get t q)
    pub is_new : r.1 ≡ is_none (get t key)
    pub counts : r.0.len ≡ (if is_none (get t key) then t.len + 1 else t.len)

  module _ (len : ℕ) (n : Node) (key : Bytes32) (d : Digest) (v : IsNode n)
      (count : len ≡ size n) where
    abbrev before : Trie
    before = record { root = some n; len = len }

    missing : beq (reach key n).0 key ≡ false → lookup key n ≡ none
    missing h = rw (lookup-reach key n, h)

    set-SetLaw_add :
        beq (reach key n).0 key ≡ false
        → SetLaw before key d (set_at before (descend key n []) key d)
    set-SetLaw_add h =
        let k = (reach key n).0 in
        let ne : key ≢ k = λ e. ne_of_beq k key h (sym e) in
        let apart : Apart (first_diff_bit key k) key k = record {
          shares = first_diff_bit_agrees key k ne;
          differs = first_diff_bit_differs key k ne;
        } in
        let j = first_diff_bit key k in
        rw (set_at-add before n key d v.canon h) (record {
          valid = record {
            node = record {
              canon = add-IsCanon j key d n v.canon apart;
              cached = add-IsCached j key d n v.cached;
            };
            count = omega (arith, size-add j key d n);
          };
          gets = λ q. rw (get-lookup before q) (
              get-lookup (record { root = some (add j key d n); len = len + 1 }) q
              ∙ lookup-add j key d n q v.canon apart);
          is_new = rw (get-lookup before key, missing h);
          counts = rw (get-lookup before key, missing h);
        })

    present : beq (reach key n).0 key ≡ true → lookup key n ≡ some (reach key n).1
    present h = lookup-reached key n (eq_of_beq (reach key n).0 key h)

    set-SetLaw_update :
        beq (reach key n).0 key ≡ true
        → digest_eq (reach key n).1 d ≡ false
        → SetLaw before key d (set_at before (descend key n []) key d)
    set-SetLaw_update h ne =
        let e = eq_of_beq (reach key n).0 key h in
        rw (set_at-update before n key d h ne) (record {
          valid = record {
            node = record {
              canon = update-IsCanon key d n v.canon e;
              cached = update-IsCached key d n v.cached;
            };
            count = omega (arith, size-update key d n);
          };
          gets = λ q. rw (get-lookup before q) (
              get-lookup (record { root = some (update key d n); len = len }) q
              ∙ lookup-update key d n q e);
          is_new = rw (get-lookup before key, present h);
          counts = rw (get-lookup before key, present h);
        })

    set-SetLaw_same :
        beq (reach key n).0 key ≡ true
        → digest_eq (reach key n).1 d ≡ true
        → SetLaw before key d (set_at before (descend key n []) key d)
    set-SetLaw_same h same =
        let held : lookup key n ≡ some d =
          present h ∙ ap some (eq_of_digest_eq (reach key n).1 d same) in
        rw (set_at-same before n key d h same) (record {
          valid = record { node = v; count = count };
          gets = λ q. elim (Bool-cases (beq key q)) [
            | inl e ↦ rw (e, ← eq_of_beq key q e, get-lookup before key) held
            | inr e ↦ rw e
          ];
          is_new = rw (get-lookup before key, held);
          counts = rw (get-lookup before key, held);
        })

    set_at-SetLaw : SetLaw before key d (set_at before (descend key n []) key d)
    set_at-SetLaw = elim (Bool-cases (beq (reach key n).0 key)) [
      | inl h ↦ elim (Bool-cases (digest_eq (reach key n).1 d)) [
        | inl same ↦ set-SetLaw_same h same
        | inr ne ↦ set-SetLaw_update h ne
      ]
      | inr h ↦ set-SetLaw_add h
    ]

  set-SetLaw_on :
      (o : Option Node) (len : ℕ) (key : Bytes32) (d : Digest)
      → IsTrie (record { root = o; len = len })
      → SetLaw (record { root = o; len = len }) key d (set (record { root = o; len = len }) key d)
  unfolding set size lookup
  set-SetLaw_on none len key d v = record {
    valid = record { node = record { canon = tt; cached = tt }; count = refl };
    gets = λ q.
        get-lookup (record { root = some (leaf key d); len = 1 }) q
        ∙ rw (get-lookup (record { root = none; len = len }) q) refl;
    is_new = rw (get-lookup (record { root = none; len = len }) key);
    counts = rw (get-lookup (record { root = none; len = len }) key) (omega (arith, v.count));
  }
  set-SetLaw_on (some n) len key d v = set_at-SetLaw len n key d v.node v.count

  -- On a valid trie `set` keeps the trie valid, and afterwards the key has the given digest and
  -- every other key the one it had. It returns true exactly when the key was absent, and `len`
  -- grows by one exactly then.
  pub set-SetLaw : (t : Trie) (key : Bytes32) (d : Digest) → IsTrie t → SetLaw t key d (set t key d)
  set-SetLaw t key d v = set-SetLaw_on t.root t.len key d v
