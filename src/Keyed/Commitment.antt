-- ===== src/Keyed/Commitment.antt =====
-- The commitment of a dimension of rs/src/keyed.rs: the flush brings the trie to the leaves of the
-- map, so that the commitment depends on the map alone, and the proofs that the dimension makes
-- verify against it.
pub mod Runs
use bbg.Prelude.{
  ◌≡◌, refl, ap, Bool, true, false, Option, none, some, List, [], ◌∷◌, if◌then◌else◌, arith,
  Bool-cases, Option-cases, inl, inr, ◌∙◌, sym,
}
use bbg.Prelude.Ord.{Ord, beq, eq_of_beq, beq_self}
use bbg.Bytes.{Bytes32, bytes32_ord}
use bbg.Root.{Hemera, Digest}
use bbg.Map
use bbg.Map.{Map}
use bbg.Map.Sorted.{IsSorted, SameGets, ext}
use bbg.Trie.{Trie, get as trie_get, root as trie_root, verify}
use bbg.Trie.Invariant.{IsTrie}
use bbg.Trie.SetLaw.{set-SetLaw}
use bbg.Trie.RemoveLaw.{remove-RemoveLaw}
use bbg.Trie.Canonical.{root_unique, root-IsTrie, get-root}
use bbg.Trie.Proofs.{prove-verify}
use bbg.Keyed.{TrieKey, LeafValue, Keyed, leaf, flush_key, flush_all, flush, commitment, prove}
use bbg.Keyed.Entries.{dirty_at, leaf_at, leaf_of, leaf_at-key_bytes}
use bbg.Keyed.Invariant.{IsKeyed}

module _ ⦃H : Hemera⦄ {K V : Type 0} ⦃o : Ord K⦄ ⦃path : TrieKey K⦄ ⦃value : LeafValue V⦄ where
  flush_key-IsTrie : (m : Map K V) (t : Trie) (key : K) → IsTrie t → IsTrie (flush_key m t key)
  unfolding flush_key
  flush_key-IsTrie m t key v = elim (Option-cases (Map.get key m)) [
    | inl e ↦ rw (e, flush_key) (remove-RemoveLaw t (path.key_bytes key) v).valid
    | inr e ↦ rw (e.1, flush_key) (set-SetLaw t (path.key_bytes key) (leaf key e.0) v).valid
  ]

  get-flush_key :
      (m : Map K V) (t : Trie) (key : K) (b : Bytes32)
      → IsTrie t
      → trie_get (flush_key m t key) b
        ≡ (if beq (path.key_bytes key) b then leaf_at b m else trie_get t b)
  unfolding flush_key
  get-flush_key m t key b v = elim (Option-cases (Map.get key m)) [
    | inl e ↦
        let law = (remove-RemoveLaw t (path.key_bytes key) v).gets b in
        ground (arith, law, e, eq_of_beq (path.key_bytes key) b, leaf_at-key_bytes key m)
    | inr e ↦
        let law = (set-SetLaw t (path.key_bytes key) (leaf key e.0) v).gets b in
        ground (arith, law, e.1, eq_of_beq (path.key_bytes key) b, leaf_at-key_bytes key m)
  ]

  flush_all-IsTrie :
      (m : Map K V) (t : Trie) (keys : Map K (Unit {0})) → IsTrie t → IsTrie (flush_all m t keys)
  unfolding flush_all
  flush_all-IsTrie m t [] v = v
  flush_all-IsTrie m t ((key, u) ∷ rest) v =
      flush_all-IsTrie m (flush_key m t key) rest (flush_key-IsTrie m t key v)

  get-flush_all :
      (m : Map K V) (t : Trie) (keys : Map K (Unit {0})) (b : Bytes32)
      → IsTrie t
      → trie_get (flush_all m t keys) b ≡ (if dirty_at b keys then leaf_at b m else trie_get t b)
  unfolding flush_all dirty_at
  get-flush_all m t [] b v = refl
  get-flush_all m t ((key, u) ∷ rest) b v =
      let later = get-flush_all m (flush_key m t key) rest b (flush_key-IsTrie m t key v) in
      ground (arith, later, get-flush_key m t key b v)

  -- After the flush the trie holds exactly the leaves of the map.
  pub get-flush :
      (k : Keyed K V) (b : Bytes32) → IsKeyed k → trie_get (flush k).trie b ≡ leaf_at b k.map
  unfolding flush
  get-flush k b v = get-flush_all k.map k.trie k.dirty b v.valid ∙ ground (arith, v.agrees b)

  pub flush-IsTrie : (k : Keyed K V) → IsKeyed k → IsTrie (flush k).trie
  unfolding flush
  flush-IsTrie k v = flush_all-IsTrie k.map k.trie k.dirty v.valid

  pub commitment-IsKeyed : (k : Keyed K V) → IsKeyed k → IsKeyed (commitment k).0
  unfolding commitment flush
  commitment-IsKeyed k v = record {
    sorted = v.sorted;
    valid = root-IsTrie (flush k).trie (flush-IsTrie k v);
    agrees = λ b clean. get-root (flush k).trie b ∙ get-flush k b v;
  }

  -- The commitment is the root of any valid trie that holds the leaves of the map.
  pub commitment-root :
      (k : Keyed K V) (t : Trie)
      → IsKeyed k
      → IsTrie t
      → ((b : Bytes32) → trie_get t b ≡ leaf_at b k.map)
      → (commitment k).1 ≡ (trie_root t).1
  unfolding commitment flush
  commitment-root k t v w holds =
      (root_unique (flush k).trie t (flush-IsTrie k v) w (λ b. get-flush k b v ∙ sym (holds b))).0

  -- Two dimensions in which the invariant holds and that have the same record under every key have
  -- the same commitment, whatever was cached, pending or done before in either.
  pub commitment-SameGets :
      (k l : Keyed K V)
      → IsKeyed k
      → IsKeyed l
      → SameGets k.map l.map
      → (commitment k).1 ≡ (commitment l).1
  commitment-SameGets k l v w same =
      commitment-root k (flush l).trie v (flush-IsTrie l w)
        (λ b. get-flush l b w ∙ ap (leaf_at b) (sym (ext k.map l.map v.sorted w.sorted same)))
      ∙ sym (commitment-root l (flush l).trie w (flush-IsTrie l w) (λ b. get-flush l b w))

  -- In a dimension in which the invariant holds, the proof made for a key verifies against the
  -- commitment: as the presence of the leaf of the key's record if the map has one, as its absence
  -- if not.
  pub prove-commitment :
      (k : Keyed K V) (key : K)
      → IsKeyed k
      → verify
          (prove k key).1
          (commitment k).1
          (path.key_bytes key)
          (leaf_of key (Map.get key k.map))
        ≡ some true
  unfolding prove commitment flush
  prove-commitment k key v =
      let e : trie_get (flush k).trie (path.key_bytes key) ≡ leaf_of key (Map.get key k.map) =
        get-flush k (path.key_bytes key) v ∙ leaf_at-key_bytes key k.map in
      rw (← e) (prove-verify (flush k).trie (path.key_bytes key) (flush-IsTrie k v))
