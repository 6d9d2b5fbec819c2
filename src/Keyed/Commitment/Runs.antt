-- ===== src/Keyed/Commitment/Runs.antt =====
-- Any sequence of calls of a dimension of rs/src/keyed.rs against a plain map: the dimension keeps
-- the map that the calls make, and both commitments are those of a fresh build from that map.
use mathlib.Core.List.{foldl}
use bbg.Prelude.{
  ◌≡◌, refl, ap, Option, none, some, List, [], ◌∷◌, arith, Option-cases, inl, inr, ◌∙◌,
}
use bbg.Prelude.Ord.{Ord, eq_of_beq}
use bbg.Bytes.{Bytes32, bytes32_ord}
use bbg.Root.{Hemera, Digest}
use bbg.Map
use bbg.Map.{Map}
use bbg.Map.Sorted.{IsSorted, get-Above}
use bbg.Trie.{
  Trie, new as trie_new, get as trie_get, set as trie_set, root as trie_root, from_entries,
}
use bbg.Trie.Invariant.{IsTrie, new-IsTrie}
use bbg.Trie.SetLaw.{set-SetLaw}
use bbg.Keyed.{
  TrieKey, LeafValue, Keyed, empty, touched, insert, remove, clear, modify, upsert, leaf, flush,
  commitment, legacy_commitment,
}
use bbg.Keyed.Entries.{leaf_at, leaf_of, leaf_at-key_bytes}
use bbg.Keyed.Invariant.{
  IsKeyed, empty-IsKeyed, insert-IsKeyed, remove-IsKeyed, clear-IsKeyed, upsert-IsKeyed, modified,
  modified-IsKeyed,
}
use bbg.Keyed.Commitment.{commitment-IsKeyed, commitment-root}

-- The calls that change a dimension, its caches or both.
pub data Call (K V : Type 0) : Type 0 where
  put : K → V → Call K V
  delete : K → Call K V
  write : K → (V → V) → Call K V
  write_or : K → V → (V → V) → Call K V
  wipe : Call K V
  read : Call K V
  read_legacy : Call K V

module _ ⦃H : Hemera⦄ {K V : Type 0} ⦃o : Ord K⦄ ⦃path : TrieKey K⦄ ⦃value : LeafValue V⦄
    (f : Map K V → Bytes32) where
  unfoldable pub call : Call K V → Keyed K V → Keyed K V
  call (Call.put key v) k = (insert key v k).0
  call (Call.delete key) k = (remove key k).0
  call (Call.write key g) k = modified key g k
  call (Call.write_or key default g) k = upsert key default g k
  call Call.wipe k = clear k
  call Call.read k = (commitment k).0
  call Call.read_legacy k = (legacy_commitment k f).0

  -- The same calls on a plain map.
  unfoldable pub on_map : Call K V → Map K V → Map K V
  on_map (Call.put key v) m = Map.insert key v m
  on_map (Call.delete key) m = elim (Map.get key m) [ none ↦ m | some old ↦ Map.remove key m ]
  on_map (Call.write key g) m = elim (Map.get key m) [ none ↦ m | some v ↦ Map.insert key (g v) m ]
  on_map (Call.write_or key default g) m = elim (Map.get key m) [
    | none ↦ Map.insert key (g default) m
    | some v ↦ Map.insert key (g v) m
  ]
  on_map Call.wipe m = []
  on_map Call.read m = m
  on_map Call.read_legacy m = m

  unfoldable pub run : List (Call K V) → Keyed K V → Keyed K V
  unfolding call
  run [] k = k
  run (c ∷ calls) k = run calls (call c k)

  unfoldable pub run_map : List (Call K V) → Map K V → Map K V
  unfolding on_map
  run_map [] m = m
  run_map (c ∷ calls) m = run_map calls (on_map c m)

  legacy-IsKeyed : (k : Keyed K V) → IsKeyed k → IsKeyed (legacy_commitment k f).0
  unfolding legacy_commitment
  legacy-IsKeyed k v = cached k.legacy
    where
      cached :
          (c : Option Bytes32)
          → IsKeyed
              (elim c as (λ x. Keyed K V × Bytes32) [
                | some d ↦ (k, d)
                | none ↦ (record k { legacy = some (f k.map) }, f k.map)
              ]).0
      cached (some d) = v
      cached none = record { sorted = v.sorted; valid = v.valid; agrees = v.agrees }

  call-IsKeyed : (c : Call K V) (k : Keyed K V) → IsKeyed k → IsKeyed (call c k)
  unfolding call
  call-IsKeyed (Call.put key v) k valid = insert-IsKeyed key v k valid
  call-IsKeyed (Call.delete key) k valid = remove-IsKeyed key k valid
  call-IsKeyed (Call.write key g) k valid = modified-IsKeyed key g k valid
  call-IsKeyed (Call.write_or key default g) k valid = upsert-IsKeyed key default g k valid
  call-IsKeyed Call.wipe k valid = clear-IsKeyed k
  call-IsKeyed Call.read k valid = commitment-IsKeyed k valid
  call-IsKeyed Call.read_legacy k valid = legacy-IsKeyed k valid

  map-call : (c : Call K V) (k : Keyed K V) → (call c k).map ≡ on_map c k.map
  unfolding call on_map insert remove touched clear empty modified modify upsert commitment flush
      legacy_commitment
  map-call (Call.put key v) k = refl
  map-call (Call.delete key) k = ground arith
  map-call (Call.write key g) k = ground arith
  map-call (Call.write_or key default g) k = ground arith
  map-call Call.wipe k = refl
  map-call Call.read k = refl
  map-call Call.read_legacy k = ground arith

  -- The legacy cache is empty or right.
  abbrev IsFresh : Keyed K V → Type 0
  IsFresh k = (c : Bytes32) → k.legacy ≡ some c → c ≡ f k.map

  call-IsFresh : (c : Call K V) (k : Keyed K V) → IsFresh k → IsFresh (call c k)
  unfolding call insert remove touched clear empty modified modify upsert commitment flush
      legacy_commitment
  call-IsFresh (Call.put key v) k fresh = λ c e. ground arith
  call-IsFresh (Call.delete key) k fresh = λ c e. ground (arith, fresh c)
  call-IsFresh (Call.write key g) k fresh = λ c e. ground (arith, fresh c)
  call-IsFresh (Call.write_or key default g) k fresh = λ c e. ground (arith, fresh c)
  call-IsFresh Call.wipe k fresh = λ c e. ground arith
  call-IsFresh Call.read k fresh = fresh
  call-IsFresh Call.read_legacy k fresh = λ c e. ground (arith, fresh c)

  run-IsKeyed : (calls : List (Call K V)) (k : Keyed K V) → IsKeyed k → IsKeyed (run calls k)
  unfolding run
  run-IsKeyed [] k v = v
  run-IsKeyed (c ∷ calls) k v = run-IsKeyed calls (call c k) (call-IsKeyed c k v)

  run-IsFresh : (calls : List (Call K V)) (k : Keyed K V) → IsFresh k → IsFresh (run calls k)
  unfolding run
  run-IsFresh [] k v = v
  run-IsFresh (c ∷ calls) k v = run-IsFresh calls (call c k) (call-IsFresh c k v)

  map-run : (calls : List (Call K V)) (k : Keyed K V) → (run calls k).map ≡ run_map calls k.map
  unfolding run run_map
  map-run [] k = refl
  map-run (c ∷ calls) k = map-run calls (call c k) ∙ ap (run_map calls) (map-call c k)

  -- The leaves of a map, by their paths.
  unfoldable pub leaves : Map K V → List (Bytes32 × Digest)
  leaves [] = []
  leaves ((k, v) ∷ m) = (path.key_bytes k, leaf k v) ∷ leaves m

  abbrev or_else : Option Digest → Option Digest → Option Digest
  or_else none d = d
  or_else (some c) d = some c

  or_else-none : (d : Option Digest) → or_else d none ≡ d
  or_else-none none = refl
  or_else-none (some c) = refl

  legacy-IsFresh : (k : Keyed K V) → IsFresh k → (legacy_commitment k f).1 ≡ f k.map
  unfolding legacy_commitment
  legacy-IsFresh k fresh = elim (Option-cases k.legacy) [
    | inl e ↦ rw (e, legacy_commitment) refl
    | inr e ↦ rw (e.1, legacy_commitment) (fresh e.0 e.1)
  ]

  -- A build that starts from the trie `t`.
  record Built (t : Trie) (m : Map K V) (r : Trie) : Type 0 where
    valid : IsTrie r
    holds : (b : Bytes32) → trie_get r b ≡ or_else (leaf_at b m) (trie_get t b)

  build_on :
      (t : Trie) (m : Map K V)
      → IsTrie t
      → IsSorted m
      → Built t m (foldl (λ t e. (trie_set t e.0 e.1).0) t (leaves m))
  unfolding leaves leaf_at
  build_on t [] v s = record { valid = v; holds = λ b. refl }
  build_on t ((k, w) ∷ m) v s =
      let law = set-SetLaw t (path.key_bytes k) (leaf k w) v in
      let tail = build_on (trie_set t (path.key_bytes k) (leaf k w)).0 m law.valid s.1 in
      let gone = leaf_at-key_bytes k m ∙ ap (leaf_of k) (get-Above k m s.0) in
      record {
        valid = tail.valid;
        holds = λ b. ground (arith, tail.holds b, law.gets b, gone, eq_of_beq (path.key_bytes k) b);
      }

  -- Start from an empty dimension and make any sequence of insertions, removals, guarded writes,
  -- clearings and reads of either commitment. The dimension's map is the one that the calls make of
  -- an empty map; the commitment is the root of a trie built afresh from that map's leaves; and the
  -- legacy commitment, whatever the cache holds, is the given function of that map.
  pub run-commitment :
      (calls : List (Call K V))
      → ((run calls empty).map ≡ run_map calls [])
        × ((commitment (run calls empty)).1
            ≡ (trie_root (from_entries (leaves (run_map calls [])))).1)
        × ((legacy_commitment (run calls empty) f).1 ≡ f (run_map calls []))
  unfolding from_entries empty trie_get
  run-commitment calls =
      let k = run calls empty in
      let same : k.map ≡ run_map calls [] = map-run calls empty in
      let v = run-IsKeyed calls empty empty-IsKeyed in
      let b = build_on trie_new k.map new-IsTrie v.sorted in
      let root_of =
        commitment-root k (from_entries (leaves k.map)) v b.valid
          (λ q. b.holds q ∙ or_else-none (leaf_at q k.map)) in
      (
        same,
        root_of ∙ ap (λ m. (trie_root (from_entries (leaves m))).1) same,
        legacy-IsFresh k (run-IsFresh calls empty (λ c e. absurd (cc e))) ∙ ap f same,
      )
