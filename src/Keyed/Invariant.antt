-- ===== src/Keyed/Invariant.antt =====
-- The invariant of a dimension of rs/src/keyed.rs: at every path that was not touched the trie has
-- the leaf that the map asks for. Every mutation keeps it.
use bbg.Prelude.{
  ◌≡◌, refl, false, none, some, arith, Bool-cases, Option-cases, inl, inr, if◌then◌else◌, ◌∙◌, sym,
}
use bbg.Prelude.Ord.{Ord, beq, eq_of_beq}
use bbg.Bytes.{Bytes32, bytes32_ord}
use bbg.Root.{Hemera}
use bbg.Map
use bbg.Map.{Map}
use bbg.Map.Laws.{get-remove}
use bbg.Map.Sorted.{IsSorted, insert-IsSorted, remove-IsSorted}
use bbg.Trie.{get as trie_get}
use bbg.Trie.Invariant.{IsTrie, new-IsTrie}
use bbg.Keyed.{TrieKey, LeafValue, Keyed, empty, touched, insert, remove, clear, modify, upsert}
use bbg.Keyed.Entries.{dirty_at, dirty_at-insert, leaf_at, leaf_at-insert, leaf_at-remove}

module _ ⦃H : Hemera⦄ {K V : Type 0} ⦃o : Ord K⦄ ⦃path : TrieKey K⦄ ⦃value : LeafValue V⦄ where
  pub record IsKeyed (k : Keyed K V) : Type 0 where
    pub sorted : IsSorted k.map
    pub valid : IsTrie k.trie
    pub agrees : (b : Bytes32) → dirty_at b k.dirty ≡ false → trie_get k.trie b ≡ leaf_at b k.map

  pub empty-IsKeyed : IsKeyed empty
  unfolding empty leaf_at trie_get
  empty-IsKeyed = record { sorted = tt; valid = new-IsTrie; agrees = λ b e. refl }

  -- A change of the map that is seen only under a key's path, once the key is touched.
  pub touched-IsKeyed :
      (key : K) (m : Map K V) (k : Keyed K V)
      → IsKeyed k
      → IsSorted m
      → ((b : Bytes32) → beq (path.key_bytes key) b ≡ false → leaf_at b m ≡ leaf_at b k.map)
      → IsKeyed (touched key (record k { map = m }))
  unfolding touched
  touched-IsKeyed key m k v s same = record {
    sorted = s;
    valid = v.valid;
    agrees = λ b clean. elim (Bool-cases (beq (path.key_bytes key) b)) [
      | inl here ↦ ground (arith, dirty_at-insert b key tt k.dirty, here, clean)
      | inr there ↦
          v.agrees b (ground (arith, dirty_at-insert b key tt k.dirty, there, clean))
          ∙ sym (same b there)
    ];
  }

  stored :
      (key : K) (v : V) (k : Keyed K V)
      → IsKeyed k
      → IsKeyed (touched key (record k { map = Map.insert key v k.map }))
  stored key v k valid =
      touched-IsKeyed key (Map.insert key v k.map) k valid
        (insert-IsSorted key v k.map valid.sorted) (λ b e. rw (leaf_at-insert b key v k.map, e))

  dropped :
      (key : K) (k : Keyed K V)
      → IsKeyed k
      → IsKeyed (touched key (record k { map = Map.remove key k.map }))
  dropped key k valid =
      touched-IsKeyed key (Map.remove key k.map) k valid (remove-IsSorted key k.map valid.sorted)
        (λ b e. rw (leaf_at-remove b key k.map, e))

  pub insert-IsKeyed : (key : K) (v : V) (k : Keyed K V) → IsKeyed k → IsKeyed (insert key v k).0
  unfolding insert
  insert-IsKeyed key v k valid = stored key v k valid

  pub remove-IsKeyed : (key : K) (k : Keyed K V) → IsKeyed k → IsKeyed (remove key k).0
  unfolding remove
  remove-IsKeyed key k valid = elim (Option-cases (Map.get key k.map)) [
    | inl e ↦ rw (e, remove) valid
    | inr e ↦ rw (e.1, remove) (dropped key k valid)
  ]

  -- What `remove` returns and leaves in the map.
  pub remove_old : (key : K) (k : Keyed K V) → (remove key k).1 ≡ Map.get key k.map
  unfolding remove
  remove_old key k = elim (Option-cases (Map.get key k.map)) [
    | inl e ↦ rw (e, remove) refl
    | inr e ↦ rw (e.1, remove) refl
  ]

  pub remove_gets :
      (key : K) (k : Keyed K V) (q : K)
      → Map.get q (remove key k).0.map ≡ (if beq q key then none else Map.get q k.map)
  unfolding remove touched
  remove_gets key k q = elim (Option-cases (Map.get key k.map)) [
    | inl e ↦ rw (e, remove) (ground (arith, eq_of_beq q key, e))
    | inr e ↦ rw (e.1, remove) (get-remove key k.map q)
  ]

  pub clear-IsKeyed : (k : Keyed K V) → IsKeyed (clear k)
  unfolding clear
  clear-IsKeyed k = empty-IsKeyed

  pub upsert-IsKeyed :
      (key : K) (default : V) (f : V → V) (k : Keyed K V)
      → IsKeyed k
      → IsKeyed (upsert key default f k)
  unfolding upsert
  upsert-IsKeyed key default f k valid = elim (Option-cases (Map.get key k.map)) [
    | inl e ↦ rw (e, upsert) (stored key (f default) k valid)
    | inr e ↦ rw (e.1, upsert) (stored key (f e.0) k valid)
  ]

  -- The dimension after a guarded write, the one before if the key is absent.
  unfoldable pub modified : K → (V → V) → Keyed K V → Keyed K V
  modified key f k = elim (modify key f k) [ none ↦ k | some r ↦ r ]

  pub modified-IsKeyed :
      (key : K) (f : V → V) (k : Keyed K V) → IsKeyed k → IsKeyed (modified key f k)
  unfolding modify modified
  modified-IsKeyed key f k valid = elim (Option-cases (Map.get key k.map)) [
    | inl e ↦ rw (e, modified, modify) valid
    | inr e ↦ rw (e.1, modified, modify) (stored key (f e.0) k valid)
  ]
