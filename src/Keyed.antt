-- ===== src/Keyed.antt =====
-- rs/src/keyed.rs: a committed dimension, a map beside the trie that commits it. Mutations note the
-- keys they touch; the next read of the commitment brings the trie up to date. The lock round the
-- trie is not modelled: a `&self` method that flushes returns the dimension with its new caches.
pub mod Entries
pub mod Heights
pub mod Invariant
pub mod Commitment
pub mod Soundness
use bbg.Prelude.{
  ℕ, ◌≡◌, Bool, true, false, Option, none, some, List, [], ◌∷◌, if◌then◌else◌, length,
}
use bbg.Prelude.Ord.{Ord}
use bbg.Bytes.{Bytes32}
use bbg.Root.{Hemera, Digest}
use bbg.Dim.{u64_limbs, bytes32_limbs}
use bbg.Leaf.{leaf_digest}
use bbg.Map
use bbg.Map.{Map}
use bbg.Trie.{
  Trie, TrieProof, new as trie_new, set as trie_set, remove as trie_remove, root as trie_root,
  prove as trie_prove,
}

-- `TrieKey`: a key's 32-byte path. Distinct keys have distinct paths.
pub record TrieKey (K : Type 0) : Type 0 where
  pub key_bytes : K → Bytes32
  pub key_bytes_inj : (a b : K) → key_bytes a ≡ key_bytes b → a ≡ b

-- `impl TrieKey for [u8; 32]`
instance abbrev pub bytes32_key : TrieKey Bytes32
bytes32_key = record { key_bytes = λ k. k; key_bytes_inj = λ a b e. e }

-- `LeafValue`: a record's value fields in their frozen order.
pub record LeafValue ⦃H : Hemera⦄ (V : Type 0) : Type 0 where
  pub leaf_vals : V → List H.Field

-- `impl LeafValue for u64`, `Goldilocks`, `[u8; 32]` and `()`; a `u64` is a number below 2^64.
abbrev pub u64_value : ⦃H : Hemera⦄ → LeafValue ℕ
u64_value ⦃H⦄ = record { leaf_vals = λ x. u64_limbs x }

abbrev pub field_value : ⦃H : Hemera⦄ → LeafValue H.Field
field_value ⦃H⦄ = record { leaf_vals = λ x. x ∷ [] }

abbrev pub bytes32_value : ⦃H : Hemera⦄ → LeafValue Bytes32
bytes32_value ⦃H⦄ = record { leaf_vals = λ b. bytes32_limbs b }

abbrev pub unit_value : ⦃H : Hemera⦄ → LeafValue (Unit {0})
unit_value ⦃H⦄ = record { leaf_vals = λ u. [] }

-- `Keyed<K, V>`, with the pending trie and keys of `Pending` in it.
pub record Keyed ⦃H : Hemera⦄ (K V : Type 0) : Type 0 where
  pub map : Map K V
  pub trie : Trie
  pub dirty : Map K (Unit {0})
  pub legacy : Option Bytes32

module _ ⦃H : Hemera⦄ {K V : Type 0} ⦃o : Ord K⦄ ⦃path : TrieKey K⦄ ⦃value : LeafValue V⦄ where
  unfoldable pub empty : Keyed K V
  empty = record { map = []; trie = trie_new; dirty = []; legacy = none }

  unfoldable pub touched : K → Keyed K V → Keyed K V
  touched key k = record k { dirty = Map.insert key tt k.dirty; legacy = none }

  unfoldable pub insert : K → V → Keyed K V → Keyed K V × Option V
  unfolding touched
  insert key v k = (touched key (record k { map = Map.insert key v k.map }), Map.get key k.map)

  unfoldable pub remove : K → Keyed K V → Keyed K V × Option V
  unfolding touched
  remove key k = elim (Map.get key k.map) [
    | none ↦ (k, none)
    | some old ↦ (touched key (record k { map = Map.remove key k.map }), some old)
  ]

  unfoldable pub clear : Keyed K V → Keyed K V
  unfolding empty
  clear k = empty

  -- `get_mut`, a write of `f` through the guard, and the guard's drop.
  unfoldable pub modify : K → (V → V) → Keyed K V → Option (Keyed K V)
  unfolding touched
  modify key f k = elim (Map.get key k.map) [
    | none ↦ none
    | some v ↦ some (touched key (record k { map = Map.insert key (f v) k.map }))
  ]

  -- `entry(key).or_insert(default)`, a write of `f` through the guard, and the guard's drop.
  unfoldable pub upsert : K → V → (V → V) → Keyed K V → Keyed K V
  unfolding touched
  upsert key default f k = elim (Map.get key k.map) [
    | none ↦ touched key (record k { map = Map.insert key (f default) k.map })
    | some v ↦ touched key (record k { map = Map.insert key (f v) k.map })
  ]

  -- `pending`
  unfoldable pub pending : Keyed K V → ℕ
  pending k = length k.dirty

  -- The leaf digest that a record carries under its key.
  unfoldable pub leaf : K → V → Digest
  leaf key v = leaf_digest (path.key_bytes key) (value.leaf_vals v)

  -- One round of the loop of `flush`.
  unfoldable pub flush_key : Map K V → Trie → K → Trie
  unfolding leaf
  flush_key map trie key = elim (Map.get key map) [
    | some v ↦ (trie_set trie (path.key_bytes key) (leaf key v)).0
    | none ↦ (trie_remove trie (path.key_bytes key)).0
  ]

  unfoldable pub flush_all : Map K V → Trie → Map K (Unit {0}) → Trie
  unfolding flush_key
  flush_all map trie [] = trie
  flush_all map trie ((key, _) ∷ rest) = flush_all map (flush_key map trie key) rest

  unfoldable pub flush : Keyed K V → Keyed K V
  unfolding flush_all
  flush k = record k { trie = flush_all k.map k.trie k.dirty; dirty = [] }

  unfoldable pub commitment : Keyed K V → Keyed K V × Digest
  unfolding flush
  commitment k = let f = flush k in let (t, d) = trie_root f.trie in (record f { trie = t }, d)

  unfoldable pub prove : Keyed K V → K → Keyed K V × TrieProof
  unfolding flush
  prove k key =
      let f = flush k in
      let (t, p) = trie_prove f.trie (path.key_bytes key) in (record f { trie = t }, p)

  -- `legacy_commitment`: computed by `f` over the map and cached until the next mutation.
  unfoldable pub legacy_commitment : Keyed K V → (Map K V → Bytes32) → Keyed K V × Bytes32
  legacy_commitment k f = elim k.legacy [
    | some c ↦ (k, c)
    | none ↦ (record k { legacy = some (f k.map) }, f k.map)
  ]
