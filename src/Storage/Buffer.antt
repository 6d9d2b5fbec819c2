-- ===== src/Storage/Buffer.antt =====
-- rs/src/storage/buffer.rs: `WriteBuffer`, the mutations that are not committed yet and the cache.
-- An operation that returns an error leaves the buffer as it was.
pub mod Places
pub mod Pending
pub mod Removal
pub mod Reads
use bbg.Prelude.{
  ℕ, zero, suc, ◌+◌, ◌-◌, Bool, true, false, ◌||◌, not, ◌&&◌, Option, none, some, is_some, List, [],
  ◌∷◌, ◌++◌, map, length, if◌then◌else◌, ◌==◌, ltb, leb, get_or,
}
use bbg.Bytes.{Bytes32}
use bbg.Root.{Hemera}
use bbg.Wire.{le_bytes, concat_map}
use bbg.Map
use bbg.Map.{Map}
use bbg.Storage.{
  StorageError, limit, value_elements, pending_elements, pending_keys, EntryKey, entry_ord,
  check_dimension, ephemeral, max_value_elements, max_pending_elements, max_pending_keys,
  pending_writes,
}

module _ ⦃H : Hemera⦄ where
  abbrev pub Value : Type 0
  Value = List H.Field

  pub record WriteBuffer : Type 0 where
    pub cache : Map EntryKey Value
    pub dirty : List (EntryKey × Value)
    pub deleted : Map EntryKey (Unit {0})
    pub unknown : Option StorageError
    pub positions : Map EntryKey ℕ
    pub elements : ℕ

  unfoldable pub empty : WriteBuffer
  empty = record {
    cache = [];
    dirty = [];
    deleted = [];
    unknown = none;
    positions = [];
    elements = 0;
  }

  -- `none` is `Ok(())`.
  unfoldable pub ready : WriteBuffer → Option StorageError
  ready b = b.unknown

  unfoldable pub clean : WriteBuffer → Option StorageError
  unfolding ready
  clean b = elim (ready b) [
    | some e ↦ some e
    | none ↦
        if not (length b.dirty == 0) || not (length b.deleted == 0)
        then some pending_writes
        else none
  ]

  -- `dirty[i].2`
  abbrev pub value_at : List (EntryKey × Value) → ℕ → Value
  value_at [] i = []
  value_at (e ∷ dirty) zero = e.1
  value_at (e ∷ dirty) (suc i) = value_at dirty i

  -- `dirty[i].2 = value`
  abbrev pub set_value : List (EntryKey × Value) → ℕ → Value → List (EntryKey × Value)
  set_value [] i value = []
  set_value (e ∷ dirty) zero value = (e.0, value) ∷ dirty
  set_value (e ∷ dirty) (suc i) value = e ∷ set_value dirty i value

  abbrev pub length_at : List (EntryKey × Value) → Option ℕ → ℕ
  length_at dirty none = 0
  length_at dirty (some i) = length (value_at dirty i)

  -- `true` is the error: no room for another key.
  unfoldable pub is_full : WriteBuffer → EntryKey → Bool
  is_full b key =
      not (Map.contains key b.deleted || Map.contains key b.positions)
      && leb max_pending_keys (length b.dirty + length b.deleted)

  -- The pending part of `put`, once the limits are kept.
  unfoldable pub stage : EntryKey → Value → Option ℕ → WriteBuffer → WriteBuffer
  stage key value (some i) b = record b {
    dirty = set_value b.dirty i value;
    deleted = Map.remove key b.deleted;
    elements = b.elements - length_at b.dirty (some i) + length value;
  }
  stage key value none b = record b {
    dirty = b.dirty ++ (key, value) ∷ [];
    deleted = Map.remove key b.deleted;
    positions = Map.insert key (length b.dirty) b.positions;
    elements = b.elements + length value;
  }

  abbrev pub with_cache : EntryKey → Value → WriteBuffer → WriteBuffer
  with_cache key value b = record b { cache = Map.insert key value b.cache }

  -- `put` of a dimension that is not local only, once its guards passed.
  unfoldable pub put_pending : EntryKey → Value → WriteBuffer → WriteBuffer × Option StorageError
  unfolding is_full stage
  put_pending key value b =
      let position = Map.get key b.positions in
      if ltb max_pending_elements (b.elements - length_at b.dirty position + length value)
      then (b, some (limit pending_elements))
      else if is_full b key
      then (b, some (limit pending_keys))
      else (with_cache key value (stage key value position b), none)

  -- The guards that `put` and `delete` share.
  unfoldable pub refused : WriteBuffer → ℕ → Option StorageError
  unfolding ready
  refused b dimension = elim (ready b) [ some e ↦ some e | none ↦ check_dimension dimension ]

  unfoldable pub put : ℕ → Bytes32 → Value → WriteBuffer → WriteBuffer × Option StorageError
  unfolding refused put_pending
  put dimension key value b = elim (refused b dimension) [
    | some e ↦ (b, some e)
    | none ↦
        if ltb max_value_elements (length value)
        then (b, some (limit value_elements))
        else if dimension == ephemeral
        then (with_cache (dimension, key) value b, none)
        else put_pending (dimension, key) value b
  ]

  abbrev pub last_or : (EntryKey × Value) → List (EntryKey × Value) → EntryKey × Value
  last_or e [] = e
  last_or e (f ∷ dirty) = last_or f dirty

  abbrev pub without_last : List (EntryKey × Value) → List (EntryKey × Value)
  without_last [] = []
  without_last (e ∷ []) = []
  without_last (e ∷ f ∷ dirty) = e ∷ without_last (f ∷ dirty)

  -- `swap_remove`: the last entry takes the place of the one that goes.
  abbrev pub swap_remove : List (EntryKey × Value) → ℕ → List (EntryKey × Value)
  swap_remove [] i = []
  swap_remove (e ∷ []) i = []
  swap_remove (e ∷ f ∷ dirty) zero = last_or f dirty ∷ without_last (f ∷ dirty)
  swap_remove (e ∷ f ∷ dirty) (suc i) = e ∷ swap_remove (f ∷ dirty) i

  abbrev pub key_at : List (EntryKey × Value) → ℕ → Option EntryKey
  key_at [] i = none
  key_at (e ∷ dirty) zero = some e.0
  key_at (e ∷ dirty) (suc i) = key_at dirty i

  abbrev pub repoint : Option EntryKey → ℕ → Map EntryKey ℕ → Map EntryKey ℕ
  repoint none i positions = positions
  repoint (some key) i positions = Map.insert key i positions

  -- The dirty entry of a key goes.
  unfoldable pub unstage : EntryKey → Option ℕ → WriteBuffer → WriteBuffer
  unstage key none b = b
  unstage key (some i) b =
      let dirty = swap_remove b.dirty i in
      record b {
        dirty = dirty;
        positions = repoint (key_at dirty i) i (Map.remove key b.positions);
        elements = b.elements - length (value_at b.dirty i);
      }

  unfoldable pub delete_pending : EntryKey → WriteBuffer → WriteBuffer
  unfolding unstage
  delete_pending key b =
      let next = unstage key (Map.get key b.positions) b in
      record next { deleted = Map.insert key tt next.deleted }

  abbrev pub without_cache : EntryKey → WriteBuffer → WriteBuffer × Option StorageError
  without_cache key b = (record b { cache = Map.remove key b.cache }, none)

  unfoldable pub delete : ℕ → Bytes32 → WriteBuffer → WriteBuffer × Option StorageError
  unfolding refused delete_pending is_full
  delete dimension key b =
      let entry : EntryKey = (dimension, key) in
      elim (refused b dimension) [
        | some e ↦ (b, some e)
        | none ↦
            if dimension == ephemeral
            then without_cache entry b
            else if is_full b entry
            then (b, some (limit pending_keys))
            else without_cache entry (delete_pending entry b)
      ]

  unfoldable pub clear_pending : WriteBuffer → WriteBuffer
  clear_pending b = record b { dirty = []; deleted = []; positions = []; elements = 0 }

  abbrev pub only_ephemeral : Map EntryKey Value → Map EntryKey Value
  only_ephemeral [] = []
  only_ephemeral ((key, value) ∷ cache) =
      let rest = only_ephemeral cache in if key.0 == ephemeral then (key, value) ∷ rest else rest

  unfoldable pub finish : WriteBuffer → WriteBuffer
  unfolding clear_pending
  finish b = let next = clear_pending b in record next { cache = only_ephemeral next.cache }

  -- The net changes of `change_id`: what is written, then what is deleted.
  unfoldable pub written :
      List (EntryKey × Value) → Map EntryKey (Option Value) → Map EntryKey (Option Value)
  written [] changes = changes
  written ((key, value) ∷ dirty) changes = written dirty (Map.insert key (some value) changes)

  unfoldable pub erased :
      Map EntryKey (Unit {0}) → Map EntryKey (Option Value) → Map EntryKey (Option Value)
  erased [] changes = changes
  erased ((key, _) ∷ deleted) changes = erased deleted (Map.insert key none changes)

  unfoldable pub changes : WriteBuffer → Map EntryKey (Option Value)
  unfolding written erased
  changes b = erased b.deleted (written b.dirty [])

  -- "bbg/shard-batch/v1\0"
  abbrev pub batch_domain : List ℕ
  batch_domain =
      98 ∷ 98 ∷ 103 ∷ 47 ∷ 115 ∷ 104 ∷ 97 ∷ 114 ∷ 100 ∷ 45 ∷ 98 ∷ 97 ∷ 116 ∷ 99 ∷ 104 ∷ 47 ∷ 118
      ∷ 49 ∷ 0 ∷ []

  -- `serialize_goldilocks` of rs/src/storage/mod.rs
  abbrev pub serialize_goldilocks : Value → List ℕ
  serialize_goldilocks value = concat_map (λ f. le_bytes 8 (H.as_u64 f)) value

  abbrev pub change_bytes : Option Value → List ℕ
  change_bytes none = 0 ∷ []
  change_bytes (some value) = 1 ∷ (le_bytes 8 (length value) ++ serialize_goldilocks value)

  unfoldable pub batch_bytes : Map EntryKey (Option Value) → List ℕ
  batch_bytes [] = []
  batch_bytes ((key, change) ∷ more) =
      key.0 ∷ (key.1.0 ++ (change_bytes change ++ batch_bytes more))

  unfoldable pub change_id : WriteBuffer → Bytes32
  unfolding changes batch_bytes
  change_id b =
      H.hash (batch_domain ++ (le_bytes 8 (length (changes b)) ++ batch_bytes (changes b)))
