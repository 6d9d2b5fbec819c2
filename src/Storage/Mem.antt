-- ===== src/Storage/Mem.antt =====
-- rs/src/storage/mem.rs: the store in memory, over the write buffer. `scan` and `iter` are the
-- range reads of the cache.
use bbg.Prelude.{ℕ, Bool, not, ◌||◌, Option, none, some, length, if◌then◌else◌, ◌==◌}
use bbg.Bytes.{Bytes32}
use bbg.Root.{Hemera}
use bbg.Map
use bbg.Storage.{StorageError, entry_ord, check_dimension, ephemeral, StorageResult, ok, err}
use bbg.Storage.Buffer
use bbg.Storage.Buffer.{WriteBuffer, Value}

module _ ⦃H : Hemera⦄ where
  unfoldable pub get : WriteBuffer → ℕ → Bytes32 → Option Value
  get b dimension key = Map.get (dimension, key) b.cache

  unfoldable pub has_pending : WriteBuffer → Bool
  has_pending b = not (length b.dirty == 0) || not (length b.deleted == 0)

  unfoldable pub commit : WriteBuffer → WriteBuffer × Bytes32
  commit b = (Buffer.clear_pending b, Buffer.change_id b)

  unfoldable pub mark_dirty : ℕ → Bytes32 → WriteBuffer → WriteBuffer × Option StorageError
  mark_dirty dimension key b = elim (check_dimension dimension) [
    | some e ↦ (b, some e)
    | none ↦ elim (Map.get (dimension, key) b.cache) [
      | none ↦ (b, none)
      | some value ↦ if dimension == ephemeral then (b, none) else Buffer.put dimension key value b
    ]
  ]

  unfoldable pub remove : ℕ → Bytes32 → WriteBuffer → WriteBuffer × StorageResult (Option Value)
  remove dimension key b =
      let value = Map.get (dimension, key) b.cache in
      let (next, error) = Buffer.delete dimension key b in
      (next, elim error [ none ↦ ok value | some e ↦ err e ])
