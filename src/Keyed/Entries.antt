-- ===== src/Keyed/Entries.antt =====
-- The leaves that a dimension of rs/src/keyed.rs is to commit, by their paths, and the paths of the
-- keys that were touched.
use bbg.Prelude.{◌≡◌, refl, Bool, true, false, Option, none, some, [], ◌∷◌, if◌then◌else◌, arith}
use bbg.Prelude.Ord.{Ord, beq, beq_iff}
use bbg.Bytes.{Bytes32, bytes32_ord}
use bbg.Root.{Hemera, Digest}
use bbg.Map
use bbg.Map.{Map}
use bbg.Keyed.{TrieKey, LeafValue, leaf}

module _ {K : Type 0} ⦃o : Ord K⦄ ⦃path : TrieKey K⦄ where
  -- Whether the key of a path was touched.
  unfoldable pub dirty_at : Bytes32 → Map K (Unit {0}) → Bool
  dirty_at b [] = false
  dirty_at b ((k, _) ∷ m) = if beq (path.key_bytes k) b then true else dirty_at b m

  pub dirty_at-insert :
      (b : Bytes32) (k : K) (u : Unit {0}) (m : Map K (Unit {0}))
      → dirty_at b (Map.insert k u m) ≡ (if beq (path.key_bytes k) b then true else dirty_at b m)
  unfolding dirty_at Map.insert
  dirty_at-insert b k u [] = refl
  dirty_at-insert b k u ((j, w) ∷ m) = ground (
    arith,
    dirty_at-insert b k u m,
    o.eq_of_cmp k j,
    o.cmp_refl j,
    path.key_bytes_inj k j,
    beq_iff (path.key_bytes k) b,
    beq_iff (path.key_bytes j) b,
  )

module _ ⦃H : Hemera⦄ {K V : Type 0} ⦃o : Ord K⦄ ⦃path : TrieKey K⦄ ⦃value : LeafValue V⦄ where
  -- The leaf under a path, if the map has a record there.
  unfoldable pub leaf_at : Bytes32 → Map K V → Option Digest
  leaf_at b [] = none
  leaf_at b ((k, v) ∷ m) = if beq (path.key_bytes k) b then some (leaf k v) else leaf_at b m

  pub leaf_at-insert :
      (b : Bytes32) (k : K) (v : V) (m : Map K V)
      → leaf_at b (Map.insert k v m)
        ≡ (if beq (path.key_bytes k) b then some (leaf k v) else leaf_at b m)
  unfolding leaf_at Map.insert
  leaf_at-insert b k v [] = refl
  leaf_at-insert b k v ((j, w) ∷ m) = ground (
    arith,
    leaf_at-insert b k v m,
    o.eq_of_cmp k j,
    o.cmp_refl j,
    path.key_bytes_inj k j,
    beq_iff (path.key_bytes k) b,
    beq_iff (path.key_bytes j) b,
  )

  pub leaf_at-remove :
      (b : Bytes32) (k : K) (m : Map K V)
      → leaf_at b (Map.remove k m) ≡ (if beq (path.key_bytes k) b then none else leaf_at b m)
  unfolding leaf_at Map.remove
  leaf_at-remove b k [] = ground arith
  leaf_at-remove b k ((j, w) ∷ m) = ground (
    arith,
    leaf_at-remove b k m,
    beq_iff k j,
    path.key_bytes_inj k j,
    beq_iff (path.key_bytes k) b,
    beq_iff (path.key_bytes j) b,
  )

  -- The record's leaf, if there is a record.
  abbrev pub leaf_of : K → Option V → Option Digest
  leaf_of k none = none
  leaf_of k (some v) = some (leaf k v)

  pub leaf_at-key_bytes :
      (k : K) (m : Map K V) → leaf_at (path.key_bytes k) m ≡ leaf_of k (Map.get k m)
  unfolding leaf_at Map.get
  leaf_at-key_bytes k [] = refl
  leaf_at-key_bytes k ((j, w) ∷ m) = ground (
    arith,
    leaf_at-key_bytes k m,
    beq_iff k j,
    path.key_bytes_inj k j,
    beq_iff (path.key_bytes j) (path.key_bytes k),
  )
