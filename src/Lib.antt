-- ===== src/Lib.antt =====
-- The authenticated state of bbg: the keyed trie that commits each dimension of the state, the
-- state with its signals, blocks and pruning, and the bytes that records are stored as.
--
-- The parts of the program and the files that model them:
--   rs/src/trie.rs: keys and their bits (`key_bit`, `first_diff_bit`) in Bytes, `leaf_digest` in
--     Leaf, `Node`, `Trie` and `TrieProof` with all their operations in Trie.
--   rs/src/root.rs: `compress4` and the fold of the 14 leaves, `root_from_leaves`, in Root;
--     `root_to_bytes` in State/Root.
--   rs/src/dim.rs: the limb encodings and `dim_serialize` in Dim, `commit_dim` in Table,
--     `digest_limbs` in State/Root.
--   rs/src/keyed.rs: `TrieKey`, `LeafValue` and `Keyed` in Keyed, the keys that are heights in
--     Keyed/Heights; `AxonIndex`, a particle's list of axons beside the trie of the same axons, in
--     AxonIndex.
--   rs/src/types.rs: the records in Types; their leaf fields, rs/src/state/commits.rs, in Commits.
--   rs/src/position.rs: `Cards` in Cards, the stakes, sums and snapshots in Positions.
--   rs/src/state.rs with rs/src/signal.rs: `BbgState` and `BbgState::insert` in State, with the
--     loops of the source as recursions on the lists of moves and links; the statistics and the
--     root of both versions in State/Root, over rs/src/stats.rs in Stats and `dim_entries` of
--     rs/src/proof.rs in Table; the intents and the signal records in State/Writes.
--   rs/src/prune.rs: the candidates, the floor and the loop of pruning in Prune.
--   rs/src/lib.rs and rs/src/checkpoint.rs: `Bbg` and `Checkpoint` in Facade.
--   rs/src/transition/mod.rs: the validation of a signal in Transition.
--   rs/src/transition/records.rs and the decoder of rs/src/transition/undo.rs: Records.
--   cli/src/frame.rs: the payloads and the events of the log in Frame.
--   rs/src/storage/access.rs, rs/src/storage/buffer.rs and rs/src/storage/mem.rs: the bounds and the
--     errors in Storage, `WriteBuffer` in Storage/Buffer, `MemStore` in Storage/Mem.
--   `BTreeMap` and `BTreeSet` are the sorted association lists of Map; Prelude has what all share;
--     Wire has the byte encodings and the cursors over bytes.
--   Examples has a toy permutation and the theorems at concrete inputs.
-- A dimension is a map with a trie beside it. A mutation changes the map and notes the key; a read
-- of the commitment first sets or removes the leaf of each noted key, and then takes the trie's
-- root. A leaf's digest comes from the key's limbs and the record's fields by `compress4`, a
-- branch's from its bit and its two children, and the state's root folds the dimensions' roots. A
-- signal spends nullifiers, which a dimension of the state keeps, and adds links, which change the
-- adjacency indices, the particles, the neuron's focus and the balances. The end of a block stores
-- the root under the height; at the end of an epoch it removes axons, and then the checkpoint takes
-- the new root.
--
-- What the model takes from elsewhere: the field (nebu), the permutation and the hash (hemera) are
-- the record `Hemera`, an instance argument, and `IsGoldilocks` is what the round trip of a record
-- relies on of the field's conversions; the commitment to a polynomial (lens) is a function that
-- the definitions on the root take; the frames of the log (tape) are the record `Tape`, and
-- `IsTape` is what its documentation promises. Only the theorems whose statement names
-- `IsCollisionFree` rely on a property of the hash: that `compress4` has no collisions, that the
-- last limb it returns is never zero, and that numbers below the field's order are distinct in it.
-- Of a function on a finite field the first two can hold only in the sense that nobody finds an
-- exception; a statement that uses them speaks of digests among which there is none. The toy
-- permutation satisfies all three.
--
-- How state is modelled: a method that changes its object returns the new one; a `&self` method
-- that fills a cache returns the object with its cache. A panic that the model can express is the
-- result `none`, and in the adjacency index the field `panicked`, which well-formedness says is
-- not set. The arena of a trie is modelled by the trees that its indices span, with the cached
-- digests and the dirty flags of the source; the free list is not modelled. The loops of the
-- source run over a path, a list of steps, a list of keys or a list of candidates and are
-- recursions on it. The standard library's `next_power_of_two` is computed by doubling 1. Bytes
-- are numbers below 256; a bit index and a count are natural numbers, and a bit index is below 256
-- by theorem. A `u64` is a natural number; saturating and wrapping operations are written out, and
-- the theorems on bytes say which numbers must fit.
--
-- Not modelled: the mutex round a dimension's trie and the threads of a bulk load, the preparation
-- of transitions and its undo, certificates, the openings and the queries, the storage over
-- files and databases, the range reads of the memory store, and the command line.
pub mod Prelude
pub mod Bytes
pub mod Root
pub mod Trie
pub mod Map
pub mod Dim
pub mod Leaf
pub mod Wire
pub mod Types
pub mod Commits
pub mod Keyed
pub mod AxonIndex
pub mod Cards
pub mod Stats
pub mod State
pub mod Positions
pub mod Table
pub mod Prune
pub mod Facade
pub mod Transition
pub mod Records
pub mod Frame
pub mod Examples
pub mod Storage
