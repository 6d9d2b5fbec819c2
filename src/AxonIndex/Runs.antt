-- ===== src/AxonIndex/Runs.antt =====
-- Any sequence of calls of `AxonIndex` of rs/src/keyed.rs against plain lists: the calls that change
-- the index, and the reads that refresh its caches.
use bbg.Prelude.{ℕ, ◌≤◌, ◌≡◌, false, not, ◌&&◌, List, [], ◌∷◌, ◌++◌, length, if◌then◌else◌, ◌⊎◌}
use bbg.Prelude.Ord.{beq}
use bbg.Bytes.{Bytes32, bytes32_ord}
use bbg.Root.{Hemera}
use bbg.Map
use bbg.AxonIndex.{
  AxonIndex, empty, add, insert, remove, remove_axon, truncate, clear, commitment, retain_other,
  take_axons, max_degree,
}
use bbg.AxonIndex.AddLaw.{mem, list_at, IsMirror}
use bbg.AxonIndex.Lists.{unique}

pub data Call : Type 0 where
  on_add : Bytes32 → Bytes32 → Call
  on_insert : Bytes32 → List Bytes32 → Call
  on_remove : Bytes32 → Call
  on_remove_axon : Bytes32 → Bytes32 → Call
  on_truncate : Bytes32 → ℕ → Call
  on_clear : Call
  on_commitment : Call

module _ ⦃H : Hemera⦄ where
  unfoldable pub call : Call → AxonIndex → AxonIndex
  call (on_add p a) x = (add p a x).0
  call (on_insert p list) x = (insert p list x).0
  call (on_remove p) x = (remove p x).0
  call (on_remove_axon p a) x = (remove_axon p a x).0
  call (on_truncate p n) x = (truncate p n x).0
  call on_clear x = clear x
  call on_commitment x = (commitment x).0

  -- The latest call stands first.
  unfoldable pub run : List Call → AxonIndex
  unfolding call
  run [] = empty
  run (c ∷ calls) = call c (run calls)

  -- What a call does to the lists.
  unfoldable pub call_lists : Call → (Bytes32 → List Bytes32) → Bytes32 → List Bytes32
  unfolding unique
  call_lists (on_add p a) lists q =
      if beq q p && not (mem a (lists p)) then lists q ++ a ∷ [] else lists q
  call_lists (on_insert p list) lists q = if beq q p then unique [] list else lists q
  call_lists (on_remove p) lists q = if beq q p then [] else lists q
  call_lists (on_remove_axon p a) lists q = if beq q p then retain_other a (lists p) else lists q
  call_lists (on_truncate p n) lists q = if beq q p then take_axons n (lists p) else lists q
  call_lists on_clear lists q = []
  call_lists on_commitment lists q = lists q

  unfoldable pub run_lists : List Call → Bytes32 → List Bytes32
  unfolding call_lists
  run_lists [] q = []
  run_lists (c ∷ calls) q = call_lists c (run_lists calls) q

  record CallLaw (c : Call) (x : AxonIndex) : Type 0 where
    pub mirror : IsMirror (call c x)
    pub lists : (q : Bytes32) → list_at q (call c x) ≡ call_lists c (λ p. list_at p x) q

  -- An index against lists: no call panicked, the index is well formed and has the lists, and the
  -- longest of them is as long as `max_degree` says.
  pub record RunLaw (lists : Bytes32 → List Bytes32) (x : AxonIndex) : Type 0 where
    pub unpanicked : x.panicked ≡ false
    pub mirror : IsMirror x
    pub same : (q : Bytes32) → list_at q x ≡ lists q
    pub longest : (q : Bytes32) → length (lists q) ≤ max_degree x
    pub attained : (max_degree x ≡ 0) ⊎ ((q : Bytes32) × (length (lists q) ≡ max_degree x))
