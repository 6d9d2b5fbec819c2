-- ===== src/Facade/Blocks.antt =====
-- `Bbg::finalize_block` of rs/src/lib.rs: the snapshot, the height and the checkpoint.
use bbg.Prelude.{
  ℕ, ◌+◌, ◌/◌, ◌%◌, ◌≡◌, refl, ap, ◌∙◌, some, List, ◌==◌, if◌then◌else◌, Bool-cases, inl, inr,
}
use bbg.Prelude.Ord.{beq}
use bbg.Bytes.{Bytes32, bytes32_ord}
use bbg.Root.{Hemera}
use bbg.Map
use bbg.Map.Laws.{get-insert}
use bbg.Keyed
use bbg.Keyed.{bytes32_value}
use bbg.Keyed.Heights.{U64, u64_ord, u64_key, to_u64, u64_mod}
use bbg.Keyed.Invariant.{insert-IsKeyed}
use bbg.State.{BbgState}
use bbg.State.Invariant.{IsState}
use bbg.State.Root.{root}
use bbg.State.Root.Invariant.{StateRead-IsState, root-StateRead}
use bbg.Prune.{PruneConfig, PruneState, prune, prune_records}
use bbg.Prune.Invariant.{prune-IsState}
use bbg.Prune.Untouched.{prune_records-Untouched}
use bbg.Facade.{Bbg, epoch_blocks, checkpoint_of, advance, snapshot, at_boundary, finalize_block}

module _ ⦃H : Hemera⦄ (lens : List H.Field → Bytes32) where
  -- What a block's end does to the snapshots, the height and the nullifiers.
  pub record BlockLaw (s t : BbgState) : Type 0 where
    pub snapshots :
        (h : U64)
        → Map.get h t.time.map
          ≡ (if beq h (to_u64 s.height) then some (root lens s).1 else Map.get h s.time.map)
    pub height : t.height ≡ (s.height + 1) % u64_mod
    pub nullifiers : t.nullifiers.map ≡ s.nullifiers.map
    pub balances : t.balances.map ≡ s.balances.map

  -- A state that differs in caches, or in what pruning takes away.
  pub record SameBlock (s t : BbgState) : Type 0 where
    pub time : t.time.map ≡ s.time.map
    pub height : t.height ≡ s.height
    pub nullifiers : t.nullifiers.map ≡ s.nullifiers.map
    pub balances : t.balances.map ≡ s.balances.map

  read-SameBlock : (s : BbgState) → SameBlock s (root lens s).0
  read-SameBlock s =
      let read = root-StateRead lens s in
      record {
        time = read.time.same_map;
        height = read.same_height;
        nullifiers = read.nullifiers.same_map;
        balances = read.balances.same_map;
      }

  SameBlock-trans : (s t u : BbgState) → SameBlock s t → SameBlock t u → SameBlock s u
  SameBlock-trans s t u a b = record {
    time = b.time ∙ a.time;
    height = b.height ∙ a.height;
    nullifiers = b.nullifiers ∙ a.nullifiers;
    balances = b.balances ∙ a.balances;
  }

  prune-SameBlock :
      (config : PruneConfig) (epoch : ℕ) (b : BbgState × PruneState)
      → SameBlock b.0 (prune lens config epoch b).0
  unfolding prune
  prune-SameBlock config epoch b =
      let kept = prune_records-Untouched config epoch b in
      SameBlock-trans _ _ _
        (record {
          time = ap (λ k. k.map) kept.time;
          height = kept.height;
          nullifiers = ap (λ k. k.map) kept.nullifiers;
          balances = ap (λ k. k.map) kept.balances;
        })
        (read-SameBlock (prune_records config epoch b).0)

  at_boundary-SameBlock :
      (config : PruneConfig) (b : BbgState × PruneState)
      → SameBlock b.0 (at_boundary lens config b).0
  unfolding at_boundary
  at_boundary-SameBlock config (s, ps) = elim (Bool-cases (s.height % epoch_blocks == 0)) [
    | inl e ↦ rw (e, at_boundary) (prune-SameBlock config (s.height / epoch_blocks) (s, ps))
    | inr e ↦
        rw (e, at_boundary)
          (record { time = refl; height = refl; nullifiers = refl; balances = refl })
  ]

  at_boundary-IsState :
      (config : PruneConfig) (b : BbgState × PruneState)
      → IsState b.0
      → IsState (at_boundary lens config b).0
  unfolding at_boundary
  at_boundary-IsState config (s, ps) v = elim (Bool-cases (s.height % epoch_blocks == 0)) [
    | inl e ↦ rw (e, at_boundary) (prune-IsState lens config (s.height / epoch_blocks) (s, ps) v)
    | inr e ↦ rw (e, at_boundary) v
  ]

  -- The state between the two reads of the root.
  abbrev recorded : BbgState → BbgState
  recorded s =
      let read = (root lens s).0 in
      record read {
        time =
            (Keyed.insert ⦃path = u64_key⦄ ⦃value = bytes32_value⦄ (to_u64 s.height) (root lens s).1
              read.time).0;
      }

  snapshot-BlockLaw : (s : BbgState) → BlockLaw s (snapshot lens s)
  unfolding snapshot Keyed.insert Keyed.touched
  snapshot-BlockLaw s =
      let first = read-SameBlock s in
      let second = read-SameBlock (recorded s) in
      record {
        snapshots = λ h.
            rw
              (
                second.time,
                get-insert (to_u64 s.height) (root lens s).1 (root lens s).0.time.map h,
                first.time,
              )
              refl;
        height = refl;
        nullifiers = second.nullifiers ∙ first.nullifiers;
        balances = second.balances ∙ first.balances;
      }

  recorded-IsState : (s : BbgState) → IsState s → IsState (recorded s)
  recorded-IsState s v =
      let w = StateRead-IsState _ _ (root-StateRead lens s) v in
      record {
        particles = w.particles;
        axons_out = w.axons_out;
        axons_in = w.axons_in;
        neurons = w.neurons;
        commitments = w.commitments;
        nullifiers = w.nullifiers;
        balances = w.balances;
        locations = w.locations;
        coins = w.coins;
        cards = w.cards;
        files = w.files;
        signals = w.signals;
        time =
            insert-IsKeyed ⦃path = u64_key⦄ ⦃value = bytes32_value⦄ (to_u64 s.height)
              (root lens s).1 _ w.time;
      }

  snapshot-IsState : (s : BbgState) → IsState s → IsState (snapshot lens s)
  unfolding snapshot
  snapshot-IsState s v =
      let w = StateRead-IsState _ _ (root-StateRead lens (recorded s)) (recorded-IsState s v) in
      record {
        particles = w.particles;
        axons_out = w.axons_out;
        axons_in = w.axons_in;
        neurons = w.neurons;
        commitments = w.commitments;
        nullifiers = w.nullifiers;
        balances = w.balances;
        locations = w.locations;
        coins = w.coins;
        cards = w.cards;
        files = w.files;
        signals = w.signals;
        time = w.time;
      }

  abbrev pruned : Bbg → BbgState
  pruned b = (at_boundary lens b.prune_config (snapshot lens b.state, b.prune_state)).0

  -- The end of a block, pruning included, stores the root in force under the height and keeps every
  -- other snapshot; the height is one more, modulo 2^64; no nullifier and no balance changes.
  pub finalize_block-BlockLaw : (b : Bbg) → BlockLaw b.state (finalize_block lens b).state
  unfolding finalize_block advance checkpoint_of
  finalize_block-BlockLaw b =
      let law = snapshot-BlockLaw b.state in
      let same =
        SameBlock-trans _ _ _
          (at_boundary-SameBlock b.prune_config (snapshot lens b.state, b.prune_state))
          (read-SameBlock (pruned b)) in
      record {
        snapshots = λ h. rw same.time (law.snapshots h);
        height = same.height ∙ law.height;
        nullifiers = same.nullifiers ∙ law.nullifiers;
        balances = same.balances ∙ law.balances;
      }

  pub finalize_block-IsState : (b : Bbg) → IsState b.state → IsState (finalize_block lens b).state
  unfolding finalize_block advance checkpoint_of
  finalize_block-IsState b v =
      StateRead-IsState _ _ (root-StateRead lens (pruned b))
        (at_boundary-IsState b.prune_config _ (snapshot-IsState b.state v))
