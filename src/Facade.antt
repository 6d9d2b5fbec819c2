-- ===== src/Facade.antt =====
-- `Bbg` of rs/src/lib.rs, the state with its checkpoint and its pruning policy, and `Checkpoint` of
-- rs/src/checkpoint.rs. `lens` is the commitment to a polynomial, of the lens crate, which roots of
-- the first version read. A height is a `u64` and wraps round.
pub mod Blocks
pub mod Ledger
use bbg.Prelude.{
  ℕ, ◌+◌, ◌/◌, ◌%◌, Bool, true, false, Option, none, some, List, [], ◌∷◌, ◌==◌, if◌then◌else◌,
}
use bbg.Bytes.{Bytes32, bytes32_ord}
use bbg.Root.{Hemera}
use bbg.Commits.{particle_value}
use bbg.Keyed
use bbg.Keyed.{bytes32_value}
use bbg.Keyed.Heights.{u64_ord, u64_key, to_u64, u64_mod}
use bbg.State
use bbg.State.{BbgState, Signal, Cyberlink, InsertError, RootVersion, axon_id}
use bbg.State.Root.{root, set_root_version}
use bbg.Prune.{PruneConfig, PruneState, default_config, touch, prune}

-- `EPOCH_BLOCKS` of rs/src/state.rs
abbrev pub epoch_blocks : ℕ
epoch_blocks = 100

-- `CheckpointProof`, which is carried and never interpreted.
pub record CheckpointProof : Type 0 where
  pub profile : ℕ
  pub bytes : List ℕ

pub record Checkpoint : Type 0 where
  pub root : Bytes32
  pub acc : Option CheckpointProof
  pub height : ℕ

pub record Bbg ⦃H : Hemera⦄ : Type 0 where
  pub state : BbgState
  pub checkpoint : Checkpoint
  pub prune_config : PruneConfig
  pub prune_state : PruneState

module _ ⦃H : Hemera⦄ (lens : List H.Field → Bytes32) where
  -- `Checkpoint::new`, with the state whose root was read
  unfoldable pub checkpoint_of : BbgState → BbgState × Checkpoint
  checkpoint_of s =
      let (next, r) = root lens s in (next, record { root = r; acc = none; height = s.height })

  -- `Checkpoint::advance`: of the checkpoint before, nothing is kept.
  unfoldable pub advance : Checkpoint → BbgState → BbgState × Checkpoint
  unfolding checkpoint_of
  advance before s = checkpoint_of s

  unfoldable pub new : Bbg
  unfolding checkpoint_of
  new =
      let (state, checkpoint) = checkpoint_of State.new in
      record {
        state = state;
        checkpoint = checkpoint;
        prune_config = default_config;
        prune_state = record { last_touched = [] };
      }

  unfoldable pub with_prune_config : PruneConfig → Bbg → Bbg
  with_prune_config config b = record b { prune_config = config }

  unfoldable pub with_root_version : RootVersion → Bbg → Bbg
  with_root_version version b = record b { state = set_root_version version b.state }

  unfoldable pub touch_links : ℕ → List Cyberlink → PruneState → PruneState
  touch_links epoch [] ps = ps
  touch_links epoch (link ∷ links) ps =
      touch_links epoch links (touch (axon_id link.from link.to) epoch ps)

  -- `Bbg::insert`; `none` is `Ok(())`.
  unfoldable pub insert : Signal → Bbg → Bbg × Option InsertError
  unfolding touch_links
  insert signal b =
      let (state, error) = State.insert signal b.state in
      elim error [
        | some e ↦ (record b { state = state }, some e)
        | none ↦ (
          record b {
            state = state;
            prune_state = touch_links (state.height / epoch_blocks) signal.links b.prune_state;
          },
          none,
        )
      ]

  -- The root in force stored under the height, and the height one more.
  unfoldable pub snapshot : BbgState → BbgState
  snapshot s =
      let (read, r) = root lens s in
      let time =
        (Keyed.insert ⦃path = u64_key⦄ ⦃value = bytes32_value⦄ (to_u64 s.height) r read.time).0 in
      let (next, _) = root lens (record read { time = time }) in
      record next { height = (s.height + 1) % u64_mod }

  -- Pruning, at an epoch's boundary only.
  unfoldable pub at_boundary : PruneConfig → BbgState × PruneState → BbgState × PruneState
  at_boundary config (s, ps) =
      if s.height % epoch_blocks == 0
      then prune lens config (s.height / epoch_blocks) (s, ps)
      else (s, ps)

  unfoldable pub finalize_block : Bbg → Bbg
  unfolding snapshot at_boundary advance
  finalize_block b =
      let (pruned, ps) = at_boundary b.prune_config (snapshot b.state, b.prune_state) in
      let (state, checkpoint) = advance b.checkpoint pruned in
      record b { state = state; checkpoint = checkpoint; prune_state = ps }
