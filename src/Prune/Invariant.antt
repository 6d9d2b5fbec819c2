-- ===== src/Prune/Invariant.antt =====
-- Pruning in rs/src/prune.rs keeps the state well formed.
use bbg.Prelude.{
  Bool, Option, none, some, List, [], ◌∷◌, Bool-cases, Option-cases, inl, inr, ℕ, ◌&&◌, leb,
}
use bbg.Bytes.{Bytes32, bytes32_ord}
use bbg.Root.{Hemera}
use bbg.Map
use bbg.Commits.{particle_value}
use bbg.Keyed.{bytes32_key}
use bbg.Keyed.Invariant.{remove-IsKeyed}
use bbg.AxonIndex.RemoveLaw.{remove_axon-RemoveAxonLaw}
use bbg.State.{BbgState}
use bbg.State.Invariant.{IsState}
use bbg.State.Root.Invariant.{StateRead-IsState, root-StateRead}
use bbg.Prune.{
  PruneConfig, PruneState, candidates, usize_max, estimate_bytes, remove_edge, remove_axon,
  remove_until, prune_records, prune,
}

module _ ⦃H : Hemera⦄ where
  remove_edge-IsState :
      (edge : Option (Bytes32 × Bytes32)) (axon : Bytes32) (s : BbgState)
      → IsState s
      → IsState (remove_edge edge axon s)
  unfolding remove_edge
  remove_edge-IsState none axon s v = v
  remove_edge-IsState (some (from, to)) axon s v = record {
    particles = v.particles;
    axons_out = (remove_axon-RemoveAxonLaw from axon s.axons_out v.axons_out).mirror;
    axons_in = (remove_axon-RemoveAxonLaw to axon s.axons_in v.axons_in).mirror;
    neurons = v.neurons;
    commitments = v.commitments;
    nullifiers = v.nullifiers;
    balances = v.balances;
    locations = v.locations;
    coins = v.coins;
    cards = v.cards;
    files = v.files;
    time = v.time;
    signals = v.signals;
  }

  pub remove_axon-IsState :
      (axon : Bytes32) (b : BbgState × PruneState) → IsState b.0 → IsState (remove_axon axon b).0
  unfolding remove_axon
  remove_axon-IsState axon (s, ps) v =
      remove_edge-IsState (Map.get axon s.axon_edges) axon _ (record {
        particles = remove-IsKeyed ⦃value = particle_value⦄ axon s.particles v.particles;
        axons_out = v.axons_out;
        axons_in = v.axons_in;
        neurons = v.neurons;
        commitments = v.commitments;
        nullifiers = v.nullifiers;
        balances = v.balances;
        locations = v.locations;
        coins = v.coins;
        cards = v.cards;
        files = v.files;
        time = v.time;
        signals = v.signals;
      })

  remove_until-IsState :
      (over : Bool) (max_bytes : ℕ) (list : List Bytes32) (b : BbgState × PruneState)
      → IsState b.0
      → IsState (remove_until over max_bytes list b).0
  unfolding remove_until
  remove_until-IsState over max_bytes [] b v = v
  remove_until-IsState over max_bytes (axon ∷ list) b v =
      elim (Bool-cases (over && leb (estimate_bytes b.0) max_bytes)) [
        | inl e ↦ rw (e, remove_until) v
        | inr e ↦
            rw (e, remove_until)
              (remove_until-IsState over max_bytes list (remove_axon axon b)
                (remove_axon-IsState axon b v))
      ]

  pub prune_records-IsState :
      (config : PruneConfig) (epoch : ℕ) (b : BbgState × PruneState)
      → IsState b.0
      → IsState (prune_records config epoch b).0
  unfolding prune_records
  prune_records-IsState config epoch (s, ps) v =
      elim (Option-cases (candidates s ps config epoch usize_max)) [
        | inl e ↦ rw (e, prune_records) v
        | inr e ↦
            rw (e.1, prune_records) (remove_until-IsState e.0.0 config.max_bytes e.0.1 (s, ps) v)
      ]

  -- Pruning keeps the state's invariant, whatever it removes: in every dimension the trie agrees
  -- with the map at each path that is not pending, and in both adjacency indices every list has
  -- distinct axons and its set holds exactly those.
  pub prune-IsState :
      (lens : List H.Field → Bytes32) (config : PruneConfig) (epoch : ℕ) (b : BbgState × PruneState)
      → IsState b.0
      → IsState (prune lens config epoch b).0
  unfolding prune
  prune-IsState lens config epoch b v =
      StateRead-IsState _ _ (root-StateRead lens (prune_records config epoch b).0)
        (prune_records-IsState config epoch b v)
