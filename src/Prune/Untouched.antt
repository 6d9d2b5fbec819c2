-- ===== src/Prune/Untouched.antt =====
-- What pruning in rs/src/prune.rs does not touch: all of the state but the particles, the adjacency
-- and the edges.
use bbg.Prelude.{
  ℕ, ◌≡◌, refl, ◌∙◌, Bool, Option, none, some, List, [], ◌∷◌, ◌&&◌, leb, Bool-cases, Option-cases,
  inl, inr,
}
use bbg.Bytes.{Bytes32, bytes32_ord}
use bbg.Root.{Hemera}
use bbg.Map
use bbg.State.{BbgState}
use bbg.Prune.{
  PruneConfig, PruneState, candidates, usize_max, estimate_bytes, remove_edge, remove_axon,
  remove_until, prune_records,
}

module _ ⦃H : Hemera⦄ where
  pub record Untouched (s t : BbgState) : Type 0 where
    pub neurons : t.neurons ≡ s.neurons
    pub locations : t.locations ≡ s.locations
    pub coins : t.coins ≡ s.coins
    pub cards : t.cards ≡ s.cards
    pub files : t.files ≡ s.files
    pub time : t.time ≡ s.time
    pub signals : t.signals ≡ s.signals
    pub commitments : t.commitments ≡ s.commitments
    pub nullifiers : t.nullifiers ≡ s.nullifiers
    pub balances : t.balances ≡ s.balances
    pub intents : t.intents ≡ s.intents
    pub diameter_override : t.diameter_override ≡ s.diameter_override
    pub height : t.height ≡ s.height
    pub root_version : t.root_version ≡ s.root_version

  Untouched-self : (s : BbgState) → Untouched s s
  Untouched-self s = record {
    neurons = refl;
    locations = refl;
    coins = refl;
    cards = refl;
    files = refl;
    time = refl;
    signals = refl;
    commitments = refl;
    nullifiers = refl;
    balances = refl;
    intents = refl;
    diameter_override = refl;
    height = refl;
    root_version = refl;
  }

  Untouched-trans : (s t u : BbgState) → Untouched s t → Untouched t u → Untouched s u
  Untouched-trans s t u a b = record {
    neurons = b.neurons ∙ a.neurons;
    locations = b.locations ∙ a.locations;
    coins = b.coins ∙ a.coins;
    cards = b.cards ∙ a.cards;
    files = b.files ∙ a.files;
    time = b.time ∙ a.time;
    signals = b.signals ∙ a.signals;
    commitments = b.commitments ∙ a.commitments;
    nullifiers = b.nullifiers ∙ a.nullifiers;
    balances = b.balances ∙ a.balances;
    intents = b.intents ∙ a.intents;
    diameter_override = b.diameter_override ∙ a.diameter_override;
    height = b.height ∙ a.height;
    root_version = b.root_version ∙ a.root_version;
  }

  remove_edge-Untouched :
      (edge : Option (Bytes32 × Bytes32)) (axon : Bytes32) (s : BbgState)
      → Untouched s (remove_edge edge axon s)
  unfolding remove_edge
  remove_edge-Untouched none axon s = Untouched-self s
  remove_edge-Untouched (some (from, to)) axon s = record {
    neurons = refl;
    locations = refl;
    coins = refl;
    cards = refl;
    files = refl;
    time = refl;
    signals = refl;
    commitments = refl;
    nullifiers = refl;
    balances = refl;
    intents = refl;
    diameter_override = refl;
    height = refl;
    root_version = refl;
  }

  remove_axon-Untouched :
      (axon : Bytes32) (b : BbgState × PruneState) → Untouched b.0 (remove_axon axon b).0
  unfolding remove_axon
  remove_axon-Untouched axon (s, ps) =
      let law = remove_edge-Untouched (Map.get axon s.axon_edges) axon _ in
      record {
        neurons = law.neurons;
        locations = law.locations;
        coins = law.coins;
        cards = law.cards;
        files = law.files;
        time = law.time;
        signals = law.signals;
        commitments = law.commitments;
        nullifiers = law.nullifiers;
        balances = law.balances;
        intents = law.intents;
        diameter_override = law.diameter_override;
        height = law.height;
        root_version = law.root_version;
      }

  remove_until-Untouched :
      (over : Bool) (max_bytes : ℕ) (list : List Bytes32) (b : BbgState × PruneState)
      → Untouched b.0 (remove_until over max_bytes list b).0
  unfolding remove_until
  remove_until-Untouched over max_bytes [] b = Untouched-self b.0
  remove_until-Untouched over max_bytes (axon ∷ list) b =
      elim (Bool-cases (over && leb (estimate_bytes b.0) max_bytes)) [
        | inl e ↦ rw (e, remove_until) (Untouched-self b.0)
        | inr e ↦
            rw (e, remove_until)
              (Untouched-trans _ _ _ (remove_axon-Untouched axon b)
                (remove_until-Untouched over max_bytes list (remove_axon axon b)))
      ]

  pub prune_records-Untouched :
      (config : PruneConfig) (epoch : ℕ) (b : BbgState × PruneState)
      → Untouched b.0 (prune_records config epoch b).0
  unfolding prune_records
  prune_records-Untouched config epoch (s, ps) =
      elim (Option-cases (candidates s ps config epoch usize_max)) [
        | inl e ↦ rw (e, prune_records) (Untouched-self s)
        | inr e ↦
            rw (e.1, prune_records) (remove_until-Untouched e.0.0 config.max_bytes e.0.1 (s, ps))
      ]
