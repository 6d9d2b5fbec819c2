-- ===== src/State/Root/Invariant.antt =====
-- A read of the root in rs/src/state.rs, of either version, changes caches only.
use bbg.Prelude.{◌≡◌, refl, Option-cases, inl, inr, List}
use bbg.Prelude.Ord.{Ord}
use bbg.Bytes.{Bytes32, bytes32_ord}
use bbg.Root.{Hemera}
use bbg.Map.{Map}
use bbg.Types.{CardRecord}
use bbg.Commits.{
  particle_value, neuron_value, location_value, coin_value, card_value, file_value, signal_value,
}
use bbg.Keyed
use bbg.Keyed.{
  Keyed, TrieKey, LeafValue, bytes32_key, u64_value, field_value, bytes32_value, unit_value,
}
use bbg.Keyed.Heights.{u64_ord, u64_key}
use bbg.Keyed.Invariant.{IsKeyed}
use bbg.Keyed.Commitment.{commitment-IsKeyed}
use bbg.AxonIndex.Reads.{ReadLaw, commitment-ReadLaw, legacy_commitment-ReadLaw}
use bbg.Cards
use bbg.Cards.{Cards}
use bbg.Cards.Index.{IsCards}
use bbg.State.{BbgState, RootVersion, v1, v2}
use bbg.State.Invariant.{IsState}
use bbg.State.Root.{v1_leaves, v2_leaves, version_leaves, root_leaves, root}

module _ ⦃H : Hemera⦄ where
  pub record KeyedRead {K V : Type 0} ⦃o : Ord K⦄ ⦃path : TrieKey K⦄ ⦃value : LeafValue V⦄
      (k l : Keyed K V) : Type 0 where
    pub same_map : l.map ≡ k.map
    pub valid : IsKeyed k → IsKeyed l

  commitment-KeyedRead :
      {K V : Type 0} ⦃o : Ord K⦄ ⦃path : TrieKey K⦄ ⦃value : LeafValue V⦄ (k : Keyed K V)
      → KeyedRead k (Keyed.commitment k).0
  unfolding Keyed.commitment Keyed.flush
  commitment-KeyedRead k = record { same_map = refl; valid = commitment-IsKeyed k }

  legacy-KeyedRead :
      {K V : Type 0} ⦃o : Ord K⦄ ⦃path : TrieKey K⦄ ⦃value : LeafValue V⦄ (k : Keyed K V)
      (f : Map K V → Bytes32)
      → KeyedRead k (Keyed.legacy_commitment k f).0
  unfolding Keyed.legacy_commitment
  legacy-KeyedRead k f = elim (Option-cases k.legacy) [
    | inl e ↦
        rw (e, Keyed.legacy_commitment)
          (record {
            same_map = refl;
            valid = λ v. record { sorted = v.sorted; valid = v.valid; agrees = v.agrees };
          })
    | inr e ↦
        rw (e.1, Keyed.legacy_commitment)
          (record {
            same_map = refl;
            valid = λ v. record { sorted = v.sorted; valid = v.valid; agrees = v.agrees };
          })
  ]

  pub record CardsRead (c d : Cards) : Type 0 where
    pub same_map : d.records.map ≡ c.records.map
    pub same_index : d.by_axon ≡ c.by_axon
    pub valid : IsCards c → IsCards d

  commitment-CardsRead : (c : Cards) → CardsRead c (Cards.commitment c).0
  unfolding Cards.commitment Cards.Index.IsIndexed
  commitment-CardsRead c =
      let read = commitment-KeyedRead ⦃value = card_value⦄ c.records in
      record {
        same_map = read.same_map;
        same_index = refl;
        valid = λ v. record {
          records = read.valid v.records;
          indexed = λ a q. rw read.same_map (v.indexed a q);
          sorted = v.sorted;
        };
      }

  legacy-CardsRead :
      (c : Cards) (f : Map Bytes32 CardRecord → Bytes32)
      → CardsRead c (Cards.legacy_commitment c f).0
  unfolding Cards.legacy_commitment Cards.Index.IsIndexed
  legacy-CardsRead c f =
      let read = legacy-KeyedRead ⦃value = card_value⦄ c.records f in
      record {
        same_map = read.same_map;
        same_index = refl;
        valid = λ v. record {
          records = read.valid v.records;
          indexed = λ a q. rw read.same_map (v.indexed a q);
          sorted = v.sorted;
        };
      }

  -- Two states with the same records; what is well formed in the first is so in the second.
  pub record StateRead (s t : BbgState) : Type 0 where
    pub particles : KeyedRead ⦃value = particle_value⦄ s.particles t.particles
    pub axons_out : ReadLaw s.axons_out t.axons_out
    pub axons_in : ReadLaw s.axons_in t.axons_in
    pub neurons : KeyedRead ⦃value = neuron_value⦄ s.neurons t.neurons
    pub locations : KeyedRead ⦃value = location_value⦄ s.locations t.locations
    pub coins : KeyedRead ⦃value = coin_value⦄ s.coins t.coins
    pub cards : CardsRead s.cards t.cards
    pub files : KeyedRead ⦃value = file_value⦄ s.files t.files
    pub time : KeyedRead ⦃path = u64_key⦄ ⦃value = bytes32_value⦄ s.time t.time
    pub signals : KeyedRead ⦃value = signal_value⦄ s.signals t.signals
    pub balances : KeyedRead ⦃value = u64_value⦄ s.balances t.balances
    pub commitments : KeyedRead ⦃value = field_value⦄ s.commitments t.commitments
    pub nullifiers : KeyedRead ⦃value = unit_value⦄ s.nullifiers t.nullifiers
    pub same_intents : t.intents ≡ s.intents
    pub same_axon_edges : t.axon_edges ≡ s.axon_edges
    pub same_diameter_override : t.diameter_override ≡ s.diameter_override
    pub same_height : t.height ≡ s.height
    pub same_root_version : t.root_version ≡ s.root_version

  pub StateRead-IsState : (s t : BbgState) → StateRead s t → IsState s → IsState t
  StateRead-IsState s t l v = record {
    particles = l.particles.valid v.particles;
    axons_out = l.axons_out.mirror v.axons_out;
    axons_in = l.axons_in.mirror v.axons_in;
    neurons = l.neurons.valid v.neurons;
    locations = l.locations.valid v.locations;
    coins = l.coins.valid v.coins;
    cards = l.cards.valid v.cards;
    files = l.files.valid v.files;
    time = l.time.valid v.time;
    signals = l.signals.valid v.signals;
    balances = l.balances.valid v.balances;
    commitments = l.commitments.valid v.commitments;
    nullifiers = l.nullifiers.valid v.nullifiers;
  }

  v2_leaves-StateRead : (s : BbgState) → StateRead s (v2_leaves s).0
  unfolding v2_leaves
  v2_leaves-StateRead s = record {
    particles = commitment-KeyedRead ⦃value = particle_value⦄ s.particles;
    axons_out = commitment-ReadLaw s.axons_out;
    axons_in = commitment-ReadLaw s.axons_in;
    neurons = commitment-KeyedRead ⦃value = neuron_value⦄ s.neurons;
    locations = commitment-KeyedRead ⦃value = location_value⦄ s.locations;
    coins = commitment-KeyedRead ⦃value = coin_value⦄ s.coins;
    cards = commitment-CardsRead s.cards;
    files = commitment-KeyedRead ⦃value = file_value⦄ s.files;
    time = commitment-KeyedRead ⦃path = u64_key⦄ ⦃value = bytes32_value⦄ s.time;
    signals = commitment-KeyedRead ⦃value = signal_value⦄ s.signals;
    balances = commitment-KeyedRead ⦃value = u64_value⦄ s.balances;
    commitments = commitment-KeyedRead ⦃value = field_value⦄ s.commitments;
    nullifiers = commitment-KeyedRead ⦃value = unit_value⦄ s.nullifiers;
    same_intents = refl;
    same_axon_edges = refl;
    same_diameter_override = refl;
    same_height = refl;
    same_root_version = refl;
  }

  v1_leaves-StateRead :
      (lens : List H.Field → Bytes32) (s : BbgState) → StateRead s (v1_leaves lens s).0
  unfolding v1_leaves
  v1_leaves-StateRead lens s = record {
    particles = legacy-KeyedRead ⦃value = particle_value⦄ s.particles _;
    axons_out = legacy_commitment-ReadLaw s.axons_out _;
    axons_in = legacy_commitment-ReadLaw s.axons_in _;
    neurons = legacy-KeyedRead ⦃value = neuron_value⦄ s.neurons _;
    locations = legacy-KeyedRead ⦃value = location_value⦄ s.locations _;
    coins = legacy-KeyedRead ⦃value = coin_value⦄ s.coins _;
    cards = legacy-CardsRead s.cards _;
    files = legacy-KeyedRead ⦃value = file_value⦄ s.files _;
    time = legacy-KeyedRead ⦃path = u64_key⦄ ⦃value = bytes32_value⦄ s.time _;
    signals = legacy-KeyedRead ⦃value = signal_value⦄ s.signals _;
    balances = legacy-KeyedRead ⦃value = u64_value⦄ s.balances _;
    commitments = legacy-KeyedRead ⦃value = field_value⦄ s.commitments _;
    nullifiers = legacy-KeyedRead ⦃value = unit_value⦄ s.nullifiers _;
    same_intents = refl;
    same_axon_edges = refl;
    same_diameter_override = refl;
    same_height = refl;
    same_root_version = refl;
  }

  version_leaves-StateRead :
      (lens : List H.Field → Bytes32) (version : RootVersion) (s : BbgState)
      → StateRead s (version_leaves lens version s).0
  unfolding version_leaves
  version_leaves-StateRead lens v1 s = v1_leaves-StateRead lens s
  version_leaves-StateRead lens v2 s = v2_leaves-StateRead s

  -- A read of the root, of either version, changes caches only: every dimension keeps its records,
  -- and is well formed afterwards if it was before; the intents, the edges, the bound, the height
  -- and the version stay.
  pub root-StateRead : (lens : List H.Field → Bytes32) (s : BbgState) → StateRead s (root lens s).0
  unfolding root root_leaves
  root-StateRead lens s = version_leaves-StateRead lens s.root_version s
