-- ===== src/State/Invariant.antt =====
-- `BbgState::insert` of rs/src/state.rs changes every dimension through its wrapper: the invariant of
-- each dimension and of both adjacency indices is kept.
use bbg.Prelude.{List, [], ◌∷◌, Bool-cases, Option-cases, inl, inr, ℕ, ◌-◌, ◌==◌}
use bbg.Bytes.{Bytes32, bytes32_ord}
use bbg.Root.{Hemera}
use bbg.Map
use bbg.AxonIndex.AddLaw.{IsMirror, empty-IsMirror, add-AddLaw}
use bbg.Keyed.{Keyed, bytes32_key, u64_value, field_value, bytes32_value, unit_value, modify}
use bbg.Keyed.Invariant.{
  IsKeyed, empty-IsKeyed, insert-IsKeyed, remove-IsKeyed, upsert-IsKeyed, modified,
  modified-IsKeyed,
}
use bbg.State.{
  BbgState, new, Signal, BoxMove, Cyberlink, debited, any_spent, apply_move, apply_moves,
  record_edge, link_axons, link_particles, link_focus, link_balances, credit, debit, apply_link,
  apply_links, insert, axon_id,
}
use bbg.Commits.{particle_value, neuron_value, location_value, coin_value, file_value, signal_value}
use bbg.Cards.Index.{IsCards, new-IsCards}
use bbg.Keyed.Heights.{u64_ord, u64_key}
use bbg.Types.{zero_particle, NeuronRecord}

module _ ⦃H : Hemera⦄ where
  pub record IsState (s : BbgState) : Type 0 where
    pub particles : IsKeyed ⦃value = particle_value⦄ s.particles
    pub axons_out : IsMirror s.axons_out
    pub axons_in : IsMirror s.axons_in
    pub neurons : IsKeyed ⦃value = neuron_value⦄ s.neurons
    pub commitments : IsKeyed ⦃value = field_value⦄ s.commitments
    pub nullifiers : IsKeyed ⦃value = unit_value⦄ s.nullifiers
    pub balances : IsKeyed ⦃value = u64_value⦄ s.balances
    pub locations : IsKeyed ⦃value = location_value⦄ s.locations
    pub coins : IsKeyed ⦃value = coin_value⦄ s.coins
    pub cards : IsCards s.cards
    pub files : IsKeyed ⦃value = file_value⦄ s.files
    pub time : IsKeyed ⦃path = u64_key⦄ ⦃value = bytes32_value⦄ s.time
    pub signals : IsKeyed ⦃value = signal_value⦄ s.signals

  -- The empty state is well formed.
  pub new-IsState : IsState new
  unfolding new
  new-IsState = record {
    particles = empty-IsKeyed ⦃value = particle_value⦄;
    axons_out = empty-IsMirror;
    axons_in = empty-IsMirror;
    neurons = empty-IsKeyed ⦃value = neuron_value⦄;
    commitments = empty-IsKeyed ⦃value = field_value⦄;
    nullifiers = empty-IsKeyed ⦃value = unit_value⦄;
    balances = empty-IsKeyed ⦃value = u64_value⦄;
    locations = empty-IsKeyed ⦃value = location_value⦄;
    coins = empty-IsKeyed ⦃value = coin_value⦄;
    cards = new-IsCards;
    files = empty-IsKeyed ⦃value = file_value⦄;
    time = empty-IsKeyed ⦃path = u64_key⦄ ⦃value = bytes32_value⦄;
    signals = empty-IsKeyed ⦃value = signal_value⦄;
  }

  -- A state with other edges, which no invariant reads.
  edges-IsState :
      (s : BbgState) (edges : Map.Map Bytes32 (Bytes32 × Bytes32))
      → IsState s
      → IsState (record s { axon_edges = edges })
  edges-IsState s edges v = record {
    locations = v.locations;
    coins = v.coins;
    cards = v.cards;
    files = v.files;
    time = v.time;
    signals = v.signals;
    particles = v.particles;
    axons_out = v.axons_out;
    axons_in = v.axons_in;
    neurons = v.neurons;
    commitments = v.commitments;
    nullifiers = v.nullifiers;
    balances = v.balances;
  }

  apply_move-IsState : (mv : BoxMove) (s : BbgState) → IsState s → IsState (apply_move mv s)
  unfolding apply_move
  apply_move-IsState mv s v =
      let spent = insert-IsKeyed ⦃value = unit_value⦄ mv.nullifier tt s.nullifiers v.nullifiers in
      elim (Option-cases mv.commitment) [
        | inl e ↦
            rw (e, apply_move)
              (record {
                locations = v.locations;
                coins = v.coins;
                cards = v.cards;
                files = v.files;
                time = v.time;
                signals = v.signals;
                particles = v.particles;
                axons_out = v.axons_out;
                axons_in = v.axons_in;
                neurons = v.neurons;
                commitments = v.commitments;
                nullifiers = spent;
                balances = v.balances;
              })
        | inr e ↦
            rw (e.1, apply_move)
              (record {
                locations = v.locations;
                coins = v.coins;
                cards = v.cards;
                files = v.files;
                time = v.time;
                signals = v.signals;
                particles = v.particles;
                axons_out = v.axons_out;
                axons_in = v.axons_in;
                neurons = v.neurons;
                commitments =
                    insert-IsKeyed ⦃value = field_value⦄ e.0.0 (H.new e.0.1) s.commitments
                      v.commitments;
                nullifiers = spent;
                balances = v.balances;
              })
      ]

  apply_moves-IsState :
      (moves : List BoxMove) (s : BbgState) → IsState s → IsState (apply_moves moves s)
  unfolding apply_moves
  apply_moves-IsState [] s v = v
  apply_moves-IsState (mv ∷ moves) s v =
      apply_moves-IsState moves (apply_move mv s) (apply_move-IsState mv s v)

  record_edge-IsState :
      (axon : Bytes32) (link : Cyberlink) (s : BbgState)
      → IsState s
      → IsState (record_edge axon link s)
  unfolding record_edge
  record_edge-IsState axon link s v = elim (Option-cases (Map.get axon s.axon_edges)) [
    | inl e ↦ rw (e, record_edge) (edges-IsState s _ v)
    | inr e ↦ rw (e.1, record_edge) v
  ]

  link_axons-IsState :
      (axon : Bytes32) (link : Cyberlink) (s : BbgState)
      → IsState s
      → IsState (link_axons axon link s)
  unfolding link_axons
  link_axons-IsState axon link s v = record_edge-IsState axon link _ (record {
    locations = v.locations;
    coins = v.coins;
    cards = v.cards;
    files = v.files;
    time = v.time;
    signals = v.signals;
    particles = v.particles;
    axons_out = (add-AddLaw link.from axon s.axons_out v.axons_out).mirror;
    axons_in = (add-AddLaw link.to axon s.axons_in v.axons_in).mirror;
    neurons = v.neurons;
    commitments = v.commitments;
    nullifiers = v.nullifiers;
    balances = v.balances;
  })

  link_particles-IsState :
      (axon : Bytes32) (link : Cyberlink) (s : BbgState)
      → IsState s
      → IsState (link_particles axon link s)
  unfolding link_particles
  link_particles-IsState axon link s v = record {
    locations = v.locations;
    coins = v.coins;
    cards = v.cards;
    files = v.files;
    time = v.time;
    signals = v.signals;
    particles =
        upsert-IsKeyed ⦃value = particle_value⦄ link.to zero_particle _ _
          (upsert-IsKeyed ⦃value = particle_value⦄ axon zero_particle _ s.particles v.particles);
    axons_out = v.axons_out;
    axons_in = v.axons_in;
    neurons = v.neurons;
    commitments = v.commitments;
    nullifiers = v.nullifiers;
    balances = v.balances;
  }

  link_focus-IsState :
      (neuron : Bytes32) (link : Cyberlink) (s : BbgState)
      → IsState s
      → IsState (link_focus neuron link s)
  unfolding link_focus modified
  link_focus-IsState neuron link s v =
      let f : NeuronRecord → NeuronRecord = λ n. record n { focus = n.focus - link.amount } in
      let kept : IsKeyed (modified ⦃value = neuron_value⦄ neuron f s.neurons) =
        modified-IsKeyed ⦃value = neuron_value⦄ neuron f s.neurons v.neurons in
      elim (Option-cases (modify ⦃value = neuron_value⦄ neuron f s.neurons)) [
        | inl e ↦ rw (e, link_focus) v
        | inr e ↦
            rw (e.1, link_focus)
              (record {
                locations = v.locations;
                coins = v.coins;
                cards = v.cards;
                files = v.files;
                time = v.time;
                signals = v.signals;
                particles = v.particles;
                axons_out = v.axons_out;
                axons_in = v.axons_in;
                neurons = rw (e.1, modified) at kept;
                commitments = v.commitments;
                nullifiers = v.nullifiers;
                balances = v.balances;
              })
      ]

  credit-IsKeyed :
      (key : Bytes32) (amount : ℕ) (balances : Keyed Bytes32 ℕ)
      → IsKeyed ⦃value = u64_value⦄ balances
      → IsKeyed ⦃value = u64_value⦄ (credit key amount balances)
  unfolding credit
  credit-IsKeyed key amount balances v = insert-IsKeyed ⦃value = u64_value⦄ key _ balances v

  debit-IsKeyed :
      (key : Bytes32) (amount : ℕ) (balances : Keyed Bytes32 ℕ)
      → IsKeyed ⦃value = u64_value⦄ balances
      → IsKeyed ⦃value = u64_value⦄ (debit key amount balances)
  unfolding debit
  debit-IsKeyed key amount balances v =
      elim (Bool-cases (debited amount (Map.get key balances.map) == 0)) [
        | inl e ↦ rw (e, debit) (remove-IsKeyed ⦃value = u64_value⦄ key balances v)
        | inr e ↦ rw (e, debit) (insert-IsKeyed ⦃value = u64_value⦄ key _ balances v)
      ]

  link_balances-IsState :
      (link : Cyberlink) (s : BbgState) → IsState s → IsState (link_balances link s)
  unfolding link_balances
  link_balances-IsState link s v = record {
    locations = v.locations;
    coins = v.coins;
    cards = v.cards;
    files = v.files;
    time = v.time;
    signals = v.signals;
    particles = v.particles;
    axons_out = v.axons_out;
    axons_in = v.axons_in;
    neurons = v.neurons;
    commitments = v.commitments;
    nullifiers = v.nullifiers;
    balances = debit-IsKeyed _ link.amount _ (credit-IsKeyed _ link.amount s.balances v.balances);
  }

  apply_link-IsState :
      (neuron : Bytes32) (link : Cyberlink) (s : BbgState)
      → IsState s
      → IsState (apply_link neuron link s)
  unfolding apply_link
  apply_link-IsState neuron link s v =
      let axon = axon_id link.from link.to in
      let linked = link_axons-IsState axon link s v in
      elim (Bool-cases (link.amount == 0)) [
        | inl e ↦ rw (e, apply_link) linked
        | inr e ↦
            rw (e, apply_link)
              (link_balances-IsState link _
                (link_focus-IsState neuron link _ (link_particles-IsState axon link _ linked)))
      ]

  apply_links-IsState :
      (neuron : Bytes32) (links : List Cyberlink) (s : BbgState)
      → IsState s
      → IsState (apply_links neuron links s)
  unfolding apply_links
  apply_links-IsState neuron [] s v = v
  apply_links-IsState neuron (link ∷ links) s v =
      apply_links-IsState neuron links (apply_link neuron link s)
        (apply_link-IsState neuron link s v)

  -- `insert` of any signal, accepted or refused, keeps the state's invariant: in every dimension the
  -- trie agrees with the map at each path that is not pending, and in both adjacency indices every
  -- list has distinct axons and its set holds exactly those.
  pub insert-IsState : (s : BbgState) (signal : Signal) → IsState s → IsState (insert signal s).0
  unfolding insert
  insert-IsState s signal v = elim (Bool-cases (any_spent s signal.box_moves)) [
    | inl e ↦ rw (e, insert) v
    | inr e ↦
        rw (e, insert)
          (apply_links-IsState signal.neuron signal.links _
            (apply_moves-IsState signal.box_moves s v))
  ]
