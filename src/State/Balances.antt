-- ===== src/State/Balances.antt =====
-- The public balances in `BbgState::insert` of rs/src/state.rs: a zero balance is an absent row, so
-- that one set of balances has one representation.
use bbg.Prelude.{
  ◌≡◌, ◌<◌, refl, Option, none, some, List, [], ◌∷◌, arith, Bool-cases, inl, inr, ◌∙◌, sym, subst,
  ℕ, ◌==◌,
}
use bbg.Bytes.{Bytes32, bytes32_ord}
use bbg.Root.{Hemera}
use bbg.Map
use bbg.Map.Laws.{get-insert, get-remove}
use bbg.Keyed.{Keyed, insert as keyed_insert, remove as keyed_remove, touched}
use bbg.State.{
  BbgState, Signal, BoxMove, Cyberlink, saturating_add, credited, debited, any_spent, apply_move,
  apply_moves, record_edge, link_axons, link_particles, link_focus, link_balances, credit, debit,
  apply_link, apply_links, insert, axon_id, balance_key,
}

module _ ⦃H : Hemera⦄ where
  abbrev pub HasNoZero : Keyed Bytes32 ℕ → Type 0
  HasNoZero balances = (key : Bytes32) (b : ℕ) → Map.get key balances.map ≡ some b → 0 < b

  credited-positive : (amount : ℕ) (r : Option ℕ) → 0 < amount → 0 < credited amount r
  unfolding saturating_add
  credited-positive amount none h = h
  credited-positive amount (some b) h = ground arith

  credit-HasNoZero :
      (key : Bytes32) (amount : ℕ) (balances : Keyed Bytes32 ℕ)
      → 0 < amount
      → HasNoZero balances
      → HasNoZero (credit key amount balances)
  unfolding credit keyed_insert touched
  credit-HasNoZero key amount balances h v q b e =
      let next = credited amount (Map.get key balances.map) in
      let law = get-insert key next balances.map q in
      ground (arith, law, e, v q b, credited-positive amount (Map.get key balances.map) h)

  debit-HasNoZero :
      (key : Bytes32) (amount : ℕ) (balances : Keyed Bytes32 ℕ)
      → HasNoZero balances
      → HasNoZero (debit key amount balances)
  unfolding debit keyed_insert keyed_remove touched
  debit-HasNoZero key amount balances v q b e =
      let next = debited amount (Map.get key balances.map) in
      ground (arith, e, v q b, get-insert key next balances.map q, get-remove key balances.map q)

  balances-record_edge :
      (axon : Bytes32) (link : Cyberlink) (s : BbgState)
      → (record_edge axon link s).balances ≡ s.balances
  unfolding record_edge
  balances-record_edge axon link s = ground arith

  pub balances-link_axons :
      (axon : Bytes32) (link : Cyberlink) (s : BbgState)
      → (link_axons axon link s).balances ≡ s.balances
  unfolding link_axons
  balances-link_axons axon link s = balances-record_edge axon link _

  pub balances-link_focus :
      (neuron : Bytes32) (link : Cyberlink) (s : BbgState)
      → (link_focus neuron link s).balances ≡ s.balances
  unfolding link_focus
  balances-link_focus neuron link s = ground arith

  apply_link-HasNoZero :
      (neuron : Bytes32) (link : Cyberlink) (s : BbgState)
      → HasNoZero s.balances
      → HasNoZero (apply_link neuron link s).balances
  unfolding apply_link link_particles link_balances
  apply_link-HasNoZero neuron link s v =
      let axon = axon_id link.from link.to in
      let linked = link_axons axon link s in
      let moved = link_focus neuron link (link_particles axon link linked) in
      let same : linked.balances ≡ s.balances = balances-link_axons axon link s in
      let kept : moved.balances ≡ s.balances =
        balances-link_focus neuron link (link_particles axon link linked) ∙ same in
      elim (Bool-cases (link.amount == 0)) [
        | inl e ↦ rw (e, apply_link) (subst HasNoZero (sym same) v)
        | inr e ↦
            rw (e, apply_link, link_balances)
              (debit-HasNoZero (balance_key link.from link.token) link.amount _ (
                credit-HasNoZero (balance_key link.to link.token) link.amount moved.balances
                  (ground (arith, e)) (subst HasNoZero (sym kept) v)))
      ]

  apply_links-HasNoZero :
      (neuron : Bytes32) (links : List Cyberlink) (s : BbgState)
      → HasNoZero s.balances
      → HasNoZero (apply_links neuron links s).balances
  unfolding apply_links
  apply_links-HasNoZero neuron [] s v = v
  apply_links-HasNoZero neuron (link ∷ links) s v =
      apply_links-HasNoZero neuron links (apply_link neuron link s)
        (apply_link-HasNoZero neuron link s v)

  pub balances-apply_moves :
      (moves : List BoxMove) (s : BbgState) → (apply_moves moves s).balances ≡ s.balances
  unfolding apply_moves apply_move
  balances-apply_moves [] s = refl
  balances-apply_moves (mv ∷ moves) s =
      balances-apply_moves moves (apply_move mv s) ∙ balances-apply_move mv s
    where
      balances-apply_move : (mv : BoxMove) (s : BbgState) → (apply_move mv s).balances ≡ s.balances
      balances-apply_move mv s = ground arith

  -- If no row of the balances is zero, none is after `insert` of any signal, accepted or refused.
  pub insert-HasNoZero :
      (s : BbgState) (signal : Signal)
      → HasNoZero s.balances
      → HasNoZero (insert signal s).0.balances
  unfolding insert
  insert-HasNoZero s signal v = elim (Bool-cases (any_spent s signal.box_moves)) [
    | inl e ↦ rw (e, insert) v
    | inr e ↦
        rw (e, insert)
          (apply_links-HasNoZero signal.neuron signal.links (apply_moves signal.box_moves s)
            (subst HasNoZero (sym (balances-apply_moves signal.box_moves s)) v))
  ]
