-- ===== src/State/Spends.antt =====
-- The double-spend check of `BbgState::insert` in rs/src/state.rs: which signals are refused, what
-- they leave behind, and that a nullifier is spent by one signal only.
use bbg.Prelude.{
  ◌≡◌, ◌≢◌, ◌↔◌, refl, ap, Bool, true, false, ◌||◌, Option, none, some, List, [], ◌∷◌, arith,
  Bool-cases, inl, inr, ◌∙◌, sym, ℕ, ◌⊎◌, ◌==◌, ap₂,
}
use bbg.Prelude.Ord.{beq, beq_iff, eq_of_beq}
use bbg.Bytes.{Bytes32, bytes32_ord}
use bbg.Root.{Hemera}
use bbg.Map
use bbg.Map.Laws.{get-insert}
use bbg.Keyed.{insert as keyed_insert, touched}
use bbg.State.{
  BbgState, Signal, BoxMove, Cyberlink, InsertError, double_spend, is_spent, any_spent, apply_move,
  apply_moves, record_edge, link_axons, link_particles, link_focus, link_balances, apply_link,
  apply_links, insert, axon_id,
}

module _ ⦃H : Hemera⦄ where
  -- Whether some move of the list spends the nullifier.
  unfoldable pub names : Bytes32 → List BoxMove → Bool
  names n [] = false
  names n (mv ∷ moves) = beq n mv.nullifier || names n moves

  is_spent-apply_move :
      (n : Bytes32) (mv : BoxMove) (s : BbgState)
      → is_spent (apply_move mv s) n ≡ (beq n mv.nullifier || is_spent s n)
  unfolding is_spent Map.contains apply_move keyed_insert touched
  is_spent-apply_move n mv s = ground (arith, get-insert mv.nullifier tt s.nullifiers.map n)

  is_spent-apply_moves :
      (n : Bytes32) (moves : List BoxMove) (s : BbgState)
      → is_spent (apply_moves moves s) n ≡ (names n moves || is_spent s n)
  unfolding apply_moves names
  is_spent-apply_moves n [] s = refl
  is_spent-apply_moves n (mv ∷ moves) s =
      ground (arith, is_spent-apply_moves n moves (apply_move mv s), is_spent-apply_move n mv s)

  nullifiers-record_edge :
      (axon : Bytes32) (link : Cyberlink) (s : BbgState)
      → (record_edge axon link s).nullifiers ≡ s.nullifiers
  unfolding record_edge
  nullifiers-record_edge axon link s = ground arith

  nullifiers-link_axons :
      (axon : Bytes32) (link : Cyberlink) (s : BbgState)
      → (link_axons axon link s).nullifiers ≡ s.nullifiers
  unfolding link_axons
  nullifiers-link_axons axon link s = nullifiers-record_edge axon link _

  nullifiers-link_focus :
      (neuron : Bytes32) (link : Cyberlink) (s : BbgState)
      → (link_focus neuron link s).nullifiers ≡ s.nullifiers
  unfolding link_focus
  nullifiers-link_focus neuron link s = ground arith

  nullifiers-apply_link :
      (neuron : Bytes32) (link : Cyberlink) (s : BbgState)
      → (apply_link neuron link s).nullifiers ≡ s.nullifiers
  unfolding apply_link link_particles link_balances
  nullifiers-apply_link neuron link s =
      let axon = axon_id link.from link.to in
      let linked = link_axons axon link s in
      let same : linked.nullifiers ≡ s.nullifiers = nullifiers-link_axons axon link s in
      elim (Bool-cases (link.amount == 0)) [
        | inl e ↦ rw (e, apply_link) same
        | inr e ↦
            rw (e, apply_link, link_balances)
              (nullifiers-link_focus neuron link (link_particles axon link linked) ∙ same)
      ]

  nullifiers-apply_links :
      (neuron : Bytes32) (links : List Cyberlink) (s : BbgState)
      → (apply_links neuron links s).nullifiers ≡ s.nullifiers
  unfolding apply_links
  nullifiers-apply_links neuron [] s = refl
  nullifiers-apply_links neuron (link ∷ links) s =
      nullifiers-apply_links neuron links (apply_link neuron link s)
      ∙ nullifiers-apply_link neuron link s

  -- The check of `insert` by the nullifiers it is about.
  any_spent_iff :
      (s : BbgState) (moves : List BoxMove)
      → (any_spent s moves ≡ true)
        ↔ ((n : Bytes32) × (names n moves ≡ true) × (is_spent s n ≡ true))
  unfolding any_spent names
  any_spent_iff s [] = (λ h. absurd (cc h), λ h. absurd (cc h.1))
  any_spent_iff s (mv ∷ moves) = (
    λ h. elim (Bool-cases (is_spent s mv.nullifier)) [
      | inl e ↦ (mv.nullifier, ground (arith, beq_iff mv.nullifier mv.nullifier), e)
      | inr e ↦
          let later = (any_spent_iff s moves).0 (rw (e, any_spent) at h) in
          (later.0, ground (arith, later.1), later.2)
    ],
    λ h. elim (Bool-cases (beq h.0 mv.nullifier)) [
      | inl e ↦ ground (arith, eq_of_beq h.0 mv.nullifier e, h.2)
      | inr e ↦
          let later = (any_spent_iff s moves).1 (h.0, ground (arith, h.1, e), h.2) in
          ground (arith, later)
    ],
  )

  accepted-spent :
      (s : BbgState) (signal : Signal) (n : Bytes32)
      → is_spent (apply_links signal.neuron signal.links (apply_moves signal.box_moves s)) n
        ≡ (names n signal.box_moves || is_spent s n)
  unfolding is_spent
  accepted-spent s signal n =
      ap (λ k. Map.contains n k.map)
        (nullifiers-apply_links signal.neuron signal.links (apply_moves signal.box_moves s))
      ∙ is_spent-apply_moves n signal.box_moves s

  outcome : (r : Option InsertError) → (r ≡ none) ⊎ (r ≡ some double_spend)
  outcome none = inl refl
  outcome (some double_spend) = inr refl

  -- A signal whose two moves spend one nullifier, into two commitments.
  abbrev pub twice : Bytes32 → Bytes32 → Bytes32 → Bytes32 → ℕ → ℕ → Signal
  twice neuron n p q v w = record {
    neuron = neuron;
    links = [];
    height = 0;
    box_moves =
        record { nullifier = n; commitment = some (p, v) }
        ∷ record { nullifier = n; commitment = some (q, w) }
        ∷ [];
  }

  pub record SpendLaw (s : BbgState) (signal : Signal) (r : BbgState × Option InsertError)
      : Type 0 where
    pub refused :
        (r.1 ≡ some double_spend)
        ↔ ((n : Bytes32) × (names n signal.box_moves ≡ true) × (is_spent s n ≡ true))
    pub unchanged : r.1 ≡ some double_spend → r.0 ≡ s
    pub spent :
        r.1 ≡ none → (n : Bytes32) → is_spent r.0 n ≡ (names n signal.box_moves || is_spent s n)

  -- `insert` refuses a signal exactly if one of its moves spends a nullifier that is spent already,
  -- and then it leaves the state as it was. When it accepts, the spent nullifiers afterwards are
  -- those of the signal and those spent before, and no others.
  pub insert-SpendLaw : (s : BbgState) (signal : Signal) → SpendLaw s signal (insert signal s)
  unfolding insert
  insert-SpendLaw s signal = elim (Bool-cases (any_spent s signal.box_moves)) [
    | inl e ↦
        rw (e, insert)
          (record {
            refused = (λ h. (any_spent_iff s signal.box_moves).0 e, λ h. refl);
            unchanged = λ h. refl;
            spent = λ h. absurd (cc h);
          })
    | inr e ↦
        rw (e, insert)
          (record {
            refused = (
              λ h. absurd (cc h),
              λ h. absurd (cc (sym e ∙ (any_spent_iff s signal.box_moves).1 h)),
            );
            unchanged = λ h. absurd (cc h);
            spent = λ h n. accepted-spent s signal n;
          })
  ]

  -- What is spent stays so, whatever signals follow.
  unfoldable pub run : List Signal → BbgState → BbgState
  run [] s = s
  run (signal ∷ signals) s = run signals (insert signal s).0

  pub is_spent-insert :
      (s : BbgState) (signal : Signal) (n : Bytes32)
      → is_spent s n ≡ true
      → is_spent (insert signal s).0 n ≡ true
  is_spent-insert s signal n h =
      let law = insert-SpendLaw s signal in
      elim (outcome (insert signal s).1) [
        | inl e ↦ law.spent e n ∙ ground (arith, h)
        | inr e ↦ rw (law.unchanged e) h
      ]

  is_spent-run :
      (signals : List Signal) (s : BbgState) (n : Bytes32)
      → is_spent s n ≡ true
      → is_spent (run signals s) n ≡ true
  unfolding run
  is_spent-run [] s n h = h
  is_spent-run (signal ∷ signals) s n h =
      is_spent-run signals (insert signal s).0 n (is_spent-insert s signal n h)

  -- A nullifier is spent by one signal only: once a signal with a move that spends it was accepted,
  -- every later signal with such a move is refused, whatever signals come between, and changes
  -- nothing.
  pub insert_once :
      (s : BbgState) (first : Signal) (between : List Signal) (second : Signal) (n : Bytes32)
      → (insert first s).1 ≡ none
      → names n first.box_moves ≡ true
      → names n second.box_moves ≡ true
      → insert second (run between (insert first s).0)
        ≡ (run between (insert first s).0, some double_spend)
  insert_once s first between second n ok spends again =
      let t = run between (insert first s).0 in
      let spent : is_spent t n ≡ true =
        is_spent-run between (insert first s).0 n
          ((insert-SpendLaw s first).spent ok n ∙ ground (arith, spends)) in
      let law = insert-SpendLaw t second in
      let error = law.refused.1 (n, again, spent) in ap₂ (λ x y. (x, y)) (law.unchanged error) error

  -- Two moves of one signal may spend the same nullifier: if it was not spent before and the two
  -- commitments have distinct points, the signal is accepted, and both commitments are in the state
  -- afterwards.
  pub insert_same_nullifier :
      (s : BbgState) (neuron n p q : Bytes32) (v w : ℕ)
      → is_spent s n ≡ false
      → p ≢ q
      → ((insert (twice neuron n p q v w) s).1 ≡ none)
        × (Map.get p (insert (twice neuron n p q v w) s).0.commitments.map ≡ some (H.new v))
        × (Map.get q (insert (twice neuron n p q v w) s).0.commitments.map ≡ some (H.new w))
  unfolding insert any_spent apply_moves apply_move apply_links keyed_insert touched
  insert_same_nullifier s neuron n p q v w fresh ne =
      let m = s.commitments.map in
      let accepted : any_spent s (twice neuron n p q v w).box_moves ≡ false = rw (fresh) refl in
      let at_p = get-insert q (H.new w) (Map.insert p (H.new v) m) p in
      let at_q = get-insert q (H.new w) (Map.insert p (H.new v) m) q in
      rw (accepted, insert)
        (
          refl,
          at_p ∙ ground (arith, get-insert p (H.new v) m p, beq_iff p q, beq_iff p p, ne),
          at_q ∙ ground (arith, beq_iff q q),
        )
