-- ===== src/Transition/Amounts.antt =====
-- A validated signal of rs/src/transition/mod.rs moves its amounts exactly.
use bbg.Prelude.{
  ℕ, ◌+◌, ◌-◌, ◌≤◌, ◌≡◌, refl, ap, sym, subst, ◌∙◌, false, none, List, [], ◌∷◌, if◌then◌else◌,
  arith, Bool-cases, inl, inr, ltb, ◌==◌, fun_ext,
}
use bbg.Prelude.Ord.{beq, eq_of_beq}
use bbg.Bytes.{Bytes32, bytes32_ord}
use bbg.Root.{Hemera}
use bbg.Map
use bbg.Map.{Map}
use bbg.Map.Laws.{get-insert, get-remove}
use bbg.Types.{SignalRecord}
use bbg.Keyed
use bbg.Keyed.{Keyed, bytes32_key, u64_value}
use bbg.State
use bbg.State.{
  BbgState, Signal, Cyberlink, balance_key, u64_max, saturating_add, credited, debited, credit,
  debit, link_axons, link_focus, link_particles, link_balances, apply_link, apply_links,
  apply_moves, any_spent, axon_id,
}
use bbg.State.Balances.{balances-link_axons, balances-link_focus, balances-apply_moves}
use bbg.Transition.{or_zero, running, run_link, check_links, validate}
use bbg.Transition.Spending.{validated, validate-AreFresh, AreFresh-any_spent}

module _ ⦃H : Hemera⦄ where
  -- What every account holds.
  abbrev pub Accounts : Type 0
  Accounts = Bytes32 → ℕ

  -- One link: its amount to the account of its target, and then as much as there is of it from the
  -- account of its source.
  unfoldable pub moved : Cyberlink → Accounts → Accounts
  moved link f key =
      let to = balance_key link.to link.token in
      let from = balance_key link.from link.token in
      let after = λ (k : Bytes32). if beq k to then f k + link.amount else f k in
      if beq key from then after key - link.amount else after key

  unfoldable pub moved_all : List Cyberlink → Accounts → Accounts
  unfolding moved
  moved_all [] f = f
  moved_all (link ∷ links) f = moved_all links (moved link f)

  abbrev pub accounts : BbgState → Accounts
  accounts s key = or_zero (Map.get key s.balances.map)

  -- No credit of the links, one after another, exceeds a `u64`.
  abbrev pub CreditsFit : Accounts → List Cyberlink → Type 0
  CreditsFit f [] = Unit
  CreditsFit f (link ∷ links) =
      (f (balance_key link.to link.token) + link.amount ≤ u64_max) × CreditsFit (moved link f) links

  running-run_link :
      (s : BbgState) (balances : Map Bytes32 ℕ) (link : Cyberlink) (key : Bytes32)
      → running s (run_link s balances link) key ≡ moved link (running s balances) key
  unfolding running run_link moved
  running-run_link s balances link key =
      let to = balance_key link.to link.token in
      let from = balance_key link.from link.token in
      let more = running s balances to + link.amount in
      let credited = Map.insert to more balances in
      ground (
        arith,
        get-insert from (running s credited from - link.amount) credited key,
        get-insert to more balances key,
        get-insert to more balances from,
        eq_of_beq key from,
        eq_of_beq key to,
        eq_of_beq from to,
      )

  check_links-CreditsFit :
      (s : BbgState) (balances : Map Bytes32 ℕ) (links : List Cyberlink)
      → check_links s balances links ≡ none
      → CreditsFit (running s balances) links
  unfolding check_links
  check_links-CreditsFit s balances [] h = tt
  check_links-CreditsFit s balances (link ∷ links) h =
      elim (Bool-cases
        (ltb u64_max (running s balances (balance_key link.to link.token) + link.amount))) [
          | inl e ↦ absurd (cc (rw e at h))
          | inr e ↦
              let rest = check_links-CreditsFit s (run_link s balances link) links (rw e at h) in
              (
                ground (arith, e),
                subst (λ f. CreditsFit f links)
                    (fun_ext (λ key. running-run_link s balances link key)) rest,
              )
        ]

  -- The account of a key after a credit that fits, and after a debit.
  credit-exact :
      (key : Bytes32) (amount : ℕ) (k : Keyed Bytes32 ℕ) (q : Bytes32)
      → or_zero (Map.get key k.map) + amount ≤ u64_max
      → or_zero (Map.get q (credit key amount k).map)
        ≡ (if beq q key then or_zero (Map.get q k.map) + amount else or_zero (Map.get q k.map))
  unfolding credit Keyed.insert Keyed.touched saturating_add
  credit-exact key amount k q fits =
      let next = credited amount (Map.get key k.map) in
      ground (arith, get-insert key next k.map q, eq_of_beq q key, fits)

  debit-exact :
      (key : Bytes32) (amount : ℕ) (k : Keyed Bytes32 ℕ) (q : Bytes32)
      → or_zero (Map.get q (debit key amount k).map)
        ≡ (if beq q key then or_zero (Map.get q k.map) - amount else or_zero (Map.get q k.map))
  unfolding debit Keyed.insert Keyed.remove Keyed.touched
  debit-exact key amount k q =
      let next = debited amount (Map.get key k.map) in
      ground (arith, get-insert key next k.map q, get-remove key k.map q, eq_of_beq q key)

  moved_nothing :
      (link : Cyberlink) (f : Accounts) (key : Bytes32) → link.amount ≡ 0 → moved link f key ≡ f key
  unfolding moved
  moved_nothing link f key h = ground (arith, h)

  pair-moved :
      (link : Cyberlink) (k : Keyed Bytes32 ℕ) (key : Bytes32)
      → or_zero (Map.get (balance_key link.to link.token) k.map) + link.amount ≤ u64_max
      → or_zero (
          Map.get key
            (debit
              (balance_key link.from link.token)
              link.amount
              (credit (balance_key link.to link.token) link.amount k)).map)
        ≡ moved link (λ q. or_zero (Map.get q k.map)) key
  unfolding moved
  pair-moved link k key fits =
      let to = balance_key link.to link.token in
      let from = balance_key link.from link.token in
      let after = credit to link.amount k in
      ground (arith, debit-exact from link.amount after key, credit-exact to link.amount k key fits)

  apply_link-moved :
      (neuron : Bytes32) (link : Cyberlink) (s : BbgState)
      → accounts s (balance_key link.to link.token) + link.amount ≤ u64_max
      → (key : Bytes32) → accounts (apply_link neuron link s) key ≡ moved link (accounts s) key
  unfolding apply_link link_particles link_balances
  apply_link-moved neuron link s fits key =
      let axon = axon_id link.from link.to in
      let linked = link_axons axon link s in
      let before = link_focus neuron link (link_particles axon link linked) in
      let same : linked.balances ≡ s.balances = balances-link_axons axon link s in
      let kept : before.balances ≡ s.balances =
        balances-link_focus neuron link (link_particles axon link linked) ∙ same in
      elim (Bool-cases (link.amount == 0)) [
        | inl e ↦
            rw (e, apply_link)
              (ap (λ k. or_zero (Map.get key k.map)) same
                ∙ sym (moved_nothing link (accounts s) key (ground (arith, e))))
        | inr e ↦ rw (e, apply_link, link_balances) (rw kept (pair-moved link s.balances key fits))
      ]

  apply_links-moved_all :
      (neuron : Bytes32) (links : List Cyberlink) (s : BbgState)
      → CreditsFit (accounts s) links
      → (key : Bytes32)
      → accounts (apply_links neuron links s) key ≡ moved_all links (accounts s) key
  unfolding apply_links moved_all
  apply_links-moved_all neuron [] s fit key = refl
  apply_links-moved_all neuron (link ∷ links) s fit key =
      let one : accounts (apply_link neuron link s) ≡ moved link (accounts s) =
        fun_ext (λ q. apply_link-moved neuron link s fit.0 q) in
      apply_links-moved_all neuron links (apply_link neuron link s)
        (subst (λ f. CreditsFit f links) (sym one) fit.1) key
      ∙ ap (λ f. moved_all links f key) one

  running_start : (s : BbgState) (q : Bytes32) → running s [] q ≡ accounts s q
  unfolding running Map.get
  running_start s q = refl

  -- If `validate` accepts a signal, `BbgState::insert` moves its amounts without saturation: every
  -- account then holds what it held, with each link's amount added to the account of its target
  -- and as much as there is of it taken from the account of its source, link after link.
  pub validate-moved_all :
      (s : BbgState) (signal : Signal) (key : Bytes32) (header : SignalRecord)
      → validate s signal key header ≡ none
      → (account : Bytes32)
      → accounts (State.insert signal s).0 account ≡ moved_all signal.links (accounts s) account
  unfolding State.insert
  validate-moved_all s signal key header h account =
      let fit = check_links-CreditsFit s [] signal.links (validated s signal key header h).1 in
      let before = apply_moves signal.box_moves s in
      let same : accounts before ≡ accounts s =
        ap (λ k q. or_zero (Map.get q k.map)) (balances-apply_moves signal.box_moves s) in
      let start : running s [] ≡ accounts before = fun_ext (λ q. running_start s q) ∙ sym same in
      let unspent : any_spent s signal.box_moves ≡ false =
        AreFresh-any_spent s [] signal.box_moves (validate-AreFresh s signal key header h).0 in
      rw (unspent) (
        apply_links-moved_all signal.neuron signal.links before
          (subst (λ f. CreditsFit f signal.links) start fit) account)
      ∙ ap (λ f. moved_all signal.links f account) same
