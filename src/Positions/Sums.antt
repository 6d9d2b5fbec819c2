-- ===== src/Positions/Sums.antt =====
-- The sums of one axon are those of its entry in the snapshot of rs/src/position.rs.
use bbg.Prelude.{
  ℕ, ◌+◌, ◌≡◌, refl, ap, sym, ◌∙◌, true, false, Option, none, some, List, [], ◌∷◌, length,
  if◌then◌else◌, arith, Bool-cases, Option-cases, inl, inr, is_some, All,
}
use bbg.Prelude.Ord.{beq, beq_iff, beq_self}
use bbg.Bytes.{Bytes32, bytes32_ord}
use bbg.Root.{Hemera}
use bbg.Wire.{◌>>=◌}
use bbg.Map
use bbg.Map.{Map}
use bbg.Types.{Side, plus, minus, valence_side, is_active}
use bbg.Cards.{ByAxon, or_default}
use bbg.Map.Sorted.{entries_held}
use bbg.Cards.Index.{IsCards, key_at, listed_recorded}
use bbg.State.{BbgState}
use bbg.Positions.{
  SideSums, Position, AxonPositions, PositionSnapshot, no_sums, add_stake, get_axon, get,
  balance_at, sum_sides, side_sums, axon_positions, positions_from, positions,
}

abbrev pub sum_of : SideSums → ℕ
sum_of sums = sums.plus + sums.minus

abbrev pub stakes : List Position → ℕ
stakes [] = 0
stakes (p ∷ positions) = p.stake + stakes positions

abbrev pub active_stakes : List Position → ℕ
active_stakes [] = 0
active_stakes (p ∷ positions) =
    (if is_active p.card_record.valence then p.stake else 0) + active_stakes positions

-- Over all axons of a snapshot.
abbrev pub over_axons : (List Position → ℕ) → List AxonPositions → ℕ
over_axons f [] = 0
over_axons f (a ∷ axons) = f a.positions + over_axons f axons

sum_of-add_stake :
    (side : Side) (n : ℕ) (sums : SideSums) → sum_of (add_stake side n sums) ≡ sum_of sums + n
unfolding add_stake
sum_of-add_stake plus n sums = omega arith
sum_of-add_stake minus n sums = omega arith

abbrev pub sums_at : Option AxonPositions → Option SideSums
sums_at none = none
sums_at (some a) = some a.sums

module _ ⦃H : Hemera⦄ where
  -- Every card of an index entry has a record.
  abbrev pub AllRecorded : BbgState → Map Bytes32 Bytes32 → Type 0
  AllRecorded s cards =
      (q : Bytes32) → Map.contains q cards ≡ true → Map.contains q s.cards.records.map ≡ true

  not_missing :
      (s : BbgState) (card key : Bytes32) (cards : Map Bytes32 Bytes32)
      → AllRecorded s ((card, key) ∷ cards)
      → Map.get card s.cards.records.map ≡ none
      → ⊥
  unfolding Map.contains Map.get
  not_missing s card key cards all e =
      let here : Map.contains card ((card, key) ∷ cards) ≡ true = ground (arith, beq_self card) in
      let recorded : is_some (Map.get card s.cards.records.map) ≡ true = all card here in
      let no_record : false ≡ true = rw e at recorded in cc no_record

  behind :
      (s : BbgState) (card key : Bytes32) (cards : Map Bytes32 Bytes32)
      → AllRecorded s ((card, key) ∷ cards)
      → AllRecorded s cards
  unfolding Map.contains Map.get
  behind s card key cards all q h = all q (ground (arith, h))

  -- The walk over one axon's cards: what it lists, and what it adds up.
  record AxonLaw (s : BbgState) (cards : Map Bytes32 Bytes32) (sums : SideSums) (active : ℕ)
      : Type 0 where
    pub ps : List Position
    pub last : SideSums
    pub next : ℕ
    pub walk : axon_positions s cards sums active ≡ some (ps, last, next)
    pub sides : sum_sides s cards sums ≡ some last
    pub total : sum_of last ≡ sum_of sums + stakes ps
    pub live : next ≡ active + active_stakes ps

  axon_positions-AxonLaw :
      (s : BbgState) (cards : Map Bytes32 Bytes32) (sums : SideSums) (active : ℕ)
      → AllRecorded s cards
      → AxonLaw s cards sums active
  unfolding axon_positions sum_sides
  axon_positions-AxonLaw s [] sums active all = record {
    ps = [];
    last = sums;
    next = active;
    walk = refl;
    sides = refl;
    total = omega arith;
    live = omega arith;
  }
  axon_positions-AxonLaw s ((card, key) ∷ cards) sums active all =
      elim (Option-cases (Map.get card s.cards.records.map)) [
        | inl e ↦ absurd (not_missing s card key cards all e)
        | inr (r, e) ↦
            let amount = balance_at s key in
            let law =
              axon_positions-AxonLaw s cards (add_stake (valence_side r.valence) amount sums)
                (if is_active r.valence then active + amount else active)
                (behind s card key cards all) in
            record {
              ps = record { card = card; card_record = r; stake = amount } ∷ law.ps;
              last = law.last;
              next = law.next;
              walk = rw (e, law.walk) refl;
              sides = rw (e, law.sides) refl;
              total =
                  omega (arith, law.total, sum_of-add_stake (valence_side r.valence) amount sums);
              live = ground (arith, law.live);
            }
      ]

  flip : (a b : Bytes32) → beq b a ≡ beq a b
  flip a b = ground (arith, beq_iff a b, beq_iff b a)

  -- What the snapshot of the index from here on says.
  record SnapshotLaw (s : BbgState) (b : ByAxon) (len total active : ℕ)
      (r : Option PositionSnapshot) : Type 0 where
    pub snap : PositionSnapshot
    pub taken : r ≡ some snap
    pub sums :
        (axon : Bytes32)
        → sums_at (get snap axon) ≡ (Map.get axon b >>= λ cards. sum_sides s cards no_sums)
    pub counts : snap.len ≡ len + over_axons length snap.axons
    pub totals : snap.total ≡ total + over_axons stakes snap.axons
    pub actives : snap.active ≡ active + over_axons active_stakes snap.axons

  positions_from-SnapshotLaw :
      (s : BbgState) (b : ByAxon) (len total active : ℕ)
      → All (λ e. AllRecorded s e.1) b
      → SnapshotLaw s b len total active (positions_from s b len total active)
  unfolding positions_from get get_axon Map.get
  positions_from-SnapshotLaw s [] len total active all = record {
    snap = record { axons = []; len = len; total = total; active = active };
    taken = refl;
    sums = λ axon. refl;
    counts = omega arith;
    totals = omega arith;
    actives = omega arith;
  }
  positions_from-SnapshotLaw s ((axon, cards) ∷ b) len total active all =
      let one = axon_positions-AxonLaw s cards no_sums active all.0 in
      let more =
        positions_from-SnapshotLaw s b (len + length one.ps) (total + sum_of one.last) one.next
          all.1 in
      record {
        snap = record more.snap {
          axons = record { axon = axon; sums = one.last; positions = one.ps } ∷ more.snap.axons;
        };
        taken = rw (one.walk, more.taken) refl;
        sums = λ q. elim (Bool-cases (beq q axon)) [
          | inl same ↦ rw (same, flip q axon ∙ same, one.sides) refl
          | inr other ↦ rw (other, flip q axon ∙ other) (more.sums q)
        ];
        counts = omega (arith, more.counts);
        totals = omega (arith, more.totals, one.total);
        actives = omega (arith, more.actives, one.live);
      }

  abbrev pub sums_or_none : Option AxonPositions → SideSums
  sums_or_none none = no_sums
  sums_or_none (some a) = a.sums

  pub record PositionsLaw (s : BbgState) (r : Option PositionSnapshot) : Type 0 where
    pub snap : PositionSnapshot
    pub taken : r ≡ some snap
    pub sums : (axon : Bytes32) → side_sums s axon ≡ some (sums_or_none (get snap axon))
    pub counts : snap.len ≡ over_axons length snap.axons
    pub totals : snap.total ≡ over_axons stakes snap.axons
    pub actives : snap.active ≡ over_axons active_stakes snap.axons

  -- Every entry of a well-formed index lists recorded cards only.
  entries-AllRecorded :
      (s : BbgState) (b : ByAxon)
      → IsCards s.cards
      → All (λ e. Map.get e.0 s.cards.by_axon ≡ some e.1) b
      → All (λ e. AllRecorded s e.1) b
  unfolding key_at Map.contains
  entries-AllRecorded s [] v h = tt
  entries-AllRecorded s ((axon, cards) ∷ b) v h = (
    λ q listed. listed_recorded s.cards axon q v.indexed (rw h.0 listed),
    entries-AllRecorded s b v h.1,
  )

  read_sums :
      (s : BbgState) (axon : Bytes32) (o : Option AxonPositions) (m : Option (Map Bytes32 Bytes32))
      → sums_at o ≡ (m >>= λ cards. sum_sides s cards no_sums)
      → ((cards : Map Bytes32 Bytes32)
          → m ≡ some cards
          → is_some (sum_sides s cards no_sums) ≡ true)
      → sum_sides s (or_default m) no_sums ≡ some (sums_or_none o)
  unfolding sum_sides
  read_sums s axon none none h all = refl
  read_sums s axon none (some cards) h all =
      let wrong : false ≡ true = ap is_some h ∙ all cards refl in absurd (cc wrong)
  read_sums s axon (some a) none h all = absurd (cc h)
  read_sums s axon (some a) (some cards) h all = sym h

  -- In a state whose cards are well formed the snapshot is taken without a panic, and so are the
  -- sums of every axon's sides, which are those of its entry in the snapshot, or zero if it has
  -- none. The snapshot counts the positions that it lists, and its total and its active stake add up
  -- theirs.
  pub positions-PositionsLaw : (s : BbgState) → IsCards s.cards → PositionsLaw s (positions s)
  unfolding positions side_sums
  positions-PositionsLaw s v =
      let held = entries_held s.cards.by_axon v.sorted in
      let law =
        positions_from-SnapshotLaw s s.cards.by_axon 0 0 0
          (entries-AllRecorded s s.cards.by_axon v held) in
      record {
        snap = law.snap;
        taken = law.taken;
        sums = λ axon.
            read_sums s axon (get law.snap axon) (Map.get axon s.cards.by_axon) (law.sums axon)
              (λ cards e. summed cards (entry axon cards e));
        counts = omega (arith, law.counts);
        totals = omega (arith, law.totals);
        actives = omega (arith, law.actives);
      }
    where
      entry :
          (axon : Bytes32) (cards : Map Bytes32 Bytes32)
          → Map.get axon s.cards.by_axon ≡ some cards
          → AllRecorded s cards
      entry axon cards e = (entries-AllRecorded s ((axon, cards) ∷ []) v (e, tt)).0

      summed :
          (cards : Map Bytes32 Bytes32)
          → AllRecorded s cards
          → is_some (sum_sides s cards no_sums) ≡ true
      summed cards all = rw (axon_positions-AxonLaw s cards no_sums 0 all).sides refl
