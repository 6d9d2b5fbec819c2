-- ===== src/Positions.antt =====
-- rs/src/position.rs: the stakes of `BbgState`, the sums of an axon's sides and the snapshot of all
-- positions. Stakes are `u64` and their sums `u128`, natural numbers here: no state has so many
-- cards that a sum of stakes wraps. The indexing `self.cards[card]` panics on a card without a
-- record, which is `none` here.
pub mod Sums
use bbg.Prelude.{
  ℕ, ◌+◌, Bool, true, false, Option, none, some, List, [], ◌∷◌, length, if◌then◌else◌,
}
use bbg.Prelude.Ord.{beq}
use bbg.Bytes.{Bytes32, bytes32_ord}
use bbg.Root.{Hemera}
use bbg.Wire.{◌>>=◌}
use bbg.Map
use bbg.Map.{Map}
use bbg.Types.{CardRecord, Side, plus, minus, valence_side, is_active}
use bbg.Cards.{ByAxon, stake_key, focus_key, or_default}
use bbg.State.{BbgState}

pub record SideSums : Type 0 where
  pub plus : ℕ
  pub minus : ℕ

abbrev pub no_sums : SideSums
no_sums = record { plus = 0; minus = 0 }

-- `SideSums::add`
unfoldable pub add_stake : Side → ℕ → SideSums → SideSums
add_stake plus stake sums = record sums { plus = sums.plus + stake }
add_stake minus stake sums = record sums { minus = sums.minus + stake }

pub record Position : Type 0 where
  pub card : Bytes32
  pub card_record : CardRecord
  pub stake : ℕ

pub record AxonPositions : Type 0 where
  pub axon : Bytes32
  pub sums : SideSums
  pub positions : List Position

pub record PositionSnapshot : Type 0 where
  pub axons : List AxonPositions
  pub len : ℕ
  pub total : ℕ
  pub active : ℕ

-- `get` and `find`: the axons, and the cards of each, ascend and are distinct, so that the binary
-- search finds the entry that a walk finds.
unfoldable pub get_axon : Bytes32 → List AxonPositions → Option AxonPositions
get_axon axon [] = none
get_axon axon (a ∷ axons) =
    let rest = get_axon axon axons in if beq a.axon axon then some a else rest

unfoldable pub find_card : Bytes32 → List Position → Option Position
find_card card [] = none
find_card card (p ∷ positions) =
    let rest = find_card card positions in if beq p.card card then some p else rest

unfoldable pub get : PositionSnapshot → Bytes32 → Option AxonPositions
unfolding get_axon
get snap axon = get_axon axon snap.axons

unfoldable pub find : PositionSnapshot → Bytes32 → Bytes32 → Option Position
unfolding get find_card
find snap axon card = get snap axon >>= λ a. find_card card a.positions

abbrev pub or_zero : Option ℕ → ℕ
or_zero none = 0
or_zero (some n) = n

module _ ⦃H : Hemera⦄ where
  unfoldable pub balance_at : BbgState → Bytes32 → ℕ
  balance_at s key = or_zero (Map.get key s.balances.map)

  unfoldable pub stake : BbgState → Bytes32 → ℕ
  unfolding balance_at
  stake s card = balance_at s (stake_key card)

  unfoldable pub focus_pool : BbgState → Bytes32 → ℕ
  unfolding balance_at
  focus_pool s token = balance_at s (focus_key token)

  -- The loop of `side_sums` over `indexed`.
  unfoldable pub sum_sides : BbgState → Map Bytes32 Bytes32 → SideSums → Option SideSums
  unfolding balance_at add_stake
  sum_sides s [] sums = some sums
  sum_sides s ((card, key) ∷ cards) sums = Map.get card s.cards.records.map >>= λ r.
      sum_sides s cards (add_stake (valence_side r.valence) (balance_at s key) sums)

  unfoldable pub side_sums : BbgState → Bytes32 → Option SideSums
  unfolding sum_sides
  side_sums s axon = sum_sides s (or_default (Map.get axon s.cards.by_axon)) no_sums

  -- The positions of one axon, with the sums and the active stake after them.
  unfoldable pub axon_positions :
      BbgState → Map Bytes32 Bytes32 → SideSums → ℕ → Option (List Position × SideSums × ℕ)
  unfolding balance_at add_stake
  axon_positions s [] sums active = some ([], sums, active)
  axon_positions s ((card, key) ∷ cards) sums active = Map.get card s.cards.records.map >>= λ r.
      let amount = balance_at s key in
      axon_positions s cards (add_stake (valence_side r.valence) amount sums)
        (if is_active r.valence then active + amount else active)
      >>= λ (rest, last, total).
          some (record { card = card; card_record = r; stake = amount } ∷ rest, last, total)

  -- The loop of `positions`; the snapshot's `axons` are those from here on.
  unfoldable pub positions_from : BbgState → ByAxon → ℕ → ℕ → ℕ → Option PositionSnapshot
  unfolding axon_positions
  positions_from s [] len total active =
      some (record { axons = []; len = len; total = total; active = active })
  positions_from s ((axon, cards) ∷ more) len total active =
      axon_positions s cards no_sums active >>= λ (positions, sums, next).
      positions_from s more (len + length positions) (total + (sums.plus + sums.minus)) next
      >>= λ snap. some (record snap {
        axons = record { axon = axon; sums = sums; positions = positions } ∷ snap.axons;
      })

  unfoldable pub positions : BbgState → Option PositionSnapshot
  unfolding positions_from
  positions s = positions_from s s.cards.by_axon 0 0 0
