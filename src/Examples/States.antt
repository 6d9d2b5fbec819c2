-- ===== src/Examples/States.antt =====
-- The theorems on the state's signals at concrete inputs.
use bbg.Prelude.{ℕ, ◌≡◌, ◌≢◌, refl, ap, Bool, true, false, Option, none, some, List, [], ◌∷◌}
use bbg.Bytes.{bytes32_ord}
use bbg.Map
use bbg.Keyed.{bytes32_key, empty as keyed_empty}
use bbg.AxonIndex.{AxonIndex, add, empty as axons_empty}
use bbg.AxonIndex.AddLaw.{AddLaw, IsMirror, empty-IsMirror, add-AddLaw}
use bbg.State.Invariant.{IsState, new-IsState}
use bbg.State.{BbgState, new, Signal, Cyberlink, is_spent, insert}
use bbg.State.Spends.{SpendLaw, insert-SpendLaw, insert_same_nullifier, names, twice}
use bbg.State.Balances.{HasNoZero, insert-HasNoZero}
use bbg.Examples.Toy.{num, zeros, low, high, mixed, toy}

abbrev blank : BbgState
blank = new

abbrev link : Cyberlink
link = record { from = low; to = high; token = mixed; amount = 7; valence = 1 }

-- Two signals that spend the same nullifier, and one that spends another.
abbrev first : Signal
first = record {
  height = 1;
  neuron = mixed;
  links = link ∷ [];
  box_moves = record { nullifier = low; commitment = some (high, 5) } ∷ [];
}

abbrev between : Signal
between = record {
  height = 1;
  neuron = mixed;
  links = [];
  box_moves = record { nullifier = high; commitment = none } ∷ [];
}

abbrev second : Signal
second = record {
  height = 2;
  neuron = zeros;
  links = link ∷ [];
  box_moves = record { nullifier = low; commitment = none } ∷ [];
}

insert-SpendLaw_example : SpendLaw blank first (insert first blank)
insert-SpendLaw_example = insert-SpendLaw blank first

first-accepted : (insert first blank).1 ≡ none
unfolding insert is_spent Map.contains Map.get keyed_empty new
first-accepted = refl

names-first : names low first.box_moves ≡ true
unfolding names bytes32_ord bbg.Prelude.Ord.cmp_list
names-first = refl

names-second : names low second.box_moves ≡ true
unfolding names bytes32_ord bbg.Prelude.Ord.cmp_list
names-second = refl

low-high : low ≢ high
low-high e = cc (ap (λ b. b.0) e)

mixed-unspent : is_spent blank mixed ≡ false
unfolding is_spent Map.contains Map.get keyed_empty new
mixed-unspent = refl

insert_same_nullifier_example :
    ((insert (twice zeros mixed low high 3 4) blank).1 ≡ none)
    × (Map.get low (insert (twice zeros mixed low high 3 4) blank).0.commitments.map ≡ some (num 3))
    × (Map.get high (insert (twice zeros mixed low high 3 4) blank).0.commitments.map
        ≡ some (num 4))
insert_same_nullifier_example =
    insert_same_nullifier blank zeros mixed low high 3 4 mixed-unspent low-high

blank-HasNoZero : HasNoZero blank.balances
unfolding Map.get keyed_empty new
blank-HasNoZero key b e = absurd (cc e)

insert-HasNoZero_example : HasNoZero (insert first blank).0.balances
insert-HasNoZero_example = insert-HasNoZero blank first blank-HasNoZero

blank-IsState : IsState blank
blank-IsState = new-IsState

abbrev index : AxonIndex
index = (add low mixed axons_empty).0

index-IsMirror : IsMirror index
index-IsMirror = (add-AddLaw low mixed axons_empty empty-IsMirror).mirror

add-AddLaw_example : AddLaw low high index (add low high index)
add-AddLaw_example = add-AddLaw low high index index-IsMirror
