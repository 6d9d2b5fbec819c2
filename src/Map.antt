-- ===== src/Map.antt =====
-- `BTreeMap` and `BTreeSet` as the program uses them: the entries in ascending order of their keys.
-- Laws.antt says what each operation does to every key, Sorted.antt that the order is kept and that
-- two maps with the same entries are the same.
pub mod Laws
pub mod Sorted
use Prim.Native.Nat.Ordering.{lt, eq, gt}
use bbg.Prelude.{ℕ, Bool, Option, none, some, List, [], ◌∷◌, if◌then◌else◌, is_some}
use bbg.Prelude.Ord.{Ord, beq}

-- `BTreeMap<K, V>`
abbrev pub Map {ℓ} : Type ℓ → Type ℓ → Type ℓ
Map K V = List (K × V)

module _ {K V : Type 0} ⦃o : Ord K⦄ where
  unfoldable pub get : K → Map K V → Option V
  get k [] = none
  get k ((j, v) ∷ m) = if beq k j then some v else get k m

  -- `contains_key`
  unfoldable pub contains : K → Map K V → Bool
  unfolding get
  contains k m = is_some (get k m)

  unfoldable pub insert : K → V → Map K V → Map K V
  insert k v [] = (k, v) ∷ []
  insert k v ((j, w) ∷ m) = elim (o.cmp k j) [
    | lt ↦ (k, v) ∷ (j, w) ∷ m
    | eq ↦ (k, v) ∷ m
    | gt ↦ (j, w) ∷ insert k v m
  ]

  -- A key occurs once in a map; every entry under it goes.
  unfoldable pub remove : K → Map K V → Map K V
  remove k [] = []
  remove k ((j, w) ∷ m) = let rest = remove k m in if beq k j then rest else (j, w) ∷ rest
