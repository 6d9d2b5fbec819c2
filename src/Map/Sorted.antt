-- ===== src/Map/Sorted.antt =====
-- The entries of a map stay in ascending order, so that a map is determined by what it holds and its
-- length counts its keys.
use Prim.Native.Nat.Ordering.{lt, eq, gt}
use bbg.Prelude.{
  ◌+◌, ◌≡◌, refl, none, some, [], ◌∷◌, All, Ordering, if◌then◌else◌, arith, length, Bool-cases, inl,
  inr, ◌⊎◌,
}
use bbg.Prelude.Ord.{Ord, beq, eq_of_beq, beq_self}
use bbg.Map.{Map, get, contains, insert, remove}

pub Ordering-cases : (c : Ordering) → (c ≡ lt) ⊎ (c ≡ eq) ⊎ (c ≡ gt)
Ordering-cases lt = inl refl
Ordering-cases eq = inr (inl refl)
Ordering-cases gt = inr (inr refl)

module _ {K V : Type 0} ⦃o : Ord K⦄ where
  abbrev pub Above : K → Map K V → Type 0
  Above k m = All (λ e. o.cmp k e.0 ≡ lt) m

  abbrev pub IsSorted : Map K V → Type 0
  IsSorted [] = Unit
  IsSorted ((k, v) ∷ m) = Above k m × IsSorted m

  pub Above-trans : (k j : K) (m : Map K V) → o.cmp k j ≡ lt → Above j m → Above k m
  Above-trans k j [] h a = tt
  Above-trans k j ((i, v) ∷ m) h a = (o.lt_trans k j i h a.0, Above-trans k j m h a.1)

  Above-insert :
      (j k : K) (v : V) (m : Map K V) → o.cmp j k ≡ lt → Above j m → Above j (insert k v m)
  unfolding insert
  Above-insert j k v [] h a = (h, tt)
  Above-insert j k v ((i, w) ∷ m) h a = ground (arith, Above-insert j k v m h)

  Above-remove : (j k : K) (m : Map K V) → Above j m → Above j (remove k m)
  unfolding remove
  Above-remove j k [] a = tt
  Above-remove j k ((i, w) ∷ m) a = ground (arith, Above-remove j k m)

  pub insert-IsSorted : (k : K) (v : V) (m : Map K V) → IsSorted m → IsSorted (insert k v m)
  unfolding insert
  insert-IsSorted k v [] s = (tt, tt)
  insert-IsSorted k v ((j, w) ∷ m) s = ground (
    arith,
    insert-IsSorted k v m,
    Above-trans k j m,
    Above-insert j k v m,
    o.lt_of_gt k j,
    o.eq_of_cmp k j,
  )

  pub remove-IsSorted : (k : K) (m : Map K V) → IsSorted m → IsSorted (remove k m)
  unfolding remove
  remove-IsSorted k [] s = tt
  remove-IsSorted k ((j, w) ∷ m) s = ground (arith, remove-IsSorted k m, Above-remove j k m)

  pub get-Above : (k : K) (m : Map K V) → Above k m → get k m ≡ none
  unfolding get
  get-Above k [] a = refl
  get-Above k ((j, w) ∷ m) a = ground (arith, get-Above k m)

  abbrev pub SameGets : Map K V → Map K V → Type 0
  SameGets m n = (q : K) → get q m ≡ get q n

  -- A map is determined by what it holds.
  pub ext : (m n : Map K V) → IsSorted m → IsSorted n → SameGets m n → m ≡ n
  unfolding get
  ext [] [] s t h = refl
  ext [] ((j, w) ∷ n) s t h = ground (arith, h j, o.cmp_refl j)
  ext ((k, v) ∷ m) [] s t h = ground (arith, h k, o.cmp_refl k)
  ext ((k, v) ∷ m) ((j, w) ∷ n) s t h = elim (Ordering-cases (o.cmp k j)) [
    | inl before ↦
        let gone = get-Above k n (Above-trans k j n before t.0) in
        ground (arith, h k, o.cmp_refl k, gone)
    | inr (inl same) ↦
        let e : k ≡ j = o.eq_of_cmp k j same in
        let tails : m ≡ n = ext m n s.1 t.1 (λ q. tail_gets q e) in
        ground (arith, tails, e, h k, o.cmp_refl k)
    | inr (inr after) ↦
        let before = o.lt_of_gt k j after in
        let gone = get-Above j m (Above-trans j k m before s.0) in
        ground (arith, h j, o.cmp_refl j, gone)
  ]
    where
      tail_gets : (q : K) → k ≡ j → get q m ≡ get q n
      tail_gets q e = elim (Bool-cases (beq q k)) [
        | inl here ↦
            let a = get-Above k m s.0 in
            let b = get-Above j n t.0 in ground (arith, a, b, e, eq_of_beq q k here)
        | inr there ↦ ground (arith, h q, e, there)
      ]

  pub length-insert :
      (k : K) (v : V) (m : Map K V)
      → IsSorted m
      → length (insert k v m) ≡ (if contains k m then length m else length m + 1)
  unfolding insert contains
  length-insert k v [] s = omega arith
  length-insert k v ((j, w) ∷ m) s =
      ground (arith, length-insert k v m s.1, o.eq_of_cmp k j, get-Above k m, Above-trans k j m)

  -- Each entry of a sorted map is what the map holds under its key.
  pub entries_held : (m : Map K V) → IsSorted m → All (λ e. get e.0 m ≡ some e.1) m
  unfolding get
  entries_held [] s = tt
  entries_held ((k, v) ∷ m) s = (ground (arith, beq_self k), behind m s.0 (entries_held m s.1))
    where
      behind :
          (n : Map K V)
          → Above k n
          → All (λ e. get e.0 m ≡ some e.1) n
          → All (λ e. get e.0 ((k, v) ∷ m) ≡ some e.1) n
      behind [] a h = tt
      behind (e ∷ n) a h = (ground (arith, a.0, h.0, o.gt_of_lt k e.0), behind n a.1 h.1)
