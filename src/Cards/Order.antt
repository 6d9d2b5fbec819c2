-- ===== src/Cards/Order.antt =====
-- rs/src/position.rs: the axons of the index of `Cards` stay in ascending order.
use bbg.Prelude.{◌≡◌, Option, none, some, [], ◌∷◌, Bool-cases, Option-cases, inl, inr}
use bbg.Prelude.Ord.{beq}
use bbg.Bytes.{Bytes32, bytes32_ord}
use bbg.Root.{Hemera}
use bbg.Map
use bbg.Map.{Map}
use bbg.Map.Sorted.{IsSorted, insert-IsSorted, remove-IsSorted}
use bbg.Types.{CardRecord}
use bbg.Cards.{ByAxon, put_back, drop_card, unindex, index, stake_key, reindex, unindex_old}

put_back-IsSorted :
    (axon : Bytes32) (cards : Map Bytes32 Bytes32) (b : ByAxon)
    → IsSorted b
    → IsSorted (put_back axon cards b)
unfolding put_back
put_back-IsSorted axon [] b v = remove-IsSorted axon b v
put_back-IsSorted axon (first ∷ cards) b v = insert-IsSorted axon (first ∷ cards) b v

index-IsSorted :
    (axon card key : Bytes32) (b : ByAxon) → IsSorted b → IsSorted (index axon card key b)
unfolding index
index-IsSorted axon card key b v = insert-IsSorted axon _ b v

unindex-IsSorted :
    (axon card : Bytes32) (b next : ByAxon) (key : Bytes32)
    → IsSorted b
    → unindex axon card b ≡ some (next, key)
    → IsSorted next
unfolding unindex drop_card
unindex-IsSorted axon card b next key v h = elim (Option-cases (Map.get axon b)) [
  | inl e ↦ absurd (cc (rw e at h))
  | inr (cards, e) ↦ elim (Option-cases (Map.get card cards)) [
    | inl f ↦ absurd (cc (rw (e, f) at h))
    | inr (k, f) ↦
        let same : some (put_back axon (Map.remove card cards) b, k) ≡ some (next, key) =
          rw (e, f) at h in
        let out : put_back axon (Map.remove card cards) b ≡ next = cc same in
        rw (← out) (put_back-IsSorted axon (Map.remove card cards) b v)
  ]
]

module _ ⦃H : Hemera⦄ where
  pub unindex_old-IsSorted :
      (card : Bytes32) (old : Option CardRecord) (b next : ByAxon)
      → IsSorted b
      → unindex_old card old b ≡ some next
      → IsSorted next
  unfolding unindex_old
  unindex_old-IsSorted card none b next v h = let same : b ≡ next = cc h in rw (← same) v
  unindex_old-IsSorted card (some o) b next v h = elim (Option-cases (unindex o.particle card b)) [
    | inl e ↦ absurd (cc (rw e at h))
    | inr ((left, key), e) ↦
        let out : some left ≡ some next = rw e at h in
        let same : left ≡ next = cc out in
        rw (← same) (unindex-IsSorted o.particle card b left key v e)
  ]

  pub reindex-IsSorted :
      (card : Bytes32) (r : CardRecord) (old : Option CardRecord) (b next : ByAxon)
      → IsSorted b
      → reindex card r old b ≡ some next
      → IsSorted next
  unfolding reindex
  reindex-IsSorted card r none b next v h =
      let same : index r.particle card (stake_key card) b ≡ next = cc h in
      rw (← same) (index-IsSorted r.particle card (stake_key card) b v)
  reindex-IsSorted card r (some o) b next v h = elim (Bool-cases (beq o.particle r.particle)) [
    | inl stay ↦
        let out : some b ≡ some next = rw stay at h in let same : b ≡ next = cc out in rw (← same) v
    | inr move ↦ elim (Option-cases (unindex o.particle card b)) [
      | inl e ↦ absurd (cc (rw (move, e) at h))
      | inr ((left, key), e) ↦
          let out : some (index r.particle card key left) ≡ some next = rw (move, e) at h in
          let same : index r.particle card key left ≡ next = cc out in
          rw (← same) (
            index-IsSorted r.particle card key left
              (unindex-IsSorted o.particle card b left key v e))
    ]
  ]
