-- ===== src/Cards/Index.antt =====
-- rs/src/position.rs: the index of `Cards` mirrors the records, so that no `expect` fails.
use bbg.Prelude.{
  ◌≡◌, refl, ◌∙◌, true, Option, none, some, [], ◌∷◌, if◌then◌else◌, arith, Bool-cases, Option-cases,
  inl, inr, is_some,
}
use bbg.Prelude.Ord.{beq, eq_of_beq, beq_self}
use bbg.Bytes.{Bytes32, bytes32_ord}
use bbg.Root.{Hemera}
use bbg.Map
use bbg.Map.{Map}
use bbg.Map.Laws.{get-insert, get-remove}
use bbg.Types.{CardRecord}
use bbg.Commits.{card_value}
use bbg.Keyed
use bbg.Keyed.{Keyed, bytes32_key}
use bbg.Keyed.Invariant.{
  IsKeyed, empty-IsKeyed, insert-IsKeyed, remove-IsKeyed, remove_old, remove_gets,
}
use bbg.Map.Sorted.{IsSorted}
use bbg.Cards.Order.{reindex-IsSorted, unindex_old-IsSorted}
use bbg.Cards.{
  ByAxon, Cards, or_default, put_back, drop_card, unindex, index, stake_key, new, reindex, insert,
  unindex_old, remove, records_of, on_axon,
}

-- The key that the index has for a card under an axon.
unfoldable pub key_at : Bytes32 → Bytes32 → ByAxon → Option Bytes32
key_at axon card by_axon = Map.get card (or_default (Map.get axon by_axon))

pub key_at-index :
    (axon card key : Bytes32) (by_axon : ByAxon) (a c : Bytes32)
    → key_at a c (index axon card key by_axon) ≡ (
        if beq a axon
        then (if beq c card then some key else key_at a c by_axon)
        else key_at a c by_axon)
unfolding key_at index
key_at-index axon card key by_axon a c = elim (Bool-cases (beq a axon)) [
  | inl e ↦
      rw
        (
          get-insert axon (Map.insert card key (or_default (Map.get axon by_axon))) by_axon a,
          e,
          get-insert card key (or_default (Map.get axon by_axon)) c,
          eq_of_beq a axon e,
        )
        refl
  | inr e ↦
      rw (get-insert axon (Map.insert card key (or_default (Map.get axon by_axon))) by_axon a, e)
        refl
]

or_default-put_back :
    (axon : Bytes32) (cards : Map Bytes32 Bytes32) (by_axon : ByAxon) (a : Bytes32)
    → or_default (Map.get a (put_back axon cards by_axon))
      ≡ (if beq a axon then cards else or_default (Map.get a by_axon))
unfolding put_back
or_default-put_back axon [] by_axon a = ground (arith, get-remove axon by_axon a)
or_default-put_back axon (first ∷ cards) by_axon a =
    ground (arith, get-insert axon (first ∷ cards) by_axon a)

-- A card that is in the index goes from it, and nothing else does.
pub unindex_lem :
    (axon card key : Bytes32) (by_axon : ByAxon)
    → key_at axon card by_axon ≡ some key
    → (next : ByAxon) × (unindex axon card by_axon ≡ some (next, key))
      × ((a c : Bytes32)
          → key_at a c next ≡ (
              if beq a axon
              then (if beq c card then none else key_at a c by_axon)
              else key_at a c by_axon))
unfolding unindex drop_card key_at
unindex_lem axon card key by_axon h = elim (Option-cases (Map.get axon by_axon)) [
  | inl e ↦ let nothing : none ≡ some key = unfold Map.get in rw e at h in absurd (cc nothing)
  | inr e ↦
      let found : Map.get card e.0 ≡ some key = rw e.1 at h in
      (put_back axon (Map.remove card e.0) by_axon, rw (e.1, found) refl, λ a c. gets a c e.0 e.1)
]
  where
    gets :
        (a c : Bytes32) (cards : Map Bytes32 Bytes32)
        → Map.get axon by_axon ≡ some cards
        → key_at a c (put_back axon (Map.remove card cards) by_axon) ≡ (
            if beq a axon
            then (if beq c card then none else key_at a c by_axon)
            else key_at a c by_axon)
    gets a c cards e = elim (Bool-cases (beq a axon)) [
      | inl same ↦
          rw
            (
              or_default-put_back axon (Map.remove card cards) by_axon a,
              same,
              eq_of_beq a axon same,
              e,
            )
            (get-remove card cards c)
      | inr other ↦ rw (or_default-put_back axon (Map.remove card cards) by_axon a, other) refl
    ]

module _ ⦃H : Hemera⦄ where
  -- The key that the index is to have for a card under an axon.
  unfoldable pub key_of : Bytes32 → Bytes32 → Option CardRecord → Option Bytes32
  key_of axon card none = none
  key_of axon card (some r) = if beq axon r.particle then some (stake_key card) else none

  -- The index has each card of the records, under its axon, with its stake key, and nothing else.
  unfoldable pub IsIndexed : Cards → Type 0
  IsIndexed c =
      (axon card : Bytes32)
      → key_at axon card c.by_axon ≡ key_of axon card (Map.get card c.records.map)

  indexed_at :
      (c : Cards) (card : Bytes32) (r : CardRecord)
      → IsIndexed c
      → Map.get card c.records.map ≡ some r
      → key_at r.particle card c.by_axon ≡ some (stake_key card)
  unfolding IsIndexed key_of
  indexed_at c card r v e = v r.particle card ∙ rw (e, beq_self r.particle) refl

  -- What the index has for the card itself, whatever the axon.
  at_card :
      (c : Cards) (card a q : Bytes32) (old : Option CardRecord)
      → IsIndexed c
      → Map.get card c.records.map ≡ old
      → beq q card ≡ true
      → key_at a q c.by_axon ≡ key_of a card old
  unfolding IsIndexed
  at_card c card a q old v e same = rw (eq_of_beq q card same) (v a card ∙ rw e refl)

  -- Each branch of `insert`, with what the index has then.
  reindex_lem :
      (c : Cards) (card : Bytes32) (r : CardRecord) (old : Option CardRecord)
      → IsIndexed c
      → Map.get card c.records.map ≡ old
      → (next : ByAxon) × (reindex card r old c.by_axon ≡ some next)
        × ((a q : Bytes32)
            → key_at a q next
              ≡ (if beq q card then key_of a card (some r) else key_at a q c.by_axon))
  unfolding reindex key_of
  reindex_lem c card r none v e = (
    index r.particle card (stake_key card) c.by_axon,
    refl,
    λ a q. ground (
      arith,
      key_at-index r.particle card (stake_key card) c.by_axon a q,
      at_card c card a q none v e,
    ),
  )
  reindex_lem c card r (some o) v e = elim (Bool-cases (beq o.particle r.particle)) [
    | inl same ↦ (
      c.by_axon,
      rw same refl,
      λ a q. ground (arith, eq_of_beq o.particle r.particle same, at_card c card a q (some o) v e),
    )
    | inr moved ↦
        let (left, eq, gets) =
          unindex_lem o.particle card (stake_key card) c.by_axon (indexed_at c card o v e) in
        (
          index r.particle card (stake_key card) left,
          rw (moved, eq) refl,
          λ a q. ground (
            arith,
            key_at-index r.particle card (stake_key card) left a q,
            gets a q,
            at_card c card a q (some o) v e,
          ),
        )
  ]

  unindex_old_lem :
      (c : Cards) (card : Bytes32) (old : Option CardRecord)
      → IsIndexed c
      → Map.get card c.records.map ≡ old
      → (next : ByAxon) × (unindex_old card old c.by_axon ≡ some next)
        × ((a q : Bytes32) → key_at a q next ≡ (if beq q card then none else key_at a q c.by_axon))
  unfolding unindex_old key_of
  unindex_old_lem c card none v e =
      (c.by_axon, refl, λ a q. ground (arith, at_card c card a q none v e))
  unindex_old_lem c card (some o) v e =
      let (left, eq, gets) =
        unindex_lem o.particle card (stake_key card) c.by_axon (indexed_at c card o v e) in
      (left, rw eq refl, λ a q. ground (arith, gets a q, at_card c card a q (some o) v e))

  inserted :
      (c : Cards) (card : Bytes32) (r : CardRecord) (next : ByAxon)
      → IsIndexed c
      → ((a q : Bytes32)
          → key_at a q next ≡ (if beq q card then key_of a card (some r) else key_at a q c.by_axon))
      → (a q : Bytes32) → key_at a q next ≡ key_of a q (Map.get q (Map.insert card r c.records.map))
  unfolding IsIndexed
  inserted c card r next v gets a q = elim (Bool-cases (beq q card)) [
    | inl same ↦ rw (gets a q, get-insert card r c.records.map q, same, eq_of_beq q card same) refl
    | inr other ↦ rw (gets a q, get-insert card r c.records.map q, other) (v a q)
  ]

  removed :
      (c : Cards) (card : Bytes32) (next : ByAxon) (records : Map Bytes32 CardRecord)
      → IsIndexed c
      → ((a q : Bytes32) → key_at a q next ≡ (if beq q card then none else key_at a q c.by_axon))
      → ((q : Bytes32) → Map.get q records ≡ (if beq q card then none else Map.get q c.records.map))
      → (a q : Bytes32) → key_at a q next ≡ key_of a q (Map.get q records)
  unfolding IsIndexed key_of
  removed c card next records v gets left a q = elim (Bool-cases (beq q card)) [
    | inl same ↦ rw (gets a q, left q, same) refl
    | inr other ↦ rw (gets a q, left q, other) (v a q)
  ]

  pub record IsCards (c : Cards) : Type 0 where
    pub records : IsKeyed ⦃value = card_value⦄ c.records
    pub indexed : IsIndexed c
    pub sorted : IsSorted c.by_axon

  -- A card is inserted or replaced whatever the state, and never by way of a panic: if the index
  -- has exactly the recorded cards, each under its axon with its stake key, and the dimension is
  -- well formed, then so afterwards, the records are those before with the card's new one, and the
  -- old one is returned.
  pub insert-IsCards :
      (card : Bytes32) (r : CardRecord) (c : Cards)
      → IsCards c
      → (next : Cards) × (insert card r c ≡ some (next, Map.get card c.records.map))
        × (next.records.map ≡ Map.insert card r c.records.map)
        × IsCards next
  unfolding insert IsIndexed Keyed.insert Keyed.touched
  insert-IsCards card r c v =
      let (by_axon, eq, gets) = reindex_lem c card r (Map.get card c.records.map) v.indexed refl in
      (
        record {
          records = (Keyed.insert ⦃value = card_value⦄ card r c.records).0;
          by_axon = by_axon;
        },
        rw eq refl,
        refl,
        record {
          records = insert-IsKeyed ⦃value = card_value⦄ card r c.records v.records;
          indexed = λ a q. inserted c card r by_axon v.indexed gets a q;
          sorted =
              reindex-IsSorted card r (Map.get card c.records.map) c.by_axon by_axon v.sorted eq;
        },
      )

  pub new-IsCards : IsCards new
  unfolding new IsIndexed key_at key_of Keyed.empty Map.get
  new-IsCards = record {
    records = empty-IsKeyed ⦃value = card_value⦄;
    indexed = λ a q. refl;
    sorted = tt;
  }

  -- A card is removed, if it is there, and never by way of a panic: if the index has exactly the
  -- recorded cards and the dimension is well formed, then so afterwards, no record but the card's
  -- has gone, and the record that it had is returned.
  pub remove-IsCards :
      (card : Bytes32) (c : Cards)
      → IsCards c
      → (next : Cards) × (remove card c ≡ some (next, Map.get card c.records.map))
        × ((q : Bytes32)
            → Map.get q next.records.map ≡ (if beq q card then none else Map.get q c.records.map))
        × IsCards next
  unfolding remove IsIndexed
  remove-IsCards card c v =
      let (by_axon, eq, gets) =
        unindex_old_lem c card (Map.get card c.records.map) v.indexed refl in
      let left = remove_gets ⦃value = card_value⦄ card c.records in
      (
        record {
          records = (Keyed.remove ⦃value = card_value⦄ card c.records).0;
          by_axon = by_axon;
        },
        rw (remove_old ⦃value = card_value⦄ card c.records, eq) refl,
        left,
        record {
          records = remove-IsKeyed ⦃value = card_value⦄ card c.records v.records;
          indexed = removed c card by_axon _ v.indexed gets left;
          sorted =
              unindex_old-IsSorted card (Map.get card c.records.map) c.by_axon by_axon v.sorted eq;
        },
      )

  records_of-is_some :
      (records : Map Bytes32 CardRecord) (cards : Map Bytes32 Bytes32)
      → ((q : Bytes32) → Map.contains q cards ≡ true → Map.contains q records ≡ true)
      → is_some (records_of records cards) ≡ true
  unfolding records_of Map.contains Map.get
  records_of-is_some records [] sub = refl
  records_of-is_some records ((card, key) ∷ cards) sub =
      let rest = records_of-is_some records cards (λ q h. sub q (ground (arith, h))) in
      ground (arith, rest, sub card, beq_self card)

  pub listed_recorded :
      (c : Cards) (axon q : Bytes32)
      → IsIndexed c
      → is_some (key_at axon q c.by_axon) ≡ true
      → Map.contains q c.records.map ≡ true
  unfolding IsIndexed key_of Map.contains
  listed_recorded c axon q v h = elim (Option-cases (Map.get q c.records.map)) [
    | inl e ↦ ground (arith, v axon q, e, h)
    | inr e ↦ rw e.1 refl
  ]

  -- If the index has exactly the recorded cards, the enumeration of an axon's cards finds a record
  -- for each of them: its indexing of the records never panics.
  pub on_axon-is_some : (axon : Bytes32) (c : Cards) → IsCards c → is_some (on_axon axon c) ≡ true
  unfolding on_axon key_at Map.contains
  on_axon-is_some axon c v =
      records_of-is_some c.records.map (or_default (Map.get axon c.by_axon))
        (λ q h. listed_recorded c axon q v.indexed h)
