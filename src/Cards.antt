-- ===== src/Cards.antt =====
-- rs/src/position.rs: `Cards`, the committed cards beside the uncommitted index of the cards on each
-- axon with their stake keys. The `expect`s of `unindex` and the indexing `self.records[c]` are
-- panics: an operation that reaches one is `none` here.
pub mod Order
pub mod Index
use bbg.Prelude.{
  ℕ, Bool, true, false, Option, none, some, List, [], ◌∷◌, ◌++◌, length, if◌then◌else◌,
}
use bbg.Prelude.Ord.{beq}
use bbg.Bytes.{Bytes32, bytes32_ord}
use bbg.Root.{Hemera, Digest}
use bbg.Wire.{◌>>=◌, concat_map}
use bbg.Map
use bbg.Map.{Map}
use bbg.Types.{CardRecord}
use bbg.Commits.{card_value}
use bbg.Trie.{TrieProof}
use bbg.Keyed
use bbg.Keyed.{Keyed, bytes32_key}

-- "soft3/chain/card/v1\0", "soft3/chain/stake/v1\0" and "soft3/chain/focus/v1\0"
abbrev pub card_domain : List ℕ
card_domain =
    115 ∷ 111 ∷ 102 ∷ 116 ∷ 51 ∷ 47 ∷ 99 ∷ 104 ∷ 97 ∷ 105 ∷ 110 ∷ 47 ∷ 99 ∷ 97 ∷ 114 ∷ 100 ∷ 47
    ∷ 118 ∷ 49 ∷ 0 ∷ []

abbrev pub stake_domain : List ℕ
stake_domain =
    115 ∷ 111 ∷ 102 ∷ 116 ∷ 51 ∷ 47 ∷ 99 ∷ 104 ∷ 97 ∷ 105 ∷ 110 ∷ 47 ∷ 115 ∷ 116 ∷ 97 ∷ 107 ∷ 101
    ∷ 47 ∷ 118 ∷ 49 ∷ 0 ∷ []

abbrev pub focus_domain : List ℕ
focus_domain =
    115 ∷ 111 ∷ 102 ∷ 116 ∷ 51 ∷ 47 ∷ 99 ∷ 104 ∷ 97 ∷ 105 ∷ 110 ∷ 47 ∷ 102 ∷ 111 ∷ 99 ∷ 117 ∷ 115
    ∷ 47 ∷ 118 ∷ 49 ∷ 0 ∷ []

-- Axon to card to the stake key of the card.
abbrev pub ByAxon : Type 0
ByAxon = Map Bytes32 (Map Bytes32 Bytes32)

pub record Cards ⦃H : Hemera⦄ : Type 0 where
  pub records : Keyed Bytes32 CardRecord
  pub by_axon : ByAxon

abbrev pub or_default : Option (Map Bytes32 Bytes32) → Map Bytes32 Bytes32
or_default none = []
or_default (some cards) = cards

-- What is left of an index entry: no entry if it is empty.
unfoldable pub put_back : Bytes32 → Map Bytes32 Bytes32 → ByAxon → ByAxon
put_back axon [] by_axon = Map.remove axon by_axon
put_back axon (first ∷ cards) by_axon = Map.insert axon (first ∷ cards) by_axon

-- `cards.remove(card).expect(..)`, with the key that it returns.
unfoldable pub drop_card :
    Bytes32 → Bytes32 → Map Bytes32 Bytes32 → ByAxon → Option (ByAxon × Bytes32)
unfolding put_back
drop_card axon card cards by_axon =
    Map.get card cards >>= λ key. some (put_back axon (Map.remove card cards) by_axon, key)

unfoldable pub unindex : Bytes32 → Bytes32 → ByAxon → Option (ByAxon × Bytes32)
unfolding drop_card
unindex axon card by_axon = Map.get axon by_axon >>= λ cards. drop_card axon card cards by_axon

-- `by_axon.entry(axon).or_default().insert(card, key)`
unfoldable pub index : Bytes32 → Bytes32 → Bytes32 → ByAxon → ByAxon
index axon card key by_axon =
    Map.insert axon (Map.insert card key (or_default (Map.get axon by_axon))) by_axon

module _ ⦃H : Hemera⦄ where
  unfoldable pub tagged : List ℕ → List Bytes32 → Bytes32
  tagged tag parts = H.hash (tag ++ concat_map (λ p. p.0) parts)

  unfoldable pub card_id : Bytes32 → Bytes32 → Bytes32 → Bytes32
  unfolding tagged
  card_id author p q = tagged card_domain (author ∷ p ∷ q ∷ [])

  unfoldable pub stake_key : Bytes32 → Bytes32
  unfolding tagged
  stake_key card = tagged stake_domain (card ∷ [])

  unfoldable pub focus_key : Bytes32 → Bytes32
  unfolding tagged
  focus_key token = tagged focus_domain (token ∷ [])

  unfoldable pub new : Cards
  new = record { records = Keyed.empty ⦃value = card_value⦄; by_axon = [] }

  -- The index after `card` got `record` in place of `old`.
  unfoldable pub reindex : Bytes32 → CardRecord → Option CardRecord → ByAxon → Option ByAxon
  unfolding unindex index stake_key
  reindex card r none by_axon = some (index r.particle card (stake_key card) by_axon)
  reindex card r (some o) by_axon =
      let moved =
        unindex o.particle card by_axon >>= λ (left, key). some (index r.particle card key left) in
      if beq o.particle r.particle then some by_axon else moved

  unfoldable pub insert : Bytes32 → CardRecord → Cards → Option (Cards × Option CardRecord)
  unfolding reindex
  insert card r c =
      let (records, old) = Keyed.insert ⦃value = card_value⦄ card r c.records in
      reindex card r old c.by_axon >>= λ by_axon.
      some (record { records = records; by_axon = by_axon }, old)

  -- The index after the record `old` of `card` went.
  unfoldable pub unindex_old : Bytes32 → Option CardRecord → ByAxon → Option ByAxon
  unfolding unindex
  unindex_old card none by_axon = some by_axon
  unindex_old card (some o) by_axon = unindex o.particle card by_axon >>= λ (left, key). some left

  unfoldable pub remove : Bytes32 → Cards → Option (Cards × Option CardRecord)
  unfolding unindex_old
  remove card c =
      let (records, old) = Keyed.remove ⦃value = card_value⦄ card c.records in
      unindex_old card old c.by_axon >>= λ by_axon.
      some (record { records = records; by_axon = by_axon }, old)

  unfoldable pub clear : Cards → Cards
  clear c = record { records = Keyed.clear ⦃value = card_value⦄ c.records; by_axon = [] }

  -- The cards of an index entry with their records.
  unfoldable pub records_of :
      Map Bytes32 CardRecord → Map Bytes32 Bytes32 → Option (List (Bytes32 × CardRecord))
  records_of records [] = some []
  records_of records ((card, _) ∷ cards) =
      let rest = records_of records cards in
      Map.get card records >>= λ r. rest >>= λ more. some ((card, r) ∷ more)

  unfoldable pub on_axon : Bytes32 → Cards → Option (List (Bytes32 × CardRecord))
  unfolding records_of
  on_axon axon c = records_of c.records.map (or_default (Map.get axon c.by_axon))

  unfoldable pub axon_count : Cards → ℕ
  axon_count c = length c.by_axon

  unfoldable pub commitment : Cards → Cards × Digest
  commitment c =
      let (records, d) = Keyed.commitment ⦃value = card_value⦄ c.records in
      (record c { records = records }, d)

  unfoldable pub legacy_commitment : Cards → (Map Bytes32 CardRecord → Bytes32) → Cards × Bytes32
  legacy_commitment c f =
      let (records, d) = Keyed.legacy_commitment ⦃value = card_value⦄ c.records f in
      (record c { records = records }, d)

  unfoldable pub prove : Cards → Bytes32 → Cards × TrieProof
  prove c card =
      let (records, p) = Keyed.prove ⦃value = card_value⦄ c.records card in
      (record c { records = records }, p)

  unfoldable pub pending : Cards → ℕ
  pending c = Keyed.pending ⦃value = card_value⦄ c.records

  unfoldable pub leaf : Bytes32 → CardRecord → Digest
  leaf card r = Keyed.leaf ⦃value = card_value⦄ card r
