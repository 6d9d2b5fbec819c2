-- ===== src/Table/Fields.antt =====
-- The two root versions commit the same fields of the same records.
use bbg.Prelude.{◌≡◌, refl, ap, ap₂, List, [], ◌∷◌, ◌++◌, map, append-nil}
use bbg.Bytes.{Bytes32}
use bbg.Root.{Hemera}
use bbg.Dim.{scalar_fields, u64_limbs, bytes32_limbs}
use bbg.Map.{Map}
use bbg.Keyed.{TrieKey, LeafValue, bytes32_key, u64_value, bytes32_value}
use bbg.Keyed.Heights.{u64_key}
use bbg.Commits.{
  particle_value, neuron_value, location_value, coin_value, card_value, file_value, signal_value,
}
use bbg.Types.{CardRecord, SignalRecord, valence_byte}
use bbg.State.{BbgState}
use bbg.Table

module _ ⦃H : Hemera⦄ where
  -- The path and the leaf's value fields of each record, as the second root version hashes them.
  unfoldable pub leaf_entries :
      {K V : Type 0} ⦃path : TrieKey K⦄ ⦃value : LeafValue V⦄
      → Map K V
      → List (Bytes32 × List H.Field)
  leaf_entries ⦃path⦄ ⦃value⦄ m = map (λ (k, v). (path.key_bytes k, value.leaf_vals v)) m

  map-cong :
      {A B : Type 0} (f g : A → B)
      → ((a : A) → f a ≡ g a)
      → (list : List A) → map f list ≡ map g list
  map-cong f g h [] = refl
  map-cong f g h (a ∷ list) = ap₂ (λ x y. x ∷ y) (h a) (map-cong f g h list)

  card_same :
      (v : CardRecord)
      → bytes32_limbs v.owner
          ++ (bytes32_limbs v.particle
              ++ (bytes32_limbs v.author ++ scalar_fields (valence_byte v.valence ∷ v.since ∷ [])))
        ≡ card_value.leaf_vals v
  unfolding scalar_fields u64_limbs bytes32_limbs
  card_same v = refl

  signal_same :
      (v : SignalRecord)
      → bytes32_limbs v.neuron
          ++ (bytes32_limbs v.network
              ++ (scalar_fields (v.link_count ∷ v.block_height ∷ [])
                  ++ (bytes32_limbs v.proof_hash ++ scalar_fields (v.step ∷ []))))
        ≡ signal_value.leaf_vals v
  unfolding scalar_fields u64_limbs bytes32_limbs
  signal_same v = refl

  pub record SameFields (s : BbgState) : Type 0 where
    pub particles :
        Table.dim_entries s Table.particles ≡ leaf_entries ⦃value = particle_value⦄ s.particles.map
    pub neurons :
        Table.dim_entries s Table.neurons ≡ leaf_entries ⦃value = neuron_value⦄ s.neurons.map
    pub locations :
        Table.dim_entries s Table.locations ≡ leaf_entries ⦃value = location_value⦄ s.locations.map
    pub coins : Table.dim_entries s Table.coins ≡ leaf_entries ⦃value = coin_value⦄ s.coins.map
    pub cards :
        Table.dim_entries s Table.cards ≡ leaf_entries ⦃value = card_value⦄ s.cards.records.map
    pub files : Table.dim_entries s Table.files ≡ leaf_entries ⦃value = file_value⦄ s.files.map
    pub time :
        Table.dim_entries s Table.time
        ≡ leaf_entries ⦃path = u64_key⦄ ⦃value = bytes32_value⦄ s.time.map
    pub signals :
        Table.dim_entries s Table.signals ≡ leaf_entries ⦃value = signal_value⦄ s.signals.map
    pub balances :
        Table.dim_entries s Table.balances ≡ leaf_entries ⦃value = u64_value⦄ s.balances.map

  -- For every dimension but the two adjacency indices, the entries of the flat table, which the
  -- first root version commits, are the paths and the leaf fields that the second one hashes, in
  -- the same order.
  pub dim_entries-SameFields : (s : BbgState) → SameFields s
  unfolding Table.dim_entries leaf_entries scalar_fields
  dim_entries-SameFields s = record {
    particles = refl;
    neurons = refl;
    locations = refl;
    coins =
        map-cong _ _ (λ (k, v). ap (λ f. (k, f)) (append-nil (u64_limbs v.total_supply)))
          s.coins.map;
    cards = map-cong _ _ (λ (k, v). ap (λ f. (k, f)) (card_same v)) s.cards.records.map;
    files = refl;
    time = refl;
    signals = map-cong _ _ (λ (k, v). ap (λ f. (k, f)) (signal_same v)) s.signals.map;
    balances = map-cong _ _ (λ (k, v). ap (λ f. (k, f)) (append-nil (u64_limbs v))) s.balances.map;
  }
