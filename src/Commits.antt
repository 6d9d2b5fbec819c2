-- ===== src/Commits.antt =====
-- The records' leaf fields in rs/src/state/commits.rs, in their frozen order.
use bbg.Prelude.{ℕ, Bool, true, false, [], ◌∷◌, ◌++◌}
use bbg.Root.{Hemera}
use bbg.Dim.{scalar_fields, u64_limbs, bytes32_limbs}
use bbg.Types.{
  ParticleRecord, NeuronRecord, LocationRecord, CoinRecord, CardRecord, FileRecord, SignalRecord,
  valence_byte,
}
use bbg.Keyed.{LeafValue}

abbrev pub bool_byte : Bool → ℕ
bool_byte true = 1
bool_byte false = 0

module _ ⦃H : Hemera⦄ where
  instance abbrev pub particle_value : LeafValue ParticleRecord
  particle_value = record {
    leaf_vals =
        λ p. scalar_fields (p.energy ∷ p.pi_star ∷ p.weight ∷ p.s_yes ∷ p.s_no ∷ p.meta_score ∷ []);
  }

  instance abbrev pub neuron_value : LeafValue NeuronRecord
  neuron_value = record {
    leaf_vals = λ n. scalar_fields (n.focus ∷ n.karma ∷ n.stake ∷ n.nonce ∷ []);
  }

  instance abbrev pub location_value : LeafValue LocationRecord
  location_value = record { leaf_vals = λ l. scalar_fields (l.lat ∷ l.lon ∷ []) }

  instance abbrev pub coin_value : LeafValue CoinRecord
  coin_value = record { leaf_vals = λ c. u64_limbs c.total_supply }

  instance abbrev pub card_value : LeafValue CardRecord
  card_value = record {
    leaf_vals = λ c.
        bytes32_limbs c.owner
        ++ (bytes32_limbs c.particle
            ++ (bytes32_limbs c.author
                ++ (u64_limbs (valence_byte c.valence) ++ u64_limbs c.since)));
  }

  instance abbrev pub file_value : LeafValue FileRecord
  file_value = record {
    leaf_vals = λ f. scalar_fields (bool_byte f.available ∷ f.chunk_count ∷ []);
  }

  instance abbrev pub signal_value : LeafValue SignalRecord
  signal_value = record {
    leaf_vals = λ s.
        bytes32_limbs s.neuron
        ++ (bytes32_limbs s.network
            ++ (u64_limbs s.link_count
                ++ (u64_limbs s.block_height ++ (bytes32_limbs s.proof_hash ++ u64_limbs s.step))));
  }
