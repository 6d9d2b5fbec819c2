-- ===== src/Records/RoundTrip.antt =====
-- A record that fits its types is read back from its bytes.
use bbg.Prelude.{
  ℕ, ◌^◌, ◌<◌, ◌≡◌, refl, ap, sym, ◌∙◌, some, List, [], ◌∷◌, length, All, append_assoc, append-nil,
}
use bbg.Bytes.{Bytes32}
use bbg.Root.{Hemera}
use bbg.Types.{ParticleRecord, NeuronRecord, SignalRecord, IntentRecord}
use bbg.Wire.{le_bytes, read_array, read_list, concat_map}
use bbg.Wire.Laws.{read_array-append, read_le-append, read_list-append}
use bbg.Records.{
  integers, particle, adjacency, neuron, signal, intent, Value, of_particle, of_axons_out,
  of_axons_in, of_neuron, of_time, of_signal, of_commitment, of_nullifier, of_balance, of_intent,
  of_edge, of_touched, domain, encode, decode, read_particle, read_adjacency, read_neuron,
  read_signal, read_intent, read_edge,
}

abbrev pub IsU64 : ℕ → Type 0
IsU64 v = v < 256 ^ 8

abbrev pub IsU32 : ℕ → Type 0
IsU32 v = v < 256 ^ 4

pub read_intent-intent : (i : IntentRecord) → IsU64 i.h0 → read_intent (intent i) ≡ some i
unfolding read_intent intent
read_intent-intent i h =
    rw
      (
        read_array-append 32 i.neuron,
        read_le-append 8 i.h0 _ h,
        read_array-append 32 i.scope_hash,
        read_array-append 64 i.signature,
      )
      refl

module _ ⦃H : Hemera⦄ where
  -- `nebu::Goldilocks`: the number that `as_u64` gives of an element that comes from a `u64` is a `u64`,
  -- and stands for the same element.
  pub record IsGoldilocks : Type 0 where
    pub as_u64_fits : (n : ℕ) → IsU64 n → IsU64 (H.as_u64 (H.new n))
    pub new-as_u64 : (n : ℕ) → IsU64 n → H.new (H.as_u64 (H.new n)) ≡ H.new n

  -- Every integer fits its type; a list's length does. An element of the field comes from a `u64`.
  unfoldable pub IsFit : Value → Type 0
  IsFit (of_particle p) =
      All IsU64 (p.energy ∷ p.pi_star ∷ p.weight ∷ p.s_yes ∷ p.s_no ∷ p.meta_score ∷ [])
  IsFit (of_axons_out l) = IsU64 (length l)
  IsFit (of_axons_in l) = IsU64 (length l)
  IsFit (of_neuron n) = All IsU64 (n.focus ∷ n.karma ∷ n.stake ∷ n.nonce ∷ [])
  IsFit (of_time root) = Unit
  IsFit (of_signal s) = IsU32 s.link_count × IsU64 s.block_height × IsU64 s.step
  IsFit (of_commitment c) = (n : ℕ) × IsU64 n × (c ≡ H.new n)
  IsFit of_nullifier = Unit
  IsFit (of_balance b) = IsU64 b
  IsFit (of_intent i) = IsU64 i.h0
  IsFit (of_edge from to) = Unit
  IsFit (of_touched epoch) = IsU64 epoch

  read_particle-particle :
      (p : ParticleRecord) → IsFit (of_particle p) → read_particle (particle p) ≡ some p
  unfolding read_particle particle integers concat_map IsFit
  read_particle-particle p h =
      rw
        (
          read_le-append 8 p.energy _ h.0,
          read_le-append 8 p.pi_star _ h.1.0,
          read_le-append 8 p.weight _ h.1.1.0,
          read_le-append 8 p.s_yes _ h.1.1.1.0,
          read_le-append 8 p.s_no _ h.1.1.1.1.0,
          read_le-append 8 p.meta_score _ h.1.1.1.1.1.0,
        )
        refl

  read_neuron-neuron : (n : NeuronRecord) → IsFit (of_neuron n) → read_neuron (neuron n) ≡ some n
  unfolding read_neuron neuron integers concat_map IsFit
  read_neuron-neuron n h =
      rw
        (
          read_le-append 8 n.focus _ h.0,
          read_le-append 8 n.karma _ h.1.0,
          read_le-append 8 n.stake _ h.1.1.0,
          read_le-append 8 n.nonce _ h.1.1.1.0,
        )
        refl

  -- An entry always fits.
  abbrev Always : Bytes32 → Type 0
  Always e = Unit

  read_adjacency-adjacency :
      (l : List Bytes32) → IsU64 (length l) → read_adjacency (adjacency l) ≡ some l
  unfolding read_adjacency adjacency integers concat_map
  read_adjacency-adjacency l h =
      let entries =
        read_list-append (read_array 32) (λ e. e.0) Always (λ e rest _. read_array-append 32 e rest)
          l [] (every l) in
      let trimmed : read_list (read_array 32) (length l) (concat_map (λ e. e.0) l) ≡ some (l, []) =
        ap (read_list (read_array 32) (length l)) (sym (append-nil (concat_map (λ e. e.0) l)))
        ∙ entries in
      rw
        (
          append_assoc (le_bytes 8 (length l)) [] (concat_map (λ e. e.0) l),
          read_le-append 8 (length l) _ h,
          trimmed,
        )
        refl
    where
      every : (l : List Bytes32) → All Always l
      every [] = tt
      every (e ∷ l) = (tt, every l)

  read_signal-signal : (s : SignalRecord) → IsFit (of_signal s) → read_signal (signal s) ≡ some s
  unfolding read_signal signal IsFit
  read_signal-signal s h =
      rw
        (
          read_array-append 32 s.neuron,
          read_array-append 32 s.network,
          read_le-append 4 s.link_count _ h.0,
          read_le-append 8 s.block_height _ h.1,
          read_array-append 32 s.proof_hash,
          read_le-append 8 s.step _ h.2,
        )
        refl

  -- Let `as_u64` and `new` of the field keep an element that comes from a `u64`. Then a record whose
  -- integers fit their types, whose list is no longer than a `u64` counts and whose element of the
  -- field comes from a `u64` is read back, under its domain, from the bytes that are stored for it.
  pub decode-encode : IsGoldilocks → (v : Value) → IsFit v → decode (domain v) (encode v) ≡ some v
  unfolding decode domain encode IsFit
  decode-encode g (of_particle p) h = rw (read_particle-particle p h) refl
  decode-encode g (of_axons_out l) h = rw (read_adjacency-adjacency l h) refl
  decode-encode g (of_axons_in l) h = rw (read_adjacency-adjacency l h) refl
  decode-encode g (of_neuron n) h = rw (read_neuron-neuron n h) refl
  decode-encode g (of_time root) h = rw (read_array-append 32 root) refl
  decode-encode g (of_signal s) h = rw (read_signal-signal s h) refl
  decode-encode g (of_commitment c) (n, fits, made) =
      unfold integers concat_map in
      rw (made, read_le-append 8 (H.as_u64 (H.new n)) _ (g.as_u64_fits n fits), g.new-as_u64 n fits)
        refl
  decode-encode g of_nullifier h = refl
  decode-encode g (of_balance b) h = unfold integers concat_map in rw (read_le-append 8 b _ h) refl
  decode-encode g (of_intent i) h = rw (read_intent-intent i h) refl
  decode-encode g (of_edge from to) h =
      unfold read_edge in rw (read_array-append 32 from, read_array-append 32 to) refl
  decode-encode g (of_touched epoch) h =
      unfold integers concat_map in rw (read_le-append 8 epoch _ h) refl
