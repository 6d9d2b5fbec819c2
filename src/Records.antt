-- ===== src/Records.antt =====
-- rs/src/transition/records.rs and the private decoder of rs/src/transition/undo.rs: the persisted
-- bytes of every record that a transition changes, and the records that the bytes stand for. The
-- decoder's `expect`s are a read's failure here.
pub mod RoundTrip
use bbg.Prelude.{
  ℕ, suc, ◌+◌, ◌^◌, Bool, true, false, Option, none, some, List, [], ◌∷◌, ◌++◌, length,
  if◌then◌else◌, ◌==◌,
}
use bbg.Bytes.{Bytes32}
use bbg.Root.{Hemera}
use bbg.Types.{
  ParticleRecord, NeuronRecord, LocationRecord, CoinRecord, CardRecord, FileRecord, SignalRecord,
  IntentRecord, valence_byte,
}
use bbg.Wire.{◌>>=◌, Array, le_bytes, Read, read_array, read_le, read_list, concat_map}

-- `records::key`
unfoldable pub key : ℕ → List ℕ → List ℕ
key domain entity = domain ∷ entity

unfoldable pub integers : List ℕ → List ℕ
integers values = concat_map (le_bytes 8) values

unfoldable pub particle : ParticleRecord → List ℕ
particle p = integers (p.energy ∷ p.pi_star ∷ p.weight ∷ p.s_yes ∷ p.s_no ∷ p.meta_score ∷ [])

unfoldable pub adjacency : List Bytes32 → List ℕ
adjacency entries = integers (length entries ∷ []) ++ concat_map (λ e. e.0) entries

unfoldable pub neuron : NeuronRecord → List ℕ
neuron n = integers (n.focus ∷ n.karma ∷ n.stake ∷ n.nonce ∷ [])

unfoldable pub card : CardRecord → List ℕ
card c =
    c.owner.0 ++ (c.particle.0 ++ (c.author.0 ++ (valence_byte c.valence ∷ le_bytes 8 c.since)))

unfoldable pub signal : SignalRecord → List ℕ
signal s =
    s.neuron.0
    ++ (s.network.0
        ++ (le_bytes 4 s.link_count
            ++ (le_bytes 8 s.block_height ++ (s.proof_hash.0 ++ (le_bytes 8 s.step ++ [])))))

unfoldable pub intent : IntentRecord → List ℕ
intent i = i.neuron.0 ++ (le_bytes 8 i.h0 ++ (i.scope_hash.0 ++ (i.signature.0 ++ [])))

-- The domains that a transition captures. The metadata, domain 0, is restored from saved numbers.
pub data Domain : Type 0 where
  particles : Domain
  axons_out : Domain
  axons_in : Domain
  neurons : Domain
  time : Domain
  signals : Domain
  commitments : Domain
  nullifiers : Domain
  balances : Domain
  intents : Domain
  axon_edges : Domain
  last_touched : Domain

-- The first byte of a record's key.
unfoldable pub domain_byte : Domain → ℕ
domain_byte particles = 1
domain_byte axons_out = 2
domain_byte axons_in = 3
domain_byte neurons = 4
domain_byte time = 9
domain_byte signals = 10
domain_byte commitments = 11
domain_byte nullifiers = 12
domain_byte balances = 13
domain_byte intents = 14
domain_byte axon_edges = 15
domain_byte last_touched = 16

-- `Reader::u64`, `Reader::u32` and `Reader::array`
abbrev pub read_u64 : Read ℕ
read_u64 = read_le 8

abbrev pub read_u32 : Read ℕ
read_u32 = read_le 4

unfoldable pub read_particle : List ℕ → Option ParticleRecord
read_particle bytes = do
  (energy, r) ← read_u64 bytes
  (pi_star, r) ← read_u64 r
  (weight, r) ← read_u64 r
  (s_yes, r) ← read_u64 r
  (s_no, r) ← read_u64 r
  (meta_score, r) ← read_u64 r
  some (record {
    energy = energy;
    pi_star = pi_star;
    weight = weight;
    s_yes = s_yes;
    s_no = s_no;
    meta_score = meta_score;
  })

unfoldable pub read_adjacency : List ℕ → Option (List Bytes32)
read_adjacency bytes = do
  (count, r) ← read_u64 bytes
  (entries, r) ← read_list (read_array 32) count r
  some entries

unfoldable pub read_neuron : List ℕ → Option NeuronRecord
read_neuron bytes = do
  (focus, r) ← read_u64 bytes
  (karma, r) ← read_u64 r
  (stake, r) ← read_u64 r
  (nonce, r) ← read_u64 r
  some (record { focus = focus; karma = karma; stake = stake; nonce = nonce })

unfoldable pub read_signal : List ℕ → Option SignalRecord
read_signal bytes = do
  (neuron, r) ← read_array 32 bytes
  (network, r) ← read_array 32 r
  (link_count, r) ← read_u32 r
  (block_height, r) ← read_u64 r
  (proof_hash, r) ← read_array 32 r
  (step, r) ← read_u64 r
  some (record {
    neuron = neuron;
    network = network;
    link_count = link_count;
    block_height = block_height;
    proof_hash = proof_hash;
    step = step;
  })

unfoldable pub read_intent : List ℕ → Option IntentRecord
read_intent bytes = do
  (neuron, r) ← read_array 32 bytes
  (h0, r) ← read_u64 r
  (scope_hash, r) ← read_array 32 r
  (signature, r) ← read_array 64 r
  some (record { neuron = neuron; h0 = h0; scope_hash = scope_hash; signature = signature })

unfoldable pub read_edge : List ℕ → Option (Bytes32 × Bytes32)
read_edge bytes = do (from, r) ← read_array 32 bytes; (to, r) ← read_array 32 r; some (from, to)

abbrev pub only {ℓ} : {A : Type ℓ} → Option (A × List ℕ) → Option A
only o = o >>= λ (a, _). some a

module _ ⦃H : Hemera⦄ where
  -- What a record of a transition holds, by its domain.
  pub data Value : Type 0 where
    of_particle : ParticleRecord → Value
    of_axons_out : List Bytes32 → Value
    of_axons_in : List Bytes32 → Value
    of_neuron : NeuronRecord → Value
    of_time : Bytes32 → Value
    of_signal : SignalRecord → Value
    of_commitment : H.Field → Value
    of_nullifier : Value
    of_balance : ℕ → Value
    of_intent : IntentRecord → Value
    of_edge : Bytes32 → Bytes32 → Value
    of_touched : ℕ → Value

  unfoldable pub domain : Value → Domain
  domain (of_particle p) = particles
  domain (of_axons_out l) = axons_out
  domain (of_axons_in l) = axons_in
  domain (of_neuron n) = neurons
  domain (of_time root) = time
  domain (of_signal s) = signals
  domain (of_commitment c) = commitments
  domain of_nullifier = nullifiers
  domain (of_balance b) = balances
  domain (of_intent i) = intents
  domain (of_edge from to) = axon_edges
  domain (of_touched epoch) = last_touched

  -- The arms of `records::read`, once the record is found.
  unfoldable pub encode : Value → List ℕ
  encode (of_particle p) = particle p
  encode (of_axons_out l) = adjacency l
  encode (of_axons_in l) = adjacency l
  encode (of_neuron n) = neuron n
  encode (of_time root) = root.0 ++ []
  encode (of_signal s) = signal s
  encode (of_commitment c) = integers (H.as_u64 c ∷ [])
  encode of_nullifier = []
  encode (of_balance b) = integers (b ∷ [])
  encode (of_intent i) = intent i
  encode (of_edge from to) = from.0 ++ (to.0 ++ [])
  encode (of_touched epoch) = integers (epoch ∷ [])

  abbrev pub wrap {ℓ} : {A : Type ℓ} → (A → Value) → Option A → Option Value
  wrap f o = o >>= λ a. some (f a)

  -- The arms of `restore`, up to the change of the state.
  unfoldable pub decode : Domain → List ℕ → Option Value
  decode particles bytes = wrap of_particle (read_particle bytes)
  decode axons_out bytes = wrap of_axons_out (read_adjacency bytes)
  decode axons_in bytes = wrap of_axons_in (read_adjacency bytes)
  decode neurons bytes = wrap of_neuron (read_neuron bytes)
  decode time bytes = wrap of_time (only (read_array 32 bytes))
  decode signals bytes = wrap of_signal (read_signal bytes)
  decode commitments bytes = wrap (λ n. of_commitment (H.new n)) (only (read_u64 bytes))
  decode nullifiers bytes = some of_nullifier
  decode balances bytes = wrap of_balance (only (read_u64 bytes))
  decode intents bytes = wrap of_intent (read_intent bytes)
  decode axon_edges bytes = wrap (λ e. of_edge e.0 e.1) (read_edge bytes)
  decode last_touched bytes = wrap of_touched (only (read_u64 bytes))
