-- ===== src/Types.antt =====
-- The records of rs/src/types.rs. An integer of the source is a number; that it fits its type is
-- said by the theorems that need it.
use bbg.Prelude.{ℕ, Bool, true, false, Option, none, some, ◌==◌, if◌then◌else◌}
use bbg.Bytes.{Bytes32}
use bbg.Wire.{Array}

pub record ParticleRecord : Type 0 where
  pub energy : ℕ
  pub pi_star : ℕ
  pub weight : ℕ
  pub s_yes : ℕ
  pub s_no : ℕ
  pub meta_score : ℕ

-- `ParticleRecord::zero`
abbrev pub zero_particle : ParticleRecord
zero_particle = record { energy = 0; pi_star = 0; weight = 0; s_yes = 0; s_no = 0; meta_score = 0 }

pub record NeuronRecord : Type 0 where
  pub focus : ℕ
  pub karma : ℕ
  pub stake : ℕ
  pub nonce : ℕ

-- An `i32` is its bit pattern, a number below 2^32.
pub record LocationRecord : Type 0 where
  pub lat : ℕ
  pub lon : ℕ

pub record CoinRecord : Type 0 where
  pub total_supply : ℕ

pub data Side : Type 0 where
  plus : Side
  minus : Side

-- v = -1, 0 and +1
pub data Valence : Type 0 where
  against : Valence
  neutral : Valence
  for_edge : Valence

-- `Valence::byte`
unfoldable pub valence_byte : Valence → ℕ
valence_byte against = 0
valence_byte neutral = 1
valence_byte for_edge = 2

-- `Valence::from_byte`
unfoldable pub valence_of_byte : ℕ → Option Valence
valence_of_byte b =
    if b == 0
    then some against
    else if b == 1
    then some neutral
    else if b == 2
    then some for_edge
    else none

-- `Valence::side`
unfoldable pub valence_side : Valence → Side
valence_side against = minus
valence_side neutral = plus
valence_side for_edge = plus

-- `Valence::is_active`
unfoldable pub is_active : Valence → Bool
is_active against = true
is_active neutral = false
is_active for_edge = true

pub record CardRecord : Type 0 where
  pub owner : Bytes32
  pub particle : Bytes32
  pub author : Bytes32
  pub valence : Valence
  pub since : ℕ

pub record FileRecord : Type 0 where
  pub available : Bool
  pub chunk_count : ℕ

pub record SignalRecord : Type 0 where
  pub neuron : Bytes32
  pub network : Bytes32
  pub link_count : ℕ
  pub block_height : ℕ
  pub proof_hash : Bytes32
  pub step : ℕ

pub record IntentRecord : Type 0 where
  pub neuron : Bytes32
  pub h0 : ℕ
  pub scope_hash : Bytes32
  pub signature : Array 64
