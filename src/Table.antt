-- ===== src/Table.antt =====
-- The flat table of a dimension, the first root version's leaf: `Dim` of rs/src/query.rs,
-- `dim_entries` and `cell_value` of rs/src/proof.rs, `commit_fields` of rs/src/dim.rs. The
-- commitment to a polynomial is the lens crate's: it is an argument, from the polynomial's
-- evaluations to the first 32 bytes of the commitment.
pub mod Fields
pub mod Padding
use bbg.Prelude.{
  ℕ, zero, suc, ◌+◌, ◌*◌, ◌-◌, Option, none, some, List, [], ◌∷◌, ◌++◌, map, length, if◌then◌else◌,
  leb,
}
use bbg.Bytes.{Bytes32}
use bbg.Root.{Hemera}
use bbg.Map.{Map}
use bbg.Dim.{scalar_fields, bytes32_limbs, dim_serialize}
use bbg.Types.{valence_byte}
use bbg.Commits.{bool_byte}
use bbg.Keyed.Heights.{height_bytes}
use bbg.State.{BbgState}

pub data Dim : Type 0 where
  particles : Dim
  axons_out : Dim
  axons_in : Dim
  neurons : Dim
  locations : Dim
  coins : Dim
  cards : Dim
  files : Dim
  time : Dim
  signals : Dim
  balances : Dim

-- `*self as u64` of the enumeration
unfoldable pub dim_index : Dim → ℕ
dim_index particles = 0
dim_index axons_out = 1
dim_index axons_in = 2
dim_index neurons = 3
dim_index locations = 4
dim_index coins = 5
dim_index cards = 6
dim_index files = 7
dim_index time = 8
dim_index signals = 9
dim_index balances = 10

abbrev pub nth {ℓ} : {A : Type ℓ} → List A → ℕ → Option A
nth [] i = none
nth (x ∷ xs) zero = some x
nth (x ∷ xs) (suc i) = nth xs i

abbrev pub dims : List Dim
dims =
    particles ∷ axons_out ∷ axons_in ∷ neurons ∷ locations ∷ coins ∷ cards ∷ files ∷ time ∷ signals
    ∷ balances ∷ []

-- `Dim::from_u64`
unfoldable pub dim_of : ℕ → Option Dim
dim_of v = nth dims v

-- The standard library's `usize::next_power_of_two`: `p`, doubled until it is at least `n`; `n`
-- doublings of 1 are enough.
unfoldable pub doubled_to : ℕ → ℕ → ℕ → ℕ
doubled_to zero n p = p
doubled_to (suc fuel) n p = let next = doubled_to fuel n (2 * p) in if leb n p then p else next

unfoldable pub next_power_of_two : ℕ → ℕ
unfolding doubled_to
next_power_of_two n = doubled_to n n 1

abbrev pub replicate {ℓ} : {A : Type ℓ} → ℕ → A → List A
replicate zero a = []
replicate (suc n) a = a ∷ replicate n a

module _ ⦃H : Hemera⦄ where
  abbrev pub Table : Type 0
  Table = List (Bytes32 × List H.Field)

  abbrev pub axon_fields : List Bytes32 → List H.Field
  axon_fields [] = []
  axon_fields (c ∷ list) = bytes32_limbs c ++ axon_fields list

  abbrev pub adjacency_entries : Map Bytes32 (List Bytes32) → Table
  adjacency_entries m = map (λ (k, v). (k, scalar_fields (length v ∷ []) ++ axon_fields v)) m

  unfoldable pub dim_entries : BbgState → Dim → Table
  dim_entries s particles =
      map
        (λ (k, v). (
          k,
          scalar_fields (v.energy ∷ v.pi_star ∷ v.weight ∷ v.s_yes ∷ v.s_no ∷ v.meta_score ∷ []),
        ))
        s.particles.map
  dim_entries s axons_out = adjacency_entries s.axons_out.map
  dim_entries s axons_in = adjacency_entries s.axons_in.map
  dim_entries s neurons =
      map (λ (k, v). (k, scalar_fields (v.focus ∷ v.karma ∷ v.stake ∷ v.nonce ∷ []))) s.neurons.map
  dim_entries s locations = map (λ (k, v). (k, scalar_fields (v.lat ∷ v.lon ∷ []))) s.locations.map
  dim_entries s coins = map (λ (k, v). (k, scalar_fields (v.total_supply ∷ []))) s.coins.map
  dim_entries s cards =
      map
        (λ (k, v). (
          k,
          bytes32_limbs v.owner
              ++ (bytes32_limbs v.particle
                  ++ (bytes32_limbs v.author
                      ++ scalar_fields (valence_byte v.valence ∷ v.since ∷ []))),
        ))
        s.cards.records.map
  dim_entries s files =
      map (λ (k, v). (k, scalar_fields (bool_byte v.available ∷ v.chunk_count ∷ []))) s.files.map
  dim_entries s time = map (λ (h, p). (height_bytes h, bytes32_limbs p)) s.time.map
  dim_entries s signals =
      map
        (λ (k, v). (
          k,
          bytes32_limbs v.neuron
              ++ (bytes32_limbs v.network
                  ++ (scalar_fields (v.link_count ∷ v.block_height ∷ [])
                      ++ (bytes32_limbs v.proof_hash ++ scalar_fields (v.step ∷ [])))),
        ))
        s.signals.map
  dim_entries s balances = map (λ (k, v). (k, scalar_fields (v ∷ []))) s.balances.map

  unfoldable pub cell_value : BbgState → Dim → ℕ → Option H.Field
  unfolding dim_entries
  cell_value s dim idx = nth (dim_serialize (dim_entries s dim)) idx

  -- `resize` to the next power of two, with zeros.
  unfoldable pub padded : List H.Field → List H.Field
  unfolding next_power_of_two
  padded fields = fields ++ replicate (next_power_of_two (length fields) - length fields) H.fzero

  unfoldable pub commit_dim : (List H.Field → Bytes32) → Table → Bytes32
  unfolding padded
  commit_dim commit entries = commit (padded (dim_serialize entries))
