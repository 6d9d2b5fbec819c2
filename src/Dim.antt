-- ===== src/Dim.antt =====
-- rs/src/dim.rs: the injective encodings of numbers and keys as field elements, and the flat table
-- of a dimension.
pub mod Encoding
use bbg.Prelude.{ℕ, suc, ◌+◌, ◌*◌, ◌/◌, ◌%◌, ◌^◌, List, [], ◌∷◌, ◌++◌, get_or, length}
use bbg.Bytes.{Bytes32}
use bbg.Root.{Hemera}

abbrev pub dimension_version : ℕ
dimension_version = 4

abbrev pub table_version : ℕ
table_version = 2

abbrev pub header_fields : ℕ
header_fields = 3

abbrev pub key_fields : ℕ
key_fields = 8

-- `u32::from_le_bytes(bytes[at..at + 4])`
unfoldable pub u32_at : List ℕ → ℕ → ℕ
u32_at bs at =
    get_or bs at 0
    + get_or bs (at + 1) 0 * 256
    + get_or bs (at + 2) 0 * 65536
    + get_or bs (at + 3) 0 * 16777216

module _ ⦃H : Hemera⦄ where
  -- `v & 0xffff_ffff` and `v >> 32`
  unfoldable pub u64_limbs : ℕ → List H.Field
  u64_limbs v = H.new (v % 2 ^ 32) ∷ H.new (v / 2 ^ 32) ∷ []

  unfoldable pub scalar_fields : List ℕ → List H.Field
  unfolding u64_limbs
  scalar_fields [] = []
  scalar_fields (v ∷ values) = u64_limbs v ++ scalar_fields values

  unfoldable pub bytes32_limbs : Bytes32 → List H.Field
  unfolding u32_at
  bytes32_limbs key =
      H.new (u32_at key.0 0)
      ∷ H.new (u32_at key.0 4)
      ∷ H.new (u32_at key.0 8)
      ∷ H.new (u32_at key.0 12)
      ∷ H.new (u32_at key.0 16)
      ∷ H.new (u32_at key.0 20)
      ∷ H.new (u32_at key.0 24)
      ∷ H.new (u32_at key.0 28)
      ∷ []

  unfoldable pub entry_count : List (Bytes32 × List H.Field) → ℕ
  entry_count [] = 0
  entry_count ((key, values) ∷ entries) = key_fields + length values + entry_count entries

  unfoldable pub entry_fields : List (Bytes32 × List H.Field) → List H.Field
  unfolding bytes32_limbs
  entry_fields [] = []
  entry_fields ((key, values) ∷ entries) = bytes32_limbs key ++ (values ++ entry_fields entries)

  unfoldable pub dim_serialize : List (Bytes32 × List H.Field) → List H.Field
  unfolding entry_count entry_fields
  dim_serialize entries =
      H.new table_version
      ∷ H.new (header_fields + entry_count entries)
      ∷ H.new (length entries)
      ∷ entry_fields entries
