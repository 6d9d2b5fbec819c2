-- ===== src/Stats.antt =====
-- rs/src/stats.rs: the committed graph statistics, their serialization and their commitment.
use bbg.Prelude.{ℕ, List, ◌++◌}
use bbg.Bytes.{Bytes32}
use bbg.Root.{Hemera}
use bbg.Wire.{le_bytes, concat_map}

-- The sizes are those of the 11 relations in the order of `rel`.
pub record GraphStats : Type 0 where
  pub node_count : ℕ
  pub relation_sizes : List ℕ
  pub max_degree : ℕ
  pub diameter_bound : ℕ

unfoldable pub serialize : GraphStats → List ℕ
serialize s =
    le_bytes 8 s.node_count
    ++ (concat_map (le_bytes 8) s.relation_sizes
        ++ (le_bytes 8 s.max_degree ++ le_bytes 8 s.diameter_bound))

module _ ⦃H : Hemera⦄ where
  unfoldable pub commit : GraphStats → Bytes32
  unfolding serialize
  commit s = H.hash (serialize s)
