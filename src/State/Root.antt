-- ===== src/State/Root.antt =====
-- The root of the state in rs/src/state.rs: the statistics, the leaves of either root version with
-- rs/src/state/commits.rs, `root_to_bytes` of rs/src/root.rs and `digest_limbs` of rs/src/dim.rs.
-- `digest_limbs` asserts that each limb is canonical, which the hash promises of its digests. The
-- threads of a bulk load read the same commitments as the other branch, so the two are one here.
-- A read of the root fills caches: it returns the state with them.
pub mod Invariant
use bbg.Prelude.{
  ℕ, ◌-◌, Option, none, some, List, [], ◌∷◌, ◌++◌, map, length, max, length-append, ◌≡◌, refl, true,
  ◌==◌, ◌&&◌, arith, ==_iff,
}
use bbg.Bytes.{Bytes32, bytes32_ord, are_bytes}
use bbg.Root.{Hemera, Digest, RootLeaves, root_from_leaves}
use bbg.Wire.{le_bytes, from_le, take, drop}
use bbg.Wire.Laws.{length-le_bytes}
use bbg.Commits.{particle_value, neuron_value, location_value, coin_value, file_value, signal_value}
use bbg.Keyed
use bbg.Keyed.{bytes32_key, u64_value, field_value, bytes32_value, unit_value}
use bbg.Keyed.Heights.{u64_ord, u64_key, are_bytes-le_bytes}
use bbg.AxonIndex
use bbg.Cards
use bbg.Stats
use bbg.Stats.{GraphStats}
use bbg.Table
use bbg.Table.{dim_entries, commit_dim}
use bbg.State.{BbgState, RootVersion, v1, v2}

abbrev pub or_else_nodes : Option ℕ → ℕ → ℕ
or_else_nodes none nodes = nodes - 1
or_else_nodes (some bound) nodes = bound

module _ ⦃H : Hemera⦄ where
  -- `digest_limbs`, by `goldilocks_from_bytes32`
  unfoldable pub digest_limbs : Bytes32 → Digest
  digest_limbs b = record {
    limb0 = H.new (from_le (take 8 b.0));
    limb1 = H.new (from_le (take 8 (drop 8 b.0)));
    limb2 = H.new (from_le (take 8 (drop 16 b.0)));
    limb3 = H.new (from_le (take 8 (drop 24 b.0)));
  }

  unfoldable pub limb_bytes : Digest → List ℕ
  limb_bytes d =
      le_bytes 8 (H.as_u64 d.limb0)
      ++ (le_bytes 8 (H.as_u64 d.limb1)
          ++ (le_bytes 8 (H.as_u64 d.limb2) ++ (le_bytes 8 (H.as_u64 d.limb3) ++ [])))

  pub limb_bytes-fits :
      (d : Digest) → (length (limb_bytes d) == 32 && are_bytes (limb_bytes d)) ≡ true
  unfolding limb_bytes are_bytes
  limb_bytes-fits d =
      let fourth = le_bytes 8 (H.as_u64 d.limb3) ++ [] in
      let third = le_bytes 8 (H.as_u64 d.limb2) ++ fourth in
      let second = le_bytes 8 (H.as_u64 d.limb1) ++ third in
      let b4 = are_bytes-le_bytes 8 (H.as_u64 d.limb3) [] refl in
      let b3 = are_bytes-le_bytes 8 (H.as_u64 d.limb2) fourth b4 in
      let b2 = are_bytes-le_bytes 8 (H.as_u64 d.limb1) third b3 in
      let b1 = are_bytes-le_bytes 8 (H.as_u64 d.limb0) second b2 in
      ground (
        arith,
        b1,
        ==_iff (length (le_bytes 8 (H.as_u64 d.limb0) ++ second)) 32,
        length-append (le_bytes 8 (H.as_u64 d.limb0)) second,
        length-append (le_bytes 8 (H.as_u64 d.limb1)) third,
        length-append (le_bytes 8 (H.as_u64 d.limb2)) fourth,
        length-append (le_bytes 8 (H.as_u64 d.limb3)) [],
        length-le_bytes 8 (H.as_u64 d.limb0),
        length-le_bytes 8 (H.as_u64 d.limb1),
        length-le_bytes 8 (H.as_u64 d.limb2),
        length-le_bytes 8 (H.as_u64 d.limb3),
      )

  -- The packing of the root.
  unfoldable pub root_to_bytes : Digest → Bytes32
  unfolding limb_bytes
  root_to_bytes d = (limb_bytes d, limb_bytes-fits d)

  unfoldable pub set_root_version : RootVersion → BbgState → BbgState
  set_root_version version s = record s { root_version = version }

  unfoldable pub set_diameter_bound : ℕ → BbgState → BbgState
  set_diameter_bound bound s = record s { diameter_override = some bound }

  unfoldable pub statistics : BbgState → GraphStats
  statistics s =
      let node_count = length s.particles.map in
      record {
        node_count = node_count;
        relation_sizes =
            length s.particles.map
            ∷ length s.axons_out.map
            ∷ length s.axons_in.map
            ∷ length s.neurons.map
            ∷ length s.locations.map
            ∷ length s.coins.map
            ∷ length s.cards.records.map
            ∷ length s.files.map
            ∷ length s.time.map
            ∷ length s.signals.map
            ∷ length s.balances.map
            ∷ [];
        max_degree = max (AxonIndex.max_degree s.axons_out) (AxonIndex.max_degree s.axons_in);
        diameter_bound = or_else_nodes s.diameter_override node_count;
      }

  -- Every dimension brought up to date, with its trie's root.
  unfoldable pub v2_leaves : BbgState → BbgState × List Digest × Digest × Digest
  v2_leaves s =
      let (particles, d0) = Keyed.commitment ⦃value = particle_value⦄ s.particles in
      let (axons_out, d1) = AxonIndex.commitment s.axons_out in
      let (axons_in, d2) = AxonIndex.commitment s.axons_in in
      let (neurons, d3) = Keyed.commitment ⦃value = neuron_value⦄ s.neurons in
      let (locations, d4) = Keyed.commitment ⦃value = location_value⦄ s.locations in
      let (coins, d5) = Keyed.commitment ⦃value = coin_value⦄ s.coins in
      let (cards, d6) = Cards.commitment s.cards in
      let (files, d7) = Keyed.commitment ⦃value = file_value⦄ s.files in
      let (time, d8) = Keyed.commitment ⦃path = u64_key⦄ ⦃value = bytes32_value⦄ s.time in
      let (signals, d9) = Keyed.commitment ⦃value = signal_value⦄ s.signals in
      let (balances, d10) = Keyed.commitment ⦃value = u64_value⦄ s.balances in
      let (commitments, a) = Keyed.commitment ⦃value = field_value⦄ s.commitments in
      let (nullifiers, n) = Keyed.commitment ⦃value = unit_value⦄ s.nullifiers in
      (
        record s {
          particles = particles;
          axons_out = axons_out;
          axons_in = axons_in;
          neurons = neurons;
          locations = locations;
          coins = coins;
          cards = cards;
          files = files;
          time = time;
          signals = signals;
          balances = balances;
          commitments = commitments;
          nullifiers = nullifiers;
        },
        d0 ∷ d1 ∷ d2 ∷ d3 ∷ d4 ∷ d5 ∷ d6 ∷ d7 ∷ d8 ∷ d9 ∷ d10 ∷ [],
        a,
        n,
      )

  -- The first version commits to the polynomial of each table; `lens` is that commitment.
  module _ (lens : List H.Field → Bytes32) where
    unfoldable pub table_commitment : BbgState → Table.Dim → Bytes32
    table_commitment s dim = commit_dim lens (dim_entries s dim)

    -- `commit_particles` to `commit_n`: each is cached until its dimension's next mutation.
    unfoldable pub v1_leaves : BbgState → BbgState × List Digest × Digest × Digest
    unfolding table_commitment digest_limbs
    v1_leaves s =
        let (particles, d0) =
          Keyed.legacy_commitment ⦃value = particle_value⦄ s.particles
            (λ _. table_commitment s Table.particles) in
        let (axons_out, d1) =
          AxonIndex.legacy_commitment s.axons_out (λ _. table_commitment s Table.axons_out) in
        let (axons_in, d2) =
          AxonIndex.legacy_commitment s.axons_in (λ _. table_commitment s Table.axons_in) in
        let (neurons, d3) =
          Keyed.legacy_commitment ⦃value = neuron_value⦄ s.neurons
            (λ _. table_commitment s Table.neurons) in
        let (locations, d4) =
          Keyed.legacy_commitment ⦃value = location_value⦄ s.locations
            (λ _. table_commitment s Table.locations) in
        let (coins, d5) =
          Keyed.legacy_commitment ⦃value = coin_value⦄ s.coins
            (λ _. table_commitment s Table.coins) in
        let (cards, d6) = Cards.legacy_commitment s.cards (λ _. table_commitment s Table.cards) in
        let (files, d7) =
          Keyed.legacy_commitment ⦃value = file_value⦄ s.files
            (λ _. table_commitment s Table.files) in
        let (time, d8) =
          Keyed.legacy_commitment ⦃path = u64_key⦄ ⦃value = bytes32_value⦄ s.time
            (λ _. table_commitment s Table.time) in
        let (signals, d9) =
          Keyed.legacy_commitment ⦃value = signal_value⦄ s.signals
            (λ _. table_commitment s Table.signals) in
        let (balances, d10) =
          Keyed.legacy_commitment ⦃value = u64_value⦄ s.balances
            (λ _. table_commitment s Table.balances) in
        let (commitments, a) =
          Keyed.legacy_commitment ⦃value = field_value⦄ s.commitments
            (λ m. commit_dim lens (map (λ (k, v). (k, v ∷ [])) m)) in
        let (nullifiers, n) =
          Keyed.legacy_commitment ⦃value = unit_value⦄ s.nullifiers
            (λ m. commit_dim lens (map (λ (k, v). (k, H.new 1 ∷ [])) m)) in
        (
          record s {
            particles = particles;
            axons_out = axons_out;
            axons_in = axons_in;
            neurons = neurons;
            locations = locations;
            coins = coins;
            cards = cards;
            files = files;
            time = time;
            signals = signals;
            balances = balances;
            commitments = commitments;
            nullifiers = nullifiers;
          },
          map digest_limbs (d0 ∷ d1 ∷ d2 ∷ d3 ∷ d4 ∷ d5 ∷ d6 ∷ d7 ∷ d8 ∷ d9 ∷ d10 ∷ []),
          digest_limbs a,
          digest_limbs n,
        )

    unfoldable pub version_leaves :
        RootVersion → BbgState → BbgState × List Digest × Digest × Digest
    unfolding v1_leaves v2_leaves
    version_leaves v1 s = v1_leaves s
    version_leaves v2 s = v2_leaves s

    unfoldable pub root_leaves : BbgState → BbgState × RootLeaves
    unfolding version_leaves statistics digest_limbs
    root_leaves s =
        let (next, dims, a, n) = version_leaves s.root_version s in
        (
          next,
          record {
            dims = dims;
            a = a;
            n = n;
            stats = digest_limbs (Stats.commit (statistics next));
          },
        )

    -- `compute_root`, `root` and `refresh_root`
    unfoldable pub root : BbgState → BbgState × Bytes32
    unfolding root_leaves root_to_bytes
    root s = let (next, leaves) = root_leaves s in (next, root_to_bytes (root_from_leaves leaves))
