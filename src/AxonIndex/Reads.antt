-- ===== src/AxonIndex/Reads.antt =====
-- A read of the adjacency index's commitment in rs/src/keyed.rs changes caches only.
use bbg.Prelude.{
  ◌≡◌, refl, ap, some, List, [], ◌∷◌, arith, Bool-cases, Option-cases, inl, inr, ◌∙◌, sym, subst,
  if◌then◌else◌,
}
use bbg.Prelude.Ord.{beq, eq_of_beq}
use bbg.Bytes.{Bytes32, bytes32_ord}
use bbg.Root.{Hemera}
use bbg.Map
use bbg.Map.{Map}
use bbg.Map.Laws.{get-insert}
use bbg.Trie.{Trie, get as trie_get, root as trie_root}
use bbg.Trie.Invariant.{IsTrie}
use bbg.Trie.Canonical.{root-IsTrie, get-root}
use bbg.AxonIndex.{
  AxonIndex, set_or_new, flush_particle, flush_all, flush, commitment, legacy_commitment,
}
use bbg.AxonIndex.AddLaw.{set_of, IsMirror}

module _ ⦃H : Hemera⦄ where
  -- Two indices with the same lists and degrees, of which the second is well formed if the first is.
  pub record ReadLaw (x y : AxonIndex) : Type 0 where
    pub same_map : y.map ≡ x.map
    pub same_degrees : y.degrees ≡ x.degrees
    pub mirror : IsMirror x → IsMirror y

  with_root :
      (p : Bytes32) (x : AxonIndex) (set trie : Trie)
      → Map.get p x.sets ≡ some set
      → IsMirror x
      → IsMirror (record x { sets = Map.insert p (trie_root set).0 x.sets; trie = trie })
  with_root p x set trie e v = record {
    valid = λ q. elim (Bool-cases (beq q p)) [
      | inl same ↦
          rw (changed q, same) (root-IsTrie set (subst (λ t. IsTrie t) set_same (v.valid p)))
      | inr other ↦ rw (changed q, other) (v.valid q)
    ];
    mirrors = λ q b. elim (Bool-cases (beq q p)) [
      | inl same ↦
          rw (changed q, same, eq_of_beq q p same)
            (get-root set b ∙ ap (λ t. trie_get t b) (sym set_same) ∙ v.mirrors p b)
      | inr other ↦ rw (changed q, other) (v.mirrors q b)
    ];
    distinct = v.distinct;
    sorted = v.sorted;
    tracks = v.tracks;
    unpanicked = v.unpanicked;
  }
    where
      set_same : set_of p x ≡ set
      set_same = rw e refl

      changed :
          (q : Bytes32)
          → set_or_new (Map.get q (Map.insert p (trie_root set).0 x.sets))
            ≡ (if beq q p then (trie_root set).0 else set_of q x)
      changed q = ground (arith, get-insert p (trie_root set).0 x.sets q)

  flush_particle-ReadLaw : (p : Bytes32) (x : AxonIndex) → ReadLaw x (flush_particle p x)
  unfolding flush_particle
  flush_particle-ReadLaw p x = elim (Option-cases (Map.get p x.map)) [
    | inl e ↦ rw (e, flush_particle) (same_sets _)
    | inr e ↦ elim (Option-cases (Map.get p x.sets)) [
      | inl f ↦ rw (e.1, f, flush_particle) (same_sets _)
      | inr f ↦
          rw (e.1, f.1, flush_particle)
            (record { same_map = refl; same_degrees = refl; mirror = with_root p x f.0 _ f.1 })
    ]
  ]
    where
      same_sets : (t : Trie) → ReadLaw x (record x { trie = t })
      same_sets t = record {
        same_map = refl;
        same_degrees = refl;
        mirror = λ v. record {
          valid = v.valid;
          mirrors = v.mirrors;
          distinct = v.distinct;
          sorted = v.sorted;
          tracks = v.tracks;
          unpanicked = v.unpanicked;
        };
      }

  ReadLaw-trans : (x y z : AxonIndex) → ReadLaw x y → ReadLaw y z → ReadLaw x z
  ReadLaw-trans x y z l m = record {
    same_map = m.same_map ∙ l.same_map;
    same_degrees = m.same_degrees ∙ l.same_degrees;
    mirror = λ v. m.mirror (l.mirror v);
  }

  flush_all-ReadLaw : (keys : Map Bytes32 (Unit {0})) (x : AxonIndex) → ReadLaw x (flush_all keys x)
  unfolding flush_all
  flush_all-ReadLaw [] x = record { same_map = refl; same_degrees = refl; mirror = λ v. v }
  flush_all-ReadLaw ((p, _) ∷ keys) x =
      ReadLaw-trans _ _ _ (flush_particle-ReadLaw p x) (flush_all-ReadLaw keys (flush_particle p x))

  pub commitment-ReadLaw : (x : AxonIndex) → ReadLaw x (commitment x).0
  unfolding commitment flush
  commitment-ReadLaw x =
      let law = flush_all-ReadLaw x.dirty x in
      record {
        same_map = law.same_map;
        same_degrees = law.same_degrees;
        mirror = λ v.
            let w = law.mirror v in
            record {
              valid = w.valid;
              mirrors = w.mirrors;
              distinct = w.distinct;
              sorted = w.sorted;
              tracks = w.tracks;
              unpanicked = w.unpanicked;
            };
      }

  pub legacy_commitment-ReadLaw :
      (x : AxonIndex) (f : Map Bytes32 (List Bytes32) → Bytes32)
      → ReadLaw x (legacy_commitment x f).0
  unfolding legacy_commitment
  legacy_commitment-ReadLaw x f = elim (Option-cases x.legacy) [
    | inl e ↦
        rw (e, legacy_commitment)
          (record {
            same_map = refl;
            same_degrees = refl;
            mirror = λ v. record {
              valid = v.valid;
              mirrors = v.mirrors;
              distinct = v.distinct;
              sorted = v.sorted;
              tracks = v.tracks;
              unpanicked = v.unpanicked;
            };
          })
    | inr e ↦
        rw (e.1, legacy_commitment)
          (record {
            same_map = refl;
            same_degrees = refl;
            mirror = λ v. record {
              valid = v.valid;
              mirrors = v.mirrors;
              distinct = v.distinct;
              sorted = v.sorted;
              tracks = v.tracks;
              unpanicked = v.unpanicked;
            };
          })
  ]
