-- ===== src/AxonIndex/PutList.antt =====
-- The end of `AxonIndex::remove_axon` in rs/src/keyed.rs: the list that is kept replaces the old one,
-- or goes with its set if it is empty, and the histogram follows.
use bbg.Prelude.{
  ap, ◌+◌, ℕ, ◌≡◌, refl, true, false, List, [], ◌∷◌, length, ◌==◌, ==_iff, if◌then◌else◌, arith,
  Bool-cases, inl, inr, ◌∙◌,
}
use bbg.Prelude.Ord.{beq}
use bbg.Bytes.{Bytes32, bytes32_ord}
use bbg.Root.{Hemera}
use bbg.Map
use bbg.Map.{Map}
use bbg.Map.Sorted.{IsSorted, insert-IsSorted, remove-IsSorted}
use bbg.AxonIndex.Degrees.{
  one, count, length_at, Tracks, count-insert, count-remove, degree_moved-Tracks,
}
use bbg.Map.Laws.{get-insert, get-remove}
use bbg.Trie.{Trie, new as trie_new, get as trie_get}
use bbg.Trie.Invariant.{IsTrie, new-IsTrie}
use bbg.AxonIndex.{list_or_empty, set_or_new, AxonIndex, degree_moved, touched, put_list}
use bbg.AxonIndex.AddLaw.{mem, listed, IsDistinct, list_at, set_of, IsMirror}

module _ ⦃H : Hemera⦄ where
  -- The histogram and the touched keys are apart from the lists and the sets.
  pub same_map :
      (old next : ℕ) (p : Bytes32) (x : AxonIndex)
      → (touched p (degree_moved old next x)).map ≡ x.map
  unfolding degree_moved touched
  same_map old next p x = ground arith

  pub same_sets :
      (old next : ℕ) (p : Bytes32) (x : AxonIndex)
      → (touched p (degree_moved old next x)).sets ≡ x.sets
  unfolding degree_moved touched
  same_sets old next p x = ground arith

  pub nil_of_length : {A : Type 0} (list : List A) → (length list == 0) ≡ true → list ≡ []
  nil_of_length [] h = refl
  nil_of_length (a ∷ list) h = absurd (omega (arith, (==_iff (length (a ∷ list)) 0).0 h))

  pub list_at-put_list :
      (p : Bytes32) (kept : List Bytes32) (set : Trie) (x : AxonIndex) (q : Bytes32)
      → list_at q (put_list p kept set x) ≡ (if beq q p then kept else list_at q x)
  unfolding put_list
  list_at-put_list p kept set x q =
      ground (arith, get-insert p kept x.map q, get-remove p x.map q, nil_of_length kept)

  pub set_of-put_list :
      (p : Bytes32) (kept : List Bytes32) (set : Trie) (x : AxonIndex) (q : Bytes32)
      → set_of q (put_list p kept set x)
        ≡ (if beq q p then (if length kept == 0 then trie_new else set) else set_of q x)
  unfolding put_list
  set_of-put_list p kept set x q = ground (arith, get-insert p set x.sets q, get-remove p x.sets q)

  map-put_list :
      (p : Bytes32) (kept : List Bytes32) (set : Trie) (x : AxonIndex)
      → (put_list p kept set x).map
        ≡ (if length kept == 0 then Map.remove p x.map else Map.insert p kept x.map)
  unfolding put_list
  map-put_list p kept set x = ground arith

  degrees-put_list :
      (p : Bytes32) (kept : List Bytes32) (set : Trie) (x : AxonIndex)
      → ((put_list p kept set x).degrees ≡ x.degrees)
        × ((put_list p kept set x).panicked ≡ x.panicked)
  unfolding put_list
  degrees-put_list p kept set x = (ground arith, ground arith)

  -- The counts of the lists once one of them is replaced, or removed if nothing is kept.
  count-put_list :
      (p : Bytes32) (kept : List Bytes32) (m : Map Bytes32 (List Bytes32)) (d : ℕ)
      → IsSorted m
      → (d == 0) ≡ false
      → count d (if length kept == 0 then Map.remove p m else Map.insert p kept m)
          + one d (length_at p m)
        ≡ count d m + one d (length kept)
  count-put_list p kept m d s h =
      ground (arith, h, count-insert d p kept m h s, count-remove d p m h s)

  put_list-IsSorted :
      (p : Bytes32) (kept : List Bytes32) (m : Map Bytes32 (List Bytes32))
      → IsSorted m
      → IsSorted (if length kept == 0 then Map.remove p m else Map.insert p kept m)
  put_list-IsSorted p kept m s = elim (Bool-cases (length kept == 0)) [
    | inl e ↦ rw e (remove-IsSorted p m s)
    | inr e ↦ rw e (insert-IsSorted p kept m s)
  ]

  -- The index after `put_list` and the move of its histogram.
  pub put_list-Tracks :
      (p : Bytes32) (kept : List Bytes32) (set : Trie) (x : AxonIndex)
      → IsMirror x
      → let moved =
          touched p (degree_moved (length_at p x.map) (length kept) (put_list p kept set x)) in
        IsSorted moved.map
        × Tracks moved.degrees (λ d. count d moved.map)
        × (moved.panicked ≡ false)
  unfolding touched
  put_list-Tracks p kept set x v =
      let next = put_list p kept set x in
      let moves =
        degree_moved-Tracks (length_at p x.map) (length kept) next (λ d. count d x.map)
          (λ d. count d next.map) (rw (degrees-put_list p kept set x).0 v.tracks)
          (λ d h. rw (map-put_list p kept set x) (count-put_list p kept x.map d v.sorted h)) in
      rw (same_map (length_at p x.map) (length kept) p next) (
        rw (map-put_list p kept set x) (put_list-IsSorted p kept x.map v.sorted),
        moves.1,
        moves.0 ∙ (degrees-put_list p kept set x).1 ∙ v.unpanicked,
      )

  -- The index once a particle's list, which was `old` long, is `list`, with its set.
  abbrev pub replaced : ℕ → Bytes32 → List Bytes32 → Trie → AxonIndex → AxonIndex
  replaced old p list set x = touched p (degree_moved old (length list) (put_list p list set x))

  pub list_at-replaced :
      (p : Bytes32) (list : List Bytes32) (set : Trie) (x : AxonIndex) (q : Bytes32)
      → list_at q (replaced (length_at p x.map) p list set x)
        ≡ (if beq q p then list else list_at q x)
  list_at-replaced p list set x q =
      ap (λ m. list_or_empty (Map.get q m))
        (same_map (length_at p x.map) (length list) p (put_list p list set x))
      ∙ list_at-put_list p list set x q

  set_of-replaced :
      (p : Bytes32) (list : List Bytes32) (set : Trie) (x : AxonIndex) (q : Bytes32)
      → set_of q (replaced (length_at p x.map) p list set x)
        ≡ (if beq q p then (if length list == 0 then trie_new else set) else set_of q x)
  set_of-replaced p list set x q =
      ap (λ m. set_or_new (Map.get q m))
        (same_sets (length_at p x.map) (length list) p (put_list p list set x))
      ∙ set_of-put_list p list set x q

  -- A list of distinct axons that mirrors its set keeps the index well formed.
  module _ (p : Bytes32) (list : List Bytes32) (set : Trie) (x : AxonIndex) (v : IsMirror x)
      (valid : IsTrie set) (gets : (b : Bytes32) → trie_get set b ≡ listed b list)
      (distinct : IsDistinct list) where
    get_kept :
        (b : Bytes32) → trie_get (if length list == 0 then trie_new else set) b ≡ listed b list
    unfolding trie_get mem
    get_kept b = elim (Bool-cases (length list == 0)) [
      | inl e ↦ rw (e, nil_of_length list e) refl
      | inr e ↦ rw e (gets b)
    ]

    kept-IsTrie : IsTrie (if length list == 0 then trie_new else set)
    kept-IsTrie = elim (Bool-cases (length list == 0)) [
      | inl e ↦ rw e new-IsTrie
      | inr e ↦ rw e valid
    ]

    pub replaced-IsMirror : IsMirror (replaced (length_at p x.map) p list set x)
    replaced-IsMirror = record {
      valid = λ q. elim (Bool-cases (beq q p)) [
        | inl e ↦ rw (set_of-replaced p list set x q, e) kept-IsTrie
        | inr e ↦ rw (set_of-replaced p list set x q, e) (v.valid q)
      ];
      mirrors = λ q b. elim (Bool-cases (beq q p)) [
        | inl e ↦
            rw (set_of-replaced p list set x q, list_at-replaced p list set x q, e) (get_kept b)
        | inr e ↦
            rw (set_of-replaced p list set x q, list_at-replaced p list set x q, e) (v.mirrors q b)
      ];
      distinct = λ q. elim (Bool-cases (beq q p)) [
        | inl e ↦ rw (list_at-replaced p list set x q, e) distinct
        | inr e ↦ rw (list_at-replaced p list set x q, e) (v.distinct q)
      ];
      sorted = (put_list-Tracks p list set x v).0;
      tracks = (put_list-Tracks p list set x v).1;
      unpanicked = (put_list-Tracks p list set x v).2;
    }
