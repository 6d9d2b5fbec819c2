-- ===== src/AxonIndex/AddLaw.antt =====
-- `AxonIndex::add` of rs/src/keyed.rs: every list mirrors its set, and an axon is added once.
use bbg.Prelude.{
  ◌-◌, length, length-append, ◌≡◌, refl, ap, Bool, true, false, not, ◌&&◌, ◌||◌, Option, none, some,
  List, [], ◌∷◌, ◌++◌, if◌then◌else◌, arith, Bool-cases, inl, inr, ◌∙◌,
}
use bbg.Prelude.Ord.{beq, beq_iff, eq_of_beq}
use bbg.Bytes.{Bytes32, bytes32_ord}
use bbg.Root.{Hemera, Digest}
use bbg.Map
use bbg.Map.Laws.{get-insert}
use bbg.Map.Sorted.{IsSorted, insert-IsSorted}
use bbg.Trie.{Trie, set as trie_set, get as trie_get}
use bbg.Trie.Invariant.{IsTrie, new-IsTrie}
use bbg.Trie.SetLaw.{SetLaw, set-SetLaw}
use bbg.AxonIndex.Degrees.{count, Tracks, count-insert, degree_moved-Tracks}
use bbg.AxonIndex.{
  AxonIndex, empty, member_digest, list_or_empty, set_or_new, degree_moved, touched, add_listed,
  add,
}

module _ ⦃H : Hemera⦄ where
  unfoldable pub mem : Bytes32 → List Bytes32 → Bool
  mem a [] = false
  mem a (b ∷ list) = beq a b || mem a list

  abbrev pub list_at : Bytes32 → AxonIndex → List Bytes32
  list_at p x = list_or_empty (Map.get p x.map)

  abbrev pub set_of : Bytes32 → AxonIndex → Trie
  set_of p x = set_or_new (Map.get p x.sets)

  -- The digest that a set holds for an axon, by the list.
  abbrev pub listed : Bytes32 → List Bytes32 → Option Digest
  listed a list = if mem a list then some (member_digest a) else none

  abbrev pub IsDistinct : List Bytes32 → Type 0
  IsDistinct [] = Unit
  IsDistinct (a ∷ list) = (mem a list ≡ false) × IsDistinct list

  -- Every list has distinct axons, its set holds exactly those, the histogram counts the lists of
  -- every length, and no call panicked.
  pub record IsMirror (x : AxonIndex) : Type 0 where
    pub valid : (p : Bytes32) → IsTrie (set_of p x)
    pub mirrors : (p a : Bytes32) → trie_get (set_of p x) a ≡ listed a (list_at p x)
    pub distinct : (p : Bytes32) → IsDistinct (list_at p x)
    pub sorted : IsSorted x.map
    pub tracks : Tracks x.degrees (λ d. count d x.map)
    pub unpanicked : x.panicked ≡ false

  pub empty-IsMirror : IsMirror empty
  unfolding empty Map.get mem trie_get count
  empty-IsMirror = record {
    valid = λ p. new-IsTrie;
    mirrors = λ p a. refl;
    distinct = λ p. tt;
    sorted = tt;
    tracks = record { tracked = λ d. ground arith; ordered = tt };
    unpanicked = refl;
  }

  mem-append :
      (a b : Bytes32) (list : List Bytes32) → mem a (list ++ b ∷ []) ≡ (mem a list || beq a b)
  unfolding mem
  mem-append a b [] = ground arith
  mem-append a b (c ∷ list) = ground (arith, mem-append a b list)

  append-IsDistinct :
      (b : Bytes32) (list : List Bytes32)
      → mem b list ≡ false
      → IsDistinct list
      → IsDistinct (list ++ b ∷ [])
  unfolding mem
  append-IsDistinct b [] h d = (refl, tt)
  append-IsDistinct b (c ∷ list) h d = (
    ground (arith, mem-append c b list, d.0, h, beq_iff c b, beq_iff b c),
    append-IsDistinct b list (ground (arith, h)) d.1,
  )

  map-add_listed :
      (p a : Bytes32) (x : AxonIndex)
      → (add_listed p a x).map ≡ Map.insert p (list_at p x ++ a ∷ []) x.map
  unfolding add_listed degree_moved touched
  map-add_listed p a x = ground arith

  sets-add_listed : (p a : Bytes32) (x : AxonIndex) → (add_listed p a x).sets ≡ x.sets
  unfolding add_listed degree_moved touched
  sets-add_listed p a x = ground arith

  Tracks-add_listed :
      (p a : Bytes32) (x : AxonIndex)
      → IsSorted x.map
      → Tracks x.degrees (λ d. count d x.map)
      → ((add_listed p a x).panicked ≡ x.panicked)
        × Tracks (add_listed p a x).degrees (λ d. count d (add_listed p a x).map)
  unfolding add_listed touched
  Tracks-add_listed p a x s t =
      let list = list_at p x ++ a ∷ [] in
      let x1 = record x { map = Map.insert p list x.map } in
      rw (map-add_listed p a x) (
        degree_moved-Tracks (length list - 1) (length list) x1 _ _ t (λ d h.
          ground (arith, count-insert d p list x.map h s, length-append (list_at p x) (a ∷ []))))

  pub record AddLaw (p a : Bytes32) (x : AxonIndex) (r : AxonIndex × Bool) : Type 0 where
    pub mirror : IsMirror r.0
    pub is_new : r.1 ≡ not (mem a (list_at p x))
    pub lists :
        (q : Bytes32)
        → list_at q r.0
          ≡ (if beq q p && not (mem a (list_at p x)) then list_at q x ++ a ∷ [] else list_at q x)

  module _ (p a : Bytes32) (x : AxonIndex) (v : IsMirror x) where
    abbrev set_result : Trie × Bool
    set_result = trie_set (set_of p x) a (member_digest a)

    law : SetLaw (set_of p x) a (member_digest a) set_result
    law = set-SetLaw (set_of p x) a (member_digest a) (v.valid p)

    -- The index with the particle's set changed.
    abbrev with_set : AxonIndex
    with_set = record x { sets = Map.insert p set_result.0 x.sets }

    flag : set_result.1 ≡ not (mem a (list_at p x))
    flag = law.is_new ∙ rw (v.mirrors p a) (ground arith)

    set_of-with_set :
        (q : Bytes32) → set_of q with_set ≡ (if beq q p then set_result.0 else set_of q x)
    set_of-with_set q = ground (arith, get-insert p set_result.0 x.sets q)

    with_set-IsTrie : (q : Bytes32) → IsTrie (set_of q with_set)
    with_set-IsTrie q = elim (Bool-cases (beq q p)) [
      | inl e ↦ rw (set_of-with_set q, e) law.valid
      | inr e ↦ rw (set_of-with_set q, e) (v.valid q)
    ]

    with_set-get :
        (q b : Bytes32)
        → trie_get (set_of q with_set) b
          ≡ (if beq q p && beq a b then some (member_digest a) else listed b (list_at q x))
    with_set-get q b = elim (Bool-cases (beq q p)) [
      | inl e ↦
          rw (set_of-with_set q, e, eq_of_beq q p e)
            (law.gets b ∙ ap (λ z. if beq a b then some (member_digest a) else z) (v.mirrors p b))
      | inr e ↦ rw (set_of-with_set q, e) (v.mirrors q b)
    ]

    listed-AddLaw : mem a (list_at p x) ≡ true → AddLaw p a x (with_set, false)
    listed-AddLaw h = record {
      mirror = record {
        valid = with_set-IsTrie;
        mirrors = λ q b. with_set-get q b ∙ ground (arith, h, eq_of_beq q p, eq_of_beq a b);
        distinct = v.distinct;
        sorted = v.sorted;
        tracks = v.tracks;
        unpanicked = v.unpanicked;
      };
      is_new = rw h;
      lists = λ q. ground (arith, h);
    }

    list_at-add_listed :
        (q : Bytes32)
        → list_at q (add_listed p a with_set)
          ≡ (if beq q p then list_at p x ++ a ∷ [] else list_at q x)
    list_at-add_listed q =
        ap (λ m. list_or_empty (Map.get q m)) (map-add_listed p a with_set)
        ∙ ground (arith, get-insert p (list_at p x ++ a ∷ []) x.map q)

    set_of-add_listed : (q : Bytes32) → set_of q (add_listed p a with_set) ≡ set_of q with_set
    set_of-add_listed q = ap (λ m. set_or_new (Map.get q m)) (sets-add_listed p a with_set)

    listed-add :
        (q b : Bytes32)
        → (if beq q p && beq a b then some (member_digest a) else listed b (list_at q x))
          ≡ listed b (if beq q p then list_at p x ++ a ∷ [] else list_at q x)
    listed-add q b =
        ground (arith, mem-append b a (list_at p x), eq_of_beq q p, beq_iff a b, beq_iff b a)

    unlisted-AddLaw : mem a (list_at p x) ≡ false → AddLaw p a x (add_listed p a with_set, true)
    unlisted-AddLaw h = record {
      mirror = record {
        valid = λ q. rw (set_of-add_listed q) (with_set-IsTrie q);
        mirrors = λ q b.
            rw (set_of-add_listed q, list_at-add_listed q) (with_set-get q b ∙ listed-add q b);
        distinct = λ q. elim (Bool-cases (beq q p)) [
          | inl e ↦
              rw (list_at-add_listed q, e) (append-IsDistinct a (list_at p x) h (v.distinct p))
          | inr e ↦ rw (list_at-add_listed q, e) (v.distinct q)
        ];
        sorted =
            rw (map-add_listed p a with_set)
              (insert-IsSorted p (list_at p x ++ a ∷ []) x.map v.sorted);
        tracks = (Tracks-add_listed p a with_set v.sorted v.tracks).1;
        unpanicked = (Tracks-add_listed p a with_set v.sorted v.tracks).0 ∙ v.unpanicked;
      };
      is_new = rw h;
      lists = λ q. list_at-add_listed q ∙ ground (arith, h, eq_of_beq q p);
    }

  -- In a well-formed index, one whose lists mirror its sets and whose histogram counts the lists,
  -- `add` does not panic and keeps it well formed. It returns true exactly if the
  -- axon was not in the particle's list; then the axon is appended to that list, otherwise that
  -- list stays, and the lists of the other particles stay in either case.
  pub add-AddLaw : (p a : Bytes32) (x : AxonIndex) → IsMirror x → AddLaw p a x (add p a x)
  unfolding add
  add-AddLaw p a x v = elim (Bool-cases (mem a (list_at p x))) [
    | inl h ↦
        let e : (set_result p a x v).1 ≡ false = flag p a x v ∙ ap not h in
        rw (e, add) (listed-AddLaw p a x v h)
    | inr h ↦
        let e : (set_result p a x v).1 ≡ true = flag p a x v ∙ ap not h in
        rw (e, add) (unlisted-AddLaw p a x v h)
  ]
