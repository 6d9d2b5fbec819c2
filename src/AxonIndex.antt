-- ===== src/AxonIndex.antt =====
-- rs/src/keyed.rs: `AxonIndex`, the committed adjacency index. A particle's list of axons stands
-- beside the trie of the same axons, and the outer trie commits each list's length and set root.
-- An `expect` that fails, and the overflow of `*n -= 1`, are panics: `panicked` is set, which nothing
-- sets back, and nothing is said of what the index holds then.
pub mod Degrees
pub mod Longest
pub mod AddLaw
pub mod PutList
pub mod RemoveLaw
pub mod Lists
pub mod Truncate
pub mod Runs
pub mod Reads
use bbg.Prelude.{
  ℕ, ◌+◌, ◌-◌, Bool, true, false, Option, none, some, List, [], ◌∷◌, ◌++◌, length, if◌then◌else◌,
  ◌==◌, zero, suc, leb,
}
use bbg.Prelude.Ord.{beq, nat_ord}
use bbg.Bytes.{Bytes32, bytes32_ord}
use bbg.Root.{Hemera, Digest}
use bbg.Dim.{u64_limbs}
use bbg.Leaf.{leaf_digest}
use bbg.Map
use bbg.Map.{Map}
use bbg.Trie.{
  Trie, new as trie_new, set as trie_set, remove as trie_remove, root as trie_root, TrieProof,
  prove as trie_prove,
}

-- `AxonIndex`, with the member sets, the outer trie and the keys of `AxonPending` in it.
pub record AxonIndex ⦃H : Hemera⦄ : Type 0 where
  pub map : Map Bytes32 (List Bytes32)
  pub degrees : Map ℕ ℕ
  pub sets : Map Bytes32 Trie
  pub trie : Trie
  pub dirty : Map Bytes32 (Unit {0})
  pub legacy : Option Bytes32
  -- Whether a call panicked.
  pub panicked : Bool

module _ ⦃H : Hemera⦄ where
  unfoldable pub empty : AxonIndex
  empty = record {
    map = [];
    degrees = [];
    sets = [];
    trie = trie_new;
    dirty = [];
    legacy = none;
    panicked = false;
  }

  unfoldable pub panic : AxonIndex → AxonIndex
  panic x = record x { panicked = true }

  unfoldable pub member_digest : Bytes32 → Digest
  member_digest axon = leaf_digest axon []

  -- The outer leaf: the degree in two limbs, the set's root in four.
  unfoldable pub axon_leaf : Bytes32 → ℕ → Digest → Digest
  axon_leaf particle degree d =
      leaf_digest particle (u64_limbs degree ++ d.limb0 ∷ d.limb1 ∷ d.limb2 ∷ d.limb3 ∷ [])

  -- The histogram after one particle leaves degree `old`, and after one enters degree `next`. `none`
  -- is the panic of a histogram that does not track the particle's list.
  unfoldable pub degree_left : ℕ → Map ℕ ℕ → Option (Map ℕ ℕ)
  degree_left old degrees = if old == 0 then some degrees else elim (Map.get old degrees) [
    | none ↦ none
    | some n ↦
        if n == 0
        then none
        else if n - 1 == 0
        then some (Map.remove old degrees)
        else some (Map.insert old (n - 1) degrees)
  ]

  unfoldable pub degree_entered : ℕ → Map ℕ ℕ → Map ℕ ℕ
  degree_entered next degrees = if next == 0 then degrees else elim (Map.get next degrees) [
    | none ↦ Map.insert next 1 degrees
    | some n ↦ Map.insert next (n + 1) degrees
  ]

  unfoldable pub degree_moved : ℕ → ℕ → AxonIndex → AxonIndex
  unfolding degree_left degree_entered panic
  degree_moved old next x = if old == next then x else elim (degree_left old x.degrees) [
    | none ↦ panic x
    | some left ↦ record x { degrees = degree_entered next left }
  ]

  abbrev pub list_or_empty : Option (List Bytes32) → List Bytes32
  list_or_empty none = []
  list_or_empty (some list) = list

  abbrev pub set_or_new : Option Trie → Trie
  set_or_new none = trie_new
  set_or_new (some set) = set

  unfoldable pub degree : AxonIndex → Bytes32 → ℕ
  degree x particle = length (list_or_empty (Map.get particle x.map))

  unfoldable pub touched : Bytes32 → AxonIndex → AxonIndex
  touched particle x = record x { dirty = Map.insert particle tt x.dirty; legacy = none }

  -- `add` once the axon was new to the set.
  unfoldable pub add_listed : Bytes32 → Bytes32 → AxonIndex → AxonIndex
  unfolding degree_moved touched
  add_listed particle axon x =
      let list = list_or_empty (Map.get particle x.map) ++ axon ∷ [] in
      let x1 = record x { map = Map.insert particle list x.map } in
      touched particle (degree_moved (length list - 1) (length list) x1)

  -- Whether the axon is new to the particle's set, which exists afterwards in either case.
  unfoldable pub add : Bytes32 → Bytes32 → AxonIndex → AxonIndex × Bool
  unfolding member_digest add_listed
  add particle axon x =
      let (set, is_new) =
        trie_set (set_or_new (Map.get particle x.sets)) axon (member_digest axon) in
      let x1 = record x { sets = Map.insert particle set x.sets } in
      if is_new then (add_listed particle axon x1, true) else (x1, false)

  unfoldable pub remove : Bytes32 → AxonIndex → AxonIndex × Option (List Bytes32)
  unfolding degree_moved touched
  remove particle x = elim (Map.get particle x.map) [
    | none ↦ (x, none)
    | some old ↦
        let x1 = record x { map = Map.remove particle x.map; sets = Map.remove particle x.sets } in
        (touched particle (degree_moved (length old) 0 x1), some old)
  ]

  -- The `filter` of `insert`: the axons that are new to the set, and the set.
  unfoldable pub fresh_axons : Trie → List Bytes32 → Trie × List Bytes32
  unfolding member_digest
  fresh_axons set [] = (set, [])
  fresh_axons set (axon ∷ list) =
      let (next, is_new) = trie_set set axon (member_digest axon) in
      let (last, kept) = fresh_axons next list in (last, if is_new then axon ∷ kept else kept)

  -- `insert` of a list that is not empty, once the particle has none.
  unfoldable pub insert_listed : Bytes32 → List Bytes32 → Trie → AxonIndex → AxonIndex
  unfolding degree_moved touched
  insert_listed particle kept set x =
      let x1 = degree_moved 0 (length kept) x in
      touched particle (record x1 {
        map = Map.insert particle kept x1.map;
        sets = Map.insert particle set x1.sets;
      })

  unfoldable pub insert : Bytes32 → List Bytes32 → AxonIndex → AxonIndex × Option (List Bytes32)
  unfolding remove fresh_axons insert_listed
  insert particle list x =
      let (x1, old) = remove particle x in
      let (set, kept) = fresh_axons trie_new list in
      if length kept == 0 then (x1, old) else (insert_listed particle kept set x1, old)

  -- `retain(|a| a != axon)`
  unfoldable pub retain_other : Bytes32 → List Bytes32 → List Bytes32
  retain_other axon [] = []
  retain_other axon (a ∷ list) =
      let rest = retain_other axon list in if beq a axon then rest else a ∷ rest

  -- A list that is not empty, with its set; an empty one goes with its set.
  unfoldable pub put_list : Bytes32 → List Bytes32 → Trie → AxonIndex → AxonIndex
  put_list particle kept set x =
      if length kept == 0
      then record x { map = Map.remove particle x.map; sets = Map.remove particle x.sets }
      else record x { map = Map.insert particle kept x.map; sets = Map.insert particle set x.sets }

  -- The list's part of `remove_axon`, once the set had the axon and is `set` without it.
  unfoldable pub remove_listed : Bytes32 → Bytes32 → Trie → AxonIndex → AxonIndex × Bool
  unfolding retain_other put_list degree_moved touched panic
  remove_listed particle axon set x = elim (Map.get particle x.map) [
    | none ↦ (panic x, true)
    | some list ↦
        let kept = retain_other axon list in
        (
          touched particle
              (degree_moved (length list) (length kept) (put_list particle kept set x)),
          true,
        )
  ]

  unfoldable pub remove_axon : Bytes32 → Bytes32 → AxonIndex → AxonIndex × Bool
  unfolding remove_listed
  remove_axon particle axon x = elim (Map.get particle x.sets) [
    | none ↦ (x, false)
    | some set ↦
        let (next, had) = trie_remove set axon in
        if had then remove_listed particle axon next x else (x, false)
  ]

  -- `max_degree`: the last key of the histogram.
  unfoldable pub last_key : Map ℕ ℕ → ℕ
  last_key [] = 0
  last_key ((d, n) ∷ []) = d
  last_key ((d, n) ∷ e ∷ rest) = last_key (e ∷ rest)

  unfoldable pub max_degree : AxonIndex → ℕ
  unfolding last_key
  max_degree x = last_key x.degrees

  -- One round of the loop of `flush`: the set's root is read, which refreshes its caches.
  unfoldable pub flush_particle : Bytes32 → AxonIndex → AxonIndex
  unfolding axon_leaf
  flush_particle particle x = elim (Map.get particle x.map) [
    | none ↦ record x { trie = (trie_remove x.trie particle).0 }
    | some list ↦ elim (Map.get particle x.sets) [
      | none ↦ record x { trie = (trie_remove x.trie particle).0 }
      | some set ↦
          let (next, d) = trie_root set in
          record x {
            sets = Map.insert particle next x.sets;
            trie = (trie_set x.trie particle (axon_leaf particle (length list) d)).0;
          }
    ]
  ]

  unfoldable pub flush_all : Map Bytes32 (Unit {0}) → AxonIndex → AxonIndex
  unfolding flush_particle
  flush_all [] x = x
  flush_all ((particle, _) ∷ rest) x = flush_all rest (flush_particle particle x)

  unfoldable pub flush : AxonIndex → AxonIndex
  unfolding flush_all
  flush x = record (flush_all x.dirty x) { dirty = [] }

  unfoldable pub commitment : AxonIndex → AxonIndex × Digest
  unfolding flush
  commitment x = let f = flush x in let (t, d) = trie_root f.trie in (record f { trie = t }, d)

  abbrev take_axons : ℕ → List Bytes32 → List Bytes32
  take_axons zero list = []
  take_axons (suc n) [] = []
  take_axons (suc n) (a ∷ list) = a ∷ take_axons n list

  abbrev drop_axons : ℕ → List Bytes32 → List Bytes32
  drop_axons zero list = list
  drop_axons (suc n) [] = []
  drop_axons (suc n) (a ∷ list) = drop_axons n list

  -- The set without the axons of a list.
  unfoldable pub remove_all : Trie → List Bytes32 → Trie
  remove_all set [] = set
  remove_all set (axon ∷ list) = remove_all (trie_remove set axon).0 list

  -- `truncate` of a list that is longer than `len`, which is not 0.
  unfoldable pub truncate_list : Bytes32 → ℕ → List Bytes32 → AxonIndex → AxonIndex × ℕ
  unfolding remove_all degree_moved touched panic
  truncate_list particle len list x = elim (Map.get particle x.sets) [
    | none ↦ (panic x, 0)
    | some set ↦
        let dropped = drop_axons len list in
        let x1 = record x {
          map = Map.insert particle (take_axons len list) x.map;
          sets = Map.insert particle (remove_all set dropped) x.sets;
        } in
        (touched particle (degree_moved (length list) len x1), length dropped)
  ]

  unfoldable pub truncate : Bytes32 → ℕ → AxonIndex → AxonIndex × ℕ
  unfolding truncate_list remove
  truncate particle len x =
      let list = list_or_empty (Map.get particle x.map) in
      if leb (length list) len
      then (x, 0)
      else if len == 0
      then (let (x1, old) = remove particle x in (x1, length (list_or_empty old)))
      else truncate_list particle len list x

  unfoldable pub clear : AxonIndex → AxonIndex
  unfolding empty
  clear x = record empty { panicked = x.panicked }

  unfoldable pub set_root : Bytes32 → AxonIndex → AxonIndex × Option Digest
  set_root particle x = elim (Map.get particle x.sets) [
    | none ↦ (x, none)
    | some set ↦
        let (next, d) = trie_root set in
        (record x { sets = Map.insert particle next x.sets }, some d)
  ]

  unfoldable pub prove : Bytes32 → AxonIndex → AxonIndex × TrieProof
  unfolding flush
  prove particle x =
      let f = flush x in let (t, p) = trie_prove f.trie particle in (record f { trie = t }, p)

  unfoldable pub prove_member : Bytes32 → Bytes32 → AxonIndex → AxonIndex × Option TrieProof
  prove_member particle axon x = elim (Map.get particle x.sets) [
    | none ↦ (x, none)
    | some set ↦
        let (next, p) = trie_prove set axon in
        (record x { sets = Map.insert particle next x.sets }, some p)
  ]

  -- `legacy_commitment`: computed by `f` over the lists and cached until the next mutation.
  unfoldable pub legacy_commitment :
      AxonIndex → (Map Bytes32 (List Bytes32) → Bytes32) → AxonIndex × Bytes32
  legacy_commitment x f = elim x.legacy [
    | some c ↦ (x, c)
    | none ↦ (record x { legacy = some (f x.map) }, f x.map)
  ]

  -- `pending`
  unfoldable pub pending : AxonIndex → ℕ
  pending x = length x.dirty
