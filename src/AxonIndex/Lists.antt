-- ===== src/AxonIndex/Lists.antt =====
-- `AxonIndex::remove`, `insert` and `truncate` of rs/src/keyed.rs, which change a particle's whole
-- list: the index stays well formed, and no `expect` fails.
use bbg.Prelude.{
  ℕ, ◌≡◌, refl, ap, ap₂, sym, ◌∙◌, true, false, not, ◌&&◌, ◌||◌, none, some, List, [], ◌∷◌, length,
  ◌==◌, if◌then◌else◌, arith, Bool-cases, Option-cases, inl, inr, subst,
}
use bbg.Prelude.Ord.{beq, beq_iff, eq_of_beq, beq_self}
use bbg.Bytes.{Bytes32, bytes32_ord}
use bbg.Root.{Hemera}
use bbg.Map
use bbg.Map.{Map}
use bbg.Trie.{Trie, new as trie_new, set as trie_set, get as trie_get}
use bbg.Trie.Invariant.{IsTrie, new-IsTrie}
use bbg.Trie.SetLaw.{set-SetLaw}
use bbg.AxonIndex.{
  panic, degree_left, AxonIndex, member_digest, degree_moved, touched, remove, fresh_axons, insert,
  insert_listed, put_list,
}
use bbg.AxonIndex.Degrees.{length_at}
use bbg.AxonIndex.AddLaw.{mem, list_at, listed, IsDistinct, IsMirror}
use bbg.AxonIndex.PutList.{nil_of_length, replaced, list_at-replaced, replaced-IsMirror}

module _ ⦃H : Hemera⦄ where
  -- The outcome of a call after which the particle's list is `list`.
  pub record ListLaw (p : Bytes32) (list : List Bytes32) (x y : AxonIndex) : Type 0 where
    pub mirror : IsMirror y
    pub lists : (q : Bytes32) → list_at q y ≡ (if beq q p then list else list_at q x)

  pub replaced-ListLaw :
      (p : Bytes32) (list : List Bytes32) (set : Trie) (x : AxonIndex)
      → IsMirror x
      → IsTrie set
      → ((b : Bytes32) → trie_get set b ≡ listed b list)
      → IsDistinct list
      → ListLaw p list x (replaced (length_at p x.map) p list set x)
  replaced-ListLaw p list set x v valid gets distinct = record {
    mirror = replaced-IsMirror p list set x v valid gets distinct;
    lists = list_at-replaced p list set x;
  }

  new-listed : (b : Bytes32) → trie_get trie_new b ≡ listed b []
  unfolding mem trie_get
  new-listed b = refl

  remove-found :
      (p : Bytes32) (x : AxonIndex) (old : List Bytes32)
      → Map.get p x.map ≡ some old
      → remove p x ≡ (replaced (length old) p [] trie_new x, some old)
  unfolding remove put_list
  remove-found p x old e = rw (e, remove) refl

  remove-missing : (p : Bytes32) (x : AxonIndex) → Map.get p x.map ≡ none → remove p x ≡ (x, none)
  unfolding remove
  remove-missing p x e = rw (e, remove) refl

  pub remove-ListLaw :
      (p : Bytes32) (x : AxonIndex)
      → IsMirror x
      → ListLaw p [] x (remove p x).0 × ((remove p x).1 ≡ Map.get p x.map)
  remove-ListLaw p x v = elim (Option-cases (Map.get p x.map)) [
    | inl e ↦
        let same : list_at p x ≡ [] = rw e refl in
        rw (remove-missing p x e)
          (record { mirror = v; lists = λ q. ground (arith, same, eq_of_beq q p) }, sym e)
    | inr (old, e) ↦
        let size : length_at p x.map ≡ length old = rw e refl in
        rw (remove-found p x old e) (
          subst (λ n. ListLaw p [] x (replaced n p [] trie_new x)) size
              (replaced-ListLaw p [] trie_new x v new-IsTrie new-listed tt),
          sym e,
        )
  ]

  -- The axons of a list that are not known, each at its first place.
  unfoldable pub unique : List Bytes32 → List Bytes32 → List Bytes32
  unique known [] = []
  unique known (a ∷ list) =
      let rest = unique (a ∷ known) list in if mem a known then rest else a ∷ rest

  -- The set with the axons of a list, and those that were new to it: each once.
  record FreshLaw (set : Trie) (known list : List Bytes32) (r : Trie × List Bytes32) : Type 0 where
    pub valid : IsTrie r.0
    pub gets :
        (b : Bytes32)
        → trie_get r.0 b ≡ (if mem b known || mem b r.1 then some (member_digest b) else none)
    pub kept : (b : Bytes32) → mem b r.1 ≡ (mem b list && not (mem b known))
    pub distinct : IsDistinct r.1
    pub same : r.1 ≡ unique known list

  fresh_axons-FreshLaw :
      (set : Trie) (known list : List Bytes32)
      → IsTrie set
      → ((b : Bytes32) → trie_get set b ≡ listed b known)
      → FreshLaw set known list (fresh_axons set list)
  unfolding fresh_axons mem unique
  fresh_axons-FreshLaw set known [] v h = record {
    valid = v;
    gets = λ b. h b ∙ ground arith;
    kept = λ b. refl;
    distinct = tt;
    same = refl;
  }
  fresh_axons-FreshLaw set known (a ∷ list) v h =
      let law = set-SetLaw set a (member_digest a) v in
      let next = (trie_set set a (member_digest a)).0 in
      let rest =
        fresh_axons-FreshLaw next (a ∷ known) list law.valid
          (λ b. law.gets b ∙ ground (arith, h b, beq_iff a b, beq_iff b a)) in
      elim (Bool-cases (mem a known)) [
        | inl old ↦
            let flag : (trie_set set a (member_digest a)).1 ≡ false =
              law.is_new ∙ rw (h a, old) refl in
            rw flag (record {
              valid = rest.valid;
              gets = λ b. rest.gets b ∙ ground (arith, old, beq_iff b a);
              kept = λ b. rest.kept b ∙ ground (arith, old, beq_iff b a);
              distinct = rest.distinct;
              same = rest.same ∙ rw old refl;
            })
        | inr fresh ↦
            let flag : (trie_set set a (member_digest a)).1 ≡ true =
              law.is_new ∙ rw (h a, fresh) refl in
            rw flag (record {
              valid = rest.valid;
              gets = λ b. rest.gets b ∙ ground (arith, beq_iff b a);
              kept = λ b. ground (arith, rest.kept b, fresh, beq_iff b a);
              distinct = (ground (arith, rest.kept a, beq_self a), rest.distinct);
              same = ap (λ l. a ∷ l) rest.same ∙ rw fresh refl;
            })
      ]

  pub firsts-unique : (list : List Bytes32) → (fresh_axons trie_new list).1 ≡ unique [] list
  firsts-unique list = (fresh_axons-FreshLaw trie_new [] list new-IsTrie new-listed).same

  -- A list's axons, the repeated ones at their first place.
  abbrev pub firsts : List Bytes32 → List Bytes32
  firsts list = (fresh_axons trie_new list).1

  -- The histogram, the lists and the sets change apart from each other.
  degree_moved-apart :
      (old next : ℕ) (x : AxonIndex) (m : Map Bytes32 (List Bytes32)) (sets : Map Bytes32 Trie)
      → record (degree_moved old next x) { map = m; sets = sets }
        ≡ degree_moved old next (record x { map = m; sets = sets })
  unfolding degree_moved panic
  degree_moved-apart old next x m sets = elim (Bool-cases (old == next)) [
    | inl e ↦ rw (e, degree_moved) refl
    | inr e ↦ elim (Option-cases (degree_left old x.degrees)) [
      | inl f ↦ rw (e, f, degree_moved) refl
      | inr f ↦ rw (e, f.1, degree_moved) refl
    ]
  ]

  pub put_list-kept :
      (p : Bytes32) (list : List Bytes32) (set : Trie) (x : AxonIndex)
      → (length list == 0) ≡ false
      → put_list p list set x
        ≡ record x { map = Map.insert p list x.map; sets = Map.insert p set x.sets }
  unfolding put_list
  put_list-kept p list set x e = rw (e, put_list) refl

  map-degree_moved :
      (old next : ℕ) (x : AxonIndex)
      → ((degree_moved old next x).map ≡ x.map) × ((degree_moved old next x).sets ≡ x.sets)
  unfolding degree_moved panic
  map-degree_moved old next x = (ground arith, ground arith)

  insert_listed-replaced :
      (p : Bytes32) (list : List Bytes32) (set : Trie) (x : AxonIndex)
      → (length list == 0) ≡ false
      → insert_listed p list set x ≡ replaced 0 p list set x
  unfolding insert_listed
  insert_listed-replaced p list set x e =
      let moved = degree_moved 0 (length list) x in
      let apart = map-degree_moved 0 (length list) x in
      ap₂
        (λ m sets.
          touched p (record moved { map = Map.insert p list m; sets = Map.insert p set sets }))
        apart.0 apart.1
      ∙ ap (touched p) (
          degree_moved-apart 0 (length list) x (Map.insert p list x.map) (Map.insert p set x.sets)
          ∙ ap (degree_moved 0 (length list)) (sym (put_list-kept p list set x e)))

  insert-kept :
      (p : Bytes32) (list : List Bytes32) (x : AxonIndex)
      → (length (firsts list) == 0) ≡ false
      → (insert p list x).0
        ≡ insert_listed p (firsts list) (fresh_axons trie_new list).0 (remove p x).0
  unfolding insert
  insert-kept p list x e = rw (e, insert) refl

  pub insert-ListLaw :
      (p : Bytes32) (list : List Bytes32) (x : AxonIndex)
      → IsMirror x
      → ListLaw p (firsts list) x (insert p list x).0
  unfolding insert put_list mem
  insert-ListLaw p list x v =
      let (gone, _) = remove-ListLaw p x v in
      let law = fresh_axons-FreshLaw trie_new [] list new-IsTrie new-listed in
      let x1 = (remove p x).0 in
      let set = (fresh_axons trie_new list).0 in
      elim (Bool-cases (length (firsts list) == 0)) [
        | inl e ↦
            rw (e, insert)
              (record {
                mirror = gone.mirror;
                lists = λ q.
                    gone.lists q
                    ∙ ap (λ l. if beq q p then l else list_at q x)
                        (sym (nil_of_length (firsts list) e));
              })
        | inr e ↦
            let size : length_at p x1.map ≡ 0 =
              ap (λ l. length l) (gone.lists p) ∙ ground (arith, beq_self p) in
            let put : ListLaw p (firsts list) x1 (replaced 0 p (firsts list) set x1) =
              subst (λ n. ListLaw p (firsts list) x1 (replaced n p (firsts list) set x1)) size
                (replaced-ListLaw p (firsts list) set x1 gone.mirror law.valid law.gets
                  law.distinct) in
            rw (insert-kept p list x e, insert_listed-replaced p (firsts list) set x1 e)
              (record {
                mirror = put.mirror;
                lists = λ q. put.lists q ∙ ground (arith, gone.lists q);
              })
      ]
