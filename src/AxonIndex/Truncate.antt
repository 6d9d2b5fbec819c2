-- ===== src/AxonIndex/Truncate.antt =====
-- `AxonIndex::truncate` of rs/src/keyed.rs: the index stays well formed, and no `expect` fails.
use bbg.Prelude.{
  ℕ, zero, suc, ◌≤◌, ◌≡◌, refl, ap, ap₂, sym, ◌∙◌, true, false, ◌||◌, none, some, List, [], ◌∷◌,
  length, ◌==◌, leb, if◌then◌else◌, arith, Bool-cases, Option-cases, inl, inr, subst,
}
use bbg.Prelude.Ord.{beq, beq_iff, eq_of_beq, beq_self}
use bbg.Bytes.{Bytes32, bytes32_ord}
use bbg.Root.{Hemera}
use bbg.Map
use bbg.Map.{Map}
use bbg.Trie.{Trie, remove as trie_remove, get as trie_get}
use bbg.Trie.Invariant.{IsTrie}
use bbg.Trie.RemoveLaw.{remove-RemoveLaw}
use bbg.AxonIndex.{
  AxonIndex, member_digest, degree_moved, touched, remove, degree, take_axons, drop_axons,
  remove_all, truncate_list, truncate,
}
use bbg.AxonIndex.Degrees.{length_at}
use bbg.AxonIndex.AddLaw.{mem, list_at, set_of, listed, IsDistinct, IsMirror}
use bbg.AxonIndex.PutList.{replaced}
use bbg.AxonIndex.Lists.{ListLaw, replaced-ListLaw, put_list-kept, remove-ListLaw}

module _ ⦃H : Hemera⦄ where
  mem-take_drop :
      (b : Bytes32) (n : ℕ) (list : List Bytes32)
      → mem b list ≡ (mem b (take_axons n list) || mem b (drop_axons n list))
  unfolding mem
  mem-take_drop b zero list = refl
  mem-take_drop b (suc n) [] = refl
  mem-take_drop b (suc n) (a ∷ list) = ground (arith, mem-take_drop b n list)

  take_axons-IsDistinct :
      (n : ℕ) (list : List Bytes32) → IsDistinct list → IsDistinct (take_axons n list)
  take_axons-IsDistinct zero list d = tt
  take_axons-IsDistinct (suc n) [] d = tt
  take_axons-IsDistinct (suc n) (a ∷ list) d =
      (ground (arith, d.0, mem-take_drop a n list), take_axons-IsDistinct n list d.1)

  -- The axons that are dropped are not among those that stay.
  drop_axons-apart :
      (b : Bytes32) (n : ℕ) (list : List Bytes32)
      → IsDistinct list
      → mem b (take_axons n list) ≡ true
      → mem b (drop_axons n list) ≡ false
  unfolding mem
  drop_axons-apart b zero list d h = absurd (cc h)
  drop_axons-apart b (suc n) [] d h = absurd (cc h)
  drop_axons-apart b (suc n) (a ∷ list) d h = elim (Bool-cases (beq b a)) [
    | inl e ↦ rw (eq_of_beq b a e) (ground (arith, d.0, mem-take_drop a n list))
    | inr e ↦ drop_axons-apart b n list d.1 (ground (arith, e, h))
  ]

  length-take_axons :
      (n : ℕ) (list : List Bytes32) → n ≤ length list → length (take_axons n list) ≡ n
  length-take_axons zero list h = refl
  length-take_axons (suc n) [] h = absurd (omega (arith, h))
  length-take_axons (suc n) (a ∷ list) h = ap suc (length-take_axons n list (omega (arith, h)))

  take_axons-all : (n : ℕ) (list : List Bytes32) → length list ≤ n → take_axons n list ≡ list
  take_axons-all zero [] h = refl
  take_axons-all zero (a ∷ list) h = absurd (omega (arith, h))
  take_axons-all (suc n) [] h = refl
  take_axons-all (suc n) (a ∷ list) h = ap (λ l. a ∷ l) (take_axons-all n list (omega (arith, h)))

  remove_all-IsTrie : (list : List Bytes32) (set : Trie) → IsTrie set → IsTrie (remove_all set list)
  unfolding remove_all
  remove_all-IsTrie [] set v = v
  remove_all-IsTrie (a ∷ list) set v =
      remove_all-IsTrie list (trie_remove set a).0 (remove-RemoveLaw set a v).valid

  get-remove_all :
      (set : Trie) (list : List Bytes32) (b : Bytes32)
      → IsTrie set
      → trie_get (remove_all set list) b ≡ (if mem b list then none else trie_get set b)
  unfolding remove_all mem
  get-remove_all set [] b v = refl
  get-remove_all set (a ∷ list) b v =
      let law = remove-RemoveLaw set a v in
      get-remove_all (trie_remove set a).0 list b law.valid
      ∙ ground (arith, law.gets b, beq_iff a b, beq_iff b a)

  truncate_list-found :
      (p : Bytes32) (n : ℕ) (list : List Bytes32) (x : AxonIndex) (set : Trie)
      → Map.get p x.sets ≡ some set
      → length (take_axons n list) ≡ n
      → (n == 0) ≡ false
      → (truncate_list p n list x).0
        ≡ replaced (length list) p (take_axons n list) (remove_all set (drop_axons n list)) x
  unfolding truncate_list
  truncate_list-found p n list x set found size pos =
      let same =
        put_list-kept p (take_axons n list) (remove_all set (drop_axons n list)) x (rw size pos) in
      rw (found, truncate_list)
        (ap₂ (λ m y. touched p (degree_moved (length list) m y)) (sym size) (sym same))

  -- A list that is not empty has a set.
  set_found :
      (p : Bytes32) (x : AxonIndex) → IsMirror x → Map.get p x.sets ≡ none → length_at p x.map ≡ 0
  unfolding mem trie_get
  set_found p x v e = no_list (list_at p x) refl
    where
      no_list : (list : List Bytes32) → list_at p x ≡ list → length_at p x.map ≡ 0
      no_list [] h = ap (λ l. length l) h
      no_list (a ∷ list) h =
          let held : trie_get (set_of p x) a ≡ some (member_digest a) =
            v.mirrors p a ∙ rw (h, beq_self a) refl in
          let gone : trie_get (set_of p x) a ≡ none = rw e refl in absurd (cc (sym held ∙ gone))

  kept-ListLaw :
      (p : Bytes32) (n : ℕ) (x : AxonIndex)
      → IsMirror x
      → (set : Trie) → Map.get p x.sets ≡ some set
      → ListLaw p (take_axons n (list_at p x)) x (
          replaced
            (length_at p x.map)
            p
            (take_axons n (list_at p x))
            (remove_all set (drop_axons n (list_at p x)))
            x)
  kept-ListLaw p n x v set found =
      let same : set_of p x ≡ set = rw found refl in
      let valid : IsTrie set = subst (λ t. IsTrie t) same (v.valid p) in
      let dropped = drop_axons n (list_at p x) in
      replaced-ListLaw p (take_axons n (list_at p x)) (remove_all set dropped) x v
        (remove_all-IsTrie dropped set valid)
        (λ b.
          let held : trie_get set b ≡ listed b (list_at p x) =
            ap (λ t. trie_get t b) (sym same) ∙ v.mirrors p b in
          get-remove_all set dropped b valid
          ∙ ground (
            arith,
            held,
            mem-take_drop b n (list_at p x),
            drop_axons-apart b n (list_at p x) (v.distinct p),
          ))
        (take_axons-IsDistinct n (list_at p x) (v.distinct p))

  pub truncate-ListLaw :
      (p : Bytes32) (n : ℕ) (x : AxonIndex)
      → IsMirror x
      → ListLaw p (take_axons n (list_at p x)) x (truncate p n x).0
  unfolding truncate degree
  truncate-ListLaw p n x v = elim (Bool-cases (leb (length_at p x.map) n)) [
    | inl short ↦
        let whole = take_axons-all n (list_at p x) (ground (arith, short)) in
        rw (short, truncate)
          (record { mirror = v; lists = λ q. ground (arith, whole, eq_of_beq q p) })
    | inr long ↦ elim (Bool-cases (n == 0)) [
      | inl none_kept ↦
          let zero_kept : n ≡ 0 = ground (arith, none_kept) in
          let nothing : [] ≡ take_axons n (list_at p x) =
            ap (λ m. take_axons m (list_at p x)) (sym zero_kept) in
          rw (long, none_kept, truncate)
            (subst (λ l. ListLaw p l x (remove p x).0) nothing (remove-ListLaw p x v).0)
      | inr pos ↦ elim (Option-cases (Map.get p x.sets)) [
        | inl gone ↦ absurd (ground (arith, long, set_found p x v gone))
        | inr (set, found) ↦
            let size = length-take_axons n (list_at p x) (ground (arith, long)) in
            rw (long, pos, truncate_list-found p n (list_at p x) x set found size pos, truncate)
              (kept-ListLaw p n x v set found)
      ]
    ]
  ]
