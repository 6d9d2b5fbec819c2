-- ===== src/AxonIndex/RemoveLaw.antt =====
-- `AxonIndex::remove_axon` of rs/src/keyed.rs: every list still mirrors its set.
use bbg.Prelude.{
  subst, ◌≡◌, refl, ap, Bool, true, false, not, ◌&&◌, none, some, List, [], ◌∷◌, length,
  if◌then◌else◌, arith, Bool-cases, Option-cases, inl, inr, ◌∙◌, sym,
}
use bbg.Prelude.Ord.{beq, beq_iff, eq_of_beq}
use bbg.Bytes.{Bytes32, bytes32_ord}
use bbg.Root.{Hemera}
use bbg.Map
use bbg.Map.{Map}
use bbg.AxonIndex.Degrees.{length_at}
use bbg.Trie.{Trie, remove as trie_remove, get as trie_get}
use bbg.Trie.Invariant.{IsTrie}
use bbg.Trie.RemoveLaw.{RemoveLaw, remove-RemoveLaw}
use bbg.AxonIndex.{AxonIndex, retain_other, remove_listed, remove_axon}
use bbg.AxonIndex.AddLaw.{mem, list_at, set_of, listed, IsDistinct, IsMirror}
use bbg.AxonIndex.PutList.{replaced, list_at-replaced, replaced-IsMirror}

module _ ⦃H : Hemera⦄ where
  mem-retain_other :
      (a b : Bytes32) (list : List Bytes32)
      → mem b (retain_other a list) ≡ (mem b list && not (beq b a))
  unfolding mem retain_other
  mem-retain_other a b [] = refl
  mem-retain_other a b (c ∷ list) =
      ground (arith, mem-retain_other a b list, eq_of_beq b c, eq_of_beq b a, beq_iff c a)

  retain_other-absent :
      (a : Bytes32) (list : List Bytes32) → mem a list ≡ false → retain_other a list ≡ list
  unfolding mem retain_other
  retain_other-absent a [] h = refl
  retain_other-absent a (c ∷ list) h =
      ground (arith, retain_other-absent a list, h, beq_iff a c, beq_iff c a)

  retain_other-IsDistinct :
      (a : Bytes32) (list : List Bytes32) → IsDistinct list → IsDistinct (retain_other a list)
  unfolding mem retain_other
  retain_other-IsDistinct a [] d = tt
  retain_other-IsDistinct a (c ∷ list) d = elim (Bool-cases (beq c a)) [
    | inl e ↦ rw (e) (retain_other-IsDistinct a list d.1)
    | inr e ↦
        rw (e) (ground (arith, mem-retain_other a c list, d.0), retain_other-IsDistinct a list d.1)
  ]

  pub record RemoveAxonLaw (p a : Bytes32) (x : AxonIndex) (r : AxonIndex × Bool) : Type 0 where
    pub mirror : IsMirror r.0
    pub was_there : r.1 ≡ mem a (list_at p x)
    pub lists :
        (q : Bytes32)
        → list_at q r.0 ≡ (if beq q p then retain_other a (list_at p x) else list_at q x)

  absent-RemoveAxonLaw :
      (p a : Bytes32) (x : AxonIndex)
      → IsMirror x
      → mem a (list_at p x) ≡ false
      → RemoveAxonLaw p a x (x, false)
  absent-RemoveAxonLaw p a x v h = record {
    mirror = v;
    was_there = sym h;
    lists = λ q. ground (arith, retain_other-absent a (list_at p x) h, eq_of_beq q p);
  }

  remove_listed-found :
      (p a : Bytes32) (set : Trie) (x : AxonIndex) (list : List Bytes32)
      → Map.get p x.map ≡ some list
      → remove_listed p a set x ≡ (replaced (length list) p (retain_other a list) set x, true)
  unfolding remove_listed
  remove_listed-found p a set x list e = rw (e, remove_listed) refl

  module _ (p a : Bytes32) (x : AxonIndex) (v : IsMirror x) (set : Trie)
      (found : Map.get p x.sets ≡ some set) where
    abbrev kept : List Bytes32
    kept = retain_other a (list_at p x)

    set_same : set_of p x ≡ set
    set_same = rw found refl

    held : RemoveLaw set a (trie_remove set a)
    held = remove-RemoveLaw set a (subst (λ t. IsTrie t) set_same (v.valid p))

    in_set : (b : Bytes32) → trie_get set b ≡ listed b (list_at p x)
    in_set b = ap (λ t. trie_get t b) (sym set_same) ∙ v.mirrors p b

    flag : (trie_remove set a).1 ≡ mem a (list_at p x)
    flag = held.was_there ∙ rw (in_set a) (ground arith)

    abbrev left : Trie
    left = (trie_remove set a).0

    abbrev result : AxonIndex
    result = replaced (length_at p x.map) p kept left x

    -- The list that the source expects is there.
    listed_result : mem a (list_at p x) ≡ true → remove_listed p a left x ≡ (result, true)
    unfolding mem
    listed_result h = elim (Option-cases (Map.get p x.map)) [
      | inl e ↦ let empty : mem a (list_at p x) ≡ false = rw e refl in absurd (cc (sym h ∙ empty))
      | inr (list, e) ↦
          let same : list_at p x ≡ list = rw e refl in
          remove_listed-found p a left x list e
          ∙ ap (λ l. (replaced (length l) p (retain_other a l) left x, true)) (sym same)
    ]

    get_kept : (b : Bytes32) → trie_get left b ≡ listed b kept
    get_kept b =
        rw (held.gets b, in_set b)
          (ground (arith, mem-retain_other a b (list_at p x), beq_iff a b, beq_iff b a))

    present-RemoveAxonLaw : mem a (list_at p x) ≡ true → RemoveAxonLaw p a x (result, true)
    present-RemoveAxonLaw h = record {
      mirror =
          replaced-IsMirror p kept left x v held.valid get_kept
            (retain_other-IsDistinct a (list_at p x) (v.distinct p));
      was_there = sym h;
      lists = list_at-replaced p kept left x;
    }

  no_set :
      (p a : Bytes32) (x : AxonIndex)
      → IsMirror x
      → Map.get p x.sets ≡ none
      → mem a (list_at p x) ≡ false
  unfolding trie_get
  no_set p a x v e =
      let gone : trie_get (set_of p x) a ≡ none = rw e refl in ground (arith, v.mirrors p a, gone)

  -- In a well-formed index, one whose lists mirror its sets and whose histogram counts the lists,
  -- `remove_axon` does not panic and keeps it well formed. It returns true exactly if
  -- the axon was in the particle's list, which is the list without the axon then; the lists of the
  -- other particles stay.
  pub remove_axon-RemoveAxonLaw :
      (p a : Bytes32) (x : AxonIndex) → IsMirror x → RemoveAxonLaw p a x (remove_axon p a x)
  unfolding remove_axon
  remove_axon-RemoveAxonLaw p a x v = elim (Option-cases (Map.get p x.sets)) [
    | inl e ↦ rw (e, remove_axon) (absent-RemoveAxonLaw p a x v (no_set p a x v e))
    | inr (set, e) ↦ elim (Bool-cases (mem a (list_at p x))) [
      | inl h ↦
          rw (e, flag p a x v set e, h, listed_result p a x v set e h, remove_axon)
            (present-RemoveAxonLaw p a x v set e h)
      | inr h ↦ rw (e, flag p a x v set e, h, remove_axon) (absent-RemoveAxonLaw p a x v h)
    ]
  ]
