-- ===== src/Trie/Unique.antt =====
-- rs/src/trie.rs: "the shape is a pure function of the key set". Two nodes of the invariant's shape
-- that hold the same digests under the same keys are equal but for their caches.
use native.Mathlib.Decide.{dec_lt}
use bbg.Prelude.{
  ℕ, ◌≤◌, ◌≡◌, refl, Bool, true, false, Option, none, some, arith, if◌then◌else◌, Bool-cases, inl,
  inr, ◌∙◌, sym,
}
use bbg.Bytes.{Bytes32, key_bit, bytes32_ord}
use bbg.Prelude.Ord.{eq_of_beq, beq_self}
use bbg.Root.{Hemera, Digest}
use bbg.Trie.{Node, leaf, branch}
use bbg.Trie.Shape.{AllKeys, IsCanon, reach, lookup, AllKeys-reach, AllKeys-imp}
use bbg.Trie.Lookup.{AllKeys-lookup, lookup-absent}
use bbg.Trie.Cache.{strip}

module _ ⦃H : Hemera⦄ where
  abbrev pub IsFound : Option Digest → Type 0
  IsFound o = (d : Digest) × (o ≡ some d)

  pub AllKeys-both :
      (P Q : Bytes32 → Type 0) (n : Node) → AllKeys P n → AllKeys Q n → AllKeys (λ k. P k × Q k) n
  AllKeys-both P Q (leaf k d) a b = (a, b)
  AllKeys-both P Q (branch bit left right digest dirty) a b =
      (AllKeys-both P Q left a.0 b.0, AllKeys-both P Q right a.1 b.1)

  -- Every key of a node is found in it.
  pub AllKeys-IsFound : (n : Node) → IsCanon n → AllKeys (λ k. IsFound (lookup k n)) n
  unfolding lookup
  AllKeys-IsFound (leaf k d) c = (d, rw (beq_self k))
  AllKeys-IsFound (branch bit left right digest dirty) c =
      let f = AllKeys-both _ _ left (AllKeys-IsFound left c.3) c.0 in
      let t = AllKeys-both _ _ right (AllKeys-IsFound right c.4) c.1 in
      (
        AllKeys-imp (λ k h. rw (h.1, lookup) h.0) left f,
        AllKeys-imp (λ k h. rw (h.1, lookup) h.0) right t,
      )

  -- Each side of a branch holds a key that the branch finds.
  IsFound-left :
      (bit : ℕ) (left right : Node) (digest : Digest) (dirty : Bool)
      → (let n = branch bit left right digest dirty in
          IsCanon n → (k : Bytes32) × (key_bit k bit ≡ false) × IsFound (lookup k n))
  IsFound-left bit left right digest dirty c =
      let any = c.2.0 in
      (
        (reach any left).0,
        AllKeys-reach _ any left c.0,
        AllKeys-reach _ any left (AllKeys-IsFound (branch bit left right digest dirty) c).0,
      )

  IsFound-right :
      (bit : ℕ) (left right : Node) (digest : Digest) (dirty : Bool)
      → (let n = branch bit left right digest dirty in
          IsCanon n → (k : Bytes32) × (key_bit k bit ≡ true) × IsFound (lookup k n))
  IsFound-right bit left right digest dirty c =
      let any = c.2.0 in
      (
        (reach any right).0,
        AllKeys-reach _ any right c.1,
        AllKeys-reach _ any right (AllKeys-IsFound (branch bit left right digest dirty) c).1,
      )

  abbrev pub SameLookups : Node → Node → Type 0
  SameLookups n m = (q : Bytes32) → lookup q n ≡ lookup q m

  -- A node whose keys all have the same bit `b` does not hold the keys of a branch at `b`.
  no_split :
      (bit : ℕ) (left right : Node) (digest : Digest) (dirty : Bool) (m : Node) (value : Bool)
      → IsCanon (branch bit left right digest dirty)
      → AllKeys (λ k. value ≡ key_bit k bit) m
      → SameLookups (branch bit left right digest dirty) m
      → ⊥
  no_split bit left right digest dirty m value c a same =
      let (k, kb, kf) = IsFound-left bit left right digest dirty c in
      let (l, lb, lf) = IsFound-right bit left right digest dirty c in
      let x = AllKeys-lookup _ k m kf.0 a (sym (same k) ∙ kf.1) in
      let y = AllKeys-lookup _ l m lf.0 a (sym (same l) ∙ lf.1) in cc

  not_before :
      (bit : ℕ) (left right : Node) (digest : Digest) (dirty : Bool) (bit' : ℕ)
      (left' right' : Node) (digest' : Digest) (dirty' : Bool)
      → IsCanon (branch bit left right digest dirty)
      → IsCanon (branch bit' left' right' digest' dirty')
      → SameLookups (branch bit left right digest dirty) (branch bit' left' right' digest' dirty')
      → bit' ≤ bit
  not_before bit left right digest dirty bit' left' right' digest' dirty' c c' same =
      elim (dec_lt bit bit') [
        | yes h ↦
            let (p, l, r) = c'.2 in
            absurd (
              no_split bit left right digest dirty _ (key_bit p bit) c
                (AllKeys-imp (λ k s. s bit h) left' l, AllKeys-imp (λ k s. s bit h) right' r) same)
        | no h ↦ omega arith
      ]

  -- A side of a branch, by what the whole branch holds.
  lookup-left :
      (bit : ℕ) (left right : Node) (digest : Digest) (dirty : Bool) (q : Bytes32)
      → AllKeys (λ k. key_bit k bit ≡ false) left
      → lookup q left
        ≡ (if key_bit q bit then none else lookup q (branch bit left right digest dirty))
  unfolding lookup
  lookup-left bit left right digest dirty q a = elim (Bool-cases (key_bit q bit)) [
    | inl f ↦ rw f (lookup-absent _ q left a (λ g. cc))
    | inr f ↦ rw (f, lookup)
  ]

  lookup-right :
      (bit : ℕ) (left right : Node) (digest : Digest) (dirty : Bool) (q : Bytes32)
      → AllKeys (λ k. key_bit k bit ≡ true) right
      → lookup q right
        ≡ (if key_bit q bit then lookup q (branch bit left right digest dirty) else none)
  unfolding lookup
  lookup-right bit left right digest dirty q a = elim (Bool-cases (key_bit q bit)) [
    | inl f ↦ rw (f, lookup)
    | inr f ↦ rw f (lookup-absent _ q right a (λ g. cc))
  ]

  unique_leaf :
      (k k' : Bytes32) (d d' : Digest) → SameLookups (leaf k d) (leaf k' d') → leaf k d ≡ leaf k' d'
  unfolding lookup
  unique_leaf k k' d d' same = ground (arith, same k, beq_self k, eq_of_beq k' k)

  pub unique : (n m : Node) → IsCanon n → IsCanon m → SameLookups n m → strip n ≡ strip m
  unfolding strip
  unique (leaf k d) (leaf k' d') c c' same = unique_leaf k k' d d' same
  unique (leaf k d) (branch bit' left' right' digest' dirty') c c' same = absurd (
      no_split bit' left' right' digest' dirty' (leaf k d) (key_bit k bit') c' refl
        (λ q. sym (same q)))
  unique (branch bit left right digest dirty) (leaf k' d') c c' same =
      absurd (no_split bit left right digest dirty (leaf k' d') (key_bit k' bit) c refl same)
  unique (branch bit left right digest dirty) (branch bit' left' right' digest' dirty') c c' same =
      let e : bit ≡ bit' = omega (
        arith,
        not_before bit left right digest dirty bit' left' right' digest' dirty' c c' same,
        not_before bit' left' right' digest' dirty' bit left right digest dirty c' c
            (λ q. sym (same q)),
      ) in
      let l : strip left ≡ strip left' = unique left left' c.3 c'.3 (λ q.
        lookup-left bit left right digest dirty q c.0
        ∙ rw (same q, e) (sym (lookup-left bit' left' right' digest' dirty' q c'.0))) in
      let r : strip right ≡ strip right' = unique right right' c.4 c'.4 (λ q.
        lookup-right bit left right digest dirty q c.1
        ∙ rw (same q, e) (sym (lookup-right bit' left' right' digest' dirty' q c'.1))) in
      cc
