-- ===== src/Trie/Lookup.antt =====
-- What the nodes of rs/src/trie.rs hold for each key, after each of the recursions of Shape.antt.
use bbg.Prelude.{
  ℕ, ◌≡◌, ◌≢◌, refl, ap, Bool, true, false, Option, none, some, [], arith, ltb, if◌then◌else◌,
  Bool-cases, inl, inr, ltb→le, ◌∙◌, sym,
}
use bbg.Prelude.Ord.{beq, beq_iff, eq_of_beq, beq_of_ne}
use bbg.Bytes.{Bytes32, bytes32_ord, key_bit}
use bbg.Root.{Hemera, Digest}
use bbg.Trie.{Node, leaf, branch, split_branch, descend, get_at}
use bbg.Trie.Shape.{
  Apart, AllKeys, IsCanon, reach, lookup, add, update, remainder_right, remainder_left, delete,
  AllKeys-reach,
}
use bbg.Trie.Path.{descend-key, descend-digest}
use bbg.Trie.Canon.{AllKeys-Apart}

module _ ⦃H : Hemera⦄ where
  pub lookup-reach :
      (key : Bytes32) (n : Node)
      → lookup key n ≡ (if beq (reach key n).0 key then some (reach key n).1 else none)
  unfolding lookup reach
  lookup-reach key (leaf k d) = refl
  lookup-reach key (branch bit left right digest dirty) = elim (Bool-cases (key_bit key bit)) [
    | inl e ↦ rw (e, lookup, reach) (lookup-reach key right)
    | inr e ↦ rw (e, lookup, reach) (lookup-reach key left)
  ]

  pub get_at-lookup : (key : Bytes32) (n : Node) → get_at (descend key n []) key ≡ lookup key n
  unfolding get_at
  get_at-lookup key n = rw (descend-key key n [], descend-digest key n [], lookup-reach key n)

  -- Only the keys of a node are found in it.
  pub AllKeys-lookup :
      (P : Bytes32 → Type 0) (q : Bytes32) (n : Node) (d : Digest)
      → AllKeys P n
      → lookup q n ≡ some d
      → P q
  AllKeys-lookup P q n d a h = elim (Bool-cases (beq (reach q n).0 q)) [
    | inl e ↦ rw (eq_of_beq (reach q n).0 q e) at (AllKeys-reach P q n a)
    | inr e ↦ absurd (cc (rw (lookup-reach q n, e) at h))
  ]

  pub lookup-absent :
      (P : Bytes32 → Type 0) (q : Bytes32) (n : Node) → AllKeys P n → ¬ P q → lookup q n ≡ none
  lookup-absent P q n a h = elim (Bool-cases (beq (reach q n).0 q)) [
    | inl e ↦ absurd (h (rw (eq_of_beq (reach q n).0 q e) at (AllKeys-reach P q n a)))
    | inr e ↦ rw (lookup-reach q n, e)
  ]

  -- A key is found in the node that its path leads to it in.
  pub lookup-reached :
      (key : Bytes32) (n : Node) → (reach key n).0 ≡ key → lookup key n ≡ some (reach key n).1
  lookup-reached key n h = rw (lookup-reach key n, (beq_iff (reach key n).0 key).1 h)

  -- Keys on the two sides of a branch.
  side_ne : (a b : Bytes32) (bit : ℕ) → key_bit a bit ≡ true → key_bit b bit ≡ false → a ≢ b
  side_ne a b bit e f h = cc (ap (λ k. key_bit k bit) h)

  pub lookup-update :
      (key : Bytes32) (d : Digest) (n : Node) (q : Bytes32)
      → (reach key n).0 ≡ key
      → lookup q (update key d n) ≡ (if beq key q then some d else lookup q n)
  unfolding lookup update reach
  lookup-update key d (leaf k e) q h = ground (arith, h)
  lookup-update key d (branch bit left right digest dirty) q h =
      elim (Bool-cases (key_bit key bit)) [
        | inl e ↦ elim (Bool-cases (key_bit q bit)) [
          | inl f ↦ rw (e, f, update, lookup) (lookup-update key d right q (rw (e, reach) at h))
          | inr f ↦ rw (e, f, update, lookup, beq_of_ne key q (side_ne key q bit e f))
        ]
        | inr e ↦ elim (Bool-cases (key_bit q bit)) [
          | inl f ↦ rw (e, f, update, lookup, beq_of_ne key q (λ w. side_ne q key bit f e (sym w)))
          | inr f ↦ rw (e, f, update, lookup) (lookup-update key d left q (rw (e, reach) at h))
        ]
      ]

  abbrev pub lookup_rest : Bytes32 → Option Node → Option Digest
  lookup_rest q none = none
  lookup_rest q (some n) = lookup q n

  remainder_right-lookup :
      (q : Bytes32) (bit : ℕ) (left right : Node) (digest : Digest) (dirty : Bool) (o : Option Node)
      → AllKeys (λ k. key_bit k bit ≡ false) left
      → lookup q (remainder_right bit left digest o)
        ≡ elim (key_bit q bit) [ true ↦ lookup_rest q o | false ↦ lookup q left ]
  unfolding lookup remainder_right
  remainder_right-lookup q bit left right digest dirty none l = elim (Bool-cases (key_bit q bit)) [
    | inl e ↦ rw e (lookup-absent _ q left l (λ f. cc))
    | inr e ↦ rw e
  ]
  remainder_right-lookup q bit left right digest dirty (some n) l = refl

  remainder_left-lookup :
      (q : Bytes32) (bit : ℕ) (left right : Node) (digest : Digest) (dirty : Bool) (o : Option Node)
      → AllKeys (λ k. key_bit k bit ≡ true) right
      → lookup q (remainder_left bit right digest o)
        ≡ elim (key_bit q bit) [ true ↦ lookup q right | false ↦ lookup_rest q o ]
  unfolding lookup remainder_left
  remainder_left-lookup q bit left right digest dirty none r = elim (Bool-cases (key_bit q bit)) [
    | inl e ↦ rw e
    | inr e ↦ rw e (lookup-absent _ q right r (λ f. cc))
  ]
  remainder_left-lookup q bit left right digest dirty (some n) r = refl

  pub lookup-delete :
      (key : Bytes32) (n : Node) (q : Bytes32)
      → IsCanon n
      → (reach key n).0 ≡ key
      → lookup_rest q (delete key n) ≡ (if beq key q then none else lookup q n)
  unfolding lookup delete reach
  lookup-delete key (leaf k e) q c h = ground (arith, h)
  lookup-delete key (branch bit left right digest dirty) q c h =
      elim (Bool-cases (key_bit key bit)) [
        | inl e ↦
            rw (e, delete)
              (remainder_right-lookup q bit left right digest dirty (delete key right) c.0
                ∙ elim (Bool-cases (key_bit q bit)) [
                  | inl f ↦ rw (f, lookup) (lookup-delete key right q c.4 (rw (e, reach) at h))
                  | inr f ↦ rw (f, lookup, beq_of_ne key q (side_ne key q bit e f))
                ])
        | inr e ↦
            rw (e, delete)
              (remainder_left-lookup q bit left right digest dirty (delete key left) c.1
                ∙ elim (Bool-cases (key_bit q bit)) [
                  | inl f ↦ rw (f, lookup, beq_of_ne key q (λ w. side_ne q key bit f e (sym w)))
                  | inr f ↦ rw (f, lookup) (lookup-delete key left q c.3 (rw (e, reach) at h))
                ])
      ]

  lookup-split_branch :
      (j : ℕ) (key : Bytes32) (d : Digest) (n : Node) (q : Bytes32)
      → AllKeys (Apart j key) n
      → lookup q (split_branch j n key d) ≡ (if beq key q then some d else lookup q n)
  unfolding lookup split_branch
  lookup-split_branch j key d n q a =
      let away : key_bit q j ≡ key_bit key j → lookup q n ≡ none =
        λ s. lookup-absent (Apart j key) q n a (λ p. p.differs (sym s)) in
      elim (Bool-cases (key_bit key j)) [
        | inl e ↦ elim (Bool-cases (key_bit q j)) [
          | inl f ↦ rw (e, f, lookup, away (f ∙ sym e))
          | inr f ↦ rw (e, f, lookup, beq_of_ne key q (side_ne key q j e f))
        ]
        | inr e ↦ elim (Bool-cases (key_bit q j)) [
          | inl f ↦ rw (e, f, lookup, beq_of_ne key q (λ w. side_ne q key j f e (sym w)))
          | inr f ↦ rw (e, f, lookup, away (f ∙ sym e))
        ]
      ]

  pub lookup-add :
      (j : ℕ) (key : Bytes32) (d : Digest) (n : Node) (q : Bytes32)
      → IsCanon n
      → Apart j key (reach key n).0
      → lookup q (add j key d n) ≡ (if beq key q then some d else lookup q n)
  unfolding lookup add reach
  lookup-add j key d (leaf k e) q c a = lookup-split_branch j key d (leaf k e) q a
  lookup-add j key d (branch bit left right digest dirty) q c a = elim (Bool-cases (ltb bit j)) [
    | inl before ↦ elim (Bool-cases (key_bit key bit)) [
      | inl e ↦ elim (Bool-cases (key_bit q bit)) [
        | inl f ↦
            rw (before, e, f, add, lookup) (lookup-add j key d right q c.4 (rw (e, reach) at a))
        | inr f ↦ rw (before, e, f, add, lookup, beq_of_ne key q (side_ne key q bit e f))
      ]
      | inr e ↦ elim (Bool-cases (key_bit q bit)) [
        | inl f ↦
            rw (before, e, f, add, lookup, beq_of_ne key q (λ w. side_ne q key bit f e (sym w)))
        | inr f ↦
            rw (before, e, f, add, lookup) (lookup-add j key d left q c.3 (rw (e, reach) at a))
      ]
    ]
    | inr after ↦ rw after (
        lookup-split_branch j key d (branch bit left right digest dirty) q
          (AllKeys-Apart j key bit left right digest dirty c (ltb→le bit j after) a))
  ]
