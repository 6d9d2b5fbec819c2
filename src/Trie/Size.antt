-- ===== src/Trie/Size.antt =====
-- rs/src/trie.rs: the number of leaves, which `len` keeps count of.
use bbg.Prelude.{ℕ, ◌+◌, ◌≡◌, refl, Option, none, some, arith, ltb, Bool-cases, inl, inr}
use bbg.Bytes.{Bytes32, key_bit}
use bbg.Root.{Hemera, Digest}
use bbg.Trie.{Node, leaf, branch, split_branch}
use bbg.Trie.Shape.{size, add, update, delete, remainder_left, remainder_right}

module _ ⦃H : Hemera⦄ where
  abbrev pub root_size : Option Node → ℕ
  root_size none = 0
  root_size (some n) = size n

  size-split_branch :
      (j : ℕ) (n : Node) (key : Bytes32) (d : Digest) → size (split_branch j n key d) ≡ size n + 1
  unfolding size split_branch
  size-split_branch j n key d = elim (Bool-cases (key_bit key j)) [
    | inl e ↦ rw e
    | inr e ↦ rw e (omega arith)
  ]

  pub size-add : (j : ℕ) (key : Bytes32) (d : Digest) (n : Node) → size (add j key d n) ≡ size n + 1
  unfolding size add
  size-add j key d (leaf k e) = size-split_branch j (leaf k e) key d
  size-add j key d (branch bit left right digest dirty) = elim (Bool-cases (ltb bit j)) [
    | inl before ↦ elim (Bool-cases (key_bit key bit)) [
      | inl e ↦ rw (before, e, add, size) (omega (arith, size-add j key d right))
      | inr e ↦ rw (before, e, add, size) (omega (arith, size-add j key d left))
    ]
    | inr after ↦ rw after (size-split_branch j (branch bit left right digest dirty) key d)
  ]

  pub size-update : (key : Bytes32) (d : Digest) (n : Node) → size (update key d n) ≡ size n
  unfolding size update
  size-update key d (leaf k e) = refl
  size-update key d (branch bit left right digest dirty) = elim (Bool-cases (key_bit key bit)) [
    | inl e ↦ rw (e, update, size) (omega (arith, size-update key d right))
    | inr e ↦ rw (e, update, size) (omega (arith, size-update key d left))
  ]

  size-remainder_right :
      (bit : ℕ) (left : Node) (digest : Digest) (o : Option Node)
      → size (remainder_right bit left digest o) ≡ size left + root_size o
  unfolding size remainder_right
  size-remainder_right bit left digest none = omega arith
  size-remainder_right bit left digest (some n) = refl

  size-remainder_left :
      (bit : ℕ) (right : Node) (digest : Digest) (o : Option Node)
      → size (remainder_left bit right digest o) ≡ root_size o + size right
  unfolding size remainder_left
  size-remainder_left bit right digest none = omega arith
  size-remainder_left bit right digest (some n) = refl

  pub size-delete : (key : Bytes32) (n : Node) → root_size (delete key n) + 1 ≡ size n
  unfolding size delete
  size-delete key (leaf k e) = refl
  size-delete key (branch bit left right digest dirty) = elim (Bool-cases (key_bit key bit)) [
    | inl e ↦
        rw (e, delete)
          (omega
            (arith, size-remainder_right bit left digest (delete key right), size-delete key right))
    | inr e ↦
        rw (e, delete)
          (omega
            (arith, size-remainder_left bit right digest (delete key left), size-delete key left))
  ]
