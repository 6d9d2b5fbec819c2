-- ===== src/Trie/Shape.antt =====
-- Nodes of rs/src/trie.rs read as plain trees: the leaf that a key leads to, the shape invariant of
-- the header ("a branch exists only where two keys first differ"), and `set` and `remove` as direct
-- recursions, to which Path.antt reduces the code's walks up and down a path.
use bbg.Prelude.{
  ℕ, ◌+◌, ◌<◌, ◌≡◌, ◌≢◌, Bool, true, false, Option, none, some, ltb, if◌then◌else◌, Bool-cases, inl,
  inr,
}
use bbg.Prelude.Ord.{beq}
use bbg.Bytes.{Bytes32, bytes32_ord, key_bit}
use bbg.Root.{Hemera, Digest}
use bbg.Trie.{Node, leaf, branch, split_branch}

-- Two keys agree on the bits before `b`.
abbrev pub Shares : ℕ → Bytes32 → Bytes32 → Type 0
Shares b p k = (m : ℕ) → m < b → key_bit p m ≡ key_bit k m

-- `b` is the first bit on which two keys differ.
pub record Apart (b : ℕ) (p k : Bytes32) : Type 0 where
  pub shares : Shares b p k
  pub differs : key_bit p b ≢ key_bit k b

module _ ⦃H : Hemera⦄ where
  abbrev pub AllKeys : (Bytes32 → Type 0) → Node → Type 0
  AllKeys P (leaf k d) = P k
  AllKeys P (branch bit left right digest dirty) = AllKeys P left × AllKeys P right

  -- A branch decides on the first bit on which its keys differ.
  abbrev pub IsCanon : Node → Type 0
  IsCanon (leaf k d) = Unit
  IsCanon (branch bit left right digest dirty) =
      AllKeys (λ k. key_bit k bit ≡ false) left
      × AllKeys (λ k. key_bit k bit ≡ true) right
      × ((p : Bytes32) × AllKeys (Shares bit p) left × AllKeys (Shares bit p) right)
      × IsCanon left
      × IsCanon right

  -- The leaf at the end of a key's path.
  unfoldable pub reach : Bytes32 → Node → Bytes32 × Digest
  reach key (leaf k d) = (k, d)
  reach key (branch bit left right digest dirty) = elim (key_bit key bit) [
    | true ↦ reach key right
    | false ↦ reach key left
  ]

  unfoldable pub lookup : Bytes32 → Node → Option Digest
  lookup key (leaf k d) = if beq k key then some d else none
  lookup key (branch bit left right digest dirty) = elim (key_bit key bit) [
    | true ↦ lookup key right
    | false ↦ lookup key left
  ]

  unfoldable pub size : Node → ℕ
  size (leaf k d) = 1
  size (branch bit left right digest dirty) = size left + size right

  -- The insertion of a new key that parts from the keys of its path at bit `j`.
  unfoldable pub add : ℕ → Bytes32 → Digest → Node → Node
  unfolding split_branch
  add j key d (leaf k e) = split_branch j (leaf k e) key d
  add j key d (branch bit left right digest dirty) =
      let n = branch bit left right digest dirty in
      let below : Node = elim (key_bit key bit) [
        | true ↦ branch bit left (add j key d right) digest true
        | false ↦ branch bit (add j key d left) right digest true
      ] in
      if ltb bit j then below else split_branch j n key d

  -- A new digest for the leaf that the key leads to.
  unfoldable pub update : Bytes32 → Digest → Node → Node
  update key d (leaf k e) = leaf key d
  update key d (branch bit left right digest dirty) = elim (key_bit key bit) [
    | true ↦ branch bit left (update key d right) digest true
    | false ↦ branch bit (update key d left) right digest true
  ]

  -- The node without the leaf that the key leads to.
  unfoldable pub remainder_right : ℕ → Node → Digest → Option Node → Node
  remainder_right bit left digest none = left
  remainder_right bit left digest (some right) = branch bit left right digest true

  unfoldable pub remainder_left : ℕ → Node → Digest → Option Node → Node
  remainder_left bit right digest none = right
  remainder_left bit right digest (some left) = branch bit left right digest true

  unfoldable pub delete : Bytes32 → Node → Option Node
  unfolding remainder_right remainder_left
  delete key (leaf k d) = none
  delete key (branch bit left right digest dirty) = elim (key_bit key bit) [
    | true ↦ some (remainder_right bit left digest (delete key right))
    | false ↦ some (remainder_left bit right digest (delete key left))
  ]

  pub AllKeys-reach :
      (P : Bytes32 → Type 0) (key : Bytes32) (n : Node) → AllKeys P n → P (reach key n).0
  unfolding reach
  AllKeys-reach P key (leaf k d) a = a
  AllKeys-reach P key (branch bit left right digest dirty) a = elim (Bool-cases (key_bit key bit)) [
    | inl e ↦ rw (e, reach) (AllKeys-reach P key right a.1)
    | inr e ↦ rw (e, reach) (AllKeys-reach P key left a.0)
  ]

  pub AllKeys-imp :
      {P Q : Bytes32 → Type 0}
      → ((k : Bytes32) → P k → Q k)
      → (n : Node) → AllKeys P n
      → AllKeys Q n
  AllKeys-imp f (leaf k d) a = f k a
  AllKeys-imp f (branch bit left right digest dirty) a =
      (AllKeys-imp f left a.0, AllKeys-imp f right a.1)

  -- A key on the path's side of a branch.
  pub reach-bit :
      (key : Bytes32) (bit : ℕ) (left right : Node) (digest : Digest) (dirty : Bool)
      → AllKeys (λ k. key_bit k bit ≡ false) left
      → AllKeys (λ k. key_bit k bit ≡ true) right
      → key_bit (reach key (branch bit left right digest dirty)).0 bit ≡ key_bit key bit
  unfolding reach
  reach-bit key bit left right digest dirty l r = elim (Bool-cases (key_bit key bit)) [
    | inl e ↦ rw (e, reach) (AllKeys-reach _ key right r)
    | inr e ↦ rw (e, reach) (AllKeys-reach _ key left l)
  ]
