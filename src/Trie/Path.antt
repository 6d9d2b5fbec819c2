-- ===== src/Trie/Path.antt =====
-- The walks of rs/src/trie.rs: `descend` collects the branches that it passes, and `set` and
-- `remove` go back up them. On a trie of the invariant's shape they come to the same node as the
-- direct recursions of Shape.antt.
use native.Mathlib.Decide.{dec_le}
use bbg.Prelude.{
  ℕ, ◌≤◌, ◌≡◌, refl, ap, Bool, true, false, Option, none, some, List, ◌∷◌, arith, ltb, Bool-cases,
  inl, inr, le→ltb, ltb→le, ◌∙◌,
}
use bbg.Bytes.{Bytes32, key_bit}
use bbg.Root.{Hemera, Digest}
use bbg.Trie.{
  Node, leaf, branch, Step, Kept, descend, mark, rebuild, keep_before, split_branch, drop_leaf,
}
use bbg.Trie.Shape.{
  Shares, AllKeys, IsCanon, reach, add, update, remainder_right, remainder_left, delete,
  AllKeys-reach, AllKeys-imp,
}

module _ ⦃H : Hemera⦄ where
  pub descend-key :
      (key : Bytes32) (n : Node) (path : List Step) → (descend key n path).key ≡ (reach key n).0
  unfolding descend reach
  descend-key key (leaf k d) path = refl
  descend-key key (branch bit left right digest dirty) path = elim (Bool-cases (key_bit key bit)) [
    | inl e ↦ rw (e, descend, reach) (descend-key key right _)
    | inr e ↦ rw (e, descend, reach) (descend-key key left _)
  ]

  pub descend-digest :
      (key : Bytes32) (n : Node) (path : List Step) → (descend key n path).digest ≡ (reach key n).1
  unfolding descend reach
  descend-digest key (leaf k d) path = refl
  descend-digest key (branch bit left right digest dirty) path =
      elim (Bool-cases (key_bit key bit)) [
        | inl e ↦ rw (e, descend, reach) (descend-digest key right _)
        | inr e ↦ rw (e, descend, reach) (descend-digest key left _)
      ]

  -- Replacing the leaf and marking the path.
  pub rebuild-update :
      (key : Bytes32) (d : Digest) (n : Node) (path : List Step)
      → rebuild (leaf key d) (mark (descend key n path).path) ≡ rebuild (update key d n) (mark path)
  unfolding descend update rebuild mark
  rebuild-update key d (leaf k e) path = refl
  rebuild-update key d (branch bit left right digest dirty) path =
      elim (Bool-cases (key_bit key bit)) [
        | inl e ↦ rw (e, descend, update) (rebuild-update key d right _)
        | inr e ↦ rw (e, descend, update) (rebuild-update key d left _)
      ]

  -- The node that is left when the leaf is taken away, or the sibling in the parent's place.
  abbrev pub close : Option Node → List Step → Option Node
  close none path = drop_leaf path
  close (some n) path = some (rebuild n (mark path))

  close_right :
      (bit : ℕ) (left : Node) (digest : Digest) (dirty : Bool) (path : List Step) (o : Option Node)
      → close o (
          record { bit = bit; right = true; sibling = left; digest = digest; dirty = dirty } ∷ path)
        ≡ some (rebuild (remainder_right bit left digest o) (mark path))
  unfolding drop_leaf remainder_right
  close_right bit left digest dirty path none = refl
  close_right bit left digest dirty path (some n) = refl

  close_left :
      (bit : ℕ) (right : Node) (digest : Digest) (dirty : Bool) (path : List Step) (o : Option Node)
      → close o (
          record { bit = bit; right = false; sibling = right; digest = digest; dirty = dirty }
          ∷ path)
        ≡ some (rebuild (remainder_left bit right digest o) (mark path))
  unfolding drop_leaf remainder_left
  close_left bit right digest dirty path none = refl
  close_left bit right digest dirty path (some n) = refl

  pub drop_leaf-delete :
      (key : Bytes32) (n : Node) (path : List Step)
      → drop_leaf (descend key n path).path ≡ close (delete key n) path
  unfolding descend delete drop_leaf mark rebuild
  drop_leaf-delete key (leaf k e) path = refl
  drop_leaf-delete key (branch bit left right digest dirty) path =
      elim (Bool-cases (key_bit key bit)) [
        | inl e ↦
            rw (e, descend, delete)
              (drop_leaf-delete key right _ ∙ close_right bit left digest dirty path _)
        | inr e ↦
            rw (e, descend, delete)
              (drop_leaf-delete key left _ ∙ close_left bit right digest dirty path _)
      ]

  -- Every branch of a node decides on bit `j` or a later one.
  abbrev pub BitsFrom : ℕ → Node → Type 0
  BitsFrom j (leaf k d) = Unit
  BitsFrom j (branch bit left right digest dirty) = (j ≤ bit) × BitsFrom j left × BitsFrom j right

  -- Keys that agree before `j` are not told apart before `j`.
  pub BitsFrom-Shares :
      (j : ℕ) (p : Bytes32) (n : Node) → AllKeys (Shares j p) n → IsCanon n → BitsFrom j n
  BitsFrom-Shares j p (leaf k d) a c = tt
  BitsFrom-Shares j p (branch bit left right digest dirty) a c = (
    elim (dec_le j bit) [
      | yes h ↦ h
      | no h ↦
          let l = AllKeys-reach _ p left a.0 bit (omega arith) in
          let r = AllKeys-reach _ p right a.1 bit (omega arith) in
          let f = AllKeys-reach _ p left c.0 in let t = AllKeys-reach _ p right c.1 in cc
    ],
    BitsFrom-Shares j p left a.0 c.3,
    BitsFrom-Shares j p right a.1 c.4,
  )

  -- The `while` loop pops all of such a node's branches.
  keep_before-descend :
      (j : ℕ) (key : Bytes32) (n : Node) (path : List Step)
      → BitsFrom j n
      → keep_before j (leaf (reach key n).0 (reach key n).1) (descend key n path).path
        ≡ keep_before j n path
  unfolding keep_before descend reach
  keep_before-descend j key (leaf k e) path b = refl
  keep_before-descend j key (branch bit left right digest dirty) path b =
      elim (Bool-cases (key_bit key bit)) [
        | inl e ↦
            rw (e, descend, reach) (keep_before-descend j key right _ b.2 ∙ rw (le→ltb bit j b.0))
        | inr e ↦
            rw (e, descend, reach) (keep_before-descend j key left _ b.1 ∙ rw (le→ltb bit j b.0))
      ]

  -- A canonical branch at `j` or later has no bit before `j` below it either.
  pub BitsFrom-branch :
      (j bit : ℕ) (left right : Node) (digest : Digest) (dirty : Bool)
      → IsCanon (branch bit left right digest dirty)
      → j ≤ bit
      → BitsFrom j (branch bit left right digest dirty)
  BitsFrom-branch j bit left right digest dirty c h =
      let (p, l, r) = c.2 in
      let weaken : (k : Bytes32) → Shares bit p k → Shares j p k = λ k s m b. s m (omega arith) in
      BitsFrom-Shares j p (branch bit left right digest dirty)
        (AllKeys-imp weaken left l, AllKeys-imp weaken right r) c

  abbrev Keeps : ℕ → List Step → Type 0
  Keeps j path = (m : Node) → keep_before j m path ≡ record { split = m; path = path }

  -- What `set` builds at the end of the key's path.
  unfoldable pub split_at : ℕ → Bytes32 → Digest → Kept → Node
  split_at j key d k = rebuild (split_branch j k.split key d) (mark k.path)

  abbrev pub kept_at : ℕ → Bytes32 → Node → List Step → Kept
  kept_at j key n path =
      keep_before j (leaf (reach key n).0 (reach key n).1) (descend key n path).path

  -- Below a path that is kept whole, splitting at `j` and marking is the direct insertion.
  pub split_at-add :
      (j : ℕ) (key : Bytes32) (d : Digest) (n : Node) (path : List Step)
      → IsCanon n
      → Keeps j path
      → split_at j key d (kept_at j key n path) ≡ rebuild (add j key d n) (mark path)
  unfolding descend reach add split_at mark rebuild keep_before
  split_at-add j key d (leaf k e) path c kept = rw (kept (leaf k e))
  split_at-add j key d (branch bit left right digest dirty) path c kept =
      elim (Bool-cases (ltb bit j)) [
        | inl before ↦ elim (Bool-cases (key_bit key bit)) [
          | inl e ↦
              rw (before, e, descend, reach)
                (split_at-add j key d right _ c.4 (λ m. rw (before, keep_before)))
          | inr e ↦
              rw (before, e, descend, reach)
                (split_at-add j key d left _ c.3 (λ m. rw (before, keep_before)))
        ]
        | inr after ↦
            let n = branch bit left right digest dirty in
            let b = BitsFrom-branch j bit left right digest dirty c (ltb→le bit j after) in
            rw after (ap (split_at j key d) (keep_before-descend j key n path b ∙ kept n))
      ]
