-- ===== src/Trie.antt =====
-- rs/src/trie.rs: the keyed trie, the v2 commitment of a dimension. The arena (`nodes`, `free`,
-- `alloc`, `release`) is modelled by the trees that its indices span: a `Vec` of indices becomes the
-- list of the branches passed, and marking a node on it dirty is done when the tree is put together
-- again. The cached digests and dirty flags are the source's.
pub mod Shape
pub mod Path
pub mod Canon
pub mod Lookup
pub mod Cache
pub mod Unique
pub mod Size
pub mod Invariant
pub mod SetLaw
pub mod RemoveLaw
pub mod Canonical
pub mod Depth
pub mod Proofs
pub mod Soundness
use mathlib.Core.List.{reverse, foldl}
use bbg.Prelude.{
  ℕ, zero, suc, ◌+◌, ◌-◌, ◌*◌, ◌≡◌, Bool, true, false, Option, none, some, List, [], ◌∷◌, length,
  map, leb, ◌&&◌, ltb, if◌then◌else◌,
}
use bbg.Prelude.Ord.{beq}
use bbg.Bytes.{Bytes32, bytes32_ord, key_bit, first_diff_bit}
use bbg.Root.{Hemera, Digest, compress4, digest_eq}

module _ ⦃H : Hemera⦄ where
  -- `"bbg-leaf"` and `"bbg-node"` as little-endian u64.
  abbrev pub leaf_tag : ℕ
  leaf_tag = 0x6661656c2d676262

  abbrev pub branch_tag : ℕ
  branch_tag = 0x65646f6e2d676262

  unfoldable pub empty_digest : Digest
  empty_digest = record { limb0 = H.fzero; limb1 = H.fzero; limb2 = H.fzero; limb3 = H.fzero }

  unfoldable pub branch_iv : ℕ → Digest
  branch_iv bit = record {
    limb0 = H.new branch_tag;
    limb1 = H.new bit;
    limb2 = H.fzero;
    limb3 = H.fzero;
  }

  -- `branch(i, l, r)`
  unfoldable pub branch_digest : ℕ → Digest → Digest → Digest
  branch_digest bit left right = compress4 (compress4 (branch_iv bit) left) right

  -- A node with what it owns: the arena's indices are replaced by the subtrees that they name.
  pub data Node : Type 0 where
    leaf : Bytes32 → Digest → Node
    branch : ℕ → Node → Node → Digest → Bool → Node

  pub record Trie : Type 0 where
    pub root : Option Node
    pub len : ℕ

  abbrev pub new : Trie
  new = record { root = none; len = 0 }

  -- A branch on a key's path: the side that the path takes, and what is on the other.
  pub record Step : Type 0 where
    pub bit : ℕ
    pub right : Bool
    pub sibling : Node
    pub digest : Digest
    pub dirty : Bool

  -- The step's branch with `n` on the path's side.
  unfoldable pub replace_child : Step → Node → Node
  replace_child s n =
      if s.right
      then branch s.bit s.sibling n s.digest s.dirty
      else branch s.bit n s.sibling s.digest s.dirty

  -- `descend`: the branches passed, the deepest first, and the leaf reached.
  pub record Descent : Type 0 where
    pub path : List Step
    pub key : Bytes32
    pub digest : Digest

  unfoldable pub descend : Bytes32 → Node → List Step → Descent
  descend key (leaf k d) path = record { path = path; key = k; digest = d }
  descend key (branch bit left right digest dirty) path = elim (key_bit key bit) [
    | true ↦
        let step : Step = record {
          bit = bit;
          right = true;
          sibling = left;
          digest = digest;
          dirty = dirty;
        } in
        descend key right (step ∷ path)
    | false ↦
        let step : Step = record {
          bit = bit;
          right = false;
          sibling = right;
          digest = digest;
          dirty = dirty;
        } in
        descend key left (step ∷ path)
  ]

  unfoldable pub mark : List Step → List Step
  mark [] = []
  mark (s ∷ path) = record s { dirty = true } ∷ mark path

  -- The whole node again, from the subtree at the path's end.
  unfoldable pub rebuild : Node → List Step → Node
  unfolding replace_child
  rebuild n [] = n
  rebuild n (s ∷ path) = rebuild (replace_child s n) path

  -- The `while keep > 0` loop: the ancestors that decide on bits before `j` are kept, and what
  -- hangs below them is the subtree to split.
  pub record Kept : Type 0 where
    pub split : Node
    pub path : List Step

  unfoldable pub keep_before : ℕ → Node → List Step → Kept
  unfolding replace_child
  keep_before j n [] = record { split = n; path = [] }
  keep_before j n (s ∷ path) =
      let popped = keep_before j (replace_child s n) path in
      if ltb s.bit j then record { split = n; path = s ∷ path } else popped

  -- The branch that tells the new key from the subtree.
  unfoldable pub split_branch : ℕ → Node → Bytes32 → Digest → Node
  unfolding empty_digest
  split_branch j split key digest =
      if key_bit key j
      then branch j split (leaf key digest) empty_digest true
      else branch j (leaf key digest) split empty_digest true

  -- `set` below a root, once the leaf is reached.
  unfoldable pub set_at : Trie → Descent → Bytes32 → Digest → Trie × Bool
  unfolding mark rebuild keep_before split_branch
  set_at t d key digest =
      if beq d.key key
      then (if digest_eq d.digest digest
          then (t, false)
          else (record t { root = some (rebuild (leaf key digest) (mark d.path)) }, false))
      else let j = first_diff_bit key d.key in
        let kept = keep_before j (leaf d.key d.digest) d.path in
        let node = rebuild (split_branch j kept.split key digest) (mark kept.path) in
        (record { root = some node; len = t.len + 1 }, true)

  unfoldable pub set : Trie → Bytes32 → Digest → Trie × Bool
  unfolding descend set_at
  set t key digest = elim t.root [
    | none ↦ (record { root = some (leaf key digest); len = 1 }, true)
    | some r ↦ set_at t (descend key r []) key digest
  ]

  -- The leaf's parent gives way to the sibling.
  unfoldable pub drop_leaf : List Step → Option Node
  unfolding mark rebuild
  drop_leaf [] = none
  drop_leaf (s ∷ path) = some (rebuild s.sibling (mark path))

  unfoldable pub remove_at : Trie → Descent → Bytes32 → Trie × Bool
  unfolding drop_leaf
  remove_at t d key =
      if beq d.key key
      then (record { root = drop_leaf d.path; len = t.len - 1 }, true)
      else (t, false)

  unfoldable pub remove : Trie → Bytes32 → Trie × Bool
  unfolding descend remove_at
  remove t key = elim t.root [ none ↦ (t, false) | some r ↦ remove_at t (descend key r []) key ]

  unfoldable pub get_at : Descent → Bytes32 → Option Digest
  get_at d key = if beq d.key key then some d.digest else none

  unfoldable pub get : Trie → Bytes32 → Option Digest
  unfolding descend get_at
  get t key = elim t.root [ none ↦ none | some r ↦ get_at (descend key r []) key ]

  -- A digest that is not stale is taken as it is; a stale one is computed and stored.
  unfoldable pub hash : Node → Node × Digest
  unfolding branch_digest
  hash (leaf k d) = (leaf k d, d)
  hash (branch bit left right digest dirty) = elim dirty [
    | false ↦ (branch bit left right digest false, digest)
    | true ↦
        let (l, dl) = hash left in
        let (r, dr) = hash right in let d = branch_digest bit dl dr in (branch bit l r d false, d)
  ]

  unfoldable pub root : Trie → Trie × Digest
  unfolding hash empty_digest
  root t = elim t.root [
    | none ↦ (t, empty_digest)
    | some r ↦ let (n, d) = hash r in (record t { root = some n }, d)
  ]

  unfoldable pub node_digest : Node → Digest
  node_digest (leaf k d) = d
  node_digest (branch bit left right digest dirty) = digest

  -- `steps` are root to leaf.
  pub record TrieProof : Type 0 where
    pub steps : List (ℕ × Digest)
    pub terminal : Option (Bytes32 × Digest)

  unfoldable pub proof_steps : List Step → List (ℕ × Digest)
  unfolding node_digest
  proof_steps [] = []
  proof_steps (s ∷ path) = (s.bit, node_digest s.sibling) ∷ proof_steps path

  unfoldable pub proof_of : Descent → TrieProof
  unfolding proof_steps
  proof_of d = record { steps = reverse (proof_steps d.path); terminal = some (d.key, d.digest) }

  unfoldable pub prove_in : Bytes32 → Node → Node × TrieProof
  unfolding hash descend proof_of
  prove_in key r = let n = (hash r).0 in (n, proof_of (descend key n []))

  unfoldable pub prove : Trie → Bytes32 → Trie × TrieProof
  unfolding prove_in
  prove t key = elim t.root [
    | none ↦ (t, record { steps = []; terminal = none })
    | some r ↦ let (n, p) = prove_in key r in (record t { root = some n }, p)
  ]

  -- The loop of `verify`, over the steps from the leaf up: the bits must fall. `none` is the panic of
  -- `key_bit` at a bit of 256 or more.
  unfoldable pub out_of_order : ℕ → Option ℕ → Bool
  out_of_order bit none = false
  out_of_order bit (some l) = leb l bit

  unfoldable pub fold_step : Bytes32 → ℕ → Digest → Digest → Digest
  unfolding branch_digest
  fold_step key bit sibling cur =
      if key_bit key bit then branch_digest bit sibling cur else branch_digest bit cur sibling

  unfoldable pub climb : Bytes32 → Digest → Digest → Option ℕ → List (ℕ × Digest) → Option Bool
  unfolding out_of_order fold_step
  climb key root cur last [] = some (digest_eq cur root)
  climb key root cur last ((bit, sibling) ∷ rest) =
      let above = climb key root (fold_step key bit sibling cur) (some bit) rest in
      if out_of_order bit last then some false else if leb 256 bit then none else above

  abbrev pub is_empty : List (ℕ × Digest) → Bool
  is_empty [] = true
  is_empty (s ∷ steps) = false

  -- The match on the terminal and the claim, with the loop that follows it.
  unfoldable pub verify_terminal :
      Option (Bytes32 × Digest) → Option Digest → List (ℕ × Digest) → Digest → Bytes32 → Option Bool
  unfolding climb empty_digest
  verify_terminal none none steps root key = some (is_empty steps && digest_eq root empty_digest)
  verify_terminal none (some e) steps root key = some false
  verify_terminal (some (k, d)) (some e) steps root key =
      if beq k key && digest_eq d e then climb key root d none (reverse steps) else some false
  verify_terminal (some (k, d)) none steps root key =
      if beq k key then some false else climb key root d none (reverse steps)

  unfoldable pub verify : TrieProof → Digest → Bytes32 → Option Digest → Option Bool
  unfolding verify_terminal
  verify p root key expected = verify_terminal p.terminal expected p.steps root key

  unfoldable pub from_entries : List (Bytes32 × Digest) → Trie
  unfolding set
  from_entries entries = foldl (λ t e. (set t e.0 e.1).0) new entries
