-- ===== src/Trie/Proofs.antt =====
-- `Trie::prove` and `TrieProof::verify` of rs/src/trie.rs: a proof that the trie makes is accepted.
use mathlib.Core.List.{reverse-reverse}
use bbg.Prelude.{
  Bool, leb, some, ℕ, suc, ◌≤◌, ◌≡◌, refl, ap, true, false, Option, none, some, List, [], ◌∷◌,
  arith, Bool-cases, inl, inr, ◌∙◌, sym, length, length-reverse,
}
use bbg.Prelude.Ord.{beq}
use bbg.Bytes.{Bytes32, bytes32_ord, key_bit}
use bbg.Root.{Hemera, Digest, digest_eq_self}
use bbg.Trie.{
  Node, leaf, branch, Trie, Step, descend, hash, get, root, prove, proof_of, proof_steps, verify,
  climb, out_of_order, empty_digest,
}
use bbg.Trie.Shape.{IsCanon, reach, lookup}
use bbg.Trie.Path.{BitsFrom, descend-key, descend-digest}
use bbg.Trie.Lookup.{lookup-reach}
use bbg.Trie.Cache.{IsClean, digest_of, digest_of-hash, node_digest-IsClean, hash-IsClean}
use bbg.Trie.Invariant.{IsTrie, get-lookup}
use bbg.Trie.Depth.{branch_bit-lt, BitsFrom-left, BitsFrom-right, descend-depth, room}
use bbg.Trie.Canonical.{root-root_digest, hash-IsNode, lookup-hash}

module _ ⦃H : Hemera⦄ where
  abbrev top_bit : Node → Option ℕ
  top_bit (leaf k d) = none
  top_bit (branch bit left right digest dirty) = some bit

  in_order : (bit : ℕ) (n : Node) → BitsFrom (suc bit) n → out_of_order bit (top_bit n) ≡ false
  unfolding out_of_order
  in_order bit (leaf k d) b = refl
  in_order bit (branch bit' left right digest dirty) b = ground (arith, b.0)

  below :
      (bit : ℕ) (left right : Node) (digest : Digest) (dirty : Bool)
      → IsCanon (branch bit left right digest dirty)
      → leb 256 bit ≡ false
  below bit left right digest dirty c = ground (arith, branch_bit-lt bit left right digest dirty c)

  -- Climbing from the leaf to a node gives the node's digest.
  climb-descend :
      (key : Bytes32) (goal : Digest) (n : Node) (path : List Step)
      → IsCanon n
      → IsClean n
      → climb key goal (reach key n).1 none (proof_steps (descend key n path).path)
        ≡ climb key goal (digest_of n) (top_bit n) (proof_steps path)
  unfolding descend reach digest_of climb proof_steps
  climb-descend key goal (leaf k d) path c clean = refl
  climb-descend key goal (branch bit left right digest dirty) path c clean =
      elim (Bool-cases (key_bit key bit)) [
        | inl e ↦
            rw (e, descend, reach)
              (climb-descend key goal right _ c.4 clean.3
                ∙ rw (
                  in_order bit right (BitsFrom-right bit left right digest dirty c),
                  below bit left right digest dirty c,
                  e,
                  node_digest-IsClean left clean.2,
                ))
        | inr e ↦
            rw (e, descend, reach)
              (climb-descend key goal left _ c.3 clean.2
                ∙ rw (
                  in_order bit left (BitsFrom-left bit left right digest dirty c),
                  below bit left right digest dirty c,
                  e,
                  node_digest-IsClean right clean.3,
                ))
      ]

  climb-top :
      (key : Bytes32) (n : Node) (goal : Digest)
      → digest_of n ≡ goal
      → IsCanon n
      → IsClean n
      → climb key goal (reach key n).1 none (proof_steps (descend key n []).path) ≡ some true
  unfolding proof_steps climb
  climb-top key n goal e c clean =
      climb-descend key goal n [] c clean ∙ rw (e, digest_eq_self goal) refl

  proof_of-verify :
      (key : Bytes32) (n : Node) (goal : Digest)
      → digest_of n ≡ goal
      → IsCanon n
      → IsClean n
      → verify (proof_of (descend key n [])) goal key (lookup key n) ≡ some true
  unfolding verify proof_of
  proof_of-verify key n goal e c clean =
      let up = climb-top key n goal e c clean in
      elim (Bool-cases (beq (reach key n).0 key)) [
        | inl h ↦
            rw
              (
                lookup-reach key n,
                h,
                descend-key key n [],
                descend-digest key n [],
                reverse-reverse (proof_steps (descend key n []).path),
                digest_eq_self (reach key n).1,
              )
              (rw h up)
        | inr h ↦
            rw
              (
                lookup-reach key n,
                h,
                descend-key key n [],
                descend-digest key n [],
                reverse-reverse (proof_steps (descend key n []).path),
              )
              (rw h up)
      ]

  prove-verify_on :
      (o : Option Node) (len : ℕ) (key : Bytes32)
      → IsTrie (record { root = o; len = len })
      → (let t : Trie = record { root = o; len = len } in
          verify (prove t key).1 (root t).1 key (get t key) ≡ some true)
  unfolding prove root get verify
  prove-verify_on none len key v = rw (digest_eq_self empty_digest) refl
  prove-verify_on (some n) len key v =
      let t : Trie = record { root = some n; len = len } in
      let k = hash-IsNode n v.node in
      rw (get-lookup t key, ← lookup-hash key n)
        (proof_of-verify key (hash n).0 (root t).1 (digest_of-hash n ∙ sym (root-root_digest t v))
          k.canon (hash-IsClean n v.node.cached))

  -- The proof that a valid trie makes for a key verifies against its root: as a proof of the digest
  -- held under the key where there is one, and as a proof of absence where there is none.
  pub prove-verify :
      (t : Trie) (key : Bytes32)
      → IsTrie t
      → verify (prove t key).1 (root t).1 key (get t key) ≡ some true
  prove-verify t key v = prove-verify_on t.root t.len key v

  length-proof_steps : (path : List Step) → length (proof_steps path) ≡ length path
  unfolding proof_steps
  length-proof_steps [] = refl
  length-proof_steps (s ∷ path) = ap suc (length-proof_steps path)

  room-le : (n : Node) → room n ≤ 256
  room-le (leaf k d) = omega arith
  room-le (branch bit left right digest dirty) = omega arith

  length-steps_on :
      (o : Option Node) (len : ℕ) (key : Bytes32)
      → IsTrie (record { root = o; len = len })
      → length (prove (record { root = o; len = len }) key).1.steps ≤ 256
  unfolding prove proof_of
  length-steps_on none len key v = omega arith
  length-steps_on (some n) len key v =
      let m = (hash n).0 in
      omega (
        arith,
        length-reverse (proof_steps (descend key m []).path),
        length-proof_steps (descend key m []).path,
        descend-depth key m [] (hash-IsNode n v.node).canon,
        room-le m,
      )

  -- A proof that a valid trie makes has at most 256 steps.
  pub length-steps : (t : Trie) (key : Bytes32) → IsTrie t → length (prove t key).1.steps ≤ 256
  length-steps t key v = length-steps_on t.root t.len key v
