-- ===== src/Trie/Depth.antt =====
-- rs/src/trie.rs: the bits on a path rise towards the leaf and stay below 256, so a path has at most
-- 256 branches.
use native.Mathlib.Decide.{dec_lt}
use bbg.Prelude.{
  ℕ, suc, ◌+◌, ◌-◌, ◌≤◌, ◌<◌, ◌≡◌, Bool, true, false, List, arith, Bool-cases, inl, inr, ◌∙◌, sym,
  length,
}
use bbg.Bytes.{Bytes32, key_bit}
use bbg.Bytes.Bits.{key_bit-lt}
use bbg.Root.{Hemera, Digest}
use bbg.Trie.{Node, leaf, branch, Step, descend}
use bbg.Trie.Shape.{Shares, AllKeys, IsCanon, reach, AllKeys-reach, AllKeys-imp}
use bbg.Trie.Path.{BitsFrom, BitsFrom-Shares}
use bbg.Trie.Unique.{AllKeys-both}

module _ ⦃H : Hemera⦄ where
  -- One more than the bit of the topmost branch, or 0.
  abbrev pub past_top : Node → ℕ
  past_top (leaf k d) = 0
  past_top (branch bit left right digest dirty) = suc bit

  -- The nearest a leaf below can be.
  abbrev pub room : Node → ℕ
  room (leaf k d) = 0
  room (branch bit left right digest dirty) = 256 - bit

  -- Keys that agree before `bit` and on it agree before `suc bit`.
  child-Shares :
      (bit : ℕ) (p : Bytes32) (value : Bool) (n : Node)
      → AllKeys (Shares bit p) n
      → AllKeys (λ k. key_bit k bit ≡ value) n
      → AllKeys (Shares (suc bit) (reach p n).0) n
  child-Shares bit p value n s v =
      let both = AllKeys-both _ _ n s v in
      let (ms, mv) = AllKeys-reach _ p n both in
      AllKeys-imp
        (λ k h m l. elim (dec_lt m bit) [
          | yes b ↦ sym (ms m b) ∙ h.0 m b
          | no b ↦ let e : m ≡ bit = omega arith in rw e (mv ∙ sym h.1)
        ])
        n both

  pub BitsFrom-child :
      (bit : ℕ) (p : Bytes32) (value : Bool) (n : Node)
      → IsCanon n
      → AllKeys (Shares bit p) n
      → AllKeys (λ k. key_bit k bit ≡ value) n
      → BitsFrom (suc bit) n
  BitsFrom-child bit p value n c s v =
      BitsFrom-Shares (suc bit) (reach p n).0 n (child-Shares bit p value n s v) c

  -- The two children of a branch decide on later bits.
  pub BitsFrom-left :
      (bit : ℕ) (left right : Node) (digest : Digest) (dirty : Bool)
      → IsCanon (branch bit left right digest dirty)
      → BitsFrom (suc bit) left
  BitsFrom-left bit left right digest dirty c =
      let (p, l, r) = c.2 in BitsFrom-child bit p false left c.3 l c.0

  pub BitsFrom-right :
      (bit : ℕ) (left right : Node) (digest : Digest) (dirty : Bool)
      → IsCanon (branch bit left right digest dirty)
      → BitsFrom (suc bit) right
  BitsFrom-right bit left right digest dirty c =
      let (p, l, r) = c.2 in BitsFrom-child bit p true right c.4 r c.1

  pub branch_bit-lt :
      (bit : ℕ) (left right : Node) (digest : Digest) (dirty : Bool)
      → IsCanon (branch bit left right digest dirty)
      → bit < 256
  branch_bit-lt bit left right digest dirty c =
      let (p, l, r) = c.2 in key_bit-lt (reach p right).0 bit (AllKeys-reach _ p right c.1)

  room_below : (bit : ℕ) (n : Node) → bit < 256 → BitsFrom (suc bit) n → suc (room n) ≤ 256 - bit
  room_below bit (leaf k d) h b = omega arith
  room_below bit (branch bit' left right digest dirty) h b = omega (arith, b.0)

  pub descend-depth :
      (key : Bytes32) (n : Node) (path : List Step)
      → IsCanon n
      → length (descend key n path).path ≤ length path + room n
  unfolding descend
  descend-depth key (leaf k d) path c = omega arith
  descend-depth key (branch bit left right digest dirty) path c =
      let h = branch_bit-lt bit left right digest dirty c in
      elim (Bool-cases (key_bit key bit)) [
        | inl e ↦
            rw (e, descend)
              (omega (
                arith,
                descend-depth key right _ c.4,
                room_below bit right h (BitsFrom-right bit left right digest dirty c),
              ))
        | inr e ↦
            rw (e, descend)
              (omega (
                arith,
                descend-depth key left _ c.3,
                room_below bit left h (BitsFrom-left bit left right digest dirty c),
              ))
      ]
