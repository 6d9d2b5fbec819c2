-- ===== src/Trie/Canon.antt =====
-- The shape invariant of rs/src/trie.rs under insertion, replacement and removal of a leaf.
use native.Mathlib.Decide.{dec_lt}
use bbg.Prelude.{
  ℕ, ◌≤◌, ◌<◌, ◌≡◌, ◌≢◌, refl, Bool, true, false, Option, none, some, arith, ltb, Bool-cases, inl,
  inr, ltb→lt, ltb→le, ◌∙◌, sym,
}
use bbg.Bytes.{Bytes32, key_bit}
use bbg.Root.{Hemera, Digest}
use bbg.Trie.{Node, leaf, branch, split_branch}
use bbg.Trie.Shape.{
  Shares, Apart, AllKeys, IsCanon, reach, add, update, remainder_right, remainder_left, delete,
  AllKeys-reach, AllKeys-imp, reach-bit,
}

-- Two bits that both differ from a third are equal.
flip_bit : (a b c : Bool) → a ≢ b → c ≡ a → b ≢ c
flip_bit a b c h e q = h (cc)

module _ ⦃H : Hemera⦄ where
  AllKeys-split :
      (P : Bytes32 → Type 0) (j : ℕ) (n : Node) (key : Bytes32) (d : Digest)
      → AllKeys P n
      → P key
      → AllKeys P (split_branch j n key d)
  unfolding split_branch
  AllKeys-split P j n key d a p = elim (Bool-cases (key_bit key j)) [
    | inl e ↦ rw e (a, p)
    | inr e ↦ rw e (p, a)
  ]

  pub AllKeys-add :
      (P : Bytes32 → Type 0) (j : ℕ) (key : Bytes32) (d : Digest) (n : Node)
      → AllKeys P n
      → P key
      → AllKeys P (add j key d n)
  unfolding add
  AllKeys-add P j key d (leaf k e) a p = AllKeys-split P j (leaf k e) key d a p
  AllKeys-add P j key d (branch bit left right digest dirty) a p = elim (Bool-cases (ltb bit j)) [
    | inl before ↦ elim (Bool-cases (key_bit key bit)) [
      | inl e ↦ rw (before, e) (a.0, AllKeys-add P j key d right a.1 p)
      | inr e ↦ rw (before, e) (AllKeys-add P j key d left a.0 p, a.1)
    ]
    | inr after ↦ rw after (AllKeys-split P j (branch bit left right digest dirty) key d a p)
  ]

  pub AllKeys-update :
      (P : Bytes32 → Type 0) (key : Bytes32) (d : Digest) (n : Node)
      → AllKeys P n
      → P key
      → AllKeys P (update key d n)
  unfolding update
  AllKeys-update P key d (leaf k e) a p = p
  AllKeys-update P key d (branch bit left right digest dirty) a p =
      elim (Bool-cases (key_bit key bit)) [
        | inl e ↦ rw (e, update) (a.0, AllKeys-update P key d right a.1 p)
        | inr e ↦ rw (e, update) (AllKeys-update P key d left a.0 p, a.1)
      ]

  -- The keys of a node that is to be split at `j` all part from the new key there, as soon as the
  -- one that its path leads to does.
  pub AllKeys-Apart :
      (j : ℕ) (key : Bytes32) (bit : ℕ) (left right : Node) (digest : Digest) (dirty : Bool)
      → (let n = branch bit left right digest dirty in
          IsCanon n → j ≤ bit → Apart j key (reach key n).0 → AllKeys (Apart j key) n)
  AllKeys-Apart j key bit left right digest dirty c h a =
      let n = branch bit left right digest dirty in
      let (p, l, r) = c.2 in
      let met = AllKeys-reach (Shares bit p) key n (l, r) in
      let same_side = reach-bit key bit left right digest dirty c.0 c.1 in
      let beyond : j < bit = elim (dec_lt j bit) [
        | yes b ↦ b
        | no b ↦ let e : bit ≡ j = omega arith in absurd (a.differs (rw (← e) (sym same_side)))
      ] in
      let apart : (k : Bytes32) → Shares bit p k → Apart j key k = λ k s. record {
        shares = λ m b. a.shares m b ∙ sym (met m (omega arith)) ∙ s m (omega arith);
        differs = λ q. a.differs (q ∙ sym (s j beyond) ∙ met j beyond);
      } in
      (AllKeys-imp apart left l, AllKeys-imp apart right r)

  split_branch-IsCanon :
      (j : ℕ) (key : Bytes32) (d : Digest) (n : Node)
      → IsCanon n
      → AllKeys (Apart j key) n
      → IsCanon (split_branch j n key d)
  unfolding split_branch
  split_branch-IsCanon j key d n c a =
      let prefix = AllKeys-imp (λ k (s : Apart j key k). s.shares) n a in
      elim (Bool-cases (key_bit key j)) [
        | inl e ↦ rw e (
          AllKeys-imp (λ k (s : Apart j key k). ground (arith, e, s.differs)) n a,
          e,
          (key, prefix, λ m h. refl),
          c,
          tt,
        )
        | inr e ↦ rw e (
          e,
          AllKeys-imp (λ k (s : Apart j key k). ground (arith, e, s.differs)) n a,
          (key, (λ m h. refl), prefix),
          tt,
          c,
        )
      ]

  pub add-IsCanon :
      (j : ℕ) (key : Bytes32) (d : Digest) (n : Node)
      → IsCanon n
      → Apart j key (reach key n).0
      → IsCanon (add j key d n)
  unfolding add reach
  add-IsCanon j key d (leaf k e) c a = split_branch-IsCanon j key d (leaf k e) tt a
  add-IsCanon j key d (branch bit left right digest dirty) c a =
      let n = branch bit left right digest dirty in
      elim (Bool-cases (ltb bit j)) [
        | inl before ↦
            let (p, l, r) = c.2 in
            let met = AllKeys-reach (Shares bit p) key n (l, r) in
            let b = ltb→lt bit j before in
            let s : Shares bit p key = λ m h. met m h ∙ sym (a.shares m (omega arith)) in
            elim (Bool-cases (key_bit key bit)) [
              | inl e ↦
                  rw (before, e)
                    (
                      c.0,
                      AllKeys-add _ j key d right c.1 e,
                      (p, l, AllKeys-add _ j key d right r s),
                      c.3,
                      add-IsCanon j key d right c.4 (rw (e, reach) at a),
                    )
              | inr e ↦
                  rw (before, e)
                    (
                      AllKeys-add _ j key d left c.0 e,
                      c.1,
                      (p, AllKeys-add _ j key d left l s, r),
                      add-IsCanon j key d left c.3 (rw (e, reach) at a),
                      c.4,
                    )
            ]
        | inr after ↦ rw after (
            split_branch-IsCanon j key d n c
              (AllKeys-Apart j key bit left right digest dirty c (ltb→le bit j after) a))
      ]

  pub update-IsCanon :
      (key : Bytes32) (d : Digest) (n : Node)
      → IsCanon n
      → (reach key n).0 ≡ key
      → IsCanon (update key d n)
  unfolding update reach
  update-IsCanon key d (leaf k e) c h = tt
  update-IsCanon key d (branch bit left right digest dirty) c h =
      let (p, l, r) = c.2 in
      let n = branch bit left right digest dirty in
      let s : Shares bit p key = rw h at (AllKeys-reach (Shares bit p) key n (l, r)) in
      elim (Bool-cases (key_bit key bit)) [
        | inl e ↦
            rw (e, update)
              (
                c.0,
                AllKeys-update _ key d right c.1 e,
                (p, l, AllKeys-update _ key d right r s),
                c.3,
                update-IsCanon key d right c.4 (rw (e, reach) at h),
              )
        | inr e ↦
            rw (e, update)
              (
                AllKeys-update _ key d left c.0 e,
                c.1,
                (p, AllKeys-update _ key d left l s, r),
                update-IsCanon key d left c.3 (rw (e, reach) at h),
                c.4,
              )
      ]

  -- A predicate of what is left by a removal, if anything is.
  abbrev pub OnRest : (Node → Type 0) → Option Node → Type 0
  OnRest Q none = Unit
  OnRest Q (some n) = Q n

  AllKeys-remainder_right :
      (P : Bytes32 → Type 0) (bit : ℕ) (left : Node) (digest : Digest) (o : Option Node)
      → AllKeys P left
      → OnRest (AllKeys P) o
      → AllKeys P (remainder_right bit left digest o)
  unfolding remainder_right
  AllKeys-remainder_right P bit left digest none l r = l
  AllKeys-remainder_right P bit left digest (some n) l r = (l, r)

  AllKeys-remainder_left :
      (P : Bytes32 → Type 0) (bit : ℕ) (right : Node) (digest : Digest) (o : Option Node)
      → AllKeys P right
      → OnRest (AllKeys P) o
      → AllKeys P (remainder_left bit right digest o)
  unfolding remainder_left
  AllKeys-remainder_left P bit right digest none r l = r
  AllKeys-remainder_left P bit right digest (some n) r l = (l, r)

  pub AllKeys-delete :
      (P : Bytes32 → Type 0) (key : Bytes32) (n : Node)
      → AllKeys P n
      → OnRest (AllKeys P) (delete key n)
  unfolding delete
  AllKeys-delete P key (leaf k e) a = tt
  AllKeys-delete P key (branch bit left right digest dirty) a =
      elim (Bool-cases (key_bit key bit)) [
        | inl e ↦
            rw (e, delete)
              (AllKeys-remainder_right P bit left digest _ a.0 (AllKeys-delete P key right a.1))
        | inr e ↦
            rw (e, delete)
              (AllKeys-remainder_left P bit right digest _ a.1 (AllKeys-delete P key left a.0))
      ]

  remainder_right-IsCanon :
      (bit : ℕ) (left : Node) (digest : Digest) (o : Option Node)
      → AllKeys (λ k. key_bit k bit ≡ false) left
      → OnRest (AllKeys (λ k. key_bit k bit ≡ true)) o
      → (p : Bytes32) → AllKeys (Shares bit p) left
      → OnRest (AllKeys (Shares bit p)) o
      → IsCanon left
      → OnRest IsCanon o
      → IsCanon (remainder_right bit left digest o)
  unfolding remainder_right
  remainder_right-IsCanon bit left digest none l r p sl sr cl cr = cl
  remainder_right-IsCanon bit left digest (some n) l r p sl sr cl cr = (l, r, (p, sl, sr), cl, cr)

  remainder_left-IsCanon :
      (bit : ℕ) (right : Node) (digest : Digest) (o : Option Node)
      → OnRest (AllKeys (λ k. key_bit k bit ≡ false)) o
      → AllKeys (λ k. key_bit k bit ≡ true) right
      → (p : Bytes32) → OnRest (AllKeys (Shares bit p)) o
      → AllKeys (Shares bit p) right
      → OnRest IsCanon o
      → IsCanon right
      → IsCanon (remainder_left bit right digest o)
  unfolding remainder_left
  remainder_left-IsCanon bit right digest none l r p sl sr cl cr = cr
  remainder_left-IsCanon bit right digest (some n) l r p sl sr cl cr = (l, r, (p, sl, sr), cl, cr)

  pub delete-IsCanon : (key : Bytes32) (n : Node) → IsCanon n → OnRest IsCanon (delete key n)
  unfolding delete
  delete-IsCanon key (leaf k e) c = tt
  delete-IsCanon key (branch bit left right digest dirty) c =
      let (p, l, r) = c.2 in
      elim (Bool-cases (key_bit key bit)) [
        | inl e ↦
            rw (e, delete)
              (remainder_right-IsCanon bit left digest _ c.0 (AllKeys-delete _ key right c.1) p l
                (AllKeys-delete _ key right r) c.3 (delete-IsCanon key right c.4))
        | inr e ↦
            rw (e, delete)
              (remainder_left-IsCanon bit right digest _ (AllKeys-delete _ key left c.0) c.1 p
                (AllKeys-delete _ key left l) r (delete-IsCanon key left c.3) c.4)
      ]
