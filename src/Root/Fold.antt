-- ===== src/Root/Fold.antt =====
-- `root_from_leaves` of rs/src/root.rs: without collisions the root binds every leaf.
use mathlib.Core.List.{foldl}
use bbg.Prelude.{◌≡◌, refl, ap₂, List, [], ◌∷◌, ◌++◌, arith, length, length-append, ◌∙◌, sym}
use bbg.Root.{
  Hemera, Digest, RootLeaves, IsCollisionFree, compress4, ordered, root_iv, root_from_leaves,
}

module _ ⦃H : Hemera⦄ where
  foldl-inj :
      IsCollisionFree
      → (s t : Digest) (xs ys : List Digest) → length xs ≡ length ys
      → foldl compress4 s xs ≡ foldl compress4 t ys
      → (s ≡ t) × (xs ≡ ys)
  foldl-inj free s t [] [] l h = (h, refl)
  foldl-inj free s t [] (y ∷ ys) l h = absurd (omega arith)
  foldl-inj free s t (x ∷ xs) [] l h = absurd (omega arith)
  foldl-inj free s t (x ∷ xs) (y ∷ ys) l h =
      let tail = foldl-inj free (compress4 s x) (compress4 t y) xs ys (omega arith) h in
      let head = free.compress_inj s x t y tail.0 in (head.0, ap₂ (λ z zs. z ∷ zs) head.1 tail.1)

  append-inj :
      (xs ys xs' ys' : List Digest)
      → length xs ≡ length xs'
      → xs ++ ys ≡ xs' ++ ys'
      → (xs ≡ xs') × (ys ≡ ys')
  append-inj [] ys [] ys' l h = (refl, h)
  append-inj [] ys (x ∷ xs') ys' l h = absurd (omega arith)
  append-inj (x ∷ xs) ys [] ys' l h = absurd (omega arith)
  append-inj (x ∷ xs) ys (x' ∷ xs') ys' l h =
      let head : x ≡ x' = cc h in
      let tail = append-inj xs ys xs' ys' (omega arith) (cc h) in
      (ap₂ (λ z zs. z ∷ zs) head tail.0, tail.1)

  -- Without collisions two sets of 11 dimension leaves, A, N and statistics have the same root only
  -- if they agree on every leaf.
  pub root_from_leaves-inj :
      IsCollisionFree
      → (l m : RootLeaves) → length l.dims ≡ 11
      → length m.dims ≡ 11
      → root_from_leaves l ≡ root_from_leaves m
      → (l.dims ≡ m.dims) × (l.a ≡ m.a) × (l.n ≡ m.n) × (l.stats ≡ m.stats)
  unfolding root_from_leaves ordered
  root_from_leaves-inj free l m hl hm h =
      let same =
        foldl-inj free root_iv root_iv (ordered l) (ordered m)
          (omega (
            arith,
            length-append l.dims (l.a ∷ l.n ∷ l.stats ∷ []),
            length-append m.dims (m.a ∷ m.n ∷ m.stats ∷ []),
          ))
          h in
      let split = append-inj l.dims _ m.dims _ (hl ∙ sym hm) same.1 in
      (split.0, cc (split.1), cc (split.1), cc (split.1))
