-- ===== src/Map/Laws.antt =====
-- What a map holds under each key after each operation.
use bbg.Prelude.{◌≡◌, refl, none, some, [], ◌∷◌, if◌then◌else◌, arith}
use bbg.Prelude.Ord.{Ord, beq}
use bbg.Map.{Map, get, insert, remove}

module _ {K V : Type 0} ⦃o : Ord K⦄ where
  pub get-insert :
      (k : K) (v : V) (m : Map K V) (q : K)
      → get q (insert k v m) ≡ (if beq q k then some v else get q m)
  unfolding get insert
  get-insert k v [] q = refl
  get-insert k v ((j, w) ∷ m) q = ground (
    arith,
    get-insert k v m q,
    o.eq_of_cmp q k,
    o.eq_of_cmp q j,
    o.eq_of_cmp k j,
    o.cmp_refl k,
    o.cmp_refl j,
  )

  pub get-remove :
      (k : K) (m : Map K V) (q : K) → get q (remove k m) ≡ (if beq q k then none else get q m)
  unfolding get remove
  get-remove k [] q = ground arith
  get-remove k ((j, w) ∷ m) q = ground (
    arith,
    get-remove k m q,
    o.eq_of_cmp q k,
    o.eq_of_cmp q j,
    o.eq_of_cmp k j,
    o.cmp_refl k,
    o.cmp_refl j,
  )
