-- ===== src/Storage/Buffer/Removal.antt =====
-- `swap_remove` in `WriteBuffer::delete` of rs/src/storage/buffer.rs: the last entry takes the place
-- of the one that goes, and the pending index follows it.
use bbg.Prelude.{
  ℕ, suc, ◌-◌, ◌<◌, ◌≡◌, refl, ap, sym, ◌∙◌, true, false, Option, none, some, length, if◌then◌else◌,
  ◌==◌, arith, Bool-cases, Option-cases, inl, inr,
}
use bbg.Prelude.Ord.{beq, eq_of_beq, beq_self, ne_of_beq}
use bbg.Root.{Hemera}
use bbg.Map
use bbg.Map.{Map}
use bbg.Map.Laws.{get-insert, get-remove}
use bbg.Storage.{EntryKey, entry_ord}
use bbg.Storage.Buffer.{WriteBuffer, key_at, swap_remove, repoint, unstage, delete_pending}
use bbg.Storage.Buffer.Places.{key_at-inside, key_at-swap_at, total-swap_at, key_at-bound}
use bbg.Storage.Buffer.Pending.{IsPending}

module _ ⦃H : Hemera⦄ where
  some-inj : (x y : EntryKey) → some x ≡ some y → x ≡ y
  some-inj x y h = cc h

  -- A key at place `i` goes, and `last` is the key of the last entry.
  module _ (key : EntryKey) (i : ℕ) (b : WriteBuffer) (e : Map.get key b.positions ≡ some i)
      (p : IsPending b) (last : EntryKey)
      (l : key_at b.dirty (length b.dirty - 1) ≡ some last) where
    bound : i < length b.dirty
    bound = key_at-bound b.dirty i key (p.placed key i e)

    abbrev left : Map EntryKey ℕ
    left = repoint (key_at (swap_remove b.dirty i) i) i (Map.remove key b.positions)

    -- What stands at the end is the last key.
    last_key :
        (j : ℕ) (q : EntryKey)
        → (suc j == length b.dirty) ≡ true
        → key_at b.dirty j ≡ some q
        → last ≡ q
    last_key j q at_end h =
        let place : j ≡ length b.dirty - 1 = ground (arith, at_end) in
        some-inj last q (sym l ∙ ap (λ n. key_at b.dirty n) (sym place) ∙ h)

    end_place : Map.get last b.positions ≡ some (length b.dirty - 1)
    end_place = p.indexed last (length b.dirty - 1) l

    -- Away from the end, the last key is another one.
    last_place :
        (q : EntryKey) → (suc i == length b.dirty) ≡ false → beq q key ≡ true → beq q last ≡ false
    last_place q inside same = elim (Bool-cases (beq q last)) [
      | inl equal ↦
          let places : some i ≡ some (length b.dirty - 1) =
            sym e
            ∙ ap (λ k. Map.get k b.positions) (sym (eq_of_beq q key same) ∙ eq_of_beq q last equal)
            ∙ end_place in
          let place : i ≡ length b.dirty - 1 = cc places in
          absurd (ground (arith, bound, place, inside))
      | inr other ↦ other
    ]

    get-left :
        (q : EntryKey)
        → Map.get q left
          ≡ (if beq q key then none else if beq q last then some i else Map.get q b.positions)
    get-left q = elim (Bool-cases (suc i == length b.dirty)) [
      | inl at_end ↦
          let here : key_at (swap_remove b.dirty i) i ≡ none =
            ground (arith, at_end, key_at-swap_at b.dirty i i bound) in
          let same = last_key i key at_end (p.placed key i e) in
          rw (here, same) (get-remove key b.positions q ∙ ground arith)
      | inr inside ↦
          let here : key_at (swap_remove b.dirty i) i ≡ some last =
            ground (arith, inside, l, key_at-swap_at b.dirty i i bound) in
          rw here (
            ground (
              arith,
              get-insert last i (Map.remove key b.positions) q,
              get-remove key b.positions q,
              eq_of_beq q key,
              eq_of_beq q last,
              last_place q inside,
            ))
    ]

    placed-left :
        (q : EntryKey) (j : ℕ) → Map.get q left ≡ some j → key_at (swap_remove b.dirty i) j ≡ some q
    placed-left q j h = elim (Bool-cases (beq q key)) [
      | inl same ↦ absurd (ground (arith, same, h, get-left q))
      | inr other ↦ elim (Bool-cases (beq q last)) [
        | inl moved ↦
            let place : some i ≡ some j = ground (arith, other, moved, h, get-left q) in
            let place : i ≡ j = cc place in
            let inside : (suc i == length b.dirty) ≡ false =
              elim (Bool-cases (suc i == length b.dirty)) [
                | inl at_end ↦
                    let same = eq_of_beq q last moved ∙ last_key i key at_end (p.placed key i e) in
                    absurd (ne_of_beq q key other same)
                | inr inside ↦ inside
              ] in
            ground
              (arith, place, inside, l, eq_of_beq q last moved, key_at-swap_at b.dirty i j bound)
        | inr still ↦
            let old : Map.get q b.positions ≡ some j =
              ground (arith, other, still, h, get-left q) in
            let was = p.placed q j old in
            let inside : (suc j == length b.dirty) ≡ false =
              elim (Bool-cases (suc j == length b.dirty)) [
                | inl at_end ↦ absurd (ne_of_beq q last still (sym (last_key j q at_end was)))
                | inr inside ↦ inside
              ] in
            let apart : (j == i) ≡ false = elim (Bool-cases (j == i)) [
              | inl here ↦
                  let place : j ≡ i = ground (arith, here) in
                  absurd (
                    ne_of_beq q key other (
                      some-inj q key
                        (sym was ∙ ap (λ n. key_at b.dirty n) place ∙ p.placed key i e)))
              | inr apart ↦ apart
            ] in
            ground (arith, inside, apart, was, key_at-swap_at b.dirty i j bound)
      ]
    ]

    indexed-left :
        (q : EntryKey) (j : ℕ) → key_at (swap_remove b.dirty i) j ≡ some q → Map.get q left ≡ some j
    indexed-left q j h = elim (Bool-cases (suc j == length b.dirty)) [
      | inl at_end ↦ absurd (ground (arith, at_end, h, key_at-swap_at b.dirty i j bound))
      | inr inside ↦ elim (Bool-cases (j == i)) [
        | inl here ↦
            let place : j ≡ i = ground (arith, here) in
            let moved : some last ≡ some q =
              ground (arith, inside, here, l, h, key_at-swap_at b.dirty i j bound) in
            let q_last : q ≡ last = sym (some-inj last q moved) in
            let other : beq q key ≡ false = elim (Bool-cases (beq q key)) [
              | inl same ↦
                  let equal : beq q last ≡ true = rw q_last (beq_self last) in
                  let away = last_place q (ground (arith, place, inside)) same in
                  absurd (cc (equal, away))
              | inr other ↦ other
            ] in
            get-left q ∙ ground (arith, other, beq_self q, q_last, place)
        | inr apart ↦
            let old =
              p.indexed q j (ground (arith, inside, apart, h, key_at-swap_at b.dirty i j bound)) in
            let other : beq q key ≡ false = elim (Bool-cases (beq q key)) [
              | inl same ↦
                  let places : some j ≡ some i =
                    sym old ∙ ap (λ k. Map.get k b.positions) (eq_of_beq q key same) ∙ e in
                  let place : j ≡ i = cc places in absurd (ground (arith, place, apart))
              | inr other ↦ other
            ] in
            let still : beq q last ≡ false = elim (Bool-cases (beq q last)) [
              | inl same ↦
                  let places : some j ≡ some (length b.dirty - 1) =
                    sym old ∙ ap (λ k. Map.get k b.positions) (eq_of_beq q last same) ∙ end_place in
                  let place : j ≡ length b.dirty - 1 = cc places in
                  absurd (ground (arith, place, inside, bound))
              | inr still ↦ still
            ] in
            get-left q ∙ ground (arith, other, still, old)
      ]
    ]

    apart-left :
        (q : EntryKey) (j : ℕ)
        → Map.get q left ≡ some j
        → (beq q key ≡ false) × (Map.get q b.deleted ≡ none)
    apart-left q j h = elim (Bool-cases (beq q key)) [
      | inl same ↦ absurd (ground (arith, same, h, get-left q))
      | inr other ↦ elim (Bool-cases (beq q last)) [
        | inl moved ↦ (other, rw (eq_of_beq q last moved) (p.apart last _ end_place))
        | inr still ↦ (other, p.apart q j (ground (arith, other, still, h, get-left q)))
      ]
    ]

  abbrev delete_at : EntryKey → Option ℕ → WriteBuffer → WriteBuffer
  delete_at key position b =
      let next = unstage key position b in record next { deleted = Map.insert key tt next.deleted }

  delete_at-IsPending :
      (key : EntryKey) (position : Option ℕ) (b : WriteBuffer)
      → Map.get key b.positions ≡ position
      → IsPending b
      → IsPending (delete_at key position b)
  unfolding unstage
  delete_at-IsPending key none b e p = record {
    placed = p.placed;
    indexed = p.indexed;
    apart = λ q j h. elim (Bool-cases (beq q key)) [
      | inl same ↦
          absurd (cc (sym e ∙ ap (λ k. Map.get k b.positions) (sym (eq_of_beq q key same)) ∙ h))
      | inr other ↦ ground (arith, other, get-insert key tt b.deleted q, p.apart q j h)
    ];
    counted = p.counted;
  }
  delete_at-IsPending key (some i) b e p =
      let inside = key_at-bound b.dirty i key (p.placed key i e) in
      elim (Option-cases (key_at b.dirty (length b.dirty - 1))) [
        | inl l ↦ absurd (key_at-inside b.dirty (length b.dirty - 1) (omega (arith, inside)) l)
        | inr l ↦ record {
          placed = placed-left key i b e p l.0 l.1;
          indexed = indexed-left key i b e p l.0 l.1;
          apart = λ q j h.
              let far = apart-left key i b e p l.0 l.1 q j h in
              ground (arith, far.0, far.1, get-insert key tt b.deleted q);
          counted = omega (arith, p.counted, total-swap_at b.dirty i inside);
        }
      ]

  pub delete_pending-IsPending :
      (key : EntryKey) (b : WriteBuffer) → IsPending b → IsPending (delete_pending key b)
  unfolding delete_pending
  delete_pending-IsPending key b p = delete_at-IsPending key (Map.get key b.positions) b refl p
