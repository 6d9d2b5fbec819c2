-- ===== src/Storage/Buffer/Pending.antt =====
-- The pending index of rs/src/storage/buffer.rs: what `positions` and `elements` say of `dirty`,
-- and that a staged write keeps it.
use bbg.Prelude.{
  ℕ, ◌≡◌, refl, sym, ◌∙◌, Option, none, some, length, ◌==◌, arith, Bool-cases, inl, inr,
}
use bbg.Prelude.Ord.{beq, eq_of_beq, beq_self}
use bbg.Root.{Hemera}
use bbg.Map
use bbg.Map.{Map}
use bbg.Map.Laws.{get-insert, get-remove}
use bbg.Storage.{EntryKey, entry_ord}
use bbg.Storage.Buffer.{empty, WriteBuffer, Value, key_at, stage}
use bbg.Storage.Buffer.Places.{
  key_at-bound, key_at-append, total-append, key_at-set_value, total-set_value, value_at-total,
  total,
}

module _ ⦃H : Hemera⦄ where
  -- Every dirty entry is indexed at its place and nothing else is, no dirty key is deleted, and the
  -- elements are those of the dirty entries.
  pub record IsPending (b : WriteBuffer) : Type 0 where
    pub placed : (q : EntryKey) (i : ℕ) → Map.get q b.positions ≡ some i → key_at b.dirty i ≡ some q
    pub indexed :
        (q : EntryKey) (i : ℕ) → key_at b.dirty i ≡ some q → Map.get q b.positions ≡ some i
    pub apart : (q : EntryKey) (i : ℕ) → Map.get q b.positions ≡ some i → Map.get q b.deleted ≡ none
    pub counted : b.elements ≡ total b.dirty

  pub stage-IsPending :
      (key : EntryKey) (value : Value) (position : Option ℕ) (b : WriteBuffer)
      → Map.get key b.positions ≡ position
      → IsPending b
      → IsPending (stage key value position b)
  unfolding stage
  stage-IsPending key value (some i) b e p = record {
    placed = λ q j h. key_at-set_value b.dirty i value j ∙ p.placed q j h;
    indexed = λ q j h. p.indexed q j (sym (key_at-set_value b.dirty i value j) ∙ h);
    apart = λ q j h. ground (arith, get-remove key b.deleted q, p.apart q j h);
    counted = omega (
      arith,
      p.counted,
      value_at-total b.dirty i,
      total-set_value b.dirty i value (key_at-bound b.dirty i key (p.placed key i e)),
    );
  }
  stage-IsPending key value none b e p = record {
    placed = λ q j h. elim (Bool-cases (beq q key)) [
      | inl same ↦
          let here : some (length b.dirty) ≡ some j =
            ground (arith, same, h, get-insert key (length b.dirty) b.positions q) in
          let at_end : length b.dirty ≡ j = cc here in
          ground (arith, at_end, eq_of_beq q key same, key_at-append b.dirty (key, value) j)
      | inr other ↦
          let old : Map.get q b.positions ≡ some j =
            ground (arith, other, h, get-insert key (length b.dirty) b.positions q) in
          ground (
            arith,
            p.placed q j old,
            key_at-append b.dirty (key, value) j,
            key_at-bound b.dirty j q (p.placed q j old),
          )
    ];
    indexed = λ q j h. elim (Bool-cases (j == length b.dirty)) [
      | inl last ↦
          let same : some key ≡ some q =
            ground (arith, last, h, key_at-append b.dirty (key, value) j) in
          let equal : key ≡ q = cc same in
          ground (arith, last, get-insert key (length b.dirty) b.positions q, beq_self q, equal)
      | inr inside ↦
          let old : key_at b.dirty j ≡ some q =
            ground (arith, inside, h, key_at-append b.dirty (key, value) j) in
          let was = p.indexed q j old in
          elim (Bool-cases (beq q key)) [
            | inl same ↦ absurd (cc (was, e, eq_of_beq q key same))
            | inr other ↦ ground (arith, other, was, get-insert key (length b.dirty) b.positions q)
          ]
    ];
    apart = λ q j h. elim (Bool-cases (beq q key)) [
      | inl same ↦ ground (arith, same, get-remove key b.deleted q)
      | inr other ↦
          let old : Map.get q b.positions ≡ some j =
            ground (arith, other, h, get-insert key (length b.dirty) b.positions q) in
          ground (arith, other, get-remove key b.deleted q, p.apart q j old)
    ];
    counted = omega (arith, p.counted, total-append b.dirty (key, value));
  }

  pub empty-IsPending : IsPending empty
  unfolding empty Map.get
  empty-IsPending = record {
    placed = λ q i h. absurd (cc h);
    indexed = λ q i h. absurd (cc h);
    apart = λ q i h. refl;
    counted = refl;
  }
