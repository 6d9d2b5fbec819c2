-- ===== src/Storage/Buffer/Reads.antt =====
-- What the operations of rs/src/storage/buffer.rs do to the reads, and what they keep of the pending
-- entries.
use bbg.Prelude.{
  ℕ, ◌+◌, ◌-◌, ◌≤◌, ◌≡◌, refl, sym, ◌∙◌, true, false, Option, none, some, length, if◌then◌else◌,
  ◌==◌, ltb, arith, Bool-cases, Option-cases, inl, inr,
}
use bbg.Prelude.Ord.{beq}
use bbg.Bytes.{Bytes32}
use bbg.Root.{Hemera}
use bbg.Map
use bbg.Map.{Map}
use bbg.Map.Laws.{get-insert, get-remove}
use bbg.Storage.{
  StorageError, EntryKey, entry_ord, ephemeral, max_pending_elements, max_value_elements,
}
use bbg.Storage.Buffer.{
  WriteBuffer, Value, length_at, is_full, stage, put_pending, refused, put, unstage, delete_pending,
  delete,
}
use bbg.Storage.Buffer.Pending.{IsPending, stage-IsPending}
use bbg.Storage.Buffer.Removal.{delete_pending-IsPending}

module _ ⦃H : Hemera⦄ where
  -- The outcome of an operation on a key that is to hold `value`.
  pub record WriteLaw (dimension : ℕ) (key : Bytes32) (value : Option Value) (b : WriteBuffer)
      (r : WriteBuffer × Option StorageError) : Type 0 where
    pub refused : (e : StorageError) → r.1 ≡ some e → r.0 ≡ b
    pub reads :
        r.1 ≡ none
        → (q : EntryKey)
        → Map.get q r.0.cache ≡ (if beq q (dimension, key) then value else Map.get q b.cache)
    pub local_only :
        (dimension == ephemeral) ≡ true
        → (r.0.dirty ≡ b.dirty) × (r.0.deleted ≡ b.deleted) × (r.0.elements ≡ b.elements)
    pub bounded : r.0.elements ≤ max_pending_elements
    pub kept : IsPending r.0

  -- The index does not speak of the cache.
  cached :
      (b : WriteBuffer) (c : Map EntryKey Value) → IsPending b → IsPending (record b { cache = c })
  cached b c p = record {
    placed = p.placed;
    indexed = p.indexed;
    apart = p.apart;
    counted = p.counted;
  }

  unchanged :
      (dimension : ℕ) (key : Bytes32) (value : Option Value) (b : WriteBuffer) (e : StorageError)
      → IsPending b
      → b.elements ≤ max_pending_elements
      → WriteLaw dimension key value b (b, some e)
  unchanged dimension key value b e p fits = record {
    refused = λ _ _. refl;
    reads = λ h q. absurd (cc h);
    local_only = λ _. (refl, refl, refl);
    kept = p;
    bounded = fits;
  }

  cache-stage :
      (key : EntryKey) (value : Value) (position : Option ℕ) (b : WriteBuffer)
      → ((stage key value position b).cache ≡ b.cache)
        × ((stage key value position b).elements
            ≡ b.elements - length_at b.dirty position + length value)
  unfolding stage
  cache-stage key value none b = (refl, omega arith)
  cache-stage key value (some i) b = (refl, refl)

  put_pending-WriteLaw :
      (dimension : ℕ) (key : Bytes32) (value : Value) (b : WriteBuffer)
      → (dimension == ephemeral) ≡ false
      → IsPending b
      → b.elements ≤ max_pending_elements
      → WriteLaw dimension key (some value) b (put_pending (dimension, key) value b)
  unfolding put_pending
  put_pending-WriteLaw dimension key value b shared p fits =
      let entry : EntryKey = (dimension, key) in
      let position = Map.get entry b.positions in
      let staged = cache-stage entry value position b in
      elim (Bool-cases
        (ltb max_pending_elements (b.elements - length_at b.dirty position + length value))) [
          | inl e ↦ rw (e, put_pending) (unchanged dimension key (some value) b _ p fits)
          | inr few ↦ elim (Bool-cases (is_full b entry)) [
            | inl e ↦ rw (few, e, put_pending) (unchanged dimension key (some value) b _ p fits)
            | inr room ↦
                rw (few, room, put_pending)
                  (record {
                    refused = λ _ h. absurd (cc h);
                    reads = λ _ q.
                        get-insert entry value (stage entry value position b).cache q
                        ∙ rw staged.0 refl;
                    local_only = λ h. absurd (cc (sym h ∙ shared));
                    kept = cached _ _ (stage-IsPending entry value position b refl p);
                    bounded = rw staged.1 (ground (arith, few));
                  })
          ]
        ]

  put-WriteLaw :
      (dimension : ℕ) (key : Bytes32) (value : Value) (b : WriteBuffer)
      → IsPending b
      → b.elements ≤ max_pending_elements
      → WriteLaw dimension key (some value) b (put dimension key value b)
  unfolding put
  put-WriteLaw dimension key value b p fits = elim (Option-cases (refused b dimension)) [
    | inr e ↦ rw (e.1, put) (unchanged dimension key (some value) b e.0 p fits)
    | inl fine ↦ elim (Bool-cases (ltb max_value_elements (length value))) [
      | inl e ↦ rw (fine, e, put) (unchanged dimension key (some value) b _ p fits)
      | inr small ↦ elim (Bool-cases (dimension == ephemeral)) [
        | inl local ↦
            rw (fine, small, local, put)
              (record {
                refused = λ _ h. absurd (cc h);
                reads = λ _ q. get-insert (dimension, key) value b.cache q;
                local_only = λ _. (refl, refl, refl);
                kept = cached _ _ p;
                bounded = fits;
              })
        | inr shared ↦
            rw (fine, small, shared, put) (put_pending-WriteLaw dimension key value b shared p fits)
      ]
    ]
  ]

  cache-unstage :
      (key : EntryKey) (position : Option ℕ) (b : WriteBuffer)
      → ((unstage key position b).cache ≡ b.cache)
        × ((unstage key position b).elements ≤ b.elements)
  unfolding unstage
  cache-unstage key none b = (refl, omega arith)
  cache-unstage key (some i) b = (refl, omega arith)

  delete-WriteLaw :
      (dimension : ℕ) (key : Bytes32) (b : WriteBuffer)
      → IsPending b
      → b.elements ≤ max_pending_elements
      → WriteLaw dimension key none b (delete dimension key b)
  unfolding delete delete_pending
  delete-WriteLaw dimension key b p fits =
      let entry : EntryKey = (dimension, key) in
      let left = cache-unstage entry (Map.get entry b.positions) b in
      elim (Option-cases (refused b dimension)) [
        | inr e ↦ rw (e.1, delete) (unchanged dimension key none b e.0 p fits)
        | inl fine ↦ elim (Bool-cases (dimension == ephemeral)) [
          | inl local ↦
              rw (fine, local, delete)
                (record {
                  refused = λ _ h. absurd (cc h);
                  reads = λ _ q. get-remove entry b.cache q;
                  local_only = λ _. (refl, refl, refl);
                  kept = cached _ _ p;
                  bounded = fits;
                })
          | inr shared ↦ elim (Bool-cases (is_full b entry)) [
            | inl e ↦ rw (fine, shared, e, delete) (unchanged dimension key none b _ p fits)
            | inr room ↦
                rw (fine, shared, room, delete)
                  (record {
                    refused = λ _ h. absurd (cc h);
                    reads = λ _ q.
                        get-remove entry (unstage entry (Map.get entry b.positions) b).cache q
                        ∙ rw left.0 refl;
                    local_only = λ h. absurd (cc (sym h ∙ shared));
                    kept = cached _ _ (delete_pending-IsPending entry b p);
                    bounded = omega (arith, fits, left.1);
                  })
          ]
        ]
      ]

  -- From a buffer whose index is true to its pending entries and whose elements are within their
  -- bound, a `put` and a `delete` each keep both. Each returns an error and leaves the buffer as it
  -- was, or the key reads back as the value, as absent after the `delete`, and every other key as
  -- before. A key of the local dimension changes nothing that is pending.
  pub put-delete-WriteLaw :
      (dimension : ℕ) (key : Bytes32) (value : Value) (b : WriteBuffer)
      → IsPending b
      → b.elements ≤ max_pending_elements
      → WriteLaw dimension key (some value) b (put dimension key value b)
        × WriteLaw dimension key none b (delete dimension key b)
  put-delete-WriteLaw dimension key value b p fits =
      (put-WriteLaw dimension key value b p fits, delete-WriteLaw dimension key b p fits)
