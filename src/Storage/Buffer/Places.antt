-- ===== src/Storage/Buffer/Places.antt =====
-- The operations of rs/src/storage/buffer.rs on `dirty`, a vector: what is at which place, and the
-- elements in all.
use bbg.Prelude.{
  ◌≢◌, ℕ, zero, suc, ◌+◌, ◌-◌, ◌≤◌, ◌<◌, ◌≡◌, refl, none, some, List, [], ◌∷◌, ◌++◌, length,
  if◌then◌else◌, ◌==◌, arith,
}
use bbg.Root.{Hemera}
use bbg.Storage.{EntryKey, entry_ord}
use bbg.Storage.Buffer.{Value, value_at, key_at, set_value, swap_remove, last_or, without_last}

module _ ⦃H : Hemera⦄ where
  abbrev pub total : List (EntryKey × Value) → ℕ
  total [] = 0
  total (e ∷ dirty) = length e.1 + total dirty

  -- The value at a place is no longer than all of them.
  pub value_at-total :
      (dirty : List (EntryKey × Value)) (i : ℕ) → length (value_at dirty i) ≤ total dirty
  value_at-total [] i = omega arith
  value_at-total (e ∷ dirty) zero = omega arith
  value_at-total (e ∷ dirty) (suc i) = omega (arith, value_at-total dirty i)

  pub key_at-set_value :
      (dirty : List (EntryKey × Value)) (i : ℕ) (value : Value) (j : ℕ)
      → key_at (set_value dirty i value) j ≡ key_at dirty j
  key_at-set_value [] i value j = refl
  key_at-set_value (e ∷ dirty) zero value zero = refl
  key_at-set_value (e ∷ dirty) zero value (suc j) = refl
  key_at-set_value (e ∷ dirty) (suc i) value zero = refl
  key_at-set_value (e ∷ dirty) (suc i) value (suc j) = key_at-set_value dirty i value j

  pub total-set_value :
      (dirty : List (EntryKey × Value)) (i : ℕ) (value : Value)
      → i < length dirty
      → total (set_value dirty i value) + length (value_at dirty i) ≡ total dirty + length value
  total-set_value [] i value h = absurd (omega (arith, h))
  total-set_value (e ∷ dirty) zero value h = omega arith
  total-set_value (e ∷ dirty) (suc i) value h =
      omega (arith, total-set_value dirty i value (omega (arith, h)))

  pub key_at-bound :
      (dirty : List (EntryKey × Value)) (i : ℕ) (k : EntryKey)
      → key_at dirty i ≡ some k
      → i < length dirty
  key_at-bound [] i k h = absurd (cc h)
  key_at-bound (e ∷ dirty) zero k h = omega arith
  key_at-bound (e ∷ dirty) (suc i) k h = omega (arith, key_at-bound dirty i k h)

  pub key_at-append :
      (dirty : List (EntryKey × Value)) (e : EntryKey × Value) (j : ℕ)
      → key_at (dirty ++ e ∷ []) j ≡ (if j == length dirty then some e.0 else key_at dirty j)
  key_at-append [] e zero = refl
  key_at-append [] e (suc j) = ground arith
  key_at-append (f ∷ dirty) e zero = ground arith
  key_at-append (f ∷ dirty) e (suc j) = ground (arith, key_at-append dirty e j)

  pub total-append :
      (dirty : List (EntryKey × Value)) (e : EntryKey × Value)
      → total (dirty ++ e ∷ []) ≡ total dirty + length e.1
  total-append [] e = omega arith
  total-append (f ∷ dirty) e = omega (arith, total-append dirty e)

  pub key_at-without_last :
      (e : EntryKey × Value) (dirty : List (EntryKey × Value)) (j : ℕ)
      → key_at (without_last (e ∷ dirty)) j
        ≡ (if j == length dirty then none else key_at (e ∷ dirty) j)
  key_at-without_last e [] zero = refl
  key_at-without_last e [] (suc j) = ground arith
  key_at-without_last e (f ∷ dirty) zero = ground arith
  key_at-without_last e (f ∷ dirty) (suc j) = ground (arith, key_at-without_last f dirty j)

  pub key_at-last_or :
      (e : EntryKey × Value) (dirty : List (EntryKey × Value))
      → key_at (e ∷ dirty) (length dirty) ≡ some (last_or e dirty).0
  key_at-last_or e [] = refl
  key_at-last_or e (f ∷ dirty) = key_at-last_or f dirty

  pub total-without_last :
      (e : EntryKey × Value) (dirty : List (EntryKey × Value))
      → total (without_last (e ∷ dirty)) + length (last_or e dirty).1 ≡ total (e ∷ dirty)
  total-without_last e [] = omega arith
  total-without_last e (f ∷ dirty) = omega (arith, total-without_last f dirty)

  pub key_at-swap_remove :
      (e : EntryKey × Value) (dirty : List (EntryKey × Value)) (i j : ℕ)
      → i ≤ length dirty
      → key_at (swap_remove (e ∷ dirty) i) j ≡ (
          if j == length dirty
          then none
          else if j == i
          then some (last_or e dirty).0
          else key_at (e ∷ dirty) j)
  key_at-swap_remove e [] i zero h = ground arith
  key_at-swap_remove e [] i (suc j) h = ground arith
  key_at-swap_remove e (f ∷ dirty) zero zero h = ground arith
  key_at-swap_remove e (f ∷ dirty) zero (suc j) h = ground (arith, key_at-without_last f dirty j)
  key_at-swap_remove e (f ∷ dirty) (suc i) zero h = ground arith
  key_at-swap_remove e (f ∷ dirty) (suc i) (suc j) h =
      ground (arith, key_at-swap_remove f dirty i j (omega (arith, h)))

  pub total-swap_remove :
      (e : EntryKey × Value) (dirty : List (EntryKey × Value)) (i : ℕ)
      → i ≤ length dirty
      → total (swap_remove (e ∷ dirty) i) + length (value_at (e ∷ dirty) i) ≡ total (e ∷ dirty)
  total-swap_remove e [] zero h = omega arith
  total-swap_remove e [] (suc i) h = absurd (omega (arith, h))
  total-swap_remove e (f ∷ dirty) zero h = omega (arith, total-without_last f dirty)
  total-swap_remove e (f ∷ dirty) (suc i) h =
      omega (arith, total-swap_remove f dirty i (omega (arith, h)))

  pub key_at-inside :
      (dirty : List (EntryKey × Value)) (i : ℕ) → i < length dirty → key_at dirty i ≢ none
  key_at-inside [] i h e = omega (arith, h)
  key_at-inside (f ∷ dirty) zero h e = cc e
  key_at-inside (f ∷ dirty) (suc i) h e = key_at-inside dirty i (omega (arith, h)) e

  pub key_at-swap_at :
      (dirty : List (EntryKey × Value)) (i j : ℕ)
      → i < length dirty
      → key_at (swap_remove dirty i) j ≡ (
          if suc j == length dirty
          then none
          else if j == i
          then key_at dirty (length dirty - 1)
          else key_at dirty j)
  key_at-swap_at [] i j h = absurd (omega (arith, h))
  key_at-swap_at (e ∷ dirty) i j h =
      ground (arith, key_at-swap_remove e dirty i j (omega (arith, h)), key_at-last_or e dirty)

  pub total-swap_at :
      (dirty : List (EntryKey × Value)) (i : ℕ)
      → i < length dirty
      → total (swap_remove dirty i) + length (value_at dirty i) ≡ total dirty
  total-swap_at [] i h = absurd (omega (arith, h))
  total-swap_at (e ∷ dirty) i h = total-swap_remove e dirty i (omega (arith, h))
