-- ===== src/Table/Padding.antt =====
-- The padding of a table in rs/src/dim.rs, and that `next_power_of_two` computes what the standard
-- library documents.
use native.Mathlib.Nat.{pow-succ', mul_comm, mul_assoc}
use bbg.Prelude.{
  ℕ, zero, suc, ◌+◌, ◌-◌, ◌*◌, ◌^◌, ◌≤◌, ◌<◌, ◌≡◌, refl, ap, sym, ◌∙◌, false, List, length,
  length-append, leb, arith, Bool-cases, inl, inr, ◌⊎◌,
}
use bbg.Root.{Hemera}
use bbg.Table.{doubled_to, next_power_of_two, replicate, padded}

-- With as many doublings as are left to `n`, the loop ends at a power of two that is at least `n`,
-- and it is below twice `n` if it is not the start.
record DoubledLaw (n p r : ℕ) : Type 0 where
  pub times : ℕ
  pub power : r ≡ 2 ^ times * p
  pub enough : n ≤ r
  pub least : (r ≡ p) ⊎ (r < 2 * n)

doubled_to-DoubledLaw : (fuel n p : ℕ) → 1 ≤ p → n ≤ fuel + p → DoubledLaw n p (doubled_to fuel n p)
unfolding doubled_to
doubled_to-DoubledLaw zero n p pos h = record {
  times = 0;
  power = omega arith;
  enough = omega (arith, h);
  least = inl refl;
}
doubled_to-DoubledLaw (suc fuel) n p pos h = elim (Bool-cases (leb n p)) [
  | inl e ↦
      rw (e, doubled_to)
        (record { times = 0; power = omega arith; enough = ground (arith, e); least = inl refl })
  | inr e ↦
      let law = doubled_to-DoubledLaw fuel n (2 * p) (omega (arith, pos)) (omega (arith, pos, h)) in
      rw (e, doubled_to)
        (record {
          times = suc law.times;
          power = law.power ∙ twice law.times p;
          enough = law.enough;
          least = inr (below n p _ e law.least);
        })
]
  where
    twice : (k p : ℕ) → 2 ^ k * (2 * p) ≡ 2 ^ suc k * p
    twice k p =
        rw (pow-succ' 2 k) (sym (mul_assoc (2 ^ k) 2 p) ∙ ap (λ x. x * p) (mul_comm (2 ^ k) 2))

    below : (n p r : ℕ) → leb n p ≡ false → (r ≡ 2 * p) ⊎ (r < 2 * n) → r < 2 * n
    below n p r e (inl same) = ground (arith, e, same)
    below n p r e (inr h) = h

length-replicate : {A : Type 0} (n : ℕ) (a : A) → length (replicate n a) ≡ n
length-replicate zero a = refl
length-replicate (suc n) a = ap suc (length-replicate n a)

module _ ⦃H : Hemera⦄ where
  -- A table is padded to a power of two that its length does not exceed, and to the least one: it is 1, or below twice the table's length.
  pub length-padded :
      (fields : List H.Field)
      → (k : ℕ) × (length (padded fields) ≡ 2 ^ k)
        × (length fields ≤ length (padded fields))
        × ((length (padded fields) ≡ 1) ⊎ (length (padded fields) < 2 * length fields))
  unfolding padded next_power_of_two
  length-padded fields =
      let n = length fields in
      let law = doubled_to-DoubledLaw n n 1 (omega arith) (omega arith) in
      let size : length (padded fields) ≡ next_power_of_two n =
        length-append fields _
        ∙ omega (arith, law.enough, length-replicate (next_power_of_two n - n) H.fzero) in
      (law.times, size ∙ law.power ∙ omega arith, rw size law.enough, rw size law.least)
