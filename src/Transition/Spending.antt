-- ===== src/Transition/Spending.antt =====
-- A validated signal of rs/src/transition/mod.rs spends distinct, unspent nullifiers.
use bbg.Prelude.{
  ◌≡◌, refl, false, ◌||◌, Option, none, some, List, [], ◌∷◌, arith, Bool-cases, inl, inr,
}
use bbg.Prelude.Ord.{beq_iff}
use bbg.Bytes.{Bytes32, bytes32_ord}
use bbg.Root.{Hemera}
use bbg.Map
use bbg.Map.{Map}
use bbg.Map.Laws.{get-insert}
use bbg.Types.{SignalRecord}
use bbg.State
use bbg.State.{BbgState, Signal, BoxMove, is_spent, any_spent}
use bbg.State.Spends.{names}
use bbg.Transition.{◌then_check◌, check_header, check_moves, check_links, validate, Error}

module _ ⦃H : Hemera⦄ where
  -- Every nullifier is unspent, outside `seen`, and other than those behind it.
  abbrev pub AreFresh : BbgState → Map Bytes32 (Unit {0}) → List BoxMove → Type 0
  AreFresh s seen [] = Unit
  AreFresh s seen (mv ∷ moves) =
      (is_spent s mv.nullifier ≡ false)
      × (Map.contains mv.nullifier seen ≡ false)
      × (names mv.nullifier moves ≡ false)
      × AreFresh s seen moves

  weaken :
      (s : BbgState) (n : Bytes32) (seen : Map Bytes32 (Unit {0})) (moves : List BoxMove)
      → AreFresh s (Map.insert n tt seen) moves
      → (names n moves ≡ false) × AreFresh s seen moves
  unfolding Map.contains names
  weaken s n seen [] h = (refl, tt)
  weaken s n seen (mv ∷ moves) h =
      let rest = weaken s n seen moves h.3 in
      let law = get-insert n tt seen mv.nullifier in
      (
        ground (arith, h.1, law, rest.0, beq_iff mv.nullifier n, beq_iff n mv.nullifier),
        (h.0, ground (arith, h.1, law), h.2, rest.1),
      )

  check_moves-AreFresh :
      (s : BbgState) (seen : Map Bytes32 (Unit {0})) (moves : List BoxMove)
      → check_moves s seen moves ≡ none
      → AreFresh s seen moves
  unfolding check_moves
  check_moves-AreFresh s seen [] h = tt
  check_moves-AreFresh s seen (mv ∷ moves) h =
      elim (Bool-cases (is_spent s mv.nullifier || Map.contains mv.nullifier seen)) [
        | inl e ↦ absurd (cc (rw e at h))
        | inr e ↦
            let next = Map.insert mv.nullifier tt seen in
            let rest : check_moves s next moves ≡ none = rw e at h in
            let both = weaken s mv.nullifier seen moves (check_moves-AreFresh s next moves rest) in
            (ground (arith, e), ground (arith, e), both.0, both.1)
      ]

  pub AreFresh-any_spent :
      (s : BbgState) (seen : Map Bytes32 (Unit {0})) (moves : List BoxMove)
      → AreFresh s seen moves
      → any_spent s moves ≡ false
  unfolding any_spent
  AreFresh-any_spent s seen [] h = refl
  AreFresh-any_spent s seen (mv ∷ moves) h =
      ground (arith, h.0, AreFresh-any_spent s seen moves h.3)

  pub both_none : (a b : Option Error) → (a then_check b) ≡ none → (a ≡ none) × (b ≡ none)
  both_none none b h = (refl, h)
  both_none (some e) b h = absurd (cc h)

  -- What the last two checks of `validate` found.
  pub validated :
      (s : BbgState) (signal : Signal) (key : Bytes32) (header : SignalRecord)
      → validate s signal key header ≡ none
      → (check_moves s [] signal.box_moves ≡ none) × (check_links s [] signal.links ≡ none)
  unfolding validate
  validated s signal key header h =
      let loops =
        (both_none (check_header s signal key header)
          (check_moves s [] signal.box_moves then_check check_links s [] signal.links) h).1 in
      both_none (check_moves s [] signal.box_moves) (check_links s [] signal.links) loops

  -- If `validate` accepts a signal, its moves name distinct nullifiers of which none is spent, and
  -- `BbgState::insert` accepts the signal: the error that the transition maps it to does not occur.
  pub validate-AreFresh :
      (s : BbgState) (signal : Signal) (key : Bytes32) (header : SignalRecord)
      → validate s signal key header ≡ none
      → AreFresh s [] signal.box_moves × ((State.insert signal s).1 ≡ none)
  unfolding State.insert
  validate-AreFresh s signal key header h =
      let fresh = check_moves-AreFresh s [] signal.box_moves (validated s signal key header h).0 in
      (fresh, rw (AreFresh-any_spent s [] signal.box_moves fresh) refl)
