-- ===== src/Facade/Ledger.antt =====
-- Every state that `Bbg` of rs/src/lib.rs comes to, by signals and block ends in any order.
use bbg.Prelude.{◌≡◌, refl, sym, ◌∙◌, true, none, some, List, Option-cases, inl, inr}
use bbg.Bytes.{Bytes32}
use bbg.Root.{Hemera}
use bbg.State
use bbg.State.{BbgState, Signal, InsertError, double_spend, is_spent}
use bbg.State.Invariant.{IsState, new-IsState, insert-IsState}
use bbg.State.Root.Invariant.{StateRead-IsState, root-StateRead}
use bbg.State.Spends.{insert-SpendLaw, is_spent-insert, names}
use bbg.Facade.{Bbg, insert, finalize_block, checkpoint_of, new}
use bbg.Facade.Blocks.{finalize_block-BlockLaw, finalize_block-IsState}

module _ ⦃H : Hemera⦄ (lens : List H.Field → Bytes32) where
  pub data Reaches : Bbg → Bbg → Type 0 where
    done : (b : Bbg) → Reaches b b
    signal : (b c : Bbg) (s : Signal) → Reaches (insert lens s b).0 c → Reaches b c
    block : (b c : Bbg) → Reaches (finalize_block lens b) c → Reaches b c

  state-insert : (s : Signal) (b : Bbg) → (insert lens s b).0.state ≡ (State.insert s b.state).0
  unfolding insert
  state-insert s b = elim (Option-cases (State.insert s b.state).1) [
    | inl e ↦ rw (e, insert) refl
    | inr e ↦ rw (e.1, insert) refl
  ]

  outcome-insert : (s : Signal) (b : Bbg) → (insert lens s b).1 ≡ (State.insert s b.state).1
  unfolding insert
  outcome-insert s b = elim (Option-cases (State.insert s b.state).1) [
    | inl e ↦ rw (e, insert) refl
    | inr e ↦ rw (e.1, insert) refl
  ]

  reached-IsState : (b c : Bbg) → Reaches b c → IsState b.state → IsState c.state
  reached-IsState b c (done _) v = v
  reached-IsState b c (signal _ _ s r) v =
      reached-IsState _ c r (rw (state-insert s b) (insert-IsState b.state s v))
  reached-IsState b c (block _ _ r) v = reached-IsState _ c r (finalize_block-IsState lens b v)

  -- Every state that the library comes to from the empty one, by any signals and block ends in any
  -- order, is well formed: in every dimension the trie agrees with the map at each path that is not
  -- pending, in both adjacency indices every list has distinct axons, its set holds exactly those,
  -- the histogram counts the lists of every length and no call panicked, and the cards' index has
  -- exactly the recorded cards.
  pub new_reached-IsState : (c : Bbg) → Reaches (new lens) c → IsState c.state
  unfolding new checkpoint_of
  new_reached-IsState c r =
      reached-IsState (new lens) c r
        (StateRead-IsState _ _ (root-StateRead lens State.new) new-IsState)

  reached-is_spent :
      (b c : Bbg) (n : Bytes32)
      → Reaches b c
      → is_spent b.state n ≡ true
      → is_spent c.state n ≡ true
  unfolding is_spent
  reached-is_spent b c n (done _) h = h
  reached-is_spent b c n (signal _ _ s r) h =
      reached-is_spent _ c n r (rw (state-insert s b) (is_spent-insert b.state s n h))
  reached-is_spent b c n (block _ _ r) h =
      reached-is_spent _ c n r (rw (finalize_block-BlockLaw lens b).nullifiers h)

  -- Once a signal that names a nullifier was accepted, then after any signals and block ends, with
  -- whatever pruning they bring, a signal that names the nullifier is refused as a double spend.
  pub reached_refused :
      (b c : Bbg) (first second : Signal) (n : Bytes32)
      → (insert lens first b).1 ≡ none
      → names n first.box_moves ≡ true
      → Reaches (insert lens first b).0 c
      → names n second.box_moves ≡ true
      → (insert lens second c).1 ≡ some double_spend
  reached_refused b c first second n accepted one r two =
      let law = insert-SpendLaw b.state first in
      let now : is_spent (insert lens first b).0.state n ≡ true =
        rw (state-insert first b)
          (law.spent (sym (outcome-insert first b) ∙ accepted) n ∙ rw one refl) in
      outcome-insert second c
      ∙ (insert-SpendLaw c.state second).refused.1 (n, two, reached-is_spent _ c n r now)
