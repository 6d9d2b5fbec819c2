-- ===== src/Frame/RoundTrip.antt =====
-- The payloads of cli/src/frame.rs: a signal that fits its types is read back from its payload.
use native.Mathlib.Nat.{le-div_iff_mul-le}
use bbg.Prelude.{
  ℕ, ◌*◌, ◌/◌, ◌≤◌, ◌<◌, ◌≡◌, refl, ap, sym, ◌∙◌, Option, none, some, List, [], ◌∷◌, ◌++◌, length,
  arith, All, append_assoc, append-nil, length-append, ltb, false,
}
use bbg.Bytes.{Bytes32}
use bbg.State.{Cyberlink, BoxMove, Signal}
use bbg.Wire.{le_bytes, Read, read_byte, concat_map}
use bbg.Wire.Laws.{
  read_array-append, read_le-append, read_list-append, length-Array, length-le_bytes,
}
use bbg.Records.RoundTrip.{IsU64, IsU32}
use bbg.Frame.{
  link_bytes, commitment_bytes, move_bytes, serialize_signal, link_size, move_min_size, read_link,
  read_commitment, read_move, read_counted, deserialize_signal,
}

abbrev pub LinkFits : Cyberlink → Type 0
LinkFits l = IsU64 l.amount × (l.valence < 256)

abbrev ValueFits : Option (Bytes32 × ℕ) → Type 0
ValueFits none = Unit
ValueFits (some (point, value)) = IsU64 value

abbrev pub MoveFits : BoxMove → Type 0
MoveFits m = ValueFits m.commitment

-- Every integer fits its type, and the lists are no longer than a `u32` counts.
pub record SignalFits (s : Signal) : Type 0 where
  pub height : IsU64 s.height
  pub link_count : IsU32 (length s.links)
  pub links : All LinkFits s.links
  pub move_count : IsU32 (length s.box_moves)
  pub moves : All MoveFits s.box_moves

read_link-append :
    (l : Cyberlink) (rest : List ℕ) → LinkFits l → read_link (link_bytes l ++ rest) ≡ some (l, rest)
unfolding read_link link_bytes read_byte
read_link-append l rest h =
    rw
      (
        append_assoc l.from.0,
        append_assoc l.to.0,
        append_assoc l.token.0,
        append_assoc (le_bytes 8 l.amount),
        read_array-append 32 l.from,
        read_array-append 32 l.to,
        read_array-append 32 l.token,
        read_le-append 8 l.amount _ h.0,
      )
      refl

read_commitment-append :
    (c : Option (Bytes32 × ℕ)) (n : Bytes32) (rest : List ℕ)
    → ValueFits c
    → read_move ((n.0 ++ commitment_bytes c) ++ rest)
      ≡ some (record { nullifier = n; commitment = c }, rest)
unfolding read_move read_commitment commitment_bytes read_byte
read_commitment-append none n rest h = rw (append_assoc n.0, read_array-append 32 n) refl
read_commitment-append (some (point, value)) n rest h =
    rw
      (
        append_assoc n.0,
        read_array-append 32 n,
        append_assoc point.0,
        read_array-append 32 point,
        read_le-append 8 value _ h,
      )
      refl

read_move-append :
    (m : BoxMove) (rest : List ℕ) → MoveFits m → read_move (move_bytes m ++ rest) ≡ some (m, rest)
unfolding move_bytes
read_move-append m rest h = read_commitment-append m.commitment m.nullifier rest h

length-link_bytes : (l : Cyberlink) → link_size ≤ length (link_bytes l)
unfolding link_bytes
length-link_bytes l = omega (
  arith,
  length-append l.from.0,
  length-append l.to.0,
  length-append l.token.0,
  length-append (le_bytes 8 l.amount),
  length-Array 32 l.from,
  length-Array 32 l.to,
  length-Array 32 l.token,
  length-le_bytes 8 l.amount,
)

length-move_bytes : (m : BoxMove) → move_min_size ≤ length (move_bytes m)
unfolding move_bytes commitment_bytes
length-move_bytes m = omega (
  arith,
  length-append m.nullifier.0 (commitment_bytes m.commitment),
  length-Array 32 m.nullifier,
  has_tag m.commitment,
)
  where
    has_tag : (c : Option (Bytes32 × ℕ)) → 1 ≤ length (commitment_bytes c)
    has_tag none = omega arith
    has_tag (some (point, value)) = omega arith

length-concat_map :
    {A : Type 0} (encode : A → List ℕ) (size : ℕ)
    → ((a : A) → size ≤ length (encode a))
    → (list : List A) → length list * size ≤ length (concat_map encode list)
unfolding concat_map
length-concat_map encode size each [] = omega arith
length-concat_map encode size each (a ∷ list) = grind (
  arith,
  each a,
  length-concat_map encode size each list,
  length-append (encode a) (concat_map encode list),
)

-- The guard on the count lets through what was written.
room :
    {A : Type 0} (encode : A → List ℕ) (size : ℕ)
    → 0 < size
    → ((a : A) → size ≤ length (encode a))
    → (list : List A) (rest : List ℕ)
    → ltb (length (concat_map encode list ++ rest) / size) (length list) ≡ false
room encode size pos each list rest =
    let fits =
      (le-div_iff_mul-le {x = length list} {y = length (concat_map encode list ++ rest)} pos).1 (
        omega (
          arith,
          length-concat_map encode size each list,
          length-append (concat_map encode list) rest,
        )) in
    ground (arith, fits)

read_counted-append :
    {A : Type 0} (read : Read A) (encode : A → List ℕ) (Fits : A → Type 0) (size : ℕ)
    → ((a : A) (rest : List ℕ) → Fits a → read (encode a ++ rest) ≡ some (a, rest))
    → 0 < size
    → ((a : A) → size ≤ length (encode a))
    → (list : List A) (rest : List ℕ) → IsU32 (length list)
    → All Fits list
    → read_counted size read (le_bytes 4 (length list) ++ (concat_map encode list ++ rest))
      ≡ some (list, rest)
unfolding read_counted
read_counted-append read encode Fits size one pos each list rest count fits =
    rw (read_le-append 4 (length list) _ count, room encode size pos each list rest)
      (read_list-append read encode Fits one list rest fits)

-- A signal whose integers fit their types and whose lists a `u32` counts is read back from its
-- payload.
pub deserialize_signal-serialize_signal :
    (s : Signal) → SignalFits s → deserialize_signal (serialize_signal s) ≡ some s
unfolding deserialize_signal serialize_signal
deserialize_signal-serialize_signal s h =
    let moves =
      read_counted-append read_move move_bytes MoveFits move_min_size read_move-append (omega arith)
        length-move_bytes s.box_moves [] h.move_count h.moves in
    let read_moves : read_counted move_min_size read_move
          (le_bytes 4 (length s.box_moves) ++ concat_map move_bytes s.box_moves)
        ≡ some (s.box_moves, []) =
      ap (λ b. read_counted move_min_size read_move (le_bytes 4 (length s.box_moves) ++ b))
        (sym (append-nil (concat_map move_bytes s.box_moves)))
      ∙ moves in
    rw
      (
        read_array-append 32 s.neuron,
        read_le-append 8 s.height _ h.height,
        read_counted-append read_link link_bytes LinkFits link_size read_link-append (omega arith)
            length-link_bytes s.links _ h.link_count h.links,
        read_moves,
      )
      refl
