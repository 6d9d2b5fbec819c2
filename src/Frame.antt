-- ===== src/Frame.antt =====
-- cli/src/frame.rs: the frames of the store log. The tape format is another crate: it is the record
-- `Tape`, whose reader gives the chunks of a stream up to the first that is not complete. A cursor
-- `(buf, p)` is the bytes from `p` on.
pub mod RoundTrip
pub mod Log
use bbg.Prelude.{
  ℕ, zero, suc, ◌+◌, ◌/◌, ◌≡◌, ◌≢◌, Bool, true, false, Option, none, some, List, [], ◌∷◌, ◌++◌,
  length, if◌then◌else◌, ◌==◌, ltb,
}
use bbg.Bytes.{Bytes32}
use bbg.Types.{IntentRecord}
use bbg.State.{Cyberlink, BoxMove, Signal}
use bbg.Wire.{◌>>=◌, Array, le_bytes, Read, read_array, read_le, read_byte, read_list, concat_map}
use bbg.Records
use bbg.Records.{read_u64, read_u32, read_intent}

-- `from ‖ to ‖ token ‖ amount ‖ valence`
unfoldable pub link_bytes : Cyberlink → List ℕ
link_bytes l = l.from.0 ++ (l.to.0 ++ (l.token.0 ++ (le_bytes 8 l.amount ++ (l.valence ∷ []))))

unfoldable pub commitment_bytes : Option (Bytes32 × ℕ) → List ℕ
commitment_bytes none = 0 ∷ []
commitment_bytes (some (point, value)) = 1 ∷ (point.0 ++ le_bytes 8 value)

unfoldable pub move_bytes : BoxMove → List ℕ
unfolding commitment_bytes
move_bytes m = m.nullifier.0 ++ commitment_bytes m.commitment

-- The counts are written as `u32`: of a longer list, the low 32 bits of its length.
unfoldable pub serialize_signal : Signal → List ℕ
serialize_signal s =
    s.neuron.0
    ++ (le_bytes 8 s.height
        ++ (le_bytes 4 (length s.links)
            ++ (concat_map link_bytes s.links
                ++ (le_bytes 4 (length s.box_moves) ++ concat_map move_bytes s.box_moves))))

-- `LINK_BYTES` and `MOVE_MIN_BYTES`
abbrev pub link_size : ℕ
link_size = 105

abbrev pub move_min_size : ℕ
move_min_size = 33

unfoldable pub read_link : Read Cyberlink
read_link bytes = do
  (from, r) ← read_array 32 bytes
  (to, r) ← read_array 32 r
  (token, r) ← read_array 32 r
  (amount, r) ← read_u64 r
  (valence, r) ← read_byte r
  some (record { from = from; to = to; token = token; amount = amount; valence = valence }, r)

-- Every tag but 1 stands for no commitment.
unfoldable pub read_commitment : ℕ → Read (Option (Bytes32 × ℕ))
read_commitment tag bytes =
    let present = do
      (point, r) ← read_array 32 bytes
      (value, r) ← read_u64 r
      some (some (point, value), r)
    in if tag == 1 then present else some (none, bytes)

unfoldable pub read_move : Read BoxMove
unfolding read_commitment
read_move bytes = do
  (nullifier, r) ← read_array 32 bytes
  (tag, r) ← read_byte r
  (commitment, r) ← read_commitment tag r
  some (record { nullifier = nullifier; commitment = commitment }, r)

-- A count that the bytes left cannot hold is refused before any record is read.
unfoldable pub read_counted : {A : Type 0} → ℕ → Read A → Read (List A)
read_counted size read bytes = do
  (count, r) ← read_u32 bytes
  (if ltb (length r / size) count then none else read_list read count r)

unfoldable pub deserialize_signal : List ℕ → Option Signal
unfolding read_counted
deserialize_signal bytes = do
  (neuron, r) ← read_array 32 bytes
  (height, r) ← read_u64 r
  (links, r) ← read_counted link_size read_link r
  (box_moves, r) ← read_counted move_min_size read_move r
  some (record { neuron = neuron; links = links; box_moves = box_moves; height = height })

-- `serialize_intent` and `deserialize_intent` write and read the bytes of a persisted intent.
abbrev pub serialize_intent : IntentRecord → List ℕ
serialize_intent i = Records.intent i

abbrev pub deserialize_intent : List ℕ → Option IntentRecord
deserialize_intent bytes = read_intent bytes

-- `tape::Chunk`
pub record Chunk : Type 0 where
  pub sigil : ℕ
  pub render : ℕ
  pub payload : List ℕ

pub record Tape : Type 0 where
  pub zap : ℕ
  pub ket : ℕ
  pub encode : Chunk → List ℕ
  pub read_chunks : List ℕ → List Chunk

-- What the tape crate's documentation promises: the chunks of a stream of frames are read back in
-- order, and the sigils `!`, `^` and `.` differ.
pub record IsTape (tape : Tape) : Type 0 where
  pub read-encode :
      (chunks : List Chunk) → tape.read_chunks (concat_map tape.encode chunks) ≡ chunks
  pub ket_zap : tape.ket ≢ tape.zap
  pub finalize_zap : 46 ≢ tape.zap
  pub finalize_ket : 46 ≢ tape.ket

abbrev pub render_bin : ℕ
render_bin = 98

abbrev pub sig_finalize : ℕ
sig_finalize = 46

pub data Event : Type 0 where
  on_signal : Signal → Event
  on_intent : IntentRecord → Event
  on_finalize : Event

module _ (tape : Tape) where
  -- `encode_signal`, `encode_intent` and `encode_finalize`, up to `Chunk::encode`
  unfoldable pub chunk_of : Event → Chunk
  chunk_of (on_signal s) = record {
    sigil = tape.zap;
    render = render_bin;
    payload = serialize_signal s;
  }
  chunk_of (on_intent i) = record {
    sigil = tape.ket;
    render = render_bin;
    payload = serialize_intent i;
  }
  chunk_of on_finalize = record { sigil = sig_finalize; render = render_bin; payload = [] }

  unfoldable pub encode_event : Event → List ℕ
  unfolding chunk_of
  encode_event e = tape.encode (chunk_of e)

  -- The arms of the loop of `decode_events`; a payload that does not parse is dropped, and so is a
  -- chunk of another sigil.
  unfoldable pub event_of : Chunk → Option Event
  event_of c =
      if c.sigil == tape.zap
      then (deserialize_signal c.payload >>= λ s. some (on_signal s))
      else if c.sigil == tape.ket
      then (deserialize_intent c.payload >>= λ i. some (on_intent i))
      else if c.sigil == sig_finalize
      then some on_finalize
      else none

  unfoldable pub events_of : List Chunk → List Event
  unfolding event_of
  events_of [] = []
  events_of (c ∷ chunks) =
      let rest = events_of chunks in elim (event_of c) [ none ↦ rest | some e ↦ e ∷ rest ]

  unfoldable pub decode_events : List ℕ → List Event
  unfolding events_of
  decode_events bytes = events_of (tape.read_chunks bytes)
