-- ===== src/Examples/Codecs.antt =====
-- The theorems on the stored bytes and the log at concrete inputs, with a toy tape format.
use bbg.Prelude.{
  ℕ, zero, suc, ◌≤◌, ◌≡◌, refl, ap, none, some, List, [], ◌∷◌, length, arith, length-append,
}
use bbg.State.{Signal}
use bbg.Wire.{take, drop, concat_map}
use bbg.Wire.Laws.{take-append, drop-append}
use bbg.Records.{Value, of_commitment, domain, encode, decode}
use bbg.Records.RoundTrip.{IsFit, IsGoldilocks, decode-encode}
use bbg.Frame.{
  serialize_signal, deserialize_signal, Chunk, Tape, IsTape, Event, on_signal, on_finalize,
  encode_event, decode_events,
}
use bbg.Frame.RoundTrip.{SignalFits, deserialize_signal-serialize_signal}
use bbg.Frame.Log.{decode_events-encode}
use bbg.Examples.Toy.{num, toy, low, high, mixed}

-- A commitment; its field element is stored as a number.
abbrev stored : Value
stored = of_commitment (num 300)

toy-IsGoldilocks : IsGoldilocks
toy-IsGoldilocks = record { as_u64_fits = λ n h. h; new-as_u64 = λ n h. refl }

decode-encode_example : decode (domain stored) (encode stored) ≡ some stored
unfolding IsFit
decode-encode_example = decode-encode toy-IsGoldilocks stored (300, omega arith, refl)

abbrev spend : Signal
spend = record {
  height = 513;
  neuron = mixed;
  links = record { from = low; to = high; token = mixed; amount = 7; valence = 255 } ∷ [];
  box_moves =
      record { nullifier = low; commitment = some (high, 5) }
      ∷ record { nullifier = high; commitment = none }
      ∷ [];
}

abbrev spend-fits : SignalFits spend
spend-fits = record {
  height = omega arith;
  link_count = omega arith;
  links = ((omega arith, omega arith), tt);
  move_count = omega arith;
  moves = (omega arith, (tt, tt));
}

deserialize_signal_example : deserialize_signal (serialize_signal spend) ≡ some spend
deserialize_signal_example = deserialize_signal-serialize_signal spend spend-fits

-- A frame is its sigil, its render byte, its length and its payload.
abbrev frame : Chunk → List ℕ
frame c = c.sigil ∷ c.render ∷ length c.payload ∷ c.payload

unfoldable frames : ℕ → List ℕ → List Chunk
frames zero bytes = []
frames (suc n) (sigil ∷ render ∷ size ∷ bytes) =
    record { sigil = sigil; render = render; payload = take size bytes }
    ∷ frames n (drop size bytes)
frames (suc n) bytes = []

abbrev toy_tape : Tape
toy_tape = record {
  zap = 33;
  ket = 94;
  encode = frame;
  read_chunks = λ bytes. frames (length bytes) bytes;
}

frames-concat_map :
    (n : ℕ) (chunks : List Chunk) → length chunks ≤ n → frames n (concat_map frame chunks) ≡ chunks
unfolding frames concat_map
frames-concat_map zero [] h = refl
frames-concat_map (suc n) [] h = refl
frames-concat_map zero (c ∷ chunks) h = absurd (omega (arith, h))
frames-concat_map (suc n) (c ∷ chunks) h =
    rw
      (
        take-append (length c.payload) c.payload (concat_map frame chunks) refl,
        drop-append (length c.payload) c.payload (concat_map frame chunks) refl,
      )
      (ap (λ r. c ∷ r) (frames-concat_map n chunks (omega (arith, h))))

length-frames : (chunks : List Chunk) → length chunks ≤ length (concat_map frame chunks)
unfolding concat_map
length-frames [] = omega arith
length-frames (c ∷ chunks) =
    grind (arith, length-frames chunks, length-append c.payload (concat_map frame chunks))

toy_tape-IsTape : IsTape toy_tape
toy_tape-IsTape = record {
  read-encode = λ chunks. frames-concat_map _ chunks (length-frames chunks);
  ket_zap = λ e. omega (arith, e);
  finalize_zap = λ e. omega (arith, e);
  finalize_ket = λ e. omega (arith, e);
}

abbrev log : List Event
log = on_signal spend ∷ on_finalize ∷ []

decode_events-encode_example : decode_events toy_tape (concat_map (encode_event toy_tape) log) ≡ log
decode_events-encode_example =
    decode_events-encode toy_tape toy_tape-IsTape log (spend-fits, (tt, tt))
