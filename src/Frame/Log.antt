-- ===== src/Frame/Log.antt =====
-- The log of cli/src/frame.rs: the events of a log are read back in order.
use bbg.Prelude.{
  ℕ, ◌≡◌, ◌≢◌, refl, ap, some, List, [], ◌∷◌, ◌++◌, All, map, ==_iff, ◌==◌, false, Bool-cases, inl,
  inr,
}
use bbg.Wire.{concat_map}
use bbg.Records.RoundTrip.{IsU64, IsFit, read_intent-intent}
use bbg.Frame.{
  Tape, IsTape, Event, on_signal, on_intent, on_finalize, chunk_of, encode_event, event_of,
  events_of, decode_events,
}
use bbg.Frame.RoundTrip.{SignalFits, deserialize_signal-serialize_signal}

abbrev pub EventFits : Event → Type 0
EventFits (on_signal s) = SignalFits s
EventFits (on_intent i) = IsU64 i.h0
EventFits on_finalize = Unit

module _ (tape : Tape) (law : IsTape tape) where
  unequal : (a b : ℕ) → a ≢ b → (a == b) ≡ false
  unequal a b ne = elim (Bool-cases (a == b)) [ inl e ↦ absurd (ne ((==_iff a b).0 e)) | inr e ↦ e ]

  event_of-chunk_of : (e : Event) → EventFits e → event_of tape (chunk_of tape e) ≡ some e
  unfolding event_of chunk_of IsFit
  event_of-chunk_of (on_signal s) h =
      rw ((==_iff tape.zap tape.zap).1 refl, deserialize_signal-serialize_signal s h) refl
  event_of-chunk_of (on_intent i) h =
      rw
        (
          unequal tape.ket tape.zap law.ket_zap,
          (==_iff tape.ket tape.ket).1 refl,
          read_intent-intent i h,
        )
        refl
  event_of-chunk_of on_finalize h =
      rw (unequal 46 tape.zap law.finalize_zap, unequal 46 tape.ket law.finalize_ket) refl

  events_of-map :
      (events : List Event)
      → All EventFits events
      → events_of tape (map (chunk_of tape) events) ≡ events
  unfolding events_of
  events_of-map [] h = refl
  events_of-map (e ∷ events) h =
      rw (event_of-chunk_of e h.0, events_of) (ap (λ r. e ∷ r) (events_of-map events h.1))

  concat_map-map :
      (events : List Event)
      → concat_map (encode_event tape) events ≡ concat_map tape.encode (map (chunk_of tape) events)
  unfolding concat_map encode_event
  concat_map-map [] = refl
  concat_map-map (e ∷ events) = ap (λ r. tape.encode (chunk_of tape e) ++ r) (concat_map-map events)

  -- If the tape crate reads back what it wrote, a log of events that fit their types, written one
  -- frame after another, is read back as those events in their order.
  pub decode_events-encode :
      (events : List Event)
      → All EventFits events
      → decode_events tape (concat_map (encode_event tape) events) ≡ events
  unfolding decode_events
  decode_events-encode events h =
      rw (concat_map-map events, law.read-encode (map (chunk_of tape) events))
        (events_of-map events h)
