-- ===== src/Mcp/Shape/Delivered.antt =====
-- apps/mcp-server/src/main.rs: what the caller of a tool gets of the output in a page.
use Prim.Native.String.{String}
use ai_ssh.Base.{
  ℕ, ◌≡◌, refl, ap, sym, ◌∙◌, Bool, true, List, [], ◌∷◌, ◌++◌, Option, some, arith, inl, inr,
}
use ai_ssh.Base.Tests.{if◌then◌else◌, Bool-cases}
use ai_ssh.Base.Lists.{All, keep}
use ai_ssh.Base.Text.{Text, text_eq}
use ai_ssh.Base.Utf8.{from_utf8}
use ai_ssh.Base.Utf8.Append.{text_of, is_sound}
use ai_ssh.Protocol.Messages.{ResponseData}
use ai_ssh.Mcp.Json.{Json}
use ai_ssh.Mcp.Arguments.{Detail, Shaping}
use ai_ssh.Protocol.Types.{CommandInfo, TerminalEvent, EventProgress, is_running}
use ai_ssh.Storage.Events.Order.{Ascends}
use ai_ssh.Mcp.Decoders.{
  DecodedEvent, Decoders, state_of, default_state, stream_name, command_prefix, first_some,
  event_key, decode_event, decode_events, has_prefix, clear_decoders_for_command,
}
use ai_ssh.Mcp.Decoders.Streams.{
  is_of_stream, stream_payload, stream_text, decode_events-from_utf8,
  state_of-clear_decoders_for_command, has_prefix-append,
}
use ai_ssh.Mcp.Shape.{
  Public, OutputView, EventView, output_of, events_from, clear_finished, public_json,
}
use ai_ssh.Mcp.Chunks.{text_of_events, text_of_chunks, chunks_from_lem}

text_eq-append : (p s t : Text) → text_eq (p ++ s) (p ++ t) ≡ text_eq s t
unfolding text_eq
text_eq-append [] s t = refl
text_eq-append (c ∷ p) s t = ground (arith, text_eq-append p s t)

module _ (id : Text) (stream : Text) where
  -- The key of one stream of the command.
  abbrev pub command_key : Text
  command_key = command_prefix id ++ stream

  -- An event of the command, or one that names none.
  abbrev pub OfCommand : TerminalEvent → Type 0
  OfCommand e = first_some e.command_id (some id) ≡ some id

  is_of_stream-eq :
      (e : TerminalEvent)
      → OfCommand e
      → is_of_stream (some id) command_key e ≡ text_eq (stream_name e.stream) stream
  unfolding event_key
  is_of_stream-eq e h = rw h (text_eq-append (command_prefix id) (stream_name e.stream) stream)

  stream-decode_event :
      (e : TerminalEvent) (ds : Decoders)
      → (decode_event (some id) e ds).0.stream ≡ stream_name e.stream
  unfolding decode_event
  stream-decode_event e ds = refl

  text_of_events-decode_events :
      (es : List TerminalEvent) (ds : Decoders)
      → All OfCommand es
      → let decoded = (decode_events (some id) es ds).0 in
        text_of_events stream decoded ≡ stream_text (some id) command_key es decoded
  unfolding decode_events
  text_of_events-decode_events [] ds h = refl
  text_of_events-decode_events (e ∷ es) ds h =
      let later = (decode_event (some id) e ds).1 in
      let rest = text_of_events-decode_events es later h.1 in
      let ours =
        ap (λ (s : Text). text_eq s stream) (stream-decode_event e ds)
        ∙ sym (is_of_stream-eq e h.0) in
      elim (Bool-cases (is_of_stream (some id) command_key e)) [
        | inl yours ↦ rw (ours, yours, rest) refl
        | inr other ↦ rw (ours, other, rest) refl
      ]

-- The text of one stream in what the caller gets, in either shape.
abbrev pub text_of_views : (stream : Text) → List EventView → Text
text_of_views stream [] = []
text_of_views stream (e ∷ es) =
    if text_eq e.stream stream then e.text ++ text_of_views stream es else text_of_views stream es

abbrev pub text_of_output : (stream : Text) → OutputView → Text
text_of_output stream (OutputView.chunks cs) = text_of_chunks stream cs
text_of_output stream (OutputView.events es) = text_of_views stream es

abbrev pub shown_text : (stream : Text) → Public → Text
shown_text stream (Public.page v) = text_of_output stream v.output
shown_text stream _ = []

module _ (J : Json) where
  text_of_views-events_from :
      (stream : Text) (es : List DecodedEvent)
      → text_of_views stream (events_from J es) ≡ text_of_events stream es
  unfolding events_from
  text_of_views-events_from stream [] = refl
  text_of_views-events_from stream (e ∷ es) = rw (text_of_views-events_from stream es) refl

  text_of_output-output_of :
      (stream : Text) (detail : Detail) (es : List DecodedEvent)
      → text_of_output stream (output_of J detail es) ≡ text_of_events stream es
  unfolding output_of
  text_of_output-output_of stream Detail.compact es = (chunks_from_lem es stream).0
  text_of_output-output_of stream Detail.full es = text_of_views-events_from stream es

  clear_again :
      (id key : Text) (ds : Decoders)
      → state_of key ds ≡ default_state
      → state_of key (clear_decoders_for_command id ds) ≡ default_state
  clear_again id key ds h =
      state_of-clear_decoders_for_command id key ds
      ∙ elim (Bool-cases (has_prefix (command_prefix id) key)) [
        | inl gone ↦ rw gone refl
        | inr stays ↦ rw stays h
      ]

  clear_finished_keeps :
      (cs : List CommandInfo) (key : Text) (ds : Decoders)
      → state_of key ds ≡ default_state
      → state_of key (clear_finished J cs ds) ≡ default_state
  unfolding clear_finished
  clear_finished_keeps [] key ds h = h
  clear_finished_keeps (c ∷ cs) key ds h = elim (Bool-cases (is_running c.status)) [
    | inl running ↦ rw running (clear_finished_keeps cs key ds h)
    | inr over ↦ rw over (
        clear_finished_keeps cs key (clear_decoders_for_command c.id ds)
          (clear_again c.id key ds h))
  ]

  module _ (limit : Option ℕ) (s : Shaping) (c : CommandInfo) (others : List CommandInfo)
      (es : List TerminalEvent) (next_sequence : ℕ) (has_more complete : Bool)
      (warnings : List String) (progress : EventProgress) (stream : Text) (ds : Decoders) where
    abbrev answer : Public × Decoders
    answer =
        public_json J limit s
          (ResponseData.events (some c) others es next_sequence has_more complete warnings progress)
          ds

    abbrev key : Text
    key = command_key c.id stream

    -- Whatever shape the caller asked for, the texts of a stream in the answer to a poll are together
    -- the text of the bytes that the events of the stream carry, however a character is split between
    -- them: if the page holds only events of the command, nothing was pending for the stream, the
    -- numbers ascend, and the bytes are UTF-8 up to their end. When the output is delivered
    -- completely, nothing is kept for the stream.
    pub public_json-shown_text :
        All (OfCommand c.id stream) es
        → (state_of key ds).pending ≡ []
        → Ascends (state_of key ds).last_sequence (keep (is_of_stream (some c.id) key) es)
        → is_sound (from_utf8 (stream_payload (some c.id) key es)) ≡ true
        → (shown_text stream answer.0 ≡ text_of (from_utf8 (stream_payload (some c.id) key es)))
          × (complete ≡ true → state_of key answer.1 ≡ default_state)
    unfolding public_json
    public_json-shown_text only fresh rises sound =
        let read = decode_events (some c.id) es ds in
        let cleared : state_of key (clear_decoders_for_command c.id read.1) ≡ default_state =
          state_of-clear_decoders_for_command c.id key read.1
          ∙ rw (has_prefix-append (command_prefix c.id) stream) refl in
        (
          text_of_output-output_of stream s.detail read.0
              ∙ text_of_events-decode_events c.id stream es ds only
              ∙ (decode_events-from_utf8 (some c.id) key es ds fresh rises sound).0,
          λ done. elim (Bool-cases has_more) [
            | inl later ↦ rw (done, later) cleared
            | inr last ↦
                rw (done, last)
                  (clear_finished_keeps others key (clear_decoders_for_command c.id read.1) cleared)
          ],
        )
