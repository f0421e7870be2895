-- ===== src/Mcp/Decoders/Streams.antt =====
-- apps/mcp-server/src/main.rs: what the decoders make of a whole stream.
use ai_ssh.Base.{
  ℕ, max, ◌≤◌, ◌<◌, ◌≡◌, ◌≢◌, refl, ap, sym, ◌∙◌, Bool, true, false, not, List, [], ◌∷◌, ◌++◌,
  Option, none, arith, inl, inr,
}
use ai_ssh.Base.Tests.{leb, Bool-cases, if◌then◌else◌}
use ai_ssh.Base.Lists.{All, find, keep}
use ai_ssh.Base.Text.{Text, text_eq, text_eq_iff, text_eq_refl}
use ai_ssh.Base.Utf8.{Utf8, whole, cut, broken, from_utf8, scan}
use ai_ssh.Base.Utf8.Append.{
  IsPending, scan-IsPending, scan_parts, scan-nil, text_of, rest_of, is_sound,
}
use ai_ssh.Protocol.Types.{TerminalEvent}
use ai_ssh.Mcp.Decoders.{
  DecoderState, Decoders, key_is, state_of, put_state, decode_step, decode_event_text, event_key,
  decode_event, decode_events, DecodedEvent, default_state, decoded_text, has_prefix,
  command_prefix, clear_decoders_for_command,
}
use ai_ssh.Storage.Events.Order.{Ascends}

find-keep_other :
    (key other : Text) (ds : Decoders)
    → key ≢ other
    → find (key_is key) (keep (λ d. not (key_is other d)) ds) ≡ find (key_is key) ds
find-keep_other key other [] h = refl
find-keep_other key other (d ∷ ds) h =
    ground (arith, text_eq_iff d.0 key, text_eq_iff d.0 other, find-keep_other key other ds h)

pub state_of-put_state :
    (key other : Text) (st : DecoderState) (ds : Decoders)
    → state_of key (put_state other st ds) ≡ (if text_eq other key then st else state_of key ds)
unfolding state_of put_state
state_of-put_state key other st ds =
    ground (arith, text_eq_iff other key, find-keep_other key other ds)

decoded_sound :
    (sequence : ℕ) (bytes : List ℕ) (read : Utf8)
    → is_sound read ≡ true
    → ◌≡◌ {A = Text × DecoderState}
        (
          (decoded_text bytes read).0,
          record { last_sequence = sequence; pending = (decoded_text bytes read).1 },
        )
        (text_of read, record { last_sequence = sequence; pending = rest_of read })
decoded_sound sequence bytes (whole t) h = refl
decoded_sound sequence bytes (cut t q) h = refl
decoded_sound sequence bytes broken h = absurd (cc)

-- Where an event comes after those that were decoded, and the bytes so far have no error, it is read
-- behind what is pending.
decode_step_next :
    (sequence : ℕ) (payload : List ℕ) (st : DecoderState)
    → IsPending st.pending
    → st.last_sequence < sequence
    → is_sound (scan st.pending payload) ≡ true
    → decode_step sequence payload st ≡ (
      text_of (scan st.pending payload),
      record { last_sequence = sequence; pending = rest_of (scan st.pending payload) },
    )
unfolding decode_step from_utf8
decode_step_next sequence payload st h later sound =
    let fresh : leb sequence st.last_sequence ≡ false = ground arith in
    let last : max st.last_sequence sequence ≡ sequence = omega arith in
    rw (fresh, last, h payload)
      (decoded_sound sequence (st.pending ++ payload) (scan st.pending payload) sound)

module _ (command_id : Option Text) (key : Text) where
  abbrev pub is_of_stream : TerminalEvent → Bool
  is_of_stream e = text_eq (event_key command_id e) key

  abbrev pub stream_payload : List TerminalEvent → List ℕ
  stream_payload [] = []
  stream_payload (e ∷ es) =
      if is_of_stream e then e.payload ++ stream_payload es else stream_payload es

  -- The texts of the decoded events that belong to the stream, one after the other.
  abbrev pub stream_text : List TerminalEvent → List DecodedEvent → Text
  stream_text [] ds = []
  stream_text (e ∷ es) [] = []
  stream_text (e ∷ es) (d ∷ ds) =
      if is_of_stream e then d.text ++ stream_text es ds else stream_text es ds

  text-decode_event :
      (e : TerminalEvent) (ds : Decoders)
      → is_of_stream e ≡ true
      → (decode_event command_id e ds).0.text
        ≡ (decode_step e.sequence e.payload (state_of key ds)).0
  unfolding decode_event decode_event_text
  text-decode_event e ds ours = rw ((text_eq_iff (event_key command_id e) key).0 ours) refl

  state_of-decode_event :
      (e : TerminalEvent) (ds : Decoders)
      → state_of key (decode_event command_id e ds).1 ≡ (
          if is_of_stream e
          then (decode_step e.sequence e.payload (state_of key ds)).1
          else state_of key ds)
  unfolding decode_event decode_event_text
  state_of-decode_event e ds =
      let k = event_key command_id e in
      let put = state_of-put_state key k (decode_step e.sequence e.payload (state_of k ds)).1 ds in
      elim (Bool-cases (is_of_stream e)) [
        | inl ours ↦ put ∙ rw ((text_eq_iff k key).0 ours) (rw (text_eq_refl key) refl)
        | inr other ↦ put ∙ rw other refl
      ]

  -- The text of the stream and what is pending of it, from any state in which earlier parts left it.
  stream_lem :
      (es : List TerminalEvent) (ds : Decoders) (st : DecoderState)
      → state_of key ds ≡ st
      → IsPending st.pending
      → Ascends st.last_sequence (keep is_of_stream es)
      → is_sound (scan st.pending (stream_payload es)) ≡ true
      → let result = decode_events command_id es ds in
        (stream_text es result.0 ≡ text_of (scan st.pending (stream_payload es)))
        × ((state_of key result.1).pending ≡ rest_of (scan st.pending (stream_payload es)))
  unfolding decode_events
  stream_lem [] ds st here h rises sound =
      let (none_read, all_left) = scan-nil st.pending in
      (sym none_read, ap (λ (s : DecoderState). s.pending) here ∙ sym all_left)
  stream_lem (e ∷ es) ds st here h rises sound = elim (Bool-cases (is_of_stream e)) [
    | inl ours ↦
        let up = rw ours at rises in
        let first = scan st.pending e.payload in
        let (sound_first, sound_rest, text, rest) =
          scan_parts st.pending e.payload (stream_payload es) (rw ours at sound) in
        let step = decode_step_next e.sequence e.payload st h up.0 sound_first in
        let next : DecoderState = record { last_sequence = e.sequence; pending = rest_of first } in
        let later = (decode_event command_id e ds).1 in
        let same : state_of key later ≡ next =
          state_of-decode_event e ds ∙ rw (ours, here, step) refl in
        let (texts, left) =
          stream_lem es later next same (scan-IsPending st.pending e.payload h) up.1 sound_rest in
        let here_text : (decode_event command_id e ds).0.text ≡ text_of first =
          text-decode_event e ds ours ∙ rw (here, step) refl in
        rw (ours, here_text, texts, left, text, rest) (refl, refl)
    | inr other ↦
        let later = (decode_event command_id e ds).1 in
        let same : state_of key later ≡ st = state_of-decode_event e ds ∙ rw other here in
        rw other (stream_lem es later st same h (rw other at rises) (rw other at sound))
  ]

  -- Whatever streams the events are of, the texts that one stream is given are together the text of
  -- its bytes together, however these are split into events, and what stays pending is the beginning
  -- of a character at their end: if nothing was pending, the numbers ascend behind the last that was
  -- decoded, and the bytes are UTF-8 up to their end.
  pub decode_events-from_utf8 :
      (es : List TerminalEvent) (ds : Decoders)
      → let read = from_utf8 (stream_payload es) in
        let result = decode_events command_id es ds in
        (state_of key ds).pending ≡ []
        → Ascends (state_of key ds).last_sequence (keep is_of_stream es)
        → is_sound read ≡ true
        → (stream_text es result.0 ≡ text_of read)
          × ((state_of key result.1).pending ≡ rest_of read)
  unfolding from_utf8
  decode_events-from_utf8 es ds fresh rises sound =
      let st : DecoderState = record {
        last_sequence = (state_of key ds).last_sequence;
        pending = [];
      } in
      let here : state_of key ds ≡ st =
        ap (λ (q : List ℕ). record (state_of key ds) { pending = q }) fresh in
      stream_lem es ds st here (λ bytes. refl) rises sound

  -- The text of an event that is decoded by itself.
  abbrev pub alone : TerminalEvent → Text
  alone e = (decoded_text e.payload (from_utf8 e.payload)).0

  abbrev pub alone_text : List TerminalEvent → Text
  alone_text [] = []
  alone_text (e ∷ es) = if is_of_stream e then alone e ++ alone_text es else alone_text es

  decode_step_old :
      (e : TerminalEvent) (st : DecoderState)
      → e.sequence ≤ st.last_sequence
      → ((decode_step e.sequence e.payload st).0 ≡ alone e)
        × ((decode_step e.sequence e.payload st).1.last_sequence ≡ st.last_sequence)
  unfolding decode_step
  decode_step_old e st old =
      let again : leb e.sequence st.last_sequence ≡ true = ground arith in
      (rw again refl, omega arith)

  -- When events of a stream are read again, the text of each of them is what its bytes say alone, so
  -- that a character which is split between two of them is not put together again.
  pub decode_events_again :
      (es : List TerminalEvent) (ds : Decoders) (last : ℕ)
      → (state_of key ds).last_sequence ≡ last
      → All (λ e. e.sequence ≤ last) (keep is_of_stream es)
      → stream_text es (decode_events command_id es ds).0 ≡ alone_text es
  unfolding decode_events
  decode_events_again [] ds last here old = refl
  decode_events_again (e ∷ es) ds last here old =
      let later = (decode_event command_id e ds).1 in
      elim (Bool-cases (is_of_stream e)) [
        | inl ours ↦
            let up = rw ours at old in
            let (text, stays) = decode_step_old e (state_of key ds) (omega (arith, here, up.0)) in
            let same : (state_of key later).last_sequence ≡ last =
              ap (λ (s : DecoderState). s.last_sequence) (state_of-decode_event e ds)
              ∙ rw ours (stays ∙ here) in
            rw
              (ours, text-decode_event e ds ours, text, decode_events_again es later last same up.1)
              refl
        | inr other ↦
            let same : (state_of key later).last_sequence ≡ last =
              ap (λ (s : DecoderState). s.last_sequence) (state_of-decode_event e ds)
              ∙ rw other here in
            rw other (decode_events_again es later last same (rw other at old))
      ]

pub has_prefix-append : (p s : Text) → has_prefix p (p ++ s) ≡ true
unfolding text_eq
has_prefix-append [] s = refl
has_prefix-append (c ∷ p) s = ground (arith, has_prefix-append p s)

find-keep_cleared :
    (key : Text) (test : Text × DecoderState → Bool) (gone : Bool) (ds : Decoders)
    → ((d : Text × DecoderState) → d.0 ≡ key → test d ≡ not gone)
    → find (key_is key) (keep test ds) ≡ (if gone then none else find (key_is key) ds)
find-keep_cleared key test true [] h = refl
find-keep_cleared key test false [] h = refl
find-keep_cleared key test true (d ∷ ds) h =
    ground (arith, text_eq_iff d.0 key, h d, find-keep_cleared key test true ds h)
find-keep_cleared key test false (d ∷ ds) h =
    ground (arith, text_eq_iff d.0 key, h d, find-keep_cleared key test false ds h)

-- Clearing forgets exactly the streams of the command.
pub state_of-clear_decoders_for_command :
    (id key : Text) (ds : Decoders)
    → state_of key (clear_decoders_for_command id ds)
      ≡ (if has_prefix (command_prefix id) key then default_state else state_of key ds)
unfolding state_of clear_decoders_for_command
state_of-clear_decoders_for_command id key ds =
    let found =
      find-keep_cleared key (λ d. not (has_prefix (command_prefix id) d.0))
        (has_prefix (command_prefix id) key) ds
        (λ d e. ap (λ (k : Text). not (has_prefix (command_prefix id) k)) e) in
    elim (Bool-cases (has_prefix (command_prefix id) key)) [
      | inl ours ↦ rw (found, state_of) (rw ours refl)
      | inr other ↦ rw (found, state_of) (rw other refl)
    ]
