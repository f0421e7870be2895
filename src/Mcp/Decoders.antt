-- ===== src/Mcp/Decoders.antt =====
-- apps/mcp-server/src/main.rs: the text of events. A character may be split between two events of a
-- stream, so the bytes of one that is not complete are kept under the stream's key.
pub mod Streams
use ai_ssh.Base.{ℕ, max, Bool, true, false, not, ◌&&◌, List, [], ◌∷◌, ◌++◌, Option, none, some}
use ai_ssh.Base.Tests.{leb, if◌then◌else◌}
use ai_ssh.Base.Lists.{find, keep}
use ai_ssh.Base.Text.{Text, codes, text_eq}
use ai_ssh.Base.Utf8.{Utf8, whole, cut, broken, from_utf8, from_utf8_lossy}
use ai_ssh.Protocol.Types.{StreamKind, TerminalEvent}

pub record DecoderState : Type 0 where
  pub last_sequence : ℕ
  pub pending : List ℕ

-- `TEXT_DECODERS`: the states by their keys. Its lock is never poisoned.
abbrev pub Decoders : Type 0
Decoders = List (Text × DecoderState)

abbrev pub default_state : DecoderState
default_state = record { last_sequence = 0; pending = [] }

abbrev pub key_is : Text → Text × DecoderState → Bool
key_is key d = text_eq d.0 key

-- `entry(key).or_default()`.
unfoldable pub state_of : Text → Decoders → DecoderState
state_of key ds = elim (find (key_is key) ds) [ none ↦ default_state | some d ↦ d.1 ]

unfoldable pub put_state : Text → DecoderState → Decoders → Decoders
put_state key st ds = (key, st) ∷ keep (λ d. not (key_is key d)) ds

-- The three outcomes of `from_utf8`: the text, and what stays pending.
abbrev pub decoded_text : List ℕ → Utf8 → Text × List ℕ
decoded_text bytes (whole text) = (text, [])
decoded_text bytes (cut text pending) = (text, pending)
decoded_text bytes broken = (from_utf8_lossy bytes, [])

-- `decode_event_text` on the state of the key.
unfoldable pub decode_step : (sequence : ℕ) → List ℕ → DecoderState → Text × DecoderState
decode_step sequence payload st =
    let pending = if leb sequence st.last_sequence then [] else st.pending in
    let read = decoded_text (pending ++ payload) (from_utf8 (pending ++ payload)) in
    (read.0, record { last_sequence = max st.last_sequence sequence; pending = read.1 })

unfoldable pub decode_event_text :
    (key : Text) → (sequence : ℕ) → List ℕ → Decoders → Text × Decoders
decode_event_text key sequence payload ds =
    let step = decode_step sequence payload (state_of key ds) in (step.0, put_state key step.1 ds)

abbrev pub has_prefix : Text → Text → Bool
has_prefix [] s = true
has_prefix (c ∷ p) [] = false
has_prefix (c ∷ p) (d ∷ s) = text_eq (c ∷ []) (d ∷ []) && has_prefix p s

abbrev pub stream_name : StreamKind → Text
stream_name StreamKind.stdout = codes "stdout"
stream_name StreamKind.stderr = codes "stderr"
stream_name StreamKind.pty = codes "pty"
stream_name StreamKind.system = codes "system"

abbrev pub command_prefix : Text → Text
command_prefix id = codes "command:" ++ id ++ codes ":"

unfoldable pub clear_decoders_for_command : (command_id : Text) → Decoders → Decoders
clear_decoders_for_command id ds = keep (λ d. not (has_prefix (command_prefix id) d.0)) ds

-- `event.command_id.as_deref().or(command_id)`.
abbrev pub first_some : Option Text → Option Text → Option Text
first_some none other = other
first_some (some id) other = some id

abbrev pub stream_key : (session_id : Text) → Option Text → Text → Text
stream_key session_id (some id) stream = codes "command:" ++ id ++ codes ":" ++ stream
stream_key session_id none stream = codes "session:" ++ session_id ++ codes ":" ++ stream

unfoldable pub event_key : (command_id : Option Text) → TerminalEvent → Text
event_key command_id e =
    stream_key e.session_id (first_some e.command_id command_id) (stream_name e.stream)

pub record DecodedEvent : Type 0 where
  pub stream : Text
  pub text : Text
  pub sequence : ℕ
  pub persisted : Bool
  pub payload : List ℕ

unfoldable pub decode_event :
    (command_id : Option Text) → TerminalEvent → Decoders → DecodedEvent × Decoders
decode_event command_id e ds =
    let decoded = decode_event_text (event_key command_id e) e.sequence e.payload ds in
    (
      record {
        stream = stream_name e.stream;
        text = decoded.0;
        sequence = e.sequence;
        persisted = e.persisted;
        payload = e.payload;
      },
      decoded.1,
    )

-- The events of a page, in order.
unfoldable pub decode_events :
    (command_id : Option Text) → List TerminalEvent → Decoders → List DecodedEvent × Decoders
decode_events command_id [] ds = ([], ds)
decode_events command_id (e ∷ es) ds =
    let (here, ds') = decode_event command_id e ds in
    let (later, left) = decode_events command_id es ds' in (here ∷ later, left)
