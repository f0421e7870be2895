-- ===== src/Mcp/Examples.antt =====
-- apps/mcp-server/src/main.rs: a small JSON and calls on which the theorems apply.
use ai_ssh.Base.{ℕ, ◌≡◌, refl, Bool, true, false, List, [], ◌∷◌, Option, none, some, arith}
use ai_ssh.Base.Tests.{if◌then◌else◌}
use ai_ssh.Base.Lists.{length}
use ai_ssh.Base.Text.{Text, codes, text_eq}
use ai_ssh.Base.Result.{ok}
use ai_ssh.Base.Utf8.{from_utf8, from_utf8_lossy, lossy, scan}
use ai_ssh.Base.Utf8.Append.{text_of}
use ai_ssh.Protocol.Types.{TerminalEvent, StreamKind, CommandInfo, CommandStatus, EventProgress}
use ai_ssh.Protocol.Messages.{Request, ResponseData}
use ai_ssh.Mcp.Json.{Json}
use ai_ssh.Mcp.Decoders.{Decoders, DecodedEvent, default_state, decode_events, state_of, event_key}
use ai_ssh.Mcp.Decoders.Streams.{stream_text, decode_events_again}
use ai_ssh.Mcp.Chunks.{
  text_of_chunks, text_of_events, events_counted, IsSeparated, chunks_from, chunks_from_lem,
}
use ai_ssh.Mcp.Arguments.{Shaping, Detail, Encoding, required_string}
use ai_ssh.Mcp.Arguments.Requests.{tool_request}
use ai_ssh.Mcp.Arguments.Requests.Bounds.{IsToolRequest, tool_request-IsToolRequest}
use ai_ssh.Mcp.Shape.{public_json}
use ai_ssh.Mcp.Shape.Delivered.{command_key, shown_text, public_json-shown_text}

-- JSON without arrays; an object is its fields.
pub data Tree : Type 0 where
  null : Tree
  word : Text → Tree
  number : ℕ → Tree
  flag : Bool → Tree
  empty : Tree
  field : (key : Text) (value rest : Tree) → Tree

abbrev find_field : Tree → Text → Option Tree
find_field (field key value rest) wanted =
    if text_eq key wanted then some value else find_field rest wanted
find_field _ wanted = none

abbrev as_word : Tree → Option Text
as_word (word s) = some s
as_word _ = none

abbrev as_number : Tree → Option ℕ
as_number (number n) = some n
as_number _ = none

abbrev as_flag : Tree → Option Bool
as_flag (flag b) = some b
as_flag _ = none

abbrev is_nothing : Tree → Bool
is_nothing null = true
is_nothing _ = false

abbrev pub trees : Json
trees = record {
  Value = Tree;
  get = find_field;
  as_str = as_word;
  as_u64 = as_number;
  as_bool = as_flag;
  is_null = is_nothing;
  entries = λ _. none;
  empty_object = empty;
  decode = λ _. none;
  encode = λ bytes. bytes;
}

abbrev poll_arguments : Tree
poll_arguments =
    field (codes "command_id") (word (codes "c1"))
      (field (codes "wait_seconds") (number 9000) empty)

-- Nine thousand seconds are too many.
poll_is_parsed :
    tool_request trees (codes "ssh_command_poll") poll_arguments
    ≡ ok (Request.command_poll (codes "c1") 0 65536 300)
unfolding tool_request required_string text_eq
poll_is_parsed = refl

tool_request-IsToolRequest_example : IsToolRequest (Request.command_poll (codes "c1") 0 65536 300)
tool_request-IsToolRequest_example =
    tool_request-IsToolRequest trees (codes "ssh_command_poll") poll_arguments
      (Request.command_poll (codes "c1") 0 65536 300) poll_is_parsed

abbrev half : ℕ → ℕ → TerminalEvent
half sequence byte = record {
  session_id = codes "s1";
  command_id = none;
  sequence = sequence;
  timestamp = 0;
  stream = StreamKind.stdout;
  payload = byte ∷ [];
  persisted = true;
}

-- One character in two events.
abbrev two_halves : List TerminalEvent
two_halves = half 1 195 ∷ half 2 169 ∷ []

abbrev some_command : CommandInfo
some_command = record {
  id = codes "c1";
  session_id = codes "s1";
  command = codes "ls";
  status = CommandStatus.completed;
  exit_code = some 0;
  started_at = 0;
  finished_at = some 1;
  last_sequence = 2;
  recording_truncated = false;
  output_bytes = 2;
}

abbrev at_once : EventProgress
at_once = record {
  seconds_since_last_output = none;
  live_tail_dropped = false;
  timed_out = false;
  waited_seconds = 0;
}

abbrev pub compact_shape : Shaping
compact_shape = record { detail = Detail.compact; encoding = Encoding.text; after_sequence = 0 }

abbrev page_of_two : ResponseData
page_of_two = ResponseData.events (some some_command) [] two_halves 2 false true [] at_once

public_json-shown_text_example :
    (shown_text (codes "stdout") (public_json trees none compact_shape page_of_two []).0
      ≡ text_of (from_utf8 (195 ∷ 169 ∷ [])))
    × (◌≡◌ {A = Bool} true true
        → state_of
            (command_key (codes "c1") (codes "stdout"))
            (public_json trees none compact_shape page_of_two []).1
          ≡ default_state)
unfolding state_of event_key text_eq from_utf8 scan
public_json-shown_text_example =
    public_json-shown_text trees none compact_shape some_command [] two_halves 2 false true []
      at_once (codes "stdout") [] (refl, (refl, tt)) refl (omega arith, (omega arith, tt)) refl

the_character : text_of (from_utf8 (195 ∷ 169 ∷ [])) ≡ 233 ∷ []
unfolding from_utf8 scan
the_character = refl

abbrev stdout_key : Text
stdout_key = codes "command:c1:stdout"

abbrev after_both : Decoders
after_both = (stdout_key, record { last_sequence = 2; pending = [] }) ∷ []

-- The second time the two halves are read, the second is a replacement.
decode_events_again_example :
    stream_text
      (some (codes "c1"))
      stdout_key
      two_halves
      (decode_events (some (codes "c1")) two_halves after_both).0
    ≡ 65533 ∷ []
unfolding state_of event_key text_eq from_utf8 from_utf8_lossy lossy scan
decode_events_again_example =
    decode_events_again (some (codes "c1")) stdout_key two_halves after_both 2 refl
      (omega arith, (omega arith, tt))

abbrev decoded_two : List DecodedEvent
decoded_two =
    record {
      stream = codes "stdout";
      text = codes "a";
      sequence = 1;
      persisted = true;
      payload = 97 ∷ [];
    }
    ∷ record {
      stream = codes "stdout";
      text = codes "b";
      sequence = 2;
      persisted = true;
      payload = 98 ∷ [];
    }
    ∷ []

chunks_from_lem_example :
    (text_of_chunks (codes "stdout") (chunks_from decoded_two)
      ≡ text_of_events (codes "stdout") decoded_two)
    × (events_counted (chunks_from decoded_two) ≡ length decoded_two)
    × IsSeparated (chunks_from decoded_two)
chunks_from_lem_example = chunks_from_lem decoded_two (codes "stdout")
