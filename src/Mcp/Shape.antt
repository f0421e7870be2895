-- ===== src/Mcp/Shape.antt =====
-- apps/mcp-server/src/main.rs: what a response of the daemon looks like for the caller of a tool. An
-- object is a record with its keys, and a key that may be left out is an option.
pub mod Delivered
use Prim.Native.String.{String}
use ai_ssh.Base.{ℕ, Bool, true, false, not, ◌&&◌, ◌||◌, List, [], ◌∷◌, Option, none, some, map}
use ai_ssh.Base.Tests.{if◌then◌else◌}
use ai_ssh.Base.Lists.{keep}
use ai_ssh.Base.Text.{Text, codes, text_eq}
use ai_ssh.Base.Utf8.{from_utf8_lossy}
use ai_ssh.Protocol.Types.{
  CommandInfo, CommandSummary, CommandStatus, is_running, is_interrupted, EventProgress,
  FileStatInfo, FileContentInfo, FileOutcome,
}
use ai_ssh.Protocol.Preview.{command_preview}
use ai_ssh.Protocol.Messages.{ErrorPayload, Message, ResponseData}
use ai_ssh.Mcp.Json.{Json}
use ai_ssh.Mcp.Arguments.{Detail, Encoding, Shaping, is_compact, first_page}
use ai_ssh.Mcp.Decoders.{DecodedEvent, Decoders, decode_events, clear_decoders_for_command}
use ai_ssh.Mcp.Chunks.{Chunk, chunks_from}

pub record CommandView : Type 0 where
  pub id : Text
  pub session_id : Text
  pub command : Option Text
  pub command_preview : Option Text
  pub status : CommandStatus
  pub exit_code : Option ℕ
  pub started_at : ℕ
  pub finished_at : Option ℕ
  pub last_sequence : ℕ
  pub recording_truncated : Bool
  pub output_bytes : ℕ

unfoldable pub command_view : CommandInfo → Detail → (include_preview : Bool) → CommandView
command_view c detail include_preview = record {
  id = c.id;
  session_id = c.session_id;
  command = if is_compact detail then none else some c.command;
  command_preview = if include_preview then some (command_preview c.command) else none;
  status = c.status;
  exit_code = c.exit_code;
  started_at = c.started_at;
  finished_at = c.finished_at;
  last_sequence = c.last_sequence;
  recording_truncated = c.recording_truncated;
  output_bytes = c.output_bytes;
}

pub record EventView : Type 0 where
  pub stream : Text
  pub text : Text
  pub data_base64 : Text
  pub sequence : ℕ
  pub persisted : Bool

-- `output_value`: the one key of it.
pub data OutputView : Type 0 where
  chunks : List Chunk → OutputView
  events : List EventView → OutputView

pub record EventsView : Type 0 where
  pub command : Option CommandView
  pub commands : List CommandView
  pub output : OutputView
  pub next_sequence : ℕ
  pub has_more : Bool
  pub poll_complete : Bool
  pub remote_state_unknown : Bool
  pub page_truncated : Bool
  pub recording_truncated : Bool
  pub live_tail_dropped : Bool
  pub recording_limit_mib : Option ℕ
  pub progress : EventProgress
  pub warnings : List String

pub record FileContentView : Type 0 where
  pub path : Text
  pub size : ℕ
  pub bytes_returned : ℕ
  pub truncated : Bool
  pub is_utf8 : Bool
  pub sha256 : Option Text
  pub text : Option Text
  pub data_base64 : Option Text
  pub encoding : Option Text

-- `public_json`: a page of output, the kinds in an envelope, and the responses as they are.
pub data Public : Type 0 where
  page : EventsView → Public
  file_content : FileContentView → Public
  file_stat : FileStatInfo → Public
  file_outcome : FileOutcome → Public
  commands : List CommandSummary → Public
  command : CommandView → Public
  as_is : ResponseData → Public

abbrev pub is_text : Encoding → Bool
is_text Encoding.text = true
is_text Encoding.base64 = false

-- The key `encoding`, which the last of the two writes decides.
abbrev pub shown_encoding : (is_utf8 include_text include_base64 : Bool) → Encoding → Option Text
shown_encoding is_utf8 include_text include_base64 encoding =
    if not include_text && not (is_text encoding)
    then some (codes "base64")
    else if include_base64
    then some (if is_utf8 then codes "text" else codes "binary")
    else none

module _ (J : Json) where
  unfoldable pub file_content_json : FileContentInfo → Detail → Encoding → FileContentView
  file_content_json info detail encoding =
      let include_base64 =
        (not (is_text encoding) || not info.is_utf8) || not (is_compact detail) in
      let include_text = is_text encoding && info.is_utf8 in
      record {
        path = info.path;
        size = info.size;
        bytes_returned = info.bytes_returned;
        truncated = info.truncated;
        is_utf8 = info.is_utf8;
        sha256 = info.sha256;
        text = if include_text then some (from_utf8_lossy info.contents) else none;
        data_base64 = if include_base64 then some (J.encode info.contents) else none;
        encoding = shown_encoding info.is_utf8 include_text include_base64 encoding;
      }

  -- `events_from`.
  unfoldable pub events_from : List DecodedEvent → List EventView
  events_from = map (λ (e : DecodedEvent). record {
    stream = e.stream;
    text = e.text;
    data_base64 = J.encode e.payload;
    sequence = e.sequence;
    persisted = e.persisted;
  })

  unfoldable pub output_of : Detail → List DecodedEvent → OutputView
  unfolding events_from
  output_of detail decoded =
      if is_compact detail
      then OutputView.chunks (chunks_from decoded)
      else OutputView.events (events_from decoded)

  abbrev pub id_of : Option CommandInfo → Option Text
  id_of none = none
  id_of (some c) = some c.id

  abbrev pub is_primary : Option CommandInfo → CommandInfo → Bool
  is_primary none value = false
  is_primary (some c) value = text_eq value.id c.id

  -- The decoders of commands whose output has been read to its end are dropped.
  abbrev pub clear_primary : Bool → Option CommandInfo → Decoders → Decoders
  clear_primary delivery_complete none ds = ds
  clear_primary delivery_complete (some c) ds =
      if delivery_complete then clear_decoders_for_command c.id ds else ds

  unfoldable pub clear_finished : List CommandInfo → Decoders → Decoders
  clear_finished [] ds = ds
  clear_finished (c ∷ cs) ds =
      clear_finished cs
        (if not (is_running c.status) then clear_decoders_for_command c.id ds else ds)

  abbrev pub shown_command : Shaping → Option CommandInfo → Option CommandView
  shown_command s none = none
  shown_command s (some c) = some (command_view c s.detail (first_page s))

  abbrev pub is_unknown : Option CommandInfo → Bool
  is_unknown none = false
  is_unknown (some c) = is_interrupted c.status

  abbrev pub is_truncated : Option CommandInfo → Bool
  is_truncated none = false
  is_truncated (some c) = c.recording_truncated

  -- `recording_limit` is what the configuration file says at this time, if it can be loaded.
  unfoldable pub public_json :
      (recording_limit : Option ℕ) → Shaping → ResponseData → Decoders → Public × Decoders
  public_json recording_limit s
        (ResponseData.events primary others es next_sequence has_more delivery_complete warnings
          progress)
        ds =
      let (decoded, read) = decode_events (id_of primary) es ds in
      let cleared = clear_primary delivery_complete primary read in
      (
        Public.page (record {
          command = shown_command s primary;
          commands =
              map (λ (c : CommandInfo). command_view c s.detail (first_page s))
                (keep (λ c. not (is_primary primary c)) others);
          output = output_of s.detail decoded;
          next_sequence = next_sequence;
          has_more = has_more;
          poll_complete = delivery_complete;
          remote_state_unknown = is_unknown primary;
          page_truncated = has_more;
          recording_truncated = is_truncated primary;
          live_tail_dropped = progress.live_tail_dropped;
          recording_limit_mib = recording_limit;
          progress = progress;
          warnings = warnings;
        }),
        if has_more then cleared else clear_finished others cleared,
      )
  public_json recording_limit s (ResponseData.file_content info) ds =
      (Public.file_content (file_content_json info s.detail s.encoding), ds)
  public_json recording_limit s (ResponseData.file_stat info) ds = (Public.file_stat info, ds)
  public_json recording_limit s (ResponseData.file_outcome outcome) ds =
      (Public.file_outcome outcome, ds)
  public_json recording_limit s (ResponseData.commands summaries) ds =
      (Public.commands summaries, ds)
  public_json recording_limit s (ResponseData.command c) ds =
      (Public.command (command_view c Detail.full true), ds)
  public_json recording_limit s other ds = (Public.as_is other, ds)
