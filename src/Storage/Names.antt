-- ===== src/Storage/Names.antt =====
-- crates/storage/src/lib.rs: `enum_text` and `parse_enum`, the text form of the statuses and stream
-- kinds that the columns hold: the snake_case names that serde derives for the variants.
use ai_ssh.Base.{◌≡◌, refl, List, [], ◌∷◌}
use ai_ssh.Base.Tests.{if◌then◌else◌}
use ai_ssh.Base.Text.{Text, codes, text_eq}
use ai_ssh.Protocol.Types.{SessionStatus, CommandStatus, StreamKind}

unfoldable pub session_status_text : SessionStatus → Text
session_status_text SessionStatus.connecting = codes "connecting"
session_status_text SessionStatus.ready = codes "ready"
session_status_text SessionStatus.exec_running = codes "exec_running"
session_status_text SessionStatus.pty_open = codes "pty_open"
session_status_text SessionStatus.idle = codes "idle"
session_status_text SessionStatus.disconnected = codes "disconnected"
session_status_text SessionStatus.interrupted = codes "interrupted"
session_status_text SessionStatus.closed = codes "closed"
session_status_text SessionStatus.failed = codes "failed"

unfoldable pub command_status_text : CommandStatus → Text
command_status_text CommandStatus.running = codes "running"
command_status_text CommandStatus.completed = codes "completed"
command_status_text CommandStatus.failed = codes "failed"
command_status_text CommandStatus.timed_out = codes "timed_out"
command_status_text CommandStatus.cancelled = codes "cancelled"
command_status_text CommandStatus.interrupted = codes "interrupted"

unfoldable pub stream_kind_text : StreamKind → Text
stream_kind_text StreamKind.stdout = codes "stdout"
stream_kind_text StreamKind.stderr = codes "stderr"
stream_kind_text StreamKind.pty = codes "pty"
stream_kind_text StreamKind.system = codes "system"

abbrev session_statuses : List SessionStatus
session_statuses =
    SessionStatus.connecting ∷ SessionStatus.ready ∷ SessionStatus.exec_running
    ∷ SessionStatus.pty_open ∷ SessionStatus.idle ∷ SessionStatus.disconnected
    ∷ SessionStatus.interrupted ∷ SessionStatus.closed ∷ SessionStatus.failed ∷ []

abbrev command_statuses : List CommandStatus
command_statuses =
    CommandStatus.running ∷ CommandStatus.completed ∷ CommandStatus.failed ∷ CommandStatus.timed_out
    ∷ CommandStatus.cancelled ∷ CommandStatus.interrupted ∷ []

abbrev stream_kinds : List StreamKind
stream_kinds = StreamKind.stdout ∷ StreamKind.stderr ∷ StreamKind.pty ∷ StreamKind.system ∷ []

-- `parse_enum`: the variant with that name, or the fallback.
unfoldable pub parse_enum {ℓ} : {A : Type ℓ} → (A → Text) → List A → Text → A → A
unfolding text_eq
parse_enum name [] value fallback = fallback
parse_enum name (a ∷ rest) value fallback =
    if text_eq (name a) value then a else parse_enum name rest value fallback

unfoldable pub parse_session_status : Text → SessionStatus
unfolding parse_enum session_status_text
parse_session_status value =
    parse_enum session_status_text session_statuses value SessionStatus.failed

unfoldable pub parse_command_status : Text → CommandStatus
unfolding parse_enum command_status_text
parse_command_status value =
    parse_enum command_status_text command_statuses value CommandStatus.failed

unfoldable pub parse_stream_kind : Text → StreamKind
unfolding parse_enum stream_kind_text
parse_stream_kind value = parse_enum stream_kind_text stream_kinds value StreamKind.system

-- Every status that is written to a column is read back as itself, though an unknown text reads as
-- a failure.
pub parse_session_status-text :
    (s : SessionStatus) → parse_session_status (session_status_text s) ≡ s
unfolding parse_session_status
parse_session_status-text SessionStatus.connecting = refl
parse_session_status-text _ = refl

pub parse_command_status-text :
    (s : CommandStatus) → parse_command_status (command_status_text s) ≡ s
unfolding parse_command_status
parse_command_status-text CommandStatus.running = refl
parse_command_status-text _ = refl

pub parse_stream_kind-text : (s : StreamKind) → parse_stream_kind (stream_kind_text s) ≡ s
unfolding parse_stream_kind
parse_stream_kind-text StreamKind.stdout = refl
parse_stream_kind-text _ = refl

-- The text forms of all three enumerations are read back as what was written.
pub names_round_trip :
    ((s : SessionStatus) → parse_session_status (session_status_text s) ≡ s)
    × ((s : CommandStatus) → parse_command_status (command_status_text s) ≡ s)
    × ((s : StreamKind) → parse_stream_kind (stream_kind_text s) ≡ s)
names_round_trip = (parse_session_status-text, parse_command_status-text, parse_stream_kind-text)
