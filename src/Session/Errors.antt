-- ===== src/Session/Errors.antt =====
-- crates/session/src/lib.rs: error payloads, how a command's end is classified, and which commands
-- are refused as interactive.
use ai_ssh.Base.{
  ℕ, ◌≡◌, refl, Bool, true, false, not, ◌&&◌, ◌||◌, List, [], ◌∷◌, ◌++◌, Option, none, some,
}
use ai_ssh.Base.Tests.{leb, ◌==◌, if◌then◌else◌}
use ai_ssh.Base.Lists.{all}
use ai_ssh.Base.Text.{Text, codes, text_eq, words}
use ai_ssh.Protocol.Types.{CommandStatus}
use ai_ssh.Protocol.Messages.{ErrorPayload, Message, error, error_with, retryable}
use ai_ssh.Storage.Tables.{StorageError}
pub mod Classify

-- `internal`: what the storage layer displays. The text of a database error is SQLite's.
unfoldable pub internal : StorageError → ErrorPayload
internal StorageError.lock = error "INTERNAL" "database lock poisoned"
internal _ = error "INTERNAL" "database error: {0}"

unfoldable pub session_not_found : Text → ErrorPayload
session_not_found id = error_with "SESSION_NOT_FOUND" "session {id:?} does not exist" (id ∷ [])

unfoldable pub command_not_found : Text → ErrorPayload
command_not_found id =
    error_with "COMMAND_NOT_FOUND" "command {command_id:?} does not exist" (id ∷ [])

-- `split_once(": ")`: what stands before and behind the first colon with a space.
abbrev pub push_front : ℕ → Option (Text × Text) → Option (Text × Text)
push_front c none = none
push_front c (some (a, b)) = some (c ∷ a, b)

unfoldable pub split_once : Text → Option (Text × Text)
split_once [] = none
split_once (c ∷ []) = none
split_once (c ∷ d ∷ s) =
    if c == b':' && d == b' ' then some ([], s) else push_front c (split_once (d ∷ s))

-- An upper-case letter or an underscore.
abbrev pub is_code_char : ℕ → Bool
is_code_char c = (leb b'A' c && leb c b'Z') || c == b'_'

-- A message that the payload carries whole.
abbrev pub whole : Text → Message
whole message = record { template = "{}"; arguments = message ∷ [] }

abbrev pub ssh_error : Text → ErrorPayload
ssh_error message =
    retryable (record { code = codes "SSH_ERROR"; message = whole message; retryable = false })

-- `classify_error`, on what the error displays.
unfoldable pub classify_error : Text → ErrorPayload
unfolding split_once
classify_error message = elim (split_once message) [
  | none ↦ ssh_error message
  | some (code, detail) ↦
      if all is_code_char code
      then record { code = code; message = whole detail; retryable = false }
      else ssh_error message
]

abbrev member : Text → List Text → Bool
member w [] = false
member w (v ∷ vs) = text_eq v w || member w vs

abbrev full_screen : List Text
full_screen =
    codes "vi" ∷ codes "vim" ∷ codes "nano" ∷ codes "less" ∷ codes "more" ∷ codes "watch" ∷ []

abbrev interactive_words : List Text → Bool
interactive_words [] = false
interactive_words (w ∷ ws) =
    member w full_screen || (text_eq w (codes "top") && not (member (codes "-b") (w ∷ ws)))

unfoldable pub clearly_interactive : Text → Bool
unfolding words text_eq
clearly_interactive command = interactive_words (words command)

unfoldable pub command_status_from_exit : Option ℕ → CommandStatus
command_status_from_exit none = CommandStatus.failed
command_status_from_exit (some code) =
    if code == 0 then CommandStatus.completed else CommandStatus.failed

unfoldable pub channel_end_status : Option ℕ → CommandStatus
unfolding command_status_from_exit
channel_end_status none = CommandStatus.interrupted
channel_end_status (some code) = command_status_from_exit (some code)

-- The cases that the source tests.
recognizes_explicit_full_screen_commands :
    (clearly_interactive (codes "vim /etc/hosts") ≡ true)
    × (clearly_interactive (codes "top -b -n 1") ≡ false)
    × (clearly_interactive (codes "  top") ≡ true)
unfolding clearly_interactive
recognizes_explicit_full_screen_commands = (refl, refl, refl)
