-- ===== src/Session/Files.antt =====
-- crates/session/src/lib.rs: the operations on remote files. What the host and the SFTP server answer
-- is an argument; the transfers themselves are crates/ssh/src/transfer.rs.
pub mod Write
use ai_ssh.Base.{
  ℕ, ◌+◌, ◌*◌, ◌≡◌, refl, Bool, true, false, not, ◌&&◌, ◌||◌, List, [], ◌∷◌, ◌++◌, Option, none,
  some, min, max,
}
use ai_ssh.Base.Tests.{ltb, leb, ◌==◌, if◌then◌else◌, is_some}
use ai_ssh.Base.Lists.{length, is_empty, drop}
use ai_ssh.Base.Text.{Text, codes, text_eq, trim, words}
use ai_ssh.Base.Result.{Result, ok, err, map_err}
use ai_ssh.Config.Types.{Config}
use ai_ssh.Config.Paths.{is_absolute, join}
use ai_ssh.Protocol.Types.{FileOutcome}
use ai_ssh.Protocol.Messages.{ErrorPayload, ApiResult, error, error_with}
use ai_ssh.Ssh.Command.{to_ascii_lowercase}
use ai_ssh.Ssh.Transfer.{Bytes, TransferOutcome, parent_of}
use ai_ssh.Session.Errors.{classify_error}
use ai_ssh.Session.Runtime.{Connection, SessionManager}
use ai_ssh.Session.Connect.{Shared, Dial, on_runtime, connection_for, discard_connection}

abbrev pub append_read_limit : ℕ
append_read_limit = 8 * 1024 * 1024

-- The digest in the output of the helper command, if its bytes are text.
abbrev pub first_word : List Text → Option Text
first_word [] = none
first_word (w ∷ ws) = if length w == 64 then some (to_ascii_lowercase w) else none

unfoldable pub digest_in : Option Text → Option Text
unfolding words to_ascii_lowercase
digest_in none = none
digest_in (some output) = first_word (words output)

abbrev pub drop_tildes : Text → Text
drop_tildes [] = []
drop_tildes (c ∷ s) = if c == b'~' then drop_tildes s else c ∷ s

abbrev pub drop_slashes : Text → Text
drop_slashes [] = []
drop_slashes (c ∷ s) = if c == b'/' || c == b'\\' then drop_slashes s else c ∷ s

abbrev pub is_home : Text → Bool
is_home (c ∷ []) = c == b'~'
is_home (c ∷ d ∷ s) = c == b'~' && (d == b'/' || d == b'\\')
is_home [] = false

abbrev pub must_be_absolute : Text → ApiResult Text
must_be_absolute path =
    if is_absolute path
    then ok path
    else err (
        error_with "INVALID_ARGUMENT" "local_path must be absolute or start with ~: {}" (path ∷ []))

-- `local_path_for` on Unix. `home` is the home directory, if there is one.
unfoldable pub local_path_for : (home : Option Text) → Text → ApiResult Text
unfolding trim join is_absolute
local_path_for home value =
    if is_empty (trim value)
    then err (error "INVALID_ARGUMENT" "local_path must not be empty")
    else if is_home (trim value)
    then elim home [
      | none ↦ err (error "LOCAL_IO_ERROR" "cannot expand ~: {error}")
      | some h ↦ must_be_absolute (join h (drop_slashes (drop_tildes (trim value))))
    ]
    else must_be_absolute (trim value)

unfoldable pub to_file_outcome : Text → TransferOutcome → Option ℕ → Option Text → FileOutcome
to_file_outcome path outcome mode local = record {
  path = path;
  bytes = outcome.bytes;
  sha256 = some outcome.sha256;
  verified = outcome.verified;
  changed = outcome.changed;
  mode = mode;
  local_path = local;
}

-- What the caller asks to write.
pub record WriteRequest : Type 0 where
  pub remote_path : Text
  pub contents : Bytes
  pub append : Bool
  pub create_dirs : Bool
  pub mode : Option ℕ
  pub sudo : Bool
  pub if_changed : Bool

-- What the operation meets: the answers to dialing and to opening SFTP; SHA-256; the digest that the
-- host reports of the file before the write, and after a privileged write that appends or replaces
-- these bytes; and the results of making directories, of that privileged write, of reading the old
-- content (with the size of the file), and of a staged write.
pub record Host : Type 0 where
  pub now : ℕ
  pub dial : Dial
  pub opens : Result Text (Unit {0})
  pub sha256 : Bytes → Text
  pub before : Option Text
  pub after : (append : Bool) → Bytes → Option Text
  pub makes_dir : Text → ApiResult (Unit {0})
  pub writes : (append : Bool) → Bytes → ApiResult (Unit {0})
  pub reads : ApiResult (Bytes × ℕ)
  pub stages : Bytes → ApiResult TransferOutcome

-- `open_sftp` on a connection; a failure discards the connection.
unfoldable pub open_sftp :
    Result Text (Unit {0}) → ApiResult Connection × Shared → ApiResult (Unit {0}) × Shared
unfolding discard_connection
open_sftp opens (err failed, shared) = (err failed, shared)
open_sftp (ok _) (ok connection, shared) = (ok tt, shared)
open_sftp (err failed) (ok connection, shared) =
    (err (classify_error failed), discard_connection shared)

unfoldable pub sftp_channel :
    (now : ℕ) → Config → Dial → Result Text (Unit {0}) → Shared → ApiResult (Unit {0}) × Shared
unfolding open_sftp
sftp_channel now config dial opens shared = open_sftp opens (connection_for now config dial shared)

abbrev pub is_digest : Text → Option Text → Bool
is_digest digest none = false
is_digest digest (some actual) = text_eq actual digest

abbrev pub written : WriteRequest → (digest : Text) → (changed : Bool) → FileOutcome
written q digest changed = record {
  path = q.remote_path;
  bytes = length q.contents;
  sha256 = some digest;
  verified = true;
  changed = changed;
  mode = q.mode;
  local_path = none;
}

-- The parent is made when that is asked for and there is one.
unfoldable pub make_parent : Host → WriteRequest → ApiResult (Unit {0})
unfolding parent_of
make_parent h q =
    if q.create_dirs
    then elim (parent_of q.remote_path) [ none ↦ ok tt | some parent ↦ h.makes_dir parent ]
    else ok tt

abbrev pub check_after : Host → WriteRequest → ApiResult FileOutcome
check_after h q =
    if is_digest (h.sha256 q.contents) (h.after q.append q.contents)
    then ok (written q (h.sha256 q.contents) true)
    else err (
        error_with "TRANSFER_VERIFY_FAILED" "{remote_path} does not match the bytes that were sent"
          (q.remote_path ∷ []))

-- The privileged branch. A mode that cannot be set is only logged.
unfoldable pub write_with_sudo : Host → WriteRequest → ApiResult FileOutcome
unfolding make_parent
write_with_sudo h q = elim (make_parent h q) [
  | err failed ↦ err failed
  | ok _ ↦ elim (h.writes q.append q.contents) [ err failed ↦ err failed | ok _ ↦ check_after h q ]
]

abbrev pub outcome_of : WriteRequest → ApiResult TransferOutcome → ApiResult FileOutcome
outcome_of q (err failed) = err failed
outcome_of q (ok outcome) = ok (to_file_outcome q.remote_path outcome q.mode none)

-- Appending rewrites the whole file.
unfoldable pub write_appended : Host → WriteRequest → ApiResult FileOutcome
unfolding to_file_outcome
write_appended h q = elim h.reads [
  | err failed ↦ err failed
  | ok (existing, size) ↦
      if ltb (length existing) size
      then err (
          error_with "INVALID_ARGUMENT"
            "{remote_path} is {size} bytes, above the {} byte in-place append limit; upload the full replacement instead"
            (q.remote_path ∷ []))
      else outcome_of q (h.stages (existing ++ q.contents))
]

unfoldable pub write_by_sftp : Host → WriteRequest → ApiResult FileOutcome
unfolding make_parent write_appended to_file_outcome
write_by_sftp h q = elim (make_parent h q) [
  | err failed ↦ err failed
  | ok _ ↦ if q.append then write_appended h q else outcome_of q (h.stages q.contents)
]

abbrev pub after_channel :
    Host → WriteRequest → ApiResult (Unit {0}) × Shared → ApiResult FileOutcome × Shared
after_channel h q (err failed, shared) = (err failed, shared)
after_channel h q (ok _, shared) = (write_by_sftp h q, shared)

-- What follows the connection.
unfoldable pub write_connected :
    Config → Host → WriteRequest → ApiResult Connection × Shared → ApiResult FileOutcome × Shared
unfolding write_with_sudo write_by_sftp sftp_channel
write_connected config h q (err failed, shared) = (err failed, shared)
write_connected config h q (ok connection, shared) =
    if (q.if_changed && not q.append) && is_digest (h.sha256 q.contents) h.before
    then (ok (written q (h.sha256 q.contents) false), shared)
    else if q.sudo
    then (write_with_sudo h q, shared)
    else after_channel h q (sftp_channel h.now config h.dial h.opens shared)

unfoldable pub file_write :
    Host
    → WriteRequest
    → (session_id : Text) → SessionManager
    → ApiResult FileOutcome × SessionManager
unfolding write_connected on_runtime
file_write h q session_id m =
    on_runtime session_id
      (λ shared. write_connected m.config h q (connection_for h.now m.config h.dial shared)) m
