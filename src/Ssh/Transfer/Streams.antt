-- ===== src/Ssh/Transfer/Streams.antt =====
-- crates/ssh/src/transfer.rs: `upload_staged` and `download_staged`, which stream a file, and the
-- codes of errors. The local disk, like the remote one, is a list of files.
pub mod Uploads
pub mod Downloads
use Prim.Native.String.{String}
use ai_ssh.Base.{
  ℕ, ◌+◌, ◌≡◌, refl, Bool, true, false, not, ◌&&◌, List, [], ◌∷◌, ◌++◌, Option, none, some,
}
use ai_ssh.Base.Tests.{ltb, ◌==◌, if◌then◌else◌, is_some}
use ai_ssh.Base.Lists.{length, is_empty, take}
use ai_ssh.Base.Text.{Text, codes, text_eq}
use ai_ssh.Base.Result.{Result, ok, err, map_err}
use ai_ssh.Ssh.Transfer.{
  Bytes, Files, get, set_file, remove_file, Remote, TransferOutcome, discard, confirm,
  first_failure, finish_write, staged_path, split_at_slash,
}

-- `SftpError` and `io::ErrorKind`, as far as they are matched.
pub data SftpError : Type 0 where
  no_such_file permission_denied failure op_unsupported other_status timeout other : SftpError

pub data LocalError : Type 0 where
  not_found permission_denied already_exists other : LocalError

-- The code of `sftp_error`, and of `local_error`.
unfoldable pub sftp_code : SftpError → String
sftp_code SftpError.no_such_file = "FILE_NOT_FOUND"
sftp_code SftpError.permission_denied = "PERMISSION_DENIED"
sftp_code SftpError.failure = "REMOTE_IO_ERROR"
sftp_code SftpError.op_unsupported = "REMOTE_IO_ERROR"
sftp_code SftpError.other_status = "REMOTE_IO_ERROR"
sftp_code SftpError.timeout = "REMOTE_TIMEOUT"
sftp_code SftpError.other = "REMOTE_IO_ERROR"

unfoldable pub local_code : LocalError → String
local_code LocalError.not_found = "FILE_NOT_FOUND"
local_code LocalError.permission_denied = "PERMISSION_DENIED"
local_code LocalError.already_exists = "FILE_EXISTS"
local_code LocalError.other = "LOCAL_IO_ERROR"

-- The message `{code}: {path}: {error}`.
abbrev pub message : String → (path detail : Text) → Text
message code path detail = codes code ++ (codes ": " ++ (path ++ (codes ": " ++ detail)))

-- `try_stat`: a file that is not there is no failure.
unfoldable pub try_stat {ℓ} :
    {M : Type ℓ} → (path detail : Text) → Result SftpError M → Result Text (Option M)
unfolding sftp_code
try_stat path detail (ok metadata) = ok (some metadata)
try_stat path detail (err SftpError.no_such_file) = ok none
try_stat path detail (err e) = err (message (sftp_code e) path detail)

-- `read_capped` of an open file: its bytes up to the limit, its size where the server tells it, and
-- whether more is left.
unfoldable pub read_capped : (size : Option ℕ) → (max_bytes : ℕ) → Bytes → Bytes × ℕ × Bool
read_capped size max_bytes contents =
    let read = take max_bytes contents in
    let known : ℕ = elim size [ none ↦ 0 | some n ↦ n ] in (read, known, ltb (length read) known)

-- One round of a transfer: what reading gives, and the error of the write that follows.
pub record Round : Type 0 where
  pub reads : Result Text Bytes
  pub writes : Option Text

-- The `loop` of a transfer: the bytes that were sent on, until nothing is read, or the first error.
-- Rounds that are not listed read nothing.
unfoldable pub stream_loop : List Round → (sent : Bytes) → Result Text Bytes
stream_loop [] sent = ok sent
stream_loop (round ∷ rounds) sent = elim round.reads [
  | err failed ↦ err failed
  | ok piece ↦
      let rest = stream_loop rounds (sent ++ piece) in
      if is_empty piece
      then ok sent
      else elim round.writes [ some failed ↦ err failed | none ↦ rest ]
]

-- What follows the loop of an upload.
unfoldable pub finish_upload :
    Remote
    → (staged remote : Text) → (mode : Option ℕ) → (verify : Bool) → Files
    → Result Text Bytes
    → Result Text TransferOutcome × Files
unfolding set_file discard confirm finish_write
finish_upload r staged remote mode verify fs (err failed) =
    (err failed, discard r staged (set_file staged r.remains fs))
finish_upload r staged remote mode verify fs (ok sent) = elim (first_failure r.flush r.close) [
  | some failed ↦ (err failed, discard r staged (set_file staged r.remains fs))
  | none ↦
      let written = set_file staged (r.arrives sent) fs in
      finish_write r staged remote sent mode (confirm r staged (r.digest sent) verify written)
]

unfoldable pub upload_staged :
    Remote
    → (unique remote : Text) → (opens : Option Text) → List Round
    → (mode : Option ℕ) → (verify : Bool) → Files
    → Result Text TransferOutcome × Files
unfolding staged_path stream_loop finish_upload
upload_staged r unique remote opens rounds mode verify fs = elim opens [
  | some failed ↦ (err failed, fs)
  | none ↦ elim r.create [
    | some failed ↦ (err failed, fs)
    | none ↦
        finish_upload r (staged_path unique remote) remote mode verify fs (stream_loop rounds [])
  ]
]

-- `local_staged_path`, on a path with a name; `pid` is the process id.
unfoldable pub local_staged_path : (pid : Text) → Text → Text
unfolding split_at_slash
local_staged_path pid path = elim (split_at_slash path) [
  | none ↦ path ++ (codes ".aissh-tmp-" ++ pid)
  | some (dir, name) ↦ dir ++ b'/' ∷ name ++ (codes ".aissh-tmp-" ++ pid)
]

-- How the host and the local disk answer during a download: the errors; what of the bytes that were
-- written is in the local file, and what is there when a write fails; the digest; and what the host
-- reports of the remote file.
pub record Download : Type 0 where
  pub open_remote : Option Text
  pub create : Option Text
  pub flush : Option Text
  pub rename : Option Text
  pub removes : Bool
  pub remains : Bytes
  pub arrives : Bytes → Bytes
  pub digest : Bytes → Text
  pub reported : Option Text

-- `remove_file`, whose error is ignored.
abbrev pub drop_staged : Download → Text → Files → Files
drop_staged d staged fs = if d.removes then remove_file staged fs else fs

-- The comparison with what the host reports: an error, or whether the bytes are verified.
unfoldable pub compare_digest : (digest : Text) → (verify : Bool) → Option Text → Result Text Bool
compare_digest digest false reported = ok false
compare_digest digest true none = ok false
compare_digest digest true (some remote_digest) =
    if not (text_eq remote_digest digest) then err (codes "TRANSFER_VERIFY_FAILED") else ok true

-- The local `rename`, over a file that is there.
unfoldable pub rename_local :
    Download → (staged path : Text) → Files → Result Text (Unit {0}) × Files
unfolding get set_file remove_file
rename_local d staged path fs = elim d.rename [
  | some failed ↦ (err failed, fs)
  | none ↦ elim (get staged fs) [
    | none ↦ (err (codes "FILE_NOT_FOUND"), fs)
    | some contents ↦ (ok tt, set_file path contents (remove_file staged fs))
  ]
]

abbrev pub downloaded : Download → (received : Bytes) → (verified : Bool) → TransferOutcome
downloaded d received verified = record {
  bytes = length received;
  sha256 = d.digest received;
  verified = verified;
  changed = true;
}

-- What follows the loop of a download.
unfoldable pub finish_download :
    Download
    → (staged path : Text) → (verify : Bool) → Files
    → Result Text Bytes
    → Result Text TransferOutcome × Files
unfolding compare_digest rename_local
finish_download d staged path verify fs (err failed) =
    (err failed, drop_staged d staged (set_file staged d.remains fs))
finish_download d staged path verify fs (ok received) = elim d.flush [
  | some failed ↦ (err failed, drop_staged d staged (set_file staged d.remains fs))
  | none ↦
      let written = set_file staged (d.arrives received) fs in
      elim (compare_digest (d.digest received) verify d.reported) [
        | err failed ↦ (err failed, drop_staged d staged written)
        | ok verified ↦
            let renamed = rename_local d staged path written in
            elim renamed.0 [
              | err failed ↦ (err failed, renamed.1)
              | ok _ ↦ (ok (downloaded d received verified), renamed.1)
            ]
      ]
]

unfoldable pub download_staged :
    Download
    → (pid path : Text) → List Round
    → (verify : Bool) → Files
    → Result Text TransferOutcome × Files
unfolding local_staged_path stream_loop finish_download
download_staged d pid path rounds verify fs = elim d.open_remote [
  | some failed ↦ (err failed, fs)
  | none ↦ elim d.create [
    | some failed ↦ (err failed, fs)
    | none ↦ finish_download d (local_staged_path pid path) path verify fs (stream_loop rounds [])
  ]
]
