-- ===== src/Session/Transfers/Moves.antt =====
-- crates/session/src/lib.rs: `file_upload`, `file_download` and `file_mkdir`. The files of the host
-- and of the local disk are states beside the manager's.
use ai_ssh.Base.{ℕ, Bool, not, ◌&&◌, List, [], ◌∷◌, Option, none, some}
use ai_ssh.Base.Tests.{if◌then◌else◌, is_some}
use ai_ssh.Base.Text.{Text}
use ai_ssh.Base.Result.{Result, ok, err, ◌>>=◌, map_err}
use ai_ssh.Protocol.Types.{FileOutcome}
use ai_ssh.Protocol.Messages.{ApiResult, error_with}
use ai_ssh.Ssh.Transfer.{Files, get, Remote, TransferOutcome, parent_of}
use ai_ssh.Ssh.Transfer.Streams.{Round, Download, upload_staged, download_staged}
use ai_ssh.Session.Errors.{classify_error}
use ai_ssh.Session.Runtime.{SessionManager}
use ai_ssh.Session.Files.{local_path_for, to_file_outcome}
use ai_ssh.Session.Transfers.{Network, channel_of}

-- What an upload meets: the network; the home directory; the answer to making the parent directory;
-- the local file, which may not open, and the rounds of its transfer; and the host's SFTP server.
pub record UploadHost : Type 0 where
  pub network : Network
  pub home : Option Text
  pub makes_dir : Text → Result Text (Unit {0})
  pub unique : Text
  pub opens_local : Option Text
  pub rounds : List Round
  pub remote : Remote

abbrev pub make_remote_parent :
    (Text → Result Text (Unit {0}))
    → (create_dirs : Bool) → (remote_path : Text) → ApiResult (Unit {0})
make_remote_parent makes_dir create_dirs path =
    if create_dirs
    then elim (parent_of path) [
      | none ↦ ok tt
      | some parent ↦ map_err classify_error (makes_dir parent)
    ]
    else ok tt

abbrev pub report :
    (path : Text)
    → Option ℕ
    → (local : Text) → Result Text TransferOutcome × Files
    → ApiResult FileOutcome × Files
report path mode local (err failed, fs) = (err (classify_error failed), fs)
report path mode local (ok outcome, fs) = (ok (to_file_outcome path outcome mode (some local)), fs)

-- What follows the opened channel.
unfoldable pub upload_on :
    UploadHost
    → (local remote_path : Text) → (create_dirs : Bool) → Option ℕ
    → (verify : Bool) → Files
    → ApiResult FileOutcome × Files
upload_on h local path create_dirs mode verify fs =
    elim (make_remote_parent h.makes_dir create_dirs path) [
      | err failed ↦ (err failed, fs)
      | ok _ ↦
          report path mode local
            (upload_staged h.remote h.unique path h.opens_local h.rounds mode verify fs)
    ]

unfoldable pub file_upload :
    UploadHost
    → (session_id local_path remote_path : Text) → (create_dirs : Bool) → Option ℕ
    → (verify : Bool) → SessionManager × Files
    → ApiResult FileOutcome × SessionManager × Files
unfolding upload_on channel_of to_file_outcome
file_upload h id local_path path create_dirs mode verify (m, fs) =
    elim (local_path_for h.home local_path) [
      | err failed ↦ (err failed, m, fs)
      | ok local ↦
          let opened = channel_of h.network id m in
          elim opened.0 [
            | err failed ↦ (err failed, opened.1, fs)
            | ok _ ↦
                let sent = upload_on h local path create_dirs mode verify fs in
                (sent.0, opened.1, sent.1)
          ]
    ]

pub record DownloadHost : Type 0 where
  pub network : Network
  pub home : Option Text
  pub makes_parent : Result Text (Unit {0})
  pub pid : Text
  pub rounds : List Round
  pub download : Download

-- What follows the checks of the local path.
unfoldable pub download_on :
    DownloadHost
    → (session_id remote_path local : Text) → (verify : Bool) → SessionManager × Files
    → ApiResult FileOutcome × SessionManager × Files
download_on h id path local verify (m, fs) =
    let opened = channel_of h.network id m in
    elim opened.0 [
      | err failed ↦ (err failed, opened.1, fs)
      | ok _ ↦
          let received =
            report path none local (download_staged h.download h.pid local h.rounds verify fs) in
          (received.0, opened.1, received.1)
    ]

-- `makes_parent` is the answer to `create_dir_all` of the parent, where there is one.
unfoldable pub file_download :
    DownloadHost
    → (session_id remote_path local_path : Text) → (overwrite create_dirs verify : Bool)
    → SessionManager × Files
    → ApiResult FileOutcome × SessionManager × Files
unfolding download_on channel_of to_file_outcome
file_download h id path local_path overwrite create_dirs verify (m, fs) =
    elim (local_path_for h.home local_path) [
      | err failed ↦ (err failed, m, fs)
      | ok local ↦
          if is_some (get local fs) && not overwrite
          then (
            err (
                error_with "FILE_EXISTS" "{} already exists; pass overwrite=true to replace it"
                  (local ∷ [])),
            m,
            fs,
          )
          else elim (if create_dirs then map_err classify_error h.makes_parent else ok tt) [
            | err failed ↦ (err failed, m, fs)
            | ok _ ↦ download_on h id path local verify (m, fs)
          ]
    ]

-- `made` is the answer of `make_dir`.
unfoldable pub file_mkdir :
    Network
    → (made : Result Text (Unit {0})) → (session_id : Text) → SessionManager
    → ApiResult (Unit {0}) × SessionManager
unfolding channel_of
file_mkdir n made id m =
    let opened = channel_of n id m in (opened.0 >>= (λ _. map_err classify_error made), opened.1)
