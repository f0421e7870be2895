-- ===== src/Session/Transfers.antt =====
-- crates/session/src/lib.rs: `file_stat` and `file_read`; the other transfers are in Moves. What the
-- network, the host and its commands answer are arguments.
pub mod Moves
pub mod Reads
pub mod Downloads
use ai_ssh.Base.{ℕ, Bool, true, false, not, ◌&&◌, List, [], ◌∷◌, ◌++◌, Option, none, some, min, max}
use ai_ssh.Base.Tests.{ltb, if◌then◌else◌, is_some}
use ai_ssh.Base.Lists.{length}
use ai_ssh.Base.Text.{Text, codes}
use ai_ssh.Base.Utf8.{Utf8, whole, cut, broken, from_utf8}
use ai_ssh.Base.Result.{Result, ok, err, ◌>>=◌, map_err}
use ai_ssh.Config.Types.{Config}
use ai_ssh.Protocol.Types.{FileKind, FileStatInfo, FileContentInfo, FileOutcome}
use ai_ssh.Protocol.Messages.{ErrorPayload, ApiResult, error_with}
use ai_ssh.Ssh.Transfer.{Bytes, Files, get, Remote, TransferOutcome, parent_of}
use ai_ssh.Ssh.Transfer.Streams.{Round, Download, upload_staged, download_staged, read_capped}
use ai_ssh.Session.Errors.{classify_error}
use ai_ssh.Session.Runtime.{Connection, SessionManager}
use ai_ssh.Session.Connect.{Shared, Dial, on_runtime, connection_for}
use ai_ssh.Session.Poll.{read_limit}
use ai_ssh.Session.Files.{sftp_channel, local_path_for, to_file_outcome}
use ai_ssh.Session.Helpers.{Reply, remote_sha256, sudo_file_size, sudo_read_chunk}

-- The metadata of SFTP, as far as it is used.
pub record Metadata : Type 0 where
  pub is_dir : Bool
  pub is_regular : Bool
  pub size : ℕ
  pub permissions : Option ℕ
  pub uid : Option ℕ
  pub gid : Option ℕ
  pub user : Option Text
  pub group : Option Text
  pub modified : Option ℕ

-- How the network answers while a session's SFTP channel is opened.
pub record Network : Type 0 where
  pub now : ℕ
  pub dial : Dial
  pub opens : Result Text (Unit {0})

-- `sftp_channel` of a session.
unfoldable pub channel_of :
    Network → (session_id : Text) → SessionManager → ApiResult (Unit {0}) × SessionManager
unfolding on_runtime sftp_channel
channel_of n id m = on_runtime id (sftp_channel n.now m.config n.dial n.opens) m

unfoldable pub kind_of : Metadata → FileKind
kind_of metadata =
    if metadata.is_dir
    then FileKind.directory
    else if metadata.is_regular
    then FileKind.file
    else FileKind.other

abbrev pub is_file : FileKind → Bool
is_file FileKind.file = true
is_file _ = false

abbrev pub stat_info : (path : Text) → (hash : Bool) → Reply → Metadata → FileStatInfo
stat_info path hash reply metadata = record {
  path = path;
  kind = kind_of metadata;
  size = metadata.size;
  mode = metadata.permissions;
  uid = metadata.uid;
  gid = metadata.gid;
  user = metadata.user;
  group = metadata.group;
  modified_at = metadata.modified;
  sha256 = if hash && is_file (kind_of metadata) then remote_sha256 reply else none;
}

-- `stats` is the answer of `stat`, and `reply` that of the command that computes the digest.
unfoldable pub file_stat :
    Network
    → (stats : Result Text Metadata) → Reply
    → (session_id remote_path : Text) → (hash : Bool) → SessionManager
    → ApiResult FileStatInfo × SessionManager
unfolding channel_of kind_of remote_sha256
file_stat n stats reply id path hash m =
    let opened = channel_of n id m in
    (
      opened.0 >>= (λ _.
          map_err classify_error stats >>= λ metadata. ok (stat_info path hash reply metadata)),
      opened.1,
    )

-- What reading a file meets: the network twice, since the SFTP channel asks for the connection again;
-- the answers of the three helper commands; and the open file, with its size where that is known.
pub record ReadHost : Type 0 where
  pub first : Network
  pub second : Network
  pub digest : Reply
  pub measures : Reply
  pub chunk : Reply
  pub file : Result Text (Option ℕ × Bytes)

-- The size is that of the bytes where the host does not tell it.
abbrev pub sized : Option ℕ → Bytes → Bytes × ℕ × Bool
sized none contents = (contents, length contents, false)
sized (some size) contents = (contents, size, ltb (length contents) size)

abbrev pub read_with_sudo : ReadHost → (limit : ℕ) → ApiResult (Bytes × ℕ × Bool)
read_with_sudo h limit = do
  known ← sudo_file_size h.measures
  contents ← sudo_read_chunk h.chunk limit
  ok (sized known contents)

abbrev pub read_by_sftp : ReadHost → (limit : ℕ) → ApiResult (Bytes × ℕ × Bool)
read_by_sftp h limit = do file ← map_err classify_error h.file; ok (read_capped file.0 limit file.1)

abbrev pub is_utf8 : Utf8 → Bool
is_utf8 (whole text) = true
is_utf8 (cut text pending) = false
is_utf8 broken = false

abbrev pub content_info :
    (path : Text) → (sha256 : Option Text) → Bytes × ℕ × Bool → FileContentInfo
content_info path sha256 read = record {
  path = path;
  size = read.1;
  bytes_returned = length read.0;
  truncated = read.2;
  is_utf8 = is_utf8 (from_utf8 read.0);
  sha256 = if read.2 then none else sha256;
  contents = read.0;
}

-- The part of `file_read` behind the first connection.
unfoldable pub read_connected :
    Config
    → ReadHost
    → (path : Text) → (limit : ℕ) → (sudo : Bool) → ApiResult Connection × Shared
    → ApiResult FileContentInfo × Shared
unfolding sftp_channel
read_connected config h path limit sudo (err failed, shared) = (err failed, shared)
read_connected config h path limit true (ok connection, shared) = (
  read_with_sudo h limit >>= (λ read. ok (content_info path (remote_sha256 h.digest) read)),
  shared,
)
read_connected config h path limit false (ok connection, shared) =
    let opened = sftp_channel h.second.now config h.second.dial h.second.opens shared in
    (
      opened.0 >>= (λ _. read_by_sftp h limit >>= λ read. ok (content_info path none read)),
      opened.1,
    )

unfoldable pub file_read :
    ReadHost
    → (session_id remote_path : Text) → (max_bytes : ℕ) → (sudo : Bool) → SessionManager
    → ApiResult FileContentInfo × SessionManager
unfolding read_connected on_runtime
file_read h id path max_bytes sudo m =
    on_runtime id
      (λ shared.
        read_connected m.config h path (read_limit max_bytes) sudo
          (connection_for h.first.now m.config h.first.dial shared))
      m
