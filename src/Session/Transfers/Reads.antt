-- ===== src/Session/Transfers/Reads.antt =====
-- crates/session/src/lib.rs: what reading a file ends in.
use Prim.Native.String.{String}
use ai_ssh.Base.{
  ℕ, ◌≤◌, ◌≡◌, ◌⊎◌, refl, subst, Bool, true, false, List, Option, none, some, arith, inl, inr,
}
use ai_ssh.Base.Tests.{Bool-cases, Option-cases}
use ai_ssh.Base.Lists.{length, length-take}
use ai_ssh.Base.Text.{Text}
use ai_ssh.Base.Result.{ok, err, ◌>>=◌, map_err}
use ai_ssh.Config.Types.{Config}
use ai_ssh.Protocol.Types.{FileContentInfo}
use ai_ssh.Protocol.Messages.{ApiResult}
use ai_ssh.Ssh.Channel.{ChannelMsg, collect}
use ai_ssh.Ssh.Channel.Collect.{collect_lem}
use ai_ssh.Ssh.Transfer.{Bytes}
use ai_ssh.Ssh.Transfer.Streams.{read_capped}
use ai_ssh.Session.Errors.{classify_error}
use ai_ssh.Session.Runtime.{Connection, SessionManager, lookup}
use ai_ssh.Session.Connect.{Shared, on_runtime, connection_for}
use ai_ssh.Session.Poll.{read_limit, max_read_bytes}
use ai_ssh.Session.Files.{sftp_channel}
use ai_ssh.Session.Helpers.{
  Reply, exec_helper, is_success, if_success, sudo_file_size, sudo_read_chunk, remote_sha256,
}
use ai_ssh.Session.Transfers.{
  ReadHost, content_info, sized, read_with_sudo, read_by_sftp, read_connected, file_read,
}

-- What holds of a result if it is there.
abbrev pub OnOk : {A : Type 0} → (A → Type 0) → ApiResult A → Type 0
OnOk P (ok a) = P a
OnOk P (err e) = Unit

OnOk->>= :
    {A B : Type 0} (P : A → Type 0) (Q : B → Type 0) (m : ApiResult A) (f : A → ApiResult B)
    → OnOk P m
    → ((a : A) → P a → OnOk Q (f a))
    → OnOk Q (m >>= f)
OnOk->>= P Q (ok a) f h k = k a h
OnOk->>= P Q (err e) f h k = tt

OnOk-any :
    {A B : Type 0} (Q : B → Type 0) (m : ApiResult A) (f : A → ApiResult B)
    → ((a : A) → OnOk Q (f a))
    → OnOk Q (m >>= f)
OnOk-any Q (ok a) f h = h a
OnOk-any Q (err e) f h = tt

-- An answer of a read: it counts its bytes, keeps the limit, and has a digest only if it is whole.
abbrev pub IsRead : (limit : ℕ) → FileContentInfo → Type 0
IsRead limit info =
    (info.bytes_returned ≡ length info.contents)
    × (length info.contents ≤ limit)
    × ((info.truncated ≡ false) ⊎ (info.sha256 ≡ none))

IsRead-content_info :
    (limit : ℕ) (path : Text) (sha256 : Option Text) (read : Bytes × ℕ × Bool)
    → length read.0 ≤ limit
    → IsRead limit (content_info path sha256 read)
IsRead-content_info limit path sha256 read h = elim (Bool-cases read.2) [
  | inl cut ↦ (refl, h, inr (rw cut refl))
  | inr whole_file ↦ (refl, h, inl whole_file)
]

if_success-le :
    (limit : ℕ) (ms : List ChannelMsg) (template : String)
    → OnOk
        (λ (output : Bytes). length output ≤ limit)
        (if_success (collect limit ms) template (collect limit ms).stdout)
if_success-le limit ms template = elim (Bool-cases (is_success (collect limit ms).exit)) [
  | inl ends ↦ rw ends (collect_lem limit ms).0
  | inr fails ↦ rw fails tt
]

exec_helper-le :
    (r : Reply) (limit : ℕ) → OnOk (λ (output : Bytes). length output ≤ limit) (exec_helper r limit)
unfolding exec_helper
exec_helper-le r limit =
    OnOk-any (λ (output : Bytes). length output ≤ limit) (map_err classify_error r.opens) _
      λ _. if_success-le limit r.messages "helper command exited with {exit:?}"

sized_same : (known : Option ℕ) (contents : Bytes) → (sized known contents).0 ≡ contents
sized_same none contents = refl
sized_same (some size) contents = refl

read_with_sudo-le :
    (h : ReadHost) (limit : ℕ) → OnOk (λ read. length read.0 ≤ limit) (read_with_sudo h limit)
unfolding sudo_read_chunk
read_with_sudo-le h limit =
    OnOk-any (λ read. length read.0 ≤ limit) (sudo_file_size h.measures) _
      λ known.
        OnOk->>= (λ (output : Bytes). length output ≤ limit) (λ read. length read.0 ≤ limit)
          (sudo_read_chunk h.chunk limit) _ (exec_helper-le h.chunk limit)
          λ contents small. rw (sized_same known contents) small

read_by_sftp-le :
    (h : ReadHost) (limit : ℕ) → OnOk (λ read. length read.0 ≤ limit) (read_by_sftp h limit)
unfolding read_capped
read_by_sftp-le h limit =
    OnOk-any (λ read. length read.0 ≤ limit) (map_err classify_error h.file) _
      λ file. omega (arith, length-take limit file.1)

read_connected-IsRead :
    (config : Config) (h : ReadHost) (path : Text) (limit : ℕ) (sudo : Bool)
    (before : ApiResult Connection × Shared)
    → OnOk (IsRead limit) (read_connected config h path limit sudo before).0
unfolding read_connected
read_connected-IsRead config h path limit sudo (err failed, shared) = tt
read_connected-IsRead config h path limit true (ok connection, shared) =
    OnOk->>= (λ (read : Bytes × ℕ × Bool). length read.0 ≤ limit) (IsRead limit)
      (read_with_sudo h limit) _ (read_with_sudo-le h limit)
      λ read small. IsRead-content_info limit path (remote_sha256 h.digest) read small
read_connected-IsRead config h path limit false (ok connection, shared) =
    OnOk-any (IsRead limit) (sftp_channel h.second.now config h.second.dial h.second.opens shared).0
      _
      λ _.
        OnOk->>= (λ (read : Bytes × ℕ × Bool). length read.0 ≤ limit) (IsRead limit)
          (read_by_sftp h limit) _ (read_by_sftp-le h limit)
          λ read small. IsRead-content_info limit path none read small

on_runtime-OnOk :
    {A : Type 0} (P : A → Type 0) (id : Text) (f : Shared → ApiResult A × Shared)
    (m : SessionManager)
    → ((shared : Shared) → OnOk P (f shared).0)
    → OnOk P (on_runtime id f m).0
unfolding on_runtime
on_runtime-OnOk P id f m h = elim (Option-cases (lookup id m)) [
  | inl gone ↦ rw (gone, OnOk) tt
  | inr (rt, found) ↦ rw (found, OnOk) (h (rt, m.storage))
]

-- Whatever the host answers, and however the caller asks for the file, with sudo or without: an
-- answer of a read counts the bytes it carries, carries at most what was asked for, or a byte if none
-- was asked for, and at most 1 MiB; and has a digest only if it is not truncated.
pub file_read-IsRead :
    (h : ReadHost) (id path : Text) (max_bytes : ℕ) (sudo : Bool) (m : SessionManager)
    (info : FileContentInfo)
    → (file_read h id path max_bytes sudo m).0 ≡ ok info
    → IsRead (read_limit max_bytes) info × (read_limit max_bytes ≤ max_read_bytes)
unfolding file_read
file_read-IsRead h id path max_bytes sudo m info e = (
  subst (OnOk (IsRead (read_limit max_bytes))) e (
      on_runtime-OnOk (IsRead (read_limit max_bytes)) id
        (λ shared.
          read_connected m.config h path (read_limit max_bytes) sudo
            (connection_for h.first.now m.config h.first.dial shared))
        m
        λ shared.
          read_connected-IsRead m.config h path (read_limit max_bytes) sudo
            (connection_for h.first.now m.config h.first.dial shared)),
  omega arith,
)
