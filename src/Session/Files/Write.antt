-- ===== src/Session/Files/Write.antt =====
-- crates/session/src/lib.rs: what a write of a remote file reports, and what a local path becomes.
use ai_ssh.Base.{
  ℕ, ◌≤◌, ◌≡◌, ◌⊎◌, refl, ap, subst, true, false, not, ◌&&◌, ◌++◌, Option, none, some, arith, inl,
  inr,
}
use ai_ssh.Base.Tests.{ltb, Bool-cases, Option-cases}
use ai_ssh.Base.Lists.{length, is_empty}
use ai_ssh.Base.Text.{Text, text_eq_iff, trim}
use ai_ssh.Base.Result.{ok, err, Result-cases}
use ai_ssh.Config.Types.{Config}
use ai_ssh.Config.Paths.{is_absolute, join}
use ai_ssh.Protocol.Types.{FileOutcome}
use ai_ssh.Protocol.Messages.{ApiResult}
use ai_ssh.Ssh.Transfer.{Bytes, TransferOutcome}
use ai_ssh.Session.Runtime.{Connection}
use ai_ssh.Session.Connect.{Shared}
use ai_ssh.Session.Files.{
  WriteRequest, Host, is_digest, written, make_parent, write_with_sudo, outcome_of, write_by_sftp,
  sftp_channel, after_channel, write_connected, to_file_outcome, local_path_for, must_be_absolute,
  is_home, drop_slashes, drop_tildes,
}

-- The host reports that digest.
is_digest_sound :
    (digest : Text) (reported : Option Text)
    → is_digest digest reported ≡ true
    → reported ≡ some digest
is_digest_sound digest none h = cc
is_digest_sound digest (some actual) h = ap some ((text_eq_iff actual digest).0 h)

-- The grounds on which an answer to a write may rest: the file was the same before; or it was written
-- with sudo and is the same after; or a staged transfer, of the old content and the new one for an
-- append, gave that outcome.
abbrev pub Grounds : Host → WriteRequest → FileOutcome → Type 0
Grounds h q o =
    ((o ≡ written q (h.sha256 q.contents) false)
      × (h.before ≡ some (h.sha256 q.contents))
      × (q.append ≡ false))
    ⊎ (((o ≡ written q (h.sha256 q.contents) true)
          × (h.after q.append q.contents ≡ some (h.sha256 q.contents))
          × (q.sudo ≡ true))
        ⊎ (((old : Bytes) × (size : ℕ) × (t : TransferOutcome) × (h.reads ≡ ok (old, size))
              × (size ≤ length old)
              × (h.stages (old ++ q.contents) ≡ ok t)
              × (o ≡ to_file_outcome q.remote_path t q.mode none))
            ⊎ ((t : TransferOutcome) × (h.stages q.contents ≡ ok t)
                × (o ≡ to_file_outcome q.remote_path t q.mode none)
                × (q.append ≡ false))))

outcome_sound :
    (q : WriteRequest) (r : ApiResult TransferOutcome) (o : FileOutcome)
    → outcome_of q r ≡ ok o
    → (t : TransferOutcome) × (r ≡ ok t) × (o ≡ to_file_outcome q.remote_path t q.mode none)
outcome_sound q (err e) o h = cc
outcome_sound q (ok t) o h = (t, refl, cc)

with_sudo_sound :
    (h : Host) (q : WriteRequest) (o : FileOutcome)
    → write_with_sudo h q ≡ ok o
    → (o ≡ written q (h.sha256 q.contents) true)
      × (h.after q.append q.contents ≡ some (h.sha256 q.contents))
unfolding write_with_sudo
with_sudo_sound h q o e = elim (Result-cases (make_parent h q)) [
  | inr (f, fails) ↦ absurd (ground arith)
  | inl (u, made) ↦ elim (Result-cases (h.writes q.append q.contents)) [
    | inr (f, fails) ↦ absurd (ground arith)
    | inl (v, wrote) ↦
        elim (Bool-cases (is_digest (h.sha256 q.contents) (h.after q.append q.contents))) [
          | inl same ↦ (
            ground arith,
            is_digest_sound (h.sha256 q.contents) (h.after q.append q.contents) same,
          )
          | inr other ↦ absurd (ground arith)
        ]
  ]
]

by_sftp_sound :
    (h : Host) (q : WriteRequest) (o : FileOutcome) → write_by_sftp h q ≡ ok o → Grounds h q o
unfolding write_by_sftp
by_sftp_sound h q o e = elim (Result-cases (make_parent h q)) [
  | inr (f, fails) ↦ absurd (ground arith)
  | inl (u, made) ↦ elim (Bool-cases q.append) [
    | inr plain ↦
        let (t, staged, same) = outcome_sound q (h.stages q.contents) o (ground arith) in
        inr (inr (inr (t, staged, same, plain)))
    | inl appends ↦ elim (Result-cases h.reads) [
      | inr (f, fails) ↦ absurd (ground arith)
      | inl ((old, size), read) ↦ elim (Bool-cases (ltb (length old) size)) [
        | inl large ↦ absurd (ground arith)
        | inr whole ↦
            let (t, staged, same) =
              outcome_sound q (h.stages (old ++ q.contents)) o (ground arith) in
            inr (inr (inl (old, size, t, read, ground arith, staged, same)))
      ]
    ]
  ]
]

after_channel_sound :
    (h : Host) (q : WriteRequest) (c : ApiResult (Unit {0}) × Shared) (o : FileOutcome)
    → (after_channel h q c).0 ≡ ok o
    → Grounds h q o
after_channel_sound h q (err e, shared) o h1 = cc
after_channel_sound h q (ok u, shared) o h1 = by_sftp_sound h q o h1

-- Whatever the host and the network answer, a write of a remote file that is reported as done rests on
-- a digest that the host gave of the file, or on a staged transfer of the new content, or, for an
-- append, of the old and the new content.
pub write_connected-Grounds :
    (config : Config) (h : Host) (q : WriteRequest) (c : ApiResult Connection × Shared)
    (o : FileOutcome)
    → (write_connected config h q c).0 ≡ ok o
    → Grounds h q o
unfolding write_connected
write_connected-Grounds config h q (err e, shared) o done = cc
write_connected-Grounds config h q (ok connection, shared) o done =
    elim (Bool-cases ((q.if_changed && not q.append) && is_digest (h.sha256 q.contents) h.before)) [
      | inl unchanged ↦ inl (
        ground arith,
        is_digest_sound (h.sha256 q.contents) h.before (ground arith),
        ground arith,
      )
      | inr differs ↦ elim (Bool-cases q.sudo) [
        | inl privileged ↦
            let (same, reported) = with_sudo_sound h q o (ground arith) in
            inr (inl (same, reported, privileged))
        | inr plain ↦
            after_channel_sound h q (sftp_channel h.now config h.dial h.opens shared) o
              (ground arith)
      ]
    ]

must_be_absolute_sound : (path p : Text) → must_be_absolute path ≡ ok p → is_absolute p ≡ true
must_be_absolute_sound path p h = elim (Bool-cases (is_absolute path)) [
  | inl good ↦ subst (λ t. is_absolute t ≡ true) (ground arith) good
  | inr bad ↦ absurd (ground arith)
]

-- A local path that is accepted is absolute, whatever the client gave and whatever the home directory
-- is.
pub is_absolute-local_path_for :
    (home : Option Text) (value p : Text) → local_path_for home value ≡ ok p → is_absolute p ≡ true
unfolding local_path_for
is_absolute-local_path_for home value p h = elim (Bool-cases (is_empty (trim value))) [
  | inl empty ↦ absurd (ground arith)
  | inr given ↦ elim (Bool-cases (is_home (trim value))) [
    | inr plain ↦ must_be_absolute_sound (trim value) p (ground arith)
    | inl anchored ↦ elim (Option-cases home) [
      | inl nowhere ↦ absurd (ground arith)
      | inr (dir, found) ↦
          must_be_absolute_sound (join dir (drop_slashes (drop_tildes (trim value)))) p
            (ground arith)
    ]
  ]
]
