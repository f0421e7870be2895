-- ===== src/Ssh/Transfer/Streams/Uploads.antt =====
-- crates/ssh/src/transfer.rs: what an upload leaves at its destination.
use ai_ssh.Base.{ℕ, ◌≡◌, ◌≢◌, refl, ◌∙◌, Bool, List, [], ◌∷◌, ◌++◌, Option, none, some, inl, inr}
use mathlib.Core.List.{append_assoc, append-nil}
use ai_ssh.Base.Tests.{Bool-cases, Option-cases, if◌then◌else◌}
use ai_ssh.Base.Lists.{is_empty}
use ai_ssh.Base.Text.{Text}
use ai_ssh.Base.Result.{ok, err, Result-cases}
use ai_ssh.Ssh.Transfer.Apart.{staged_path-apart}
use ai_ssh.Ssh.Transfer.{
  Bytes, Files, get, set_file, Remote, first_failure, staged_path, discard, confirm,
}
use ai_ssh.Ssh.Transfer.Destination.{
  IsDelivered, IsDelivered-before, confirm_lem, finish_write_lem, get-discard, get-set_same,
  get-set_other,
}
use ai_ssh.Ssh.Transfer.Streams.{Round, stream_loop, upload_staged, finish_upload}

-- The bytes that the rounds give before the first that gives none.
abbrev pub pieces : List Round → Bytes
pieces [] = []
pieces (round ∷ rounds) = elim round.reads [
  | err failed ↦ []
  | ok piece ↦ let rest = piece ++ pieces rounds in if is_empty piece then [] else rest
]

-- A loop that ends well has sent on exactly what was read.
pub stream_loop_sent :
    (rounds : List Round) (before sent : Bytes)
    → stream_loop rounds before ≡ ok sent
    → sent ≡ before ++ pieces rounds
unfolding stream_loop
stream_loop_sent [] before sent e = cc (append-nil before)
stream_loop_sent (round ∷ rounds) before sent e = elim (Result-cases round.reads) [
  | inr (failed, reads) ↦ absurd (cc (rw (reads, stream_loop) at e))
  | inl (piece, reads) ↦ elim (Bool-cases (is_empty piece)) [
    | inl last ↦
        let ends : ok before ≡ ok sent = rw last at (rw (reads, stream_loop) at e) in
        rw reads (rw last (cc (append-nil before)))
    | inr more ↦ elim (Option-cases round.writes) [
      | inr (failed, writes) ↦ absurd (cc (rw (more, writes) at (rw (reads, stream_loop) at e)))
      | inl works ↦
          let later = rw (more, works) at (rw (reads, stream_loop) at e) in
          rw reads (
            rw more (
              stream_loop_sent rounds (before ++ piece) sent later
              ∙ append_assoc before piece (pieces rounds)))
    ]
  ]
]

module _ (r : Remote) (staged remote : Text) (apart : remote ≢ staged) (mode : Option ℕ)
    (verify : Bool) (fs : Files) (sent : Bytes) where
  untouched : (contents : Bytes) → get remote (set_file staged contents fs) ≡ get remote fs
  untouched contents = get-set_other remote staged contents fs apart

  lost : get remote (discard r staged (set_file staged r.remains fs)) ≡ get remote fs
  lost = get-discard r remote staged (set_file staged r.remains fs) apart ∙ untouched r.remains

  finish_upload_failed :
      (failed : Text)
      → IsDelivered r remote sent verify fs
          (finish_upload r staged remote mode verify fs (err failed))
  unfolding finish_upload
  finish_upload_failed failed = inr (failed, refl, inl lost)

  finish_upload_lem :
      IsDelivered r remote sent verify fs (finish_upload r staged remote mode verify fs (ok sent))
  unfolding finish_upload
  finish_upload_lem = elim (Option-cases (first_failure r.flush r.close)) [
    | inr (failed, closes) ↦ rw (closes, finish_upload) (inr (failed, refl, inl lost))
    | inl closes ↦
        let written = set_file staged (r.arrives sent) fs in
        let there = get-set_same staged (r.arrives sent) fs in
        let confirmed = confirm_lem r staged remote apart sent verify written there in
        rw (closes, finish_upload)
          (IsDelivered-before r remote sent verify written fs (untouched (r.arrives sent)) _ (
            finish_write_lem r staged remote apart sent mode verify written
              (confirm r staged (r.digest sent) verify written) there confirmed))
  ]

-- Whatever requests fail, on the local disk or on the host, an upload ends like a staged write of
-- the bytes that were read from the local file: it succeeds, and then the destination holds what arrived of these bytes and the answer has their
-- digest; or it fails, and then the destination is as it was or gone.
pub upload_staged_lem :
    (r : Remote) (unique remote : Text) (opens : Option Text) (rounds : List Round)
    (mode : Option ℕ) (verify : Bool) (fs : Files)
    → IsDelivered r remote
        (pieces rounds)
        verify
        fs
        (upload_staged r unique remote opens rounds mode verify fs)
unfolding upload_staged
upload_staged_lem r unique remote (some failed) rounds mode verify fs = inr (failed, refl, inl refl)
upload_staged_lem r unique remote none rounds mode verify fs = elim (Option-cases r.create) [
  | inr (failed, creates) ↦ rw (creates, upload_staged) (inr (failed, refl, inl refl))
  | inl creates ↦
      rw (creates, upload_staged)
        (elim (Result-cases (stream_loop rounds [])) [
          | inr (failed, loops) ↦ rw loops (
              finish_upload_failed r (staged_path unique remote) remote
                (staged_path-apart unique remote) mode verify fs (pieces rounds) failed)
          | inl (sent, loops) ↦
              rw (loops, stream_loop_sent rounds [] sent loops)
                (finish_upload_lem r (staged_path unique remote) remote
                  (staged_path-apart unique remote) mode verify fs (pieces rounds))
        ])
]
