-- ===== src/Ssh/Transfer/Streams/Downloads.antt =====
-- crates/ssh/src/transfer.rs: what a download leaves at its destination.
use ai_ssh.Base.{
  ◌++◌, ◌≡◌, ◌≢◌, ◌↔◌, ◌⊎◌, refl, ap, sym, ◌∙◌, Bool, true, false, List, [], Option, none, some,
  inl, inr,
}
use mathlib.Core.List.{append-nil}
use ai_ssh.Base.Tests.{Bool-cases, Option-cases}
use ai_ssh.Base.Text.{Text, codes, text_eq, text_eq_iff}
use ai_ssh.Base.Result.{Result, ok, err, Result-cases}
use ai_ssh.Ssh.Transfer.Apart.{split_at_slash-parts, tag, tagged_apart}
use ai_ssh.Ssh.Transfer.{split_at_slash, Bytes, Files, get, set_file, remove_file, TransferOutcome}
use ai_ssh.Ssh.Transfer.Destination.{get-set_same, get-set_other, get-remove_other}
use ai_ssh.Ssh.Transfer.Streams.{
  Round, stream_loop, Download, drop_staged, compare_digest, rename_local, downloaded,
  finish_download, download_staged, local_staged_path,
}
use ai_ssh.Ssh.Transfer.Streams.Uploads.{pieces, stream_loop_sent}

-- How a download may end, for the local file.
abbrev pub IsReceived :
    Download
    → (path : Text) → (received : Bytes) → (verify : Bool) → Files
    → Result Text TransferOutcome × Files
    → Type 0
IsReceived d path received verify fs w =
    ((verified : Bool) × (w.0 ≡ ok (downloaded d received verified))
      × (get path w.1 ≡ some (d.arrives received))
      × ((verified ≡ true) ↔ ((verify ≡ true) × (d.reported ≡ some (d.digest received)))))
    ⊎ ((e : Text) × (w.0 ≡ err e) × (get path w.1 ≡ get path fs))

compare_digest_lem :
    (digest : Text) (verify : Bool) (reported : Option Text)
    → ((verified : Bool) × (compare_digest digest verify reported ≡ ok verified)
        × ((verified ≡ true) ↔ ((verify ≡ true) × (reported ≡ some digest))))
      ⊎ ((e : Text) × (compare_digest digest verify reported ≡ err e))
unfolding compare_digest
compare_digest_lem digest false reported =
    inl (false, refl, (λ h. absurd (cc), λ h. absurd (cc (h.0))))
compare_digest_lem digest true none = inl (false, refl, (λ h. absurd (cc), λ h. absurd (cc (h.1))))
compare_digest_lem digest true (some actual) = elim (Bool-cases (text_eq actual digest)) [
  | inl same ↦
      let equal = (text_eq_iff actual digest).0 same in
      inl (true, rw same refl, (λ h. (refl, ap some equal), λ h. refl))
  | inr other ↦ inr (codes "TRANSFER_VERIFY_FAILED", rw other refl)
]

module _ (d : Download) (staged path : Text) (apart : path ≢ staged) (verify : Bool)
    (fs : Files) where
  kept : (contents : Bytes) → get path (set_file staged contents fs) ≡ get path fs
  kept contents = get-set_other path staged contents fs apart

  dropped :
      (contents : Bytes)
      → get path (drop_staged d staged (set_file staged contents fs)) ≡ get path fs
  dropped contents = elim (Bool-cases d.removes) [
    | inl works ↦
        rw works (get-remove_other path staged (set_file staged contents fs) apart ∙ kept contents)
    | inr fails ↦ rw fails (kept contents)
  ]

  rename_local_lem :
      (contents : Bytes) (before : Files)
      → d.rename ≡ none
      → get staged before ≡ some contents
      → rename_local d staged path before
        ≡ (ok tt, set_file path contents (remove_file staged before))
  unfolding rename_local
  rename_local_lem contents before renames there = rw (renames, rename_local) (rw there refl)

  rename_local_fails :
      (failed : Text) (before : Files)
      → d.rename ≡ some failed
      → rename_local d staged path before ≡ (err failed, before)
  unfolding rename_local
  rename_local_fails failed before renames = rw (renames, rename_local) refl

  finish_download_lem :
      (received : Bytes)
      → IsReceived d path received verify fs (finish_download d staged path verify fs (ok received))
  unfolding finish_download
  finish_download_lem received = elim (Option-cases d.flush) [
    | inr (failed, flushes) ↦ rw (flushes, finish_download) (inr (failed, refl, dropped d.remains))
    | inl flushes ↦
        let there = get-set_same staged (d.arrives received) fs in
        elim (compare_digest_lem (d.digest received) verify d.reported) [
          | inr (failed, differs) ↦
              rw (flushes, finish_download)
                (rw differs (inr (failed, refl, dropped (d.arrives received))))
          | inl (verified, compares, sound) ↦ elim (Option-cases d.rename) [
            | inr (failed, renames) ↦
                let stays =
                  rename_local_fails failed (set_file staged (d.arrives received) fs) renames in
                rw (flushes, finish_download)
                  (rw compares (
                    rw stays (
                      inr (
                        failed,
                        refl,
                        ap (λ (w : Result Text (Unit {0}) × Files). get path w.1) stays
                            ∙ kept (d.arrives received),
                      ))))
            | inl renames ↦
                let written = set_file staged (d.arrives received) fs in
                let moved = rename_local_lem (d.arrives received) written renames there in
                rw (flushes, finish_download)
                  (rw compares (
                    rw moved (
                      inl (
                        verified,
                        refl,
                        ap (λ (w : Result Text (Unit {0}) × Files). get path w.1) moved
                            ∙ get-set_same path (d.arrives received) (remove_file staged written),
                        sound,
                      ))))
          ]
        ]
  ]

local_staged_path-apart : (pid path : Text) → path ≢ local_staged_path pid path
unfolding local_staged_path
local_staged_path-apart pid path e = elim (Option-cases (split_at_slash path)) [
  | inl top ↦ tagged_apart path [] pid tt (append-nil path ∙ (rw (top, local_staged_path) at e))
  | inr ((dir, name), found) ↦
      let parts = split_at_slash-parts path dir name found in
      tagged_apart path [] pid tt (
        append-nil path
        ∙ (rw (found, local_staged_path) at e)
        ∙ ap (λ (t : Text). t ++ tag pid) (sym parts))
]

-- Whatever requests fail, on the host or on the local disk, and whatever the host reports, a download
-- never leaves a part of the file at the local path. Either it succeeds: then the local file holds what arrived of all the bytes that the host sent, the answer
-- has their number and digest, and it says that they are verified exactly when that was asked for and
-- the host reported this digest. Or it fails: then the local file is as it was.
pub download_staged_lem :
    (d : Download) (pid path : Text) (rounds : List Round) (verify : Bool) (fs : Files)
    → IsReceived d path (pieces rounds) verify fs (download_staged d pid path rounds verify fs)
unfolding download_staged
download_staged_lem d pid path rounds verify fs = elim (Option-cases d.open_remote) [
  | inr (failed, opens) ↦ rw (opens, download_staged) (inr (failed, refl, refl))
  | inl opens ↦ elim (Option-cases d.create) [
    | inr (failed, creates) ↦ rw (opens, download_staged) (rw creates (inr (failed, refl, refl)))
    | inl creates ↦
        rw (opens, download_staged)
          (rw creates (elim (Result-cases (stream_loop rounds [])) [
            | inr (failed, loops) ↦ rw loops (
                unfold finish_download in
                inr (
                  failed,
                  refl,
                  dropped d (local_staged_path pid path) path (local_staged_path-apart pid path)
                      verify fs d.remains,
                ))
            | inl (received, loops) ↦
                rw (loops, stream_loop_sent rounds [] received loops)
                  (finish_download_lem d (local_staged_path pid path) path
                    (local_staged_path-apart pid path) verify fs (pieces rounds))
          ]))
  ]
]
