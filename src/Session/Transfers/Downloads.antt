-- ===== src/Session/Transfers/Downloads.antt =====
-- crates/session/src/lib.rs: what downloading a file ends in.
use ai_ssh.Base.{
  ◌≡◌, ◌↔◌, ◌⊎◌, refl, ap, sym, subst, Bool, true, false, not, ◌&&◌, [], ◌∷◌, Option, none, some,
  inl, inr,
}
use ai_ssh.Base.Tests.{is_some, Bool-cases, if◌then◌else◌}
use ai_ssh.Base.Lists.{length}
use ai_ssh.Base.Text.{Text}
use ai_ssh.Base.Result.{Result, ok, err, map_err, Result-cases}
use ai_ssh.Protocol.Types.{FileOutcome}
use ai_ssh.Protocol.Messages.{ErrorPayload, ApiResult, error_with}
use ai_ssh.Ssh.Transfer.{Bytes, Files, get, TransferOutcome}
use ai_ssh.Ssh.Transfer.Streams.{download_staged}
use ai_ssh.Ssh.Transfer.Streams.Uploads.{pieces}
use ai_ssh.Ssh.Transfer.Streams.Downloads.{IsReceived, download_staged_lem}
use ai_ssh.Session.Errors.{classify_error}
use ai_ssh.Session.Runtime.{SessionManager}
use ai_ssh.Session.Files.{local_path_for, to_file_outcome}
use ai_ssh.Session.Transfers.{channel_of}
use ai_ssh.Session.Transfers.Moves.{DownloadHost, download_on, file_download, report}

-- How a download of `file_download` may end, for the local file at `local`.
abbrev pub IsDownloaded :
    DownloadHost
    → (local : Text) → (overwrite verify : Bool) → Files
    → ApiResult FileOutcome × SessionManager × Files
    → Type 0
IsDownloaded h local overwrite verify fs w =
    ((outcome : FileOutcome) × (w.0 ≡ ok outcome)
      × ((overwrite ≡ true) ⊎ (get local fs ≡ none))
      × (get local w.2 ≡ some (h.download.arrives (pieces h.rounds)))
      × (outcome.bytes ≡ length (pieces h.rounds))
      × ((outcome.verified ≡ true)
          ↔ ((verify ≡ true) × (h.download.reported ≡ some (h.download.digest (pieces h.rounds))))))
    ⊎ ((e : ErrorPayload) × (w.0 ≡ err e) × (get local w.2 ≡ get local fs))

allowed_when :
    (overwrite : Bool) (there : Option Bytes)
    → (is_some there && not overwrite) ≡ false
    → (overwrite ≡ true) ⊎ (there ≡ none)
allowed_when true there e = inl refl
allowed_when false none e = inr refl
allowed_when false (some contents) e = absurd (cc)

module _ (h : DownloadHost) (local : Text) (overwrite verify : Bool) (fs : Files)
    (may : (overwrite ≡ true) ⊎ (get local fs ≡ none)) where
  report-IsDownloaded :
      (m : SessionManager) (path : Text) (w : Result Text TransferOutcome × Files)
      → IsReceived h.download local (pieces h.rounds) verify fs w
      → let told = report path none local w in
        IsDownloaded h local overwrite verify fs (told.0, m, told.1)
  unfolding to_file_outcome
  report-IsDownloaded m path (ok outcome, after) (inl (verified, worked, holds, sound)) =
      let same =
        ap (λ (r : Result Text TransferOutcome). elim r [ ok o ↦ o | err e ↦ outcome ]) worked in
      inl (
        to_file_outcome path outcome none (some local),
        refl,
        may,
        holds,
        ap (λ (o : TransferOutcome). o.bytes) same,
        subst
            (λ (b : Bool). (b ≡ true) ↔ (
              (verify ≡ true) × (h.download.reported ≡ some (h.download.digest (pieces h.rounds)))))
            (sym (ap (λ (o : TransferOutcome). o.verified) same)) sound,
      )
  report-IsDownloaded m path (err failed, after) (inl (verified, worked, holds, sound)) =
      absurd (cc)
  report-IsDownloaded m path (ok outcome, after) (inr (failed, fails, kept)) = absurd (cc)
  report-IsDownloaded m path (err failed, after) (inr (e, fails, kept)) =
      inr (classify_error failed, refl, kept)

  download_on-IsDownloaded :
      (id path : Text) (m : SessionManager)
      → IsDownloaded h local overwrite verify fs (download_on h id path local verify (m, fs))
  unfolding download_on
  download_on-IsDownloaded id path m = elim (Result-cases (channel_of h.network id m).0) [
    | inr (failed, opens) ↦ rw (opens, download_on) (inr (failed, refl, refl))
    | inl (channel, opens) ↦
        rw (opens, download_on)
          (report-IsDownloaded (channel_of h.network id m).1 path
            (download_staged h.download h.pid local h.rounds verify fs)
            (download_staged_lem h.download h.pid local h.rounds verify fs))
  ]

-- Whatever fails, on the host or on the local disk, with its parent directory or with the session, a
-- download to a local path that is allowed leaves the local file
-- as it was or replaces it whole. It replaces it only if that was asked for or nothing was there: then
-- the file holds what arrived of all the bytes the host sent, and the answer has their number and
-- says that they are verified exactly when that was asked for and the host reported their digest.
pub file_download_lem :
    (h : DownloadHost) (id path local_path local : Text) (overwrite create_dirs verify : Bool)
    (m : SessionManager) (fs : Files)
    → local_path_for h.home local_path ≡ ok local
    → IsDownloaded h local overwrite verify fs
        (file_download h id path local_path overwrite create_dirs verify (m, fs))
unfolding file_download
file_download_lem h id path local_path local overwrite create_dirs verify m fs allowed =
    rw (allowed, file_download)
      (elim (Bool-cases (is_some (get local fs) && not overwrite)) [
        | inl kept ↦
            rw (kept, file_download)
              (inr (
                error_with "FILE_EXISTS" "{} already exists; pass overwrite=true to replace it"
                    (local ∷ []),
                refl,
                refl,
              ))
        | inr replaced ↦
            let may : (overwrite ≡ true) ⊎ (get local fs ≡ none) =
              allowed_when overwrite (get local fs) replaced in
            rw (replaced, file_download)
              (elim (Result-cases
                (if create_dirs then map_err classify_error h.makes_parent else ok tt)) [
                  | inr (failed, makes) ↦ rw makes (inr (failed, refl, refl))
                  | inl (made, makes) ↦
                      rw makes (download_on-IsDownloaded h local overwrite verify fs may id path m)
                ])
      ])
