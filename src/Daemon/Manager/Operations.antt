-- ===== src/Daemon/Manager/Operations.antt =====
-- crates/session/src/lib.rs: the operations on files are steps of the manager.
use ai_ssh.Base.{Bool, not, ◌&&◌, inl, inr}
use ai_ssh.Base.Tests.{Bool-cases, is_some, if◌then◌else◌}
use ai_ssh.Base.Text.{Text}
use ai_ssh.Base.Result.{Result, ok, map_err, Result-cases}
use ai_ssh.Ssh.Transfer.{Files, get}
use ai_ssh.Session.Runtime.{SessionManager}
use ai_ssh.Session.Errors.{classify_error}
use ai_ssh.Session.Files.{local_path_for}
use ai_ssh.Session.Transfers.{Network, channel_of, file_stat}
use ai_ssh.Session.Transfers.Moves.{
  UploadHost, DownloadHost, file_upload, file_download, download_on, file_mkdir,
}
use ai_ssh.Session.Steps.{Step, Steps}

pub one_step : {a b : SessionManager} → Step a b → Steps a b
one_step step = Steps.then_step Steps.done step

channel_of-Steps : (n : Network) (id : Text) (m : SessionManager) → Steps m (channel_of n id m).1
unfolding channel_of
channel_of-Steps n id m = one_step (Step.opens_sftp n.now n.dial n.opens id)

pub file_stat-Steps :
    (n : Network) (stats : _) (reply : _) (id path : Text) (hash : Bool) (m : SessionManager)
    → Steps m (file_stat n stats reply id path hash m).1
unfolding file_stat
file_stat-Steps n stats reply id path hash m = channel_of-Steps n id m

pub file_mkdir-Steps :
    (n : Network) (made : Result Text (Unit {0})) (id : Text) (m : SessionManager)
    → Steps m (file_mkdir n made id m).1
unfolding file_mkdir
file_mkdir-Steps n made id m = channel_of-Steps n id m

pub file_upload-Steps :
    (h : UploadHost) (id local_path path : Text) (dirs : Bool) (mode : _) (verify : Bool)
    (m : SessionManager) (fs : Files)
    → Steps m (file_upload h id local_path path dirs mode verify (m, fs)).1
unfolding file_upload
file_upload-Steps h id local_path path dirs mode verify m fs =
    elim (Result-cases (local_path_for h.home local_path)) [
      | inr (failed, e) ↦ rw (e, file_upload) Steps.done
      | inl (local, e) ↦ elim (Result-cases (channel_of h.network id m).0) [
        | inr (failed, f) ↦
            rw (e, file_upload) (rw (f, file_upload) (channel_of-Steps h.network id m))
        | inl (channel, f) ↦
            rw (e, file_upload) (rw (f, file_upload) (channel_of-Steps h.network id m))
      ]
    ]

download_on-Steps :
    (h : DownloadHost) (id path local : Text) (verify : Bool) (m : SessionManager) (fs : Files)
    → Steps m (download_on h id path local verify (m, fs)).1
unfolding download_on
download_on-Steps h id path local verify m fs = elim (Result-cases (channel_of h.network id m).0) [
  | inr (failed, f) ↦ rw (f, download_on) (channel_of-Steps h.network id m)
  | inl (channel, f) ↦ rw (f, download_on) (channel_of-Steps h.network id m)
]

pub file_download-Steps :
    (h : DownloadHost) (id path local_path : Text) (overwrite dirs verify : Bool)
    (m : SessionManager) (fs : Files)
    → Steps m (file_download h id path local_path overwrite dirs verify (m, fs)).1
unfolding file_download
file_download-Steps h id path local_path overwrite dirs verify m fs =
    elim (Result-cases (local_path_for h.home local_path)) [
      | inr (failed, e) ↦ rw (e, file_download) Steps.done
      | inl (local, e) ↦
          rw (e, file_download)
            (elim (Bool-cases (is_some (get local fs) && not overwrite)) [
              | inl kept ↦ rw (kept, file_download) Steps.done
              | inr replaced ↦
                  rw (replaced, file_download)
                    (elim (Result-cases
                      (if dirs then map_err classify_error h.makes_parent else ok tt)) [
                        | inr (failed, makes) ↦ rw makes Steps.done
                        | inl (made, makes) ↦
                            rw makes (download_on-Steps h id path local verify m fs)
                      ])
            ])
    ]
