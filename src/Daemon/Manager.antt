-- ===== src/Daemon/Manager.antt =====
-- apps/daemon/src/main.rs with crates/session/src/lib.rs: the session manager as the daemon's service.
-- Each request is answered in a world: what the clocks, the network and the disk answer, and what the
-- manager's tasks, its timer and other clients have done before the request.
pub mod Operations
pub mod Reaches
use ai_ssh.Base.{ℕ, ◌+◌, ◌≡◌, Bool, true, false, List, Option, none}
use ai_ssh.Base.Text.{Text}
use ai_ssh.Base.Result.{Result, ok}
use ai_ssh.Config.Types.{Config}
use ai_ssh.Protocol.Messages.{ApiResult}
use ai_ssh.Ssh.Transfer.{Bytes, Files}
use ai_ssh.Session.Runtime.{Connection, SessionManager}
use ai_ssh.Session.Exec.{Outside, start_exec}
use ai_ssh.Session.Shell.{ShellOutside, shell_open, shell_write, shell_resize, shell_close}
use ai_ssh.Session.Poll.{View, command_poll, shell_read}
use ai_ssh.Session.Files.{Host, file_write}
use ai_ssh.Session.Helpers.{Reply}
use ai_ssh.Session.Transfers.{Metadata, Network, ReadHost, file_stat, file_read}
use ai_ssh.Session.Transfers.Moves.{
  UploadHost, DownloadHost, file_upload, file_download, file_mkdir,
}
use ai_ssh.Session.Lifecycle.{
  targets, list_sessions, status, create, close, command_cancel, list_commands, reload_config,
}
use ai_ssh.Daemon.Service.{Service}

pub record World : Type 0 where
  pub before : SessionManager → SessionManager
  pub now : ℕ
  pub later : ℕ
  pub instant : ℕ
  pub uuid : SessionManager → Text
  pub connects : Result Text Connection
  pub outside : Outside
  pub shell_outside : ShellOutside
  -- What a poll sees when it is woken, and at its deadline.
  pub woken : List View
  pub last : View
  pub wrote : Result Text (Unit {0})
  pub resizes : ℕ × ℕ → Result Text (Unit {0})
  pub closes_shell : Result Text (Unit {0})
  pub loaded : Result Text Config
  pub network : Network
  pub stats : Result Text Metadata
  pub hashes : Reply
  pub read_host : ReadHost
  pub write_host : Host
  pub upload_host : UploadHost
  pub download_host : DownloadHost
  pub made : Result Text (Unit {0})

-- The manager with the files of the host and of the local disk, and how many requests were answered.
pub record Desk : Type 0 where
  pub manager : SessionManager
  pub remote : Files
  pub local : Files
  pub turn : ℕ

module _ (worlds : ℕ → World) where
  -- An operation in the world of its turn.
  abbrev pub operate :
      {A : Type 0}
      → (World → SessionManager → ApiResult A × SessionManager)
      → Desk
      → ApiResult A × Desk
  operate f d =
      let w = worlds d.turn in
      let r = f w (w.before d.manager) in (r.0, record d { manager = r.1; turn = d.turn + 1 })

  -- One that also changes files.
  abbrev pub operate_remote :
      {A : Type 0}
      → (World → SessionManager × Files → ApiResult A × SessionManager × Files)
      → Desk
      → ApiResult A × Desk
  operate_remote f d =
      let w = worlds d.turn in
      let r = f w (w.before d.manager, d.remote) in
      (r.0, record d { manager = r.1; remote = r.2; turn = d.turn + 1 })

  abbrev pub operate_local :
      {A : Type 0}
      → (World → SessionManager × Files → ApiResult A × SessionManager × Files)
      → Desk
      → ApiResult A × Desk
  operate_local f d =
      let w = worlds d.turn in
      let r = f w (w.before d.manager, d.local) in
      (r.0, record d { manager = r.1; local = r.2; turn = d.turn + 1 })

  unfoldable pub manager_service : Service Desk
  manager_service = record {
    targets = λ d. targets d.manager;
    sessions = λ history. operate (λ w m. (ok (list_sessions history m), m));
    create = λ target purpose client.
        operate
          (λ w m. create w.now w.later w.instant (w.uuid m) w.connects target purpose client m);
    status = λ id. operate (λ w m. (status id m, m));
    close = λ id. operate (λ w m. close w.now id m);
    exec_start = λ id line cwd env timeout. operate (λ w m.
        start_exec w.outside
          (record {
            session_id = id;
            command = line;
            cwd = cwd;
            env = env;
            timeout_seconds = timeout;
            background = false;
          })
          m);
    exec_background = λ id line cwd env timeout. operate (λ w m.
        start_exec w.outside
          (record {
            session_id = id;
            command = line;
            cwd = cwd;
            env = env;
            timeout_seconds = timeout;
            background = true;
          })
          m);
    command_poll = λ id after max_bytes wait. operate (λ w m. (
      command_poll id after max_bytes wait (record { now = w.now; manager = m }) w.woken w.last,
      m,
    ));
    command_cancel = λ id. operate (λ w m. command_cancel id m);
    commands = λ id finished limit.
        operate (λ w m. (ok (list_commands w.now w.instant id finished limit m), m));
    shell_open =
        λ id cols rows term. operate (λ w m. shell_open w.shell_outside id cols rows term m);
    shell_write = λ id bytes. operate (λ w m. shell_write w.instant w.wrote id m);
    shell_read = λ id after max_bytes wait. operate (λ w m. (
      shell_read id after max_bytes wait (record { now = w.now; manager = m }) w.woken w.last,
      m,
    ));
    shell_resize = λ id cols rows. operate (λ w m. shell_resize w.resizes id cols rows m);
    shell_close = λ id. operate (λ w m. shell_close w.closes_shell id m);
    file_stat =
        λ id path hash. operate (λ w m. file_stat w.network w.stats w.hashes id path hash m);
    file_read =
        λ id path max_bytes sudo. operate (λ w m. file_read w.read_host id path max_bytes sudo m);
    file_write = λ id path bytes append dirs mode sudo if_changed. operate (λ w m.
        file_write w.write_host
          (record {
            remote_path = path;
            contents = bytes;
            append = append;
            create_dirs = dirs;
            mode = mode;
            sudo = sudo;
            if_changed = if_changed;
          })
          id m);
    file_upload = λ id local path dirs mode verify.
        operate_remote (λ w s. file_upload w.upload_host id local path dirs mode verify s);
    file_download = λ id path local overwrite dirs verify.
        operate_local (λ w s. file_download w.download_host id path local overwrite dirs verify s);
    file_mkdir = λ id path parents mode. operate (λ w m. file_mkdir w.network w.made id m);
    reload_config = operate (λ w m. reload_config w.loaded m);
  }
