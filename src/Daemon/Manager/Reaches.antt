-- ===== src/Daemon/Manager/Reaches.antt =====
-- apps/daemon/src/main.rs with crates/session/src/lib.rs: the states that the daemon's clients bring
-- the session manager to.
use ai_ssh.Base.{ℕ, zero, suc, ◌≡◌, none, inl, inr}
use ai_ssh.Base.Tests.{Bool-cases}
use ai_ssh.Base.Text.{Text}
use ai_ssh.Base.Result.{Result-cases}
use ai_ssh.Config.Types.{Config}
use ai_ssh.Config.Paths.{Paths}
use ai_ssh.Storage.Tables.{Storage}
use ai_ssh.Protocol.Messages.{Request, RequestFrame, Response}
use ai_ssh.Protocol.Frames.{Bytes, Codec, read_frame, write_frame}
use ai_ssh.Ssh.Transfer.{Files}
use ai_ssh.Session.Runtime.{SessionManager, lookup}
use ai_ssh.Session.Lifecycle.{new}
use ai_ssh.Session.Steps.{Step, Steps, Steps-append}
use ai_ssh.Session.Steps.Closed.{AllConsistent}
use ai_ssh.Session.Steps.Reachable.{Steps-AllConsistent}
use ai_ssh.Daemon.Service.{Handled, handle, greet}
use ai_ssh.Daemon.Serve.{serve_client, response_to}
use ai_ssh.Daemon.Manager.{World, Desk, manager_service}
use ai_ssh.Daemon.Manager.Operations.{
  one_step, file_stat-Steps, file_mkdir-Steps, file_upload-Steps, file_download-Steps,
}

-- What may happen before a request is any number of steps of the manager, and a new UUID is no
-- session's id.
abbrev pub IsWorld : World → Type 0
IsWorld w =
    ((m : SessionManager) → Steps m (w.before m))
    × ((m : SessionManager) → lookup (w.uuid m) m ≡ none)

module _ (worlds : ℕ → World) (fair : (k : ℕ) → IsWorld (worlds k)) (start : SessionManager) where
  -- The manager can be reached from the start.
  abbrev pub Reached : Desk → Type 0
  Reached d = Steps start d.manager

  -- What the manager does in the world of a turn.
  then_these :
      {n : SessionManager} (d : Desk)
      → Steps ((worlds d.turn).before d.manager) n
      → Reached d
      → Steps start n
  then_these d steps before = Steps-append before (Steps-append ((fair d.turn).0 d.manager) steps)

  then_one :
      {n : SessionManager} (d : Desk)
      → Step ((worlds d.turn).before d.manager) n
      → Reached d
      → Steps start n
  then_one d step before = then_these d (one_step step) before

  handle-Reached :
      (request : Request) (client : Text) (d : Desk)
      → Reached d
      → Reached (handle (manager_service worlds) request client d).state
  unfolding handle greet manager_service
  handle-Reached (Request.handshake version name) client d before = before
  handle-Reached Request.targets_list client d before = before
  handle-Reached (Request.sessions_list history) client d before = then_these d Steps.done before
  handle-Reached (Request.session_create target purpose) client d before =
      let w = worlds d.turn in
      let m = w.before d.manager in
      then_one d
        (Step.creates w.now w.later w.instant (w.uuid m) w.connects target purpose client
          ((fair d.turn).1 m))
        before
  handle-Reached (Request.session_status id) client d before = then_these d Steps.done before
  handle-Reached (Request.session_close id) client d before =
      then_one d (Step.closes (worlds d.turn).now id) before
  handle-Reached (Request.exec_start id line cwd env timeout) client d before =
      then_one d (Step.starts (worlds d.turn).outside _) before
  handle-Reached (Request.exec_background id line cwd env timeout) client d before =
      then_one d (Step.starts (worlds d.turn).outside _) before
  handle-Reached (Request.command_poll id after max_bytes wait) client d before =
      then_these d Steps.done before
  handle-Reached (Request.command_cancel id) client d before = then_one d (Step.cancels id) before
  handle-Reached (Request.commands_list id finished limit) client d before =
      then_these d Steps.done before
  handle-Reached (Request.shell_open id cols rows term) client d before =
      then_one d (Step.opens_shell (worlds d.turn).shell_outside id cols rows term) before
  handle-Reached (Request.shell_write id bytes) client d before =
      then_one d (Step.writes (worlds d.turn).instant (worlds d.turn).wrote id) before
  handle-Reached (Request.shell_read id after max_bytes wait) client d before =
      then_these d Steps.done before
  handle-Reached (Request.shell_resize id cols rows) client d before =
      then_one d (Step.resizes (worlds d.turn).resizes id cols rows) before
  handle-Reached (Request.shell_close id) client d before =
      then_one d (Step.closes_shell (worlds d.turn).closes_shell id) before
  handle-Reached (Request.file_stat id path hash) client d before =
      let w = worlds d.turn in
      then_these d (file_stat-Steps w.network w.stats w.hashes id path hash (w.before d.manager))
        before
  handle-Reached (Request.file_read id path max_bytes sudo) client d before =
      then_one d (Step.reads_file (worlds d.turn).read_host id path max_bytes sudo) before
  handle-Reached (Request.file_write id path bytes append dirs mode sudo if_changed) client d
        before =
      then_one d (Step.writes_file (worlds d.turn).write_host _ id) before
  handle-Reached (Request.file_upload id local path dirs mode verify) client d before =
      let w = worlds d.turn in
      then_these d
        (file_upload-Steps w.upload_host id local path dirs mode verify (w.before d.manager)
          d.remote)
        before
  handle-Reached (Request.file_download id path local overwrite dirs verify) client d before =
      let w = worlds d.turn in
      then_these d
        (file_download-Steps w.download_host id path local overwrite dirs verify
          (w.before d.manager) d.local)
        before
  handle-Reached (Request.file_mkdir id path parents mode) client d before =
      let w = worlds d.turn in
      then_these d (file_mkdir-Steps w.network w.made id (w.before d.manager)) before
  handle-Reached Request.reload_config client d before =
      then_one d (Step.reloads (worlds d.turn).loaded) before
  handle-Reached Request.daemon_shutdown client d before = before

  module _ (requests : Codec RequestFrame) (responses : Codec Response) where
    -- Whatever bytes a client sends, the manager takes only its own steps.
    serve_client-Reached :
        (fuel : ℕ) (client : Text) (d : Desk) (stream : Bytes)
        → Reached d
        → Reached
            (serve_client (manager_service worlds) requests responses fuel client d stream).state
    unfolding serve_client
    serve_client-Reached zero client d stream before = before
    serve_client-Reached (suc fuel) client d stream before =
        let service = manager_service worlds in
        elim (Result-cases (read_frame requests stream)) [
          | inr (failed, e) ↦ rw (e, serve_client) before
          | inl ((frame, rest), e) ↦
              let handled : Handled Desk = handle service frame.request client d in
              let after = handle-Reached frame.request client d before in
              elim (Result-cases (write_frame responses (response_to frame handled))) [
                | inr (failed, f) ↦ rw (e, serve_client) (rw (f, serve_client) after)
                | inl (bytes, f) ↦ elim (Bool-cases handled.shutdown_requested) [
                  | inl stops ↦
                      rw (e, serve_client) (rw (f, serve_client) (rw (stops, serve_client) after))
                  | inr goes ↦
                      rw (e, serve_client)
                        (rw (f, serve_client)
                          (rw (goes, serve_client)
                            (serve_client-Reached fuel handled.client_name handled.state rest
                              after)))
                ]
              ]
        ]

-- Whatever bytes a client of the daemon sends, in frames or not, and whatever the network, the disk,
-- the manager's tasks and other clients do between its requests, with each operation as one step: a
-- manager that started new is left in a state that its own steps reach, so that a session which is
-- closed holds no connection and runs nothing, in front or behind. A new UUID is no session's id.
pub serve_client-AllConsistent :
    (worlds : ℕ → World) (config : Config) (paths : Paths) (db : Storage) (remote local : Files)
    (requests : Codec RequestFrame) (responses : Codec Response) (fuel : ℕ) (client : Text)
    (stream : Bytes)
    → ((k : ℕ) → IsWorld (worlds k))
    → let desk : Desk = record {
      manager = new config paths db;
      remote = remote;
      local = local;
      turn = 0;
    } in
      let after =
        (serve_client
          (manager_service worlds)
          requests
          responses
          fuel
          client
          desk
          stream).state.manager in
      Steps (new config paths db) after × AllConsistent after
serve_client-AllConsistent worlds config paths db remote local requests responses fuel client stream
      fair =
    let desk : Desk = record {
      manager = new config paths db;
      remote = remote;
      local = local;
      turn = 0;
    } in
    let steps =
      serve_client-Reached worlds fair (new config paths db) requests responses fuel client desk
        stream Steps.done in
    (
      steps,
      Steps-AllConsistent config paths db
          (serve_client (manager_service worlds) requests responses fuel client desk
            stream).state.manager
          steps,
    )
