-- ===== src/Session/Steps/Reachable.antt =====
-- crates/session/src/lib.rs: each step of a manager, and any number of them.
use ai_ssh.Base.{ℕ, ◌*◌, List, [], ◌∷◌, inl, inr}
use ai_ssh.Base.Tests.{Bool-cases, Option-cases}
use ai_ssh.Base.Lists.{All-append, is_empty}
use ai_ssh.Base.Text.{Text, trim}
use ai_ssh.Base.Result.{Result, ok, err}
use ai_ssh.Config.Types.{Config}
use ai_ssh.Config.Paths.{Paths}
use ai_ssh.Storage.Tables.{Storage}
use ai_ssh.Storage.Sessions.{upsert_session, cleanup}
use ai_ssh.Session.Errors.{clearly_interactive}
use ai_ssh.Session.Runtime.{Connection, SessionRuntime, SessionManager, lookup}
use ai_ssh.Session.Record.{record_event}
use ai_ssh.Session.Connect.{find_target}
use ai_ssh.Session.Exec.{ExecRequest, Outside, start_exec, start_on, finish_exec}
use ai_ssh.Session.Shell.{
  shell_open, shell_open_on, finish_pty, shell_write, shell_write_on, shell_resize, shell_resize_on,
  shell_close, shell_close_on,
}
use ai_ssh.Session.Lifecycle.{
  new, create, new_info, new_runtime, close, close_on, cancel_in, command_cancel, reload_config,
  is_idle, reap_each, reap_idle,
}
use ai_ssh.Session.Files.{sftp_channel, write_connected, file_write}
use ai_ssh.Session.Connect.{connection_for}
use ai_ssh.Session.Poll.{read_limit}
use ai_ssh.Session.Transfers.{read_connected, file_read}
use ai_ssh.Session.Evolves.Reads.{file_read-Evolves, shell_resize_on-Evolves}
use ai_ssh.Session.Evolves.{
  sftp_channel-Evolves, file_write-Evolves, IsConsistent, record_event-Evolves, close_on-Evolves,
  shell_close_on-Evolves, shell_write_on-Evolves, finish_pty-Evolves, finish_exec-Evolves,
  start_on-Evolves, shell_open_on-Evolves,
}
use ai_ssh.Session.Steps.{Step, Steps, quietly}
use ai_ssh.Session.Steps.Closed.{
  AllConsistent, HasClosed, Keeps, Keeps-refl, Keeps-trans, on_runtime-Keeps,
}
use ai_ssh.Session.Steps.Sessions.{
  find-append, cancel_in-IsConsistent, cancel_in-closed, after_connect-IsConsistent,
}

module _ (m : SessionManager) (before : AllConsistent m) where
  create-Keeps :
      (now later instant : ℕ) (uuid : Text) (connects : Result Text Connection)
      (target_id purpose client_name : Text)
      → Keeps m (create now later instant uuid connects target_id purpose client_name m).1
  unfolding create lookup
  create-Keeps now later instant uuid connects target_id purpose client_name =
      elim (Option-cases (find_target target_id m.config)) [
        | inl unknown ↦ rw (unknown, create) (Keeps-refl m before)
        | inr (target, found) ↦
            rw (found, create)
              (record {
                consistent = All-append IsConsistent m.sessions _ before (
                  after_connect-IsConsistent later connects
                      (new_runtime instant (new_info now uuid target purpose client_name))
                      (upsert_session (new_info now uuid target purpose client_name) m.storage),
                  tt,
                );
                closed = λ i h. (h.0, find-append i m.sessions h.0 _ h.1, h.2);
              })
      ]

  close-Keeps : (now : ℕ) (id : Text) → Keeps m (close now id m).1
  unfolding close
  close-Keeps now id =
      on_runtime-Keeps id (close_on now) m (λ rt mine. close_on-Evolves rt m.storage mine now)
        before

  start_exec-Keeps : (o : Outside) (q : ExecRequest) → Keeps m (start_exec o q m).1
  unfolding start_exec
  start_exec-Keeps o q =
      let started =
        on_runtime-Keeps q.session_id (start_on m.config o q) m
          (λ rt mine. start_on-Evolves rt m.storage mine m.config o q) before in
      elim (Bool-cases (is_empty (trim q.command))) [
        | inl empty ↦ rw (empty, start_exec) (Keeps-refl m before)
        | inr some_text ↦ elim (Bool-cases (clearly_interactive q.command)) [
          | inl refused ↦ rw (some_text, start_exec) (rw refused (Keeps-refl m before))
          | inr taken ↦ rw (some_text, start_exec) (rw taken started)
        ]
      ]

  command_cancel-Keeps : (id : Text) → Keeps m (command_cancel id m).1
  unfolding command_cancel lookup
  command_cancel-Keeps id = elim (Option-cases (cancel_in id m.sessions)) [
    | inl nowhere ↦ rw (nowhere, command_cancel) (Keeps-refl m before)
    | inr (after, changed) ↦
        rw (changed, command_cancel)
          (record {
            consistent = cancel_in-IsConsistent id m.sessions after changed before;
            closed = λ i h. cancel_in-closed id i m.sessions after changed h.0 h.1 h.2;
          })
  ]

  reload_config-Keeps : (loaded : Result Text Config) → Keeps m (reload_config loaded m).1
  unfolding reload_config lookup
  reload_config-Keeps (ok config) = record { consistent = before; closed = λ i h. h }
  reload_config-Keeps (err failed) = Keeps-refl m before

reap_each-Keeps :
    (now instant timeout : ℕ) (rts : List SessionRuntime) (m : SessionManager)
    → AllConsistent m
    → Keeps m (reap_each now instant timeout rts m)
unfolding reap_each
reap_each-Keeps now instant timeout [] m before = Keeps-refl m before
reap_each-Keeps now instant timeout (rt ∷ rts) m before =
    elim (Bool-cases (is_idle instant timeout rt)) [
      | inl idle ↦
          let closed = close-Keeps m before now rt.info.id in
          let rest =
            reap_each-Keeps now instant timeout rts (close now rt.info.id m).1 closed.consistent in
          rw (idle, reap_each) (Keeps-trans m _ _ closed rest)
      | inr used ↦ rw (used, reap_each) (reap_each-Keeps now instant timeout rts m before)
    ]

reap_idle-Keeps :
    (now instant : ℕ) (m : SessionManager) → AllConsistent m → Keeps m (reap_idle now instant m)
unfolding reap_idle lookup
reap_idle-Keeps now instant m before =
    let cleaned = record m { storage = (cleanup now m.config.retention_days m.storage).0 } in
    let rest =
      reap_each-Keeps now instant (m.config.idle_timeout_seconds * 1000) m.sessions cleaned
        before in
    record { consistent = rest.consistent; closed = rest.closed }

Step-Keeps : {m n : SessionManager} → Step m n → AllConsistent m → Keeps m n
unfolding shell_open shell_write shell_resize shell_close file_write file_read
Step-Keeps (Step.creates now later instant uuid connects target_id purpose client_name fresh)
      before =
    create-Keeps _ before now later instant uuid connects target_id purpose client_name
Step-Keeps (Step.closes now id) before = close-Keeps _ before now id
Step-Keeps (Step.starts o q) before = start_exec-Keeps _ before o q
Step-Keeps {m} (Step.records now instant id command_id stream d) before =
    on_runtime-Keeps id (quietly (record_event now instant command_id stream d)) m
      (λ rt mine. record_event-Evolves rt m.storage mine now instant command_id stream d) before
Step-Keeps {m} (Step.ends now instant id background c ended) before =
    on_runtime-Keeps id (quietly (finish_exec now instant background c ended)) m
      (λ rt mine. finish_exec-Evolves rt m.storage mine now instant background c ended) before
Step-Keeps {m} (Step.opens_shell o id cols rows term) before =
    on_runtime-Keeps id (shell_open_on m.config o cols rows term) m
      (λ rt mine. shell_open_on-Evolves rt m.storage mine m.config o cols rows term) before
Step-Keeps {m} (Step.ends_shell now id pty_id) before =
    on_runtime-Keeps id (quietly (finish_pty now pty_id)) m
      (λ rt mine. finish_pty-Evolves rt m.storage mine now pty_id) before
Step-Keeps {m} (Step.writes instant wrote id) before =
    on_runtime-Keeps id (shell_write_on instant wrote) m
      (λ rt mine. shell_write_on-Evolves rt m.storage mine instant wrote) before
Step-Keeps {m} (Step.closes_shell answer id) before =
    on_runtime-Keeps id (shell_close_on answer) m
      (λ rt mine. shell_close_on-Evolves rt m.storage mine answer) before
Step-Keeps (Step.cancels id) before = command_cancel-Keeps _ before id
Step-Keeps (Step.reloads loaded) before = reload_config-Keeps _ before loaded
Step-Keeps {m} (Step.opens_sftp now dial opens id) before =
    on_runtime-Keeps id (sftp_channel now m.config dial opens) m
      (λ rt mine. sftp_channel-Evolves now m.config dial opens rt m.storage mine) before
Step-Keeps {m} (Step.writes_file h q id) before =
    on_runtime-Keeps id
      (λ shared. write_connected m.config h q (connection_for h.now m.config h.dial shared)) m
      (λ rt mine. file_write-Evolves m.config h q rt m.storage mine) before
Step-Keeps {m} (Step.reads_file h id path max_bytes sudo) before =
    on_runtime-Keeps id
      (λ shared.
        read_connected m.config h path (read_limit max_bytes) sudo
          (connection_for h.first.now m.config h.first.dial shared))
      m (λ rt mine. file_read-Evolves m.config h path (read_limit max_bytes) sudo rt m.storage mine)
      before
Step-Keeps {m} (Step.resizes answer id cols rows) before =
    on_runtime-Keeps id (shell_resize_on answer cols rows) m
      (λ rt mine. shell_resize_on-Evolves answer cols rows rt m.storage mine) before
Step-Keeps (Step.reaps now instant) before = reap_idle-Keeps now instant _ before

Steps-Keeps : {m n : SessionManager} → Steps m n → AllConsistent m → Keeps m n
Steps-Keeps {m} Steps.done before = Keeps-refl m before
Steps-Keeps (Steps.then_step before_it step) before =
    let earlier = Steps-Keeps before_it before in
    Keeps-trans _ _ _ earlier (Step-Keeps step earlier.consistent)

-- Whatever steps a new manager takes, in whatever order its tasks and its callers come, and with each
-- operation as one step that no other interrupts, a session that is closed holds no connection, has
-- nothing in the foreground and nothing in the background.
pub Steps-AllConsistent :
    (config : Config) (paths : Paths) (db : Storage) (m : SessionManager)
    → Steps (new config paths db) m
    → AllConsistent m
unfolding new
Steps-AllConsistent config paths db m steps = (Steps-Keeps steps tt).consistent

-- A session that was closed at some time after the start is still there, and closed, after any
-- further steps: neither a reconnect nor a task that ends late opens it again. Each operation is one
-- step that no other interrupts.
pub closed_stays_closed :
    (config : Config) (paths : Paths) (db : Storage) (m n : SessionManager) (id : Text)
    → Steps (new config paths db) m
    → HasClosed id m
    → Steps m n
    → HasClosed id n
closed_stays_closed config paths db m n id start closed steps =
    (Steps-Keeps steps (Steps-AllConsistent config paths db m start)).closed id closed
