-- ===== src/Session/Exec/Outcome.antt =====
-- crates/session/src/lib.rs: what `start_exec` and `run_exec` report and leave.
use ai_ssh.Base.{
  ℕ, ◌≡◌, ◌≢◌, ◌⊎◌, refl, ap, sym, subst, ◌∙◌, true, false, not, ◌&&◌, List, [], ◌∷◌, ◌++◌, Option,
  none, some, arith, inl, inr,
}
use ai_ssh.Base.Tests.{is_some, ◌==◌, Bool-cases, Option-cases}
use ai_ssh.Base.Lists.{find}
use ai_ssh.Base.Text.{Text, text_eq_refl}
use ai_ssh.Base.Result.{ok, err, Result-cases}
use ai_ssh.Config.Types.{Config}
use ai_ssh.Protocol.Types.{CommandInfo, CommandStatus, SessionStatus}
use ai_ssh.Protocol.Messages.{ApiResult}
use ai_ssh.Ssh.Command.{build_command}
use ai_ssh.Ssh.Channel.{ChannelEvent}
use ai_ssh.Storage.Tables.{Storage, StorageError}
use ai_ssh.Storage.Sessions.{upsert_session}
use ai_ssh.Storage.Commands.{command, command_is, insert_command}
use ai_ssh.Session.Errors.{channel_end_status, internal}
use ai_ssh.Session.Runtime.{Connection, Foreground, SessionRuntime}
use ai_ssh.Session.Connect.{Shared, connection_for}
use ai_ssh.Session.Exec.{
  ExecRequest, Outside, ExecInput, Timed, Ended, new_command, enter_command, after_open, open_exec,
  start_on, ending, exit_after, take_input, exec_loop,
}

-- The status of an ended command and its exit code agree: it completed with exit code 0, failed with
-- another exit code, or was interrupted without one; or it was cancelled, or ran out of time.
abbrev pub StatusAgrees : Ended → Type 0
StatusAgrees e =
    ((e.status ≡ CommandStatus.completed) × (e.exit ≡ some 0))
    ⊎ (((code : ℕ) × (e.status ≡ CommandStatus.failed) × (e.exit ≡ some code) × (code ≢ 0))
        ⊎ (((e.status ≡ CommandStatus.interrupted) × (e.exit ≡ none))
            ⊎ ((e.status ≡ CommandStatus.cancelled) ⊎ (e.status ≡ CommandStatus.timed_out))))

ended_by_channel :
    (exit : Option ℕ) → StatusAgrees (record { status = channel_end_status exit; exit = exit })
unfolding channel_end_status
ended_by_channel none = inr (inr (inl (refl, refl)))
ended_by_channel (some code) = elim (Bool-cases (code == 0)) [
  | inl zero_code ↦ inl (ground arith, ground arith)
  | inr other ↦ inr (inl (code, ground arith, refl, ground arith))
]

ending_agrees :
    (exit : Option ℕ) (i : ExecInput) (status : CommandStatus)
    → ending exit i ≡ some status
    → StatusAgrees (record { status = status; exit = exit })
unfolding ending
ending_agrees exit ExecInput.cancelled status h = inr (inr (inr (inl (ground arith))))
ending_agrees exit ExecInput.deadline status h = inr (inr (inr (inr (ground arith))))
ending_agrees exit (ExecInput.channel none) status h =
    subst (λ s. StatusAgrees (record { status = s; exit = exit })) (cc) (ended_by_channel exit)
ending_agrees exit (ExecInput.channel (some ChannelEvent.close)) status h =
    subst (λ s. StatusAgrees (record { status = s; exit = exit })) (cc) (ended_by_channel exit)
ending_agrees exit (ExecInput.channel (some (ChannelEvent.bytes d))) status h = cc
ending_agrees exit (ExecInput.channel (some (ChannelEvent.extended_data d))) status h = cc
ending_agrees exit (ExecInput.channel (some (ChannelEvent.exit_status code))) status h = cc
ending_agrees exit (ExecInput.channel (some ChannelEvent.eof)) status h = cc

-- However the loop of a command ends, its status and its exit code agree.
pub exec_loop-StatusAgrees :
    (id : Text) (ts : List Timed) (exit : Option ℕ) (shared : Shared) (e : Ended)
    → (exec_loop id ts exit shared).0 ≡ some e
    → StatusAgrees e
unfolding exec_loop
exec_loop-StatusAgrees id [] exit shared e h = cc
exec_loop-StatusAgrees id (t ∷ ts) exit shared e h = elim (Option-cases (ending exit t.input)) [
  | inl goes_on ↦
      exec_loop-StatusAgrees id ts (exit_after t.input exit) (take_input id t shared) e
        (ground arith)
  | inr (status, ends) ↦
      let same : record { status = status; exit = exit } ≡ e = ground arith in
      subst StatusAgrees same (ending_agrees exit t.input status ends)
]

find_at_end :
    (c : CommandInfo) (cs : List CommandInfo)
    → find (command_is c.id) cs ≡ none
    → find (command_is c.id) (cs ++ c ∷ []) ≡ some c
find_at_end c [] h = ground (arith, text_eq_refl c.id)
find_at_end c (d ∷ cs) h = ground (arith, find_at_end c cs)

-- A new row is found.
command-insert :
    (c : CommandInfo) (db after : Storage)
    → insert_command c db ≡ ok after
    → command c.id after ≡ some c
unfolding insert_command command
command-insert c db after h = elim (Option-cases (find (command_is c.id) db.commands)) [
  | inl fresh ↦
      let here : after.commands ≡ db.commands ++ c ∷ [] = ground arith in
      rw here (find_at_end c db.commands fresh)
  | inr (other, found) ↦ absurd (ground arith)
]

-- A command that has been started: it has a row that says that it runs; and unless it runs in the
-- background, it holds the foreground of its session, whose status says so.
abbrev pub IsStarted : ExecRequest → CommandInfo → Shared → Type 0
IsStarted q c (rt, db) =
    (command c.id db ≡ some c)
    × (c.status ≡ CommandStatus.running)
    × ((q.background ≡ true)
        ⊎ ((rt.foreground ≡ some (Foreground.exec c.id))
            × (rt.info.status ≡ SessionStatus.exec_running)))

enter_command-IsStarted :
    (o : Outside) (q : ExecRequest) (rt : SessionRuntime) (db : Storage)
    → command o.uuid db ≡ some (new_command o q)
    → IsStarted q (new_command o q) (enter_command o q (rt, db))
unfolding enter_command new_command command upsert_session
enter_command-IsStarted o q rt db h = ground arith

pub after_open_stored :
    (o : Outside) (q : ExecRequest) (rt : SessionRuntime) (db stored : Storage)
    → insert_command (new_command o q) db ≡ ok stored
    → after_open o q (rt, db) ≡ (ok (new_command o q), enter_command o q (rt, stored))
unfolding after_open
after_open_stored o q rt db stored h = rw (h, after_open) refl

pub after_open_refused :
    (o : Outside) (q : ExecRequest) (rt : SessionRuntime) (db : Storage) (e : StorageError)
    → insert_command (new_command o q) db ≡ err e
    → after_open o q (rt, db) ≡ (err (internal e), (rt, db))
unfolding after_open
after_open_refused o q rt db e h = rw (h, after_open) refl

after_open-IsStarted :
    (o : Outside) (q : ExecRequest) (rt : SessionRuntime) (db : Storage) (c : CommandInfo)
    → (after_open o q (rt, db)).0 ≡ ok c
    → IsStarted q c (after_open o q (rt, db)).1
unfolding new_command
after_open-IsStarted o q rt db c h = elim (Result-cases (insert_command (new_command o q) db)) [
  | inl (stored, inserted) ↦
      let result = after_open_stored o q rt db stored inserted in
      let row : command o.uuid stored ≡ some (new_command o q) =
        command-insert (new_command o q) db stored inserted in
      let answer : ok (new_command o q) ≡ ok c = sym (ap (λ r. r.0) result) ∙ h in
      let same : new_command o q ≡ c = cc in
      let left : (after_open o q (rt, db)).1 ≡ enter_command o q (rt, stored) =
        ap (λ r. r.1) result in
      subst (λ d. IsStarted q d (after_open o q (rt, db)).1) same
        (subst (IsStarted q (new_command o q)) (sym left)
          (enter_command-IsStarted o q rt stored row))
  | inr (e, refused) ↦
      let answer : err (internal e) ≡ ok c =
        sym (ap (λ r. r.0) (after_open_refused o q rt db e refused)) ∙ h in
      cc
]

pub open_exec_opened :
    (o : Outside) (q : ExecRequest) (connection : Connection) (shared : Shared) (u : Unit {0})
    → o.opens ≡ ok u
    → open_exec o q (ok connection, shared) ≡ after_open o q shared
unfolding open_exec
open_exec_opened o q connection shared u h = rw (h, open_exec) refl

open_exec-IsStarted :
    (o : Outside) (q : ExecRequest) (r : ApiResult Connection × Shared) (c : CommandInfo)
    → (open_exec o q r).0 ≡ ok c
    → IsStarted q c (open_exec o q r).1
unfolding open_exec
open_exec-IsStarted o q (err failed, shared) c h = cc
open_exec-IsStarted o q (ok connection, (rt, db)) c h = elim (Result-cases o.opens) [
  | inl (u, opened) ↦
      let same = open_exec_opened o q connection (rt, db) u opened in
      subst (λ r. IsStarted q c r.1) (sym same)
        (after_open-IsStarted o q rt db c (sym (ap (λ r. r.0) same) ∙ h))
  | inr (e, failed) ↦ absurd (ground arith)
]

pub started_on :
    (config : Config) (o : Outside) (q : ExecRequest) (rt : SessionRuntime) (db : Storage)
    → (not q.background && is_some rt.foreground) ≡ false
    → (remote : Text) → build_command o.debug q.command q.cwd q.env ≡ ok remote
    → start_on config o q (rt, db) ≡ open_exec o q (connection_for o.now config o.dial (rt, db))
unfolding start_on
started_on config o q rt db idle remote built = rw (idle, start_on) (rw built refl)

-- If a command is started, the answer is its row, which says that it runs. A command that is not to
-- run in the background found the foreground of its session free, and holds it now.
pub start_on-IsStarted :
    (config : Config) (o : Outside) (q : ExecRequest) (rt : SessionRuntime) (db : Storage)
    (c : CommandInfo)
    → (start_on config o q (rt, db)).0 ≡ ok c
    → IsStarted q c (start_on config o q (rt, db)).1
      × ((q.background ≡ true) ⊎ (rt.foreground ≡ none))
unfolding start_on
start_on-IsStarted config o q rt db c h =
    elim (Bool-cases (not q.background && is_some rt.foreground)) [
      | inl taken ↦ absurd (ground arith)
      | inr idle ↦ elim (Result-cases (build_command o.debug q.command q.cwd q.env)) [
        | inl (remote, built) ↦
            let same = started_on config o q rt db idle remote built in
            let result = sym (ap (λ r. r.0) same) ∙ h in
            (
              subst (λ r. IsStarted q c r.1) (sym same)
                  (open_exec-IsStarted o q (connection_for o.now config o.dial (rt, db)) c result),
              ground arith,
            )
        | inr (e, refused) ↦ absurd (ground arith)
      ]
    ]
