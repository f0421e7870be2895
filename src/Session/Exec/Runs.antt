-- ===== src/Session/Exec/Runs.antt =====
-- crates/session/src/lib.rs: a command that `start_exec` has started runs in its session.
use ai_ssh.Base.{◌≡◌, ap, sym, subst, ◌∙◌, Bool, true, not, ◌&&◌, ◌||◌, arith, inl, inr}
use ai_ssh.Base.Tests.{is_some, Bool-cases}
use ai_ssh.Base.Text.{Text, text_eq_refl}
use ai_ssh.Base.Result.{ok, err, Result-cases}
use ai_ssh.Config.Types.{Config}
use ai_ssh.Protocol.Types.{CommandInfo}
use ai_ssh.Protocol.Messages.{ApiResult}
use ai_ssh.Ssh.Command.{build_command}
use ai_ssh.Storage.Tables.{Storage}
use ai_ssh.Storage.Commands.{insert_command}
use ai_ssh.Session.Errors.{internal}
use ai_ssh.Session.Runtime.{Connection, SessionRuntime}
use ai_ssh.Session.Connect.{Shared, connection_for}
use ai_ssh.Session.Exec.{
  ExecRequest, Outside, is_exec, new_command, enter_command, after_open, open_exec, start_on,
}
use ai_ssh.Session.Exec.Outcome.{
  after_open_stored, after_open_refused, open_exec_opened, started_on,
}
use ai_ssh.Session.Lifecycle.{runs_behind}

-- The session runs the command, in front or behind.
abbrev pub runs : Text → SessionRuntime → Bool
runs id rt = is_exec id rt.foreground || runs_behind id rt

enter_command-runs :
    (o : Outside) (q : ExecRequest) (rt : SessionRuntime) (db : Storage)
    → runs o.uuid (enter_command o q (rt, db)).0 ≡ true
unfolding enter_command
enter_command-runs o q rt db = ground (arith, text_eq_refl o.uuid)

after_open-runs :
    (o : Outside) (q : ExecRequest) (rt : SessionRuntime) (db : Storage) (c : CommandInfo)
    → (after_open o q (rt, db)).0 ≡ ok c
    → runs c.id (after_open o q (rt, db)).1.0 ≡ true
unfolding new_command
after_open-runs o q rt db c h = elim (Result-cases (insert_command (new_command o q) db)) [
  | inl (stored, inserted) ↦
      let result = after_open_stored o q rt db stored inserted in
      let answer : ok (new_command o q) ≡ ok c = sym (ap (λ r. r.0) result) ∙ h in
      let same : new_command o q ≡ c = cc in
      let left : (after_open o q (rt, db)).1 ≡ enter_command o q (rt, stored) =
        ap (λ r. r.1) result in
      subst (λ d. runs d.id (after_open o q (rt, db)).1.0 ≡ true) same
        (subst (λ s. runs o.uuid s.0 ≡ true) (sym left) (enter_command-runs o q rt stored))
  | inr (e, refused) ↦
      let answer : err (internal e) ≡ ok c =
        sym (ap (λ r. r.0) (after_open_refused o q rt db e refused)) ∙ h in
      cc
]

open_exec-runs :
    (o : Outside) (q : ExecRequest) (r : ApiResult Connection × Shared) (c : CommandInfo)
    → (open_exec o q r).0 ≡ ok c
    → runs c.id (open_exec o q r).1.0 ≡ true
unfolding open_exec
open_exec-runs o q (err failed, shared) c h = cc
open_exec-runs o q (ok connection, (rt, db)) c h = elim (Result-cases o.opens) [
  | inl (u, opened) ↦
      let same = open_exec_opened o q connection (rt, db) u opened in
      subst (λ r. runs c.id r.1.0 ≡ true) (sym same)
        (after_open-runs o q rt db c (sym (ap (λ r. r.0) same) ∙ h))
  | inr (e, failed) ↦ absurd (ground arith)
]

pub start_on-runs :
    (config : Config) (o : Outside) (q : ExecRequest) (rt : SessionRuntime) (db : Storage)
    (c : CommandInfo)
    → (start_on config o q (rt, db)).0 ≡ ok c
    → runs c.id (start_on config o q (rt, db)).1.0 ≡ true
unfolding start_on
start_on-runs config o q rt db c h = elim (Bool-cases (not q.background && is_some rt.foreground)) [
  | inl taken ↦ absurd (ground arith)
  | inr idle ↦ elim (Result-cases (build_command o.debug q.command q.cwd q.env)) [
    | inl (remote, built) ↦
        let same = started_on config o q rt db idle remote built in
        subst (λ r. runs c.id r.1.0 ≡ true) (sym same)
          (open_exec-runs o q (connection_for o.now config o.dial (rt, db)) c
            (sym (ap (λ r. r.0) same) ∙ h))
    | inr (e, refused) ↦ absurd (ground arith)
  ]
]
