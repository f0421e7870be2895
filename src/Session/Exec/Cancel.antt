-- ===== src/Session/Exec/Cancel.antt =====
-- crates/session/src/lib.rs: `command_cancel` on a command that `start_exec` has started, and on one
-- whose session had a `shell_close`.
use ai_ssh.Base.{
  ◌≡◌, ◌⊎◌, refl, ap, sym, ◌∙◌, true, false, List, [], ◌∷◌, none, some, arith, inl, inr,
}
use ai_ssh.Base.Tests.{if◌then◌else◌, is_some, Bool-cases, Option-cases}
use ai_ssh.Base.Lists.{All, find, find-All, is_empty}
use ai_ssh.Base.Text.{Text, text_eq, text_eq_refl, text_eq_iff, trim}
use ai_ssh.Base.Result.{Result, ok, err}
use ai_ssh.Protocol.Types.{CommandInfo}
use ai_ssh.Protocol.Messages.{ApiResult, error_with}
use ai_ssh.Storage.Tables.{update_where}
use ai_ssh.Session.Errors.{clearly_interactive, session_not_found}
use ai_ssh.Session.Runtime.{
  Foreground, SessionRuntime, SessionManager, runtime_is, lookup, put_runtime,
}
use ai_ssh.Session.Connect.{Shared, on_runtime}
use ai_ssh.Session.Exec.{ExecRequest, Outside, start_on, start_exec}
use ai_ssh.Session.Shell.{shell_close, shell_close_on, pty_not_open}
use ai_ssh.Session.Exec.Runs.{runs, start_on-runs}
use ai_ssh.Session.Lifecycle.{runs_behind, cancel_in, command_cancel}
use ai_ssh.Session.Evolves.{IsConsistent, start_on-Evolves}
use ai_ssh.Session.Steps.Closed.{AllConsistent}

-- Some session runs the command and has its token cancelled.
abbrev pub IsCancelled : Text → List SessionRuntime → Type 0
IsCancelled id [] = ⊥
IsCancelled id (rt ∷ rts) =
    ((runs id rt ≡ true) × (is_some (find (λ other. text_eq other id) rt.cancelled) ≡ true))
    ⊎ IsCancelled id rts

-- Where a session runs the command, the loop of `command_cancel` finds one that does.
cancel_in-IsCancelled :
    (id s : Text) (new : SessionRuntime) (rts : List SessionRuntime)
    → runs id new ≡ true
    → is_some (find (runtime_is s) rts) ≡ true
    → (after : List SessionRuntime) × (cancel_in id (update_where (runtime_is s) (λ _. new) rts)
        ≡ some after)
      × IsCancelled id after
unfolding cancel_in update_where
cancel_in-IsCancelled id s new [] running h = cc
cancel_in-IsCancelled id s new (rt ∷ rts) running h =
    let now = if runtime_is s rt then new else rt in
    elim (Bool-cases (runs id now)) [
      | inl hit ↦ (
        record now { cancelled = id ∷ now.cancelled } ∷ update_where (runtime_is s) (λ _. new) rts,
        rw (hit, cancel_in) refl,
        inl (hit, ground (arith, text_eq_refl id)),
      )
      | inr miss ↦ elim (Bool-cases (runtime_is s rt)) [
        | inl here ↦ absurd (ground arith)
        | inr there ↦
            let (after, cancels, marked) =
              cancel_in-IsCancelled id s new rts running (ground arith) in
            (now ∷ after, rw (miss, cancel_in) (rw cancels refl), inr marked)
      ]
    ]

cancel_refuses :
    (id : Text) (m : SessionManager)
    → cancel_in id m.sessions ≡ none
    → command_cancel id m ≡ (
      err (error_with "COMMAND_NOT_RUNNING" "command {command_id:?} is not running" (id ∷ [])),
      m,
    )
unfolding command_cancel
cancel_refuses id m h = rw (h, command_cancel) refl

-- What `command_cancel` gives where the loop finds the command.
cancel_answers :
    (id : Text) (m : SessionManager) (after : List SessionRuntime)
    → cancel_in id m.sessions ≡ some after
    → command_cancel id m ≡ (ok tt, record m { sessions = after })
unfolding command_cancel
cancel_answers id m after h = rw (h, command_cancel) refl

everywhere : (rts : List SessionRuntime) → All (λ r. Unit {0}) rts
everywhere [] = tt
everywhere (r ∷ rts) = (tt, everywhere rts)

-- The answer of an operation on a session, and what it leaves of the sessions.
on_runtime_found :
    {A : Type 0} (s : Text) (f : Shared → ApiResult A × Shared) (m : SessionManager)
    (rt : SessionRuntime)
    → find (runtime_is s) m.sessions ≡ some rt
    → (f (rt, m.storage)).1.0.session_id ≡ rt.session_id
    → ((on_runtime s f m).0 ≡ (f (rt, m.storage)).0)
      × ((on_runtime s f m).1.sessions
          ≡ update_where (runtime_is s) (λ _. (f (rt, m.storage)).1.0) m.sessions)
      × ((on_runtime s f m).1.storage ≡ (f (rt, m.storage)).1.1)
unfolding on_runtime lookup put_runtime
on_runtime_found s f m rt found same =
    let its =
      (find-All (λ r. Unit {0}) (runtime_is s) m.sessions rt found (everywhere m.sessions)).1 in
    let key : (f (rt, m.storage)).1.0.session_id ≡ s = same ∙ (text_eq_iff rt.session_id s).0 its in
    rw (found, on_runtime)
      (
        refl,
        ap (λ k. update_where (runtime_is k) (λ _. (f (rt, m.storage)).1.0) m.sessions) key,
        refl,
      )

on_runtime_missing :
    {A : Type 0} (s : Text) (f : Shared → ApiResult A × Shared) (m : SessionManager)
    → find (runtime_is s) m.sessions ≡ none
    → (on_runtime s f m).0 ≡ err (session_not_found s)
unfolding on_runtime lookup
on_runtime_missing s f m missing = rw (missing, on_runtime) refl

start_exec_taken :
    (o : Outside) (q : ExecRequest) (m : SessionManager) (c : CommandInfo)
    → (start_exec o q m).0 ≡ ok c
    → start_exec o q m ≡ on_runtime q.session_id (start_on m.config o q) m
unfolding start_exec
start_exec_taken o q m c h = elim (Bool-cases (is_empty (trim q.command))) [
  | inl empty ↦ absurd (ground arith)
  | inr some_text ↦ elim (Bool-cases (clearly_interactive q.command)) [
    | inl refused ↦ absurd (ground arith)
    | inr taken ↦ rw (some_text, start_exec) (rw taken refl)
  ]
]

-- In a manager whose sessions are consistent, as they are in every state that it reaches, a command that
-- `start_exec` has started, in front or in the background, can be cancelled: `command_cancel` answers
-- that it did, and a session that runs the command then has its token cancelled.
pub command_cancel-start_exec :
    (o : Outside) (q : ExecRequest) (m : SessionManager) (c : CommandInfo)
    → AllConsistent m
    → (start_exec o q m).0 ≡ ok c
    → ((command_cancel c.id (start_exec o q m).1).0 ≡ ok tt)
      × IsCancelled c.id (command_cancel c.id (start_exec o q m).1).1.sessions
unfolding lookup
command_cancel-start_exec o q m c consistent started =
    let taken = start_exec_taken o q m c started in
    let result : (on_runtime q.session_id (start_on m.config o q) m).0 ≡ ok c =
      sym (ap (λ r. r.0) taken) ∙ started in
    elim (Option-cases (find (runtime_is q.session_id) m.sessions)) [
      | inl missing ↦
          let answer =
            sym (on_runtime_missing q.session_id (start_on m.config o q) m missing) ∙ result in
          absurd (cc)
      | inr (rt, found) ↦
          let mine =
            (find-All IsConsistent (runtime_is q.session_id) m.sessions rt found consistent).0 in
          let parts =
            on_runtime_found q.session_id (start_on m.config o q) m rt found
              (start_on-Evolves rt m.storage mine m.config o q).0 in
          let running = start_on-runs m.config o q rt m.storage c (sym parts.0 ∙ result) in
          let (after, cancels, marked) =
            cancel_in-IsCancelled c.id q.session_id (start_on m.config o q (rt, m.storage)).1.0
              m.sessions running (rw found refl) in
          let answer =
            cancel_answers c.id (on_runtime q.session_id (start_on m.config o q) m).1 after
              (ap (cancel_in c.id) parts.1 ∙ cancels) in
          rw taken (rw answer (refl, marked))
    ]

-- The loop of `command_cancel` finds no command that runs in no session.
cancel_in_nowhere :
    (id s : Text) (new : SessionRuntime) (rts : List SessionRuntime)
    → runs id new ≡ false
    → All (λ rt. (runtime_is s rt ≡ true) ⊎ (runs id rt ≡ false)) rts
    → cancel_in id (update_where (runtime_is s) (λ _. new) rts) ≡ none
unfolding cancel_in update_where
cancel_in_nowhere id s new [] idle others = refl
cancel_in_nowhere id s new (rt ∷ rts) idle others =
    let rest = cancel_in_nowhere id s new rts idle others.1 in
    elim (Bool-cases (runtime_is s rt)) [
      | inl here ↦ rw (here, cancel_in) (rw (idle, cancel_in) (rw rest refl))
      | inr there ↦ elim others.0 [
        | inl same ↦ absurd (ground arith)
        | inr quiet ↦ rw (there, cancel_in) (rw (quiet, cancel_in) (rw rest refl))
      ]
    ]

-- After `shell_close` on a session that runs a command in front, and where no other session runs it:
-- the answer was that no PTY is open, the command's row is as it was, and `command_cancel` answers that
-- the command is not running and changes nothing.
pub command_cancel-shell_close :
    (closes : Result Text (Unit {0})) (s id : Text) (m : SessionManager) (rt : SessionRuntime)
    → lookup s m ≡ some rt
    → rt.foreground ≡ some (Foreground.exec id)
    → runs_behind id rt ≡ false
    → All (λ other. (runtime_is s other ≡ true) ⊎ (runs id other ≡ false)) m.sessions
    → ((shell_close closes s m).0 ≡ err pty_not_open)
      × ((shell_close closes s m).1.storage ≡ m.storage)
      × (command_cancel id (shell_close closes s m).1 ≡ (
        err (error_with "COMMAND_NOT_RUNNING" "command {command_id:?} is not running" (id ∷ [])),
        (shell_close closes s m).1,
      ))
unfolding shell_close lookup shell_close_on
command_cancel-shell_close closes s id m rt found front behind elsewhere =
    let parts = on_runtime_found s (shell_close_on closes) m rt found (rw front refl) in
    let idle : runs id (shell_close_on closes (rt, m.storage)).1.0 ≡ false = rw front behind in
    (
      parts.0 ∙ rw front refl,
      parts.2 ∙ rw front refl,
      cancel_refuses id (shell_close closes s m).1 (
          ap (cancel_in id) parts.1
          ∙ cancel_in_nowhere id s (shell_close_on closes (rt, m.storage)).1.0 m.sessions idle
              elsewhere),
    )
