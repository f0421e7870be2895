-- ===== src/Session/Evolves.antt =====
-- crates/session/src/lib.rs: what no operation on a session may break: a closed session holds no
-- connection and runs nothing, and it stays closed.
pub mod Reads
use ai_ssh.Base.{
  subst, sym, not, ◌&&◌, ◌⊎◌, ℕ, ◌≡◌, refl, ◌∙◌, Bool, true, false, List, [], Option, none, arith,
  inl, inr,
}
use ai_ssh.Base.Tests.{Bool-cases}
use ai_ssh.Base.Text.{Text}
use ai_ssh.Base.Result.{Result, ok, err}
use ai_ssh.Config.Types.{Config}
use ai_ssh.Protocol.Types.{StreamKind, is_closed, CommandInfo}
use ai_ssh.Protocol.Messages.{ApiResult}
use ai_ssh.Storage.Tables.{Storage}
use ai_ssh.Session.Runtime.{Connection, SessionRuntime}
use ai_ssh.Session.Record.{record_event, keep_live}
use ai_ssh.Session.Connect.{Shared, Dial, reconnected, connection_for}
use ai_ssh.Session.Exec.{ExecRequest, Outside, Ended, open_exec, start_on, finish_exec}
use ai_ssh.Session.Shell.{
  ShellOutside, open_pty, enter_shell, shell_open_on, finish_pty, shell_write_on, shell_close_on,
}
use ai_ssh.Session.Lifecycle.{close_on}
use ai_ssh.Session.Files.{
  WriteRequest, Host, open_sftp, sftp_channel, is_digest, after_channel, write_connected,
}

-- A closed session has given back all it held.
abbrev pub IsConsistent : SessionRuntime → Type 0
IsConsistent rt =
    (is_closed rt.info.status ≡ false)
    ⊎ ((rt.connection ≡ none) × (rt.foreground ≡ none) × (rt.background ≡ []))

-- What an operation leaves of a session: the same session, consistent, and closed if it was closed.
abbrev pub Evolves : SessionRuntime → SessionRuntime → Type 0
Evolves a b =
    (b.session_id ≡ a.session_id)
    × IsConsistent b
    × ((is_closed a.info.status ≡ false) ⊎ (is_closed b.info.status ≡ true))

pub Evolves-trans : (a b c : SessionRuntime) → Evolves a b → Evolves b c → Evolves a c
Evolves-trans a b c p q = (q.0 ∙ p.0, q.1, ground arith)

module _ (rt : SessionRuntime) (db : Storage) (ok_before : IsConsistent rt) where
  pub Evolves-refl : Evolves rt rt
  Evolves-refl = (refl, ok_before, ground arith)

  pub record_event-Evolves :
      (now instant : ℕ) (id : Option Text) (stream : StreamKind) (d : List ℕ)
      → Evolves rt (record_event now instant id stream d (rt, db)).0
  unfolding record_event keep_live
  record_event-Evolves now instant id stream d = ground arith

  pub close_on-Evolves : (now : ℕ) → Evolves rt (close_on now (rt, db)).1.0
  unfolding close_on is_closed
  close_on-Evolves now = ground arith

  pub shell_close_on-Evolves :
      (closes : Result Text (Unit {0})) → Evolves rt (shell_close_on closes (rt, db)).1.0
  unfolding shell_close_on
  shell_close_on-Evolves closes = ground arith

  pub shell_write_on-Evolves :
      (instant : ℕ) (wrote : Result Text (Unit {0}))
      → Evolves rt (shell_write_on instant wrote (rt, db)).1.0
  unfolding shell_write_on
  shell_write_on-Evolves instant wrote = ground arith

  pub finish_pty-Evolves : (now : ℕ) (id : Text) → Evolves rt (finish_pty now id (rt, db)).0
  unfolding finish_pty
  finish_pty-Evolves now id = ground arith

  pub finish_exec-Evolves :
      (now instant : ℕ) (background : Bool) (c : CommandInfo) (ended : Ended)
      → Evolves rt (finish_exec now instant background c ended (rt, db)).0
  unfolding finish_exec
  finish_exec-Evolves now instant background c ended = ground arith

  pub connection_for-Evolves :
      (now : ℕ) (config : Config) (dial : Dial)
      → Evolves rt (connection_for now config dial (rt, db)).1.0
  unfolding connection_for
  connection_for-Evolves now config dial = ground arith

  -- A closed session does not get a connection.
  pub connection_for_closed :
      (now : ℕ) (config : Config) (dial : Dial)
      → is_closed rt.info.status ≡ true
      → (elim (connection_for now config dial (rt, db)).0 [ ok _ ↦ false | err _ ↦ true ]) ≡ true
  unfolding connection_for
  connection_for_closed now config dial closed = ground arith

  connection_for_open :
      (now : ℕ) (config : Config) (dial : Dial)
      → is_closed rt.info.status ≡ false
      → is_closed (connection_for now config dial (rt, db)).1.0.info.status ≡ false
  unfolding connection_for is_closed reconnected
  connection_for_open now config dial h = ground arith

-- Whether a session may go on from a connection to open a channel on it.
abbrev MayOpen : ApiResult Connection × Shared → Type 0
MayOpen (err failed, shared) = Unit
MayOpen (ok connection, shared) = is_closed shared.0.info.status ≡ false

module _ (r : ApiResult Connection × Shared) (consistent : IsConsistent r.1.0)
    (may : MayOpen r) where
  pub open_exec-Evolves : (o : Outside) (q : ExecRequest) → Evolves r.1.0 (open_exec o q r).1.0
  unfolding open_exec is_closed
  open_exec-Evolves o q = ground arith

  pub open_pty-Evolves :
      (o : ShellOutside) (cols rows : ℕ) (term : Text)
      → Evolves r.1.0 (open_pty o cols rows term r).1.0
  unfolding open_pty enter_shell is_closed
  open_pty-Evolves o cols rows term = ground arith

may_open :
    (r : ApiResult Connection × Shared)
    → (is_closed r.1.0.info.status ≡ false) ⊎ ((elim r.0 [ ok _ ↦ false | err _ ↦ true ]) ≡ true)
    → MayOpen r
may_open (err failed, shared) h = tt
may_open (ok connection, shared) h = ground arith

module _ (rt : SessionRuntime) (db : Storage) (ok_before : IsConsistent rt) where
  connection_for-MayOpen :
      (now : ℕ) (config : Config) (dial : Dial) → MayOpen (connection_for now config dial (rt, db))
  connection_for-MayOpen now config dial =
      may_open (connection_for now config dial (rt, db))
        (elim (Bool-cases (is_closed rt.info.status)) [
          | inl closed ↦ inr (connection_for_closed rt db ok_before now config dial closed)
          | inr alive ↦ inl (connection_for_open rt db ok_before now config dial alive)
        ])

  pub start_on-Evolves :
      (config : Config) (o : Outside) (q : ExecRequest)
      → Evolves rt (start_on config o q (rt, db)).1.0
  unfolding start_on
  start_on-Evolves config o q =
      let r = connection_for o.now config o.dial (rt, db) in
      let first = connection_for-Evolves rt db ok_before o.now config o.dial in
      let second = open_exec-Evolves r first.1 (connection_for-MayOpen o.now config o.dial) o q in
      ground (arith, Evolves-trans rt r.1.0 (open_exec o q r).1.0 first second)

  pub shell_open_on-Evolves :
      (config : Config) (o : ShellOutside) (cols rows : ℕ) (term : Text)
      → Evolves rt (shell_open_on config o cols rows term (rt, db)).1.0
  unfolding shell_open_on
  shell_open_on-Evolves config o cols rows term =
      let r = connection_for o.now config o.dial (rt, db) in
      let first = connection_for-Evolves rt db ok_before o.now config o.dial in
      let second =
        open_pty-Evolves r first.1 (connection_for-MayOpen o.now config o.dial) o cols rows term in
      ground (arith, Evolves-trans rt r.1.0 (open_pty o cols rows term r).1.0 first second)

open_sftp-Evolves :
    (opens : Result Text (Unit {0})) (r : ApiResult Connection × Shared)
    → IsConsistent r.1.0
    → Evolves r.1.0 (open_sftp opens r).1.0
unfolding open_sftp
open_sftp-Evolves opens (err failed, shared) ok_before = Evolves-refl shared.0 shared.1 ok_before
open_sftp-Evolves (ok _) (ok connection, shared) ok_before =
    Evolves-refl shared.0 shared.1 ok_before
open_sftp-Evolves (err failed) (ok connection, shared) ok_before = ground arith

pub sftp_channel-Evolves :
    (now : ℕ) (config : Config) (dial : Dial) (opens : Result Text (Unit {0})) (rt : SessionRuntime)
    (db : Storage)
    → IsConsistent rt
    → Evolves rt (sftp_channel now config dial opens (rt, db)).1.0
unfolding sftp_channel
sftp_channel-Evolves now config dial opens rt db ok_before =
    let r = connection_for now config dial (rt, db) in
    let first = connection_for-Evolves rt db ok_before now config dial in
    Evolves-trans rt r.1.0 (open_sftp opens r).1.0 first (open_sftp-Evolves opens r first.1)

after_channel_same :
    (h : Host) (q : WriteRequest) (c : ApiResult (Unit {0}) × Shared)
    → (after_channel h q c).1 ≡ c.1
after_channel_same h q (err failed, shared) = refl
after_channel_same h q (ok _, shared) = refl

write_connected-Evolves :
    (config : Config) (h : Host) (q : WriteRequest) (r : ApiResult Connection × Shared)
    → IsConsistent r.1.0
    → Evolves r.1.0 (write_connected config h q r).1.0
unfolding write_connected
write_connected-Evolves config h q (err failed, shared) ok_before =
    Evolves-refl shared.0 shared.1 ok_before
write_connected-Evolves config h q (ok connection, (rt, db)) ok_before =
    let same = (q.if_changed && not q.append) && is_digest (h.sha256 q.contents) h.before in
    let channel = sftp_channel h.now config h.dial h.opens (rt, db) in
    elim (Bool-cases same) [
      | inl unchanged ↦ rw (unchanged, write_connected) (Evolves-refl rt db ok_before)
      | inr differs ↦ elim (Bool-cases q.sudo) [
        | inl privileged ↦
            rw (differs, write_connected) (rw privileged (Evolves-refl rt db ok_before))
        | inr plain ↦
            rw (differs, write_connected)
              (rw plain (
                subst (λ s. Evolves rt s.0) (sym (after_channel_same h q channel))
                  (sftp_channel-Evolves h.now config h.dial h.opens rt db ok_before)))
      ]
    ]

pub file_write-Evolves :
    (config : Config) (h : Host) (q : WriteRequest) (rt : SessionRuntime) (db : Storage)
    → IsConsistent rt
    → Evolves rt (write_connected config h q (connection_for h.now config h.dial (rt, db))).1.0
file_write-Evolves config h q rt db ok_before =
    let r = connection_for h.now config h.dial (rt, db) in
    let first = connection_for-Evolves rt db ok_before h.now config h.dial in
    Evolves-trans rt r.1.0 (write_connected config h q r).1.0 first
      (write_connected-Evolves config h q r first.1)
