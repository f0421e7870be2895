-- ===== src/Session/Evolves/Reads.antt =====
-- crates/session/src/lib.rs: what `file_read` and `shell_resize` leave of a session.
use ai_ssh.Base.{ℕ, Bool, true, false, arith}
use ai_ssh.Base.Text.{Text}
use ai_ssh.Base.Result.{Result, ok, err}
use ai_ssh.Config.Types.{Config}
use ai_ssh.Protocol.Messages.{ApiResult}
use ai_ssh.Storage.Tables.{Storage}
use ai_ssh.Session.Runtime.{Connection, SessionRuntime}
use ai_ssh.Session.Connect.{Shared, connection_for}
use ai_ssh.Session.Shell.{shell_resize_on}
use ai_ssh.Session.Transfers.{ReadHost, read_connected}
use ai_ssh.Session.Evolves.{
  IsConsistent, Evolves, Evolves-refl, Evolves-trans, connection_for-Evolves, sftp_channel-Evolves,
}

read_connected-Evolves :
    (config : Config) (h : ReadHost) (path : Text) (limit : ℕ) (sudo : Bool)
    (r : ApiResult Connection × Shared)
    → IsConsistent r.1.0
    → Evolves r.1.0 (read_connected config h path limit sudo r).1.0
unfolding read_connected
read_connected-Evolves config h path limit sudo (err failed, (rt, db)) ok_before =
    Evolves-refl rt db ok_before
read_connected-Evolves config h path limit true (ok connection, (rt, db)) ok_before =
    Evolves-refl rt db ok_before
read_connected-Evolves config h path limit false (ok connection, (rt, db)) ok_before =
    sftp_channel-Evolves h.second.now config h.second.dial h.second.opens rt db ok_before

pub file_read-Evolves :
    (config : Config) (h : ReadHost) (path : Text) (limit : ℕ) (sudo : Bool) (rt : SessionRuntime)
    (db : Storage)
    → IsConsistent rt
    → Evolves rt
        (read_connected config h path limit sudo
          (connection_for h.first.now config h.first.dial (rt, db))).1.0
file_read-Evolves config h path limit sudo rt db ok_before =
    let r = connection_for h.first.now config h.first.dial (rt, db) in
    let first = connection_for-Evolves rt db ok_before h.first.now config h.first.dial in
    Evolves-trans rt r.1.0 (read_connected config h path limit sudo r).1.0 first
      (read_connected-Evolves config h path limit sudo r first.1)

pub shell_resize_on-Evolves :
    (resizes : ℕ × ℕ → Result Text (Unit {0})) (cols rows : ℕ) (rt : SessionRuntime) (db : Storage)
    → IsConsistent rt
    → Evolves rt (shell_resize_on resizes cols rows (rt, db)).1.0
unfolding shell_resize_on
shell_resize_on-Evolves resizes cols rows rt db ok_before =
    ground (arith, Evolves-refl rt db ok_before)
