-- ===== src/Daemon/Serve.antt =====
-- apps/daemon/src/main.rs: `serve_client`, on the bytes that the client sends and to those that the
-- daemon writes. The loop has fuel.
pub mod Answers
pub mod Ends
use ai_ssh.Base.{ℕ, zero, suc, Bool, true, false, ◌++◌, []}
use ai_ssh.Base.Tests.{if◌then◌else◌}
use ai_ssh.Base.Text.{Text, codes}
use ai_ssh.Base.Result.{Result, ok, err}
use ai_ssh.Protocol.Messages.{RequestFrame, Response}
use ai_ssh.Protocol.Frames.{Bytes, Codec, IoError, write_frame, read_frame}
use ai_ssh.Daemon.Service.{Service, Handled, handle}

-- Why the loop ended: the client is gone, it asked the daemon to stop, the stream failed, or the fuel
-- is used up.
pub data Ending : Type 0 where
  finished stopped : Ending
  failed : IoError → Ending
  out_of_fuel : Ending

pub record Served (S : Type 0) : Type 0 where
  pub written : Bytes
  pub client_name : Text
  pub state : S
  pub ending : Ending

abbrev pub ended : {S : Type 0} → Ending → Text → S → Served S
ended ending client s = record { written = []; client_name = client; state = s; ending = ending }

abbrev pub after_writing : {S : Type 0} → Bytes → Served S → Served S
after_writing bytes served = record served { written = bytes ++ served.written }

-- The name of a client that gave none.
abbrev pub unknown_client : Text
unknown_client = codes "unknown"

-- The end of the stream is no failure.
abbrev pub read_failed : IoError → Ending
read_failed IoError.unexpected_eof = Ending.finished
read_failed e = Ending.failed e

abbrev pub response_to : {S : Type 0} → RequestFrame → Handled S → Response
response_to frame handled = record { request_id = frame.request_id; result = handled.result }

module _ {S : Type 0} (service : Service S) (requests : Codec RequestFrame)
    (responses : Codec Response) where
  unfoldable pub serve_client : (fuel : ℕ) → (client_name : Text) → S → Bytes → Served S
  serve_client zero client s stream = ended Ending.out_of_fuel client s
  serve_client (suc fuel) client s stream = elim (read_frame requests stream) [
    | err e ↦ ended (read_failed e) client s
    | ok (frame, rest) ↦
        let handled : Handled S = handle service frame.request client s in
        elim (write_frame responses (response_to frame handled)) [
          | err e ↦ ended (Ending.failed e) handled.client_name handled.state
          | ok bytes ↦ elim handled.shutdown_requested [
            | true ↦ after_writing bytes (ended Ending.stopped handled.client_name handled.state)
            | false ↦ after_writing bytes (serve_client fuel handled.client_name handled.state rest)
          ]
        ]
  ]
