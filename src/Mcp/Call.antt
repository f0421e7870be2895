-- ===== src/Mcp/Call.antt =====
-- apps/mcp-server/src/main.rs: `daemon_call`, which introduces the client to the daemon, sends one
-- request and takes the answer. The daemon is a function from all the bytes that were written to it to
-- all the bytes it has written back.
pub mod Answered
use ai_ssh.Base.{ℕ, ◌+◌, ◌-◌, ◌%◌, ◌^◌, List, [], ◌++◌, Option, none, some}
use ai_ssh.Base.Lists.{length, drop}
use ai_ssh.Base.Text.{Text}
use ai_ssh.Base.Result.{Result, ok, err, ◌>>=◌, map_err}
use ai_ssh.Protocol.Types.{protocol_version}
use ai_ssh.Protocol.Messages.{Request, RequestFrame, Response, ResponseData, ErrorPayload}
use ai_ssh.Protocol.Frames.{Bytes, Codec, IoError, write_frame, read_frame}

-- What `anyhow` carries: no daemon listens, or the stream failed.
pub data Failure : Type 0 where
  cannot_connect : Text → Failure
  io : IoError → Failure

pub data CallError : Type 0 where
  daemon : ErrorPayload → CallError
  transport : Failure → CallError

-- `REQUEST_ID.fetch_add` wraps.
abbrev pub next_id : ℕ → ℕ
next_id id = (id + 1) % 2 ^ 64

abbrev pub result_of : Result CallError (Response × Bytes × ℕ) → Result CallError ResponseData
result_of answer = answer >>= (λ r. map_err CallError.daemon r.0.result)

abbrev pub hello : (client_name : Text) → (id : ℕ) → RequestFrame
hello client_name id = record {
  request_id = id;
  request = Request.handshake protocol_version client_name;
}

module _ (requests : Codec RequestFrame) (responses : Codec Response) (peer : Bytes → Bytes) where
  -- A frame is written and an answer is read: with all that is written by then, and how many bytes of
  -- the answers are read by then.
  unfoldable pub exchange :
      RequestFrame → (sent : Bytes) → (taken : ℕ) → Result CallError (Response × Bytes × ℕ)
  exchange frame sent taken = do
    bytes ← map_err (λ e. CallError.transport (Failure.io e)) (write_frame requests frame)
    answer ←
        map_err (λ e. CallError.transport (Failure.io e))
          (read_frame responses (drop taken (peer (sent ++ bytes))))
    ok (answer.0, sent ++ bytes, length (peer (sent ++ bytes)) - length answer.1)

  -- The request, once the daemon has answered the handshake.
  abbrev pub after_handshake :
      Request
      → (id : ℕ) → Result CallError (Response × Bytes × ℕ)
      → Result CallError ResponseData × ℕ
  after_handshake request id (err e) = (err e, id)
  after_handshake request id (ok (response, sent, taken)) = elim response.result [
    | err e ↦ (err (CallError.daemon e), id)
    | ok _ ↦ (
      result_of (exchange (record { request_id = id; request = request }) sent taken),
      next_id id,
    )
  ]

  -- `connects` is the failure to connect, and the answer comes with the id of the next request.
  unfoldable pub daemon_call :
      (connects : Option Text)
      → (client_name : Text) → Request
      → (id : ℕ) → Result CallError ResponseData × ℕ
  daemon_call (some failed) client_name request id =
      (err (CallError.transport (Failure.cannot_connect failed)), id)
  daemon_call none client_name request id =
      after_handshake request (next_id id) (exchange (hello client_name id) [] 0)
