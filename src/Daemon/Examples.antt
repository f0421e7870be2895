-- ===== src/Daemon/Examples.antt =====
-- apps/daemon/src/main.rs: a small manager and codec on which the theorems apply.
use ai_ssh.Base.{ℕ, zero, suc, ◌+◌, ◌≡◌, ◌≢◌, refl, sym, List, [], ◌∷◌, arith}
use ai_ssh.Base.Text.{codes}
use ai_ssh.Base.Result.{Result, ok, err}
use ai_ssh.Protocol.Messages.{Request, RequestFrame, Response, ResponseData, ApiResult, error}
use ai_ssh.Protocol.Frames.{Bytes, Codec, write_frame, write_u32}
use ai_ssh.Protocol.Frames.Streams.{IsFaithful, write_all}
use ai_ssh.Daemon.Service.{Service, handle}
use ai_ssh.Daemon.Serve.{Ending, serve_client}
use ai_ssh.Daemon.Serve.Answers.{answers, served_as, serve_client-write_all}
use ai_ssh.Daemon.Serve.Ends.{serve_client_ends}

abbrev refused : {A : Type 0} → ℕ → ApiResult A × ℕ
refused s = (err (error "SESSION_NOT_FOUND" "no session"), s)

-- A manager without sessions that counts how often its configuration was read.
abbrev pub counting : Service ℕ
counting = record {
  targets = λ s. [];
  sessions = λ _ s. (ok [], s);
  create = λ _ _ _ s. refused s;
  status = λ _ s. refused s;
  close = λ _ s. refused s;
  exec_start = λ _ _ _ _ _ s. refused s;
  exec_background = λ _ _ _ _ _ s. refused s;
  command_poll = λ _ _ _ _ s. refused s;
  command_cancel = λ _ s. refused s;
  commands = λ _ _ _ s. (ok [], s);
  shell_open = λ _ _ _ _ s. refused s;
  shell_write = λ _ _ s. refused s;
  shell_read = λ _ _ _ _ s. refused s;
  shell_resize = λ _ _ _ s. refused s;
  shell_close = λ _ s. refused s;
  file_stat = λ _ _ _ s. refused s;
  file_read = λ _ _ _ _ s. refused s;
  file_write = λ _ _ _ _ _ _ _ _ s. refused s;
  file_upload = λ _ _ _ _ _ _ s. refused s;
  file_download = λ _ _ _ _ _ _ s. refused s;
  file_mkdir = λ _ _ _ _ s. refused s;
  reload_config = λ s. (ok tt, s + 1);
}

-- A codec that knows four requests, and one that knows three responses.
abbrev encode_request : ℕ → Request → Result (Unit {0}) Bytes
encode_request id Request.reload_config = ok (id ∷ [])
encode_request id Request.daemon_shutdown = ok (id ∷ 0 ∷ [])
encode_request id Request.targets_list = ok (id ∷ 1 ∷ [])
encode_request id (Request.handshake version name) = ok (id ∷ 2 ∷ version ∷ name)
encode_request id _ = err tt

abbrev decode_request : Bytes → Result (Unit {0}) RequestFrame
decode_request (id ∷ []) = ok (record { request_id = id; request = Request.reload_config })
decode_request (id ∷ zero ∷ []) = ok (record { request_id = id; request = Request.daemon_shutdown })
decode_request (id ∷ suc n ∷ []) = ok (record { request_id = id; request = Request.targets_list })
decode_request (id ∷ second ∷ version ∷ name) =
    ok (record { request_id = id; request = Request.handshake version name })
decode_request _ = err tt

abbrev pub request_codec : Codec RequestFrame
request_codec = record {
  Failure = Unit {0};
  encode = λ frame. encode_request frame.request_id frame.request;
  decode = decode_request;
}

abbrev encode_result : ℕ → ApiResult ResponseData → Result (Unit {0}) Bytes
encode_result id (ok ResponseData.ack) = ok (id ∷ [])
encode_result id (ok (ResponseData.handshake version name)) = ok (id ∷ version ∷ 0 ∷ name)
encode_result id (ok (ResponseData.targets [])) = ok (id ∷ 0 ∷ [])
encode_result id _ = err tt

abbrev decode_response : Bytes → Result (Unit {0}) Response
decode_response (id ∷ []) = ok (record { request_id = id; result = ok ResponseData.ack })
decode_response (id ∷ second ∷ []) =
    ok (record { request_id = id; result = ok (ResponseData.targets []) })
decode_response (id ∷ version ∷ third ∷ name) =
    ok (record { request_id = id; result = ok (ResponseData.handshake version name) })
decode_response _ = err tt

abbrev pub response_codec : Codec Response
response_codec = record {
  Failure = Unit {0};
  encode = λ response. encode_result response.request_id response.result;
  decode = decode_response;
}

decode_request-encode_request :
    (id : ℕ) (request : Request) (body : Bytes)
    → encode_request id request ≡ ok body
    → decode_request body ≡ ok (record { request_id = id; request = request })
decode_request-encode_request id Request.reload_config body h =
    let same : id ∷ [] ≡ body = cc in rw (sym same) refl
decode_request-encode_request id Request.daemon_shutdown body h =
    let same : id ∷ 0 ∷ [] ≡ body = cc in rw (sym same) refl
decode_request-encode_request id Request.targets_list body h =
    let same : id ∷ 1 ∷ [] ≡ body = cc in rw (sym same) refl
decode_request-encode_request id (Request.handshake version name) body h =
    let same : id ∷ 2 ∷ version ∷ name ≡ body = cc in rw (sym same) refl
decode_request-encode_request id _ body h = absurd (cc)

decode_response-encode_result :
    (id : ℕ) (result : ApiResult ResponseData) (body : Bytes)
    → encode_result id result ≡ ok body
    → decode_response body ≡ ok (record { request_id = id; result = result })
decode_response-encode_result id (ok ResponseData.ack) body h =
    let same : id ∷ [] ≡ body = cc in rw (sym same) refl
decode_response-encode_result id (ok (ResponseData.handshake version name)) body h =
    let same : id ∷ version ∷ 0 ∷ name ≡ body = cc in rw (sym same) refl
decode_response-encode_result id (ok (ResponseData.targets [])) body h =
    let same : id ∷ 0 ∷ [] ≡ body = cc in rw (sym same) refl
decode_response-encode_result id _ body h = absurd (cc)

pub request_codec-IsFaithful : IsFaithful request_codec
request_codec-IsFaithful frame body h =
    decode_request-encode_request frame.request_id frame.request body h

pub response_codec-IsFaithful : IsFaithful response_codec
response_codec-IsFaithful response body h =
    decode_response-encode_result response.request_id response.result body h

-- Two frames: the configuration is read again, and the daemon is to stop.
abbrev two_frames : List RequestFrame
two_frames =
    record { request_id = 7; request = Request.reload_config }
    ∷ record { request_id = 8; request = Request.daemon_shutdown }
    ∷ []

abbrev two_sent : Bytes
two_sent = 0 ∷ 0 ∷ 0 ∷ 1 ∷ 7 ∷ 0 ∷ 0 ∷ 0 ∷ 2 ∷ 8 ∷ 0 ∷ []

abbrev two_told : Bytes
two_told = 0 ∷ 0 ∷ 0 ∷ 1 ∷ 7 ∷ 0 ∷ 0 ∷ 0 ∷ 1 ∷ 8 ∷ []

two_sent_lem : write_all request_codec two_frames ≡ ok two_sent
unfolding write_all write_frame write_u32
two_sent_lem = refl

two_told_lem :
    write_all response_codec (answers counting two_frames (codes "unknown") 0).responses
    ≡ ok two_told
unfolding write_all write_frame write_u32 answers handle
two_told_lem = refl

serve_client-write_all_example :
    serve_client counting request_codec response_codec 3 (codes "unknown") 0 two_sent
    ≡ served_as two_told (answers counting two_frames (codes "unknown") 0)
serve_client-write_all_example =
    serve_client-write_all counting request_codec response_codec 3 (codes "unknown") 0 two_frames
      two_sent two_told request_codec-IsFaithful (omega arith) two_sent_lem two_told_lem

-- The manager has read its configuration once, and the daemon stops.
two_left : answers counting two_frames (codes "unknown") 0 ≡ record {
  responses =
      record { request_id = 7; result = ok ResponseData.ack }
      ∷ record { request_id = 8; result = ok ResponseData.ack }
      ∷ [];
  client_name = codes "unknown";
  state = 1;
  ending = Ending.stopped;
}
unfolding answers handle
two_left = refl

-- A frame that is cut off.
serve_client_ends_example :
    (serve_client counting request_codec response_codec 12
      (codes "unknown")
      0
      (0 ∷ 0 ∷ 0 ∷ 1 ∷ 7 ∷ 0 ∷ 0 ∷ 0 ∷ 9 ∷ [])).ending
    ≢ Ending.out_of_fuel
serve_client_ends_example =
    serve_client_ends counting request_codec response_codec 12 (codes "unknown") 0
      (0 ∷ 0 ∷ 0 ∷ 1 ∷ 7 ∷ 0 ∷ 0 ∷ 0 ∷ 9 ∷ []) (omega arith)
