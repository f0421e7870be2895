-- ===== src/Mcp/Call/Answered.antt =====
-- apps/mcp-server/src/main.rs and apps/daemon/src/main.rs: `daemon_call` against `serve_client`.
use ai_ssh.Base.{ℕ, ◌<◌, ◌≡◌, refl, ap, sym, subst, ◌∙◌, [], ◌∷◌, ◌++◌, none, arith, inl, inr}
use mathlib.Core.List.{append-nil}
use ai_ssh.Base.Tests.{if◌then◌else◌, Bool-cases}
use ai_ssh.Base.Lists.{length}
use ai_ssh.Base.Text.{Text, codes}
use ai_ssh.Base.Result.{ok, map_err}
use ai_ssh.Protocol.Types.{protocol_version}
use ai_ssh.Protocol.Messages.{Request, RequestFrame, Response, ResponseData}
use ai_ssh.Protocol.Frames.{Bytes, Codec, write_frame, read_frame, drop-append}
use ai_ssh.Protocol.Frames.RoundTrip.{read_frame-write_frame}
use ai_ssh.Protocol.Frames.Streams.{IsFaithful, write_all}
use ai_ssh.Daemon.Service.{Service, Handled, handle, greet, daemon_version}
use ai_ssh.Daemon.Serve.{Ending, Served, serve_client, unknown_client}
use ai_ssh.Daemon.Serve.Answers.{Answers, answers, served_as, serve_client-write_all}
use ai_ssh.Mcp.Call.{CallError, next_id, exchange, result_of, hello, after_handshake, daemon_call}

module _ (requests : Codec RequestFrame) (responses : Codec Response) (peer : Bytes → Bytes) where
  -- An exchange whose frame is written and whose answer comes next on the stream.
  exchange_lem :
      (frame : RequestFrame) (response : Response) (sent bytes before answer : Bytes)
      → IsFaithful responses
      → write_frame requests frame ≡ ok bytes
      → write_frame responses response ≡ ok answer
      → peer (sent ++ bytes) ≡ before ++ answer
      → exchange requests responses peer frame sent (length before)
        ≡ ok (response, sent ++ bytes, length (before ++ answer))
  unfolding exchange
  exchange_lem frame response sent bytes before answer faithful writes answers_it replies =
      let comes =
        read_frame-write_frame responses response answer [] (faithful response) answers_it in
      let reads : read_frame responses answer ≡ ok (response, []) =
        subst (λ (b : Bytes). read_frame responses b ≡ ok (response, [])) (append-nil answer)
          comes in
      rw writes (
        rw replies (
          rw (drop-append before answer)
            (rw reads (ap (λ (n : ℕ). ok (response, sent ++ bytes, n)) (omega arith)))))

module _ {S : Type 0} (service : Service S) (requests : Codec RequestFrame)
    (responses : Codec Response) (s : S) (fuel : ℕ) where
  -- The daemon at the other end of the stream.
  abbrev pub run : Bytes → Served S
  run sent = serve_client service requests responses fuel unknown_client s sent

  abbrev pub peer_of : Bytes → Bytes
  peer_of sent = (run sent).written

module _ {S : Type 0} (service : Service S) (client : Text) (id : ℕ) (request : Request)
    (s : S) where
  abbrev pub asks : RequestFrame
  asks = record { request_id = next_id id; request = request }

  abbrev handled : Handled S
  handled = handle service request client s

  -- The daemon's answer to the handshake.
  abbrev pub welcome : Response
  welcome = record {
    request_id = id;
    result = ok (ResponseData.handshake protocol_version (codes daemon_version));
  }

  abbrev pub reply : Response
  reply = record { request_id = next_id id; result = handled.result }

  greeted_lem : answers service (hello client id ∷ []) unknown_client s ≡ record {
    responses = welcome ∷ [];
    client_name = client;
    state = s;
    ending = Ending.finished;
  }
  unfolding answers handle greet
  greeted_lem = refl

  abbrev answered_both : Answers S
  answered_both = record {
    responses = welcome ∷ reply ∷ [];
    client_name = handled.client_name;
    state = handled.state;
    ending = if handled.shutdown_requested then Ending.stopped else Ending.finished;
  }

  answers_one :
      answers service (asks ∷ []) client s ≡ record answered_both { responses = reply ∷ [] }
  unfolding answers
  answers_one = elim (Bool-cases handled.shutdown_requested) [
    | inl stops ↦ rw (stops, answers) refl
    | inr goes ↦ rw (goes, answers) refl
  ]

  answers_both : answers service (hello client id ∷ asks ∷ []) unknown_client s ≡ answered_both
  unfolding answers handle greet
  answers_both =
      ap (λ (later : Answers S). record later { responses = welcome ∷ later.responses }) answers_one

pair_lem :
    {T : Type 0} (codec : Codec T) (a b : T) (as_a as_b : Bytes)
    → write_frame codec a ≡ ok as_a
    → write_frame codec b ≡ ok as_b
    → write_all codec (a ∷ b ∷ []) ≡ ok (as_a ++ as_b)
unfolding write_all
pair_lem codec a b as_a as_b e f =
    rw e (rw f (ap (λ (rest : Bytes). ok (as_a ++ rest)) (append-nil as_b)))

one_lem :
    {T : Type 0} (codec : Codec T) (a : T) (as_a : Bytes)
    → write_frame codec a ≡ ok as_a
    → write_all codec (a ∷ []) ≡ ok as_a
unfolding write_all
one_lem codec a as_a e = rw e (ap (ok) (append-nil as_a))

module _ {S : Type 0} (service : Service S) (requests : Codec RequestFrame)
    (responses : Codec Response) (s : S) (fuel : ℕ) (enough : 2 < fuel)
    (faithful : IsFaithful requests) (sound : IsFaithful responses) (client : Text)
    (request : Request) (id : ℕ) (asked_1 asked_2 told_1 told_2 : Bytes)
    (writes_1 : write_frame requests (hello client id) ≡ ok asked_1)
    (writes_2 : write_frame requests (asks service client id request s) ≡ ok asked_2)
    (tells_1 : write_frame responses (welcome service client id request s) ≡ ok told_1)
    (tells_2 : write_frame responses (reply service client id request s) ≡ ok told_2) where
  run_hello : (peer_of service requests responses s fuel asked_1) ≡ told_1
  run_hello =
      let greeted = greeted_lem service client id request s in
      ap (λ (w : Served S). w.written)
        (serve_client-write_all service requests responses fuel unknown_client s
          (hello client id ∷ []) asked_1 told_1 faithful (omega (arith, enough))
          (one_lem requests (hello client id) asked_1 writes_1)
          (subst (λ (a : Answers S). write_all responses a.responses ≡ ok told_1) (sym greeted)
            (one_lem responses (welcome service client id request s) told_1 tells_1)))

  run_both :
      run service requests responses s fuel (asked_1 ++ asked_2)
      ≡ served_as (told_1 ++ told_2) (answered_both service client id request s)
  run_both =
      let both = answers_both service client id request s in
      serve_client-write_all service requests responses fuel unknown_client s
        (hello client id ∷ asks service client id request s ∷ []) (asked_1 ++ asked_2)
        (told_1 ++ told_2) faithful (omega (arith, enough))
        (pair_lem requests (hello client id) (asks service client id request s) asked_1 asked_2
          writes_1 writes_2)
        (subst (λ (a : Answers S). write_all responses a.responses ≡ ok (told_1 ++ told_2))
          (sym both)
          (pair_lem responses (welcome service client id request s)
            (reply service client id request s) told_1 told_2 tells_1 tells_2))
      ∙ ap (served_as (told_1 ++ told_2)) both

  call_lem :
      daemon_call requests responses
        (peer_of service requests responses s fuel)
        none
        client
        request
        id
      ≡ (map_err CallError.daemon (handle service request client s).result, next_id (next_id id))
  unfolding daemon_call
  call_lem =
      let peer = peer_of service requests responses s fuel in
      let hears =
        exchange_lem requests responses peer (hello client id) (welcome service client id request s)
          [] asked_1 [] told_1 sound writes_1 tells_1 run_hello in
      let replies =
        exchange_lem requests responses peer (asks service client id request s)
          (reply service client id request s) asked_1 asked_2 told_1 told_2 sound writes_2 tells_2
          (ap (λ (w : Served S). w.written) run_both) in
      ap (after_handshake requests responses peer request (next_id id)) hears
      ∙ ap (λ r. (result_of r, next_id (next_id id))) replies

  -- The MCP server's call of the daemon, over a stream with the daemon at its other end, gives exactly
  -- what the daemon's handling of the request gives under the client's name: its result or its error,
  -- with the flag whether to try again. The next request has a new number, and the manager is left as
  -- that handling leaves it. This needs codecs that decode what they encode, frames that can be
  -- written, and fuel for three turns of the daemon's loop.
  pub daemon_call-serve_client :
      (daemon_call requests responses
          (peer_of service requests responses s fuel)
          none
          client
          request
          id
        ≡ (map_err CallError.daemon (handle service request client s).result, next_id (next_id id)))
      × ((run service requests responses s fuel (asked_1 ++ asked_2)).state
          ≡ (handle service request client s).state)
  daemon_call-serve_client = (call_lem, ap (λ (w : Served S). w.state) run_both)
