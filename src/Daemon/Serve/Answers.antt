-- ===== src/Daemon/Serve/Answers.antt =====
-- apps/daemon/src/main.rs: what a client of `serve_client` is answered.
use ai_ssh.Base.{
  ℕ, zero, suc, ◌<◌, ◌≡◌, refl, ap, sym, subst, ◌∙◌, Bool, true, false, List, [], ◌∷◌, ◌++◌, arith,
  inl, inr,
}
use mathlib.Core.List.{append-nil}
use ai_ssh.Base.Tests.{if◌then◌else◌, Bool-cases}
use ai_ssh.Base.Lists.{length}
use ai_ssh.Base.Text.{Text}
use ai_ssh.Base.Result.{ok}
use ai_ssh.Protocol.Messages.{RequestFrame, Response}
use ai_ssh.Protocol.Frames.{Bytes, Codec, write_frame, read_frame, read_u32}
use ai_ssh.Protocol.Frames.RoundTrip.{read_frame-write_frame}
use ai_ssh.Protocol.Frames.Streams.{IsFaithful, write_all, write_all-parts}
use ai_ssh.Daemon.Service.{Service, Handled, handle}
use ai_ssh.Daemon.Serve.{Ending, Served, ended, after_writing, response_to, serve_client}

-- The answers to some frames, and what they leave.
pub record Answers (S : Type 0) : Type 0 where
  pub responses : List Response
  pub client_name : Text
  pub state : S
  pub ending : Ending

-- The answers to the frames, one after the other, as far as the first that stops the daemon: each
-- with the number of its frame.
unfoldable pub answers : {S : Type 0} → Service S → List RequestFrame → Text → S → Answers S
answers service [] client s = record {
  responses = [];
  client_name = client;
  state = s;
  ending = Ending.finished;
}
answers service (frame ∷ frames) client s =
    let handled : Handled _ = handle service frame.request client s in
    elim handled.shutdown_requested [
      | true ↦ record {
        responses = response_to frame handled ∷ [];
        client_name = handled.client_name;
        state = handled.state;
        ending = Ending.stopped;
      }
      | false ↦
          let later = answers service frames handled.client_name handled.state in
          record later { responses = response_to frame handled ∷ later.responses }
    ]

-- The run of a daemon that wrote these answers.
abbrev pub served_as : {S : Type 0} → Bytes → Answers S → Served S
served_as written a = record {
  written = written;
  client_name = a.client_name;
  state = a.state;
  ending = a.ending;
}

module _ {S : Type 0} (service : Service S) (requests : Codec RequestFrame)
    (responses : Codec Response) where
  serve_client_at_end :
      (fuel : ℕ) (client : Text) (s : S)
      → serve_client service requests responses (suc fuel) client s []
        ≡ ended Ending.finished client s
  unfolding serve_client read_frame read_u32
  serve_client_at_end fuel client s = refl

  -- One turn of the loop.
  pub serve_client_turn :
      (fuel : ℕ) (client : Text) (s : S) (frame : RequestFrame) (stream rest bytes : Bytes)
      → read_frame requests stream ≡ ok (frame, rest)
      → write_frame responses (response_to frame (handle service frame.request client s)) ≡ ok bytes
      → let handled = handle service frame.request client s in
        serve_client service requests responses (suc fuel) client s stream
        ≡ after_writing bytes (
            if handled.shutdown_requested
            then ended Ending.stopped handled.client_name handled.state
            else serve_client service requests responses fuel handled.client_name handled.state
                rest)
  unfolding serve_client
  serve_client_turn fuel client s frame stream rest bytes reads writes =
      elim (Bool-cases (handle service frame.request client s).shutdown_requested) [
        | inl stops ↦
            rw (reads, serve_client) (rw (writes, serve_client) (rw (stops, serve_client) refl))
        | inr goes ↦
            rw (reads, serve_client) (rw (writes, serve_client) (rw (goes, serve_client) refl))
      ]

  answers_stop :
      (frame : RequestFrame) (frames : List RequestFrame) (client : Text) (s : S)
      → (handle service frame.request client s).shutdown_requested ≡ true
      → let handled = handle service frame.request client s in
        answers service (frame ∷ frames) client s ≡ record {
          responses = response_to frame handled ∷ [];
          client_name = handled.client_name;
          state = handled.state;
          ending = Ending.stopped;
        }
  unfolding answers
  answers_stop frame frames client s stops = rw (stops, answers) refl

  answers_go :
      (frame : RequestFrame) (frames : List RequestFrame) (client : Text) (s : S)
      → (handle service frame.request client s).shutdown_requested ≡ false
      → let handled = handle service frame.request client s in
        let later = answers service frames handled.client_name handled.state in
        answers service (frame ∷ frames) client s
        ≡ record later { responses = response_to frame handled ∷ later.responses }
  unfolding answers
  answers_go frame frames client s goes = rw (goes, answers) refl

  write_all-last :
      (value : Response) (bytes : Bytes)
      → write_all responses (value ∷ []) ≡ ok bytes
      → write_frame responses value ≡ ok bytes
  unfolding write_all
  write_all-last value bytes h =
      let (first, later, e, f, g) = write_all-parts responses value [] bytes h in
      let last : [] ≡ later = cc in
      e ∙ ap (ok) (sym (append-nil first) ∙ ap (λ (rest : Bytes). first ++ rest) last ∙ sym g)

  serve_client_stop :
      (fuel : ℕ) (client : Text) (s : S) (frame : RequestFrame) (frames : List RequestFrame)
      (stream rest written : Bytes)
      → read_frame requests stream ≡ ok (frame, rest)
      → (handle service frame.request client s).shutdown_requested ≡ true
      → write_all responses (answers service (frame ∷ frames) client s).responses ≡ ok written
      → serve_client service requests responses (suc fuel) client s stream
        ≡ served_as written (answers service (frame ∷ frames) client s)
  serve_client_stop fuel client s frame frames stream rest written reads stops writes =
      let alone = answers_stop frame frames client s stops in
      let handled = handle service frame.request client s in
      let bytes =
        write_all-last (response_to frame handled) written
          (subst (λ (a : Answers S). write_all responses a.responses ≡ ok written) alone writes) in
      serve_client_turn fuel client s frame stream rest written reads bytes
      ∙ ap
          (λ (b : Bool). after_writing written (
            if b
            then ended Ending.stopped handled.client_name handled.state
            else serve_client service requests responses fuel handled.client_name handled.state
                rest))
          stops
      ∙ ap
          (λ (w : Bytes). served_as w (record {
            responses = response_to frame handled ∷ [];
            client_name = handled.client_name;
            state = handled.state;
            ending = Ending.stopped;
          }))
          (append-nil written)
      ∙ ap (served_as written) (sym alone)

  serve_client_go :
      (fuel : ℕ) (client : Text) (s : S) (frame : RequestFrame) (frames : List RequestFrame)
      (stream rest written : Bytes)
      → read_frame requests stream ≡ ok (frame, rest)
      → (handle service frame.request client s).shutdown_requested ≡ false
      → write_all responses (answers service (frame ∷ frames) client s).responses ≡ ok written
      → let handled = handle service frame.request client s in
        ((bytes : Bytes)
          → write_all responses (answers service frames handled.client_name handled.state).responses
            ≡ ok bytes
          → serve_client service requests responses fuel handled.client_name handled.state rest
            ≡ served_as bytes (answers service frames handled.client_name handled.state))
        → serve_client service requests responses (suc fuel) client s stream
          ≡ served_as written (answers service (frame ∷ frames) client s)
  serve_client_go fuel client s frame frames stream rest written reads goes writes rec =
      let handled = handle service frame.request client s in
      let next = answers service frames handled.client_name handled.state in
      let several = answers_go frame frames client s goes in
      let (first, later, e, f, g) =
        write_all-parts responses (response_to frame handled) next.responses written (
          subst (λ (a : Answers S). write_all responses a.responses ≡ ok written) several writes) in
      serve_client_turn fuel client s frame stream rest first reads e
      ∙ ap
          (λ (b : Bool). after_writing first (
            if b
            then ended Ending.stopped handled.client_name handled.state
            else serve_client service requests responses fuel handled.client_name handled.state
                rest))
          goes
      ∙ ap (after_writing first) (rec later f)
      ∙ ap
          (λ (w : Bytes).
            served_as w (record next { responses = response_to frame handled ∷ next.responses }))
          (sym g)
      ∙ ap (served_as written) (sym several)

  -- A client that sends frames and then closes its side is answered frame by frame, in their order, each
  -- answer with the number of its frame, and no frame after one that stops the daemon: the bytes the
  -- daemon writes are those of these answers, its manager is left as the handling of the requests one
  -- after the other leaves it, and it ends by stopping if a request asked for it and otherwise without
  -- failure. This needs a codec that decodes the requests it encodes, fuel for more turns than there
  -- are frames, and answers that can be written.
  pub serve_client-write_all :
      (fuel : ℕ) (client : Text) (s : S) (frames : List RequestFrame) (sent written : Bytes)
      → IsFaithful requests
      → length frames < fuel
      → write_all requests frames ≡ ok sent
      → write_all responses (answers service frames client s).responses ≡ ok written
      → serve_client service requests responses fuel client s sent
        ≡ served_as written (answers service frames client s)
  unfolding write_all answers
  serve_client-write_all zero client s frames sent written faithful enough sends writes =
      absurd (omega arith)
  serve_client-write_all (suc fuel) client s [] sent written faithful enough sends writes =
      let nothing : [] ≡ sent = cc in
      let silent : [] ≡ written = cc in
      rw (sym nothing) (
        serve_client_at_end fuel client s
        ∙ ap (λ (w : Bytes). served_as w (answers service [] client s)) silent)
  serve_client-write_all (suc fuel) client s (frame ∷ frames) sent written faithful enough sends
        writes =
      let (first, rest, e, f, g) = write_all-parts requests frame frames sent sends in
      let reads =
        subst (λ (b : Bytes). read_frame requests b ≡ ok (frame, rest)) (sym g)
          (read_frame-write_frame requests frame first rest (faithful frame) e) in
      elim (Bool-cases (handle service frame.request client s).shutdown_requested) [
        | inl stops ↦
            serve_client_stop fuel client s frame frames sent rest written reads stops writes
        | inr goes ↦
            let handled = handle service frame.request client s in
            serve_client_go fuel client s frame frames sent rest written reads goes writes λ bytes.
              serve_client-write_all fuel handled.client_name handled.state frames rest bytes
                faithful (omega arith) f
      ]
