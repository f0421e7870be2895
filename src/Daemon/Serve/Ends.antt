-- ===== src/Daemon/Serve/Ends.antt =====
-- apps/daemon/src/main.rs: the loop of `serve_client` ends.
use ai_ssh.Base.{ℕ, zero, suc, ◌<◌, ◌≢◌, arith, inl, inr}
use ai_ssh.Base.Tests.{Bool-cases}
use ai_ssh.Base.Lists.{length}
use ai_ssh.Base.Text.{Text}
use ai_ssh.Base.Result.{Result-cases}
use ai_ssh.Protocol.Messages.{RequestFrame, Response}
use ai_ssh.Protocol.Frames.{Bytes, Codec, IoError, write_frame, read_frame}
use ai_ssh.Protocol.Frames.Streams.{read_frame_shorter}
use ai_ssh.Daemon.Service.{Service, handle}
use ai_ssh.Daemon.Serve.{Ending, response_to, serve_client}
use ai_ssh.Daemon.Serve.Answers.{serve_client_turn}

module _ {S : Type 0} (service : Service S) (requests : Codec RequestFrame)
    (responses : Codec Response) where
  -- Whatever bytes come, in frames or not, and whatever the operations do, the loop ends: fuel for one
  -- turn more than the stream has bytes is never used up.
  pub serve_client_ends :
      (fuel : ℕ) (client : Text) (s : S) (stream : Bytes)
      → length stream < fuel
      → (serve_client service requests responses fuel client s stream).ending ≢ Ending.out_of_fuel
  unfolding serve_client
  serve_client_ends zero client s stream enough = absurd (omega arith)
  serve_client_ends (suc fuel) client s stream enough =
      elim (Result-cases (read_frame requests stream)) [
        | inr (IoError.unexpected_eof, e) ↦ rw (e, serve_client) (λ h. absurd (cc))
        | inr (IoError.invalid_data, e) ↦ rw (e, serve_client) (λ h. absurd (cc))
        | inr (IoError.other, e) ↦ rw (e, serve_client) (λ h. absurd (cc))
        | inl ((frame, rest), e) ↦
            let less = read_frame_shorter requests stream frame rest e in
            let handled = handle service frame.request client s in
            elim (Result-cases (write_frame responses (response_to frame handled))) [
              | inr (failed, f) ↦ rw (e, serve_client) (rw (f, serve_client) (λ h. absurd (cc)))
              | inl (bytes, f) ↦
                  let turn =
                    serve_client_turn service requests responses fuel client s frame stream rest
                      bytes e f in
                  rw turn (elim (Bool-cases handled.shutdown_requested) [
                    | inl stops ↦ rw stops (λ h. absurd (cc))
                    | inr goes ↦ rw goes (
                        serve_client_ends fuel handled.client_name handled.state rest (omega arith))
                  ])
            ]
      ]
