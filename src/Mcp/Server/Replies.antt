-- ===== src/Mcp/Server/Replies.antt =====
-- apps/mcp-server/src/main.rs: which messages are replied to, and what a tool call comes to.
use ai_ssh.Base.{ℕ, ◌<◌, ◌≡◌, refl, ap, List, [], ◌∷◌, Option, none, some, inl, inr}
use ai_ssh.Base.Tests.{Option-cases}
use ai_ssh.Base.Text.{Text, codes}
use ai_ssh.Base.Result.{Result, ok, err, map_err}
use ai_ssh.Protocol.Messages.{RequestFrame, Request, Response}
use ai_ssh.Protocol.Frames.{Bytes, Codec, write_frame}
use ai_ssh.Protocol.Frames.Streams.{IsFaithful}
use ai_ssh.Daemon.Service.{Service, handle}
use ai_ssh.Mcp.Json.{Json}
use ai_ssh.Mcp.Arguments.{Shaping, or_default, string_at}
use ai_ssh.Mcp.Call.{CallError, next_id, hello}
use ai_ssh.Mcp.Call.Answered.{asks, reply, welcome, peer_of, daemon_call-serve_client}
use ai_ssh.Mcp.Server.{
  RpcReply, McpState, Link, Method, method_of, parse_call, call_method, call_tool, shape_result,
  answer_line, serve_lines,
}

module _ (J : Json) (requests : Codec RequestFrame) (responses : Codec Response) where
  open J use {Value}

  -- The id that a reply carries.
  abbrev pub id_of_reply : RpcReply Value → Option Value
  id_of_reply (RpcReply.initialized id version) = some id
  id_of_reply (RpcReply.pong id) = some id
  id_of_reply (RpcReply.tool_list id) = some id
  id_of_reply (RpcReply.tool_result id payload is_error) = some id
  id_of_reply (RpcReply.rpc_error id code why) = id

  abbrev pub ids_of_replies : List (RpcReply Value) → List (Option Value)
  ids_of_replies [] = []
  ids_of_replies (r ∷ rs) = id_of_reply r ∷ ids_of_replies rs

  -- The ids to reply to, up to the first line that cannot be read: null for a line that cannot be
  -- parsed, and none for a message without an id.
  abbrev pub ids_asked : List (Link × Result Text (Result Text Value)) → List (Option Value)
  ids_asked [] = []
  ids_asked ((link, err why) ∷ lines) = []
  ids_asked ((link, ok (err why)) ∷ lines) = none ∷ ids_asked lines
  ids_asked ((link, ok (ok message)) ∷ lines) = elim (J.get message (codes "id")) [
    | none ↦ ids_asked lines
    | some id ↦ some id ∷ ids_asked lines
  ]

  -- The error of the first line that cannot be read, if there is one.
  abbrev pub first_unreadable :
      List (Link × Result Text (Result Text Value)) → Result Text (Unit {0})
  first_unreadable [] = ok tt
  first_unreadable ((link, err why) ∷ lines) = err why
  first_unreadable ((link, ok line) ∷ lines) = first_unreadable lines

  id-call_method :
      (link : Link) (id : Value) (name : Text) (method : Option Method) (message : Value)
      (st : McpState)
      → id_of_reply (call_method J requests responses link id name method message st).0 ≡ some id
  unfolding call_method
  id-call_method link id name (some Method.initialize) message st = refl
  id-call_method link id name (some Method.ping) message st = refl
  id-call_method link id name (some Method.tools_list) message st = refl
  id-call_method link id name (some Method.tools_call) message st = refl
  id-call_method link id name none message st = refl

  serve_lines_outcome :
      (lines : List (Link × Result Text (Result Text Value))) (st : McpState)
      → (serve_lines J requests responses lines st).1.1 ≡ first_unreadable lines
  unfolding serve_lines
  serve_lines_outcome [] st = refl
  serve_lines_outcome ((link, err why) ∷ lines) st = refl
  serve_lines_outcome ((link, ok line) ∷ lines) st =
      serve_lines_outcome lines (answer_line J requests responses link line st).1

  replies_to_lines :
      (lines : List (Link × Result Text (Result Text Value))) (st : McpState)
      → ids_of_replies (serve_lines J requests responses lines st).0 ≡ ids_asked lines
  unfolding serve_lines answer_line
  replies_to_lines [] st = refl
  replies_to_lines ((link, err why) ∷ lines) st = refl
  replies_to_lines ((link, ok (err why)) ∷ lines) st = ap (◌∷◌ none) (replies_to_lines lines st)
  replies_to_lines ((link, ok (ok message)) ∷ lines) st =
      elim (Option-cases (J.get message (codes "id"))) [
        | inl missing ↦ rw (missing, answer_line, ids_asked) (replies_to_lines lines st)
        | inr (id, found) ↦
            let name = or_default (string_at J message "method") [] in
            let after =
              (call_method J requests responses link id name (method_of name) message st).1 in
            rw (found, answer_line, ids_asked)
              (rw (id-call_method link id name (method_of name) message st)
                (ap (◌∷◌ (some id)) (replies_to_lines lines after)))
      ]

  -- Whatever the lines and the daemon are, as long as replies can be written: up to the first line that
  -- cannot be read, the replies answer the messages that have an id and the lines that cannot be parsed,
  -- each once, in their order and with their ids, and nothing else. The server ends with the error of
  -- that line and answers nothing after it; if every line can be read, it ends without an error.
  pub serve_lines_ids :
      (lines : List (Link × Result Text (Result Text Value))) (st : McpState)
      → (ids_of_replies (serve_lines J requests responses lines st).0 ≡ ids_asked lines)
        × ((serve_lines J requests responses lines st).1.1 ≡ first_unreadable lines)
  serve_lines_ids lines st = (replies_to_lines lines st, serve_lines_outcome lines st)

module _ (J : Json) {S : Type 0} (service : Service S) (requests : Codec RequestFrame)
    (responses : Codec Response) (s : S) (fuel : ℕ) (enough : 2 < fuel)
    (faithful : IsFaithful requests) (sound : IsFaithful responses) (limit : Option ℕ)
    (st : McpState) (name : Text) (args : J.Value) (shaping : Shaping) (request : Request)
    (parses : parse_call J requests responses name args ≡ ok (shaping, request))
    (asked_1 asked_2 told_1 told_2 : Bytes)
    (writes_1 : write_frame requests (hello st.client_name st.request_id) ≡ ok asked_1)
    (writes_2 : write_frame requests (asks service st.client_name st.request_id request s)
      ≡ ok asked_2)
    (tells_1 : write_frame responses (welcome service st.client_name st.request_id request s)
      ≡ ok told_1)
    (tells_2 : write_frame responses (reply service st.client_name st.request_id request s)
      ≡ ok told_2) where
  -- A tool call whose arguments are right, with the daemon at the other end of the stream, comes to
  -- the daemon's handling of the request it stands for, under the name of the MCP client, in the shape
  -- that the arguments ask for: its result, or its error as the daemon has put it. This needs codecs
  -- that decode what they encode, frames that can be written, and fuel for three turns of the
  -- daemon's loop.
  pub call_tool-handle :
      call_tool J requests responses
        (record {
          connects = none;
          peer = peer_of service requests responses s fuel;
          recording_limit = limit;
        })
        name
        args
        st
      ≡ shape_result J requests responses limit shaping
          (
            map_err CallError.daemon (handle service request st.client_name s).result,
            next_id (next_id st.request_id),
          )
          st
  unfolding call_tool
  call_tool-handle =
      let called =
        daemon_call-serve_client service requests responses s fuel enough faithful sound
          st.client_name request st.request_id asked_1 asked_2 told_1 told_2 writes_1 writes_2
          tells_1 tells_2 in
      rw (parses, call_tool)
        (ap (λ r. shape_result J requests responses limit shaping r st) called.0)
