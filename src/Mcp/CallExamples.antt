-- ===== src/Mcp/CallExamples.antt =====
-- apps/mcp-server/src/main.rs: calls of the daemon on which the theorems apply.
use ai_ssh.Base.{◌≡◌, refl, List, [], ◌∷◌, ◌++◌, none, some, arith}
use ai_ssh.Base.Text.{Text, codes, text_eq}
use ai_ssh.Base.Result.{Result, ok, err, map_err}
use ai_ssh.Protocol.Messages.{Request, ResponseData}
use ai_ssh.Protocol.Frames.{Bytes, write_frame, write_u32}
use ai_ssh.Daemon.Service.{handle}
use ai_ssh.Daemon.Examples.{
  counting, request_codec, response_codec, request_codec-IsFaithful, response_codec-IsFaithful,
}
use ai_ssh.Mcp.Call.{CallError, daemon_call, hello}
use ai_ssh.Mcp.Call.Answered.{run, peer_of, daemon_call-serve_client}
use ai_ssh.Mcp.Server.{
  McpState, Link, initial_state, call_tool, parse_call, shape_result, serve_lines,
}
use ai_ssh.Mcp.Server.Replies.{ids_of_replies, serve_lines_ids, call_tool-handle}
use ai_ssh.Mcp.Examples.{Tree, word, number, empty, field, trees, compact_shape}

-- A call of the daemon: the client named "me" asks for the targets.
abbrev asked_hello : Bytes
asked_hello = 0 ∷ 0 ∷ 0 ∷ 5 ∷ 1 ∷ 2 ∷ 3 ∷ 109 ∷ 101 ∷ []

abbrev asked_targets : Bytes
asked_targets = 0 ∷ 0 ∷ 0 ∷ 2 ∷ 2 ∷ 1 ∷ []

abbrev told_hello : Bytes
told_hello = 0 ∷ 0 ∷ 0 ∷ 8 ∷ 1 ∷ 3 ∷ 0 ∷ codes "0.2.0"

abbrev told_targets : Bytes
told_targets = 0 ∷ 0 ∷ 0 ∷ 2 ∷ 2 ∷ 0 ∷ []

asks_hello : write_frame request_codec (hello (codes "me") 1) ≡ ok asked_hello
unfolding write_frame write_u32
asks_hello = refl

asks_targets :
    write_frame request_codec (record { request_id = 2; request = Request.targets_list })
    ≡ ok asked_targets
unfolding write_frame write_u32
asks_targets = refl

tells_hello :
    write_frame response_codec
      (record { request_id = 1; result = ok (ResponseData.handshake 3 (codes "0.2.0")) })
    ≡ ok told_hello
unfolding write_frame write_u32
tells_hello = refl

tells_targets :
    write_frame response_codec (record {
      request_id = 2;
      result = (handle counting Request.targets_list (codes "me") 0).result;
    })
    ≡ ok told_targets
unfolding write_frame write_u32 handle
tells_targets = refl

daemon_call-serve_client_example :
    (daemon_call request_codec response_codec
        (peer_of counting request_codec response_codec 0 3)
        none
        (codes "me")
        Request.targets_list
        1
      ≡ (map_err CallError.daemon (handle counting Request.targets_list (codes "me") 0).result, 3))
    × ((run counting request_codec response_codec 0 3 (asked_hello ++ asked_targets)).state
        ≡ (handle counting Request.targets_list (codes "me") 0).state)
daemon_call-serve_client_example =
    daemon_call-serve_client counting request_codec response_codec 0 3 (omega arith)
      request_codec-IsFaithful response_codec-IsFaithful (codes "me") Request.targets_list 1
      asked_hello asked_targets told_hello told_targets asks_hello asks_targets tells_hello
      tells_targets

abbrev me : McpState
me = record initial_state { client_name = codes "me" }

targets_are_asked :
    parse_call trees request_codec response_codec (codes "ssh_targets_list") empty
    ≡ ok (compact_shape, Request.targets_list)
unfolding parse_call text_eq
targets_are_asked = refl

call_tool-handle_example :
    call_tool trees request_codec response_codec
      (record {
        connects = none;
        peer = peer_of counting request_codec response_codec 0 3;
        recording_limit = none;
      })
      (codes "ssh_targets_list")
      empty
      me
    ≡ shape_result trees request_codec response_codec none compact_shape
        (map_err CallError.daemon (handle counting Request.targets_list (codes "me") 0).result, 3)
        me
call_tool-handle_example =
    call_tool-handle trees counting request_codec response_codec 0 3 (omega arith)
      request_codec-IsFaithful response_codec-IsFaithful none me (codes "ssh_targets_list") empty
      compact_shape Request.targets_list targets_are_asked asked_hello asked_targets told_hello
      told_targets asks_hello asks_targets tells_hello tells_targets

abbrev nowhere : Link
nowhere = record { connects = some (codes "refused"); peer = λ _. []; recording_limit = none }

-- A line that is no JSON, a notification, a ping, a line that is not UTF-8, and a ping behind it.
abbrev five_lines : List (Link × Result Text (Result Text Tree))
five_lines =
    let ping = field (codes "id") (number 4) (field (codes "method") (word (codes "ping")) empty) in
    (nowhere, ok (err (codes "EOF")))
    ∷ (nowhere, ok (ok (field (codes "method") (word (codes "notifications/initialized")) empty)))
    ∷ (nowhere, ok (ok ping))
    ∷ (nowhere, err (codes "stream did not contain valid UTF-8"))
    ∷ (nowhere, ok (ok ping))
    ∷ []

serve_lines_ids_example :
    (ids_of_replies trees request_codec response_codec
        (serve_lines trees request_codec response_codec five_lines initial_state).0
      ≡ none ∷ some (number 4) ∷ [])
    × ((serve_lines trees request_codec response_codec five_lines initial_state).1.1
        ≡ err (codes "stream did not contain valid UTF-8"))
unfolding text_eq
serve_lines_ids_example =
    serve_lines_ids trees request_codec response_codec five_lines initial_state
