-- ===== src/Mcp/Server.antt =====
-- apps/mcp-server/src/main.rs: the loop of `main`, which reads a JSON-RPC message from each line and
-- writes the reply to it, where the output does not fail. A reply is a value with what its JSON object
-- carries. Its text channel is not part of it: the rendering of output is in Render.
pub mod Replies
use Prim.Native.String.{String}
use ai_ssh.Base.{ℕ, Bool, true, false, List, [], ◌∷◌, Option, none, some}
use ai_ssh.Base.Tests.{if◌then◌else◌}
use ai_ssh.Base.Text.{Text, codes, text_eq}
use ai_ssh.Base.Result.{Result, ok, err, ◌>>=◌}
use ai_ssh.Protocol.Messages.{Message, RequestFrame, Response, Request, ResponseData, ErrorPayload}
use ai_ssh.Protocol.Frames.{Bytes, Codec}
use ai_ssh.Mcp.Json.{Json}
use ai_ssh.Mcp.Decoders.{Decoders}
use ai_ssh.Mcp.Arguments.{Shaping, parse_shaping, and_then, or_default, string_at}
use ai_ssh.Mcp.Arguments.Requests.{tool_request}
use ai_ssh.Mcp.Shape.{Public, public_json}
use ai_ssh.Mcp.Call.{CallError, Failure, daemon_call}

-- What an error says: a message, or what `anyhow` carries.
pub data Explanation : Type 0 where
  payload_message : Message → Explanation
  broken_exchange : Failure → Explanation

pub record ErrorView : Type 0 where
  pub code : Text
  pub message : Explanation
  pub retryable : Bool

-- `public_error`. The daemon has decided whether an error of its own is retryable.
unfoldable pub public_error : CallError → ErrorView
public_error (CallError.daemon payload) = record {
  code = payload.code;
  message = Explanation.payload_message payload.message;
  retryable = payload.retryable;
}
public_error (CallError.transport failed) = record {
  code = codes "DAEMON_UNAVAILABLE";
  message = Explanation.broken_exchange failed;
  retryable = true;
}

abbrev pub invalid_argument : Message → ErrorView
invalid_argument m = record {
  code = codes "INVALID_ARGUMENT";
  message = Explanation.payload_message m;
  retryable = false;
}

-- The structured content of the result of a tool.
pub data Payload : Type 0 where
  shown : Public → Payload
  failed : ErrorView → Payload

-- The codes -32700 and -32601.
pub data RpcCode : Type 0 where
  parse_error method_not_found : RpcCode

-- A reply, with the id of the message, which is null where the message cannot be read. The text of an
-- error is why the line cannot be parsed, or the method that is not known.
pub data RpcReply (Value : Type 0) : Type 0 where
  initialized : (id : Value) → (protocol_version : Text) → RpcReply Value
  pong : (id : Value) → RpcReply Value
  tool_list : (id : Value) → RpcReply Value
  tool_result : (id : Value) → Payload → (is_error : Bool) → RpcReply Value
  rpc_error : (id : Option Value) → RpcCode → Text → RpcReply Value

-- The variables of `main`, with `TEXT_DECODERS` and `REQUEST_ID`.
pub record McpState : Type 0 where
  pub client_name : Text
  pub decoders : Decoders
  pub request_id : ℕ

-- What the server starts with.
abbrev pub initial_state : McpState
initial_state = record { client_name = codes "MCP client"; decoders = []; request_id = 1 }

-- What a message meets: why no daemon can be reached, or else the daemon at the other end of the
-- stream, and the recording limit that the configuration file states, if it can be loaded.
pub record Link : Type 0 where
  pub connects : Option Text
  pub peer : Bytes → Bytes
  pub recording_limit : Option ℕ

pub data Method : Type 0 where
  initialize ping tools_list tools_call : Method

abbrev pub method_of : Text → Option Method
method_of name =
    if text_eq name (codes "initialize")
    then some Method.initialize
    else if text_eq name (codes "ping")
    then some Method.ping
    else if text_eq name (codes "tools/list")
    then some Method.tools_list
    else if text_eq name (codes "tools/call")
    then some Method.tools_call
    else none

module _ (J : Json) (requests : Codec RequestFrame) (responses : Codec Response) where
  open J use {Value}

  -- `pointer("/params/…")`.
  abbrev pub param : Value → String → Option Value
  param message key = and_then (J.get message (codes "params")) (λ params. J.get params (codes key))

  abbrev pub client_name_of : Value → Option Text
  client_name_of message = and_then (param message "clientInfo") (λ info. string_at J info "name")

  unfoldable pub parse_call : (name : Text) → (args : Value) → Result Message (Shaping × Request)
  unfolding parse_shaping tool_request
  parse_call name args = do
    shaping ← parse_shaping J args
    r ← tool_request J name args
    ok (shaping, r)

  -- The result of a call of the daemon, for the caller of the tool.
  unfoldable pub shape_result :
      (recording_limit : Option ℕ)
      → Shaping
      → Result CallError ResponseData × ℕ
      → McpState
      → (Payload × Bool) × McpState
  unfolding public_json public_error
  shape_result limit shaping (ok response, next) st =
      let json = public_json J limit shaping response st.decoders in
      ((Payload.shown json.0, false), record st { decoders = json.1; request_id = next })
  shape_result limit shaping (err e, next) st =
      ((Payload.failed (public_error e), true), record st { request_id = next })

  -- `tools/call`.
  unfoldable pub call_tool :
      Link → (name : Text) → (args : Value) → McpState → (Payload × Bool) × McpState
  call_tool link name args st = elim (parse_call name args) [
    | err m ↦ ((Payload.failed (invalid_argument m), true), st)
    | ok (shaping, r) ↦
        shape_result link.recording_limit shaping
          (daemon_call requests responses link.peer link.connects st.client_name r st.request_id) st
  ]

  abbrev pub tool_reply : (id : Value) → (Payload × Bool) × McpState → RpcReply Value × McpState
  tool_reply id r = (RpcReply.tool_result id r.0.0 r.0.1, r.1)

  unfoldable pub call_method :
      Link
      → (id : Value) → (name : Text) → Option Method
      → (message : Value) → McpState
      → RpcReply Value × McpState
  call_method link id name (some Method.initialize) message st = (
    RpcReply.initialized id
        (or_default (and_then (param message "protocolVersion") J.as_str) (codes "2025-03-26")),
    record st { client_name = or_default (client_name_of message) st.client_name },
  )
  call_method link id name (some Method.ping) message st = (RpcReply.pong id, st)
  call_method link id name (some Method.tools_list) message st = (RpcReply.tool_list id, st)
  call_method link id name (some Method.tools_call) message st = tool_reply id (
      call_tool link (or_default (and_then (param message "name") J.as_str) [])
        (or_default (param message "arguments") J.empty_object) st)
  call_method link id name none message st =
      (RpcReply.rpc_error (some id) RpcCode.method_not_found name, st)

  -- One line: what it parses to, or why it does not. A message without an id has no reply.
  unfoldable pub answer_line :
      Link → Result Text Value → McpState → Option (RpcReply Value) × McpState
  answer_line link (err why) st = (some (RpcReply.rpc_error none RpcCode.parse_error why), st)
  answer_line link (ok message) st = elim (J.get message (codes "id")) [
    | none ↦ (none, st)
    | some id ↦
        let name = or_default (string_at J message "method") [] in
        let r = call_method link id name (method_of name) message st in (some r.0, r.1)
  ]

  abbrev pub add_reply : Option (RpcReply Value) → List (RpcReply Value) → List (RpcReply Value)
  add_reply none replies = replies
  add_reply (some reply) replies = reply ∷ replies

  -- The lines that come, each with what it meets: a line that cannot be read, as one that is not UTF-8,
  -- ends `main` with that error, and what comes after it is not looked at; the end of the input ends
  -- it without an error. Of a line that is read, what `answer_line` takes.
  unfoldable pub serve_lines :
      List (Link × Result Text (Result Text Value))
      → McpState
      → List (RpcReply Value) × (McpState × Result Text (Unit {0}))
  serve_lines [] st = ([], (st, ok tt))
  serve_lines ((link, err why) ∷ lines) st = ([], (st, err why))
  serve_lines ((link, ok line) ∷ lines) st =
      let here = answer_line link line st in
      let later = serve_lines lines here.1 in (add_reply here.0 later.0, later.1)
