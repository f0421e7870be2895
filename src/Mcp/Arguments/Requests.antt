-- ===== src/Mcp/Arguments/Requests.antt =====
-- apps/mcp-server/src/main.rs: `tool_request`, from the name and the arguments of a call to the
-- request that goes to the daemon.
pub mod Bounds
use Prim.Native.String.{String}
use ai_ssh.Base.{ℕ, Bool, true, false, List, [], ◌∷◌, Option, none, some, min, max}
use ai_ssh.Base.Tests.{if◌then◌else◌}
use ai_ssh.Base.Text.{Text, codes, text_eq}
use ai_ssh.Base.Result.{Result, ok, err, ◌>>=◌, ok_or}
use ai_ssh.Protocol.Messages.{Message, Request}
use ai_ssh.Mcp.Json.{Json}
use ai_ssh.Mcp.Arguments.{
  say, or_default, and_then, only_if, string_at, number_at, flag, required_string, optional_string,
  u32_arg, env_map, content_bytes, mode_arg, after_arg, max_arg, wait_arg,
}

pub data Tool : Type 0 where
  targets_list sessions_list session_create session_status session_close : Tool
  exec_start exec_background command_poll command_cancel commands_list : Tool
  shell_open shell_write shell_read shell_resize shell_close : Tool
  file_stat file_read file_write file_upload file_download file_mkdir : Tool

-- The names of the `match`, in its order.
abbrev pub tool_names : List (String × Tool)
tool_names =
    ("ssh_targets_list", Tool.targets_list)
    ∷ ("ssh_sessions_list", Tool.sessions_list)
    ∷ ("ssh_session_create", Tool.session_create)
    ∷ ("ssh_session_status", Tool.session_status)
    ∷ ("ssh_session_close", Tool.session_close)
    ∷ ("ssh_exec_start", Tool.exec_start)
    ∷ ("ssh_exec_background", Tool.exec_background)
    ∷ ("ssh_command_poll", Tool.command_poll)
    ∷ ("ssh_command_cancel", Tool.command_cancel)
    ∷ ("ssh_commands_list", Tool.commands_list)
    ∷ ("ssh_shell_open", Tool.shell_open)
    ∷ ("ssh_shell_write", Tool.shell_write)
    ∷ ("ssh_shell_read", Tool.shell_read)
    ∷ ("ssh_shell_resize", Tool.shell_resize)
    ∷ ("ssh_shell_close", Tool.shell_close)
    ∷ ("ssh_file_stat", Tool.file_stat)
    ∷ ("ssh_file_read", Tool.file_read)
    ∷ ("ssh_file_write", Tool.file_write)
    ∷ ("ssh_file_upload", Tool.file_upload)
    ∷ ("ssh_file_download", Tool.file_download)
    ∷ ("ssh_file_mkdir", Tool.file_mkdir)
    ∷ []

abbrev pub find_tool : Text → List (String × Tool) → Option Tool
find_tool name [] = none
find_tool name ((known, tool) ∷ rest) =
    if text_eq (codes known) name then some tool else find_tool name rest

abbrev pub default_poll_wait_seconds : ℕ
default_poll_wait_seconds = 30

module _ (J : Json) where
  open J use {Value}

  -- `ssh_exec_start` and `ssh_exec_background`, which differ in the request alone.
  unfoldable pub exec_request :
      Value
      → ((session_id command : Text) → Option Text → List (Text × Text) → Option ℕ → Request)
      → Result Message Request
  exec_request args make = do
    session_id ← required_string J args "session_id"
    command ← required_string J args "command"
    cwd ← optional_string J args "cwd"
    env ← env_map J args
    ok (make session_id command cwd env (number_at J args "timeout_seconds"))

  -- The requests that name only a session or a command.
  unfoldable pub one_id : Value → String → (Text → Request) → Result Message Request
  one_id args key make = do id ← required_string J args key; ok (make id)

  unfoldable pub file_request : Tool → Value → Result Message Request
  file_request Tool.file_stat args = do
    session_id ← required_string J args "session_id"
    remote_path ← required_string J args "remote_path"
    ok (Request.file_stat session_id remote_path (flag J args "hash" false))
  file_request Tool.file_read args = do
    session_id ← required_string J args "session_id"
    remote_path ← required_string J args "remote_path"
    ok (Request.file_read session_id remote_path (max_arg J args) (flag J args "sudo" false))
  file_request Tool.file_write args = do
    session_id ← required_string J args "session_id"
    remote_path ← required_string J args "remote_path"
    contents ← content_bytes J args
    mode ← mode_arg J args
    ok (
        Request.file_write session_id remote_path contents (flag J args "append" false)
          (flag J args "create_dirs" false) mode (flag J args "sudo" false)
          (flag J args "if_changed" false))
  file_request Tool.file_upload args = do
    session_id ← required_string J args "session_id"
    local_path ← required_string J args "local_path"
    remote_path ← required_string J args "remote_path"
    mode ← mode_arg J args
    ok (
        Request.file_upload session_id local_path remote_path (flag J args "create_dirs" false) mode
          (flag J args "verify" true))
  file_request Tool.file_download args = do
    session_id ← required_string J args "session_id"
    remote_path ← required_string J args "remote_path"
    local_path ← required_string J args "local_path"
    ok (
        Request.file_download session_id remote_path local_path (flag J args "overwrite" false)
          (flag J args "create_dirs" false) (flag J args "verify" true))
  file_request _ args = do
    session_id ← required_string J args "session_id"
    remote_path ← required_string J args "remote_path"
    mode ← mode_arg J args
    ok (Request.file_mkdir session_id remote_path (flag J args "parents" true) mode)

  unfoldable pub request_for : Tool → Value → Result Message Request
  unfolding exec_request one_id file_request
  request_for Tool.targets_list args = ok Request.targets_list
  request_for Tool.sessions_list args =
      ok (Request.sessions_list (flag J args "include_history" false))
  request_for Tool.session_create args = do
    target_id ← required_string J args "target_id"
    purpose ← required_string J args "purpose"
    ok (Request.session_create target_id purpose)
  request_for Tool.session_status args = one_id args "session_id" Request.session_status
  request_for Tool.session_close args = one_id args "session_id" Request.session_close
  request_for Tool.exec_start args = exec_request args Request.exec_start
  request_for Tool.exec_background args = exec_request args Request.exec_background
  request_for Tool.command_poll args = do
    command_id ← required_string J args "command_id"
    ok (
        Request.command_poll command_id (after_arg J args) (max_arg J args)
          (wait_arg J args default_poll_wait_seconds))
  request_for Tool.command_cancel args = one_id args "command_id" Request.command_cancel
  request_for Tool.commands_list args = do
    session_id ← optional_string J args "session_id"
    ok (
        Request.commands_list session_id (flag J args "include_finished" false)
          (min (max (or_default (number_at J args "limit") 50) 1) 500))
  request_for Tool.shell_open args = do
    session_id ← required_string J args "session_id"
    term ← optional_string J args "term"
    ok (
        Request.shell_open session_id (u32_arg J args "cols" 120) (u32_arg J args "rows" 32)
          (or_default term (codes "xterm-256color")))
  request_for Tool.shell_write args = do
    session_id ← required_string J args "session_id"
    encoded ← required_string J args "data_base64"
    bytes ← ok_or (J.decode encoded) (say "data_base64 is not valid base64" [])
    ok (Request.shell_write session_id bytes)
  request_for Tool.shell_read args = do
    session_id ← required_string J args "session_id"
    ok (Request.shell_read session_id (after_arg J args) (max_arg J args) (wait_arg J args 0))
  request_for Tool.shell_resize args = do
    session_id ← required_string J args "session_id"
    ok (Request.shell_resize session_id (u32_arg J args "cols" 120) (u32_arg J args "rows" 32))
  request_for Tool.shell_close args = one_id args "session_id" Request.shell_close
  request_for Tool.file_stat args = file_request Tool.file_stat args
  request_for Tool.file_read args = file_request Tool.file_read args
  request_for Tool.file_write args = file_request Tool.file_write args
  request_for Tool.file_upload args = file_request Tool.file_upload args
  request_for Tool.file_download args = file_request Tool.file_download args
  request_for Tool.file_mkdir args = file_request Tool.file_mkdir args

  unfoldable pub tool_request : (name : Text) → Value → Result Message Request
  unfolding request_for
  tool_request name args = elim (find_tool name tool_names) [
    | none ↦ err (say "unknown tool {name:?}" (name ∷ []))
    | some tool ↦ request_for tool args
  ]
