-- ===== src/Mcp/Arguments/Requests/Bounds.antt =====
-- apps/mcp-server/src/main.rs: what holds of every request that a tool call can lead to.
use Prim.Native.String.{String}
use ai_ssh.Base.{ℕ, ◌^◌, ◌≤◌, ◌<◌, ◌≡◌, ◌≢◌, [], ◌∷◌, Option, none, some, arith, inl, inr, subst}
use ai_ssh.Base.Tests.{ltb, leb, ltb→lt, leb→le, Bool-cases, Option-cases}
use ai_ssh.Base.Text.{Text}
use ai_ssh.Base.Result.{Result, ok, err, ◌>>=◌, ok_or}
use ai_ssh.Protocol.Types.{max_wait_seconds}
use ai_ssh.Protocol.Messages.{Message, Request}
use ai_ssh.Mcp.Json.{Json}
use ai_ssh.Mcp.Arguments.{
  mode_arg, required_string, optional_string, env_map, content_bytes, string_at, number_at, only_if,
  checked_mode, or_default,
}
use ai_ssh.Mcp.Arguments.Requests.{Tool, tool_request, request_for, one_id, find_tool, tool_names}

abbrev pub IsGiven : Text → Type 0
IsGiven s = s ≢ []

abbrev pub IsMode : Option ℕ → Type 0
IsMode none = Unit
IsMode (some mode) = mode ≤ 0o7777

-- What the daemon may rely on. A handshake, a reload of the configuration and a shutdown are not
-- among the requests of tools.
abbrev pub IsToolRequest : Request → Type 0
IsToolRequest (Request.handshake version client) = ⊥
IsToolRequest Request.targets_list = Unit
IsToolRequest (Request.sessions_list history) = Unit
IsToolRequest (Request.session_create target purpose) = IsGiven target × IsGiven purpose
IsToolRequest (Request.session_status id) = IsGiven id
IsToolRequest (Request.session_close id) = IsGiven id
IsToolRequest (Request.exec_start id command cwd env timeout) = IsGiven id × IsGiven command
IsToolRequest (Request.exec_background id command cwd env timeout) = IsGiven id × IsGiven command
IsToolRequest (Request.command_poll id after max_bytes wait) =
    IsGiven id × (wait ≤ max_wait_seconds)
IsToolRequest (Request.command_cancel id) = IsGiven id
IsToolRequest (Request.commands_list id finished limit) = (1 ≤ limit) × (limit ≤ 500)
IsToolRequest (Request.shell_open id cols rows term) =
    IsGiven id × (cols < 2 ^ 32) × (rows < 2 ^ 32)
IsToolRequest (Request.shell_write id bytes) = IsGiven id
IsToolRequest (Request.shell_read id after max_bytes wait) = IsGiven id × (wait ≤ max_wait_seconds)
IsToolRequest (Request.shell_resize id cols rows) = IsGiven id × (cols < 2 ^ 32) × (rows < 2 ^ 32)
IsToolRequest (Request.shell_close id) = IsGiven id
IsToolRequest (Request.file_stat id path hash) = IsGiven id × IsGiven path
IsToolRequest (Request.file_read id path max_bytes sudo) = IsGiven id × IsGiven path
IsToolRequest (Request.file_write id path bytes append dirs mode sudo changed) =
    IsGiven id × IsGiven path × IsMode mode
IsToolRequest (Request.file_upload id from to dirs mode verify) =
    IsGiven id × IsGiven from × IsGiven to × IsMode mode
IsToolRequest (Request.file_download id from to overwrite dirs verify) =
    IsGiven id × IsGiven from × IsGiven to
IsToolRequest (Request.file_mkdir id path parents mode) = IsGiven id × IsGiven path × IsMode mode
IsToolRequest Request.reload_config = ⊥
IsToolRequest Request.daemon_shutdown = ⊥

-- What holds of a result if it is there.
abbrev pub OnOk {ℓ} : {A : Type ℓ} → (A → Type 0) → Result Message A → Type 0
OnOk P (ok a) = P a
OnOk P (err e) = Unit

OnOk->>= {ℓ κ} :
    {A : Type ℓ} {B : Type κ} (P : A → Type 0) (Q : B → Type 0) (m : Result Message A)
    (f : A → Result Message B)
    → OnOk P m
    → ((a : A) → P a → OnOk Q (f a))
    → OnOk Q (m >>= f)
OnOk->>= P Q (ok a) f h k = k a h
OnOk->>= P Q (err e) f h k = tt

module _ (J : Json) where
  open J use {Value}

  required_string-IsGiven :
      (args : Value) (key : String) → OnOk IsGiven (required_string J args key)
  unfolding required_string
  required_string-IsGiven args key = elim (Option-cases (string_at J args key)) [
    | inl missing ↦ rw missing tt
    | inr ([], found) ↦ rw found tt
    | inr (c ∷ s, found) ↦ rw found (λ e. cc)
  ]

  checked_mode-IsMode : (mode : Option ℕ) → OnOk IsMode (checked_mode J mode)
  checked_mode-IsMode none = tt
  checked_mode-IsMode (some mode) = elim (Bool-cases (leb mode 0o7777)) [
    | inl fits ↦ rw fits (leb→le mode 0o7777 fits)
    | inr over ↦ rw over tt
  ]

  mode_arg-IsMode : (args : Value) → OnOk IsMode (mode_arg J args)
  unfolding mode_arg
  mode_arg-IsMode args = checked_mode-IsMode (number_at J args "mode")

  fits_u32 :
      (n : Option ℕ) (default : ℕ)
      → default < 2 ^ 32
      → or_default (only_if (λ (v : ℕ). ltb v (2 ^ 32)) n) default < 2 ^ 32
  fits_u32 none default h = h
  fits_u32 (some v) default h = elim (Bool-cases (ltb v (2 ^ 32))) [
    | inl fits ↦ rw fits (ltb→lt v (2 ^ 32) fits)
    | inr over ↦ rw over h
  ]

  -- A chain that begins with an argument that must be given.
  given {ℓ} :
      {B : Type ℓ} (Q : B → Type 0) (args : Value) (key : String) (f : Text → Result Message B)
      → ((s : Text) → IsGiven s → OnOk Q (f s))
      → OnOk Q (required_string J args key >>= f)
  given Q args key f h =
      OnOk->>= IsGiven Q (required_string J args key) f (required_string-IsGiven args key) h

  -- One that begins with anything that may fail.
  any {ℓ κ} :
      {A : Type ℓ} {B : Type κ} (Q : B → Type 0) (m : Result Message A) (f : A → Result Message B)
      → ((a : A) → OnOk Q (f a))
      → OnOk Q (m >>= f)
  any Q (ok a) f h = h a
  any Q (err e) f h = tt

  with_mode {ℓ} :
      {B : Type ℓ} (Q : B → Type 0) (args : Value) (f : Option ℕ → Result Message B)
      → ((mode : Option ℕ) → IsMode mode → OnOk Q (f mode))
      → OnOk Q (mode_arg J args >>= f)
  with_mode Q args f h = OnOk->>= IsMode Q (mode_arg J args) f (mode_arg-IsMode args) h

  one_id-IsToolRequest :
      (args : Value) (key : String) (make : Text → Request)
      → ((id : Text) → IsGiven id → IsToolRequest (make id))
      → OnOk IsToolRequest (one_id J args key make)
  unfolding one_id
  one_id-IsToolRequest args key make h = given IsToolRequest args key _ h

  request_for-IsToolRequest :
      (tool : Tool) (args : Value) → OnOk IsToolRequest (request_for J tool args)
  unfolding request_for
  request_for-IsToolRequest Tool.targets_list args = tt
  request_for-IsToolRequest Tool.sessions_list args = tt
  request_for-IsToolRequest Tool.session_create args =
      given IsToolRequest args "target_id" _
        λ target t. given IsToolRequest args "purpose" _ λ purpose p. (t, p)
  request_for-IsToolRequest Tool.session_status args =
      one_id-IsToolRequest args "session_id" Request.session_status (λ id h. h)
  request_for-IsToolRequest Tool.session_close args =
      one_id-IsToolRequest args "session_id" Request.session_close (λ id h. h)
  request_for-IsToolRequest Tool.exec_start args = given IsToolRequest args "session_id" _ λ id h.
      given IsToolRequest args "command" _ λ command k.
        any IsToolRequest (optional_string J args "cwd") _
          λ cwd. any IsToolRequest (env_map J args) _ λ env. (h, k)
  request_for-IsToolRequest Tool.exec_background args =
      given IsToolRequest args "session_id" _ λ id h.
        given IsToolRequest args "command" _ λ command k.
          any IsToolRequest (optional_string J args "cwd") _
            λ cwd. any IsToolRequest (env_map J args) _ λ env. (h, k)
  request_for-IsToolRequest Tool.command_poll args =
      given IsToolRequest args "command_id" _ λ id h. (h, omega arith)
  request_for-IsToolRequest Tool.command_cancel args =
      one_id-IsToolRequest args "command_id" Request.command_cancel (λ id h. h)
  request_for-IsToolRequest Tool.commands_list args =
      any IsToolRequest (optional_string J args "session_id") _ λ id. (omega arith, omega arith)
  request_for-IsToolRequest Tool.shell_open args = given IsToolRequest args "session_id" _ λ id h.
      any IsToolRequest (optional_string J args "term") _ λ term. (
        h,
        fits_u32 (number_at J args "cols") 120 (omega arith),
        fits_u32 (number_at J args "rows") 32 (omega arith),
      )
  request_for-IsToolRequest Tool.shell_write args = given IsToolRequest args "session_id" _ λ id h.
      given IsToolRequest args "data_base64" _
        λ encoded k. any IsToolRequest (ok_or (J.decode encoded) _) _ λ bytes. h
  request_for-IsToolRequest Tool.shell_read args =
      given IsToolRequest args "session_id" _ λ id h. (h, omega arith)
  request_for-IsToolRequest Tool.shell_resize args = given IsToolRequest args "session_id" _ λ id h.
      (
        h,
        fits_u32 (number_at J args "cols") 120 (omega arith),
        fits_u32 (number_at J args "rows") 32 (omega arith),
      )
  request_for-IsToolRequest Tool.shell_close args =
      one_id-IsToolRequest args "session_id" Request.shell_close (λ id h. h)
  request_for-IsToolRequest Tool.file_stat args =
      given IsToolRequest args "session_id" _
        λ id h. given IsToolRequest args "remote_path" _ λ path k. (h, k)
  request_for-IsToolRequest Tool.file_read args =
      given IsToolRequest args "session_id" _
        λ id h. given IsToolRequest args "remote_path" _ λ path k. (h, k)
  request_for-IsToolRequest Tool.file_write args = given IsToolRequest args "session_id" _ λ id h.
      given IsToolRequest args "remote_path" _ λ path k.
        any IsToolRequest (content_bytes J args) _
          λ contents. with_mode IsToolRequest args _ λ mode m. (h, k, m)
  request_for-IsToolRequest Tool.file_upload args = given IsToolRequest args "session_id" _ λ id h.
      given IsToolRequest args "local_path" _ λ from j.
        given IsToolRequest args "remote_path" _
          λ to k. with_mode IsToolRequest args _ λ mode m. (h, j, k, m)
  request_for-IsToolRequest Tool.file_download args =
      given IsToolRequest args "session_id" _ λ id h.
        given IsToolRequest args "remote_path" _
          λ from j. given IsToolRequest args "local_path" _ λ to k. (h, j, k)
  request_for-IsToolRequest Tool.file_mkdir args = given IsToolRequest args "session_id" _ λ id h.
      given IsToolRequest args "remote_path" _
        λ path k. with_mode IsToolRequest args _ λ mode m. (h, k, m)

  -- Whatever the arguments of a tool call are, a request that comes of it names what it is about,
  -- waits five minutes at most, asks for 1 to 500 commands, sets a mode within 07777 and a size of 32
  -- bits, and is none that only the daemon's own clients send.
  pub tool_request-IsToolRequest :
      (name : Text) (args : Value) (request : Request)
      → tool_request J name args ≡ ok request
      → IsToolRequest request
  unfolding tool_request
  tool_request-IsToolRequest name args request e = elim (Option-cases (find_tool name tool_names)) [
    | inl unknown ↦ absurd (cc (rw (unknown, tool_request) at e))
    | inr (tool, found) ↦
        subst (OnOk IsToolRequest) (rw (found, tool_request) at e)
          (request_for-IsToolRequest tool args)
  ]
