-- ===== src/Mcp/Json.antt =====
-- What the MCP server uses of `serde_json::Value` and of the base64 engine, as an interface: the
-- models of the calls take any implementation of it.
use ai_ssh.Base.{ℕ, Bool, List, Option}
use ai_ssh.Base.Text.{Text}

pub record Json : Type 1 where
  pub Value : Type 0
  pub get : Value → (key : Text) → Option Value
  pub as_str : Value → Option Text
  pub as_u64 : Value → Option ℕ
  pub as_bool : Value → Option Bool
  pub is_null : Value → Bool
  -- `Value::Object`, by its keys in order.
  pub entries : Value → Option (List (Text × Value))
  -- `json!({})`.
  pub empty_object : Value
  -- `BASE64.decode` and `BASE64.encode`.
  pub decode : Text → Option (List ℕ)
  pub encode : List ℕ → Text
