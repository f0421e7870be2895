-- ===== src/Mcp/Arguments.antt =====
-- apps/mcp-server/src/main.rs: the arguments of a tool call, and how the response is to be shaped.
pub mod Requests
use Prim.Native.String.{String}
use ai_ssh.Base.{ℕ, ◌^◌, Bool, true, false, not, List, [], ◌∷◌, Option, none, some, min, max}
use ai_ssh.Base.Tests.{ltb, leb, if◌then◌else◌}
use ai_ssh.Base.Lists.{is_empty}
use ai_ssh.Base.Text.{Text, codes, text_eq}
use ai_ssh.Base.Result.{Result, ok, err, ◌>>=◌, ok_or}
use ai_ssh.Base.Utf8.{to_bytes}
use ai_ssh.Protocol.Types.{max_wait_seconds}
use ai_ssh.Protocol.Messages.{Message}
use ai_ssh.Mcp.Json.{Json}

-- `anyhow!` with a format string and its arguments.
abbrev pub say : String → List Text → Message
say template arguments = record { template = template; arguments = arguments }

-- `unwrap_or`, `and_then` and `map`.
abbrev pub or_default {ℓ} : {A : Type ℓ} → Option A → A → A
or_default none a = a
or_default (some b) a = b

abbrev pub and_then {ℓ κ} : {A : Type ℓ} {B : Type κ} → Option A → (A → Option B) → Option B
and_then none f = none
and_then (some a) f = f a

-- `filter`.
abbrev pub only_if {ℓ} : {A : Type ℓ} → (A → Bool) → Option A → Option A
only_if test none = none
only_if test (some a) = if test a then some a else none

pub data Detail : Type 0 where
  compact full : Detail

pub data Encoding : Type 0 where
  text base64 : Encoding

pub record Shaping : Type 0 where
  pub detail : Detail
  pub encoding : Encoding
  pub after_sequence : ℕ

abbrev pub is_compact : Detail → Bool
is_compact Detail.compact = true
is_compact Detail.full = false

abbrev pub first_page : Shaping → Bool
first_page s = leb s.after_sequence 0

module _ (J : Json) where
  open J use {Value}

  abbrev pub string_at : Value → String → Option Text
  string_at args key = and_then (J.get args (codes key)) J.as_str

  abbrev pub number_at : Value → String → Option ℕ
  number_at args key = and_then (J.get args (codes key)) J.as_u64

  -- `flag`.
  abbrev pub flag : Value → String → Bool → Bool
  flag args key default = or_default (and_then (J.get args (codes key)) J.as_bool) default

  -- `Detail::parse`.
  unfoldable pub parse_detail : Value → Result Message Detail
  parse_detail args = elim (string_at args "detail") [
    | none ↦ ok Detail.compact
    | some value ↦
        if text_eq value (codes "compact")
        then ok Detail.compact
        else if text_eq value (codes "full")
        then ok Detail.full
        else err (say "detail must be \"compact\" or \"full\", got {other:?}" (value ∷ []))
  ]

  -- `Encoding::parse`.
  unfoldable pub parse_encoding : Value → Result Message Encoding
  parse_encoding args = elim (string_at args "encoding") [
    | none ↦ ok Encoding.text
    | some value ↦
        if text_eq value (codes "text")
        then ok Encoding.text
        else if text_eq value (codes "base64")
        then ok Encoding.base64
        else err (say "encoding must be \"text\" or \"base64\", got {other:?}" (value ∷ []))
  ]

  -- `Shaping::parse`.
  unfoldable pub parse_shaping : Value → Result Message Shaping
  unfolding parse_detail parse_encoding
  parse_shaping args = do
    detail ← parse_detail args
    encoding ← parse_encoding args
    ok (record {
      detail = detail;
      encoding = encoding;
      after_sequence = or_default (number_at args "after_sequence") 0;
    })

  unfoldable pub required_string : Value → String → Result Message Text
  required_string args key =
      ok_or (only_if (λ (v : Text). not (is_empty v)) (string_at args key))
        (say "{key} must be a non-empty string" (codes key ∷ []))

  unfoldable pub optional_string : Value → String → Result Message (Option Text)
  optional_string args key = elim (J.get args (codes key)) [
    | none ↦ ok none
    | some value ↦ if J.is_null value then ok none else elim (J.as_str value) [
      | some v ↦ ok (some v)
      | none ↦ err (say "{key} must be a string" (codes key ∷ []))
    ]
  ]

  -- Numbers that do not fit a `u32` count as missing.
  abbrev pub u32_arg : Value → String → ℕ → ℕ
  u32_arg args key default =
      or_default (only_if (λ (v : ℕ). ltb v (2 ^ 32)) (number_at args key)) default

  unfoldable pub env_entries : List (Text × Value) → Result Message (List (Text × Text))
  env_entries [] = ok []
  env_entries ((k, v) ∷ rest) = do
    value ← ok_or (J.as_str v) (say "env.{k} must be a string" (k ∷ []))
    later ← env_entries rest
    ok ((k, value) ∷ later)

  unfoldable pub env_map : Value → Result Message (List (Text × Text))
  unfolding env_entries
  env_map args = elim (J.get args (codes "env")) [
    | none ↦ ok []
    | some value ↦ if J.is_null value then ok [] else elim (J.entries value) [
      | some values ↦ env_entries values
      | none ↦ err (say "env must be an object" [])
    ]
  ]

  -- `content_bytes`.
  abbrev pub bytes_of_content : Option Text → Option Text → Result Message (List ℕ)
  bytes_of_content (some content) (some encoded) =
      err (say "provide either content or content_base64, not both" [])
  bytes_of_content (some content) none = ok (to_bytes content)
  bytes_of_content none (some encoded) =
      ok_or (J.decode encoded) (say "content_base64 is not valid base64" [])
  bytes_of_content none none = err (say "content or content_base64 is required" [])

  unfoldable pub content_bytes : Value → Result Message (List ℕ)
  unfolding to_bytes
  content_bytes args = bytes_of_content (string_at args "content") (string_at args "content_base64")

  -- `mode`.
  abbrev pub checked_mode : Option ℕ → Result Message (Option ℕ)
  checked_mode none = ok none
  checked_mode (some value) =
      if leb value 0o7777
      then ok (some value)
      else err (say "mode must be an octal permission value up to 07777" [])

  unfoldable pub mode_arg : Value → Result Message (Option ℕ)
  mode_arg args = checked_mode (number_at args "mode")

  -- `after`, `max` and `wait`.
  abbrev pub after_arg : Value → ℕ
  after_arg args = or_default (number_at args "after_sequence") 0

  abbrev pub max_arg : Value → ℕ
  max_arg args = or_default (number_at args "max_bytes") 65536

  abbrev pub wait_arg : Value → ℕ → ℕ
  wait_arg args default = min (or_default (number_at args "wait_seconds") default) max_wait_seconds
