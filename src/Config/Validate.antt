-- ===== src/Config/Validate.antt =====
-- crates/config/src/lib.rs: `validate` and `require_owner_only`.
pub mod Accepts
use ai_ssh.Base.{
  ℕ, ◌≤◌, ◌<◌, ◌≡◌, Bool, true, false, not, ◌&&◌, ◌||◌, List, [], ◌∷◌, Option, none, some,
}
use ai_ssh.Base.Tests.{leb, ltb, ◌==◌, if◌then◌else◌}
use ai_ssh.Base.Lists.{is_empty}
use ai_ssh.Base.Text.{Text, text_eq}
use ai_ssh.Base.Result.{Result, ok, err, ◌>>=◌, ◌>>◌, refuse_if, map_err}
use ai_ssh.Config.Types.{Config, Target, Auth, ConfigError}
use ai_ssh.Config.Paths.{Paths, FileSystem, check, key_path, starts_with}

-- `ids.contains`.
unfoldable pub contains : Text → List Text → Bool
contains id [] = false
contains id (j ∷ js) = text_eq j id || contains id js

unfoldable pub require_owner_only : FileSystem → Text → ℕ → Result ConfigError (Unit {0})
require_owner_only fs path mode =
    map_err (λ detail. ConfigError.insecure_permissions path detail) (check fs path mode)

-- The checks of a private key: it stands below the key directory, and only its owner can read it.
unfoldable pub validate_auth : FileSystem → Paths → Auth → Result ConfigError (Unit {0})
validate_auth fs paths (Auth.password p) = ok tt
validate_auth fs paths (Auth.private_key path passphrase) = do
  canonical ← map_err ConfigError.io (fs.canonicalize (key_path paths path))
  keys ← map_err ConfigError.io (fs.canonicalize paths.keys)
  refuse_if (not (starts_with canonical keys)) (ConfigError.key_outside_directory keys)
  require_owner_only fs canonical 0o600

unfoldable pub is_invalid_target : List Text → Target → Bool
is_invalid_target ids t =
    is_empty t.id
    || is_empty t.name
    || is_empty t.host
    || is_empty t.username
    || t.port == 0
    || contains t.id ids

-- The loop over the targets, with the ids of those before.
unfoldable pub validate_targets :
    FileSystem → Paths → List Text → List Target → Result ConfigError (Unit {0})
validate_targets fs paths ids [] = ok tt
validate_targets fs paths ids (t ∷ ts) = do
  refuse_if (is_invalid_target ids t) (ConfigError.invalid_target t.id)
  validate_auth fs paths t.auth
  validate_targets fs paths (t.id ∷ ids) ts

unfoldable pub validate_settings : Config → Result ConfigError (Unit {0})
validate_settings c = do
  refuse_if (not (c.version == 1)) (ConfigError.unsupported_version c.version)
  refuse_if (not (leb 1 c.retention_days && leb c.retention_days 3650))
      (ConfigError.invalid_setting "retention_days")
  refuse_if (c.idle_timeout_seconds == 0) (ConfigError.invalid_setting "idle_timeout_seconds")
  refuse_if (c.connect_timeout_seconds == 0) (ConfigError.invalid_setting "connect_timeout_seconds")
  refuse_if (c.keepalive_seconds == 0) (ConfigError.invalid_setting "keepalive_seconds")
  refuse_if (c.recording_limit_mib == 0) (ConfigError.invalid_setting "recording_limit_mib")
  refuse_if (not (leb 1 c.reconnect_attempts && leb c.reconnect_attempts 10))
      (ConfigError.invalid_setting "reconnect_attempts")
  refuse_if (ltb 60 c.reconnect_backoff_seconds)
      (ConfigError.invalid_setting "reconnect_backoff_seconds")

unfoldable pub validate : FileSystem → Paths → Config → Result ConfigError (Unit {0})
validate fs paths c = do validate_settings c; validate_targets fs paths [] c.targets
