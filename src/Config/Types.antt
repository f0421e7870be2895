-- ===== src/Config/Types.antt =====
-- crates/config/src/lib.rs: `Config`, `Target`, `Auth`, their defaults, and the errors.
use Prim.Native.String.{String}
use ai_ssh.Base.{ℕ, Bool, false, Option, List, []}
use ai_ssh.Base.Text.{Text}

pub data Auth : Type 0 where
  password : (password : Text) → Auth
  private_key : (path : Text) (passphrase : Option Text) → Auth

pub record Target : Type 0 where
  pub id : Text
  pub name : Text
  pub host : Text
  pub port : ℕ
  pub username : Text
  pub auth : Auth

pub record Config : Type 0 where
  pub version : ℕ
  pub retention_days : ℕ
  pub idle_timeout_seconds : ℕ
  pub connect_timeout_seconds : ℕ
  pub keepalive_seconds : ℕ
  pub recording_limit_mib : ℕ
  pub reconnect_attempts : ℕ
  pub reconnect_backoff_seconds : ℕ
  pub quit_daemon_on_app_exit : Bool
  pub launch_at_login : Bool
  pub targets : List Target

abbrev pub default_retention : ℕ
default_retention = 30

abbrev pub default_idle : ℕ
default_idle = 1800

abbrev pub default_connect : ℕ
default_connect = 15

abbrev pub default_keepalive : ℕ
default_keepalive = 30

abbrev pub default_recording : ℕ
default_recording = 500

abbrev pub default_reconnect_attempts : ℕ
default_reconnect_attempts = 1

abbrev pub default_reconnect_backoff : ℕ
default_reconnect_backoff = 2

abbrev pub default_port : ℕ
default_port = 22

abbrev pub default_config : Config
default_config = record {
  version = 1;
  retention_days = default_retention;
  idle_timeout_seconds = default_idle;
  connect_timeout_seconds = default_connect;
  keepalive_seconds = default_keepalive;
  recording_limit_mib = default_recording;
  reconnect_attempts = default_reconnect_attempts;
  reconnect_backoff_seconds = default_reconnect_backoff;
  quit_daemon_on_app_exit = false;
  launch_at_login = false;
  targets = [];
}

-- The errors of the code that is modelled; the message of an I/O error is a text.
pub data ConfigError : Type 0 where
  no_home : ConfigError
  insecure_permissions : (path detail : Text) → ConfigError
  key_outside_directory : Text → ConfigError
  io : Text → ConfigError
  parse : Text → ConfigError
  serialize : Text → ConfigError
  unsupported_version : ℕ → ConfigError
  invalid_target : Text → ConfigError
  invalid_setting : String → ConfigError
