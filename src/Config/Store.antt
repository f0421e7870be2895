-- ===== src/Config/Store.antt =====
-- crates/config/src/lib.rs: `load`, `save_atomic` and `ensure_exists`. TOML is an argument, and so are
-- the errors of the disk.
pub mod Private
use ai_ssh.Base.{ℕ, ◌≡◌, Bool, true, false, List, [], ◌∷◌, Option, none, some}
use ai_ssh.Base.Tests.{if◌then◌else◌, is_some}
use ai_ssh.Base.Text.{Text}
use ai_ssh.Base.Result.{Result, ok, err, map_err, ◌>>=◌, ◌>>◌}
use ai_ssh.Config.Types.{Config, ConfigError, default_config}
use ai_ssh.Config.Paths.{Paths, FileSystem}
use ai_ssh.Config.Validate.{validate, require_owner_only}

-- A file: its mode, and its text.
pub record File : Type 0 where
  pub mode : ℕ
  pub contents : Text

-- The configuration file, and the temporary file beside it.
pub record Disk : Type 0 where
  pub config : Option File
  pub temp : Option File

-- The error of each request to the disk that fails, what is in a file when a write fails, the mode of a
-- new file, and the TOML of a configuration.
pub record Requests : Type 0 where
  pub ensures : Option Text
  pub opens : Option Text
  pub restricts : Option Text
  pub writes : Option Text
  pub syncs : Option Text
  pub renames : Option Text
  pub partial : Text
  pub new_mode : ℕ
  pub prints : Config → Result Text Text

abbrev Saved : Type 0
Saved = Result ConfigError (Unit {0}) × Disk

-- `file.sync_all` and `fs::rename`.
unfoldable pub replace : Requests → Disk → Saved
replace r d = elim r.syncs [
  | some e ↦ (err (ConfigError.io e), d)
  | none ↦ elim r.renames [
    | some e ↦ (err (ConfigError.io e), d)
    | none ↦ (ok tt, record { config = d.temp; temp = none })
  ]
]

-- The text is printed and written, when the file is restricted.
unfoldable pub write_text : Requests → Config → Disk → Saved
unfolding replace
write_text r c d = elim (r.prints c) [
  | err e ↦ (err (ConfigError.serialize e), d)
  | ok text ↦ elim r.writes [
    | some e ↦ (
      err (ConfigError.io e),
      record d { temp = some (record { mode = 0o600; contents = r.partial }) },
    )
    | none ↦ replace r (record d { temp = some (record { mode = 0o600; contents = text }) })
  ]
]

-- An existing file keeps its mode when it is opened and truncated.
abbrev pub opened : Requests → Option File → File
opened r none = record { mode = r.new_mode; contents = [] }
opened r (some file) = record file { contents = [] }

unfoldable pub write_temp : Requests → Config → Disk → Saved
unfolding write_text
write_temp r c d = elim r.opens [
  | some e ↦ (err (ConfigError.io e), d)
  | none ↦
      let empty = record d { temp = some (opened r d.temp) } in
      elim r.restricts [
        | some e ↦ (err (ConfigError.io e), empty)
        | none ↦ write_text r c (record d { temp = some (record { mode = 0o600; contents = [] }) })
      ]
]

unfoldable pub save_atomic : Requests → FileSystem → Paths → Config → Disk → Saved
unfolding write_temp
save_atomic r fs paths c d = elim r.ensures [
  | some e ↦ (err (ConfigError.io e), d)
  | none ↦ elim (validate fs paths c) [ err e ↦ (err e, d) | ok _ ↦ write_temp r c d ]
]

-- Also whether the file was made.
unfoldable pub ensure_exists : Requests → FileSystem → Paths → Disk → Result ConfigError Bool × Disk
unfolding save_atomic
ensure_exists r fs paths d = elim r.ensures [
  | some e ↦ (err (ConfigError.io e), d)
  | none ↦
      if is_some d.config
      then (ok false, d)
      else let saved = save_atomic r fs paths default_config d in
        (saved.0 >>= λ _. ok true, saved.1)
]

-- `reads` gives the text of a file, and `parses` the configuration in a text.
unfoldable pub load :
    FileSystem
    → (reads : Text → Result Text Text) → (parses : Text → Result Text Config) → Paths
    → Result ConfigError Config
load fs reads parses paths = do
  require_owner_only fs paths.config 0o600
  text ← map_err ConfigError.io (reads paths.config)
  config ← map_err ConfigError.parse (parses text)
  validate fs paths config
  ok config
