-- ===== src/Config/Paths.antt =====
-- crates/config/src/lib.rs: `Paths`; crates/config/src/permissions.rs on Unix. A `PathBuf` is its
-- text, with Unix separators.
use ai_ssh.Base.{ℕ, ◌%◌, Bool, true, false, ◌&&◌, List, [], ◌∷◌, ◌++◌, Option, none, some}
use ai_ssh.Base.Tests.{◌==◌, if◌then◌else◌}
use ai_ssh.Base.Lists.{is_empty}
use ai_ssh.Base.Text.{Text, codes, text_eq}
use ai_ssh.Base.Result.{Result, ok, err}

-- `Path::is_absolute`: the path begins with '/'.
unfoldable pub is_absolute : Text → Bool
is_absolute [] = false
is_absolute (c ∷ s) = c == b'/'

unfoldable pub ends_with_slash : Text → Bool
ends_with_slash [] = false
ends_with_slash (c ∷ []) = c == b'/'
ends_with_slash (c ∷ d ∷ s) = ends_with_slash (d ∷ s)

-- `Path::join`: an absolute path replaces the base.
unfoldable pub join : Text → Text → Text
unfolding is_absolute ends_with_slash
join base path =
    if is_absolute path
    then path
    else if is_empty base
    then path
    else if ends_with_slash base
    then base ++ path
    else base ++ b'/' ∷ path

-- `Path::components`, without the root: the names between separators, where an empty name is none
-- and "." is only kept in front.
unfoldable pub names_from : Text → Text → List Text
names_from name [] = if is_empty name then [] else name ∷ []
names_from name (c ∷ s) =
    let next = names_from [] s in
    let longer = names_from (name ++ c ∷ []) s in
    if c == b'/' then (if is_empty name then next else name ∷ next) else longer

unfoldable pub is_prefix : List Text → List Text → Bool
unfolding text_eq
is_prefix [] names = true
is_prefix (n ∷ ns) [] = false
is_prefix (n ∷ ns) (m ∷ ms) = text_eq n m && is_prefix ns ms

-- `Path::starts_with` on canonical paths: whole names are compared, not characters.
unfoldable pub starts_with : Text → Text → Bool
unfolding names_from is_prefix
starts_with path base = is_prefix (names_from [] base) (names_from [] path)

pub record Paths : Type 0 where
  pub root : Text
  pub config : Text
  pub keys : Text
  pub data_dir : Text
  pub run : Text
  pub bin : Text
  pub socket : Text
  pub database : Text

-- `Paths::under`.
unfoldable pub under : Text → Paths
unfolding join
under root =
    let data_path = join root (codes "data") in
    let run_path = join root (codes "run") in
    record {
      root = root;
      config = join root (codes "config.toml");
      keys = join root (codes "keys");
      data_dir = data_path;
      run = run_path;
      bin = join root (codes "bin");
      socket = join run_path (codes "aisshd.sock");
      database = join data_path (codes "aissh.db");
    }

-- `Paths::discover` with what the environment says of `AISSH_ROOT` and the home directory; an empty
-- value counts as unset. `none` is the error `NoHome`.
unfoldable pub discover : (aissh_root home : Option Text) → Option Paths
unfolding under
discover (some (c ∷ s)) home = some (under (c ∷ s))
discover _ none = none
discover _ (some home) = some (under (join home (codes ".aissh")))

-- `resolve_key_path` and the same choice in `validate`: a relative key stands in the key directory.
unfoldable pub key_path : Paths → Text → Text
unfolding join is_absolute
key_path paths path = if is_absolute path then path else join paths.keys path

-- What the code asks the file system.
pub record FileSystem : Type 0 where
  pub canonicalize : Text → Result Text Text
  pub mode_of : Text → Result Text ℕ

-- `permissions::check` on Unix: the low nine bits of the mode are the wanted mode. The message of the
-- refusal is its format string.
unfoldable pub check : FileSystem → Text → ℕ → Result Text (Unit {0})
check fs path mode = elim (fs.mode_of path) [
  | err e ↦ err e
  | ok actual ↦
      if (actual % 0o1000) == mode
      then ok tt
      else err (codes "expected mode {mode:o}, found {actual:o}")
]
