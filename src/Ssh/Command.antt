-- ===== src/Ssh/Command.antt =====
-- crates/ssh/src/lib.rs: `shell_quote`, `build_command` and `is_utf8_locale`.
use ai_ssh.Base.{
  ℕ, ◌+◌, ◌-◌, ◌≡◌, refl, Bool, true, false, not, ◌&&◌, ◌||◌, List, [], ◌∷◌, ◌++◌, map, Option,
  none, some,
}
use ai_ssh.Base.Tests.{leb, ◌==◌, if◌then◌else◌}
use ai_ssh.Base.Lists.{length, is_empty, drop}
use ai_ssh.Base.Text.{Text, codes, text_eq, trim}
use ai_ssh.Base.Result.{Result, ok, err}

-- `value.replace('\'', "'\\''")`.
unfoldable pub escape_quotes : Text → Text
escape_quotes [] = []
escape_quotes (c ∷ s) =
    if c == b'\'' then b'\'' ∷ b'\\' ∷ b'\'' ∷ b'\'' ∷ escape_quotes s else c ∷ escape_quotes s

unfoldable pub shell_quote : Text → Text
unfolding escape_quotes
shell_quote value = b'\'' ∷ escape_quotes value ++ b'\'' ∷ []

unfoldable pub is_ascii_alphabetic : ℕ → Bool
is_ascii_alphabetic c = (leb b'a' c && leb c b'z') || (leb b'A' c && leb c b'Z')

unfoldable pub is_ascii_digit : ℕ → Bool
is_ascii_digit c = leb b'0' c && leb c b'9'

-- The test of one byte of a variable's name; a digit may not stand first.
unfoldable pub is_name_byte : (first : Bool) → ℕ → Bool
unfolding is_ascii_alphabetic is_ascii_digit
is_name_byte first b = b == b'_' || is_ascii_alphabetic b || (not first && is_ascii_digit b)

unfoldable pub are_name_bytes : (first : Bool) → Text → Bool
unfolding is_name_byte
are_name_bytes first [] = true
are_name_bytes first (b ∷ s) = is_name_byte first b && are_name_bytes false s

-- A byte of a multi-byte character is at least 128, so a name passes as bytes exactly when it passes
-- as code points.
unfoldable pub is_env_name : Text → Bool
unfolding are_name_bytes
is_env_name name = not (is_empty name) && are_name_bytes true name

-- `Vec::join`.
unfoldable pub join_with : Text → List Text → Text
join_with separator [] = []
join_with separator (t ∷ []) = t
join_with separator (t ∷ u ∷ ts) = t ++ (separator ++ join_with separator (u ∷ ts))

abbrev utf8_locale_prelude : Text
utf8_locale_prelude =
    codes
      "if command -v locale >/dev/null 2>&1; then _aissh_locale=$(locale -a 2>/dev/null | sed -n '/[Uu][Tt][Ff][-_.]*8$/p' | sed -n '1p'); if [ -n \"$_aissh_locale\" ]; then export LANG=\"$_aissh_locale\" LC_ALL=\"$_aissh_locale\"; fi; unset _aissh_locale; fi"

-- `env.contains_key`.
unfoldable pub has_key : Text → List (Text × Text) → Bool
has_key k [] = false
has_key k ((j, v) ∷ env) = text_eq j k || has_key k env

-- The loop over `env.keys()`: the first name that is not a shell variable's.
unfoldable pub invalid_name : List (Text × Text) → Option Text
unfolding is_env_name
invalid_name [] = none
invalid_name ((k, v) ∷ env) = if is_env_name k then invalid_name env else some k

unfoldable pub cd_part : Text → Text
unfolding shell_quote
cd_part cwd = codes "cd " ++ shell_quote cwd

-- One assignment, `export {key}={quoted}`.
unfoldable pub export_part : Text × Text → Text
unfolding shell_quote
export_part (key, value) = codes "export " ++ key ++ b'=' ∷ shell_quote value

unfoldable pub exec_part : Text → Text
unfolding shell_quote
exec_part command = codes "exec /bin/sh -c " ++ shell_quote command

abbrev part_if : Bool → Text → List Text
part_if true t = t ∷ []
part_if false t = []

abbrev cd_parts : Option Text → List Text
cd_parts none = []
cd_parts (some cwd) = cd_part cwd ∷ []

-- The `parts` of the command line, in order. The environment is in the order of its names.
unfoldable pub command_parts : Text → Option Text → List (Text × Text) → List Text
unfolding cd_part export_part exec_part has_key join_with
command_parts command cwd env =
    cd_parts cwd
    ++ part_if (not (is_empty env)) (join_with (codes " ") (map export_part env))
    ++ part_if (not (has_key (codes "LANG") env) && not (has_key (codes "LC_ALL") env))
        utf8_locale_prelude
    ++ exec_part command ∷ []

-- `debug` is Rust's `{:?}` of a text, which the message of the error shows.
unfoldable pub build_command :
    (debug : Text → Text) → Text → Option Text → List (Text × Text) → Result Text Text
unfolding command_parts invalid_name
build_command debug command cwd env = elim (invalid_name env) [
  | some name ↦ err (codes "INVALID_ARGUMENT: invalid environment variable name " ++ debug name)
  | none ↦ ok (join_with (codes " && ") (command_parts command cwd env))
]

unfoldable pub to_ascii_lowercase : Text → Text
to_ascii_lowercase [] = []
to_ascii_lowercase (c ∷ s) = (if leb b'A' c && leb c b'Z' then c + 32 else c) ∷ to_ascii_lowercase s

unfoldable pub ends_with : Text → Text → Bool
unfolding text_eq
ends_with suffix s =
    leb (length suffix) (length s) && text_eq (drop (length s - length suffix) s) suffix

unfoldable pub is_utf8_locale : Text → Bool
unfolding trim to_ascii_lowercase ends_with
is_utf8_locale value =
    let lower = to_ascii_lowercase (trim value) in
    ends_with (codes "utf-8") lower
    || ends_with (codes "utf8") lower
    || ends_with (codes "utf_8") lower

-- The test's own case: the directory and the value are quoted, the names are not.
builds_scoped_exec_command :
    build_command
      (λ t. t)
      (codes "printf ok")
      (some (codes "/tmp/a b"))
      ((codes "LANG", codes "a'b") ∷ [])
    ≡ ok (codes "cd '/tmp/a b' && export LANG='a'\\''b' && exec /bin/sh -c 'printf ok'")
unfolding build_command text_eq
builds_scoped_exec_command = refl
