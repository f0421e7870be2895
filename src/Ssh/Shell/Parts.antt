-- ===== src/Ssh/Shell/Parts.antt =====
-- crates/ssh/src/lib.rs: what the shell reads in the parts of a command line that `build_command`
-- puts together.
use mathlib.Core.List.{append_assoc, append-nil}
use ai_ssh.Base.{
  ℕ, ◌≡◌, refl, ap, sym, ◌∙◌, Bool, true, false, ◌&&◌, List, [], ◌∷◌, ◌++◌, map, none, some, arith,
  inl, inr,
}
use ai_ssh.Base.Tests.{Bool-cases}
use ai_ssh.Base.Text.{Text, codes}
use ai_ssh.Ssh.Command.{
  shell_quote, is_name_byte, are_name_bytes, is_env_name, join_with, cd_part, export_part,
  exec_part, invalid_name,
}
use ai_ssh.Ssh.Shell.{
  between, plain, read, move, read_plain, is_blank, emit, shell_words, shell_words-shell_quote,
  read-shell_quote,
}

read-plain_end : (w : Text) → read (plain w) [] ≡ some (w ∷ [])
unfolding read
read-plain_end w = refl

read-plain_space : (w s : Text) → read (plain w) (32 ∷ s) ≡ emit (some w) (read between s)
unfolding read
read-plain_space w s = refl

pub read-quote_end : (v : Text) → read between (shell_quote v) ≡ some (v ∷ [])
read-quote_end v =
    ap (read between) (sym (append-nil (shell_quote v)))
    ∙ shell_words-shell_quote v []
    ∙ read-plain_end v

-- A byte of a variable's name has no meaning of its own to the shell.
pub is_name_byte_plain :
    (first : Bool) (w : Text) (c : ℕ)
    → is_name_byte first c ≡ true
    → (is_blank c ≡ false) × (read_plain w c ≡ some (plain (w ++ c ∷ []), none))
unfolding is_name_byte is_blank read_plain
is_name_byte_plain first w c h = ground arith

both : {a b : Bool} → (a && b) ≡ true → (a ≡ true) × (b ≡ true)
both h = ground arith

read-name_byte :
    (first : Bool) (w s : Text) (c : ℕ)
    → is_name_byte first c ≡ true
    → read (plain w) (c ∷ s) ≡ read (plain (w ++ c ∷ [])) s
unfolding read
read-name_byte first w s c h =
    let (visible, continues) = is_name_byte_plain first w c h in rw (visible, continues, read, move)

read-first_byte :
    (s : Text) (c : ℕ) → is_name_byte true c ≡ true → read between (c ∷ s) ≡ read (plain (c ∷ [])) s
unfolding read
read-first_byte s c h =
    let (visible, continues) = is_name_byte_plain true [] c h in rw (visible, continues, read, move)

pub read-name :
    (w k rest : Text)
    → are_name_bytes false k ≡ true
    → read (plain w) (k ++ rest) ≡ read (plain (w ++ k)) rest
unfolding are_name_bytes
read-name w [] rest h = rw (append-nil w)
read-name w (c ∷ k) rest h =
    read-name_byte false w (k ++ rest) c (both h).0
    ∙ read-name (w ++ c ∷ []) k rest (both h).1
    ∙ ap (λ t. read (plain t) rest) (append_assoc w (c ∷ []) k)

read-env_name :
    (k rest : Text) → is_env_name k ≡ true → read between (k ++ rest) ≡ read (plain k) rest
unfolding is_env_name
read-env_name [] rest h = absurd (ground arith)
read-env_name (c ∷ k) rest h =
    read-first_byte (k ++ rest) c (both h).0 ∙ read-name (c ∷ []) k rest (both h).1

read-equals : (w s : Text) → read (plain w) (b'=' ∷ s) ≡ read (plain (w ++ b'=' ∷ [])) s
unfolding read
read-equals w s = refl

-- `key=value` as one word.
abbrev pub assignment : Text × Text → Text
assignment (k, v) = k ++ b'=' ∷ v

read-assignment :
    (k v rest : Text)
    → is_env_name k ≡ true
    → read between (k ++ b'=' ∷ (shell_quote v ++ rest)) ≡ read (plain (assignment (k, v))) rest
read-assignment k v rest h =
    read-env_name k (b'=' ∷ (shell_quote v ++ rest)) h
    ∙ read-equals k (shell_quote v ++ rest)
    ∙ read-shell_quote (k ++ b'=' ∷ []) v rest
    ∙ ap (λ t. read (plain t) rest) (append_assoc k (b'=' ∷ []) v)

abbrev pub export_words : List (Text × Text) → List Text
export_words [] = []
export_words (kv ∷ env) = codes "export" ∷ assignment kv ∷ export_words env

read-export_word :
    (s : Text) → read between (codes "export " ++ s) ≡ emit (some (codes "export")) (read between s)
unfolding read
read-export_word s = refl

read-export_part :
    (k v rest : Text)
    → is_env_name k ≡ true
    → read between (export_part (k, v) ++ rest)
      ≡ emit (some (codes "export")) (read (plain (assignment (k, v))) rest)
unfolding export_part
read-export_part k v rest h =
    ap (λ t. read between (codes "export " ++ t)) (append_assoc k (b'=' ∷ shell_quote v) rest)
    ∙ read-export_word (k ++ b'=' ∷ (shell_quote v ++ rest))
    ∙ ap (emit (some (codes "export"))) (read-assignment k v rest h)

valid_name :
    (k v : Text) (env : List (Text × Text))
    → invalid_name ((k, v) ∷ env) ≡ none
    → (is_env_name k ≡ true) × (invalid_name env ≡ none)
unfolding invalid_name
valid_name k v env h = elim (Bool-cases (is_env_name k)) [
  | inl valid ↦ (valid, ground arith)
  | inr invalid ↦ absurd (ground arith)
]

read-between_nil : read between [] ≡ some []
unfolding read
read-between_nil = refl

-- The exports of an environment, in one line.
read-exports :
    (env : List (Text × Text))
    → invalid_name env ≡ none
    → read between (join_with (codes " ") (map export_part env)) ≡ some (export_words env)
unfolding join_with
read-exports [] h = read-between_nil
read-exports ((k, v) ∷ []) h =
    ap (read between) (sym (append-nil (export_part (k, v))))
    ∙ read-export_part k v [] (valid_name k v [] h).0
    ∙ ap (emit (some (codes "export"))) (read-plain_end (assignment (k, v)))
read-exports ((k, v) ∷ (j, u) ∷ env) h =
    let (valid, later) = valid_name k v ((j, u) ∷ env) h in
    let line = join_with (codes " ") (map export_part ((j, u) ∷ env)) in
    read-export_part k v (codes " " ++ line) valid
    ∙ ap (emit (some (codes "export"))) (read-plain_space (assignment (k, v)) line)
    ∙ ap (λ t. emit (some (codes "export")) (emit (some (assignment (k, v))) t))
        (read-exports ((j, u) ∷ env) later)

read-cd_part :
    (cwd : Text)
    → read between (cd_part cwd) ≡ emit (some (codes "cd")) (read between (shell_quote cwd))
unfolding read cd_part
read-cd_part cwd = refl

read-exec_part :
    (command : Text)
    → read between (exec_part command)
      ≡ emit (some (codes "exec")) (
          emit
            (some (codes "/bin/sh"))
            (emit (some (codes "-c")) (read between (shell_quote command))))
unfolding read exec_part
read-exec_part command = refl

-- What the shell makes of the parts of a command line, whatever characters the caller's texts hold:
-- `cd` has the directory as its one argument; the environment, when every name in it is accepted, is
-- the assignments of the given values, each behind the word `export`; and `/bin/sh -c` has the
-- command as its one argument.
pub command_parts_words :
    (command cwd : Text) (env : List (Text × Text))
    → invalid_name env ≡ none
    → (shell_words (cd_part cwd) ≡ some (codes "cd" ∷ cwd ∷ []))
      × (shell_words (join_with (codes " ") (map export_part env)) ≡ some (export_words env))
      × (shell_words (exec_part command)
          ≡ some (codes "exec" ∷ codes "/bin/sh" ∷ codes "-c" ∷ command ∷ []))
command_parts_words command cwd env h = (
  read-cd_part cwd ∙ ap (emit (some (codes "cd"))) (read-quote_end cwd),
  read-exports env h,
  read-exec_part command
      ∙ ap
          (λ t.
            emit (some (codes "exec")) (emit (some (codes "/bin/sh")) (emit (some (codes "-c")) t)))
          (read-quote_end command),
)
