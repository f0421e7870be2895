-- ===== src/Ssh/Shell.antt =====
-- How a POSIX shell reads the words of a simple command: the reader that the texts built in
-- crates/ssh/src/lib.rs are meant for, and what it makes of quoted texts.
pub mod Parts
use mathlib.Core.List.{append_assoc, append-nil}
use ai_ssh.Base.{
  ℕ, ◌≡◌, refl, ap, sym, ◌∙◌, Bool, true, false, not, ◌&&◌, ◌||◌, List, [], ◌∷◌, ◌++◌, map, Option,
  none, some, arith, inl, inr,
}
use ai_ssh.Base.Tests.{leb, ◌==◌, ==_iff, Bool-cases, if◌then◌else◌}
use ai_ssh.Base.Lists.{All, is_empty}
use ai_ssh.Base.Text.{Text, codes}
use ai_ssh.Ssh.Command.{escape_quotes, shell_quote}

-- Where the reader stands: between words, in a word, in single quotes, or behind a backslash; with
-- the word so far.
pub data Mode : Type 0 where
  between : Mode
  plain quoted escaped : Text → Mode

-- Space, tab and newline.
unfoldable pub is_blank : ℕ → Bool
is_blank c = c == 32 || c == 9 || c == 10

-- The characters that mean more than themselves outside quotes: operators, expansions, patterns and
-- comments. This reader knows only plain words and gives up on them.
unfoldable pub is_special : ℕ → Bool
is_special c =
    c == b';'
    || c == b'&'
    || c == b'|'
    || c == b'<'
    || c == b'>'
    || c == b'('
    || c == b')'
    || c == b'$'
    || c == b'`'
    || c == b'"'
    || c == b'*'
    || c == b'?'
    || c == b'['
    || c == b'#'
    || c == b'~'

-- The next mode, and the word that has ended, if one has.
abbrev pub Move : Type 0
Move = Option (Mode × Option Text)

-- An unquoted character that starts or continues the word `w`.
unfoldable pub read_plain : Text → ℕ → Move
unfolding is_special
read_plain w c =
    if c == b'\''
    then some (quoted w, none)
    else if c == b'\\'
    then some (escaped w, none)
    else if is_special c
    then none
    else some (plain (w ++ c ∷ []), none)

unfoldable pub move : Mode → ℕ → Move
unfolding is_blank read_plain
move between c = if is_blank c then some (between, none) else read_plain [] c
move (plain w) c = if is_blank c then some (between, some w) else read_plain w c
move (quoted w) c = if c == b'\'' then some (plain w, none) else some (quoted (w ++ c ∷ []), none)
move (escaped w) c = some (plain (w ++ c ∷ []), none)

abbrev pub emit : Option Text → Option (List Text) → Option (List Text)
emit none ws = ws
emit (some w) none = none
emit (some w) (some ws) = some (w ∷ ws)

-- The words of a text; `none` if it ends inside quotes or is no plain command.
unfoldable pub read : Mode → Text → Option (List Text)
unfolding move
read between [] = some []
read (plain w) [] = some (w ∷ [])
read (quoted w) [] = none
read (escaped w) [] = none
read m (c ∷ s) = elim (move m c) [ none ↦ none | some (m', out) ↦ emit out (read m' s) ]

abbrev pub shell_words : Text → Option (List Text)
shell_words s = read between s

read-quoted :
    (w s : Text) (c : ℕ)
    → (c == b'\'') ≡ false
    → read (quoted w) (c ∷ s) ≡ read (quoted (w ++ c ∷ [])) s
unfolding read
read-quoted w s c h = rw (h, read, move)

-- The quote, backslash, quote, quote of an escaped quote.
read-escaped_quote :
    (w s : Text)
    → read (quoted w) (b'\'' ∷ b'\\' ∷ b'\'' ∷ b'\'' ∷ s) ≡ read (quoted (w ++ b'\'' ∷ [])) s
unfolding read
read-escaped_quote w s = refl

read-end_quote : (w s : Text) → read (quoted w) (b'\'' ∷ s) ≡ read (plain w) s
unfolding read
read-end_quote w [] = refl
read-end_quote w (c ∷ s) = refl

-- Inside quotes, an escaped text and the closing quote read as the text.
read-escape_quotes :
    (w v rest : Text)
    → read (quoted w) (escape_quotes v ++ b'\'' ∷ rest) ≡ read (plain (w ++ v)) rest
unfolding escape_quotes
read-escape_quotes w [] rest = rw (append-nil w) (read-end_quote w rest)
read-escape_quotes w (c ∷ v) rest = elim (Bool-cases (c == b'\'')) [
  | inl quote ↦
      let same : c ≡ b'\'' = (==_iff c b'\'').0 quote in
      rw (quote, same)
        (read-escaped_quote w (escape_quotes v ++ b'\'' ∷ rest)
          ∙ read-escape_quotes (w ++ b'\'' ∷ []) v rest
          ∙ ap (λ t. read (plain t) rest) (append_assoc w (b'\'' ∷ []) v))
  | inr other ↦ rw other (
      read-quoted w (escape_quotes v ++ b'\'' ∷ rest) c other
      ∙ read-escape_quotes (w ++ c ∷ []) v rest
      ∙ ap (λ t. read (plain t) rest) (append_assoc w (c ∷ []) v))
]

-- A quoted text continues a word by exactly that text, whatever characters it holds.
pub read-shell_quote :
    (w v rest : Text) → read (plain w) (shell_quote v ++ rest) ≡ read (plain (w ++ v)) rest
unfolding shell_quote
read-shell_quote w v rest =
    unfold read in
    rw (append_assoc (escape_quotes v) (b'\'' ∷ []) rest) (read-escape_quotes w v rest)

-- A quoted text on its own is one word, the text itself, and what follows is read on.
pub shell_words-shell_quote :
    (v rest : Text) → read between (shell_quote v ++ rest) ≡ read (plain v) rest
unfolding shell_quote
shell_words-shell_quote v rest =
    unfold read in
    rw (append_assoc (escape_quotes v) (b'\'' ∷ []) rest) (read-escape_quotes [] v rest)
