-- ===== src/Session/Helpers/Pieces.antt =====
-- crates/session/src/lib.rs: the commands of `sudo_write` and `remote_sha256`, of which a POSIX shell
-- runs pieces: what is before the redirection, and the two branches of the test for a hashing tool.
use ai_ssh.Base.{◌≡◌, refl, ◌∙◌, Bool, true, false, List, [], ◌∷◌, ◌++◌, some}
use ai_ssh.Base.Tests.{if◌then◌else◌}
use ai_ssh.Base.Text.{Text, codes}
use ai_ssh.Ssh.Command.{shell_quote}
use ai_ssh.Ssh.Shell.{between, read, emit, shell_words}
use ai_ssh.Ssh.Shell.Parts.{read-quote_end}
use ai_ssh.Session.Helpers.{write_command, sha256_command}

-- The words of the command that writes its input to a file.
abbrev pub tee_words : (append : Bool) → Text → List Text
tee_words append path =
    codes "sudo"
    ∷ codes "-n"
    ∷ codes "tee"
    ∷ (if append then codes "-a" ∷ codes "--" ∷ path ∷ [] else codes "--" ∷ path ∷ [])

-- The words of the two commands that hash a file.
abbrev pub sha256sum_words : Text → List Text
sha256sum_words path = codes "sudo" ∷ codes "-n" ∷ codes "sha256sum" ∷ codes "--" ∷ path ∷ []

abbrev pub shasum_words : Text → List Text
shasum_words path =
    codes "sudo" ∷ codes "-n" ∷ codes "shasum" ∷ codes "-a" ∷ codes "256" ∷ codes "--" ∷ path ∷ []

-- The command is the words, and behind them the redirection of the output.
abbrev pub WritesWith : (append : Bool) → Text → Type 0
WritesWith append path =
    (tee : Text) × (write_command append path ≡ tee ++ codes " > /dev/null")
    × (shell_words tee ≡ some (tee_words append path))

-- The command tests which tool there is, and runs one of the two.
abbrev pub HashesWith : Text → Type 0
HashesWith path =
    (sha256sum : Text) × (shasum : Text) × (sha256_command true path
      ≡ codes "if command -v sha256sum >/dev/null 2>&1; then "
        ++ (sha256sum
            ++ (codes "; elif command -v shasum >/dev/null 2>&1; then "
                ++ (shasum ++ codes "; else exit 3; fi"))))
    × (shell_words sha256sum ≡ some (sha256sum_words path))
    × (shell_words shasum ≡ some (shasum_words path))

read-append :
    (s : Text)
    → read between (codes "sudo -n tee -a -- " ++ s)
      ≡ emit (some (codes "sudo")) (
          emit (some (codes "-n")) (
            emit
              (some (codes "tee"))
              (emit (some (codes "-a")) (emit (some (codes "--")) (read between s)))))
unfolding read
read-append s = refl

read-replace :
    (s : Text)
    → read between (codes "sudo -n tee -- " ++ s)
      ≡ emit (some (codes "sudo")) (
          emit
            (some (codes "-n"))
            (emit (some (codes "tee")) (emit (some (codes "--")) (read between s))))
unfolding read
read-replace s = refl

read-sha256sum :
    (s : Text)
    → read between (codes "sudo -n sha256sum -- " ++ s)
      ≡ emit (some (codes "sudo")) (
          emit
            (some (codes "-n"))
            (emit (some (codes "sha256sum")) (emit (some (codes "--")) (read between s))))
unfolding read
read-sha256sum s = refl

read-shasum :
    (s : Text)
    → read between (codes "sudo -n shasum -a 256 -- " ++ s)
      ≡ emit (some (codes "sudo")) (
          emit (some (codes "-n")) (
            emit (some (codes "shasum")) (
              emit
                (some (codes "-a"))
                (emit (some (codes "256")) (emit (some (codes "--")) (read between s))))))
unfolding read
read-shasum s = refl

pub write_command-WritesWith : (append : Bool) (path : Text) → WritesWith append path
unfolding write_command
write_command-WritesWith true path = (
  codes "sudo -n tee -a -- " ++ shell_quote path,
  refl,
  read-append (shell_quote path) ∙ rw (read-quote_end path) refl,
)
write_command-WritesWith false path = (
  codes "sudo -n tee -- " ++ shell_quote path,
  refl,
  read-replace (shell_quote path) ∙ rw (read-quote_end path) refl,
)

pub sha256_command-HashesWith : (path : Text) → HashesWith path
unfolding sha256_command
sha256_command-HashesWith path = (
  codes "sudo -n sha256sum -- " ++ shell_quote path,
  codes "sudo -n shasum -a 256 -- " ++ shell_quote path,
  refl,
  read-sha256sum (shell_quote path) ∙ rw (read-quote_end path) refl,
  read-shasum (shell_quote path) ∙ rw (read-quote_end path) refl,
)
