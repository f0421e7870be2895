-- ===== src/Session/Helpers/Words.antt =====
-- crates/session/src/lib.rs: the helper commands as a POSIX shell reads them.
use native.Mathlib.Nat.{mod-lt}
use ai_ssh.Base.{
  ℕ, zero, suc, ◌+◌, ◌/◌, ◌%◌, ◌≤◌, ◌<◌, ◌≡◌, refl, ap, ◌∙◌, Bool, true, false, ◌&&◌, [], ◌∷◌, ◌++◌,
  some, arith, inl, inr,
}
use ai_ssh.Base.Tests.{ltb, ltb→lt, Bool-cases}
use ai_ssh.Base.Text.{Text, codes}
use ai_ssh.Ssh.Command.{shell_quote, is_name_byte, are_name_bytes}
use ai_ssh.Ssh.Shell.{between, plain, read, move, emit, shell_words}
use ai_ssh.Ssh.Shell.Parts.{read-quote_end, read-name, is_name_byte_plain}
use ai_ssh.Session.Helpers.{
  digits, decimal, octal, size_command, read_command, make_dir_command, chmod_command,
}
use ai_ssh.Session.Helpers.Pieces.{
  WritesWith, HashesWith, write_command-WritesWith, sha256_command-HashesWith,
}

are_name_bytes-append :
    (s t : Text)
    → are_name_bytes false s ≡ true
    → are_name_bytes false t ≡ true
    → are_name_bytes false (s ++ t) ≡ true
unfolding are_name_bytes
are_name_bytes-append [] t h k = k
are_name_bytes-append (c ∷ s) t h k = ground (arith, are_name_bytes-append s t)

digit_shows : (n : ℕ) → n < 10 → is_name_byte false (48 + n) ≡ true
unfolding is_name_byte
digit_shows n h = ground arith

below_ten : (base n : ℕ) → 0 < base → base ≤ 10 → n % base < 10
below_ten base n p h = omega (arith, mod-lt n p)

digits-are_name_bytes :
    (fuel base n : ℕ) → 0 < base → base ≤ 10 → are_name_bytes false (digits fuel base n) ≡ true
unfolding digits are_name_bytes
digits-are_name_bytes zero base n p h = refl
digits-are_name_bytes (suc fuel) base n p h = elim (Bool-cases (ltb n base)) [
  | inl last ↦ rw last (rw (digit_shows n (omega (arith, ltb→lt n base last))) refl)
  | inr more ↦ rw more (
      are_name_bytes-append (digits fuel base (n / base)) ((48 + n % base) ∷ [])
        (digits-are_name_bytes fuel base (n / base) p h)
        (rw (digit_shows (n % base) (below_ten base n p h)) refl))
]

read-size :
    (path : Text)
    → read between (size_command path)
      ≡ emit (some (codes "sudo")) (
          emit (some (codes "-n")) (
            emit (some (codes "wc")) (
              emit
                (some (codes "-c"))
                (emit (some (codes "--")) (read between (shell_quote path))))))
unfolding read size_command
read-size path = refl

read-make_dir :
    (path : Text)
    → read between (make_dir_command path)
      ≡ emit (some (codes "sudo")) (
          emit (some (codes "-n")) (
            emit (some (codes "mkdir")) (
              emit
                (some (codes "-p"))
                (emit (some (codes "--")) (read between (shell_quote path))))))
unfolding read make_dir_command
read-make_dir path = refl

read-number_byte :
    (s : Text) (c : ℕ)
    → is_name_byte false c ≡ true
    → read between (c ∷ s) ≡ read (plain (c ∷ [])) s
unfolding read
read-number_byte s c h =
    let (visible, continues) = is_name_byte_plain false [] c h in
    rw (visible, continues, read, move)

digits_show : (fuel base n : ℕ) → (c : ℕ) × (s : Text) × (digits (suc fuel) base n ≡ c ∷ s)
unfolding digits
digits_show zero base n = elim (Bool-cases (ltb n base)) [
  | inl last ↦ (48 + n, [], rw last refl)
  | inr more ↦ (48 + n % base, [], rw more refl)
]
digits_show (suc fuel) base n = elim (Bool-cases (ltb n base)) [
  | inl last ↦ (48 + n, [], rw last refl)
  | inr more ↦
      let (c, s, shows) = digits_show fuel base (n / base) in
      (c, s ++ (48 + n % base) ∷ [], rw more (rw shows refl))
]

both : {a b : Bool} → (a && b) ≡ true → (a ≡ true) × (b ≡ true)
both h = ground arith

read-word :
    (c : ℕ) (s rest : Text)
    → are_name_bytes false (c ∷ s) ≡ true
    → read between ((c ∷ s) ++ rest) ≡ read (plain (c ∷ s)) rest
unfolding are_name_bytes
read-word c s rest h =
    read-number_byte (s ++ rest) c (both h).0 ∙ read-name (c ∷ []) s rest (both h).1

-- A number is read as one word.
read-digits :
    (fuel base n : ℕ) (rest : Text)
    → 0 < base
    → base ≤ 10
    → read between (digits (suc fuel) base n ++ rest) ≡ read (plain (digits (suc fuel) base n)) rest
read-digits fuel base n rest p h =
    let (c, s, shows) = digits_show fuel base n in
    let names = digits-are_name_bytes (suc fuel) base n p h in
    rw shows (read-word c s rest (rw shows at names))

read-dashes :
    (w rest : Text)
    → read (plain w) (codes " -- " ++ rest)
      ≡ emit (some w) (emit (some (codes "--")) (read between rest))
unfolding read
read-dashes w rest = refl

read-head :
    (s : Text)
    → read between (codes "sudo -n head -c " ++ s)
      ≡ emit (some (codes "sudo")) (
          emit
            (some (codes "-n"))
            (emit (some (codes "head")) (emit (some (codes "-c")) (read between s))))
unfolding read
read-head s = refl

read-chmod :
    (s : Text)
    → read between (codes "sudo -n chmod " ++ s)
      ≡ emit
          (some (codes "sudo"))
          (emit (some (codes "-n")) (emit (some (codes "chmod")) (read between s)))
unfolding read
read-chmod s = refl

read-number_and_path :
    (base n : ℕ) (path : Text)
    → 0 < base
    → base ≤ 10
    → read between (digits 64 base n ++ (codes " -- " ++ shell_quote path))
      ≡ some (digits 64 base n ∷ codes "--" ∷ path ∷ [])
read-number_and_path base n path p h =
    read-digits 63 base n (codes " -- " ++ shell_quote path) p h
    ∙ read-dashes (digits 64 base n) (shell_quote path)
    ∙ ap (λ t. emit (some (digits 64 base n)) (emit (some (codes "--")) t)) (read-quote_end path)

-- The helper commands that run with sudo are what they are meant to be for a POSIX shell, whatever
-- characters the path holds: the program and its options, a number where there is one, and behind
-- `--` the path as the one argument that is left, so that no path is read as an option or as more
-- than one word. wc, head, mkdir and chmod are such commands as a whole; the write is one before its
-- redirection to /dev/null, and the digest is one in each of the two branches of its test.
pub helper_words :
    (path : Text) (max_bytes mode : ℕ) (append : Bool)
    → (shell_words (size_command path)
        ≡ some (codes "sudo" ∷ codes "-n" ∷ codes "wc" ∷ codes "-c" ∷ codes "--" ∷ path ∷ []))
      × (shell_words (read_command max_bytes path)
          ≡ some (
              codes "sudo"
              ∷ codes "-n"
              ∷ codes "head"
              ∷ codes "-c"
              ∷ decimal max_bytes
              ∷ codes "--"
              ∷ path
              ∷ []))
      × (shell_words (make_dir_command path)
          ≡ some (codes "sudo" ∷ codes "-n" ∷ codes "mkdir" ∷ codes "-p" ∷ codes "--" ∷ path ∷ []))
      × (shell_words (chmod_command mode path)
          ≡ some (codes "sudo" ∷ codes "-n" ∷ codes "chmod" ∷ octal mode ∷ codes "--" ∷ path ∷ []))
      × WritesWith append path
      × HashesWith path
unfolding read_command chmod_command
helper_words path max_bytes mode append = (
  read-size path ∙ rw (read-quote_end path) refl,
  read-head (decimal max_bytes ++ (codes " -- " ++ shell_quote path))
      ∙ rw (read-number_and_path 10 max_bytes path (omega arith) (omega arith)) refl,
  read-make_dir path ∙ rw (read-quote_end path) refl,
  read-chmod (octal mode ++ (codes " -- " ++ shell_quote path))
      ∙ rw (read-number_and_path 8 mode path (omega arith) (omega arith)) refl,
  write_command-WritesWith append path,
  sha256_command-HashesWith path,
)
