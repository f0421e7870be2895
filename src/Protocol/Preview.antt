-- ===== src/Protocol/Preview.antt =====
-- crates/protocol/src/lib.rs: `command_preview`.
use ai_ssh.Base.{
  ℕ, zero, suc, min, ◌+◌, ◌≤◌, ◌<◌, ◌≡◌, refl, ap, false, [], ◌∷◌, ◌++◌, arith, inl, inr, ◌∙◌,
}
use ai_ssh.Base.Tests.{leb, if◌then◌else◌, Bool-cases}
use ai_ssh.Base.Lists.{length, take, length-append, length-take}
use ai_ssh.Base.Text.{Text, is_whitespace, trim_start, trim_end, trim}
use ai_ssh.Protocol.Types.{command_preview_chars}

-- '…'
abbrev ellipsis : ℕ
ellipsis = 0x2026

-- A text cut after its first `limit` characters, with the ellipsis that says so.
unfoldable pub shorten : ℕ → Text → Text
shorten limit trimmed =
    if leb (length trimmed) limit then trimmed else take limit trimmed ++ ellipsis ∷ []

unfoldable pub command_preview : Text → Text
unfolding shorten trim
command_preview command = shorten command_preview_chars (trim command)

-- The first character, if there is one, is not white space.
abbrev IsFlush : Text → Type 0
IsFlush [] = Unit
IsFlush (c ∷ s) = is_whitespace c ≡ false

trim_start-IsFlush : (s : Text) → IsFlush (trim_start s)
unfolding trim_start
trim_start-IsFlush [] = tt
trim_start-IsFlush (c ∷ s) = ground (arith, trim_start-IsFlush s)

trim_start-eq_of_IsFlush : (s : Text) → IsFlush s → trim_start s ≡ s
unfolding trim_start
trim_start-eq_of_IsFlush [] h = refl
trim_start-eq_of_IsFlush (c ∷ s) h = ground arith

trim_end-IsFlush : (s : Text) → IsFlush s → IsFlush (trim_end s)
unfolding trim_end
trim_end-IsFlush [] h = tt
trim_end-IsFlush (c ∷ s) h = ground arith

trim_end-trim_end : (s : Text) → trim_end (trim_end s) ≡ trim_end s
unfolding trim_end
trim_end-trim_end [] = refl
trim_end-trim_end (c ∷ s) = ground (arith, trim_end-trim_end s)

trim_end-append_last :
    (s : Text) (c : ℕ) → is_whitespace c ≡ false → trim_end (s ++ c ∷ []) ≡ s ++ c ∷ []
unfolding trim_end
trim_end-append_last [] c h = ground arith
trim_end-append_last (d ∷ []) c h = ground (arith, trim_end-append_last [] c h)
trim_end-append_last (d ∷ e ∷ s) c h = ground (arith, trim_end-append_last (e ∷ s) c h)

trim-eq_of_ends : (s : Text) → IsFlush s → trim_end s ≡ s → trim s ≡ s
unfolding trim
trim-eq_of_ends s flush last = ap trim_end (trim_start-eq_of_IsFlush s flush) ∙ last

take-IsFlush : (n : ℕ) (s t : Text) → n < length s → 0 < n → IsFlush s → IsFlush (take n s ++ t)
take-IsFlush zero s t h p f = absurd (omega arith)
take-IsFlush (suc n) [] t h p f = absurd (omega arith)
take-IsFlush (suc n) (c ∷ s) t h p f = f

take-take_append : (n : ℕ) (s t : Text) → n ≤ length s → take n (take n s ++ t) ≡ take n s
take-take_append zero s t h = refl
take-take_append (suc n) [] t h = absurd (omega arith)
take-take_append (suc n) (c ∷ s) t h = ap (◌∷◌ c) (take-take_append n s t (omega arith))

trim-IsFlush : (s : Text) → IsFlush (trim s)
unfolding trim
trim-IsFlush s = trim_end-IsFlush (trim_start s) (trim_start-IsFlush s)

trim-trim : (s : Text) → trim (trim s) ≡ trim s
trim-trim s =
    trim-eq_of_ends (trim s) (trim-IsFlush s) (unfold trim in trim_end-trim_end (trim_start s))

ellipsis_shows : is_whitespace ellipsis ≡ false
unfolding is_whitespace
ellipsis_shows = refl

length-cut : (n : ℕ) (s : Text) → length (take n s ++ ellipsis ∷ []) ≡ min n (length s) + 1
length-cut n s = omega (arith, length-append (take n s) (ellipsis ∷ []), length-take n s)

length-shorten-le : (n : ℕ) (s : Text) → length (shorten n s) ≤ n + 1
unfolding shorten
length-shorten-le n s = ground (arith, length-cut n s)

shorten-shorten : (n : ℕ) (s : Text) → shorten n (shorten n s) ≡ shorten n s
unfolding shorten
shorten-shorten n s = ground (arith, length-cut n s, take-take_append n s (ellipsis ∷ []))

trim-shorten :
    (n : ℕ) (s : Text) → 0 < n → IsFlush s → trim s ≡ s → trim (shorten n s) ≡ shorten n s
unfolding shorten
trim-shorten n s p flush h = elim (Bool-cases (leb (length s) n)) [
  | inl short ↦ rw short h
  | inr long ↦ rw long (
      trim-eq_of_ends (take n s ++ ellipsis ∷ [])
        (take-IsFlush n s (ellipsis ∷ []) (ground arith) p flush)
        (trim_end-append_last (take n s) ellipsis ellipsis_shows))
]

-- A preview shows at most 200 characters of the command and one ellipsis.
pub length-command_preview-le :
    (command : Text) → length (command_preview command) ≤ command_preview_chars + 1
unfolding command_preview
length-command_preview-le command = length-shorten-le command_preview_chars (trim command)

-- The preview of a preview is the preview: a summary that is summarised again loses nothing more.
pub command_preview-command_preview :
    (command : Text) → command_preview (command_preview command) ≡ command_preview command
unfolding command_preview
command_preview-command_preview command =
    let t = trim command in
    ap (shorten command_preview_chars) (
      trim-shorten command_preview_chars t (omega arith) (trim-IsFlush command) (trim-trim command))
    ∙ shorten-shorten command_preview_chars t
