-- ===== src/Base/Utf8.antt =====
-- Rust's `str::from_utf8`, `String::from_utf8_lossy` and `char::len_utf8`: bytes are read one by one,
-- with those of a character that is not complete yet in front.
pub mod Append
use Prim.Native.Nat.{ℕ, ◌+◌, ◌*◌, ◌/◌, ◌%◌}
use mathlib.Core.Bool.{Bool, ◌&&◌}
use mathlib.Core.List.{List, [], ◌∷◌, ◌++◌}
use ai_ssh.Base.Tests.{ltb, leb, ◌==◌, if◌then◌else◌}
use ai_ssh.Base.Text.{Text}

-- What a byte does behind the pending bytes: it completes a character, asks for more, or is wrong.
pub data Verdict : Type 0 where
  char : ℕ → Verdict
  more wrong : Verdict

abbrev pub between : ℕ → ℕ → ℕ → Bool
between lo hi b = leb lo b && leb b hi

-- The second byte excludes overlong forms, surrogates and what is above U+10FFFF.
abbrev pub is_second : (lead : ℕ) → ℕ → Bool
is_second lead b =
    if lead == 0xe0
    then between 0xa0 0xbf b
    else if lead == 0xed
    then between 0x80 0x9f b
    else if lead == 0xf0
    then between 0x90 0xbf b
    else if lead == 0xf4
    then between 0x80 0x8f b
    else between 0x80 0xbf b

unfoldable pub accept : (pending : List ℕ) → ℕ → Verdict
accept [] a = if ltb a 0x80 then char a else if between 0xc2 0xf4 a then more else wrong
accept (a ∷ []) b =
    if is_second a b then (if ltb a 0xe0 then char (a % 32 * 64 + b % 64) else more) else wrong
accept (a ∷ b ∷ []) c =
    if between 0x80 0xbf c
    then (if ltb a 0xf0 then char (a % 16 * 4096 + b % 64 * 64 + c % 64) else more)
    else wrong
accept (a ∷ b ∷ c ∷ []) d =
    if between 0x80 0xbf d
    then char (a % 8 * 262144 + b % 64 * 4096 + c % 64 * 64 + d % 64)
    else wrong
accept (a ∷ b ∷ c ∷ d ∷ rest) e = wrong

-- `Ok(text)`; an error whose `error_len` is none, with the valid text and the bytes behind it; an
-- error in the middle.
pub data Utf8 : Type 0 where
  whole : Text → Utf8
  cut : Text → List ℕ → Utf8
  broken : Utf8

abbrev pub prepend : ℕ → Utf8 → Utf8
prepend c (whole t) = whole (c ∷ t)
prepend c (cut t pending) = cut (c ∷ t) pending
prepend c broken = broken

abbrev pub at_end : (pending : List ℕ) → Utf8
at_end [] = whole []
at_end (b ∷ bs) = cut [] (b ∷ bs)

unfoldable pub scan : (pending bytes : List ℕ) → Utf8
unfolding accept
scan pending [] = at_end pending
scan pending (b ∷ bs) = elim (accept pending b) [
  | char c ↦ prepend c (scan [] bs)
  | more ↦ scan (pending ++ b ∷ []) bs
  | wrong ↦ broken
]

unfoldable pub from_utf8 : List ℕ → Utf8
unfolding scan
from_utf8 bytes = scan [] bytes

-- U+FFFD
abbrev pub replacement : ℕ
replacement = 0xfffd

-- A maximal part of a character that is not completed becomes one replacement, and so does a byte
-- that begins no character.
unfoldable pub lossy : (pending bytes : List ℕ) → Text
unfolding accept
lossy [] [] = []
lossy (p ∷ ps) [] = replacement ∷ []
lossy pending (b ∷ bs) =
    let alone : Text = elim (accept [] b) [
      | char c ↦ c ∷ lossy [] bs
      | more ↦ lossy (b ∷ []) bs
      | wrong ↦ replacement ∷ lossy [] bs
    ] in
    elim (accept pending b) [
      | char c ↦ c ∷ lossy [] bs
      | more ↦ lossy (pending ++ b ∷ []) bs
      | wrong ↦ elim pending [ [] ↦ alone | p ∷ ps ↦ replacement ∷ alone ]
    ]

unfoldable pub from_utf8_lossy : List ℕ → Text
unfolding lossy
from_utf8_lossy bytes = lossy [] bytes

-- `char::len_utf8`, and `len` of a text in bytes.
abbrev pub len_utf8 : ℕ → ℕ
len_utf8 c = if ltb c 0x80 then 1 else if ltb c 0x800 then 2 else if ltb c 0x10000 then 3 else 4

abbrev pub byte_length : Text → ℕ
byte_length [] = 0
byte_length (c ∷ s) = len_utf8 c + byte_length s

-- `str::as_bytes`.
abbrev pub char_bytes : ℕ → List ℕ
char_bytes c =
    if ltb c 0x80
    then c ∷ []
    else if ltb c 0x800
    then (0xc0 + c / 64) ∷ (0x80 + c % 64) ∷ []
    else if ltb c 0x10000
    then (0xe0 + c / 4096) ∷ (0x80 + c / 64 % 64) ∷ (0x80 + c % 64) ∷ []
    else (0xf0 + c / 262144) ∷ (0x80 + c / 4096 % 64) ∷ (0x80 + c / 64 % 64) ∷ (0x80 + c % 64) ∷ []

unfoldable pub to_bytes : Text → List ℕ
to_bytes [] = []
to_bytes (c ∷ s) = char_bytes c ++ to_bytes s
