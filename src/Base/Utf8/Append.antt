-- ===== src/Base/Utf8/Append.antt =====
-- Reading bytes in parts: what was left over by one part goes in front of the next.
use mathlib.Core.List.{append_assoc}
use ai_ssh.Base.{◌≡◌, ◌⊎◌, inl, inr, refl, ap, sym, ◌∙◌, Bool, true, false, List, [], ◌∷◌, ◌++◌, ℕ}
use ai_ssh.Base.Text.{Text}
use ai_ssh.Base.Utf8.{
  Verdict, char, more, wrong, accept, Utf8, whole, cut, broken, prepend, at_end, scan,
}

abbrev pub prepend_all : Text → Utf8 → Utf8
prepend_all [] u = u
prepend_all (c ∷ t) u = prepend c (prepend_all t u)

-- What is read of the bytes that follow.
abbrev pub continue : Utf8 → List ℕ → Utf8
continue (whole t) bytes = prepend_all t (scan [] bytes)
continue (cut t pending) bytes = prepend_all t (scan pending bytes)
continue broken bytes = broken

continue-prepend :
    (c : ℕ) (u : Utf8) (bytes : List ℕ)
    → continue (prepend c u) bytes ≡ prepend c (continue u bytes)
continue-prepend c (whole t) bytes = refl
continue-prepend c (cut t pending) bytes = refl
continue-prepend c broken bytes = refl

continue-at_end : (pending bytes : List ℕ) → continue (at_end pending) bytes ≡ scan pending bytes
continue-at_end [] bytes = refl
continue-at_end (b ∷ bs) bytes = refl

pub Verdict-cases : (v : Verdict) → ((c : ℕ) × (v ≡ char c)) ⊎ ((v ≡ more) ⊎ (v ≡ wrong))
Verdict-cases (char c) = inl (c, refl)
Verdict-cases more = inr (inl refl)
Verdict-cases wrong = inr (inr refl)

-- Reading two parts is reading the first, and then the second behind what is pending.
pub scan-append : (pending xs ys : List ℕ) → scan pending (xs ++ ys) ≡ continue (scan pending xs) ys
unfolding scan
scan-append pending [] ys = sym (continue-at_end pending ys)
scan-append pending (x ∷ xs) ys = elim (Verdict-cases (accept pending x)) [
  | inl (c, e) ↦
      rw (e, scan)
        (ap (prepend c) (scan-append [] xs ys) ∙ sym (continue-prepend c (scan [] xs) ys))
  | inr (inl e) ↦ rw (e, scan) (scan-append (pending ++ x ∷ []) xs ys)
  | inr (inr e) ↦ rw (e, scan) refl
]

-- The bytes are the beginning of a character that is not complete.
abbrev pub IsPending : List ℕ → Type 0
IsPending pending = (bytes : List ℕ) → scan [] (pending ++ bytes) ≡ scan pending bytes

scan_more :
    (pending : List ℕ) (b : ℕ) (bytes : List ℕ)
    → accept pending b ≡ more
    → scan pending (b ∷ bytes) ≡ scan (pending ++ b ∷ []) bytes
unfolding scan
scan_more pending b bytes e = rw (e, scan) refl

IsPending-more :
    (pending : List ℕ) (b : ℕ)
    → IsPending pending
    → accept pending b ≡ more
    → IsPending (pending ++ b ∷ [])
IsPending-more pending b h e bytes =
    ap (scan []) (append_assoc pending (b ∷ []) bytes) ∙ h (b ∷ bytes) ∙ scan_more pending b bytes e

-- The text that was read, and the bytes that are left over.
abbrev pub text_of : Utf8 → Text
text_of (whole t) = t
text_of (cut t pending) = t
text_of broken = []

abbrev pub rest_of : Utf8 → List ℕ
rest_of (whole t) = []
rest_of (cut t pending) = pending
rest_of broken = []

rest_of-prepend : (c : ℕ) (u : Utf8) → rest_of (prepend c u) ≡ rest_of u
rest_of-prepend c (whole t) = refl
rest_of-prepend c (cut t pending) = refl
rest_of-prepend c broken = refl

rest_of-at_end : (pending : List ℕ) → rest_of (at_end pending) ≡ pending
rest_of-at_end [] = refl
rest_of-at_end (b ∷ bs) = refl

-- What is left over is pending.
pub scan-IsPending :
    (pending bytes : List ℕ) → IsPending pending → IsPending (rest_of (scan pending bytes))
unfolding scan
scan-IsPending pending [] h = rw (rest_of-at_end pending) h
scan-IsPending pending (b ∷ bs) h = elim (Verdict-cases (accept pending b)) [
  | inl (c, e) ↦
      rw (e, scan) (rw (rest_of-prepend c (scan [] bs)) (scan-IsPending [] bs (λ bytes. refl)))
  | inr (inl e) ↦
      rw (e, scan) (scan-IsPending (pending ++ b ∷ []) bs (IsPending-more pending b h e))
  | inr (inr e) ↦ rw (e, scan) (λ bytes. refl)
]

-- The bytes so far have no error.
abbrev pub is_sound : Utf8 → Bool
is_sound (whole t) = true
is_sound (cut t pending) = true
is_sound broken = false

prepend_all-whole : (t s : Text) → prepend_all t (whole s) ≡ whole (t ++ s)
prepend_all-whole [] s = refl
prepend_all-whole (c ∷ t) s = ap (prepend c) (prepend_all-whole t s)

prepend_all-cut : (t s : Text) (q : List ℕ) → prepend_all t (cut s q) ≡ cut (t ++ s) q
prepend_all-cut [] s q = refl
prepend_all-cut (c ∷ t) s q = ap (prepend c) (prepend_all-cut t s q)

prepend_all-broken : (t : Text) → prepend_all t broken ≡ broken
prepend_all-broken [] = refl
prepend_all-broken (c ∷ t) = ap (prepend c) (prepend_all-broken t)

parts_of :
    (t : Text) (u : Utf8)
    → is_sound (prepend_all t u) ≡ true
    → (is_sound u ≡ true)
      × (text_of (prepend_all t u) ≡ t ++ text_of u)
      × (rest_of (prepend_all t u) ≡ rest_of u)
parts_of t (whole s) h = rw (prepend_all-whole t s) (refl, refl, refl)
parts_of t (cut s q) h = rw (prepend_all-cut t s q) (refl, refl, refl)
parts_of t broken h = absurd (cc (prepend_all-broken t))

parts_continue :
    (first : Utf8) (ys : List ℕ)
    → is_sound (continue first ys) ≡ true
    → let second = scan (rest_of first) ys in
      (is_sound first ≡ true)
      × (is_sound second ≡ true)
      × (text_of (continue first ys) ≡ text_of first ++ text_of second)
      × (rest_of (continue first ys) ≡ rest_of second)
parts_continue (whole t) ys h =
    let (sound, text, rest) = parts_of t (scan [] ys) h in (refl, sound, text, rest)
parts_continue (cut t q) ys h =
    let (sound, text, rest) = parts_of t (scan q ys) h in (refl, sound, text, rest)
parts_continue broken ys h = absurd (cc)

-- Bytes without an error can be read in two parts, where the second part starts with what was left
-- over by the first: the texts are those of the two parts, one after the other.
pub scan_parts :
    (pending xs ys : List ℕ)
    → is_sound (scan pending (xs ++ ys)) ≡ true
    → let first = scan pending xs in
      let second = scan (rest_of first) ys in
      (is_sound first ≡ true)
      × (is_sound second ≡ true)
      × (text_of (scan pending (xs ++ ys)) ≡ text_of first ++ text_of second)
      × (rest_of (scan pending (xs ++ ys)) ≡ rest_of second)
scan_parts pending xs ys h =
    let both = scan-append pending xs ys in
    rw both (parts_continue (scan pending xs) ys (sym (ap is_sound both) ∙ h))

pub scan-nil :
    (pending : List ℕ) → (text_of (scan pending []) ≡ []) × (rest_of (scan pending []) ≡ pending)
unfolding scan
scan-nil [] = (refl, refl)
scan-nil (b ∷ bs) = (refl, refl)
