-- ===== src/Storage/Events/Order.antt =====
-- Lists of events in ascending order of their sequence numbers (`ORDER BY sequence`).
use ai_ssh.Base.{
  ℕ, ◌≤◌, ◌<◌, ◌≡◌, ◌≢◌, refl, sym, ◌∙◌, Bool, true, List, [], ◌∷◌, ◌++◌, none, some, arith, inl,
  inr,
}
use ai_ssh.Base.Tests.{ltb, leb, Bool-cases, if◌then◌else◌}
use ai_ssh.Base.Lists.{All, keep, get_last?}
use ai_ssh.Protocol.Types.{TerminalEvent}
use ai_ssh.Storage.Tables.{insert_by_sequence, sort_by_sequence}

-- Strictly ascending, and above the number in front.
abbrev pub Ascends : ℕ → List TerminalEvent → Type 0
Ascends a [] = Unit
Ascends a (e ∷ es) = (a < e.sequence) × Ascends e.sequence es

-- The cursor that a page leaves: `events.last().map(|e| e.sequence).unwrap_or(after)`.
unfoldable pub cursor : ℕ → List TerminalEvent → ℕ
cursor after es = elim (get_last? es) [ none ↦ after | some e ↦ e.sequence ]

abbrev pub above : ℕ → TerminalEvent → Bool
above a e = ltb a e.sequence

cursor-cons :
    (a : ℕ) (e : TerminalEvent) (es : List TerminalEvent) → cursor a (e ∷ es) ≡ cursor e.sequence es
unfolding cursor
cursor-cons a e [] = refl
cursor-cons a e (f ∷ es) = cursor-cons a f es ∙ sym (cursor-cons e.sequence f es)

pub cursor-append_cons :
    (a : ℕ) (es : List TerminalEvent) (e : TerminalEvent) (fs : List TerminalEvent)
    → cursor a (es ++ e ∷ fs) ≡ cursor e.sequence fs
cursor-append_cons a [] e fs = cursor-cons a e fs
cursor-append_cons a (d ∷ es) e fs =
    cursor-cons a d (es ++ e ∷ fs) ∙ cursor-append_cons d.sequence es e fs

cursor-nil : (a : ℕ) → cursor a [] ≡ a
unfolding cursor
cursor-nil a = refl

pub Ascends-cursor-le :
    (a : ℕ) (es fs : List TerminalEvent) → Ascends a (es ++ fs) → a ≤ cursor a es
Ascends-cursor-le a [] fs h = omega (arith, cursor-nil a)
Ascends-cursor-le a (e ∷ es) fs h =
    omega (arith, cursor-cons a e es, Ascends-cursor-le e.sequence es fs h.1)

pub Ascends-cursor :
    (a : ℕ) (es fs : List TerminalEvent) → Ascends a (es ++ fs) → Ascends (cursor a es) fs
Ascends-cursor a [] fs h = rw cursor-nil h
Ascends-cursor a (e ∷ es) fs h = rw cursor-cons (Ascends-cursor e.sequence es fs h.1)

pub keep-above_all :
    (c a : ℕ) (es : List TerminalEvent) → c ≤ a → Ascends a es → keep (above c) es ≡ es
keep-above_all c a [] le h = refl
keep-above_all c a (e ∷ es) le h = ground (arith, keep-above_all c e.sequence es (omega arith) h.1)

-- What stands above the cursor of the first part of an ascending list is its second part.
pub keep-above-cursor :
    (a : ℕ) (es fs : List TerminalEvent)
    → Ascends a (es ++ fs)
    → keep (above (cursor a es)) (es ++ fs) ≡ fs
keep-above-cursor a [] fs h = rw cursor-nil (keep-above_all a a fs (omega arith) h)
keep-above-cursor a (e ∷ es) fs h = ground (
  arith,
  cursor-cons a e es,
  Ascends-cursor-le e.sequence es fs h.1,
  keep-above-cursor e.sequence es fs h.1,
)

module _ (a : ℕ) where
  -- Sorting and taking what stands above a number commute, since that is an upper part.
  keep-insert :
      (e : TerminalEvent) (es : List TerminalEvent)
      → keep (above a) (insert_by_sequence e es)
        ≡ (if above a e then insert_by_sequence e (keep (above a) es) else keep (above a) es)
  unfolding insert_by_sequence
  keep-insert e [] = ground arith
  keep-insert e (f ∷ fs) = ground (arith, keep-insert e fs)

  pub keep-sort :
      (es : List TerminalEvent)
      → keep (above a) (sort_by_sequence es) ≡ sort_by_sequence (keep (above a) es)
  unfolding sort_by_sequence
  keep-sort [] = refl
  keep-sort (e ∷ es) = elim (Bool-cases (above a e)) [
    | inl shown ↦ rw (keep-insert e (sort_by_sequence es), keep-sort es) (ground arith)
    | inr hidden ↦ rw (keep-insert e (sort_by_sequence es), keep-sort es) (ground arith)
  ]

module _ {κ} (P : TerminalEvent → Type κ) where
  All-insert :
      (e : TerminalEvent) (es : List TerminalEvent)
      → P e
      → All P es
      → All P (insert_by_sequence e es)
  unfolding insert_by_sequence
  All-insert e [] p h = (p, tt)
  All-insert e (f ∷ fs) p h = ground (arith, All-insert e fs p h.1)

  pub All-sort : (es : List TerminalEvent) → All P es → All P (sort_by_sequence es)
  unfolding sort_by_sequence
  All-sort [] h = tt
  All-sort (e ∷ es) h = All-insert e (sort_by_sequence es) h.0 (All-sort es h.1)

-- No event of the list has that sequence number.
abbrev pub Absent : ℕ → List TerminalEvent → Type 0
Absent n es = All (λ e. e.sequence ≢ n) es

ne_lt : {m n : ℕ} → leb m n ≡ true → n ≢ m → m < n
ne_lt h d = ground arith

insert-Ascends :
    (a : ℕ) (e : TerminalEvent) (es : List TerminalEvent)
    → a < e.sequence
    → Absent e.sequence es
    → Ascends a es
    → Ascends a (insert_by_sequence e es)
unfolding insert_by_sequence
insert-Ascends a e [] p d h = (p, tt)
insert-Ascends a e (f ∷ fs) p d h = elim (Bool-cases (leb e.sequence f.sequence)) [
  | inl before ↦ rw before (p, (ne_lt before d.0, h.1))
  | inr behind ↦ rw behind (h.0, insert-Ascends f.sequence e fs (ground arith) d.1 h.1)
]

abbrev pub Distinct : List TerminalEvent → Type 0
Distinct [] = Unit
Distinct (e ∷ es) = Absent e.sequence es × Distinct es

-- Sorting events above a number, with distinct sequence numbers, leaves them strictly ascending.
pub sort-Ascends :
    (a : ℕ) (es : List TerminalEvent)
    → All (λ e. a < e.sequence) es
    → Distinct es
    → Ascends a (sort_by_sequence es)
unfolding sort_by_sequence
sort-Ascends a [] h d = tt
sort-Ascends a (e ∷ es) h d =
    insert-Ascends a e (sort_by_sequence es) h.0 (All-sort _ es d.0) (sort-Ascends a es h.1 d.1)
