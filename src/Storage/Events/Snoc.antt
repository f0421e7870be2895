-- ===== src/Storage/Events/Snoc.antt =====
-- crates/storage/src/lib.rs: the order of events when one is added behind all others, or some are left
-- out in the middle.
use mathlib.Core.List.{append-nil}
use ai_ssh.Base.{ℕ, ◌≤◌, ◌<◌, ◌≡◌, ap, refl, ◌∙◌, Bool, List, [], ◌∷◌, ◌++◌, arith, inl, inr}
use ai_ssh.Base.Tests.{Bool-cases}
use ai_ssh.Base.Lists.{All, keep}
use ai_ssh.Protocol.Types.{TerminalEvent}
use ai_ssh.Storage.Tables.{insert_by_sequence, sort_by_sequence}
use ai_ssh.Storage.Events.Order.{Ascends}

insert-snoc :
    (x e : TerminalEvent) (es : List TerminalEvent)
    → x.sequence < e.sequence
    → insert_by_sequence x (es ++ e ∷ []) ≡ insert_by_sequence x es ++ e ∷ []
unfolding insert_by_sequence
insert-snoc x e [] h = ground arith
insert-snoc x e (f ∷ es) h = ground (arith, insert-snoc x e es h)

abbrev pub Below : ℕ → List TerminalEvent → Type 0
Below n = All (λ e. e.sequence < n)

-- An event behind all others stays behind them.
sort-snoc :
    (e : TerminalEvent) (es : List TerminalEvent)
    → Below e.sequence es
    → sort_by_sequence (es ++ e ∷ []) ≡ sort_by_sequence es ++ e ∷ []
unfolding sort_by_sequence insert_by_sequence
sort-snoc e [] h = refl
sort-snoc e (f ∷ es) h =
    ap (insert_by_sequence f) (sort-snoc e es h.1) ∙ insert-snoc f e (sort_by_sequence es) h.0

Ascends-snoc :
    (a : ℕ) (es : List TerminalEvent) (e : TerminalEvent)
    → a < e.sequence
    → Ascends a es
    → Below e.sequence es
    → Ascends a (es ++ e ∷ [])
Ascends-snoc a [] e p h k = (p, tt)
Ascends-snoc a (f ∷ es) e p h k = (h.0, Ascends-snoc f.sequence es e k.0 h.1 k.1)

Ascends-weaken : (a b : ℕ) (es : List TerminalEvent) → a ≤ b → Ascends b es → Ascends a es
Ascends-weaken a b [] p h = tt
Ascends-weaken a b (e ∷ es) p h = (omega arith, h.1)

Ascends-behind : (a : ℕ) (ds es : List TerminalEvent) → Ascends a (ds ++ es) → Ascends a es
Ascends-behind a [] es h = h
Ascends-behind a (d ∷ ds) es h =
    Ascends-weaken a d.sequence es (omega arith) (Ascends-behind d.sequence ds es h.1)

-- Events may be left out in the middle.
pub Ascends-without :
    (a : ℕ) (xs ds es : List TerminalEvent) → Ascends a (xs ++ (ds ++ es)) → Ascends a (xs ++ es)
Ascends-without a [] ds es h = Ascends-behind a ds es h
Ascends-without a (x ∷ xs) ds es h = (h.0, Ascends-without x.sequence xs ds es h.1)

pub keep-append_any :
    (test : TerminalEvent → Bool) (es fs : List TerminalEvent)
    → keep test (es ++ fs) ≡ keep test es ++ keep test fs
keep-append_any test [] fs = refl
keep-append_any test (e ∷ es) fs = ground (arith, keep-append_any test es fs)

module _ (test : TerminalEvent → Bool) (e : TerminalEvent) where
  pub sort-snoc_one :
      (es : List TerminalEvent)
      → Below e.sequence es
      → sort_by_sequence (es ++ keep test (e ∷ [])) ≡ sort_by_sequence es ++ keep test (e ∷ [])
  sort-snoc_one es h = elim (Bool-cases (test e)) [
    | inl shown ↦ rw shown (sort-snoc e es h)
    | inr hidden ↦ rw (hidden, append-nil es, append-nil (sort_by_sequence es)) refl
  ]

  pub Ascends-snoc_one :
      (a : ℕ) (es : List TerminalEvent)
      → a < e.sequence
      → Ascends a es
      → Below e.sequence es
      → Ascends a (es ++ keep test (e ∷ []))
  Ascends-snoc_one a es p h k = elim (Bool-cases (test e)) [
    | inl shown ↦ rw shown (Ascends-snoc a es e p h k)
    | inr hidden ↦ rw (hidden, append-nil es) h
  ]
