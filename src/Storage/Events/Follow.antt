-- ===== src/Storage/Events/Follow.antt =====
-- A client that reads on from the cursor of each page (`next_sequence` of crates/protocol/src/lib.rs),
-- whatever the pages are read from.
use mathlib.Core.List.{append-nil}
use ai_ssh.Base.{
  ℕ, zero, suc, ◌≤◌, ◌<◌, ◌≡◌, ◌≢◌, ◌⊎◌, refl, ap, sym, subst, ◌∙◌, Bool, true, false, not, List,
  [], ◌∷◌, ◌++◌, Option, none, some, arith, inl, inr,
}
use ai_ssh.Base.Tests.{Bool-cases}
use ai_ssh.Base.Lists.{length, is_empty, keep, length-append}
use ai_ssh.Protocol.Types.{TerminalEvent}
use ai_ssh.Storage.Events.Order.{Ascends, cursor, above, keep-above-cursor, Ascends-cursor-le}
use ai_ssh.Storage.Events.Paging.{IsPageOf}

-- The pages that one client reads while there is more. The fuel is the number of polls; `none` means
-- that it ran out.
unfoldable pub follow :
    (fuel : ℕ) → (ℕ → List TerminalEvent × Bool) → (after : ℕ) → Option (List TerminalEvent)
follow zero read after = none
follow (suc fuel) read after =
    let page = read after in
    let next = follow fuel read (cursor after page.0) in
    elim page.1 [
      | false ↦ some page.0
      | true ↦ elim next [ none ↦ none | some later ↦ some (page.0 ++ later) ]
    ]

page_of_some-lt :
    (rows page left : List TerminalEvent)
    → rows ≡ page ++ left
    → page ≢ []
    → length left < length rows
page_of_some-lt rows [] left parts h = absurd (h refl)
page_of_some-lt rows (e ∷ page) left parts h =
    omega (arith, ap (length {A = TerminalEvent}) parts, length-append page left)

pub whole_page :
    (rows page left : List TerminalEvent)
    → rows ≡ page ++ left
    → not (is_empty left) ≡ false
    → rows ≡ page
whole_page rows page [] parts h = parts ∙ append-nil page
whole_page rows page (e ∷ left) parts h = cc

pub some_left :
    (rows page left : List TerminalEvent)
    → rows ≡ page ++ left
    → not (is_empty left) ≡ true
    → rows ≢ []
some_left rows page [] parts h e = cc
some_left rows page (f ∷ left) parts h e = absurd (
    omega (
      arith,
      ap (length {A = TerminalEvent}) parts,
      ap (length {A = TerminalEvent}) e,
      length-append page (f ∷ left),
    ))

-- `rows after` is what a reader at `after` has still to see, and `read after` a page of it that is
-- not empty while there is something to see.
module _ (rows : ℕ → List TerminalEvent) (read : ℕ → List TerminalEvent × Bool)
    (rising : (after : ℕ) → Ascends after (rows after))
    (later : (after c : ℕ) → after ≤ c → keep (above c) (rows after) ≡ rows c)
    (pages : (after : ℕ) → IsPageOf (rows after) (read after))
    (delivers : (after : ℕ) → (rows after ≡ []) ⊎ ((read after).0 ≢ [])) where
  -- What a page leaves is what there is to see from its cursor.
  left_of_page :
      (after : ℕ) (left : List TerminalEvent)
      → rows after ≡ (read after).0 ++ left
      → rows (cursor after (read after).0) ≡ left
  left_of_page after left parts =
      let page = (read after).0 in
      let ascends : Ascends after (page ++ left) = subst (Ascends after) parts (rising after) in
      sym (later after (cursor after page) (Ascends-cursor-le after page left ascends))
      ∙ ap (keep (above (cursor after page))) parts
      ∙ keep-above-cursor after page left ascends

  pub follow_lem :
      (fuel after : ℕ) → length (rows after) < fuel → follow fuel read after ≡ some (rows after)
  unfolding follow
  follow_lem zero after h = absurd (omega arith)
  follow_lem (suc fuel) after h =
      let page = read after in
      let (left, parts, more) = pages after in
      let rest = left_of_page after left parts in
      elim (Bool-cases page.1) [
        | inl again ↦
            let some_row = some_left (rows after) page.0 left parts (sym more ∙ again) in
            let shown : page.0 ≢ [] = elim (delivers after) [
              | inl empty ↦ absurd (some_row empty)
              | inr shown ↦ shown
            ] in
            let shorter = page_of_some-lt (rows after) page.0 left parts shown in
            let next = follow_lem fuel (cursor after page.0) (rw rest (omega arith)) in
            rw (again, follow) (rw (next, rest) (ap some (sym parts)))
        | inr done ↦
            rw (done, follow)
              (ap some (sym (whole_page (rows after) page.0 left parts (sym more ∙ done))))
      ]
