-- ===== src/Session/Page/Live.antt =====
-- crates/session/src/lib.rs: `append_live` continues the stored events with those in memory.
use mathlib.Core.List.{append_assoc, append-nil}
use ai_ssh.Base.{
  ℕ, ◌+◌, ◌≤◌, ◌≡◌, ◌≢◌, ◌⊎◌, refl, ap, sym, subst, ◌∙◌, Bool, true, false, not, ◌&&◌, List, [],
  ◌∷◌, ◌++◌, Option, arith, inl, inr,
}
use ai_ssh.Base.Tests.{ltb, Bool-cases}
use ai_ssh.Base.Lists.{length, is_empty, keep, length-append}
use ai_ssh.Base.Text.{Text}
use ai_ssh.Protocol.Types.{TerminalEvent}
use ai_ssh.Storage.Tables.{insert_by_sequence, sort_by_sequence, payload_bytes}
use ai_ssh.Storage.Events.Order.{Ascends}
use ai_ssh.Storage.Events.Paging.{IsPageOf}
use ai_ssh.Storage.Events.Follow.{some_left}
use ai_ssh.Session.Page.{is_wanted, add_live, append_live}

-- An ascending list is sorted.
insert-first :
    (e : TerminalEvent) (es : List TerminalEvent)
    → Ascends e.sequence es
    → insert_by_sequence e es ≡ e ∷ es
unfolding insert_by_sequence
insert-first e [] h = refl
insert-first e (f ∷ fs) h = ground arith

pub sort-Ascends_lem : (a : ℕ) (es : List TerminalEvent) → Ascends a es → sort_by_sequence es ≡ es
unfolding sort_by_sequence
sort-Ascends_lem a [] h = refl
sort-Ascends_lem a (e ∷ es) h = rw (sort-Ascends_lem e.sequence es h.1) (insert-first e es h.1)

pub Ascends-front : (a : ℕ) (es fs : List TerminalEvent) → Ascends a (es ++ fs) → Ascends a es
Ascends-front a [] fs h = tt
Ascends-front a (e ∷ es) fs h = (h.0, Ascends-front e.sequence es fs h.1)

-- What the loop took of the buffer, and what it left.
pub record Added (limit : ℕ) (events live : List TerminalEvent) (r : List TerminalEvent × Bool)
    : Type 0 where
  pub taken : List TerminalEvent
  pub left : List TerminalEvent
  pub parts : live ≡ taken ++ left
  pub shown : r.0 ≡ events ++ taken
  pub more : r.1 ≡ not (is_empty left)

module _ (limit : ℕ) where
  pub add_live-Added :
      (size : ℕ) (events live : List TerminalEvent)
      → Added limit events live (add_live limit size events live)
  unfolding add_live
  add_live-Added size events [] = record {
    taken = [];
    left = [];
    parts = refl;
    shown = sym (append-nil events);
    more = refl;
  }
  add_live-Added size events (e ∷ live) =
      elim (Bool-cases (not (is_empty events) && ltb limit (size + length e.payload))) [
        | inl full ↦ rw full (record {
          taken = [];
          left = e ∷ live;
          parts = refl;
          shown = sym (append-nil events);
          more = refl;
        })
        | inr room ↦
            let t = add_live-Added (size + length e.payload) (events ++ e ∷ []) live in
            rw room (record {
              taken = e ∷ t.taken;
              left = t.left;
              parts = ap (◌∷◌ e) t.parts;
              shown = t.shown ∙ append_assoc events (e ∷ []) t.taken;
              more = t.more;
            })
      ]

more_left :
    (left wanted : List TerminalEvent)
    → true ≡ not (is_empty left)
    → true ≡ not (is_empty (left ++ wanted))
more_left [] wanted h = cc
more_left (e ∷ left) wanted h = refl

no_more_left : (left : List TerminalEvent) → false ≡ not (is_empty left) → left ≡ []
no_more_left [] h = refl
no_more_left (e ∷ left) h = cc

module _ (live rows : List TerminalEvent) (after limit : ℕ) (command_id : Option Text) where
  abbrev wanted : List TerminalEvent
  wanted = keep (is_wanted after command_id) live

  continue_page :
      (events left : List TerminalEvent)
      → rows ≡ events
      → Ascends after (rows ++ wanted)
      → IsPageOf (rows ++ wanted) (append_live live after limit command_id (events, false))
  unfolding append_live
  continue_page events left whole rising =
      let t = add_live-Added limit (payload_bytes events) events wanted in
      let parts : rows ++ wanted ≡ (events ++ t.taken) ++ t.left =
        ap (λ l. l ++ wanted) whole
        ∙ ap (λ w. events ++ w) t.parts
        ∙ sym (append_assoc events t.taken t.left) in
      let sorted =
        sort-Ascends_lem after (events ++ t.taken)
          (Ascends-front after (events ++ t.taken) t.left (subst (Ascends after) parts rising)) in
      (t.left, parts ∙ ap (λ l. l ++ t.left) (sym (ap sort_by_sequence t.shown ∙ sorted)), t.more)

  -- A page of the stored events, continued with the buffer, is a page of the stored events followed by
  -- those of the buffer that are wanted, if together they ascend.
  pub append_live-IsPageOf :
      (page : List TerminalEvent × Bool)
      → IsPageOf rows page
      → Ascends after (rows ++ wanted)
      → IsPageOf (rows ++ wanted) (append_live live after limit command_id page)
  unfolding append_live
  append_live-IsPageOf (events, true) (left, parts, rest) rising = (
    left ++ wanted,
    ap (λ l. l ++ wanted) parts ∙ append_assoc events left wanted,
    more_left left wanted rest,
  )
  append_live-IsPageOf (events, false) (left, parts, rest) rising =
      let whole : rows ≡ events =
        parts ∙ ap (λ l. events ++ l) (no_more_left left rest) ∙ append-nil events in
      continue_page events left whole rising

-- A page of more than one event keeps the limit of bytes.
abbrev pub Fits : ℕ → List TerminalEvent → Type 0
Fits limit es = (length es ≤ 1) ⊎ (payload_bytes es ≤ limit)

payload_bytes-append :
    (es fs : List TerminalEvent) → payload_bytes (es ++ fs) ≡ payload_bytes es + payload_bytes fs
unfolding payload_bytes
payload_bytes-append [] fs = omega arith
payload_bytes-append (e ∷ es) fs = omega (arith, payload_bytes-append es fs)

module _ (limit : ℕ) where
  Fits-one_more :
      (events : List TerminalEvent) (e : TerminalEvent)
      → (not (is_empty events) && ltb limit (payload_bytes events + length e.payload)) ≡ false
      → Fits limit (events ++ e ∷ [])
  unfolding payload_bytes
  Fits-one_more [] e h = inl (omega arith)
  Fits-one_more (d ∷ events) e h = inr (ground (arith, payload_bytes-append events (e ∷ [])))

  Fits-add_live :
      (size : ℕ) (events live : List TerminalEvent)
      → size ≡ payload_bytes events
      → Fits limit events
      → Fits limit (add_live limit size events live).0
  unfolding add_live payload_bytes
  Fits-add_live size events [] h k = k
  Fits-add_live size events (e ∷ live) h k =
      elim (Bool-cases (not (is_empty events) && ltb limit (size + length e.payload))) [
        | inl full ↦ rw full k
        | inr room ↦ rw room (
            Fits-add_live (size + length e.payload) (events ++ e ∷ []) live
              (omega (arith, payload_bytes-append events (e ∷ [])))
              (Fits-one_more events e (
                subst (λ s. (not (is_empty events) && ltb limit (s + length e.payload)) ≡ false) h
                  room)))
      ]

-- What both the flag and the size of a page promise, and that it is not empty while there is
-- something to see.
abbrev pub IsGoodPage : ℕ → List TerminalEvent → List TerminalEvent × Bool → Type 0
IsGoodPage limit rows page = IsPageOf rows page × Fits limit page.0 × ((rows ≡ []) ⊎ (page.0 ≢ []))

grows :
    (limit size : ℕ) (e : TerminalEvent) (events live : List TerminalEvent)
    → (add_live limit size (events ++ e ∷ []) live).0 ≢ []
grows limit size e events live h =
    let t = add_live-Added limit size (events ++ e ∷ []) live in
    let whole : (events ++ e ∷ []) ++ t.taken ≡ [] = sym t.shown ∙ h in
    absurd (
      omega (
        arith,
        ap (length {A = TerminalEvent}) whole,
        length-append (events ++ e ∷ []) t.taken,
        length-append events (e ∷ []),
      ))

module _ (live rows : List TerminalEvent) (after limit : ℕ) (command_id : Option Text)
    (rising : Ascends after (rows ++ keep (is_wanted after command_id) live)) where
  abbrev shown_live : List TerminalEvent
  shown_live = keep (is_wanted after command_id) live

  -- What the loop leaves is in order, so that sorting changes nothing.
  append_live-sorted :
      (events : List TerminalEvent)
      → rows ≡ events
      → (append_live live after limit command_id (events, false)).0
        ≡ (add_live limit (payload_bytes events) events shown_live).0
  unfolding append_live
  append_live-sorted events whole =
      let t = add_live-Added limit (payload_bytes events) events shown_live in
      let parts : rows ++ shown_live ≡ (events ++ t.taken) ++ t.left =
        ap (λ l. l ++ shown_live) whole
        ∙ ap (λ w. events ++ w) t.parts
        ∙ sym (append_assoc events t.taken t.left) in
      sort-Ascends_lem after (add_live limit (payload_bytes events) events shown_live).0 (
        subst (Ascends after) (sym t.shown)
          (Ascends-front after (events ++ t.taken) t.left (subst (Ascends after) parts rising)))

  shows_some :
      (events live : List TerminalEvent)
      → (events ++ live ≡ []) ⊎ ((add_live limit (payload_bytes events) events live).0 ≢ [])
  unfolding add_live
  shows_some [] [] = inl refl
  shows_some [] (e ∷ live) = inr (grows limit _ e [] live)
  shows_some (d ∷ events) live =
      let t = add_live-Added limit (payload_bytes (d ∷ events)) (d ∷ events) live in
      inr (λ h. absurd (omega (arith, ap (length {A = TerminalEvent}) (sym t.shown ∙ h))))

  pub append_live-IsGoodPage :
      (page : List TerminalEvent × Bool)
      → IsGoodPage limit rows page
      → IsGoodPage limit (rows ++ shown_live) (append_live live after limit command_id page)
  unfolding append_live
  append_live-IsGoodPage (events, true) ((left, parts, rest), fits, delivers) =
      let some_row = some_left rows events left parts (sym rest) in
      (
        append_live-IsPageOf live rows after limit command_id (events, true) (left, parts, rest)
            rising,
        fits,
        elim delivers [ inl nothing ↦ absurd (some_row nothing) | inr shown ↦ inr shown ],
      )
  append_live-IsGoodPage (events, false) ((left, parts, rest), fits, delivers) =
      let whole : rows ≡ events =
        parts ∙ ap (λ l. events ++ l) (no_more_left left rest) ∙ append-nil events in
      let same = append_live-sorted events whole in
      (
        append_live-IsPageOf live rows after limit command_id (events, false) (left, parts, rest)
            rising,
        subst (Fits limit) (sym same)
            (Fits-add_live limit (payload_bytes events) events shown_live refl fits),
        elim (shows_some events shown_live) [
          | inl nothing ↦ inl (ap (λ l. l ++ shown_live) whole ∙ nothing)
          | inr shown ↦ inr (subst (λ l. l ≢ []) (sym same) shown)
        ],
      )
