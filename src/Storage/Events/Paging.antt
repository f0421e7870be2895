-- ===== src/Storage/Events/Paging.antt =====
-- One page of recorded events: the loop of `events` in crates/storage/src/lib.rs.
use mathlib.Core.List.{append_assoc}
use ai_ssh.Base.{
  ℕ, zero, suc, ◌+◌, ◌≤◌, ◌<◌, ◌≡◌, ◌≢◌, ◌⊎◌, refl, ap, sym, ◌∙◌, Bool, not, ◌&&◌, ◌||◌, List, [],
  ◌∷◌, ◌++◌, arith, inl, inr,
}
use ai_ssh.Base.Tests.{ltb, ◌==◌, Bool-cases}
use ai_ssh.Base.Text.{Text}
use ai_ssh.Base.Lists.{length, is_empty, take, drop, take-append-drop, length-take, length-append}
use ai_ssh.Protocol.Types.{TerminalEvent}
use ai_ssh.Storage.Tables.{Storage, payload_bytes}
use ai_ssh.Storage.Events.{Column, matching_events, page_events, fill_page, events}

-- A page is a first part of the rows, and says whether rows are left.
abbrev pub IsPageOf : List TerminalEvent → List TerminalEvent × Bool → Type 0
IsPageOf rows page =
    (left : List TerminalEvent) × (rows ≡ page.0 ++ left) × (page.1 ≡ not (is_empty left))

abbrev closes : ℕ → ℕ → ℕ → ℕ → TerminalEvent → Bool
closes max_events max_bytes count size e =
    (count == max_events) || (ltb 0 count && ltb max_bytes (size + length e.payload))

module _ (max_events max_bytes : ℕ) where
  fill_page-IsPageOf :
      (count size : ℕ) (rows : List TerminalEvent)
      → IsPageOf rows (fill_page max_events max_bytes count size rows)
  unfolding fill_page
  fill_page-IsPageOf count size [] = ([], refl, refl)
  fill_page-IsPageOf count size (e ∷ rows) =
      elim (Bool-cases (closes max_events max_bytes count size e)) [
        | inl full ↦ rw full (e ∷ rows, refl, refl)
        | inr room ↦
            let (left, parts, more) =
              fill_page-IsPageOf (count + 1) (size + length e.payload) rows in
            rw room (left, ap (◌∷◌ e) parts, more)
      ]

  length-fill_page :
      (count size : ℕ) (rows : List TerminalEvent)
      → count ≤ max_events
      → count + length (fill_page max_events max_bytes count size rows).0 ≤ max_events
  unfolding fill_page
  length-fill_page count size [] h = omega arith
  length-fill_page count size (e ∷ rows) h =
      elim (Bool-cases (closes max_events max_bytes count size e)) [
        | inl full ↦ rw full (omega arith)
        | inr room ↦
            let more : count + 1 ≤ max_events = ground arith in
            rw room
              (omega (arith, length-fill_page (count + 1) (size + length e.payload) rows more))
      ]

  -- Once a page holds an event, it stays within the limit of bytes.
  bytes-fill_page :
      (count size : ℕ) (rows : List TerminalEvent)
      → 0 < count
      → ((fill_page max_events max_bytes count size rows).0 ≡ [])
        ⊎ (size + payload_bytes (fill_page max_events max_bytes count size rows).0 ≤ max_bytes)
  unfolding fill_page payload_bytes
  bytes-fill_page count size [] h = inl refl
  bytes-fill_page count size (e ∷ rows) h =
      elim (Bool-cases (closes max_events max_bytes count size e)) [
        | inl full ↦ rw full (inl refl)
        | inr room ↦ rw room (
            inr (
              ground
                (arith, bytes-fill_page (count + 1) (size + length e.payload) rows (omega arith))))
      ]

  length-fill_page_first :
      (rows : List TerminalEvent) → length (fill_page max_events max_bytes 0 0 rows).0 ≤ max_events
  length-fill_page_first rows = omega (arith, length-fill_page 0 0 rows (omega arith))

  -- A page that starts from nothing holds one event whatever its size, and then keeps the limit.
  bytes-fill_page_first :
      (rows : List TerminalEvent)
      → (length (fill_page max_events max_bytes 0 0 rows).0 ≤ 1)
        ⊎ (payload_bytes (fill_page max_events max_bytes 0 0 rows).0 ≤ max_bytes)
  unfolding fill_page payload_bytes
  bytes-fill_page_first [] = inl (omega arith)
  bytes-fill_page_first (e ∷ rows) =
      ground (arith, bytes-fill_page (0 + 1) (0 + length e.payload) rows (omega arith))

  fill_page_first-ne-nil :
      (rows : List TerminalEvent)
      → 0 < max_events
      → rows ≢ []
      → (fill_page max_events max_bytes 0 0 rows).0 ≢ []
  unfolding fill_page
  fill_page_first-ne-nil [] h some_row = absurd (some_row refl)
  fill_page_first-ne-nil (e ∷ rows) h some_row = ground arith

drop-eq-nil : (n : ℕ) (es : List TerminalEvent) → length es ≤ n → drop n es ≡ []
drop-eq-nil zero [] h = refl
drop-eq-nil zero (e ∷ es) h = absurd (omega arith)
drop-eq-nil (suc n) [] h = refl
drop-eq-nil (suc n) (e ∷ es) h = drop-eq-nil n es (omega arith)

module _ (n : ℕ) (rows page : List TerminalEvent) where
  left_of_take :
      (left : List TerminalEvent)
      → take (n + 1) rows ≡ page ++ left
      → length page ≤ n
      → not (is_empty left) ≡ not (is_empty (left ++ drop (n + 1) rows))
  left_of_take (e ∷ left) parts h = refl
  left_of_take [] parts h =
      let size : length rows ≤ n + 1 = omega (
        arith,
        ap (length {A = TerminalEvent}) parts,
        length-take (n + 1) rows,
        length-append page [],
      ) in
      rw (drop-eq-nil (n + 1) rows size)

-- A page of the first `n + 1` rows that holds at most `n` of them is a page of all rows.
IsPageOf-take :
    (n : ℕ) (rows : List TerminalEvent) (page : List TerminalEvent × Bool)
    → IsPageOf (take (n + 1) rows) page
    → length page.0 ≤ n
    → IsPageOf rows page
IsPageOf-take n rows page (left, parts, more) h = (
  left ++ drop (n + 1) rows,
  sym (take-append-drop (n + 1) rows)
      ∙ ap (λ t. t ++ drop (n + 1) rows) parts
      ∙ append_assoc page.0 left (drop (n + 1) rows),
  more ∙ left_of_take n rows page.0 left parts h,
)

take-ne-nil : (n : ℕ) (rows : List TerminalEvent) → rows ≢ [] → take (suc n) rows ≢ []
take-ne-nil n [] h e = h refl
take-ne-nil n (r ∷ rows) h e = cc

nil-cases : (rows : List TerminalEvent) → (rows ≡ []) ⊎ (rows ≢ [])
nil-cases [] = inl refl
nil-cases (r ∷ rows) = inr (λ e. cc)

-- What a reader may rely on: a page is a first part of the events that match, in order; it says
-- `more` exactly when events are left; it holds at most 2048 events, and at most `max_bytes` bytes
-- unless it is a single event; and it is not empty while there is an event to deliver.
pub events_page :
    (column : Column) (id : Text) (after max_bytes : ℕ) (db : Storage)
    → let page = events column id after max_bytes db in
      let rows = matching_events column id after db in
      IsPageOf rows page
      × (length page.0 ≤ page_events)
      × ((length page.0 ≤ 1) ⊎ (payload_bytes page.0 ≤ max_bytes))
      × ((rows ≡ []) ⊎ (page.0 ≢ []))
unfolding events
events_page column id after max_bytes db =
    let rows = matching_events column id after db in
    let few = length-fill_page_first page_events max_bytes (take (page_events + 1) rows) in
    (
      IsPageOf-take page_events rows _
          (fill_page-IsPageOf page_events max_bytes 0 0 (take (page_events + 1) rows)) few,
      few,
      bytes-fill_page_first page_events max_bytes (take (page_events + 1) rows),
      elim (nil-cases rows) [
        | inl none_left ↦ inl none_left
        | inr some_row ↦ inr (
            fill_page_first-ne-nil page_events max_bytes (take (page_events + 1) rows) (omega arith)
              (take-ne-nil page_events rows some_row))
      ],
    )
