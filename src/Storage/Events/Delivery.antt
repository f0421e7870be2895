-- ===== src/Storage/Events/Delivery.antt =====
-- Reading on from the cursor of each page: a client that follows `next_sequence` over the pages of
-- crates/storage/src/lib.rs.
use ai_ssh.Base.{ℕ, ◌≤◌, ◌<◌, ◌≡◌, refl, ap, ◌∙◌, List, [], ◌∷◌, Option, some, arith}
use ai_ssh.Base.Text.{Text}
use ai_ssh.Base.Lists.{length, keep}
use ai_ssh.Protocol.Types.{TerminalEvent}
use ai_ssh.Storage.Tables.{Storage, sort_by_sequence}
use ai_ssh.Storage.Events.{Column, matches, matching_events, events}
use ai_ssh.Storage.Events.Order.{above, keep-sort}
use ai_ssh.Storage.Events.Paging.{events_page}
use ai_ssh.Storage.Events.Follow.{follow, follow_lem}
use ai_ssh.Storage.Events.Unique.{UniquePlaces, Belongs, matching_events-Ascends}

-- The polls of a client that reads storage alone.
unfoldable pub poll_all :
    (fuel : ℕ) → Column → Text → (after max_bytes : ℕ) → Storage → Option (List TerminalEvent)
unfolding follow
poll_all fuel column id after max_bytes db =
    follow fuel (λ a. events column id a max_bytes db) after

module _ (column : Column) (id : Text) where
  keep-matches :
      (after c : ℕ) (es : List TerminalEvent)
      → after ≤ c
      → keep (above c) (keep (matches column id after) es) ≡ keep (matches column id c) es
  unfolding matches
  keep-matches after c [] h = refl
  keep-matches after c (e ∷ es) h = ground (arith, keep-matches after c es h)

  -- What matches from a later cursor is what stands above it among what matched before.
  pub keep-matching_events :
      (after c : ℕ) (db : Storage)
      → after ≤ c
      → keep (above c) (matching_events column id after db) ≡ matching_events column id c db
  unfolding matching_events
  keep-matching_events after c db h =
      keep-sort c (keep (matches column id after) db.events)
      ∙ ap sort_by_sequence (keep-matches after c db.events h)

-- Following the cursor delivers every recorded event above the first cursor, once and in order,
-- after at most one poll for each event and one more, whatever the limit of bytes. The rows must
-- be unique for their session and number, and those selected must belong to one session.
pub poll_all-eq-matching_events :
    (column : Column) (id owner : Text) (max_bytes : ℕ) (db : Storage)
    → UniquePlaces db.events
    → Belongs column id owner db.events
    → (fuel after : ℕ) → length (matching_events column id after db) < fuel
    → poll_all fuel column id after max_bytes db ≡ some (matching_events column id after db)
unfolding poll_all
poll_all-eq-matching_events column id owner max_bytes db unique owned fuel after h =
    follow_lem (λ a. matching_events column id a db) (λ a. events column id a max_bytes db)
      (λ a. matching_events-Ascends column id owner a db unique owned)
      (λ a c. keep-matching_events column id a c db) (λ a. (events_page column id a max_bytes db).0)
      (λ a. (events_page column id a max_bytes db).3) fuel after h
