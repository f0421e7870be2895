-- ===== src/Session/Page/Delivery.antt =====
-- crates/session/src/lib.rs: the pages of a command, read from storage and from memory, and what a
-- client that follows `next_sequence` receives.
use mathlib.Core.List.{append-nil}
use ai_ssh.Base.{
  ℕ, ◌≤◌, ◌<◌, ◌≡◌, refl, sym, subst, Bool, List, [], ◌∷◌, ◌++◌, Option, none, some, arith, inl,
  inr,
}
use ai_ssh.Base.Tests.{Bool-cases}
use ai_ssh.Base.Lists.{length, keep}
use ai_ssh.Base.Text.{Text}
use ai_ssh.Protocol.Types.{CommandInfo, TerminalEvent}
use ai_ssh.Storage.Events.{Column, matching_events, events_for_command}
use ai_ssh.Storage.Events.Order.{Ascends, above, keep-above_all}
use ai_ssh.Storage.Events.Paging.{events_page}
use ai_ssh.Storage.Events.Delivery.{keep-matching_events}
use ai_ssh.Storage.Events.Follow.{follow, follow_lem}
use ai_ssh.Session.Runtime.{SessionRuntime, SessionManager, lookup}
use ai_ssh.Session.Page.{is_wanted, with_live, read_page_of}
use ai_ssh.Session.Page.Live.{IsGoodPage, append_live-IsGoodPage}

-- The buffer of a session that has a runtime.
abbrev pub buffer : Option SessionRuntime → List TerminalEvent
buffer none = []
buffer (some rt) = rt.live_events

-- The output of a command above a number: what is stored of it, and then what is in memory.
unfoldable pub output_above : CommandInfo → SessionManager → ℕ → List TerminalEvent
output_above c m after =
    matching_events Column.by_command c.id after m.storage
    ++ keep (is_wanted after (some c.id)) (buffer (lookup c.session_id m))

stored_page :
    (id : Text) (after limit : ℕ) (m : SessionManager)
    → IsGoodPage limit
        (matching_events Column.by_command id after m.storage)
        (events_for_command id after limit m.storage)
unfolding events_for_command
stored_page id after limit m =
    let (page, _, fits, delivers) = events_page Column.by_command id after limit m.storage in
    (page, fits, delivers)

with_live-IsGoodPage :
    (rt : Option SessionRuntime) (rows : List TerminalEvent) (after limit : ℕ) (id : Option Text)
    (page : List TerminalEvent × Bool)
    → Ascends after (rows ++ keep (is_wanted after id) (buffer rt))
    → IsGoodPage limit rows page
    → IsGoodPage limit
        (rows ++ keep (is_wanted after id) (buffer rt))
        (with_live rt after limit id page)
unfolding with_live
with_live-IsGoodPage none rows after limit id page rising good =
    subst (λ r. IsGoodPage limit r page) (sym (append-nil rows)) good
with_live-IsGoodPage (some rt) rows after limit id page rising good =
    append_live-IsGoodPage rt.live_events rows after limit id rising page good

-- The page that a poll of a command reads.
abbrev pub page_of : CommandInfo → ℕ → ℕ → SessionManager → List TerminalEvent × Bool
page_of c after limit m =
    ((read_page_of c after limit m).events, (read_page_of c after limit m).more)

-- If the output of a command above the cursor ascends, the page that a poll reads is a first part of
-- it, across storage and memory; its flag `more` is set exactly when output is left; a page of more
-- than one event keeps the limit of bytes; and the page is not empty while there is output.
pub read_page_of-IsGoodPage :
    (c : CommandInfo) (after limit : ℕ) (m : SessionManager)
    → Ascends after (output_above c m after)
    → IsGoodPage limit (output_above c m after) (page_of c after limit m)
unfolding read_page_of output_above
read_page_of-IsGoodPage c after limit m rising =
    with_live-IsGoodPage (lookup c.session_id m)
      (matching_events Column.by_command c.id after m.storage) after limit (some c.id)
      (events_for_command c.id after limit m.storage) rising (stored_page c.id after limit m)

keep-wanted :
    (after a : ℕ) (id : Text) (live : List TerminalEvent)
    → after ≤ a
    → keep (above a) (keep (is_wanted after (some id)) live) ≡ keep (is_wanted a (some id)) live
unfolding is_wanted
keep-wanted after a id [] h = refl
keep-wanted after a id (e ∷ live) h = ground (arith, keep-wanted after a id live h)

keep-append :
    (a : ℕ) (es fs : List TerminalEvent)
    → keep (above a) (es ++ fs) ≡ keep (above a) es ++ keep (above a) fs
keep-append a [] fs = refl
keep-append a (e ∷ es) fs = ground (arith, keep-append a es fs)

later_output :
    (c : CommandInfo) (m : SessionManager) (after a : ℕ)
    → after ≤ a
    → keep (above a) (output_above c m after) ≡ output_above c m a
unfolding output_above
later_output c m after a h =
    let live = buffer (lookup c.session_id m) in
    rw
      (
        keep-append a (matching_events Column.by_command c.id after m.storage)
            (keep (is_wanted after (some c.id)) live),
        keep-matching_events Column.by_command c.id after a m.storage h,
        keep-wanted after a c.id live h,
      )
      refl

keep-Ascends :
    (b a : ℕ) (es : List TerminalEvent) → b ≤ a → Ascends b es → Ascends a (keep (above a) es)
keep-Ascends b a [] h r = tt
keep-Ascends b a (e ∷ es) h r = elim (Bool-cases (above a e)) [
  | inl shown ↦ rw shown (
    ground arith,
    subst (Ascends e.sequence) (sym (keep-above_all a e.sequence es (ground arith) r.1)) r.1,
  )
  | inr hidden ↦ rw hidden (keep-Ascends e.sequence a es (ground arith) r.1)
]

-- The polls of a client that follows `next_sequence` while `has_more` is set.
unfoldable pub poll_command :
    (fuel : ℕ) → CommandInfo → (after limit : ℕ) → SessionManager → Option (List TerminalEvent)
unfolding follow
poll_command fuel c after limit m = follow fuel (λ a. page_of c a limit m) after

-- If all output of a command ascends, a client that follows the cursor of its pages receives the
-- whole output above its first cursor, what is stored and what is in memory, once and in order. It
-- takes at most one poll for each event and one more, whatever the limit of bytes.
pub poll_command-eq-output_above :
    (c : CommandInfo) (limit : ℕ) (m : SessionManager)
    → Ascends 0 (output_above c m 0)
    → (fuel after : ℕ) → length (output_above c m after) < fuel
    → poll_command fuel c after limit m ≡ some (output_above c m after)
unfolding poll_command
poll_command-eq-output_above c limit m rising fuel after h =
    let rises = λ (a : ℕ).
      subst (Ascends a) (later_output c m 0 a (omega arith))
        (keep-Ascends 0 a (output_above c m 0) (omega arith) rising) in
    let good = λ (a : ℕ). read_page_of-IsGoodPage c a limit m (rises a) in
    follow_lem (output_above c m) (λ a. page_of c a limit m) rises (later_output c m)
      (λ a. (good a).0) (λ a. (good a).2) fuel after h
