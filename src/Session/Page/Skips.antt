-- ===== src/Session/Page/Skips.antt =====
-- crates/session/src/lib.rs: `append_live` when an event in memory is older than one that was stored.
use ai_ssh.Base.{
  ℕ, ◌+◌, ◌≤◌, ◌<◌, ◌≡◌, ◌≢◌, refl, true, false, List, [], ◌∷◌, Option, none, some, arith,
}
use ai_ssh.Base.Lists.{length, keep}
use ai_ssh.Base.Text.{Text}
use ai_ssh.Protocol.Types.{TerminalEvent}
use ai_ssh.Storage.Tables.{payload_bytes}
use ai_ssh.Storage.Events.Order.{Ascends, cursor}
use ai_ssh.Session.Page.{is_wanted, add_live, append_live}
use ai_ssh.Session.Page.Live.{sort-Ascends_lem}

not_wanted :
    (a : ℕ) (id : Option Text) (e : TerminalEvent) → e.sequence ≤ a → is_wanted a id e ≡ false
unfolding is_wanted
not_wanted a none e h = ground arith
not_wanted a (some id) e h = ground arith

add_live_full :
    (limit : ℕ) (events : List TerminalEvent) (e : TerminalEvent) (live : List TerminalEvent)
    → events ≢ []
    → limit < payload_bytes events + length e.payload
    → add_live limit (payload_bytes events) events (e ∷ live) ≡ (events, true)
unfolding add_live
add_live_full limit [] e live some_event h = absurd (some_event refl)
add_live_full limit (d ∷ events) e live some_event h = ground arith

-- If the oldest event in memory that the reader wants is older than the last stored one, and does not
-- fit the page that the stored ones fill, the page holds the stored ones only and says that there is
-- more; but no page that is read from its cursor shows the event in memory.
pub append_live_skips :
    (events live : List TerminalEvent) (e : TerminalEvent) (after limit : ℕ) (id : Option Text)
    → Ascends after events
    → events ≢ []
    → is_wanted after id e ≡ true
    → e.sequence ≤ cursor after events
    → limit < payload_bytes events + length e.payload
    → let page = append_live (e ∷ live) after limit id (events, false) in
      (page ≡ (events, true)) × (is_wanted (cursor after page.0) id e ≡ false)
unfolding append_live
append_live_skips events live e after limit id rising some_event wanted older full =
    let whole = add_live_full limit events e (keep (is_wanted after id) live) some_event full in
    let sorted = sort-Ascends_lem after events rising in
    rw (wanted, whole, sorted) (refl, not_wanted (cursor after events) id e older)
