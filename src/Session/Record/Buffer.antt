-- ===== src/Session/Record/Buffer.antt =====
-- crates/session/src/lib.rs: the buffer of events that were not stored keeps to its limit, and loses
-- its oldest events only, and only as many as it must.
use ai_ssh.Base.{
  ℕ, ◌+◌, ◌-◌, ◌≤◌, ◌<◌, ◌≡◌, ◌≢◌, ◌⊎◌, refl, ap, sym, ◌∙◌, Bool, true, not, List, [], ◌∷◌, ◌++◌,
  arith, inl, inr,
}
use ai_ssh.Base.Tests.{ltb, Bool-cases, if◌then◌else◌}
use ai_ssh.Base.Lists.{length, is_empty}
use ai_ssh.Protocol.Types.{TerminalEvent}
use ai_ssh.Storage.Tables.{payload_bytes}
use ai_ssh.Session.Runtime.{SessionRuntime}
use ai_ssh.Session.Record.{trim_live, keep_live}

-- What was dropped in front, and that no event of it could have stayed: with the last of the dropped
-- events the buffer would be over its limit.
pub record Trimmed (limit : ℕ) (live : List TerminalEvent) (r : List TerminalEvent × Bool)
    : Type 0 where
  pub dropped : List TerminalEvent
  pub parts : live ≡ dropped ++ r.0
  pub fits : payload_bytes r.0 ≤ limit
  pub told : r.1 ≡ not (is_empty dropped)
  pub needed :
      (front : List TerminalEvent) (e : TerminalEvent)
      → dropped ≡ front ++ e ∷ []
      → limit < length e.payload + payload_bytes r.0

nil_ne : (front : List TerminalEvent) (e : TerminalEvent) → [] ≢ front ++ e ∷ []
nil_ne [] e h = cc
nil_ne (x ∷ front) e h = cc

needed_cons :
    (limit : ℕ) (old : TerminalEvent) (live : List TerminalEvent) (r : List TerminalEvent × Bool)
    (t : Trimmed limit live r) (front : List TerminalEvent) (e : TerminalEvent)
    → limit < length old.payload + payload_bytes live
    → old ∷ t.dropped ≡ front ++ e ∷ []
    → limit < length e.payload + payload_bytes r.0
needed_cons limit old live r t [] e over h =
    let same : old ≡ e = cc in
    let none_more : t.dropped ≡ [] = cc in
    let left : live ≡ r.0 = t.parts ∙ ap (λ d. d ++ r.0) none_more in rw (sym same, sym left) over
needed_cons limit old live r t (x ∷ front) e over h = t.needed front e (cc)

trim_live-Trimmed :
    (limit bytes : ℕ) (live : List TerminalEvent)
    → bytes ≡ payload_bytes live
    → Trimmed limit live (trim_live limit bytes live)
unfolding trim_live payload_bytes
trim_live-Trimmed limit bytes [] h = record {
  dropped = [];
  parts = refl;
  fits = omega arith;
  told = refl;
  needed = λ front e eq. absurd (nil_ne front e eq);
}
trim_live-Trimmed limit bytes (old ∷ live) h =
    let t = trim_live-Trimmed limit (bytes - length old.payload) live (omega arith) in
    elim (Bool-cases (ltb limit bytes)) [
      | inl over ↦ rw over (record {
        dropped = old ∷ t.dropped;
        parts = ap (◌∷◌ old) t.parts;
        fits = t.fits;
        told = refl;
        needed = λ front e eq. needed_cons limit old live _ t front e (ground arith) eq;
      })
      | inr fits ↦ rw fits (record {
        dropped = [];
        parts = refl;
        fits = ground arith;
        told = refl;
        needed = λ front e eq. absurd (nil_ne front e eq);
      })
    ]

pub recording_truncated-keep_live :
    (limit : ℕ) (event : TerminalEvent) (rt : SessionRuntime)
    → (keep_live limit event rt).recording_truncated ≡ true
unfolding keep_live
recording_truncated-keep_live limit event rt = refl

-- The last of some dropped events, which the limit did not leave room for.
abbrev pub IsNeeded : ℕ → List TerminalEvent → List TerminalEvent → Type 0
IsNeeded limit dropped left =
    (dropped ≡ [])
    ⊎ ((front : List TerminalEvent) × (e : TerminalEvent) × (dropped ≡ front ++ e ∷ [])
        × (limit < length e.payload + payload_bytes left))

split_last :
    (es : List TerminalEvent)
    → (es ≡ []) ⊎ ((front : List TerminalEvent) × (e : TerminalEvent) × (es ≡ front ++ e ∷ []))
split_last [] = inl refl
split_last (e ∷ es) = inr (elim (split_last es) [
  | inl alone ↦ ([], e, ap (◌∷◌ e) alone)
  | inr (front, f, parts) ↦ (e ∷ front, f, ap (◌∷◌ e) parts)
])

-- An event that is kept in memory goes to the end of the buffer. What is left is the newest part of
-- it, within the limit; the events that were dropped in front are as few as the limit allows; and
-- the flag for lost output is set when one was dropped, and otherwise left as it was.
pub keep_live_lem :
    (limit : ℕ) (event : TerminalEvent) (rt : SessionRuntime)
    → let after = keep_live limit event rt in
      (dropped : List TerminalEvent) × (rt.live_events ++ event ∷ [] ≡ dropped ++ after.live_events)
      × (payload_bytes after.live_events ≤ limit)
      × IsNeeded limit dropped after.live_events
      × (after.live_tail_dropped ≡ (if not (is_empty dropped) then true else rt.live_tail_dropped))
unfolding keep_live
keep_live_lem limit event rt =
    let live = rt.live_events ++ event ∷ [] in
    let t = trim_live-Trimmed limit (payload_bytes live) live refl in
    (
      t.dropped,
      t.parts,
      t.fits,
      elim (split_last t.dropped) [
        | inl kept ↦ inl kept
        | inr (front, e, parts) ↦ inr (front, e, parts, t.needed front e parts)
      ],
      ap (λ lost. if lost then true else rt.live_tail_dropped) t.told,
    )
