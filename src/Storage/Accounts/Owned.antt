-- ===== src/Storage/Accounts/Owned.antt =====
-- crates/storage/src/lib.rs: every event that is stored for a command is one of the command's session.
use ai_ssh.Base.{
  ℕ, ◌-◌, ◌*◌, ◌≡◌, refl, ap, ◌∙◌, Bool, true, false, not, ◌&&◌, List, [], ◌∷◌, ◌++◌, Option, none,
  some, arith, inl, inr,
}
use ai_ssh.Base.Tests.{ltb, Bool-cases, Option-cases, is_some}
use ai_ssh.Base.Text.{Text, text_eq}
use ai_ssh.Base.Lists.{
  All, All-append, All-keep, All-map, All-zip, All-keep_test, find, keep, length,
}
use ai_ssh.Protocol.Types.{CommandInfo, TerminalEvent}
use ai_ssh.Storage.Tables.{Storage, SessionRow, update_where}
use ai_ssh.Storage.Sessions.{
  session_is, owner, loses_command, is_expired, cleanup, nanoseconds_per_day,
}
use ai_ssh.Storage.Commands.{command_is, update_command}
use ai_ssh.Storage.Events.{
  append_event, append_to, append_over_limit, append_within_limit, mark_command_truncated,
  count_command_bytes, can_insert, command_known, saturating_add,
}

-- The command of that id, if one is named, is of the session.
abbrev pub OwnedBy : List CommandInfo → (session_id : Text) → Option Text → Type 0
OwnedBy cs session_id none = Unit {0}
OwnedBy cs session_id (some id) = owner id cs ≡ some session_id

abbrev pub IsOwned : List CommandInfo → TerminalEvent → Type 0
IsOwned cs e = OwnedBy cs e.session_id e.command_id

abbrev pub AllOwned : Storage → Type 0
AllOwned db = All (IsOwned db.commands) db.events

-- The command of that id is of no other session.
abbrev pub NotOthers : List CommandInfo → (session_id : Text) → Option Text → Type 0
NotOthers cs session_id none = Unit {0}
NotOthers cs session_id (some id) = (s : Text) → owner id cs ≡ some s → s ≡ session_id

module _ (cs ds : List CommandInfo) where
  abbrev pub KeepsOwners : Type 0
  KeepsOwners = (id s : Text) → owner id cs ≡ some s → owner id ds ≡ some s

  lift_owner : KeepsOwners → (s : Text) (id : Option Text) → OwnedBy cs s id → OwnedBy ds s id
  lift_owner keeps s none h = tt
  lift_owner keeps s (some id) h = keeps id s h

  pub AllOwned_lifts :
      KeepsOwners → (es : List TerminalEvent) → All (IsOwned cs) es → All (IsOwned ds) es
  AllOwned_lifts keeps es v = All-map (λ e h. lift_owner keeps e.session_id e.command_id h) es v

owner-update_where :
    (test : CommandInfo → Bool) (change : CommandInfo → CommandInfo)
    → ((c : CommandInfo) → (change c).id ≡ c.id)
    → ((c : CommandInfo) → (change c).session_id ≡ c.session_id)
    → (id : Text) (cs : List CommandInfo) → owner id (update_where test change cs) ≡ owner id cs
unfolding owner update_where
owner-update_where test change ids sessions id [] = refl
owner-update_where test change ids sessions id (c ∷ cs) =
    ground (arith, ids c, sessions c, owner-update_where test change ids sessions id cs)

pub owner-append :
    (cs ds : List CommandInfo) (id s : Text) → owner id cs ≡ some s → owner id (cs ++ ds) ≡ some s
unfolding owner
owner-append [] ds id s h = cc
owner-append (c ∷ cs) ds id s h = ground (arith, owner-append cs ds id s)

-- A command of a session that stays keeps its row.
owner-keep :
    (stays : Text → Bool) (id s : Text) (cs : List CommandInfo)
    → stays s ≡ true
    → owner id cs ≡ some s
    → owner id (keep (λ c. stays c.session_id) cs) ≡ some s
unfolding owner
owner-keep stays id s [] st h = cc
owner-keep stays id s (c ∷ cs) st h = ground (arith, owner-keep stays id s cs st)

owner_of_known :
    (id : Text) (cs : List CommandInfo)
    → is_some (find (command_is id) cs) ≡ true
    → (s : Text) × (owner id cs ≡ some s)
unfolding owner
owner_of_known id [] h = cc
owner_of_known id (c ∷ cs) h = elim (Bool-cases (text_eq c.id id)) [
  | inl here ↦ (c.session_id, rw here refl)
  | inr there ↦ let (s, found) = owner_of_known id cs (ground arith) in (s, rw there found)
]

pub update_command-AllOwned :
    (c : CommandInfo) (db : Storage) → AllOwned db → AllOwned (update_command c db)
unfolding update_command
update_command-AllOwned c db v =
    AllOwned_lifts db.commands (update_command c db).commands
      (λ id s h. owner-update_where _ _ (λ r. refl) (λ r. refl) id db.commands ∙ h) db.events v

-- An event that is inserted names a command that has a row, and none of another session.
owned_if_known :
    (db : Storage) (session_id : Text) (id : Option Text)
    → command_known id db ≡ true
    → NotOthers db.commands session_id id
    → OwnedBy db.commands session_id id
unfolding command_known
owned_if_known db session_id none known own = tt
owned_if_known db session_id (some id) known own =
    let (s, found) = owner_of_known id db.commands known in found ∙ ap some (own s found)

KeepsOwners-mark :
    (id : Option Text) (cs : List CommandInfo) → KeepsOwners cs (mark_command_truncated id cs)
unfolding mark_command_truncated
KeepsOwners-mark none cs i s h = h
KeepsOwners-mark (some id) cs i s h = owner-update_where _ _ (λ r. refl) (λ r. refl) i cs ∙ h

KeepsOwners-count :
    (id : Option Text) (n sequence : ℕ) (cs : List CommandInfo)
    → KeepsOwners cs (count_command_bytes id n sequence cs)
unfolding count_command_bytes
KeepsOwners-count none n sequence cs i s h = h
KeepsOwners-count (some id) n sequence cs i s h =
    owner-update_where _ _ (λ r. refl) (λ r. refl) i cs ∙ h

over-AllOwned : (e : TerminalEvent) (db : Storage) → AllOwned db → AllOwned (append_over_limit e db)
unfolding append_over_limit
over-AllOwned e db v =
    AllOwned_lifts db.commands (mark_command_truncated e.command_id db.commands)
      (KeepsOwners-mark e.command_id db.commands) db.events v

within-AllOwned :
    (e : TerminalEvent) (db : Storage)
    → can_insert e db ≡ true
    → NotOthers db.commands e.session_id e.command_id
    → AllOwned db
    → AllOwned (append_within_limit e db)
unfolding append_within_limit can_insert
within-AllOwned e db fits own v =
    let owned = owned_if_known db e.session_id e.command_id (ground arith) own in
    AllOwned_lifts db.commands
      (count_command_bytes e.command_id (length e.payload) e.sequence db.commands)
      (KeepsOwners-count e.command_id (length e.payload) e.sequence db.commands)
      (db.events ++ e ∷ []) (All-append _ db.events (e ∷ []) v (owned, tt))

append_to-AllOwned :
    (row : SessionRow) (e : TerminalEvent) (db : Storage)
    → NotOthers db.commands e.session_id e.command_id
    → AllOwned db
    → AllOwned (append_to row e db).db
unfolding append_to
append_to-AllOwned row e db own v =
    let over = record e { persisted = false } in
    let within = record e { persisted = true } in
    elim (Bool-cases
      (ltb db.recording_limit_bytes (saturating_add row.recorded_bytes (length e.payload)))) [
        | inl full ↦ rw (full, append_to) (over-AllOwned over db v)
        | inr room ↦ elim (Bool-cases (can_insert within db)) [
          | inl fits ↦ rw (room, append_to) (rw fits (within-AllOwned within db fits own v))
          | inr refused ↦ rw (room, append_to) (rw refused v)
        ]
      ]

pub append_event-AllOwned :
    (e : TerminalEvent) (db : Storage)
    → NotOthers db.commands e.session_id e.command_id
    → AllOwned db
    → AllOwned (append_event e db).db
unfolding append_event
append_event-AllOwned e db own v =
    elim (Option-cases (find (session_is e.session_id) db.sessions)) [
      | inl missing ↦ rw (missing, append_event) v
      | inr (row, found) ↦ rw (found, append_event) (append_to-AllOwned row e db own v)
    ]

-- The command of an owned event goes only if the event's session goes.
loses_command_owned :
    (stays : Text → Bool) (cs : List CommandInfo) (s : Text) (id : Option Text)
    → OwnedBy cs s id
    → stays s && not (loses_command stays cs id) ≡ stays s
unfolding loses_command
loses_command_owned stays cs s none h = ground arith
loses_command_owned stays cs s (some id) h = rw (h, not, loses_command) (ground arith)

-- Of owned events, those go whose sessions go.
pub keep-AllOwned :
    (stays : Text → Bool) (cs : List CommandInfo) (es : List TerminalEvent)
    → All (IsOwned cs) es
    → keep (λ e. stays e.session_id && not (loses_command stays cs e.command_id)) es
      ≡ keep (λ e. stays e.session_id) es
keep-AllOwned stays cs [] v = refl
keep-AllOwned stays cs (e ∷ es) v =
    rw (loses_command_owned stays cs e.session_id e.command_id v.0)
      (rw (keep-AllOwned stays cs es v.1) refl)

keep_owned :
    (stays : Text → Bool) (cs : List CommandInfo) (s : Text) (id : Option Text)
    → OwnedBy cs s id
    → stays s ≡ true
    → OwnedBy (keep (λ c. stays c.session_id) cs) s id
keep_owned stays cs s none h k = tt
keep_owned stays cs s (some id) h k = owner-keep stays id s cs k h

pub cleanup-AllOwned :
    (now days : ℕ) (db : Storage) → AllOwned db → AllOwned (cleanup now days db).0
unfolding cleanup
cleanup-AllOwned now days db v =
    let left = keep (λ r. not (is_expired (now - days * nanoseconds_per_day) r)) db.sessions in
    let stays = λ (id : Text). is_some (find (session_is id) left) in
    rw (keep-AllOwned stays db.commands db.events v) (
      All-zip (IsOwned db.commands) (λ e. stays e.session_id ≡ true)
        (IsOwned (keep (λ c. stays c.session_id) db.commands))
        (λ e h k. keep_owned stays db.commands e.session_id e.command_id h k)
        (keep (λ e. stays e.session_id) db.events)
        (All-keep (IsOwned db.commands) (λ e. stays e.session_id) db.events v)
        (All-keep_test (λ e. stays e.session_id) db.events))
