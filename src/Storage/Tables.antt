-- ===== src/Storage/Tables.antt =====
-- crates/storage/src/lib.rs: the tables of SCHEMA, and what SQL does to a list of rows. A timestamp
-- column holds RFC 3339 text in UTC, whose order is the order of the numbers that stand for it here.
-- A statement fails when it breaks a constraint or when `query_row` finds no row; failures of the
-- disk and a poisoned lock are not modelled.
use ai_ssh.Base.{ℕ, ◌+◌, ◌*◌, Bool, false, List, [], ◌∷◌, Option, none, some}
use ai_ssh.Base.Tests.{leb, if◌then◌else◌}
use ai_ssh.Base.Text.{Text, text_eq}
use ai_ssh.Base.Lists.{length}
use ai_ssh.Protocol.Types.{SessionInfo, CommandInfo, TerminalEvent}

pub data StorageError : Type 0 where
  no_rows constraint lock : StorageError

-- A row of `sessions`: the columns that `session_from_row` reads, and `recorded_bytes`.
pub record SessionRow : Type 0 where
  pub info : SessionInfo
  pub recorded_bytes : ℕ

-- A row of `commands` is what `command_from_row` reads from it (`output_bytes` is the column
-- `recorded_bytes`); a row of `events` is what `events` reads from it.
pub record Storage : Type 0 where
  pub sessions : List SessionRow
  pub commands : List CommandInfo
  pub events : List TerminalEvent
  pub recording_limit_bytes : ℕ

-- `Storage::open` of a new database. The limit is a `u64` product, which does not wrap for any limit
-- below 2 ^ 44 MiB.
unfoldable pub open_empty : (recording_limit_mib : ℕ) → Storage
open_empty recording_limit_mib = record {
  sessions = [];
  commands = [];
  events = [];
  recording_limit_bytes = recording_limit_mib * 1024 * 1024;
}

-- `UPDATE ... WHERE`: every row that fits the test is changed.
unfoldable pub update_where {ℓ} : {A : Type ℓ} → (A → Bool) → (A → A) → List A → List A
update_where test change [] = []
update_where test change (r ∷ rs) = (if test r then change r else r) ∷ update_where test change rs

-- `ORDER BY sequence`, and `sort_by_key` on the sequence: a stable insertion sort.
unfoldable pub insert_by_sequence : TerminalEvent → List TerminalEvent → List TerminalEvent
insert_by_sequence e [] = e ∷ []
insert_by_sequence e (f ∷ fs) =
    if leb e.sequence f.sequence then e ∷ f ∷ fs else f ∷ insert_by_sequence e fs

unfoldable pub sort_by_sequence : List TerminalEvent → List TerminalEvent
unfolding insert_by_sequence
sort_by_sequence [] = []
sort_by_sequence (e ∷ es) = insert_by_sequence e (sort_by_sequence es)

-- A nullable text column equals a text only where it is not null.
unfoldable pub column_is : Text → Option Text → Bool
column_is id none = false
column_is id (some c) = text_eq c id

-- `iter().map(|e| e.payload.len()).sum()`.
unfoldable pub payload_bytes : List TerminalEvent → ℕ
payload_bytes [] = 0
payload_bytes (e ∷ es) = length e.payload + payload_bytes es
