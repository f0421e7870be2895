-- ===== src/Ssh/Transfer.antt =====
-- crates/ssh/src/transfer.rs: staged writes to a remote file over SFTP, and the paths they use.
pub mod Apart
pub mod Destination
pub mod Directories
pub mod Streams
use ai_ssh.Base.{
  ℕ, ◌+◌, ◌≡◌, refl, Bool, true, false, not, ◌&&◌, List, [], ◌∷◌, ◌++◌, Option, none, some,
}
use ai_ssh.Base.Tests.{◌==◌, if◌then◌else◌, is_some}
use ai_ssh.Base.Lists.{length, is_empty, find, keep}
use ai_ssh.Base.Text.{Text, codes, text_eq}
use ai_ssh.Base.Result.{Result, ok, err}

abbrev pub Bytes : Type 0
Bytes = List ℕ

-- `trim_end_matches('/')`.
unfoldable pub trim_slashes : Text → Text
trim_slashes [] = []
trim_slashes (c ∷ s) =
    let rest = trim_slashes s in if is_empty rest && c == b'/' then [] else c ∷ rest

-- What stands before and behind the last slash, by `rfind('/')`.
unfoldable pub split_at_slash : Text → Option (Text × Text)
split_at_slash [] = none
split_at_slash (c ∷ s) = elim (split_at_slash s) [
  | some (dir, name) ↦ some (c ∷ dir, name)
  | none ↦ if c == b'/' then some ([], s) else none
]

-- `staged_path`, with the process id, the time and the counter as one text.
unfoldable pub staged_path : (unique : Text) → Text → Text
unfolding trim_slashes split_at_slash
staged_path unique remote = elim (split_at_slash (trim_slashes remote)) [
  | none ↦ trim_slashes remote ++ (codes ".aissh-tmp-" ++ unique)
  | some ([], name) ↦ b'/' ∷ name ++ (codes ".aissh-tmp-" ++ unique)
  | some (c ∷ dir, name) ↦ (c ∷ dir) ++ b'/' ∷ name ++ (codes ".aissh-tmp-" ++ unique)
]

unfoldable pub parent_of : Text → Option Text
unfolding trim_slashes split_at_slash
parent_of remote = elim (split_at_slash (trim_slashes remote)) [
  | none ↦ none
  | some ([], name) ↦ some (codes "/")
  | some (c ∷ dir, name) ↦ some (c ∷ dir)
]

-- The files of the remote host.
abbrev pub Files : Type 0
Files = List (Text × Bytes)

abbrev pub file_is : Text → Text × Bytes → Bool
file_is path f = text_eq f.0 path

unfoldable pub get : Text → Files → Option Bytes
get path fs = elim (find (file_is path) fs) [ none ↦ none | some f ↦ some f.1 ]

unfoldable pub remove_file : Text → Files → Files
remove_file path fs = keep (λ f. not (file_is path f)) fs

unfoldable pub set_file : Text → Bytes → Files → Files
unfolding remove_file
set_file path contents fs = (path, contents) ∷ remove_file path fs

-- How the SFTP server and the host answer during one transfer: the error of each request that fails;
-- what is in the file when a
-- write fails, and what of the data that was sent arrives in it when none does; the digest; whether the host has a tool for it.
pub record Remote : Type 0 where
  pub create : Option Text
  pub write : Option Text
  pub flush : Option Text
  pub close : Option Text
  pub set_mode : Option Text
  pub metadata : Option Text
  pub remove : Option Text
  pub rename : Option Text
  pub discards : Bool
  pub remains : Bytes
  pub arrives : Bytes → Bytes
  pub digest : Bytes → Text
  pub has_tool : Bool

pub record TransferOutcome : Type 0 where
  pub bytes : ℕ
  pub sha256 : Text
  pub verified : Bool
  pub changed : Bool

-- `discard`: a failure to remove the staged file is ignored.
unfoldable pub discard : Remote → Text → Files → Files
unfolding remove_file
discard r staged fs = if r.discards then remove_file staged fs else fs

-- `confirm`. The digest of a file that is not there is none.
unfoldable pub confirm :
    Remote → (staged expected : Text) → (verify : Bool) → Files → Result Text Bool × Files
unfolding get discard
confirm r staged expected false fs = (ok false, fs)
confirm r staged expected true fs =
    if not r.has_tool then (ok false, fs) else elim (get staged fs) [
      | none ↦ (ok false, fs)
      | some contents ↦
          if text_eq (r.digest contents) expected
          then (ok true, fs)
          else (err (codes "TRANSFER_VERIFY_FAILED"), discard r staged fs)
    ]

-- `promote`, the only step that changes the destination.
unfoldable pub rename : Remote → (staged remote : Text) → Files → Result Text (Unit {0}) × Files
unfolding get set_file remove_file
rename r staged remote fs = elim r.rename [
  | some failed ↦ (err failed, fs)
  | none ↦ elim (get staged fs) [
    | none ↦ (err (codes "FILE_NOT_FOUND"), fs)
    | some contents ↦ (ok tt, set_file remote contents (remove_file staged fs))
  ]
]

unfoldable pub promote : Remote → (staged remote : Text) → Files → Result Text (Unit {0}) × Files
unfolding get rename
promote r staged remote fs = elim r.metadata [
  | some failed ↦ (err failed, fs)
  | none ↦ if not (is_some (get remote fs)) then rename r staged remote fs else elim r.remove [
    | some failed ↦ (err failed, fs)
    | none ↦ rename r staged remote (remove_file remote fs)
  ]
]

abbrev pub mode_fails : Remote → (mode : Option ℕ) → Option Text
mode_fails r none = none
mode_fails r (some mode) = r.set_mode

-- The first of the requests that write, flush and close that fails.
abbrev pub first_failure : Option Text → Option Text → Option Text
first_failure none next = next
first_failure (some failed) next = some failed

-- What follows the writing of the staged file.
unfoldable pub finish_write :
    Remote
    → (staged remote : Text) → (sent : Bytes) → (mode : Option ℕ) → Result Text Bool × Files
    → Result Text TransferOutcome × Files
unfolding discard promote
finish_write r staged remote sent mode (err failed, fs) = (err failed, fs)
finish_write r staged remote sent mode (ok verified, fs) = elim (mode_fails r mode) [
  | some failed ↦ (err failed, discard r staged fs)
  | none ↦
      let promoted = promote r staged remote fs in
      elim promoted.0 [
        | err failed ↦ (err failed, promoted.1)
        | ok _ ↦ (
          ok (record {
            bytes = length sent;
            sha256 = r.digest sent;
            verified = verified;
            changed = true;
          }),
          promoted.1,
        )
      ]
]

unfoldable pub write_staged :
    Remote
    → (unique remote : Text) → (sent : Bytes) → (mode : Option ℕ) → (verify : Bool) → Files
    → Result Text TransferOutcome × Files
unfolding staged_path set_file discard confirm finish_write
write_staged r unique remote sent mode verify fs =
    let staged = staged_path unique remote in
    elim r.create [
      | some failed ↦ (err failed, fs)
      | none ↦ elim (first_failure r.write (first_failure r.flush r.close)) [
        | some failed ↦ (err failed, discard r staged (set_file staged r.remains fs))
        | none ↦
            let written = set_file staged (r.arrives sent) fs in
            finish_write r staged remote sent mode (confirm r staged (r.digest sent) verify written)
      ]
    ]
