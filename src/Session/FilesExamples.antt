-- ===== src/Session/FilesExamples.antt =====
-- crates/session/src/lib.rs: writes of files on which the theorems apply.
use ai_ssh.Base.{ℕ, ◌≡◌, refl, Bool, true, false, List, [], ◌∷◌, Option, none, some}
use ai_ssh.Base.Lists.{length}
use ai_ssh.Base.Text.{codes, text_eq, is_whitespace}
use ai_ssh.Base.Result.{ok, err}
use ai_ssh.Config.Examples.{config_one}
use ai_ssh.Session.Runtime.{Connection}
use ai_ssh.Storage.Examples.{db_one}
use ai_ssh.Session.Examples.{runtime_one}
use ai_ssh.Session.Files.{WriteRequest, Host, written, write_connected, local_path_for}
use ai_ssh.Session.Files.Write.{Grounds, write_connected-Grounds}

abbrev append_three : WriteRequest
append_three = record {
  remote_path = codes "/f";
  contents = 3 ∷ [];
  append = true;
  create_dirs = false;
  mode = none;
  sudo = true;
  if_changed = false;
}

-- What the host holds after the bytes are appended to its one byte, or replace it.
abbrev after_tee : (append : Bool) → List ℕ → Option (List ℕ)
after_tee true contents = some (1 ∷ contents)
after_tee false contents = some contents

-- The digest is the text itself, and the file held one byte before.
abbrev pub honest_host : Host
honest_host = record {
  now = 1;
  dial = λ attempt. err (codes "refused");
  opens = ok tt;
  sha256 = λ contents. contents;
  before = some (1 ∷ []);
  after = λ append contents. after_tee append contents;
  makes_dir = λ path. ok tt;
  writes = λ append contents. ok tt;
  reads = ok (1 ∷ [], 1);
  stages = λ contents.
      ok (record { bytes = length contents; sha256 = contents; verified = true; changed = true });
}

abbrev replace_with_one : WriteRequest
replace_with_one = record append_three { contents = 1 ∷ []; append = false; if_changed = true }

abbrev host_connection : Connection
host_connection = record { fingerprint = codes "SHA256:x"; is_closed = false }

it_is_unchanged :
    (write_connected config_one honest_host replace_with_one
      (ok host_connection, (runtime_one, db_one))).0
    ≡ ok (written replace_with_one (1 ∷ []) false)
unfolding write_connected text_eq
it_is_unchanged = refl

write_connected-Grounds_example :
    Grounds honest_host replace_with_one (written replace_with_one (1 ∷ []) false)
write_connected-Grounds_example =
    write_connected-Grounds config_one honest_host replace_with_one
      (ok host_connection, (runtime_one, db_one)) (written replace_with_one (1 ∷ []) false)
      it_is_unchanged

home_is_expanded : local_path_for (some (codes "/home/u")) (codes " ~/f ") ≡ ok (codes "/home/u/f")
unfolding local_path_for is_whitespace
home_is_expanded = refl
