-- ===== src/Config/Examples.antt =====
-- crates/config/src/lib.rs: a configuration on which the theorem applies.
use ai_ssh.Base.{some, ◌≡◌, ◌↔◌, ◌⊎◌, ◌%◌, ℕ, refl, [], ◌∷◌, none}
use ai_ssh.Base.Text.{codes}
use ai_ssh.Base.Result.{ok}
use ai_ssh.Config.Types.{Config, Target, Auth, default_config}
use ai_ssh.Config.Paths.{FileSystem, under, starts_with, key_path, check}
use ai_ssh.Config.Validate.{
  validate, validate_settings, validate_targets, is_invalid_target, contains, validate_auth,
  require_owner_only,
}
use ai_ssh.Config.Store.{Requests, Disk, save_atomic, load}
use ai_ssh.Config.Store.Private.{IsSaved, save_atomic-IsSaved, load-IsValid}
use ai_ssh.Config.Validate.Accepts.{IsValid, validate_iff}

abbrev pub target_one : Target
target_one = record {
  id = codes "t";
  name = codes "host";
  host = codes "10.0.0.1";
  port = 22;
  username = codes "root";
  auth = Auth.private_key (codes "id") none;
}

abbrev pub config_one : Config
config_one = record default_config { targets = target_one ∷ [] }

-- A file system in which every file has the mode 0600.
abbrev files : FileSystem
files = record { canonicalize = λ path. ok path; mode_of = λ path. ok 0o100600 }

validate_iff_example :
    (validate files (under (codes "/r")) config_one ≡ ok tt)
    ↔ IsValid files (under (codes "/r")) config_one
validate_iff_example = validate_iff files (under (codes "/r")) config_one

accepts_config_one : validate files (under (codes "/r")) config_one ≡ ok tt
unfolding validate validate_settings validate_targets is_invalid_target contains validate_auth
    starts_with under key_path require_owner_only check
accepts_config_one = refl

-- A disk on which nothing fails but the last request.
abbrev requests : Requests
requests = record {
  ensures = none;
  opens = none;
  restricts = none;
  writes = none;
  syncs = none;
  renames = some (codes "full");
  partial = [];
  new_mode = 0o644;
  prints = λ c. ok (codes "version = 1");
}

abbrev new_disk : Disk
new_disk = record { config = none; temp = none }

save_atomic-IsSaved_example :
    IsSaved requests config_one new_disk
      (save_atomic requests files (under (codes "/r")) config_one new_disk)
    × (IsValid files (under (codes "/r")) config_one
        ⊎ ((save_atomic requests files (under (codes "/r")) config_one new_disk).1 ≡ new_disk))
save_atomic-IsSaved_example =
    save_atomic-IsSaved requests files (under (codes "/r")) config_one new_disk

loads_config_one :
    load files (λ path. ok []) (λ text. ok config_one) (under (codes "/r")) ≡ ok config_one
unfolding load validate validate_settings validate_targets is_invalid_target contains validate_auth
    starts_with under key_path require_owner_only check
loads_config_one = refl

load-IsValid_example :
    ((mode : ℕ) × (files.mode_of (under (codes "/r")).config ≡ ok mode) × (mode % 0o1000 ≡ 0o600))
    × IsValid files (under (codes "/r")) config_one
load-IsValid_example =
    load-IsValid files (λ path. ok []) (λ text. ok config_one) (under (codes "/r")) config_one
      loads_config_one
