-- ===== src/Config/Validate/Accepts.antt =====
-- crates/config/src/lib.rs: `validate` accepts exactly the configurations that meet the rules.
use ai_ssh.Base.{ℕ, ◌%◌, ◌≤◌, ◌<◌, ◌≡◌, ◌≢◌, ◌↔◌, refl, true, false, List, [], ◌∷◌, arith, inl, inr}
use ai_ssh.Base.Tests.{Bool-cases}
use ai_ssh.Base.Lists.{All, All-map, All-zip}
use ai_ssh.Base.Text.{Text, text_eq_iff}
use ai_ssh.Base.Result.{ok, Result-cases}
use ai_ssh.Config.Types.{Config, Target, Auth}
use ai_ssh.Config.Paths.{Paths, FileSystem, check, key_path, starts_with}
use ai_ssh.Config.Validate.{
  contains, require_owner_only, validate_auth, is_invalid_target, validate_targets,
  validate_settings, validate,
}

-- The settings are in their ranges.
pub record HasValidSettings (c : Config) : Type 0 where
  pub version : c.version ≡ 1
  pub retention : (1 ≤ c.retention_days) × (c.retention_days ≤ 3650)
  pub idle : 0 < c.idle_timeout_seconds
  pub connect : 0 < c.connect_timeout_seconds
  pub keepalive : 0 < c.keepalive_seconds
  pub recording : 0 < c.recording_limit_mib
  pub attempts : (1 ≤ c.reconnect_attempts) × (c.reconnect_attempts ≤ 10)
  pub backoff : c.reconnect_backoff_seconds ≤ 60

-- A private key resolves to a file below the key directory whose low mode bits are 0600.
pub record HasSafeKey (fs : FileSystem) (paths : Paths) (path : Text) : Type 0 where
  pub canonical : Text
  pub keys : Text
  pub mode : ℕ
  pub resolves : fs.canonicalize (key_path paths path) ≡ ok canonical
  pub directory : fs.canonicalize paths.keys ≡ ok keys
  pub below : starts_with canonical keys ≡ true
  pub has_mode : fs.mode_of canonical ≡ ok mode
  pub owner_only : mode % 0o1000 ≡ 0o600

abbrev pub HasSafeAuth : FileSystem → Paths → Auth → Type 0
HasSafeAuth fs paths (Auth.password p) = Unit
HasSafeAuth fs paths (Auth.private_key path passphrase) = HasSafeKey fs paths path

pub record IsValidTarget (fs : FileSystem) (paths : Paths) (t : Target) : Type 0 where
  pub id : t.id ≢ []
  pub name : t.name ≢ []
  pub host : t.host ≢ []
  pub username : t.username ≢ []
  pub port : 0 < t.port
  pub key : HasSafeAuth fs paths t.auth

-- No two targets have the same id.
abbrev pub UniqueIds : List Target → Type 0
UniqueIds [] = Unit
UniqueIds (t ∷ ts) = All (λ u. u.id ≢ t.id) ts × UniqueIds ts

pub record IsValid (fs : FileSystem) (paths : Paths) (c : Config) : Type 0 where
  pub settings : HasValidSettings c
  pub targets : All (IsValidTarget fs paths) c.targets
  pub unique : UniqueIds c.targets

settings_sound : (c : Config) → validate_settings c ≡ ok tt → HasValidSettings c
unfolding validate_settings
settings_sound c h = ground arith

settings_complete : (c : Config) → HasValidSettings c → validate_settings c ≡ ok tt
unfolding validate_settings
settings_complete c v = ground arith

module _ (fs : FileSystem) (paths : Paths) where
  auth_sound : (a : Auth) → validate_auth fs paths a ≡ ok tt → HasSafeAuth fs paths a
  unfolding validate_auth require_owner_only check
  auth_sound (Auth.password p) h = tt
  auth_sound (Auth.private_key path passphrase) h =
      elim (Result-cases (fs.canonicalize (key_path paths path))) [
        | inr (e, fails) ↦ absurd (ground arith)
        | inl (canonical, resolves) ↦ elim (Result-cases (fs.canonicalize paths.keys)) [
          | inr (e, fails) ↦ absurd (ground arith)
          | inl (keys, directory) ↦ elim (Result-cases (fs.mode_of canonical)) [
            | inr (e, fails) ↦ absurd (ground arith)
            | inl (mode, has_mode) ↦ record {
              canonical = canonical;
              keys = keys;
              mode = mode;
              resolves = resolves;
              directory = directory;
              below = ground arith;
              has_mode = has_mode;
              owner_only = ground arith;
            }
          ]
        ]
      ]

  auth_complete : (a : Auth) → HasSafeAuth fs paths a → validate_auth fs paths a ≡ ok tt
  unfolding validate_auth require_owner_only check
  auth_complete (Auth.password p) v = refl
  auth_complete (Auth.private_key path passphrase) v = ground arith

-- What the set of ids so far lets through.
abbrev Fresh : List Text → Target → Type 0
Fresh ids t = contains t.id ids ≡ false

Fresh-cons :
    (id : Text) (ids : List Text) (t : Target) → Fresh (id ∷ ids) t ↔ ((t.id ≢ id) × Fresh ids t)
unfolding contains
Fresh-cons id ids t = ground (arith, text_eq_iff id t.id)

module _ (fs : FileSystem) (paths : Paths) where
  target_sound :
      (ids : List Text) (t : Target)
      → is_invalid_target ids t ≡ false
      → HasSafeAuth fs paths t.auth
      → IsValidTarget fs paths t × Fresh ids t
  unfolding is_invalid_target
  target_sound ids t h k = (
    record {
      id = λ e. ground arith;
      name = λ e. ground arith;
      host = λ e. ground arith;
      username = λ e. ground arith;
      port = ground arith;
      key = k;
    },
    ground arith,
  )

  target_complete :
      (ids : List Text) (t : Target)
      → IsValidTarget fs paths t
      → Fresh ids t
      → is_invalid_target ids t ≡ false
  unfolding is_invalid_target
  target_complete ids t v f = ground arith

  targets_sound :
      (ids : List Text) (ts : List Target)
      → validate_targets fs paths ids ts ≡ ok tt
      → All (IsValidTarget fs paths) ts × UniqueIds ts × All (Fresh ids) ts
  unfolding validate_targets
  targets_sound ids [] h = (tt, tt, tt)
  targets_sound ids (t ∷ ts) h = elim (Bool-cases (is_invalid_target ids t)) [
    | inl bad ↦ absurd (ground arith)
    | inr good ↦ elim (Result-cases (validate_auth fs paths t.auth)) [
      | inr (e, fails) ↦ absurd (ground arith)
      | inl (tt, passes) ↦
          let (v, fresh) = target_sound ids t good (auth_sound fs paths t.auth passes) in
          let (vs, unique, later) = targets_sound (t.id ∷ ids) ts (ground arith) in
          (
            (v, vs),
            (All-map (λ u f. ((Fresh-cons t.id ids u).0 f).0) ts later, unique),
            (fresh, All-map (λ u f. ((Fresh-cons t.id ids u).0 f).1) ts later),
          )
    ]
  ]

  targets_complete :
      (ids : List Text) (ts : List Target)
      → All (IsValidTarget fs paths) ts
      → UniqueIds ts
      → All (Fresh ids) ts
      → validate_targets fs paths ids ts ≡ ok tt
  unfolding validate_targets
  targets_complete ids [] v u f = refl
  targets_complete ids (t ∷ ts) v u f =
      rw (target_complete ids t v.0 f.0, auth_complete fs paths t.auth v.0.key)
        (targets_complete (t.id ∷ ids) ts v.1 u.1 (
          All-zip (λ u. u.id ≢ t.id) (Fresh ids) (Fresh (t.id ∷ ids))
            (λ u n g. (Fresh-cons t.id ids u).1 (n, g)) ts u.0 f.1))

  none_contained : (ts : List Target) → All (Fresh []) ts
  unfolding contains
  none_contained [] = tt
  none_contained (t ∷ ts) = (refl, none_contained ts)

  accepted : (c : Config) → validate fs paths c ≡ ok tt → IsValid fs paths c
  unfolding validate
  accepted c h = elim (Result-cases (validate_settings c)) [
    | inr (e, fails) ↦ absurd (ground arith)
    | inl (tt, passes) ↦
        let (v, unique, _) = targets_sound [] c.targets (ground arith) in
        record { settings = settings_sound c passes; targets = v; unique = unique }
  ]

  accepts : (c : Config) → IsValid fs paths c → validate fs paths c ≡ ok tt
  unfolding validate
  accepts c v =
      rw (settings_complete c v.settings)
        (targets_complete [] c.targets v.targets v.unique (none_contained c.targets))

-- A configuration is accepted exactly when its settings are in range, every target is complete and
-- has a safe key, and no two targets share an id.
pub validate_iff :
    (fs : FileSystem) (paths : Paths) (c : Config)
    → (validate fs paths c ≡ ok tt) ↔ IsValid fs paths c
validate_iff fs paths c = (accepted fs paths c, accepts fs paths c)
