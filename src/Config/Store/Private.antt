-- ===== src/Config/Store/Private.antt =====
-- crates/config/src/lib.rs: the credentials in the configuration are never in a file that others can
-- open, and a configuration that is not valid is neither stored nor loaded.
use ai_ssh.Base.{ℕ, ◌%◌, ◌≡◌, ◌⊎◌, refl, sym, subst, [], Option, none, some, arith, inl, inr}
use ai_ssh.Base.Tests.{Option-cases}
use ai_ssh.Base.Text.{Text}
use ai_ssh.Base.Result.{Result, ok, err, Result-cases}
use ai_ssh.Config.Types.{Config, ConfigError}
use ai_ssh.Config.Paths.{Paths, FileSystem, check}
use ai_ssh.Config.Validate.{validate, require_owner_only}
use ai_ssh.Config.Validate.Accepts.{IsValid, validate_iff}
use ai_ssh.Config.Store.{
  File, Disk, Requests, opened, replace, write_text, write_temp, save_atomic, load,
}

-- A file that holds nothing, or that its owner alone can open.
abbrev pub IsPrivate : Option File → Type 0
IsPrivate none = Unit
IsPrivate (some file) = (file.contents ≡ []) ⊎ (file.mode ≡ 0o600)

-- How saving may end.
abbrev pub IsSaved : Requests → Config → Disk → Result ConfigError (Unit {0}) × Disk → Type 0
IsSaved r c d saved =
    (((text : Text) × (saved.0 ≡ ok tt)
        × (r.prints c ≡ ok text)
        × (saved.1.config ≡ some (record { mode = 0o600; contents = text })))
      ⊎ ((e : ConfigError) × (saved.0 ≡ err e) × (saved.1.config ≡ d.config)))
    × ((saved.1.temp ≡ d.temp) ⊎ IsPrivate saved.1.temp)

replace-IsSaved :
    (r : Requests) (c : Config) (d : Disk) (text : Text)
    → r.prints c ≡ ok text
    → IsSaved r c d
        (replace r (record d { temp = some (record { mode = 0o600; contents = text }) }))
unfolding replace
replace-IsSaved r c d text printed = elim (Option-cases r.syncs) [
  | inr (e, fails) ↦ rw (fails, replace) (inr (_, refl, refl), inr (inr refl))
  | inl synced ↦ elim (Option-cases r.renames) [
    | inr (e, fails) ↦ rw (synced, replace) (rw fails (inr (_, refl, refl), inr (inr refl)))
    | inl renamed ↦ rw (synced, replace) (rw renamed (inl (text, refl, printed, refl), inr tt))
  ]
]

opened-IsPrivate : (r : Requests) (temp : Option File) → IsPrivate (some (opened r temp))
opened-IsPrivate r none = inl refl
opened-IsPrivate r (some file) = inl refl

write_text_done :
    (r : Requests) (c : Config) (d : Disk) (text : Text)
    → r.prints c ≡ ok text
    → r.writes ≡ none
    → write_text r c d
      ≡ replace r (record d { temp = some (record { mode = 0o600; contents = text }) })
unfolding write_text
write_text_done r c d text printed written =
    rw (printed, write_text) (rw (written, write_text) refl)

write_text_unprinted :
    (r : Requests) (c : Config) (d : Disk) (e : Text)
    → r.prints c ≡ err e
    → write_text r c d ≡ (err (ConfigError.serialize e), d)
unfolding write_text
write_text_unprinted r c d e fails = rw (fails, write_text) refl

write_text_failed :
    (r : Requests) (c : Config) (d : Disk) (text e : Text)
    → r.prints c ≡ ok text
    → r.writes ≡ some e
    → write_text r c d ≡ (
      err (ConfigError.io e),
      record d { temp = some (record { mode = 0o600; contents = r.partial }) },
    )
unfolding write_text
write_text_failed r c d text e printed fails =
    rw (printed, write_text) (rw (fails, write_text) refl)

write_temp-IsSaved : (r : Requests) (c : Config) (d : Disk) → IsSaved r c d (write_temp r c d)
unfolding write_temp write_text
write_temp-IsSaved r c d = elim (Option-cases r.opens) [
  | inr (e, fails) ↦ rw (fails, write_temp) (inr (_, refl, refl), inl refl)
  | inl opens ↦ elim (Option-cases r.restricts) [
    | inr (e, fails) ↦
        rw (opens, write_temp) (rw fails (inr (_, refl, refl), inr (opened-IsPrivate r d.temp)))
    | inl restricts ↦ elim (Result-cases (r.prints c)) [
      | inr (e, fails) ↦
          let started = record d { temp = some (record { mode = 0o600; contents = [] }) } in
          let left = write_text_unprinted r c started e fails in
          rw (opens, write_temp)
            (rw restricts (subst (IsSaved r c d) (sym left) (inr (_, refl, refl), inr (inl refl))))
      | inl (text, printed) ↦ elim (Option-cases r.writes) [
        | inr (e, fails) ↦
            let started = record d { temp = some (record { mode = 0o600; contents = [] }) } in
            let left = write_text_failed r c started text e printed fails in
            rw (opens, write_temp)
              (rw restricts
                (subst (IsSaved r c d) (sym left) (inr (_, refl, refl), inr (inr refl))))
        | inl writes ↦
            let started = record d { temp = some (record { mode = 0o600; contents = [] }) } in
            let done = write_text_done r c started text printed writes in
            rw (opens, write_temp)
              (rw restricts (subst (IsSaved r c d) (sym done) (replace-IsSaved r c d text printed)))
      ]
    ]
  ]
]

-- Whatever requests to the disk fail, saving ends in one of two ways. Either it succeeds and the
-- configuration file holds the configuration whole, with the mode 0600; or there is an error and the
-- file is as it was. The temporary file is as it was, or is gone or empty, or has the mode 0600.
-- Unless the configuration is valid, neither of the two files changes.
pub save_atomic-IsSaved :
    (r : Requests) (fs : FileSystem) (paths : Paths) (c : Config) (d : Disk)
    → IsSaved r c d (save_atomic r fs paths c d)
      × (IsValid fs paths c ⊎ ((save_atomic r fs paths c d).1 ≡ d))
unfolding save_atomic
save_atomic-IsSaved r fs paths c d = elim (Option-cases r.ensures) [
  | inr (e, fails) ↦ rw (fails, save_atomic) ((inr (_, refl, refl), inl refl), inr refl)
  | inl ensured ↦ elim (Result-cases (validate fs paths c)) [
    | inr (e, refused) ↦
        rw (ensured, save_atomic) (rw refused ((inr (_, refl, refl), inl refl), inr refl))
    | inl (tt, valid) ↦
        rw (ensured, save_atomic)
          (rw valid (write_temp-IsSaved r c d, inl ((validate_iff fs paths c).0 valid)))
  ]
]

-- On Unix a configuration is loaded only from a file with the mode 0600, and only if it is valid.
pub load-IsValid :
    (fs : FileSystem) (reads : Text → Result Text Text) (parses : Text → Result Text Config)
    (paths : Paths) (c : Config)
    → load fs reads parses paths ≡ ok c
    → ((mode : ℕ) × (fs.mode_of paths.config ≡ ok mode) × (mode % 0o1000 ≡ 0o600))
      × IsValid fs paths c
unfolding load require_owner_only check
load-IsValid fs reads parses paths c h = elim (Result-cases (fs.mode_of paths.config)) [
  | inr (e, fails) ↦ absurd (ground arith)
  | inl (mode, has_mode) ↦ elim (Result-cases (reads paths.config)) [
    | inr (e, fails) ↦ absurd (ground arith)
    | inl (text, read) ↦ elim (Result-cases (parses text)) [
      | inr (e, fails) ↦ absurd (ground arith)
      | inl (config, parsed) ↦ elim (Result-cases (validate fs paths config)) [
        | inr (e, fails) ↦ absurd (ground arith)
        | inl (tt, valid) ↦
            let same : config ≡ c = ground arith in
            (
              (mode, has_mode, ground arith),
              subst (IsValid fs paths) same ((validate_iff fs paths config).0 valid),
            )
      ]
    ]
  ]
]
