-- ===== src/Ssh/Transfer/Directories.antt =====
-- crates/ssh/src/transfer.rs: `make_dir`, which makes missing parents first, comes to an end.
use ai_ssh.Base.{
  ℕ, zero, suc, ◌+◌, ◌≤◌, ◌<◌, ◌≡◌, ◌⊎◌, refl, ap, ◌∙◌, Bool, true, false, ◌||◌, List, [], ◌∷◌,
  Option, none, some, arith, inl, inr,
}
use ai_ssh.Base.Tests.{if◌then◌else◌, is_some, Bool-cases, Option-cases}
use ai_ssh.Base.Lists.{length, is_empty, find}
use ai_ssh.Base.Text.{Text, codes, text_eq, text_eq_refl}
use ai_ssh.Base.Result.{Result, ok, err, Result-cases}
use ai_ssh.Ssh.Transfer.{trim_slashes, split_at_slash, parent_of}

-- How the server answers: the errors of stat and create_dir for a path, the answer to the second stat
-- of a path that could not be made (an error, nothing there, or something there, which is a directory
-- or is not), and the error of setting a mode.
pub record DirectoryRemote : Type 0 where
  pub stats : Text → Option Text
  pub creates : Text → Option Text
  pub restats : Text → Result Text (Option Bool)
  pub set_mode : Option Text

-- The paths that exist, each with whether it is a directory.
abbrev pub Existing : Type 0
Existing = List (Text × Bool)

unfoldable pub kind_at : Text → Existing → Option Bool
kind_at path paths = elim (find (λ entry. text_eq entry.0 path) paths) [
  | none ↦ none
  | some entry ↦ some entry.1
]

-- `apply_mode`.
abbrev pub with_mode : DirectoryRemote → Option ℕ → Existing → Result Text (Unit {0}) × Existing
with_mode r none paths = (ok tt, paths)
with_mode r (some mode) paths = elim r.set_mode [ none ↦ (ok tt, paths) | some e ↦ (err e, paths) ]

-- `create_dir` and what follows it. Something that another has put at the path in the meantime is no
-- failure, whatever it is.
unfoldable pub create_dir :
    DirectoryRemote → Text → Option ℕ → Existing → Result Text (Unit {0}) × Existing
create_dir r path mode paths = elim (r.creates path) [
  | none ↦ with_mode r mode ((path, true) ∷ paths)
  | some e ↦ elim (r.restats path) [
    | err failed ↦ (err failed, paths)
    | ok none ↦ (err e, paths)
    | ok (some is_directory) ↦ with_mode r mode ((path, is_directory) ∷ paths)
  ]
]

-- What follows the making of the parents.
abbrev pub then_create :
    DirectoryRemote
    → Text
    → Option ℕ
    → Option (Result Text (Unit {0}) × Existing)
    → Option (Result Text (Unit {0}) × Existing)
then_create r path mode none = none
then_create r path mode (some (err e, paths)) = some (err e, paths)
then_create r path mode (some (ok _, paths)) = some (create_dir r path mode paths)

abbrev pub is_top : Text → Bool
is_top parent = text_eq parent (codes "/") || is_empty parent

-- `make_dir`. The fuel is the depth of the recursion; `none` means that it ran out.
unfoldable pub make_dir :
    (fuel : ℕ)
    → DirectoryRemote
    → Text
    → (parents : Bool) → Option ℕ
    → Existing
    → Option (Result Text (Unit {0}) × Existing)
unfolding parent_of create_dir kind_at
make_dir zero r path parents mode paths = none
make_dir (suc fuel) r path parents mode paths = elim (r.stats path) [
  | some e ↦ some (err e, paths)
  | none ↦
      if is_some (kind_at path paths)
      then some (ok tt, paths)
      else then_create r path mode (
          if parents
          then elim (parent_of path) [
            | none ↦ some (ok tt, paths)
            | some parent ↦ elim (is_top parent) [
              | true ↦ some (ok tt, paths)
              | false ↦ make_dir fuel r parent true none paths
            ]
          ]
          else some (ok tt, paths))
]

length-trim_slashes : (s : Text) → length (trim_slashes s) ≤ length s
unfolding trim_slashes
length-trim_slashes [] = omega arith
length-trim_slashes (c ∷ s) = ground (arith, length-trim_slashes s)

length-split_at_slash :
    (s dir name : Text)
    → split_at_slash s ≡ some (dir, name)
    → length s ≡ length dir + 1 + length name
unfolding split_at_slash
length-split_at_slash [] dir name h = cc
length-split_at_slash (c ∷ s) dir name h = elim (Option-cases (split_at_slash s)) [
  | inl nowhere ↦ ground arith
  | inr ((front, rest), found) ↦ ground (arith, length-split_at_slash s front rest found)
]

-- A parent is the root, or shorter than the path.
parent_of-lt :
    (path parent : Text)
    → parent_of path ≡ some parent
    → is_top parent ≡ false
    → length parent < length path
unfolding parent_of
parent_of-lt path parent h deep = elim (Option-cases (split_at_slash (trim_slashes path))) [
  | inl nowhere ↦ absurd (ground arith)
  | inr (([], name), found) ↦ absurd (ground (arith, text_eq_refl (codes "/")))
  | inr ((c ∷ dir, name), found) ↦
      let size = length-split_at_slash (trim_slashes path) (c ∷ dir) name found in
      ground (arith, size, length-trim_slashes path)
]

-- Either an error; or what is at the path: something that was there before, with nothing changed; or
-- a directory that was made; or what another has put there when it could not be made.
abbrev pub IsMade : DirectoryRemote → Text → Existing → Result Text (Unit {0}) × Existing → Type 0
IsMade r path paths made =
    ((e : Text) × (made.0 ≡ err e))
    ⊎ ((made.0 ≡ ok tt)
        × (((kind : Bool) × (kind_at path paths ≡ some kind) × (made.1 ≡ paths))
            ⊎ (((r.creates path ≡ none) × (kind_at path made.1 ≡ some true))
                ⊎ ((kind : Bool) × (r.restats path ≡ ok (some kind))
                    × (kind_at path made.1 ≡ some kind)))))

kind_at-first :
    (path : Text) (kind : Bool) (paths : Existing) → kind_at path ((path, kind) ∷ paths) ≡ some kind
unfolding kind_at
kind_at-first path kind paths = ground (arith, text_eq_refl path)

with_mode_ends :
    (r : DirectoryRemote) (path : Text) (kind : Bool) (mode : Option ℕ) (paths : Existing)
    → let made = with_mode r mode ((path, kind) ∷ paths) in
      ((e : Text) × (made.0 ≡ err e)) ⊎ ((made.0 ≡ ok tt) × (kind_at path made.1 ≡ some kind))
with_mode_ends r path kind none paths = inr (refl, kind_at-first path kind paths)
with_mode_ends r path kind (some mode) paths = elim (Option-cases r.set_mode) [
  | inl works ↦ rw works (inr (refl, kind_at-first path kind paths))
  | inr (e, fails) ↦ rw fails (inl (e, refl))
]

create_dir-IsMade :
    (r : DirectoryRemote) (path : Text) (mode : Option ℕ) (before paths : Existing)
    → IsMade r path before (create_dir r path mode paths)
unfolding create_dir
create_dir-IsMade r path mode before paths = elim (Option-cases (r.creates path)) [
  | inl works ↦
      rw (works, create_dir)
        (elim (with_mode_ends r path true mode paths) [
          | inl failed ↦ inl failed
          | inr (done, there) ↦ inr (done, inr (inl (refl, there)))
        ])
  | inr (e, fails) ↦ elim (Result-cases (r.restats path)) [
    | inr (failed, unseen) ↦ rw (fails, create_dir) (rw unseen (inl (failed, refl)))
    | inl (seen, looked) ↦ elim (Option-cases seen) [
      | inl nothing ↦ rw (fails, create_dir) (rw (looked, nothing) (inl (e, refl)))
      | inr (kind, present) ↦
          let known : r.restats path ≡ ok (some kind) = looked ∙ ap ok present in
          rw (fails, create_dir)
            (rw known (elim (with_mode_ends r path kind mode paths) [
              | inl failed ↦ inl failed
              | inr (done, there) ↦ inr (done, inr (inr (kind, refl, there)))
            ]))
    ]
  ]
]

is_some_sound : (kind : Option Bool) → is_some kind ≡ true → (k : Bool) × (kind ≡ some k)
is_some_sound none h = cc
is_some_sound (some k) h = (k, refl)

abbrev Ends :
    DirectoryRemote → Text → Existing → Option (Result Text (Unit {0}) × Existing) → Type 0
Ends r path before result =
    (made : Result Text (Unit {0}) × Existing) × (result ≡ some made) × IsMade r path before made

then_create-Ends :
    (r : DirectoryRemote) (path : Text) (mode : Option ℕ) (before : Existing)
    (above : Option (Result Text (Unit {0}) × Existing)) (made : Result Text (Unit {0}) × Existing)
    → above ≡ some made
    → Ends r path before (then_create r path mode above)
then_create-Ends r path mode before above (err e, paths) h =
    ((err e, paths), ap (then_create r path mode) h, inl (e, refl))
then_create-Ends r path mode before above (ok u, paths) h = (
  create_dir r path mode paths,
  ap (then_create r path mode) h,
  create_dir-IsMade r path mode before paths,
)

-- With more fuel than the path has characters, the recursion over the parents comes to an end, for
-- every answer of the server. If it ends without an error, there is something at the path: what was
-- there before, which may be no directory, with nothing changed; or a directory that was made; or,
-- where it could not be made, what a second stat has found there.
pub make_dir-Ends :
    (fuel : ℕ) (r : DirectoryRemote) (path : Text) (parents : Bool) (mode : Option ℕ)
    (paths : Existing)
    → length path < fuel
    → (made : Result Text (Unit {0}) × Existing) × (make_dir fuel r path parents mode paths
        ≡ some made)
      × IsMade r path paths made
unfolding make_dir
make_dir-Ends zero r path parents mode paths h = absurd (omega arith)
make_dir-Ends (suc fuel) r path parents mode paths h = elim (Option-cases (r.stats path)) [
  | inr (e, fails) ↦ ((err e, paths), rw (fails, make_dir) refl, inl (e, refl))
  | inl looks ↦ elim (Bool-cases (is_some (kind_at path paths))) [
    | inl there ↦
        let (kind, stands) = is_some_sound (kind_at path paths) there in
        ((ok tt, paths), rw (looks, make_dir) (rw there refl), inr (refl, inl (kind, stands, refl)))
    | inr missing ↦
        rw (looks, make_dir)
          (rw missing (elim (Bool-cases parents) [
            | inr alone ↦ rw alone (then_create-Ends r path mode paths _ (ok tt, paths) refl)
            | inl above ↦ rw above (elim (Option-cases (parent_of path)) [
              | inl top ↦ rw top (then_create-Ends r path mode paths _ (ok tt, paths) refl)
              | inr (parent, found) ↦ rw found (elim (Bool-cases (is_top parent)) [
                | inl top ↦ rw top (then_create-Ends r path mode paths _ (ok tt, paths) refl)
                | inr deep ↦
                    let shorter = parent_of-lt path parent found deep in
                    let (made, result, _) =
                      make_dir-Ends fuel r parent true none paths (omega arith) in
                    rw deep (then_create-Ends r path mode paths _ made result)
              ])
            ])
          ]))
  ]
]
