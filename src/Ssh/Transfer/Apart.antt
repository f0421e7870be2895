-- ===== src/Ssh/Transfer/Apart.antt =====
-- crates/ssh/src/transfer.rs: a staged path is never the destination itself.
use ai_ssh.Base.{
  ◌≡◌, ◌≢◌, refl, ap, sym, subst, ◌&&◌, ◌∙◌, true, [], ◌∷◌, ◌++◌, some, arith, inl, inr,
}
use ai_ssh.Base.Tests.{◌==◌, Bool-cases, Option-cases}
use ai_ssh.Base.Lists.{All, is_empty}
use ai_ssh.Base.Text.{Text, codes}
use ai_ssh.Ssh.Transfer.{trim_slashes, split_at_slash, staged_path}

pub split_at_slash-parts :
    (s dir name : Text) → split_at_slash s ≡ some (dir, name) → s ≡ dir ++ b'/' ∷ name
unfolding split_at_slash
split_at_slash-parts [] dir name e = absurd (cc)
split_at_slash-parts (c ∷ s) dir name e = elim (Option-cases (split_at_slash s)) [
  | inr ((before, after), found) ↦
      let parts = split_at_slash-parts s before after found in
      let found_here = rw (found, split_at_slash) at e in cc
  | inl gone ↦ elim (Bool-cases (c == b'/')) [
    | inl slash ↦ let last = rw slash at (rw (gone, split_at_slash) at e) in ground (arith, last)
    | inr other ↦ absurd (cc (rw other at (rw (gone, split_at_slash) at e)))
  ]
]

is_empty-nil : (s : Text) → is_empty s ≡ true → s ≡ []
is_empty-nil [] e = refl
is_empty-nil (c ∷ s) e = absurd (cc)

-- What the trimming of slashes takes away is slashes.
trim_slashes-parts :
    (s : Text) → (rest : Text) × (s ≡ trim_slashes s ++ rest) × All (λ c. c ≡ b'/') rest
unfolding trim_slashes
trim_slashes-parts [] = ([], refl, tt)
trim_slashes-parts (c ∷ s) =
    let (rest, parts, slashes) = trim_slashes-parts s in
    elim (Bool-cases (is_empty (trim_slashes s) && c == b'/')) [
      | inl ends ↦
          let empty : trim_slashes s ≡ [] = is_empty-nil (trim_slashes s) (ground (arith, ends)) in
          let slash : c ≡ b'/' = ground (arith, ends) in
          let all_rest : rest ≡ s = sym (parts ∙ ap (λ (t : Text). t ++ rest) empty) in
          (c ∷ s, rw ends refl, (slash, subst (All (λ c. c ≡ b'/')) all_rest slashes))
      | inr stays ↦ (rest, rw stays (ap (◌∷◌ c) parts), slashes)
    ]

append_cancel : (s t u : Text) → s ++ t ≡ s ++ u → t ≡ u
append_cancel [] t u e = e
append_cancel (c ∷ s) t u e = append_cancel s t u (cc)

-- What is put behind the name.
abbrev pub tag : Text → Text
tag unique = codes ".aissh-tmp-" ++ unique

-- Slashes do not make up the tag of a staged path.
slashes_apart : (rest unique : Text) → All (λ c. c ≡ b'/') rest → rest ≢ tag unique
slashes_apart [] unique h e = absurd (cc)
slashes_apart (c ∷ t) unique h e = absurd (ground arith)

pub tagged_apart : (s rest unique : Text) → All (λ c. c ≡ b'/') rest → s ++ rest ≢ s ++ tag unique
tagged_apart s rest unique slashes e =
    slashes_apart rest unique slashes (append_cancel s rest (tag unique) e)

staged_path-tag :
    (unique remote : Text) → staged_path unique remote ≡ trim_slashes remote ++ tag unique
unfolding staged_path
staged_path-tag unique remote = elim (Option-cases (split_at_slash (trim_slashes remote))) [
  | inl none_there ↦ rw (none_there, staged_path) refl
  | inr (([], name), found) ↦
      let parts = split_at_slash-parts (trim_slashes remote) [] name found in
      rw (found, staged_path) (ap (λ (t : Text). t ++ tag unique) (sym parts))
  | inr ((c ∷ dir, name), found) ↦
      let parts = split_at_slash-parts (trim_slashes remote) (c ∷ dir) name found in
      rw (found, staged_path) (ap (λ (t : Text). t ++ tag unique) (sym parts))
]

-- The staged path of a write is another one than its destination, whatever slashes it ends in.
pub staged_path-apart : (unique remote : Text) → remote ≢ staged_path unique remote
staged_path-apart unique remote e =
    let (rest, parts, slashes) = trim_slashes-parts remote in
    tagged_apart (trim_slashes remote) rest unique slashes
      (sym parts ∙ e ∙ staged_path-tag unique remote)
