-- ===== src/Session/Errors/Classify.antt =====
-- crates/session/src/lib.rs: which errors keep their code in `classify_error`.
use ai_ssh.Base.{
  ◌≡◌, ◌↔◌, ◌⊎◌, refl, ap, ◌∙◌, true, false, [], ◌∷◌, ◌++◌, none, some, arith, inl, inr,
}
use ai_ssh.Base.Tests.{Bool-cases, Option-cases}
use ai_ssh.Base.Lists.{all}
use ai_ssh.Base.Text.{Text}
use ai_ssh.Session.Errors.{split_once, is_code_char, whole, ssh_error, classify_error}

-- A code in front of a colon and a space is split off there, since no code holds a colon.
split_once-coded :
    (code detail : Text)
    → all is_code_char code ≡ true
    → split_once (code ++ b':' ∷ b' ' ∷ detail) ≡ some (code, detail)
unfolding split_once
split_once-coded [] detail h = refl
split_once-coded (c ∷ []) detail h = ground arith
split_once-coded (c ∷ d ∷ code) detail h = ground (arith, split_once-coded (d ∷ code) detail)

-- What is split off stands in the text.
split_once_sound :
    (s code detail : Text) → split_once s ≡ some (code, detail) → s ≡ code ++ b':' ∷ b' ' ∷ detail
unfolding split_once
split_once_sound [] code detail h = cc
split_once_sound (c ∷ []) code detail h = cc
split_once_sound (c ∷ d ∷ s) [] detail h = ground arith
split_once_sound (c ∷ d ∷ s) (b ∷ code) detail h =
    ground (arith, split_once_sound (d ∷ s) code detail)

-- An error that a lower layer gives a code, in capitals and underscores before a colon and a space,
-- reaches the client with that code, the rest as its message, and as not retryable.
pub classify_error-coded :
    (code detail : Text)
    → all is_code_char code ≡ true
    → classify_error (code ++ b':' ∷ b' ' ∷ detail)
      ≡ record { code = code; message = whole detail; retryable = false }
unfolding classify_error
classify_error-coded code detail h = rw (split_once-coded code detail h, classify_error) (rw h)

-- A code that a message carries in front.
pub record HasCode (message : Text) : Type 0 where
  pub code : Text
  pub detail : Text
  pub parts : message ≡ code ++ b':' ∷ b' ' ∷ detail
  pub capitals : all is_code_char code ≡ true

classify_error_bare :
    (message : Text) → split_once message ≡ none → classify_error message ≡ ssh_error message
unfolding classify_error
classify_error_bare message h = rw (h, classify_error)

classify_error_lower :
    (message code detail : Text)
    → split_once message ≡ some (code, detail)
    → all is_code_char code ≡ false
    → classify_error message ≡ ssh_error message
unfolding classify_error
classify_error_lower message code detail h lower = rw (h, classify_error) (rw lower)

-- Either the message carries a code and keeps it, or it is reported whole.
classify_error-cases :
    (message : Text)
    → ((h : HasCode message) × (classify_error message
          ≡ record { code = h.code; message = whole h.detail; retryable = false }))
      ⊎ (classify_error message ≡ ssh_error message)
classify_error-cases message = elim (Option-cases (split_once message)) [
  | inl bare ↦ inr (classify_error_bare message bare)
  | inr ((code, detail), split) ↦ elim (Bool-cases (all is_code_char code)) [
    | inl capitals ↦
        let parts = split_once_sound message code detail split in
        inl (
          record { code = code; detail = detail; parts = parts; capitals = capitals },
          ap classify_error parts ∙ classify_error-coded code detail capitals,
        )
    | inr lower ↦ inr (classify_error_lower message code detail split lower)
  ]
]

-- An error is not retryable exactly when its message carries a code in front; an error that carries
-- none is reported as SSH_ERROR, whole and retryable.
pub classify_error_iff :
    (message : Text)
    → ((classify_error message).retryable ≡ false ↔ HasCode message)
      × (HasCode message ⊎ (classify_error message ≡ ssh_error message))
classify_error_iff message = ((coded, kept), either)
  where
    coded : (classify_error message).retryable ≡ false → HasCode message
    coded h = elim (classify_error-cases message) [ inl (c, e) ↦ c | inr e ↦ absurd (cc) ]

    kept : HasCode message → (classify_error message).retryable ≡ false
    kept c = rw (c.parts) (rw (classify_error-coded c.code c.detail c.capitals))

    either : HasCode message ⊎ (classify_error message ≡ ssh_error message)
    either = elim (classify_error-cases message) [ inl (c, e) ↦ inl c | inr e ↦ inr e ]
