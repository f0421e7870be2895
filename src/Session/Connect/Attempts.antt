-- ===== src/Session/Connect/Attempts.antt =====
-- crates/session/src/lib.rs: the attempts of `connect_runtime`.
use ai_ssh.Base.{
  ℕ, zero, suc, ◌+◌, ◌≤◌, ◌<◌, ◌≡◌, ◌⊎◌, refl, subst, Option, none, some, arith, inl, inr,
}
use ai_ssh.Base.Text.{Text}
use ai_ssh.Base.Result.{ok, err, Result-cases}
use ai_ssh.Config.Types.{Config}
use ai_ssh.Protocol.Messages.{ErrorPayload}
use ai_ssh.Session.Errors.{classify_error}
use ai_ssh.Session.Runtime.{Connection}
use ai_ssh.Session.Connect.{Dial, dial_loop, attempts}

-- The attempts from `first` up to, but not with, `end` all fail.
abbrev pub AllFail : Dial → ℕ → ℕ → Type 0
AllFail dial first zero = Unit
AllFail dial first (suc n) = ((e : Text) × (dial first ≡ err e)) × AllFail dial (first + 1) n

dial_loop-first :
    (left attempt : ℕ) (dial : Dial) (last : Option ErrorPayload)
    → ((k : ℕ) × (connection : Connection) × (k < left)
        × AllFail dial attempt k
        × (dial (attempt + k) ≡ ok connection)
        × (dial_loop left attempt dial last ≡ ok connection))
      ⊎ ((e : ErrorPayload) × AllFail dial attempt left
          × (dial_loop left attempt dial last ≡ err e))
unfolding dial_loop
dial_loop-first zero attempt dial none = inr (_, tt, refl)
dial_loop-first zero attempt dial (some e) = inr (e, tt, refl)
dial_loop-first (suc left) attempt dial last = elim (Result-cases (dial attempt)) [
  | inl (connection, made) ↦
      let first_is : attempt ≡ attempt + 0 = omega arith in
      inl (
        0,
        connection,
        omega arith,
        tt,
        subst (λ n. dial n ≡ ok connection) first_is made,
        rw (made, dial_loop) refl,
      )
  | inr (e, failed) ↦ elim (dial_loop-first left (attempt + 1) dial (some (classify_error e))) [
    | inl (k, connection, room, fails, made, result) ↦
        let later : attempt + 1 + k ≡ attempt + suc k = omega arith in
        inl (
          suc k,
          connection,
          omega arith,
          ((e, failed), fails),
          subst (λ n. dial n ≡ ok connection) later made,
          rw (failed, dial_loop) result,
        )
    | inr (last_error, fails, result) ↦
        inr (last_error, ((e, failed), fails), rw (failed, dial_loop) result)
  ]
]

-- A reconnect makes at least one attempt and at most ten. It gives the connection of the first
-- attempt that succeeds, after those before it have failed; or all attempts fail, and so does it.
pub dial_loop_lem :
    (config : Config) (dial : Dial)
    → (0 < attempts config)
      × (attempts config ≤ 10)
      × (((k : ℕ) × (connection : Connection) × (k < attempts config)
            × AllFail dial 1 k
            × (dial (1 + k) ≡ ok connection)
            × (dial_loop (attempts config) 1 dial none ≡ ok connection))
          ⊎ ((e : ErrorPayload) × AllFail dial 1 (attempts config)
              × (dial_loop (attempts config) 1 dial none ≡ err e)))
dial_loop_lem config dial =
    (omega arith, omega arith, dial_loop-first (attempts config) 1 dial none)
