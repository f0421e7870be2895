-- ===== src/Session/Steps/Sessions.antt =====
-- crates/session/src/lib.rs: what `create` and `command_cancel` do to the list of sessions.
use ai_ssh.Base.{ℕ, ◌≡◌, refl, subst, true, ◌||◌, List, [], ◌∷◌, ◌++◌, some, arith, inl, inr}
use ai_ssh.Base.Tests.{Bool-cases, Option-cases}
use ai_ssh.Base.Lists.{All, find}
use ai_ssh.Base.Text.{Text}
use ai_ssh.Base.Result.{Result, ok, err}
use ai_ssh.Protocol.Types.{is_closed}
use ai_ssh.Storage.Tables.{Storage}
use ai_ssh.Session.Runtime.{Connection, SessionRuntime, runtime_is}
use ai_ssh.Session.Exec.{is_exec}
use ai_ssh.Session.Lifecycle.{runs_behind, new, after_connect, cancel_in}
use ai_ssh.Session.Evolves.{IsConsistent}

pub find-append :
    (id : Text) (rts : List SessionRuntime) (rt new : SessionRuntime)
    → find (runtime_is id) rts ≡ some rt
    → find (runtime_is id) (rts ++ new ∷ []) ≡ some rt
find-append id [] rt new h = cc
find-append id (s ∷ rts) rt new h = ground (arith, find-append id rts rt new)

pub cancel_in-IsConsistent :
    (id : Text) (rts after : List SessionRuntime)
    → cancel_in id rts ≡ some after
    → All IsConsistent rts
    → All IsConsistent after
unfolding cancel_in
cancel_in-IsConsistent id [] after h k = cc
cancel_in-IsConsistent id (rt ∷ rts) after h k =
    elim (Bool-cases (is_exec id rt.foreground || runs_behind id rt)) [
      | inl hit ↦
          let parts : record rt { cancelled = id ∷ rt.cancelled } ∷ rts ≡ after = ground arith in
          subst (All IsConsistent) parts (k.0, k.1)
      | inr miss ↦ elim (Option-cases (cancel_in id rts)) [
        | inl nowhere ↦ absurd (ground arith)
        | inr (rest, changed) ↦
            let parts : rt ∷ rest ≡ after = ground arith in
            subst (All IsConsistent) parts (k.0, cancel_in-IsConsistent id rts rest changed k.1)
      ]
    ]

pub cancel_in-closed :
    (id i : Text) (rts after : List SessionRuntime)
    → cancel_in id rts ≡ some after
    → (rt : SessionRuntime) → find (runtime_is i) rts ≡ some rt
    → is_closed rt.info.status ≡ true
    → (b : SessionRuntime) × (find (runtime_is i) after ≡ some b) × (is_closed b.info.status ≡ true)
unfolding cancel_in
cancel_in-closed id i [] after h rt found closed = cc
cancel_in-closed id i (s ∷ rts) after h rt found closed =
    elim (Bool-cases (is_exec id s.foreground || runs_behind id s)) [
      | inl hit ↦
          let changed = record s { cancelled = id ∷ s.cancelled } in
          let parts : changed ∷ rts ≡ after = ground arith in
          subst
            (λ a.
              (b : SessionRuntime) × (find (runtime_is i) a ≡ some b)
              × (is_closed b.info.status ≡ true))
            parts
            (elim (Bool-cases (runtime_is i s)) [
              | inl here ↦ (changed, ground arith, ground arith)
              | inr there ↦ (rt, ground arith, closed)
            ])
      | inr miss ↦ elim (Option-cases (cancel_in id rts)) [
        | inl nowhere ↦ absurd (ground arith)
        | inr (rest, changed) ↦
            let parts : s ∷ rest ≡ after = ground arith in
            subst
              (λ a.
                (b : SessionRuntime) × (find (runtime_is i) a ≡ some b)
                × (is_closed b.info.status ≡ true))
              parts
              (elim (Bool-cases (runtime_is i s)) [
                | inl here ↦ (s, ground arith, ground arith)
                | inr there ↦
                    let (b, there_too, still) =
                      cancel_in-closed id i rts rest changed rt (ground arith) closed in
                    (b, ground arith, still)
              ])
      ]
    ]

pub after_connect-IsConsistent :
    (later : ℕ) (connects : Result Text Connection) (rt : SessionRuntime) (db : Storage)
    → IsConsistent (after_connect later connects (rt, db)).1.0
unfolding after_connect is_closed
after_connect-IsConsistent later (ok connection) rt db = inl refl
after_connect-IsConsistent later (err failed) rt db = inl refl
