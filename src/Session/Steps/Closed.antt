-- ===== src/Session/Steps/Closed.antt =====
-- crates/session/src/lib.rs: whatever steps a manager takes, closed sessions hold nothing and stay
-- closed.
use ai_ssh.Base.{◌≡◌, refl, ap, sym, subst, ◌∙◌, true, false, List, [], ◌∷◌, some, arith, inl, inr}
use ai_ssh.Base.Tests.{Bool-cases, Option-cases}
use ai_ssh.Base.Lists.{All, find, find-All}
use ai_ssh.Base.Text.{Text, text_eq, text_eq_iff, text_eq_refl}
use ai_ssh.Protocol.Types.{is_closed}
use ai_ssh.Protocol.Messages.{ApiResult}
use ai_ssh.Storage.Tables.{Storage, update_where}
use ai_ssh.Session.Runtime.{SessionRuntime, SessionManager, lookup, put_runtime, runtime_is}
use ai_ssh.Session.Connect.{Shared, on_runtime}
use ai_ssh.Session.Evolves.{IsConsistent, Evolves}

abbrev pub AllConsistent : SessionManager → Type 0
AllConsistent m = All IsConsistent m.sessions

-- The manager has the session, and it is closed.
abbrev pub HasClosed : Text → SessionManager → Type 0
HasClosed id m = (rt : SessionRuntime) × (lookup id m ≡ some rt) × (is_closed rt.info.status ≡ true)

-- What a step keeps.
pub record Keeps (m n : SessionManager) : Type 0 where
  pub consistent : AllConsistent n
  pub closed : (id : Text) → HasClosed id m → HasClosed id n

pub Keeps-refl : (m : SessionManager) → AllConsistent m → Keeps m m
Keeps-refl m before = record { consistent = before; closed = λ i h. h }

pub Keeps-trans : (a b c : SessionManager) → Keeps a b → Keeps b c → Keeps a c
Keeps-trans a b c p q = record {
  consistent = q.consistent;
  closed = λ id h. q.closed id (p.closed id h);
}

All-update :
    (rt : SessionRuntime) (rts : List SessionRuntime)
    → IsConsistent rt
    → All IsConsistent rts
    → All IsConsistent (update_where (runtime_is rt.session_id) (λ _. rt) rts)
unfolding update_where
All-update rt [] k h = tt
All-update rt (s ∷ rts) k h = (
  elim (Bool-cases (runtime_is rt.session_id s)) [ inl hit ↦ rw hit k | inr miss ↦ rw miss h.0 ],
  All-update rt rts k h.1,
)

find_update_same :
    (rt a : SessionRuntime) (id : Text) (rts : List SessionRuntime)
    → rt.session_id ≡ id
    → find (runtime_is id) rts ≡ some a
    → find (runtime_is id) (update_where (runtime_is rt.session_id) (λ _. rt) rts) ≡ some rt
unfolding update_where
find_update_same rt a id [] same h = cc
find_update_same rt a id (s ∷ rts) same h = ground (
  arith,
  text_eq_iff s.session_id id,
  text_eq_iff s.session_id rt.session_id,
  text_eq_refl id,
  text_eq_iff rt.session_id id,
  find_update_same rt a id rts same,
)

find_update_other :
    (rt : SessionRuntime) (id : Text) (rts : List SessionRuntime)
    → text_eq rt.session_id id ≡ false
    → find (runtime_is id) (update_where (runtime_is rt.session_id) (λ _. rt) rts)
      ≡ find (runtime_is id) rts
unfolding update_where
find_update_other rt id [] other = refl
find_update_other rt id (s ∷ rts) other =
    ground (arith, text_eq_iff s.session_id rt.session_id, find_update_other rt id rts other)

module _ {A : Type 0} (id : Text) (f : Shared → ApiResult A × Shared) (m : SessionManager)
    (evolves : (rt : SessionRuntime) → IsConsistent rt → Evolves rt (f (rt, m.storage)).1.0)
    (before : AllConsistent m) where
  put-Keeps :
      (rt new : SessionRuntime) (db : Storage)
      → lookup id m ≡ some rt
      → Evolves rt new
      → Keeps m (put_runtime new (record m { storage = db }))
  unfolding lookup put_runtime
  put-Keeps rt new db found grown =
      let (mine, named) = find-All IsConsistent (runtime_is id) m.sessions rt found before in
      let key : rt.session_id ≡ id = (text_eq_iff rt.session_id id).0 named in
      record {
        consistent = All-update new m.sessions grown.1 before;
        closed = λ i h. elim (Bool-cases (text_eq new.session_id i)) [
          | inl same ↦
              let here : new.session_id ≡ i = (text_eq_iff new.session_id i).0 same in
              let there : id ≡ i = sym key ∙ sym grown.0 ∙ here in
              let once : some rt ≡ some h.0 = sym found ∙ ap (λ k. lookup k m) there ∙ h.1 in
              let one : rt ≡ h.0 = cc in
              let closed_rt = subst (λ r. is_closed r.info.status ≡ true) (sym one) h.2 in
              (new, find_update_same new h.0 i m.sessions here h.1, ground arith)
          | inr other ↦ (h.0, find_update_other new i m.sessions other ∙ h.1, h.2)
        ];
      }

  pub on_runtime-Keeps : Keeps m (on_runtime id f m).1
  unfolding on_runtime
  on_runtime-Keeps = elim (Option-cases (lookup id m)) [
    | inl missing ↦ rw (missing, on_runtime) (record { consistent = before; closed = λ i h. h })
    | inr (rt, found) ↦
        let (mine, _) = find-All IsConsistent (runtime_is id) m.sessions rt found before in
        rw (found, on_runtime)
          (put-Keeps rt (f (rt, m.storage)).1.0 (f (rt, m.storage)).1.1 found (evolves rt mine))
  ]
