-- ===== src/Ssh/Transfer/Destination.antt =====
-- crates/ssh/src/transfer.rs: what `write_staged` leaves at the destination.
use ai_ssh.Base.{
  ℕ, ◌≡◌, ◌≢◌, ◌⊎◌, refl, ap, sym, subst, ◌∙◌, Bool, true, false, not, ◌&&◌, [], ◌∷◌, Option, none,
  some, arith, inl, inr,
}
use ai_ssh.Base.Tests.{is_some, Bool-cases, Option-cases}
use ai_ssh.Base.Text.{Text, text_eq, text_eq_iff, text_eq_refl}
use ai_ssh.Base.Result.{Result, ok, err}
use ai_ssh.Ssh.Transfer.Apart.{staged_path-apart}
use ai_ssh.Ssh.Transfer.{
  Bytes, Files, get, remove_file, set_file, Remote, TransferOutcome, discard, confirm, rename,
  promote, mode_fails, first_failure, finish_write, staged_path, write_staged,
}

pub get-remove_same : (path : Text) (fs : Files) → get path (remove_file path fs) ≡ none
unfolding get remove_file
get-remove_same path [] = refl
get-remove_same path (f ∷ fs) = ground (arith, get-remove_same path fs)

pub get-remove_other :
    (path other : Text) (fs : Files) → path ≢ other → get path (remove_file other fs) ≡ get path fs
unfolding get remove_file
get-remove_other path other [] h = refl
get-remove_other path other (f ∷ fs) h =
    ground (arith, text_eq_iff f.0 path, text_eq_iff f.0 other, get-remove_other path other fs h)

pub get-set_same :
    (path : Text) (contents : Bytes) (fs : Files)
    → get path (set_file path contents fs) ≡ some contents
unfolding get set_file
get-set_same path contents fs = ground (arith, text_eq_refl path)

pub get-set_other :
    (path other : Text) (contents : Bytes) (fs : Files)
    → path ≢ other
    → get path (set_file other contents fs) ≡ get path fs
unfolding get set_file
get-set_other path other contents fs h =
    ground (arith, text_eq_iff other path, get-remove_other path other fs h)

pub get-discard :
    (r : Remote) (path staged : Text) (fs : Files)
    → path ≢ staged
    → get path (discard r staged fs) ≡ get path fs
unfolding discard
get-discard r path staged fs h = ground (arith, get-remove_other path staged fs h)

-- How a transfer may end.
abbrev pub IsDelivered :
    Remote
    → (remote : Text) → (sent : Bytes) → (verify : Bool) → Files
    → Result Text TransferOutcome × Files
    → Type 0
IsDelivered r remote sent verify fs w =
    ((o : TransferOutcome) × (w.0 ≡ ok o)
      × (get remote w.1 ≡ some (r.arrives sent))
      × (o.sha256 ≡ r.digest sent)
      × (o.verified ≡ (verify && r.has_tool))
      × ((o.verified ≡ false) ⊎ (r.digest (r.arrives sent) ≡ r.digest sent)))
    ⊎ ((e : Text) × (w.0 ≡ err e) × ((get remote w.1 ≡ get remote fs) ⊎ (get remote w.1 ≡ none)))

abbrev pub IsConfirmed :
    Remote
    → (remote : Text) → (sent : Bytes) → (verify : Bool) → Files
    → Result Text Bool × Files
    → Type 0
IsConfirmed r remote sent verify fs c =
    ((c.0 ≡ ok (verify && r.has_tool))
      × (c.1 ≡ fs)
      × (((verify && r.has_tool) ≡ false) ⊎ (r.digest (r.arrives sent) ≡ r.digest sent)))
    ⊎ ((e : Text) × (c.0 ≡ err e) × (get remote c.1 ≡ get remote fs))

module _ (r : Remote) (staged remote : Text) (apart : remote ≢ staged) where
  -- The file is moved whole, or nothing changes.
  rename_lem :
      (contents : Bytes) (fs : Files)
      → get staged fs ≡ some contents
      → (((rename r staged remote fs).0 ≡ ok tt)
          × (get remote (rename r staged remote fs).1 ≡ some contents))
        ⊎ ((e : Text) × ((rename r staged remote fs).0 ≡ err e)
            × ((rename r staged remote fs).1 ≡ fs))
  unfolding rename
  rename_lem contents fs there = elim (Option-cases r.rename) [
    | inl works ↦
        inl (
          rw (works, rename)
            (rw there (refl, get-set_same remote contents (remove_file staged fs))))
    | inr (e, fails) ↦ inr (e, rw (fails, rename) refl, rw (fails, rename) refl)
  ]

  abbrev IsPromoted : Bytes → Files → Result Text (Unit {0}) × Files → Type 0
  IsPromoted contents fs p =
      ((p.0 ≡ ok tt) × (get remote p.1 ≡ some contents))
      ⊎ ((e : Text) × (p.0 ≡ err e) × ((get remote p.1 ≡ get remote fs) ⊎ (get remote p.1 ≡ none)))

  -- A staged file is moved whole, or the destination is as it was, or it is gone.
  promote_lem :
      (contents : Bytes) (fs : Files)
      → get staged fs ≡ some contents
      → IsPromoted contents fs (promote r staged remote fs)
  unfolding promote
  promote_lem contents fs there = elim (Option-cases r.metadata) [
    | inr (e, fails) ↦ rw (fails, promote) (inr (e, refl, inl refl))
    | inl looks ↦ elim (Bool-cases (not (is_some (get remote fs)))) [
      | inl free ↦
          rw (looks, promote)
            (rw free (elim (rename_lem contents fs there) [
              | inl moved ↦ inl moved
              | inr (e, fails, same) ↦ inr (e, fails, inl (ap (get remote) same))
            ]))
      | inr taken ↦ elim (Option-cases r.remove) [
        | inr (e, fails) ↦ rw (looks, promote) (rw (taken, fails) (inr (e, refl, inl refl)))
        | inl removes ↦
            let still = get-remove_other staged remote fs (λ e. apart (sym e)) ∙ there in
            rw (looks, promote)
              (rw (taken, removes)
                (elim (rename_lem contents (remove_file remote fs) still) [
                  | inl moved ↦ inl moved
                  | inr (e, fails, same) ↦
                      inr (e, fails, inr (ap (get remote) same ∙ get-remove_same remote fs))
                ]))
      ]
    ]
  ]

  pub confirm_lem :
      (sent : Bytes) (verify : Bool) (fs : Files)
      → get staged fs ≡ some (r.arrives sent)
      → IsConfirmed r remote sent verify fs (confirm r staged (r.digest sent) verify fs)
  unfolding confirm
  confirm_lem sent false fs there = inl (refl, refl, inl refl)
  confirm_lem sent true fs there = elim (Bool-cases r.has_tool) [
    | inr missing ↦ rw (missing, confirm) (inl (refl, refl, inl refl))
    | inl works ↦ elim (Bool-cases (text_eq (r.digest (r.arrives sent)) (r.digest sent))) [
      | inl same ↦
          let equal = (text_eq_iff (r.digest (r.arrives sent)) (r.digest sent)).0 same in
          rw (works, confirm) (rw there (rw same (inl (refl, refl, inr equal))))
      | inr other ↦
          rw (works, confirm)
            (rw there (rw other (inr (_, refl, get-discard r remote staged fs apart))))
    ]
  ]

  pub finish_write_lem :
      (sent : Bytes) (mode : Option ℕ) (verify : Bool) (fs : Files) (c : Result Text Bool × Files)
      → get staged fs ≡ some (r.arrives sent)
      → IsConfirmed r remote sent verify fs c
      → IsDelivered r remote sent verify fs (finish_write r staged remote sent mode c)
  unfolding finish_write
  finish_write_lem sent mode verify fs (err e, after) there (inl (h, same, sound)) = cc
  finish_write_lem sent mode verify fs (err e, after) there (inr (f, h, kept)) =
      inr (e, refl, inl kept)
  finish_write_lem sent mode verify fs (ok v, after) there (inr (f, h, kept)) = cc
  finish_write_lem sent mode verify fs (ok v, after) there (inl (h, same, sound)) =
      let flag : v ≡ (verify && r.has_tool) = ground arith in
      let staged_still = ap (get staged) same ∙ there in
      elim (Option-cases (mode_fails r mode)) [
        | inr (e, fails) ↦
            rw (fails, finish_write)
              (inr (e, refl, inl (get-discard r remote staged after apart ∙ ap (get remote) same)))
        | inl works ↦ elim (promote_lem (r.arrives sent) after staged_still) [
          | inl (moved, arrived) ↦
              rw (works, finish_write)
                (rw moved (
                  inl (
                    _,
                    refl,
                    arrived,
                    refl,
                    flag,
                    subst (λ b. (b ≡ false) ⊎ (r.digest (r.arrives sent) ≡ r.digest sent))
                        (sym flag) sound,
                  )))
          | inr (e, fails, left) ↦
              rw (works, finish_write)
                (rw fails (
                  inr (
                    e,
                    refl,
                    elim left [
                      | inl kept ↦ inl (kept ∙ ap (get remote) same)
                      | inr gone ↦ inr gone
                    ],
                  )))
        ]
      ]

pub IsDelivered-before :
    (r : Remote) (remote : Text) (sent : Bytes) (verify : Bool) (before fs : Files)
    → get remote before ≡ get remote fs
    → (w : Result Text TransferOutcome × Files) → IsDelivered r remote sent verify before w
    → IsDelivered r remote sent verify fs w
IsDelivered-before r remote sent verify before fs same w (inl delivered) = inl delivered
IsDelivered-before r remote sent verify before fs same w (inr (e, fails, inl kept)) =
    inr (e, fails, inl (kept ∙ same))
IsDelivered-before r remote sent verify before fs same w (inr (e, fails, inr gone)) =
    inr (e, fails, inr gone)

-- Whatever requests fail, and whatever of the sent bytes arrives, a staged write ends in one of two
-- ways. Either it succeeds: then the destination holds what arrived, the answer has the digest of what was sent, it says that the file is verified exactly when
-- that was asked for and the host has a tool, and a verified file has the digest of what was sent. Or
-- it fails: then the destination is as it was, or, since an old file is removed before the new one is
-- moved there, it is gone.
pub write_staged_lem :
    (r : Remote) (unique remote : Text) (sent : Bytes) (mode : Option ℕ) (verify : Bool)
    (fs : Files)
    → IsDelivered r remote sent verify fs (write_staged r unique remote sent mode verify fs)
unfolding write_staged
write_staged_lem r unique remote sent mode verify fs =
    let apart = staged_path-apart unique remote in
    let staged = staged_path unique remote in
    let written = set_file staged (r.arrives sent) fs in
    let there = get-set_same staged (r.arrives sent) fs in
    let untouched = get-set_other remote staged (r.arrives sent) fs apart in
    elim (Option-cases r.create) [
      | inr (e, fails) ↦ rw (fails, write_staged) (inr (e, refl, inl refl))
      | inl made ↦ elim (Option-cases (first_failure r.write (first_failure r.flush r.close))) [
        | inr (e, fails) ↦
            let kept = get-discard r remote staged (set_file staged r.remains fs) apart in
            rw (made, write_staged)
              (rw fails
                (inr (e, refl, inl (kept ∙ get-set_other remote staged r.remains fs apart))))
        | inl fine ↦
            let confirmed = confirm_lem r staged remote apart sent verify written there in
            let finished =
              finish_write_lem r staged remote apart sent mode verify written
                (confirm r staged (r.digest sent) verify written) there confirmed in
            rw (made, write_staged)
              (rw fine (IsDelivered-before r remote sent verify written fs untouched _ finished))
      ]
    ]
