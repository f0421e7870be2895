-- ===== src/Session/Poll/Answers.antt =====
-- crates/session/src/lib.rs: when `command_poll` returns, and what its answer says.
use ai_ssh.Base.{
  ℕ, ◌<◌, ◌≡◌, ◌⊎◌, refl, ap, Bool, true, false, not, ◌||◌, List, [], ◌∷◌, ◌++◌, some, min, arith,
  inl, inr,
}
use ai_ssh.Base.Tests.{◌==◌, Bool-cases}
use ai_ssh.Base.Lists.{All}
use ai_ssh.Base.Text.{Text}
use ai_ssh.Base.Result.{ok}
use ai_ssh.Protocol.Types.{max_wait_seconds, CommandInfo}
use ai_ssh.Storage.Commands.{command}
use ai_ssh.Session.Page.{
  CommandPage, PollPage, quiet, load_command, read_page_of, read_command_page, finish_poll,
}
use ai_ssh.Session.Poll.{View, read_limit, poll_loop, command_poll, events_receiver}

-- The command has a row.
abbrev pub Knows : Text → View → Type 0
Knows id v = (c : CommandInfo) × (command id v.manager.storage ≡ some c)

-- The page of a view.
abbrev pub page_of : (after limit : ℕ) → CommandInfo → View → CommandPage
page_of after limit c v = read_page_of c after limit v.manager

-- Nothing has come of the command, which is still running.
abbrev pub IsQuiet : Text → (after limit : ℕ) → View → Type 0
IsQuiet id after limit v =
    (c : CommandInfo) × (command id v.manager.storage ≡ some c)
    × (quiet (page_of after limit c v) ≡ true)

-- The answer is the page of a view, which does not say that the time ran out: this page is not quiet
-- or nothing was to be waited for, and the views before it were waited at and are quiet.
abbrev pub IsEarly :
    (id : Text) (after limit budget : ℕ) (receives : Bool) (views : List View)
    → View
    → CommandInfo
    → Type 0
IsEarly id after limit budget receives views view c =
    ((quiet (page_of after limit c view) ≡ false) ⊎ (budget ≡ 0))
    × ((earlier : List View) × (later : List View) × (views ≡ earlier ++ view ∷ later)
        × All (IsQuiet id after limit) earlier
        × ((earlier ≡ []) ⊎ ((receives ≡ true) × (0 < budget))))

-- The answer is the page at the deadline, after a wait at views that are all quiet.
abbrev pub IsLate :
    (id : Text) (after limit budget : ℕ) (receives : Bool) (views : List View) (last : View)
    → View
    → Type 0
IsLate id after limit budget receives views last view =
    (view ≡ last) × (receives ≡ true) × (0 < budget) × All (IsQuiet id after limit) views

-- The answer is the first page, which is quiet, where there is nothing to wait on.
abbrev pub IsUnheard :
    (after limit budget : ℕ) (receives : Bool) (first : View) → View → CommandInfo → Type 0
IsUnheard after limit budget receives first view c =
    (view ≡ first) × (receives ≡ false) × (0 < budget) × (quiet (page_of after limit c view) ≡ true)

-- Which page the answer is, and why it was given.
pub record Answers (id : Text) (after limit budget started : ℕ) (receives : Bool) (first : View)
    (woken : List View) (last : View) (r : PollPage) : Type 0 where
  pub view : View
  pub command_info : CommandInfo
  pub timed_out : Bool
  pub stored : command id view.manager.storage ≡ some command_info
  pub answer :
      r ≡ finish_poll view.now (page_of after limit command_info view) after timed_out started
  pub reason :
      ((timed_out ≡ false)
        × IsEarly id after limit budget receives (first ∷ woken) view command_info)
      ⊎ (((timed_out ≡ true) × IsLate id after limit budget receives (first ∷ woken) last view)
          ⊎ ((timed_out ≡ true) × IsUnheard after limit budget receives first view command_info))

known_page :
    (id : Text) (after limit : ℕ) (v : View) (c : CommandInfo)
    → command id v.manager.storage ≡ some c
    → read_command_page id after limit v.manager ≡ ok (read_page_of c after limit v.manager)
unfolding read_command_page load_command
known_page id after limit v c h = rw h refl

module _ (id : Text) (after limit budget started : ℕ) (receives : Bool) (last : View) where
  abbrev IsAnswered : View → List View → Type 0
  IsAnswered view woken =
      (r : PollPage) × (poll_loop id after limit budget started receives view woken last ≡ ok r)
      × Answers id after limit budget started receives view woken last r

  abbrev is_due : View → CommandInfo → Bool
  is_due view c = not (quiet (page_of after limit c view)) || (budget == 0)

  -- The page of the first view, without a wait.
  at_once :
      (view : View) (woken : List View) (c : CommandInfo)
      → command id view.manager.storage ≡ some c
      → poll_loop id after limit budget started receives view woken last
        ≡ ok (finish_poll view.now (page_of after limit c view) after false started)
      → is_due view c ≡ true
      → IsAnswered view woken
  at_once view woken c known answer due = (
    finish_poll view.now (page_of after limit c view) after false started,
    answer,
    record {
      view = view;
      command_info = c;
      timed_out = false;
      stored = known;
      answer = refl;
      reason = inl (refl, (ground arith, ([], woken, refl, tt, inl refl)));
    },
  )

  -- The page of the first view, where there is nothing to wait on.
  unheard :
      (view : View) (woken : List View) (c : CommandInfo)
      → command id view.manager.storage ≡ some c
      → poll_loop id after limit budget started receives view woken last
        ≡ ok (finish_poll view.now (page_of after limit c view) after true started)
      → is_due view c ≡ false
      → receives ≡ false
      → IsAnswered view woken
  unheard view woken c known answer waits deaf = (
    finish_poll view.now (page_of after limit c view) after true started,
    answer,
    record {
      view = view;
      command_info = c;
      timed_out = true;
      stored = known;
      answer = refl;
      reason = inr (inr (refl, (refl, deaf, ground arith, ground arith)));
    },
  )

  -- A quiet view before the others, at which the poll waited.
  after_quiet :
      (view next : View) (woken : List View) (r : PollPage)
      → IsQuiet id after limit view
      → receives ≡ true
      → 0 < budget
      → Answers id after limit budget started receives next woken last r
      → Answers id after limit budget started receives view (next ∷ woken) last r
  after_quiet view next woken r silent hears waits told = record {
    view = told.view;
    command_info = told.command_info;
    timed_out = told.timed_out;
    stored = told.stored;
    answer = told.answer;
    reason = elim told.reason [
      | inl (early, (due, (earlier, later, parts, silences, whence))) ↦ inl (
        early,
        (due, (view ∷ earlier, later, ap (◌∷◌ view) parts, (silent, silences), inr (hears, waits))),
      )
      | inr (inl (late, (same, hearing, waiting, silences))) ↦
          inr (inl (late, (same, hears, waits, (silent, silences))))
      | inr (inr (late, (same, deaf, waiting, silence))) ↦ absurd (ground arith)
    ];
  }

  poll_loop-Answers :
      (view : View) (woken : List View)
      → Knows id view
      → All (Knows id) woken
      → Knows id last
      → IsAnswered view woken
  unfolding poll_loop
  poll_loop-Answers view [] (c, known) all_known (d, known_last) =
      let page = known_page id after limit view c known in
      elim (Bool-cases (is_due view c)) [
        | inl due ↦ at_once view [] c known (rw (page, poll_loop) (rw due refl)) due
        | inr waits ↦ elim (Bool-cases receives) [
          | inl hears ↦ (
            finish_poll last.now (page_of after limit d last) after true started,
            rw (page, poll_loop)
                (rw (waits, hears, known_page id after limit last d known_last) refl),
            record {
              view = last;
              command_info = d;
              timed_out = true;
              stored = known_last;
              answer = refl;
              reason =
                  inr (inl (refl, (refl, hears, ground arith, ((c, known, ground arith), tt))));
            },
          )
          | inr deaf ↦
              unheard view [] c known (rw (page, poll_loop) (rw (waits, deaf) refl)) waits deaf
        ]
      ]
  poll_loop-Answers view (next ∷ woken) (c, known) all_known known_last =
      let page = known_page id after limit view c known in
      elim (Bool-cases (is_due view c)) [
        | inl due ↦ at_once view (next ∷ woken) c known (rw (page, poll_loop) (rw due refl)) due
        | inr waits ↦ elim (Bool-cases receives) [
          | inl hears ↦
              let (r, answered, told) =
                poll_loop-Answers next woken all_known.0 all_known.1 known_last in
              (
                r,
                rw (page, poll_loop) (rw (waits, hears) answered),
                after_quiet view next woken r (c, known, ground arith) hears (ground arith) told,
              )
          | inr deaf ↦
              unheard view (next ∷ woken) c known (rw (page, poll_loop) (rw (waits, deaf) refl))
                waits deaf
        ]
      ]

-- A poll of a command that has a row in every view always gives an answer, which is the page of one
-- of the views. Either it does not say that the time ran out: then it is the page of the first view
-- that is not quiet, or of the first view where the caller does not wait; and the views before it were
-- quiet and waited at, which needs a receiver. Or it says so: then it is the page at the end of the wait,
-- and every view before was quiet; or there is no receiver to wait on, and it is the first page, which
-- is quiet.
pub command_poll-Answers :
    (id : Text) (after max_bytes wait_seconds : ℕ) (first : View) (woken : List View) (last : View)
    → Knows id first
    → All (Knows id) woken
    → Knows id last
    → (r : PollPage) × (command_poll id after max_bytes wait_seconds first woken last ≡ ok r)
      × Answers id after
          (read_limit max_bytes)
          (min wait_seconds max_wait_seconds)
          first.now
          (events_receiver id first.manager)
          first
          woken
          last
          r
unfolding command_poll
command_poll-Answers id after max_bytes wait_seconds first woken last known all_known known_last =
    poll_loop-Answers id after (read_limit max_bytes) (min wait_seconds max_wait_seconds) first.now
      (events_receiver id first.manager) last first woken known all_known known_last
