-- ===== src/Ssh/Channel/Collect.antt =====
-- crates/ssh/src/lib.rs: what `collect` keeps of a channel's output.
use mathlib.Core.List.{append_assoc, append-nil}
use ai_ssh.Base.{
  ℕ, ◌≤◌, ◌≡◌, ◌⊎◌, refl, ap, sym, ◌∙◌, true, false, List, [], ◌∷◌, ◌++◌, Option, none, some, arith,
  inl, inr,
}
use ai_ssh.Base.Tests.{Bool-cases}
use ai_ssh.Base.Lists.{length, length-append}
use ai_ssh.Ssh.Channel.{
  ChannelMsg, ChannelEvent, Collected, nothing_yet, gather, collect_events, events_until_close,
  collect,
}

-- All that the remote side wrote to each stream, and its last exit status.
abbrev pub all_stdout : List ChannelEvent → List ℕ
all_stdout [] = []
all_stdout (ChannelEvent.bytes d ∷ es) = d ++ all_stdout es
all_stdout (_ ∷ es) = all_stdout es

abbrev pub all_stderr : List ChannelEvent → List ℕ
all_stderr [] = []
all_stderr (ChannelEvent.extended_data d ∷ es) = d ++ all_stderr es
all_stderr (_ ∷ es) = all_stderr es

abbrev pub last_exit : List ChannelEvent → Option ℕ → Option ℕ
last_exit [] exit = exit
last_exit (ChannelEvent.exit_status code ∷ es) exit = last_exit es (some code)
last_exit (_ ∷ es) exit = last_exit es exit

pub record IsWithin (limit : ℕ) (c : Collected) : Type 0 where
  pub stdout : length c.stdout ≤ limit
  pub stderr : length c.stderr ≤ limit

gather-IsWithin :
    (limit : ℕ) (e : ChannelEvent) (c : Collected)
    → IsWithin limit c
    → IsWithin limit (gather limit e c)
unfolding gather
gather-IsWithin limit (ChannelEvent.bytes d) c v = ground (arith, length-append c.stdout d)
gather-IsWithin limit (ChannelEvent.extended_data d) c v = ground (arith, length-append c.stderr d)
gather-IsWithin limit _ c v = ground arith

collect_events-IsWithin :
    (limit : ℕ) (es : List ChannelEvent) (c : Collected)
    → IsWithin limit c
    → IsWithin limit (collect_events limit es c)
unfolding collect_events
collect_events-IsWithin limit [] c v = v
collect_events-IsWithin limit (e ∷ es) c v =
    collect_events-IsWithin limit es _ (gather-IsWithin limit e c v)

-- An output that was cut stays marked.
collect_events_cut :
    (limit : ℕ) (es : List ChannelEvent) (c : Collected)
    → c.truncated ≡ true
    → (collect_events limit es c).truncated ≡ true
unfolding collect_events
collect_events_cut limit [] c h = h
collect_events_cut limit (e ∷ es) c h = collect_events_cut limit es _ (kept e)
  where
    kept : (e : ChannelEvent) → (gather limit e c).truncated ≡ true
    kept (ChannelEvent.bytes d) = ground arith
    kept _ = ground arith

-- An event that is not cut moves from what is to come to what is kept.
gather_keeps :
    (limit : ℕ) (e : ChannelEvent) (es : List ChannelEvent) (c : Collected)
    → ((gather limit e c).truncated ≡ true)
      ⊎ (((gather limit e c).stdout ++ all_stdout es ≡ c.stdout ++ all_stdout (e ∷ es))
          × ((gather limit e c).stderr ++ all_stderr es ≡ c.stderr ++ all_stderr (e ∷ es)))
unfolding gather
gather_keeps limit (ChannelEvent.bytes d) es c =
    ground (arith, append_assoc c.stdout d (all_stdout es))
gather_keeps limit (ChannelEvent.extended_data d) es c =
    ground (arith, append_assoc c.stderr d (all_stderr es))
gather_keeps limit _ es c = inr (refl, refl)

collect_events_whole :
    (limit : ℕ) (es : List ChannelEvent) (c : Collected)
    → (collect_events limit es c).truncated ≡ false
    → ((collect_events limit es c).stdout ≡ c.stdout ++ all_stdout es)
      × ((collect_events limit es c).stderr ≡ c.stderr ++ all_stderr es)
unfolding collect_events
collect_events_whole limit [] c h = (sym (append-nil c.stdout), sym (append-nil c.stderr))
collect_events_whole limit (e ∷ es) c h =
    let (out, error) = collect_events_whole limit es (gather limit e c) h in
    elim (gather_keeps limit e es c) [
      | inl cut ↦ absurd (ground (arith, collect_events_cut limit es (gather limit e c) cut))
      | inr kept ↦ (out ∙ kept.0, error ∙ kept.1)
    ]

collect_events_exit :
    (limit : ℕ) (es : List ChannelEvent) (c : Collected)
    → (collect_events limit es c).exit ≡ last_exit es c.exit
unfolding collect_events gather
collect_events_exit limit [] c = refl
collect_events_exit limit (ChannelEvent.bytes d ∷ es) c =
    collect_events_exit limit es _ ∙ ap (last_exit es) (ground arith)
collect_events_exit limit (ChannelEvent.extended_data d ∷ es) c =
    collect_events_exit limit es _ ∙ ap (last_exit es) (ground arith)
collect_events_exit limit (ChannelEvent.exit_status code ∷ es) c = collect_events_exit limit es _
collect_events_exit limit (ChannelEvent.eof ∷ es) c = collect_events_exit limit es _
collect_events_exit limit (ChannelEvent.close ∷ es) c = collect_events_exit limit es _

-- Each stream is kept within the limit; the exit status is the last that was sent; and either the
-- result is marked as truncated, or both streams are whole.
pub collect_lem :
    (limit : ℕ) (ms : List ChannelMsg)
    → let es = events_until_close ms in
      let c = collect limit ms in
      (length c.stdout ≤ limit)
      × (length c.stderr ≤ limit)
      × (c.exit ≡ last_exit es none)
      × ((c.truncated ≡ true) ⊎ ((c.stdout ≡ all_stdout es) × (c.stderr ≡ all_stderr es)))
unfolding collect
collect_lem limit ms =
    let es = events_until_close ms in
    let within =
      collect_events-IsWithin limit es nothing_yet
        (record { stdout = omega arith; stderr = omega arith }) in
    (
      within.stdout,
      within.stderr,
      collect_events_exit limit es nothing_yet,
      elim (Bool-cases (collect_events limit es nothing_yet).truncated) [
        | inl cut ↦ inl cut
        | inr uncut ↦ inr (collect_events_whole limit es nothing_yet uncut)
      ],
    )
