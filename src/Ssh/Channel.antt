-- ===== src/Ssh/Channel.antt =====
-- crates/ssh/src/lib.rs: `ChannelEvent`, `ExecChannel::next` and `ExecChannel::collect`. A channel is
-- the messages that `russh` will still deliver on it.
pub mod Collect
use ai_ssh.Base.{ℕ, ◌+◌, Bool, true, false, List, [], ◌∷◌, ◌++◌, ◌≡◌, refl, Option, none, some}
use ai_ssh.Base.Tests.{ltb, if◌then◌else◌}
use ai_ssh.Base.Lists.{length}

-- `ChannelMsg`, as far as it is matched.
pub data ChannelMsg : Type 0 where
  bytes extended_data : List ℕ → ChannelMsg
  exit_status : ℕ → ChannelMsg
  eof close ignored : ChannelMsg

pub data ChannelEvent : Type 0 where
  bytes extended_data : List ℕ → ChannelEvent
  exit_status : ℕ → ChannelEvent
  eof close : ChannelEvent

-- `next`: messages of other kinds are skipped. Also what is left on the channel.
unfoldable pub next : List ChannelMsg → Option ChannelEvent × List ChannelMsg
next [] = (none, [])
next (ChannelMsg.bytes d ∷ ms) = (some (ChannelEvent.bytes d), ms)
next (ChannelMsg.extended_data d ∷ ms) = (some (ChannelEvent.extended_data d), ms)
next (ChannelMsg.exit_status code ∷ ms) = (some (ChannelEvent.exit_status code), ms)
next (ChannelMsg.eof ∷ ms) = (some ChannelEvent.eof, ms)
next (ChannelMsg.close ∷ ms) = (some ChannelEvent.close, ms)
next (ChannelMsg.ignored ∷ ms) = next ms

-- What `collect` has gathered.
pub record Collected : Type 0 where
  pub stdout : List ℕ
  pub stderr : List ℕ
  pub exit : Option ℕ
  pub truncated : Bool

abbrev pub nothing_yet : Collected
nothing_yet = record { stdout = []; stderr = []; exit = none; truncated = false }

-- One event of the loop, other than the end.
unfoldable pub gather : (limit : ℕ) → ChannelEvent → Collected → Collected
gather limit (ChannelEvent.bytes d) c =
    if ltb limit (length c.stdout + length d)
    then record c { truncated = true }
    else record c { stdout = c.stdout ++ d }
gather limit (ChannelEvent.extended_data d) c =
    if ltb limit (length c.stderr + length d)
    then record c { truncated = true }
    else record c { stderr = c.stderr ++ d }
gather limit (ChannelEvent.exit_status code) c = record c { exit = some code }
gather limit ChannelEvent.eof c = c
gather limit ChannelEvent.close c = c

-- The events that `next` gives until the channel is closed or ends.
unfoldable pub events_until_close : List ChannelMsg → List ChannelEvent
events_until_close [] = []
events_until_close (ChannelMsg.bytes d ∷ ms) = ChannelEvent.bytes d ∷ events_until_close ms
events_until_close (ChannelMsg.extended_data d ∷ ms) =
    ChannelEvent.extended_data d ∷ events_until_close ms
events_until_close (ChannelMsg.exit_status code ∷ ms) =
    ChannelEvent.exit_status code ∷ events_until_close ms
events_until_close (ChannelMsg.eof ∷ ms) = ChannelEvent.eof ∷ events_until_close ms
events_until_close (ChannelMsg.close ∷ ms) = []
events_until_close (ChannelMsg.ignored ∷ ms) = events_until_close ms

-- They are what repeated calls of `next` give.
events_until_close-next :
    (ms : List ChannelMsg)
    → events_until_close ms ≡ elim (next ms).0 [
      | none ↦ []
      | some ChannelEvent.close ↦ []
      | some e ↦ e ∷ events_until_close (next ms).1
    ]
unfolding events_until_close next
events_until_close-next [] = refl
events_until_close-next (ChannelMsg.ignored ∷ ms) = events_until_close-next ms
events_until_close-next (_ ∷ ms) = refl

-- The `while let` loop of `collect`; `Close` breaks it.
unfoldable pub collect_events : (limit : ℕ) → List ChannelEvent → Collected → Collected
unfolding gather
collect_events limit [] c = c
collect_events limit (e ∷ es) c = collect_events limit es (gather limit e c)

unfoldable pub collect : (limit : ℕ) → List ChannelMsg → Collected
unfolding events_until_close collect_events
collect limit ms = collect_events limit (events_until_close ms) nothing_yet
