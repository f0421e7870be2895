-- ===== src/Ssh/Examples.antt =====
-- crates/ssh/src/lib.rs: inputs on which the theorems apply.
use ai_ssh.Base.{◌≤◌, ◌≡◌, ◌⊎◌, refl, true, List, [], ◌∷◌, map, none, some, arith}
use ai_ssh.Base.Lists.{length}
use ai_ssh.Base.Text.{Text, codes}
use ai_ssh.Base.Result.{ok, Result}
use ai_ssh.Ssh.Transfer.{Remote, Files, write_staged}
use ai_ssh.Ssh.Transfer.Destination.{IsDelivered, write_staged_lem}
use ai_ssh.Ssh.Transfer.Directories.{DirectoryRemote, Existing, IsMade, make_dir, make_dir-Ends}
use ai_ssh.Ssh.Command.{cd_part, export_part, exec_part, join_with, invalid_name}
use ai_ssh.Ssh.Shell.{shell_words}
use ai_ssh.Ssh.Shell.Parts.{export_words, command_parts_words}
use ai_ssh.Ssh.Channel.{ChannelMsg, events_until_close, collect}
use ai_ssh.Ssh.Channel.Collect.{all_stdout, all_stderr, last_exit, collect_lem}

abbrev environment : List (Text × Text)
environment = (codes "A", codes "it's; rm") ∷ []

no_invalid_name : invalid_name environment ≡ none
unfolding invalid_name
no_invalid_name = refl

command_parts_words_example :
    (shell_words (cd_part (codes "/tmp/a b")) ≡ some (codes "cd" ∷ codes "/tmp/a b" ∷ []))
    × (shell_words (join_with (codes " ") (map export_part environment))
        ≡ some (export_words environment))
    × (shell_words (exec_part (codes "echo 'x' $y"))
        ≡ some (codes "exec" ∷ codes "/bin/sh" ∷ codes "-c" ∷ codes "echo 'x' $y" ∷ []))
command_parts_words_example =
    command_parts_words (codes "echo 'x' $y") (codes "/tmp/a b") environment no_invalid_name

abbrev messages : List ChannelMsg
messages =
    ChannelMsg.bytes (1 ∷ 2 ∷ [])
    ∷ ChannelMsg.ignored
    ∷ ChannelMsg.exit_status 0
    ∷ ChannelMsg.bytes (3 ∷ [])
    ∷ ChannelMsg.close
    ∷ []

collect_lem_example :
    let es = events_until_close messages in
    let c = collect 2 messages in
    (length c.stdout ≤ 2)
    × (length c.stderr ≤ 2)
    × (c.exit ≡ last_exit es none)
    × ((c.truncated ≡ true) ⊎ ((c.stdout ≡ all_stdout es) × (c.stderr ≡ all_stderr es)))
collect_lem_example = collect_lem 2 messages

-- A server that answers every request, on a host with a digest tool; the digest is the text itself.
abbrev pub server : Remote
server = record {
  create = none;
  write = none;
  flush = none;
  close = none;
  set_mode = none;
  metadata = none;
  remove = none;
  rename = none;
  discards = true;
  remains = [];
  arrives = λ sent. sent;
  digest = λ sent. sent;
  has_tool = true;
}

abbrev files_before : Files
files_before = (codes "/a/f", 1 ∷ []) ∷ []

write_staged_lem_example :
    IsDelivered server
      (codes "/a/f")
      (2 ∷ 3 ∷ [])
      true
      files_before
      (write_staged server (codes "1") (codes "/a/f") (2 ∷ 3 ∷ []) (some 420) true files_before)
write_staged_lem_example =
    write_staged_lem server (codes "1") (codes "/a/f") (2 ∷ 3 ∷ []) (some 420) true files_before

abbrev makes_all : DirectoryRemote
makes_all = record {
  stats = λ path. none;
  creates = λ path. none;
  restats = λ path. ok none;
  set_mode = none;
}

make_dir-Ends_example :
    (made : Result Text (Unit {0}) × Existing) × (make_dir 5 makes_all
        (codes "/a/b")
        true
        none
        ((codes "/", true) ∷ [])
      ≡ some made)
    × IsMade makes_all (codes "/a/b") ((codes "/", true) ∷ []) made
make_dir-Ends_example =
    make_dir-Ends 5 makes_all (codes "/a/b") true none ((codes "/", true) ∷ []) (omega arith)
