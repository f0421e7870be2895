-- ===== src/Session/TransferExamples.antt =====
-- crates/session/src/lib.rs: reads, downloads and helper commands on which the theorems apply.
use ai_ssh.Base.{◌≤◌, ◌≡◌, refl, true, false, [], ◌∷◌, none, some}
use ai_ssh.Base.Text.{codes, text_eq, is_whitespace}
use ai_ssh.Base.Utf8.{from_utf8, scan}
use ai_ssh.Base.Result.{ok, err}
use ai_ssh.Protocol.Types.{FileContentInfo}
use ai_ssh.Ssh.Shell.{shell_words}
use ai_ssh.Ssh.Transfer.{Files}
use ai_ssh.Ssh.Transfer.Streams.{read_capped}
use ai_ssh.Session.Connect.{connection_for}
use ai_ssh.Session.Examples.{manager_one}
use ai_ssh.Session.Poll.{read_limit, max_read_bytes}
use ai_ssh.Session.Files.{local_path_for}
use ai_ssh.Session.Helpers.{
  Reply, size_command, read_command, make_dir_command, chmod_command, decimal, octal,
}
use ai_ssh.Session.Helpers.Pieces.{WritesWith, HashesWith}
use ai_ssh.Session.Helpers.Words.{helper_words}
use ai_ssh.Session.Transfers.{Network, ReadHost, file_read}
use ai_ssh.Session.Transfers.Moves.{DownloadHost, file_download}
use ai_ssh.Session.Transfers.Reads.{IsRead, file_read-IsRead}
use ai_ssh.Session.Transfers.Downloads.{IsDownloaded, file_download_lem}

abbrev pub network_up : Network
network_up = record { now = 20; dial = λ attempt. err (codes "refused"); opens = ok tt }

abbrev pub silent : Reply
silent = record { opens = ok tt; messages = [] }

-- A file of three bytes, read without sudo.
abbrev pub read_host : ReadHost
read_host = record {
  first = network_up;
  second = network_up;
  digest = silent;
  measures = silent;
  chunk = silent;
  file = ok (some 3, 97 ∷ 98 ∷ 99 ∷ []);
}

-- Two of its bytes are asked for.
abbrev two_read : FileContentInfo
two_read = record {
  path = codes "/f";
  size = 3;
  bytes_returned = 2;
  truncated = true;
  is_utf8 = true;
  sha256 = none;
  contents = 97 ∷ 98 ∷ [];
}

two_are_read : (file_read read_host (codes "s") (codes "/f") 2 false manager_one).0 ≡ ok two_read
unfolding file_read text_eq from_utf8 scan connection_for read_capped
two_are_read = refl

file_read-IsRead_example : IsRead (read_limit 2) two_read × (read_limit 2 ≤ max_read_bytes)
file_read-IsRead_example =
    file_read-IsRead read_host (codes "s") (codes "/f") 2 false manager_one two_read two_are_read

abbrev pub download_host : DownloadHost
download_host = record {
  network = network_up;
  home = none;
  makes_parent = ok tt;
  pid = codes "7";
  rounds = record { reads = ok (97 ∷ []); writes = none } ∷ [];
  download = record {
    open_remote = none;
    create = none;
    flush = none;
    rename = none;
    removes = true;
    remains = [];
    arrives = λ received. received;
    digest = λ received. received;
    reported = some (97 ∷ []);
  };
}

abbrev old_files : Files
old_files = (codes "/a/f", 98 ∷ []) ∷ []

it_is_allowed : local_path_for none (codes "/a/f") ≡ ok (codes "/a/f")
unfolding local_path_for text_eq is_whitespace
it_is_allowed = refl

file_download_lem_example : IsDownloaded download_host (codes "/a/f") true true old_files (
    file_download download_host
      (codes "s")
      (codes "/r/f")
      (codes "/a/f")
      true
      true
      true
      (manager_one, old_files))
file_download_lem_example =
    file_download_lem download_host (codes "s") (codes "/r/f") (codes "/a/f") (codes "/a/f") true
      true true manager_one old_files it_is_allowed

helper_words_example :
    let path = codes "-f; rm" in
    (shell_words (size_command path)
      ≡ some (codes "sudo" ∷ codes "-n" ∷ codes "wc" ∷ codes "-c" ∷ codes "--" ∷ path ∷ []))
    × (shell_words (read_command 10 path)
        ≡ some (
            codes "sudo"
            ∷ codes "-n"
            ∷ codes "head"
            ∷ codes "-c"
            ∷ decimal 10
            ∷ codes "--"
            ∷ path
            ∷ []))
    × (shell_words (make_dir_command path)
        ≡ some (codes "sudo" ∷ codes "-n" ∷ codes "mkdir" ∷ codes "-p" ∷ codes "--" ∷ path ∷ []))
    × (shell_words (chmod_command 420 path)
        ≡ some (codes "sudo" ∷ codes "-n" ∷ codes "chmod" ∷ octal 420 ∷ codes "--" ∷ path ∷ []))
    × WritesWith true path
    × HashesWith path
helper_words_example = helper_words (codes "-f; rm") 10 420 true
