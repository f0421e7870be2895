-- ===== src/Daemon/ManagerExamples.antt =====
-- apps/daemon/src/main.rs with crates/session/src/lib.rs: a world and a client for the theorem.
use ai_ssh.Base.{ℕ, ◌+◌, ◌<◌, ◌≡◌, refl, ap, List, [], ◌∷◌, ◌++◌, none, arith, inl, inr}
use ai_ssh.Base.Tests.{Bool-cases}
use ai_ssh.Base.Lists.{find, length, length-append}
use ai_ssh.Base.Text.{Text, codes, text_eq, text_eq_iff}
use ai_ssh.Base.Result.{ok, err}
use ai_ssh.Config.Examples.{config_one}
use ai_ssh.Config.Paths.{under}
use ai_ssh.Storage.Examples.{db_one}
use ai_ssh.Session.Runtime.{SessionRuntime, lookup, runtime_is}
use ai_ssh.Session.Lifecycle.{new}
use ai_ssh.Session.Steps.{Steps}
use ai_ssh.Session.Steps.Closed.{AllConsistent}
use ai_ssh.Session.FilesExamples.{honest_host}
use ai_ssh.Session.TransferExamples.{network_up, silent, read_host, download_host}
use ai_ssh.Ssh.Examples.{server}
use ai_ssh.Daemon.Examples.{request_codec, response_codec}
use ai_ssh.Daemon.Serve.{serve_client}
use ai_ssh.Daemon.Manager.{World, Desk, manager_service}
use ai_ssh.Daemon.Manager.Reaches.{IsWorld, serve_client-AllConsistent}

-- An id that is longer than all others.
abbrev fresh_id : List SessionRuntime → Text
fresh_id [] = 48 ∷ []
fresh_id (rt ∷ rts) = rt.session_id ++ fresh_id rts

fresh_id_long : (rts : List SessionRuntime) → 0 < length (fresh_id rts)
fresh_id_long [] = omega arith
fresh_id_long (rt ∷ rts) =
    omega (arith, length-append rt.session_id (fresh_id rts), fresh_id_long rts)

not_in :
    (id : Text) (rts : List SessionRuntime)
    → length (fresh_id rts) < length id + 1
    → find (runtime_is id) rts ≡ none
not_in id [] h = refl
not_in id (rt ∷ rts) h =
    let longer = length-append rt.session_id (fresh_id rts) in
    let some_text = fresh_id_long rts in
    elim (Bool-cases (text_eq rt.session_id id)) [
      | inl same ↦
          let equal = ap (length {A = ℕ}) ((text_eq_iff rt.session_id id).0 same) in
          absurd (omega (arith, h, equal, longer, some_text))
      | inr other ↦ rw other (not_in id rts (omega (arith, h, longer)))
    ]

abbrev quiet_world : World
quiet_world = record {
  before = λ m. m;
  now = 1;
  later = 2;
  instant = 3;
  uuid = λ m. fresh_id m.sessions;
  connects = err (codes "refused");
  outside = record {
    now = 1;
    uuid = codes "c1";
    debug = λ s. s;
    dial = λ attempt. err (codes "refused");
    opens = ok tt;
  };
  shell_outside = record {
    now = 1;
    uuid = codes "p1";
    dial = λ attempt. err (codes "refused");
    opens = λ size term. ok tt;
  };
  woken = [];
  last = record { now = 4; manager = new config_one (under (codes "/r")) db_one };
  wrote = ok tt;
  resizes = λ size. ok tt;
  closes_shell = ok tt;
  loaded = ok config_one;
  network = network_up;
  stats = err (codes "FILE_NOT_FOUND: /f");
  hashes = silent;
  read_host = read_host;
  write_host = honest_host;
  upload_host = record {
    network = network_up;
    home = none;
    makes_dir = λ path. ok tt;
    unique = codes "u";
    opens_local = none;
    rounds = [];
    remote = server;
  };
  download_host = download_host;
  made = ok tt;
}

quiet_world-IsWorld : IsWorld quiet_world
unfolding lookup
quiet_world-IsWorld = (λ m. Steps.done, λ m. not_in (fresh_id m.sessions) m.sessions (omega arith))

-- The configuration is read again, and what follows is cut off.
serve_client-AllConsistent_example :
    let fresh = new config_one (under (codes "/r")) db_one in
    let desk : Desk = record { manager = fresh; remote = []; local = []; turn = 0 } in
    let after =
      (serve_client
        (manager_service (λ k. quiet_world))
        request_codec
        response_codec
        9
        (codes "unknown")
        desk
        (0 ∷ 0 ∷ 0 ∷ 1 ∷ 7 ∷ 0 ∷ 0 ∷ [])).state.manager in
    Steps fresh after × AllConsistent after
serve_client-AllConsistent_example =
    serve_client-AllConsistent (λ k. quiet_world) config_one (under (codes "/r")) db_one [] []
      request_codec response_codec 9 (codes "unknown") (0 ∷ 0 ∷ 0 ∷ 1 ∷ 7 ∷ 0 ∷ 0 ∷ [])
      (λ k. quiet_world-IsWorld)
