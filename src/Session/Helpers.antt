-- ===== src/Session/Helpers.antt =====
-- crates/session/src/lib.rs: the helper commands that run on the host: their texts, and what is made
-- of their output. What a channel delivers is an argument.
pub mod Pieces
pub mod Words
use Prim.Native.String.{String}
use ai_ssh.Base.{
  ℕ, zero, suc, ◌+◌, ◌-◌, ◌*◌, ◌/◌, ◌%◌, Bool, true, false, not, List, [], ◌∷◌, ◌++◌, Option, none,
  some,
}
use ai_ssh.Base.Tests.{ltb, leb, ◌==◌, if◌then◌else◌}
use ai_ssh.Base.Lists.{length, is_empty}
use ai_ssh.Base.Text.{Text, codes, trim, words}
use ai_ssh.Base.Utf8.{Utf8, whole, cut, broken, from_utf8, from_utf8_lossy, between}
use ai_ssh.Base.Result.{Result, ok, err, ◌>>=◌, ◌>>◌, map_err}
use ai_ssh.Protocol.Messages.{ErrorPayload, ApiResult, error, error_with}
use ai_ssh.Ssh.Command.{shell_quote}
use ai_ssh.Ssh.Channel.{ChannelMsg, Collected, collect}
use ai_ssh.Session.Errors.{classify_error}
use ai_ssh.Session.Files.{first_word}

abbrev pub helper_output_bytes : ℕ
helper_output_bytes = 64 * 1024

-- The digits of a number in a base up to ten, as `format!` writes them; 64 digits are enough for any
-- integer of the source.
unfoldable pub digits : (fuel base : ℕ) → ℕ → Text
digits zero base n = []
digits (suc fuel) base n =
    let rest = digits fuel base (n / base) in
    if ltb n base then (b'0' + n) ∷ [] else rest ++ (b'0' + n % base) ∷ []

abbrev pub decimal : ℕ → Text
decimal n = digits 64 10 n

abbrev pub octal : ℕ → Text
octal n = digits 64 8 n

abbrev pub sudo_prefix : Bool → Text
sudo_prefix sudo = if sudo then codes "sudo -n " else []

-- The commands of `remote_sha256`, `sudo_file_size`, `sudo_read_chunk`, `sudo_write`,
-- `sudo_make_dir` and `sudo_chmod`.
unfoldable pub sha256_command : (sudo : Bool) → Text → Text
sha256_command sudo path =
    codes "if command -v sha256sum >/dev/null 2>&1; then "
    ++ (sudo_prefix sudo
        ++ (codes "sha256sum -- "
            ++ (shell_quote path
                ++ (codes "; elif command -v shasum >/dev/null 2>&1; then "
                    ++ (sudo_prefix sudo
                        ++ (codes "shasum -a 256 -- "
                            ++ (shell_quote path ++ codes "; else exit 3; fi")))))))

unfoldable pub size_command : Text → Text
size_command path = codes "sudo -n wc -c -- " ++ shell_quote path

unfoldable pub read_command : (max_bytes : ℕ) → Text → Text
read_command max_bytes path =
    codes "sudo -n head -c " ++ (decimal max_bytes ++ (codes " -- " ++ shell_quote path))

unfoldable pub write_command : (append : Bool) → Text → Text
write_command append path =
    codes "sudo -n tee "
    ++ ((if append then codes "-a " else [])
        ++ (codes "-- " ++ (shell_quote path ++ codes " > /dev/null")))

unfoldable pub make_dir_command : Text → Text
make_dir_command path = codes "sudo -n mkdir -p -- " ++ shell_quote path

unfoldable pub chmod_command : (mode : ℕ) → Text → Text
chmod_command mode path =
    codes "sudo -n chmod " ++ (octal mode ++ (codes " -- " ++ shell_quote path))

-- How the host answers a command: whether its channel opens, and what is delivered on it.
pub record Reply : Type 0 where
  pub opens : Result Text (Unit {0})
  pub messages : List ChannelMsg

-- The text that explains an exit status other than 0.
abbrev pub detail_or : (stderr : List ℕ) → ErrorPayload → ErrorPayload
detail_or stderr otherwise =
    let detail = trim (from_utf8_lossy stderr) in
    if is_empty detail then otherwise else error_with "REMOTE_COMMAND_FAILED" "{}" (detail ∷ [])

abbrev pub is_success : Option ℕ → Bool
is_success none = false
is_success (some code) = code == 0

abbrev pub exit_text : Option ℕ → Text
exit_text none = codes "None"
exit_text (some code) = codes "Some(" ++ (decimal code ++ codes ")")

-- The output of a command that has ended with 0.
abbrev pub if_success : {A : Type 0} → Collected → (template : String) → A → ApiResult A
if_success collected template output =
    if is_success collected.exit
    then ok output
    else err (
        detail_or collected.stderr
          (error_with "REMOTE_COMMAND_FAILED" template (exit_text collected.exit ∷ [])))

-- `exec_helper`.
unfoldable pub exec_helper : Reply → (limit : ℕ) → ApiResult (List ℕ)
exec_helper r limit = do
  map_err classify_error r.opens
  let collected = collect limit r.messages
  if_success collected "helper command exited with {exit:?}" collected.stdout

-- The word of 64 characters at the head of the output, if it is UTF-8.
abbrev pub digest_of : ApiResult (List ℕ) → Option Text
digest_of (err failed) = none
digest_of (ok output) = elim (from_utf8 output) [
  | whole text ↦ first_word (words text)
  | cut text pending ↦ none
  | broken ↦ none
]

unfoldable pub remote_sha256 : Reply → Option Text
unfolding exec_helper
remote_sha256 r = digest_of (exec_helper r helper_output_bytes)

-- `str::parse::<u64>`, on digits with an optional `+`.
unfoldable pub parse_digits : (value : ℕ) → Text → Option ℕ
parse_digits value [] = if ltb value 18446744073709551616 then some value else none
parse_digits value (c ∷ s) =
    let rest = parse_digits (value * 10 + (c - 48)) s in if between b'0' b'9' c then rest else none

abbrev pub parse_u64 : Text → Option ℕ
parse_u64 [] = none
parse_u64 (c ∷ []) = parse_digits 0 (c ∷ [])
parse_u64 (c ∷ d ∷ s) = if c == b'+' then parse_digits 0 (d ∷ s) else parse_digits 0 (c ∷ d ∷ s)

abbrev pub first_number : List Text → Option ℕ
first_number [] = none
first_number (w ∷ ws) = parse_u64 w

unfoldable pub sudo_file_size : Reply → ApiResult (Option ℕ)
unfolding exec_helper
sudo_file_size r = do
  output ← exec_helper r helper_output_bytes
  ok (first_number (words (from_utf8_lossy output)))

unfoldable pub sudo_read_chunk : Reply → (max_bytes : ℕ) → ApiResult (List ℕ)
unfolding exec_helper
sudo_read_chunk r max_bytes = exec_helper r max_bytes

-- `sudo_make_dir` and `sudo_chmod`, which look at the exit status alone.
unfoldable pub run_helper : Reply → ApiResult (Unit {0})
unfolding exec_helper
run_helper r = do output ← exec_helper r helper_output_bytes; ok tt

-- What `sudo_write` meets besides: whether the bytes and the end of input are sent, and whether the
-- time runs out.
pub record WriteReply : Type 0 where
  pub reply : Reply
  pub sends : Result Text (Unit {0})
  pub ends : Result Text (Unit {0})
  pub times_out : Bool

unfoldable pub send_all : WriteReply → ApiResult (Unit {0})
send_all w = do
  map_err classify_error w.sends
  map_err classify_error w.ends
  if_success (collect helper_output_bytes w.reply.messages) "privileged write exited with {exit:?}"
      tt

abbrev pub within_time : WriteReply → ApiResult (Unit {0})
within_time w =
    if w.times_out
    then err (error "REMOTE_TIMEOUT" "the privileged write did not finish in time")
    else send_all w

unfoldable pub sudo_write : WriteReply → ApiResult (Unit {0})
unfolding send_all
sudo_write w = do map_err classify_error w.reply.opens; within_time w
