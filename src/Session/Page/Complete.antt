-- ===== src/Session/Page/Complete.antt =====
-- crates/session/src/lib.rs: `delivery_complete` of `events_response`.
use ai_ssh.Base.{ℕ, ◌≡◌, sym, ◌∙◌, Bool, true, false, List, some, arith}
use Prim.Native.String.{String}
use ai_ssh.Protocol.Types.{CommandInfo, EventProgress, is_running}
use ai_ssh.Protocol.Messages.{ResponseData}
use ai_ssh.Storage.Events.Order.{Ascends}
use ai_ssh.Storage.Events.Follow.{whole_page}
use ai_ssh.Session.Runtime.{SessionManager}
use ai_ssh.Session.Page.{events_response}
use ai_ssh.Session.Page.Delivery.{output_above, page_of, read_page_of-IsGoodPage}

-- `delivery_complete` of an answer.
unfoldable pub delivery_complete : ResponseData → Bool
delivery_complete
      (ResponseData.events command commands events next more complete warnings progress) =
    complete
delivery_complete _ = false

-- The answer to a poll of a command is marked as completely delivered only if the command has ended
-- and the answer has all its output above the cursor, if that output ascends.
pub delivery_complete_lem :
    (c : CommandInfo) (after limit : ℕ) (m : SessionManager) (cs : List CommandInfo)
    (warnings : List String) (progress : EventProgress)
    → Ascends after (output_above c m after)
    → (let page = page_of c after limit m in
        delivery_complete (events_response (some c) cs page.0 after page.1 warnings progress))
      ≡ true
    → (is_running c.status ≡ false) × ((page_of c after limit m).0 ≡ output_above c m after)
unfolding delivery_complete events_response
delivery_complete_lem c after limit m cs warnings progress rising complete =
    let page = page_of c after limit m in
    let (left, parts, more) = (read_page_of-IsGoodPage c after limit m rising).0 in
    let nothing_more : page.1 ≡ false = ground arith in
    (
      ground arith,
      sym (whole_page (output_above c m after) page.0 left parts (sym more ∙ nothing_more)),
    )
