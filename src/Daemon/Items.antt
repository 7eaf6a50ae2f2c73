-- ===== src/Daemon/Items.antt =====
-- lucyd.py: what the message loop takes from the queues, keeps waiting and dispatches.
use Prim.Native.String.{◌++◌ as append_string}
use lucyd.Base.{
  ℕ, String, Text, Bool, false, not, ◌||◌, ◌==◌, if◌then◌else◌, Option, none, some, List, [], ◌∷◌,
  ◌++◌, map, filter_by, is_empty, lit, join,
}
use lucyd.Manager.{World, close_session}
use lucyd.Pipeline.{Talker}
use lucyd.Operations.{Dispatch, Compacted}

pub data Kind : Type 0 where
  message reset compact : Kind

-- A queued `dict`: an absent key is `none`, the empty text or the empty list. Futures are numbered.
pub record QueueItem : Type 0 where
  pub kind : Kind
  pub all : Bool
  pub session_id : String
  pub talker : Option Talker
  pub sender : String
  pub text : Text
  pub attachments : List Text
  pub response_future : Option ℕ
  pub channel : String
  pub reply_to : String

-- What `_reset_session` returns.
pub data ResetResult : Type 0 where
  all_reset : ℕ → ResetResult
  id_reset contact_reset no_session_id no_session_contact : String → ResetResult

-- What a future is resolved with.
pub data Resolution (Result : Type 0) : Type 0 where
  reset_done : ResetResult → Resolution Result
  compact_done : Compacted → Resolution Result
  answered : Result → Resolution Result

-- The sessions, and the futures resolved so far, in order.
pub record Daemon (Result : Type 0) : Type 0 where
  pub world : World
  pub resolved : List (ℕ × Resolution Result)

-- A message that waits for others of its session.
pub record Waiting : Type 0 where
  pub text : Text
  pub talker : Talker
  pub sender : String
  pub channel : String
  pub reply_to : String
  pub attachments : List Text

-- What `queue.get` gives within its second.
pub data Got : Type 0 where
  timeout cancelled sentinel : Got
  item : QueueItem → Got

-- A turn of the loop: what is in the control queue at its start, what the inbox gives, and what is in the
-- control queue after a queued message.
pub record Round : Type 0 where
  pub control : List QueueItem
  pub got : Got
  pub control_after : List QueueItem

-- How a turn of the loop ends.
pub data Next : Type 0 where
  continue stop crash : Next

unfoldable pub talker_name : Talker → String
talker_name Talker.user = "user"
talker_name Talker.operator = "operator"
talker_name Talker.system = "system"
talker_name Talker.agent = "agent"

-- `f"{talker}:{sender}"`
unfoldable pub session_key_of : Talker → String → String
unfolding talker_name
session_key_of talker sender = append_string (talker_name talker) (append_string ":" sender)

unfoldable pub close_all : List String → World → World
close_all [] w = w
close_all (contact ∷ contacts) w = close_all contacts (close_session w contact).0

-- `future.done()`
unfoldable pub is_resolved : {Result : Type 0} → ℕ → List (ℕ × Resolution Result) → Bool
is_resolved future [] = false
is_resolved future ((f, r) ∷ es) = (f == future) || is_resolved future es

-- `set_result` on the future of an item, if there is one and it is not done
unfoldable pub resolve :
    {Result : Type 0} → Option ℕ → Resolution Result → World → Daemon Result → Daemon Result
unfolding is_resolved
resolve none r w d = record d { world = w }
resolve (some future) r w d =
    if is_resolved future d.resolved
    then record d { world = w }
    else record d { world = w; resolved = d.resolved ++ (future, r) ∷ [] }

unfoldable pub combined_text : List Waiting → Text
unfolding join lit
combined_text msgs =
    join (lit "\n") (filter_by (λ t. not (is_empty t)) (map (λ (m : Waiting). m.text) msgs))

unfoldable pub combined_attachments : List Waiting → List Text
combined_attachments [] = []
combined_attachments (m ∷ msgs) = m.attachments ++ combined_attachments msgs

unfoldable pub waiting_of : QueueItem → Talker → Waiting
waiting_of i talker = record {
  text = i.text;
  talker = talker;
  sender = i.sender;
  channel = i.channel;
  reply_to = i.reply_to;
  attachments = i.attachments;
}

unfoldable pub or_nil : Option (List Waiting) → List Waiting
or_nil none = []
or_nil (some ms) = ms

-- what `drain_pending` calls `process_message` with
unfoldable pub drained_dispatch : Waiting → List Waiting → Dispatch
unfolding combined_text combined_attachments
drained_dispatch first msgs = record {
  text = combined_text msgs;
  sender = first.sender;
  talker = first.talker;
  attachments = combined_attachments msgs;
  response_future = none;
  channel = first.channel;
  reply_to = first.reply_to;
  force_compact = false;
  session_key = "";
}

-- what `process_http_immediate` calls it with
unfoldable pub immediate_dispatch : QueueItem → Talker → Dispatch
immediate_dispatch i talker = record {
  text = i.text;
  sender = i.sender;
  talker = talker;
  attachments = i.attachments;
  response_future = i.response_future;
  channel = i.channel;
  reply_to = i.reply_to;
  force_compact = false;
  session_key = "";
}
