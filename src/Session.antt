-- ===== src/Session.antt =====
-- session.py, class `Session`: the state of one conversation, its persistence and its repair.
-- A method takes the tables and the session, and returns both. The statements of the pool are
-- taken to succeed.
pub mod Turns
pub mod Sync
pub mod Repair
pub mod Isolation
pub mod Compact
use lucyd.Base.{
  ℕ, suc, ◌+◌, ◌-◌, ◌<◌, String, Text, Bool, true, false, Option, none, some, List, [], ◌∷◌, ◌++◌,
  map, length, take, drop, get_last?, drop_last, ltb, str_eq, if◌then◌else◌,
}
use lucyd.Message.{
  Message, AssistantMessage, UsageDict, ToolResultEntry, Fields, user, agent, tool_result,
  user_text, is_user, is_tool_result, calls_tools, persisted,
}
use lucyd.Store.{
  Db, SessionRow, MessageRow, EventRow, Event, rows_from, select_contents, delete_ordinal,
  delete_all, find_session,
}

pub record Session : Type 0 where
  pub id : String
  pub model : String
  pub contact : String
  pub messages : List Message
  pub total_input_tokens : ℕ
  pub total_output_tokens : ℕ
  pub compaction_count : ℕ
  pub warned_about_compaction : Bool
  pub pending_system_warning : Text
  pub trace_id : String
  pub persisted_count : ℕ

-- Session.__init__
unfoldable pub new_session : String → String → String → Session
new_session id model contact = record {
  id = id;
  model = model;
  contact = contact;
  messages = [];
  total_input_tokens = 0;
  total_output_tokens = 0;
  compaction_count = 0;
  warned_about_compaction = false;
  pending_system_warning = [];
  trace_id = "";
  persisted_count = 0;
}

-- _validate_turn_structure: how many corruptions it logs. It changes nothing.
unfoldable pub corruptions : List Message → ℕ
corruptions [] = 0
corruptions (m ∷ []) = if calls_tools m then 1 else if is_tool_result m then 1 else 0
corruptions (m ∷ n ∷ ms) =
    let pair_skipped = corruptions ms in
    let next = corruptions (n ∷ ms) in
    if calls_tools m
    then (if is_tool_result n then pair_skipped else suc next)
    else if is_tool_result m
    then suc next
    else next

unfoldable pub restore : Option SessionRow → List Message → Session → Option Session
restore none ms s = none
restore (some row) ms s = some (record s {
  model = row.model;
  contact = row.contact;
  total_input_tokens = row.total_input_tokens;
  total_output_tokens = row.total_output_tokens;
  compaction_count = row.compaction_count;
  warned_about_compaction = row.warned_about_compaction;
  pending_system_warning = row.pending_system_warning;
  messages = ms;
  persisted_count = length ms;
})

-- Session.load; `none` where it returns False
unfoldable pub load : Db → Session → Option Session
unfolding restore
load db s = restore (find_session s.id db.sessions) (select_contents db s.id) s

last_is_user : Option Message → Bool
last_is_user none = false
last_is_user (some m) = is_user m

-- `self.messages and self.messages[-1]["role"] == "user"`
unfoldable pub ends_with_user : List Message → Bool
unfolding is_user last_is_user
ends_with_user ms = last_is_user (get_last? ms)

-- Session.repair_trailing_user_orphan
unfoldable pub repair_trailing_user_orphan : Db → Session → Db × Session × Bool
unfolding ends_with_user delete_ordinal
repair_trailing_user_orphan db s =
    if ends_with_user s.messages
    then (
      record db { messages = delete_ordinal s.id (length s.messages - 1) db.messages },
      record s { messages = drop_last s.messages; persisted_count = length (drop_last s.messages) },
      true,
    )
    else (db, s, false)

-- Session._save_session_meta
unfoldable pub save_session_meta : Session → List SessionRow → List SessionRow
save_session_meta s [] = []
save_session_meta s (r ∷ rows) =
    (if str_eq r.id s.id
      then record r {
        model = s.model;
        total_input_tokens = s.total_input_tokens;
        total_output_tokens = s.total_output_tokens;
        compaction_count = s.compaction_count;
        warned_about_compaction = s.warned_about_compaction;
        pending_system_warning = s.pending_system_warning;
      }
      else r)
    ∷ save_session_meta s rows

-- Session.save_state: rows for the messages from `persisted_count` on
unfoldable pub save_state : Db → Session → Db × Session
unfolding save_session_meta rows_from persisted
save_state db s = (
  record db {
    sessions = save_session_meta s db.sessions;
    messages =
        db.messages
        ++ rows_from s.id s.persisted_count (map persisted (drop s.persisted_count s.messages));
  },
  record s { persisted_count = length s.messages },
)

-- Session.replace_all_messages
unfoldable pub replace_all_messages : Db → Session → Db × Session
unfolding save_session_meta rows_from delete_all persisted
replace_all_messages db s = (
  record db {
    sessions = save_session_meta s db.sessions;
    messages = delete_all s.id db.messages ++ rows_from s.id 0 (map persisted s.messages);
  },
  record s { persisted_count = length s.messages },
)

-- Session.append_event, less the time stamp
unfoldable pub append_event : Db → Session → Event → Db
append_event db s e = record db {
  events = db.events ++ record { session_id = s.id; payload = e; trace_id = s.trace_id } ∷ [];
}

-- Session.add_user_message; `none` where it raises ConsecutiveRoleError
unfoldable pub add_user_message : Db → Session → Text → String → String → Option (Db × Session)
unfolding ends_with_user append_event save_state user_text
add_user_message db s text sender source =
    if ends_with_user s.messages
    then none
    else let t = record s { messages = s.messages ++ user_text text ∷ [] } in
      some (save_state (append_event db t (Event.user_message text sender source)) t)

unfoldable pub input_of : Option UsageDict → ℕ
input_of none = 0
input_of (some u) = u.input_tokens

unfoldable pub output_of : Option UsageDict → ℕ
output_of none = 0
output_of (some u) = u.output_tokens

-- Session.add_assistant_message
unfoldable pub add_assistant_message : Db → Session → AssistantMessage → Bool → Db × Session
unfolding append_event save_state input_of output_of
add_assistant_message db s msg persist_only =
    let t = record s {
      messages = if persist_only then s.messages else s.messages ++ agent msg ∷ [];
      total_input_tokens = s.total_input_tokens + input_of msg.usage;
      total_output_tokens = s.total_output_tokens + output_of msg.usage;
    } in
    let logged = append_event db t (Event.assistant_message msg) in
    if persist_only then (logged, t) else save_state logged t

abbrev pub audit_truncation_limit : ℕ
audit_truncation_limit = 500

-- the loop of `add_tool_results` over the entries
unfoldable pub log_results : Db → Session → List ToolResultEntry → Db
unfolding append_event
log_results db s [] = db
log_results db s (r ∷ rs) =
    log_results
      (append_event db s (Event.tool_result r.tool_call_id (take audit_truncation_limit r.content)))
      s rs

-- Session.add_tool_results
unfoldable pub add_tool_results : Db → Session → List ToolResultEntry → Bool → Db × Session
unfolding log_results save_state
add_tool_results db s results persist_only =
    let t = record s {
      messages = if persist_only then s.messages else s.messages ++ tool_result results ∷ [];
    } in
    let logged = log_results db t results in
    if persist_only then (logged, t) else save_state logged t

-- _context_tokens_from_usage on `msg.get("usage", {})`
unfoldable pub context_tokens_from_usage : Option UsageDict → ℕ
context_tokens_from_usage none = 0
context_tokens_from_usage (some u) = elim u.context_tokens [
  | some n ↦ n
  | none ↦ u.input_tokens + u.cache_read_tokens
]

-- the loop over `reversed(self.messages)`: the last agent message wins
unfoldable pub last_usage : ℕ → List Message → ℕ
unfolding context_tokens_from_usage
last_usage found [] = found
last_usage found (user u ∷ ms) = last_usage found ms
last_usage found (agent a ∷ ms) = last_usage (context_tokens_from_usage a.usage) ms
last_usage found (tool_result rs ∷ ms) = last_usage found ms

-- Session.last_input_tokens
unfoldable pub last_input_tokens : Session → ℕ
unfolding last_usage
last_input_tokens s = last_usage 0 s.messages

-- Session.needs_compaction
unfoldable pub needs_compaction : Session → ℕ → Bool
unfolding last_input_tokens
needs_compaction s threshold = ltb threshold (last_input_tokens s)
