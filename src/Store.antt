-- ===== src/Store.antt =====
-- The tables of schema/: sessions.sessions, sessions.messages and sessions.events, and the
-- statements that session.py runs on them. A statement is a function on the list of rows, in
-- insertion order. A JSON column holds the value that was dumped.
pub mod Rows
use lucyd.Base.{
  ℕ, suc, ◌+◌, String, Text, Bool, true, false, not, ◌&&◌, Option, none, some, List, [], ◌∷◌, leb,
  ◌==◌, str_eq, if◌then◌else◌,
}
use lucyd.Message.{Message, AssistantMessage, Fields}

pub record SessionRow : Type 0 where
  pub id : String
  pub contact : String
  pub model : String
  pub total_input_tokens : ℕ
  pub total_output_tokens : ℕ
  pub compaction_count : ℕ
  pub warned_about_compaction : Bool
  pub pending_system_warning : Text
  pub closed : Bool

pub record MessageRow : Type 0 where
  pub session_id : String
  pub ordinal : ℕ
  pub content : Message

-- The payloads that `append_event` is called with.
pub data Event : Type 0 where
  user_message : Text → String → String → Event
  assistant_message : AssistantMessage → Event
  tool_result : String → Text → Event
  session_created : String → String → String → Event
  outbound : Text → Option Fields → Event
  compaction : ℕ → ℕ → ℕ → Text → Event

pub record EventRow : Type 0 where
  pub session_id : String
  pub payload : Event
  pub trace_id : String

pub record Db : Type 0 where
  pub sessions : List SessionRow
  pub messages : List MessageRow
  pub events : List EventRow

-- SELECT … FROM sessions.messages WHERE session_id = $1
unfoldable pub rows_of : String → List MessageRow → List MessageRow
rows_of id [] = []
rows_of id (r ∷ rows) =
    let rest = rows_of id rows in if str_eq r.session_id id then r ∷ rest else rest

-- ORDER BY ordinal; rows with the same ordinal stay in insertion order.
unfoldable pub insert_row : MessageRow → List MessageRow → List MessageRow
insert_row r [] = r ∷ []
insert_row r (q ∷ rows) = if leb r.ordinal q.ordinal then r ∷ q ∷ rows else q ∷ insert_row r rows

unfoldable pub order_by_ordinal : List MessageRow → List MessageRow
unfolding insert_row
order_by_ordinal [] = []
order_by_ordinal (r ∷ rows) = insert_row r (order_by_ordinal rows)

unfoldable pub contents : List MessageRow → List Message
contents [] = []
contents (r ∷ rows) = r.content ∷ contents rows

-- SELECT content FROM sessions.messages WHERE session_id = $1 ORDER BY ordinal
unfoldable pub select_contents : Db → String → List Message
unfolding rows_of order_by_ordinal contents
select_contents db id = contents (order_by_ordinal (rows_of id db.messages))

-- DELETE FROM sessions.messages WHERE session_id = $1 AND ordinal = $2
unfoldable pub delete_ordinal : String → ℕ → List MessageRow → List MessageRow
delete_ordinal id k [] = []
delete_ordinal id k (r ∷ rows) =
    let rest = delete_ordinal id k rows in
    if str_eq r.session_id id && r.ordinal == k then rest else r ∷ rest

-- DELETE FROM sessions.messages WHERE session_id = $1
unfoldable pub delete_all : String → List MessageRow → List MessageRow
delete_all id [] = []
delete_all id (r ∷ rows) =
    let rest = delete_all id rows in if str_eq r.session_id id then rest else r ∷ rest

-- SELECT * FROM sessions.sessions WHERE id = $1
unfoldable pub find_session : String → List SessionRow → Option SessionRow
find_session id [] = none
find_session id (r ∷ rows) = if str_eq r.id id then some r else find_session id rows

-- SELECT … FROM sessions.sessions WHERE contact = $1 AND closed_at IS NULL
unfoldable pub find_active : String → List SessionRow → Option SessionRow
find_active contact [] = none
find_active contact (r ∷ rows) =
    if str_eq r.contact contact && not r.closed then some r else find_active contact rows

-- SELECT contact FROM sessions.sessions WHERE id = $1 AND closed_at IS NULL
unfoldable pub find_active_id : String → List SessionRow → Option SessionRow
find_active_id id [] = none
find_active_id id (r ∷ rows) =
    if str_eq r.id id && not r.closed then some r else find_active_id id rows

-- UPDATE sessions.sessions SET closed_at = now() WHERE id = $1
unfoldable pub close_row : String → List SessionRow → List SessionRow
close_row id [] = []
close_row id (r ∷ rows) =
    (if str_eq r.id id then record r { closed = true } else r) ∷ close_row id rows

-- SELECT COUNT(*) FROM sessions.sessions WHERE closed_at IS NULL
unfoldable pub count_active : List SessionRow → ℕ
count_active [] = 0
count_active (r ∷ rows) = if r.closed then count_active rows else suc (count_active rows)

-- The rows that an INSERT of `messages` with ordinals from `i` on adds.
unfoldable pub rows_from : String → ℕ → List Message → List MessageRow
rows_from id i [] = []
rows_from id i (m ∷ ms) =
    record { session_id = id; ordinal = i; content = m } ∷ rows_from id (i + 1) ms
