-- ===== src/Manager.antt =====
-- session.py, class `SessionManager`: the sessions in memory, by contact, over the tables.
pub mod Active
pub mod Outbound
use lucyd.Base.{
  ℕ, ◌+◌, String, Text, Bool, true, false, Option, none, some, List, [], ◌∷◌, ◌++◌, is_empty, lit,
  if◌then◌else◌,
}
use lucyd.Base.Dict.{Dict, lookup, insert, erase}
use lucyd.Message.{Message, Json, Fields, AssistantMessage, user_text, agent}
use lucyd.Store.{Db, SessionRow, Event, find_active, find_active_id, close_row, count_active}
use lucyd.Session.{
  Session, new_session, load, repair_trailing_user_orphan, append_event, save_state,
}

-- The tables with `_sessions`.
pub record World : Type 0 where
  pub db : Db
  pub loaded : Dict Session

-- SessionManager.has_session
unfoldable pub has_session : World → String → Bool
has_session w sender = elim (lookup sender w.loaded) [
  | some s ↦ true
  | none ↦ elim (find_active sender w.db.sessions) [ none ↦ false | some row ↦ true ]
]

-- SessionManager.session_count
unfoldable pub session_count : World → ℕ
unfolding count_active
session_count w = count_active w.db.sessions

unfoldable pub new_row : String → String → String → SessionRow
new_row id contact model = record {
  id = id;
  contact = contact;
  model = model;
  total_input_tokens = 0;
  total_output_tokens = 0;
  compaction_count = 0;
  warned_about_compaction = false;
  pending_system_warning = [];
  closed = false;
}

-- the part of `get_or_create` that creates a session; `fresh` is the UUID
unfoldable pub create : World → String → String → String → World × Session
unfolding new_row
create w fresh contact model =
    let s = new_session fresh model contact in
    let inserted = record (w.db) { sessions = w.db.sessions ++ new_row fresh contact model ∷ [] } in
    (
      record {
        db = append_event inserted s (Event.session_created fresh model contact);
        loaded = insert contact s w.loaded;
      },
      s,
    )

-- the part that resumes the session of an active row
unfoldable pub resume : World → String → String → String → Option Session → World × Session
resume w fresh contact model none = create w fresh contact model
resume w fresh contact model (some s) =
    let (db, t, _) = repair_trailing_user_orphan w.db s in
    (record { db = db; loaded = insert contact t w.loaded }, t)

unfoldable pub find_or_create :
    World → String → String → String → Option SessionRow → World × Session
find_or_create w fresh contact model none = create w fresh contact model
find_or_create w fresh contact model (some row) =
    resume w fresh contact model (load w.db (new_session row.id model contact))

unfoldable pub reuse : World → String → String → String → Option Session → World × Session
reuse w fresh contact model (some s) = (w, s)
reuse w fresh contact model none =
    find_or_create w fresh contact model (find_active contact w.db.sessions)

-- SessionManager.get_or_create
unfoldable pub get_or_create : World → String → String → String → World × Session
unfolding reuse find_or_create
get_or_create w fresh contact model = reuse w fresh contact model (lookup contact w.loaded)

unfoldable pub close_found : World → String → Option SessionRow → World × Bool
close_found w contact none = (record w { loaded = erase contact w.loaded }, false)
close_found w contact (some row) = (
  record {
    db = record (w.db) { sessions = close_row row.id w.db.sessions };
    loaded = erase contact w.loaded;
  },
  true,
)

-- SessionManager.close_session. The callbacks run on the session that was in memory, after the row
-- is closed; what they raise is dropped.
unfoldable pub close_session : World → String → World × Bool
unfolding close_found
close_session w contact = close_found w contact (find_active contact w.db.sessions)

-- SessionManager.close_session_by_id
unfoldable pub close_session_by_id : World → String → World × Bool
close_session_by_id w id = elim (find_active_id id w.db.sessions) [
  | none ↦ (w, false)
  | some row ↦ close_session w row.contact
]

anchor : Message
anchor =
    user_text
      (lit "[external trigger: agent acted on a scheduled task and sent you the following message]")

outbound_message : Text → List Json → Option Fields → AssistantMessage
outbound_message text refs metadata = record {
  text = some text;
  tool_calls = [];
  thinking = none;
  thinking_block = none;
  usage = none;
  attachments = refs;
  source_metadata = metadata;
}

unfoldable pub with_outbound : Session → Text → List Json → Option Fields → Session
unfolding anchor outbound_message user_text
with_outbound s text refs metadata = record s {
  messages =
      (if is_empty s.messages then anchor ∷ [] else s.messages)
      ++ agent (outbound_message text refs metadata) ∷ [];
}

-- SessionManager.append_outbound_to_user. `metadata` is `none` for an empty dict.
unfoldable pub append_outbound_to_user :
    World → String → String → Text → List Json → Option Fields → World × Session
unfolding with_outbound
append_outbound_to_user w fresh target text refs metadata =
    let (w', s) = get_or_create w fresh target "" in
    let t = with_outbound s text refs metadata in
    let (db, saved) = save_state (append_event w'.db t (Event.outbound text metadata)) t in
    (record { db = db; loaded = insert target saved w'.loaded }, saved)
