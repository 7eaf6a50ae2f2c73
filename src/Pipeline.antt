-- ===== src/Pipeline.antt =====
-- pipeline.py, class `MessagePipeline`: what one message does to its session, from setup to close.
pub mod Rollback
pub mod Budget
pub mod Reply
pub mod Process
use lucyd.Base.{
  ℕ, suc, ◌+◌, ◌-◌, ◌*◌, ◌/◌, ◌%◌, String, Text, Bool, true, false, not, ◌&&◌, ◌||◌, Option, none,
  some, List, [], ◌∷◌, ◌++◌, length, take, drop, drop_last, is_empty, lit, starts_with, ltb, leb,
  ◌==◌, str_eq, if◌then◌else◌,
}
use lucyd.Base.Dict.{insert}
use lucyd.Message.{Message, Json, UserMessage, AssistantMessage, ToolCall, tool_result}
use lucyd.Store.{Db}
use lucyd.Session.{
  Session, ends_with_user, save_state, add_user_message, add_assistant_message, add_tool_results,
  last_input_tokens, needs_compaction,
}
use lucyd.Session.Compact.{is_space, is_blank}
use lucyd.Manager.{World, has_session, get_or_create, close_session}

-- config.Talker and EPHEMERAL_TALKERS
pub data Talker : Type 0 where
  user operator system agent : Talker

unfoldable pub is_ephemeral : Talker → Bool
is_ephemeral Talker.user = false
is_ephemeral Talker.operator = false
is_ephemeral Talker.system = true
is_ephemeral Talker.agent = true

-- _should_warn_context at 80%: `int(threshold * 0.8)` is `4 * threshold / 5` for thresholds whose
-- product is exact as a float
unfoldable pub should_warn_context : ℕ → ℕ → Bool → Bool → Bool
should_warn_context input_tokens compaction_threshold needs already_warned =
    ltb (4 * compaction_threshold / 5) input_tokens && (not needs && not already_warned)

-- _inject_warning
unfoldable pub inject_warning : Text → Text → Text × Bool
inject_warning text warning =
    if is_empty warning
    then (text, false)
    else (lit "[system: " ++ (warning ++ (lit "]\n\n" ++ text)), true)

-- `self._sessions` holds the object that the pipeline changes.
unfoldable pub put_session : World → String → Db → Session → World
put_session w key db s = record { db = db; loaded = insert key s w.loaded }

unfoldable pub lstrip : Text → Text
unfolding is_space
lstrip [] = []
lstrip (c ∷ cs) = let rest = lstrip cs in if is_space c then rest else c ∷ cs

unfoldable pub is_scheduled_fire : Talker → Text → Bool
unfolding lstrip
is_scheduled_fire Talker.agent text =
    starts_with (lstrip text) (lit "[Reminder] ")
    || starts_with (lstrip text) (lit "[Scheduled task] ")
is_scheduled_fire _ text = false

-- What a turn is set up with: the key, the model, the texts of the clock and of the situational brief,
-- the image blocks and the identifiers.
pub record Inbound : Type 0 where
  pub talker : Talker
  pub key : String
  pub model : String
  pub text : Text
  pub sender : String
  pub source : String
  pub fresh : String
  pub trace_id : String
  pub brief : Text
  pub timestamp : Text
  pub image_blocks : List Json

-- the user turn as it is stored: timestamp, brief, text
unfoldable pub stamped_text : Inbound → Text → Text
unfolding is_scheduled_fire
stamped_text m text =
    m.timestamp
    ++ (lit "\n"
        ++ (if is_scheduled_fire m.talker m.text
            then lit "[system: " ++ (m.brief ++ (lit "]\n\n" ++ text))
            else text))

unfoldable pub with_model : Session → String → Session
with_model s model =
    if not (str_eq model "") && not (str_eq s.model model) then record s { model = model } else s

-- the pending warning goes into the text, and its clearing is saved
unfoldable pub take_warning : Db → Session → Bool → Db × Session
take_warning db s consumed =
    if consumed then save_state db (record s { pending_system_warning = [] }) else (db, s)

unfoldable pub set_images : List Json → Message → Message
set_images blocks (Message.user u) = Message.user (record u { image_blocks = blocks })
set_images blocks (Message.agent a) = Message.agent a
set_images blocks (tool_result rs) = tool_result rs

-- `session.messages[user_msg_idx]["_image_blocks"] = image_blocks`, at the last index
unfoldable pub inject_images : List Json → List Message → List Message
inject_images [] ms = ms
inject_images (b ∷ bs) [] = []
inject_images (b ∷ bs) (m ∷ []) = set_images (b ∷ bs) m ∷ []
inject_images (b ∷ bs) (m ∷ n ∷ ms) = m ∷ inject_images (b ∷ bs) (n ∷ ms)

unfoldable pub after_user_message :
    World → String → Db → Session → List Json → Option (Db × Session) → World × Option Session
after_user_message w key db s blocks none = (put_session w key db s, none)
after_user_message w key db s blocks (some (db', t)) =
    let u = record t { messages = inject_images blocks t.messages } in
    (put_session w key db' u, some u)

-- _setup_session; no session where it raises ConsecutiveRoleError
unfoldable pub setup_session : World → Inbound → World × Option Session
setup_session w m =
    let (w', found) = get_or_create w m.fresh m.key m.model in
    let s = with_model found m.model in
    let (text, consumed) = inject_warning m.text s.pending_system_warning in
    let (db, cleared) = take_warning w'.db s consumed in
    let ready = record cleared { trace_id = m.trace_id } in
    after_user_message w' m.key db ready m.image_blocks
      (add_user_message db ready (stamped_text m text) m.sender m.source)

-- `session.messages[user_msg_idx].pop("_image_blocks", None)`
unfoldable pub strip_images : ℕ → List Message → List Message
strip_images i [] = []
strip_images ℕ.zero (m ∷ ms) = set_images [] m ∷ ms
strip_images (suc i) (m ∷ ms) = m ∷ strip_images i ms

-- the rollback in `_handle_agentic_error`, over the messages
unfoldable pub rolled_back : ℕ → List Message → List Message
rolled_back msg_count_before ms =
    let kept = take msg_count_before ms in if ends_with_user kept then drop_last kept else kept

-- _handle_agentic_error: what it does to the session, before the ephemeral close. The image blocks are
-- popped at `user_msg_idx` where there were any.
unfoldable pub handle_agentic_error : Bool → ℕ → ℕ → Db → Session → Db × Session
handle_agentic_error had_images user_msg_idx msg_count_before db s =
    let stripped = if had_images then strip_images user_msg_idx s.messages else s.messages in
    save_state db (record s { messages = rolled_back msg_count_before stripped })

-- the loop of `_persist_response` over the messages that the agentic loop added
unfoldable pub log_new : Db → Session → List Message → Db × Session
log_new db s [] = (db, s)
log_new db s (Message.user u ∷ ms) = log_new db s ms
log_new db s (Message.agent a ∷ ms) =
    let (db', t) = add_assistant_message db s a true in log_new db' t ms
log_new db s (tool_result rs ∷ ms) =
    let (db', t) = add_tool_results db s rs true in log_new db' t ms

-- _persist_response
unfoldable pub persist_response : Bool → ℕ → ℕ → Db → Session → Db × Session
persist_response had_images user_msg_idx msg_count_before db s =
    let (db', t) = log_new db s (drop msg_count_before s.messages) in
    save_state db' (record t {
      messages = if had_images then strip_images user_msg_idx t.messages else t.messages;
    })

-- _check_compaction_warning; the text of the warning is the argument
unfoldable pub check_compaction_warning : ℕ → Text → Db → Session → Db × Session
check_compaction_warning threshold warning db s =
    if should_warn_context (last_input_tokens s) threshold (needs_compaction s threshold)
      s.warned_about_compaction
    then save_state db
        (record s { pending_system_warning = warning; warned_about_compaction = true })
    else (db, s)

-- the ephemeral close, after an error (`forced` is false) and at the end of a turn
unfoldable pub auto_close : Talker → Bool → Bool → World → String → World
auto_close talker forced preexisted w key =
    if is_ephemeral talker && (not forced && not preexisted) then (close_session w key).0 else w
