-- ===== src/Pipeline/Process/Synced.antt =====
-- pipeline.py, `process_message`: the rows of the session after a message.
use lucyd.Base.{
  ℕ, zero, suc, String, Text, ◌≡◌, ◌∙◌, refl, sym, ap, Bool, true, false, not, Option, none, some,
  List, [], ◌∷◌, map, length, length-map, take, drop, inl, inr, Bool-cases, Option-cases, arith,
  eq_refl, str_eq, ◌&&◌, if◌then◌else◌,
}
use lucyd.Base.Dict.{lookup, lookup-insert}
use lucyd.Message.{Message, Json, ToolResultEntry, user, agent, tool_result, persisted}
use lucyd.Store.{Db, find_active}
use lucyd.Session.{
  Session, add_user_message, append_event, add_assistant_message, add_tool_results, log_results,
  needs_compaction, last_input_tokens, ends_with_user,
}
use lucyd.Session.Sync.{
  IsSynced, IsInStep, IsInStep-of_IsSynced, save_state-IsSynced, add_user_message-IsSynced,
}
use lucyd.Manager.{World, get_or_create, close_session, close_found}
use lucyd.Pipeline.{
  Talker, is_ephemeral, Inbound, put_session, should_warn_context, inject_warning, take_warning,
  with_model, stamped_text, after_user_message, setup_session, set_images, inject_images,
  strip_images, log_new, persist_response, check_compaction_warning, auto_close,
}

add_user_message-refuses :
    (db : Db) (s : Session) (text : Text) (sender source : String)
    → add_user_message db s text sender source ≡ none
    → ends_with_user s.messages ≡ true
unfolding add_user_message
add_user_message-refuses db s text sender source h = elim (Bool-cases (ends_with_user s.messages)) [
  | inl refused ↦ refused
  | inr accepted ↦ cc (rw accepted at h)
]

-- Image blocks are no part of what is persisted.
set_images-persisted :
    (blocks : List Json) (m : Message) → persisted (set_images blocks m) ≡ persisted m
unfolding set_images persisted
set_images-persisted blocks (user u) = refl
set_images-persisted blocks (agent a) = refl
set_images-persisted blocks (tool_result rs) = refl

inject_images-persisted :
    (blocks : List Json) (ms : List Message)
    → map persisted (inject_images blocks ms) ≡ map persisted ms
unfolding inject_images
inject_images-persisted [] ms = refl
inject_images-persisted (b ∷ bs) [] = refl
inject_images-persisted (b ∷ bs) (m ∷ []) = rw set_images-persisted
inject_images-persisted (b ∷ bs) (m ∷ n ∷ ms) =
    ap (λ (r : List Message). persisted m ∷ r) (inject_images-persisted (b ∷ bs) (n ∷ ms))

strip_images-persisted :
    (i : ℕ) (ms : List Message) → map persisted (strip_images i ms) ≡ map persisted ms
unfolding strip_images
strip_images-persisted i [] = refl
strip_images-persisted zero (m ∷ ms) = rw set_images-persisted
strip_images-persisted (suc i) (m ∷ ms) = rw (strip_images-persisted i ms)

pub same_length :
    (ms ns : List Message) → map persisted ms ≡ map persisted ns → length ms ≡ length ns
same_length ms ns e = omega (arith, length-map persisted ms, length-map persisted ns, ap length e)

-- Rows that fit a session fit one with the same id, count and persisted messages.
IsSynced-images :
    (db : Db) (s : Session) (ms : List Message)
    → map persisted ms ≡ map persisted s.messages
    → IsSynced db s
    → IsSynced db (record s { messages = ms })
IsSynced-images db s ms e h = record {
  rows = rw e h.rows;
  count = h.count ∙ sym (same_length ms s.messages e);
}

pub map-take : (n : ℕ) (ms : List Message) → map persisted (take n ms) ≡ take n (map persisted ms)
map-take zero ms = refl
map-take (suc n) [] = refl
map-take (suc n) (m ∷ ms) = rw (map-take n ms)

IsInStep-images :
    (db : Db) (s : Session) (ms : List Message)
    → map persisted ms ≡ map persisted s.messages
    → IsInStep db s
    → IsInStep db (record s { messages = ms })
IsInStep-images db s ms e h = record {
  rows =
      rw (map-take s.persisted_count ms, e) (rw (map-take s.persisted_count s.messages) at h.rows);
  within = omega (arith, h.within, same_length ms s.messages e);
}

-- What the persisting of a turn logs and counts leaves the rows and the messages alone.
log_results-messages :
    (db : Db) (s : Session) (rs : List ToolResultEntry)
    → (log_results db s rs).messages ≡ db.messages
unfolding log_results append_event
log_results-messages db s [] = refl
log_results-messages db s (r ∷ rs) = log_results-messages _ s rs

-- the parts of a session that the rows are about
abbrev pub Same : Db → Session → Db → Session → Type 0
Same db s db' s' =
    (db'.messages ≡ db.messages)
    × (s'.id ≡ s.id)
    × (s'.messages ≡ s.messages)
    × (s'.persisted_count ≡ s.persisted_count)

IsInStep-Same :
    (db : Db) (s : Session) (db' : Db) (s' : Session)
    → Same db s db' s'
    → IsInStep db s
    → IsInStep db' s'
IsInStep-Same db s db' s' (d, i, m, p) h = record {
  rows = rw (d, i, m, p) h.rows;
  within = rw (m, p) h.within;
}

log_new-Same :
    (db : Db) (s : Session) (ms : List Message) → Same db s (log_new db s ms).0 (log_new db s ms).1
unfolding log_new add_assistant_message add_tool_results
log_new-Same db s [] = (refl, refl, refl, refl)
log_new-Same db s (user u ∷ ms) = log_new-Same db s ms
log_new-Same db s (agent a ∷ ms) =
    let (d, i, m, p) =
      log_new-Same (add_assistant_message db s a true).0 (add_assistant_message db s a true).1 ms in
    (unfold append_event in d, i, m, p)
log_new-Same db s (tool_result rs ∷ ms) =
    let (d, i, m, p) =
      log_new-Same (add_tool_results db s rs true).0 (add_tool_results db s rs true).1 ms in
    (d ∙ log_results-messages db _ rs, i, m, p)

pub IsSynced-Same :
    (db : Db) (s : Session) (db' : Db) (s' : Session)
    → Same db s db' s'
    → IsSynced db s
    → IsSynced db' s'
IsSynced-Same db s db' s' (d, i, m, p) h = record {
  rows = rw (d, i, m) h.rows;
  count = rw (m, p) h.count;
}

pub if-persisted :
    (had_images : Bool) (i : ℕ) (ms : List Message)
    → map persisted (if had_images then strip_images i ms else ms) ≡ map persisted ms
if-persisted true i ms = strip_images-persisted i ms
if-persisted false i ms = refl

-- The persisting of a turn makes the rows equal to the messages.
pub persist_response-IsSynced :
    (had_images : Bool) (user_msg_idx msg_count_before : ℕ) (db : Db) (s : Session)
    → IsInStep db s
    → let (db', t) = persist_response had_images user_msg_idx msg_count_before db s in
      IsSynced db' t
unfolding persist_response
persist_response-IsSynced had_images user_msg_idx msg_count_before db s h =
    let (db', t) = log_new db s (drop msg_count_before s.messages) in
    save_state-IsSynced _ _ (
      IsInStep-images db' t _ (if-persisted had_images user_msg_idx t.messages)
        (IsInStep-Same db s db' t (log_new-Same db s (drop msg_count_before s.messages)) h))

pub check_compaction_warning-IsSynced :
    (threshold : ℕ) (warning : Text) (db : Db) (s : Session)
    → IsSynced db s
    → let (db', t) = check_compaction_warning threshold warning db s in IsSynced db' t
unfolding check_compaction_warning
check_compaction_warning-IsSynced threshold warning db s h =
    elim (Bool-cases (
      should_warn_context (last_input_tokens s) threshold (needs_compaction s threshold)
        s.warned_about_compaction)) [
          | inl warned ↦ rw warned (
              save_state-IsSynced db _ (
                IsInStep-Same db s db
                  (record s { pending_system_warning = warning; warned_about_compaction = true })
                  (refl, refl, refl, refl) (IsInStep-of_IsSynced db s h)))
          | inr calm ↦ rw calm h
        ]

take_warning-IsSynced :
    (db : Db) (s : Session) (consumed : Bool)
    → IsSynced db s
    → IsSynced (take_warning db s consumed).0 (take_warning db s consumed).1
unfolding take_warning
take_warning-IsSynced db s true h = save_state-IsSynced db _ (
    IsInStep-Same db s db (record s { pending_system_warning = [] }) (refl, refl, refl, refl)
      (IsInStep-of_IsSynced db s h))
take_warning-IsSynced db s false h = h

with_model-Same : (db : Db) (s : Session) (model : String) → Same db s db (with_model s model)
unfolding with_model
with_model-Same db s model =
    elim (Bool-cases (not (str_eq model "") && not (str_eq s.model model))) [
      | inl changed ↦ rw changed (refl, refl, refl, refl)
      | inr kept ↦ rw kept (refl, refl, refl, refl)
    ]

-- Closing a session, or not, leaves the rows of messages alone.
close_session-messages :
    (w : World) (key : String) → (close_session w key).0.db.messages ≡ w.db.messages
unfolding close_session close_found
close_session-messages w key = elim (Option-cases (find_active key w.db.sessions)) [
  | inl free ↦ rw free
  | inr (row, found) ↦ rw found
]

pub auto_close-messages :
    (talker : Talker) (forced preexisted : Bool) (w : World) (key : String)
    → (auto_close talker forced preexisted w key).db.messages ≡ w.db.messages
unfolding auto_close
auto_close-messages talker forced preexisted w key =
    elim (Bool-cases (is_ephemeral talker && (not forced && not preexisted))) [
      | inl closing ↦ rw closing (close_session-messages w key)
      | inr open_ ↦ rw open_
    ]

-- What the set-up of a message leaves: a session that took the message, or one that refuses it.
abbrev pub Ready : String → World × Option Session → Type 0
Ready key (w, none) =
    (s : Session) × (lookup key w.loaded ≡ some s)
    × (ends_with_user s.messages ≡ true)
    × IsSynced w.db s
Ready key (w, some s) = IsSynced w.db s

after_user_message-Ready :
    (w : World) (key : String) (db : Db) (s : Session) (blocks : List Json) (text : Text)
    (sender source : String)
    → IsSynced db s
    → Ready key (after_user_message w key db s blocks (add_user_message db s text sender source))
unfolding after_user_message put_session
after_user_message-Ready w key db s blocks text sender source h =
    elim (Option-cases (add_user_message db s text sender source)) [
      | inl no_room ↦ rw no_room (
        s,
        simp (lookup-insert, eq_refl),
        add_user_message-refuses db s text sender source no_room,
        h,
      )
      | inr ((db', t), took) ↦
          let (synced, _, _, _) =
            add_user_message-IsSynced db s text sender source (IsInStep-of_IsSynced db s h) took in
          rw took (IsSynced-images db' t _ (inject_images-persisted blocks t.messages) synced)
    ]

pub setup_session-Ready :
    (w : World) (m : Inbound)
    → IsSynced
        (get_or_create w m.fresh m.key m.model).0.db
        (get_or_create w m.fresh m.key m.model).1
    → Ready m.key (setup_session w m)
unfolding setup_session
setup_session-Ready w m h =
    let (w', found) = get_or_create w m.fresh m.key m.model in
    let s = with_model found m.model in
    let (text, consumed) = inject_warning m.text s.pending_system_warning in
    let cleared =
      take_warning-IsSynced w'.db s consumed
        (IsSynced-Same w'.db found w'.db s (with_model-Same w'.db found m.model) h) in
    let (db, t) = take_warning w'.db s consumed in
    after_user_message-Ready w' m.key db (record t { trace_id = m.trace_id }) m.image_blocks
      (stamped_text m text) m.sender m.source
      (IsSynced-Same db t db (record t { trace_id = m.trace_id }) (refl, refl, refl, refl) cleared)
