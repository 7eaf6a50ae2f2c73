-- ===== src/Session/Sync.antt =====
-- session.py: the rows of a session in sessions.messages against its messages in memory.
use lucyd.Base.{
  drop-append, subst, str_eq, some_inj, ℕ, ◌+◌, ◌≤◌, String, Text, ◌≡◌, ◌∙◌, sym, refl, ap, false,
  some, List, [], ◌∷◌, ◌++◌, map, map-append, arith, length, take, drop, take-append-drop, take_all,
  length-take, length-map, take-append_le, length-append, Bool-cases, inl, inr,
}
use lucyd.Message.{Message, user_text, persisted}
use lucyd.Store.{
  find_session, SessionRow, Db, Event, rows_of, rows_from, select_contents, order_by_ordinal,
  contents,
}
use lucyd.Store.Rows.{
  rows_of-append, rows_of-rows_from, rows_of-delete_all, rows_from-append, contents-order-rows_from,
}
use lucyd.Session.{
  Session, load, ends_with_user, save_state, replace_all_messages, append_event, save_session_meta,
  add_user_message,
}

-- The rows are the messages, in order, with ordinals from 0.
pub record IsSynced (db : Db) (s : Session) : Type 0 where
  pub rows : rows_of s.id db.messages ≡ rows_from s.id 0 (map persisted s.messages)
  pub count : s.persisted_count ≡ length s.messages

-- The rows are the messages up to `persisted_count`: what `save_state` relies on.
pub record IsInStep (db : Db) (s : Session) : Type 0 where
  pub rows :
      rows_of s.id db.messages
      ≡ rows_from s.id 0 (map persisted (take s.persisted_count s.messages))
  pub within : s.persisted_count ≤ length s.messages

pub IsInStep-of_IsSynced : (db : Db) (s : Session) → IsSynced db s → IsInStep db s
IsInStep-of_IsSynced db s h = record {
  rows =
      h.rows
      ∙ ap (λ ms. rows_from s.id 0 (map persisted ms))
          (sym (take_all s.persisted_count s.messages (omega arith)));
  within = omega arith;
}

-- What a `save_state` writes after the rows of the first `n` messages completes the list.
rows_from-split :
    (id : String) (n : ℕ) (ms : List Message)
    → n ≤ length ms
    → rows_from id 0 (map persisted (take n ms)) ++ rows_from id n (map persisted (drop n ms))
      ≡ rows_from id 0 (map persisted ms)
rows_from-split id n ms h =
    let e : 0 + length (map persisted (take n ms)) ≡ n =
      omega (arith, length-map persisted (take n ms), length-take n ms) in
    ap
      (λ (k : ℕ).
        rows_from id 0 (map persisted (take n ms)) ++ rows_from id k (map persisted (drop n ms)))
      (sym e)
    ∙ sym (rows_from-append id 0 (map persisted (take n ms)) (map persisted (drop n ms)))
    ∙ ap (rows_from id 0) (sym (map-append persisted (take n ms) (drop n ms)))
    ∙ ap (λ l. rows_from id 0 (map persisted l)) (take-append-drop n ms)

-- From rows that are the first `persisted_count` messages, save_state makes the rows equal all the
-- messages.
pub save_state-IsSynced :
    (db : Db) (s : Session) → IsInStep db s → IsSynced (save_state db s).0 (save_state db s).1
unfolding save_state
save_state-IsSynced db s h = record {
  rows =
      rows_of-append s.id db.messages
        (rows_from s.id s.persisted_count (map persisted (drop s.persisted_count s.messages)))
      ∙ ap (λ l. rows_of s.id db.messages ++ l)
          (rows_of-rows_from s.id s.persisted_count
            (map persisted (drop s.persisted_count s.messages)))
      ∙ ap
          (λ l.
            l
            ++ rows_from s.id s.persisted_count (map persisted (drop s.persisted_count s.messages)))
          h.rows
      ∙ rows_from-split s.id s.persisted_count s.messages h.within;
  count = refl;
}

-- replace_all_messages does so from any state of the table.
pub replace_all_messages-IsSynced :
    (db : Db) (s : Session) → IsSynced (replace_all_messages db s).0 (replace_all_messages db s).1
unfolding replace_all_messages
replace_all_messages-IsSynced db s = record {
  rows = simp (rows_of-append, rows_of-delete_all, rows_of-rows_from);
  count = refl;
}

-- Messages appended in memory leave the rows in step.
pub append-IsInStep :
    (db : Db) (s : Session) (ms : List Message)
    → IsInStep db s
    → IsInStep db (record s { messages = s.messages ++ ms })
append-IsInStep db s ms h = record {
  rows =
      h.rows
      ∙ ap (λ l. rows_from s.id 0 (map persisted l))
          (sym (take-append_le s.persisted_count s.messages ms h.within));
  within = omega (arith, length-append s.messages ms);
}

-- If add_user_message accepts a text for a session in step with its rows, then the messages did not
-- end in a user message, the text is appended to them, the session is the same one and the rows equal
-- the messages.
pub add_user_message-IsSynced :
    (db : Db) (s : Session) (text : Text) (sender source : String) {db' : Db} {s' : Session}
    → IsInStep db s
    → add_user_message db s text sender source ≡ some (db', s')
    → IsSynced db' s'
      × (s'.id ≡ s.id)
      × (s'.messages ≡ s.messages ++ user_text text ∷ [])
      × (ends_with_user s.messages ≡ false)
unfolding add_user_message
add_user_message-IsSynced db s text sender source {db'} {s'} h e =
    let t : Session = record s { messages = s.messages ++ user_text text ∷ [] } in
    let logged : Db = append_event db t (Event.user_message text sender source) in
    elim (Bool-cases (ends_with_user s.messages)) [
      | inl refused ↦ cc (refused)
      | inr accepted ↦
          let saved : save_state logged t ≡ (db', s') = some_inj (rw accepted at e) in
          let ready : IsInStep logged t =
            append-IsInStep logged s (user_text text ∷ [])
              (record { rows = h.rows; within = h.within }) in
          (
            subst (λ (p : Db × Session). IsSynced p.0 p.1) saved
                (save_state-IsSynced logged t ready),
            sym (ap (λ (p : Db × Session). p.1.id) saved),
            sym (ap (λ (p : Db × Session). p.1.messages) saved),
            accepted,
          )
    ]

-- What load reads from synced rows.
pub select-IsSynced :
    (db : Db) (s : Session) → IsSynced db s → select_contents db s.id ≡ map persisted s.messages
unfolding select_contents
select-IsSynced db s h =
    ap (λ l. contents (order_by_ordinal l)) h.rows
    ∙ contents-order-rows_from s.id 0 (map persisted s.messages)

find_session-save_session_meta :
    (s : Session) (rows : List SessionRow) {row : SessionRow}
    → find_session s.id rows ≡ some row
    → find_session s.id (save_session_meta s rows)
      ≡ some (record row {
        model = s.model;
        total_input_tokens = s.total_input_tokens;
        total_output_tokens = s.total_output_tokens;
        compaction_count = s.compaction_count;
        warned_about_compaction = s.warned_about_compaction;
        pending_system_warning = s.pending_system_warning;
      })
unfolding find_session save_session_meta
find_session-save_session_meta s [] h = cc
find_session-save_session_meta s (r ∷ rows) h = elim (Bool-cases (str_eq r.id s.id)) [
  | inl here ↦ rw (here, here) (ground (arith))
  | inr there ↦ rw (there, there) (find_session-save_session_meta s rows (rw there at h))
]

load_found :
    (db : Db) (t : Session) {row : SessionRow} {ms : List Message}
    → find_session t.id db.sessions ≡ some row
    → select_contents db t.id ≡ ms
    → load db t
      ≡ some (record t {
        model = row.model;
        contact = row.contact;
        total_input_tokens = row.total_input_tokens;
        total_output_tokens = row.total_output_tokens;
        compaction_count = row.compaction_count;
        warned_about_compaction = row.warned_about_compaction;
        pending_system_warning = row.pending_system_warning;
        messages = ms;
        persisted_count = length ms;
      })
unfolding load
load_found db t found selected = rw (found, selected)

-- After a save of a session that was in step with its rows and has a session row, load finds it again:
-- the messages less their transient keys, the model, the totals and the flags; the contact is the
-- row's, the trace id that of the loading process.
pub load-save_state :
    (db : Db) (s t : Session) {row : SessionRow}
    → IsInStep db s
    → find_session s.id db.sessions ≡ some row
    → t.id ≡ s.id
    → load (save_state db s).0 t
      ≡ some (record s {
        contact = row.contact;
        messages = map persisted s.messages;
        trace_id = t.trace_id;
        persisted_count = length s.messages;
      })
load-save_state db s t {row} h found same =
    let synced : IsSynced (save_state db s).0 (save_state db s).1 = save_state-IsSynced db s h in
    let saved_row : SessionRow = record row {
      model = s.model;
      total_input_tokens = s.total_input_tokens;
      total_output_tokens = s.total_output_tokens;
      compaction_count = s.compaction_count;
      warned_about_compaction = s.warned_about_compaction;
      pending_system_warning = s.pending_system_warning;
    } in
    load_found (save_state db s).0 t {row = saved_row} {ms = map persisted s.messages}
      (rw same (unfold save_state in find_session-save_session_meta s db.sessions found))
      (rw same
        (unfold save_state in select-IsSynced (save_state db s).0 (save_state db s).1 synced))
    ∙ rw (same, length-map)

-- The rows that add_user_message inserts, whatever the rows are.
pub add_user_message-rows :
    (db : Db) (s : Session) (text : Text) (sender source : String) {db' : Db} {s' : Session}
    → s.persisted_count ≡ length s.messages
    → add_user_message db s text sender source ≡ some (db', s')
    → rows_of s.id db'.messages
      ≡ rows_of s.id db.messages
        ++ rows_from s.id (length s.messages) (persisted (user_text text) ∷ [])
unfolding add_user_message
add_user_message-rows db s text sender source {db'} {s'} count e =
    elim (Bool-cases (ends_with_user s.messages)) [
      | inl refused ↦ cc refused
      | inr accepted ↦
          sym (ap (λ (p : Db × Session). rows_of s.id p.0.messages) (some_inj (rw accepted at e)))
          ∙ unfold save_state append_event in
            rw (count, drop-append) (rw (rows_of-append, rows_of-rows_from))
    ]
