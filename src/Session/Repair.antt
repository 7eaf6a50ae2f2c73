-- ===== src/Session/Repair.antt =====
-- session.py, `repair_trailing_user_orphan`: what a restart after a crash inside the agentic loop
-- finds, and what it leaves.
use lucyd.Base.{
  ◌+◌, ◌-◌, String, Text, ◌≡◌, ◌∙◌, sym, refl, ap, subst, true, false, Option, none, some, List, [],
  ◌∷◌, ◌++◌, map, map-append, arith, length, get_last?, drop_last, get_last?-append,
  drop_last-append, length-map, append-drop_last, length-append, Bool-cases, Option-cases, inl, inr,
  some_inj,
}
use lucyd.Message.{Message, user, agent, tool_result, user_text, persisted, is_user}
use lucyd.Store.{Db, SessionRow, find_session, select_contents, rows_of, rows_from, delete_ordinal}
use lucyd.Store.Rows.{rows_of-delete_ordinal, delete_ordinal-last}
use lucyd.Session.{
  Session, restore, load, ends_with_user, repair_trailing_user_orphan, add_user_message,
}
use lucyd.Session.Sync.{IsSynced, IsInStep, select-IsSynced, add_user_message-IsSynced}

persisted_idem : (m : Message) → persisted (persisted m) ≡ persisted m
unfolding persisted
persisted_idem (user u) = refl
persisted_idem (agent a) = refl
persisted_idem (tool_result rs) = refl

pub map-persisted_idem : (ms : List Message) → map persisted (map persisted ms) ≡ map persisted ms
map-persisted_idem [] = refl
map-persisted_idem (m ∷ ms) = cc (persisted_idem m, map-persisted_idem ms)

is_user-persisted : (m : Message) → is_user (persisted m) ≡ is_user m
unfolding is_user persisted
is_user-persisted (user u) = refl
is_user-persisted (agent a) = refl
is_user-persisted (tool_result rs) = refl

pub ends_with_user-persisted :
    (ms : List Message) → ends_with_user (map persisted ms) ≡ ends_with_user ms
unfolding ends_with_user
ends_with_user-persisted [] = refl
ends_with_user-persisted (m ∷ []) = unfold is_user persisted in is_user-persisted m
ends_with_user-persisted (m ∷ n ∷ ms) = ends_with_user-persisted (n ∷ ms)

pub ends_with_user-append :
    (ms : List Message) (m : Message) → ends_with_user (ms ++ m ∷ []) ≡ is_user m
unfolding ends_with_user
ends_with_user-append ms m = rw get_last?-append

pub ends_with_user-last :
    (ms : List Message)
    → ends_with_user ms ≡ true
    → (m : Message) × (drop_last ms ++ m ∷ [] ≡ ms) × (is_user m ≡ true)
unfolding ends_with_user
ends_with_user-last ms h = elim (Option-cases (get_last? ms)) [
  | inl e ↦ cc (e)
  | inr (m, e) ↦ (m, append-drop_last ms e, rw e at h)
]

delete_ordinal-front :
    (id : String) (front : List Message) (m : Message)
    → delete_ordinal id
        (length (front ++ m ∷ []) - 1)
        (rows_from id 0 (map persisted (front ++ m ∷ [])))
      ≡ rows_from id 0 (map persisted front)
delete_ordinal-front id front m =
    let k : length (front ++ m ∷ []) - 1 ≡ 0 + length (map persisted front) =
      omega (arith, length-append front (m ∷ []), length-map persisted front) in
    rw (k, map-append) (delete_ordinal-last id 0 (map persisted front) (persisted m))

delete_ordinal-orphan :
    (id : String) (ms : List Message)
    → ends_with_user ms ≡ true
    → delete_ordinal id (length ms - 1) (rows_from id 0 (map persisted ms))
      ≡ rows_from id 0 (map persisted (drop_last ms))
delete_ordinal-orphan id ms h =
    let (m, e, _) = ends_with_user-last ms h in
    subst
      (λ (l : List Message).
        delete_ordinal id (length l - 1) (rows_from id 0 (map persisted l))
        ≡ rows_from id 0 (map persisted (drop_last ms)))
      e (delete_ordinal-front id (drop_last ms) m)

-- The repair of a session whose rows equal its messages keeps them equal, whether or not there was an
-- orphan.
pub repair-IsSynced :
    (db : Db) (s : Session)
    → IsSynced db s
    → IsSynced (repair_trailing_user_orphan db s).0 (repair_trailing_user_orphan db s).1
unfolding repair_trailing_user_orphan
repair-IsSynced db s h = elim (Bool-cases (ends_with_user s.messages)) [
  | inl orphan ↦ rw orphan (record {
    rows =
        rows_of-delete_ordinal s.id (length s.messages - 1) db.messages
        ∙ ap (delete_ordinal s.id (length s.messages - 1)) h.rows
        ∙ delete_ordinal-orphan s.id s.messages orphan;
    count = refl;
  })
  | inr whole ↦ rw whole h
]

-- A session whose messages end in one user message loses that message, and ends in no other.
repair-drops :
    (db : Db) (s : Session) (ms : List Message) (m : Message)
    → s.messages ≡ ms ++ m ∷ []
    → is_user m ≡ true
    → let (db', s', repaired) = repair_trailing_user_orphan db s in
      (s'.messages ≡ ms) × (repaired ≡ true)
unfolding repair_trailing_user_orphan
repair-drops db s ms m e u =
    let orphan : ends_with_user s.messages ≡ true = rw (e, ends_with_user-append ms m) u in
    (rw orphan (rw e (drop_last-append ms m)), rw orphan refl)

repair-id : (db : Db) (s : Session) → (repair_trailing_user_orphan db s).1.id ≡ s.id
unfolding repair_trailing_user_orphan
repair-id db s = elim (Bool-cases (ends_with_user s.messages)) [
  | inl orphan ↦ rw orphan
  | inr whole ↦ rw whole
]

restored :
    (o : Option SessionRow) (ms : List Message) (t : Session) {u : Session}
    → restore o ms t ≡ some u
    → (u.id ≡ t.id) × (u.messages ≡ ms) × (u.persisted_count ≡ length ms)
unfolding restore
restored none ms t h = cc
restored (some row) ms t h =
    let e = some_inj h in
    (
      sym (ap (λ (s : Session). s.id) e),
      sym (ap (λ (s : Session). s.messages) e),
      sym (ap (λ (s : Session). s.persisted_count) e),
    )

load-restored :
    (db : Db) (t : Session) {u : Session}
    → load db t ≡ some u
    → (u.id ≡ t.id)
      × (u.messages ≡ select_contents db t.id)
      × (u.persisted_count ≡ length (select_contents db t.id))
unfolding load
load-restored db t h = restored (find_session t.id db.sessions) (select_contents db t.id) t h

-- What load reads from synced tables is in step with them.
pub load-IsSynced :
    (db : Db) (s t : Session) {u : Session}
    → IsSynced db s
    → t.id ≡ s.id
    → load db t ≡ some u
    → IsSynced db u × (u.id ≡ s.id) × (u.messages ≡ map persisted s.messages)
load-IsSynced db s t {u} h same loaded =
    let (i, m, c) = load-restored db t loaded in
    let id_eq : u.id ≡ s.id = i ∙ same in
    let read : u.messages ≡ map persisted s.messages =
      m ∙ ap (select_contents db) same ∙ select-IsSynced db s h in
    (
      record { rows = rw (id_eq, read, map-persisted_idem) h.rows; count = c ∙ ap length (sym m) },
      id_eq,
      read,
    )

-- The daemon dies in the agentic loop, after add_user_message accepted a message for a session in step
-- with its rows. A new process that loads the session and repairs it has the messages and the rows
-- from before that message, less the transient keys, and would accept the next user message.
pub crash_recovery :
    (db : Db) (s t : Session) (text : Text) (sender source : String) {db' : Db} {s' u : Session}
    → IsInStep db s
    → add_user_message db s text sender source ≡ some (db', s')
    → t.id ≡ s.id
    → load db' t ≡ some u
    → let (db'', u', repaired) = repair_trailing_user_orphan db' u in
      (repaired ≡ true)
      × (u'.messages ≡ map persisted s.messages)
      × (rows_of s.id db''.messages ≡ rows_from s.id 0 (map persisted s.messages))
      × (ends_with_user u'.messages ≡ false)
crash_recovery db s t text sender source {db'} {s'} {u} h added same loaded =
    let (synced, id', appended, open_turn) =
      add_user_message-IsSynced db s text sender source h added in
    let (ready, id_eq, read) = load-IsSynced db' s' t synced (same ∙ sym id') loaded in
    let last : u.messages ≡ map persisted s.messages ++ persisted (user_text text) ∷ [] =
      read ∙ ap (map persisted) appended ∙ map-append persisted s.messages (user_text text ∷ []) in
    let (kept, repaired) =
      repair-drops db' u (map persisted s.messages) (persisted (user_text text)) last
        (is_user-persisted (user_text text) ∙ unfold user_text is_user in refl) in
    let after = repair-IsSynced db' u ready in
    let same_id : (repair_trailing_user_orphan db' u).1.id ≡ s.id = repair-id db' u ∙ id_eq ∙ id' in
    (
      repaired,
      kept,
      rw same_id at (rw (kept, map-persisted_idem) at after.rows),
      ap ends_with_user kept ∙ ends_with_user-persisted s.messages ∙ open_turn,
    )
