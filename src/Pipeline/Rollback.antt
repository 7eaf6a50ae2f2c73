-- ===== src/Pipeline/Rollback.antt =====
-- pipeline.py, `_handle_agentic_error`: the session after a failed agentic loop.
use lucyd.Base.{
  ◌+◌, String, Text, ◌≡◌, ◌∙◌, refl, ap, true, false, some, List, [], ◌∷◌, ◌++◌, map, append-nil,
  length, drop, arith, length-append, take-append, drop_all, drop_last-append,
}
use lucyd.Message.{Message, persisted, is_user, user_text}
use lucyd.Store.{Db, rows_of, rows_from}
use lucyd.Session.{Session, ends_with_user, save_state, add_user_message}
use lucyd.Session.Sync.{add_user_message-rows}
use lucyd.Session.Repair.{ends_with_user-append}
use lucyd.Pipeline.{handle_agentic_error, rolled_back}

-- Rolling back to a user message drops it and everything that the loop added.
pub rolled_back-append :
    (base ext : List Message) (m : Message)
    → is_user m ≡ true
    → rolled_back (length base + 1) ((base ++ m ∷ []) ++ ext) ≡ base
unfolding rolled_back
rolled_back-append base ext m u =
    let n : length base + 1 ≡ length (base ++ m ∷ []) =
      omega (arith, length-append base (m ∷ [])) in
    rw (n, take-append, ends_with_user-append, u) (drop_last-append base m)

-- A turn whose loop failed: `base` are the messages before it, `m` is its user message, `ext` is what
-- the loop had added in memory.
module _ (db : Db) (s : Session) (base ext : List Message) (m : Message)
    (turn : s.messages ≡ (base ++ m ∷ []) ++ ext) (by_user : is_user m ≡ true) where
  abbrev failed : Db × Session
  failed = handle_agentic_error false (length base) (length base + 1) db s

  -- After a failed loop of a turn that began with a user message, the messages in memory are those
  -- from before the turn, so that the next user message is accepted if they do not end in one.
  pub handle_agentic_error-messages :
      (failed.1.messages ≡ base) × (ends_with_user failed.1.messages ≡ ends_with_user base)
  unfolding handle_agentic_error save_state
  handle_agentic_error-messages =
      let e = ap (rolled_back (length base + 1)) turn ∙ rolled_back-append base ext m by_user in
      (e, ap ends_with_user e)

  left : rolled_back (length base + 1) s.messages ≡ base
  left = ap (rolled_back (length base + 1)) turn ∙ rolled_back-append base ext m by_user

  nothing_new :
      s.persisted_count ≡ length base + 1
      → drop s.persisted_count (rolled_back (length base + 1) s.messages) ≡ []
  nothing_new count = rw left (drop_all s.persisted_count base (omega arith))

  -- If the user message was persisted, as add_user_message does, its row stays behind: the rows of the
  -- session are still those of the failed turn.
  pub handle_agentic_error-rows :
      rows_of s.id db.messages ≡ rows_from s.id 0 (map persisted (base ++ m ∷ []))
      → s.persisted_count ≡ length base + 1
      → rows_of s.id failed.0.messages ≡ rows_from s.id 0 (map persisted (base ++ m ∷ []))
  unfolding handle_agentic_error save_state
  handle_agentic_error-rows rows count =
      ap
        (λ (l : List Message).
          rows_of s.id (db.messages ++ rows_from s.id s.persisted_count (map persisted l)))
        (nothing_new count)
      ∙ ap (rows_of s.id) (append-nil db.messages)
      ∙ rows

  -- If the rows of the session were those up to the user message of a failed turn, they still hold it
  -- after the rollback, and a user message that is accepted next is stored after it with its ordinal,
  -- the number of messages before it.
  pub next_message-rows :
      (text : Text) (sender source : String) {db' : Db} {s' : Session}
      → rows_of s.id db.messages ≡ rows_from s.id 0 (map persisted (base ++ m ∷ []))
      → s.persisted_count ≡ length base + 1
      → add_user_message failed.0 failed.1 text sender source ≡ some (db', s')
      → rows_of s.id db'.messages
        ≡ rows_from s.id 0 (map persisted (base ++ m ∷ []))
          ++ rows_from s.id (length base) (persisted (user_text text) ∷ [])
  unfolding handle_agentic_error save_state
  next_message-rows text sender source {db'} {s'} rows count added =
      add_user_message-rows failed.0 failed.1 text sender source refl added
      ∙ ap (λ l. l ++ rows_from s.id (length failed.1.messages) (persisted (user_text text) ∷ []))
          (handle_agentic_error-rows rows count)
      ∙ ap
          (λ (l : List Message).
            rows_from s.id 0 (map persisted (base ++ m ∷ []))
            ++ rows_from s.id (length l) (persisted (user_text text) ∷ []))
          left
