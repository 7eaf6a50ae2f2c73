-- ===== src/Session/Isolation.antt =====
-- session.py: the statements of one session and the rows of the others.
use lucyd.Base.{
  ◌-◌, String, ◌≡◌, false, map, append-nil, length, drop, Bool-cases, inl, inr, str_eq,
}
use lucyd.Message.{persisted}
use lucyd.Store.{Db, rows_of}
use lucyd.Store.Rows.{
  rows_of-append, rows_of-rows_from_ne, rows_of-delete_all_ne, rows_of-delete_ordinal_ne,
}
use lucyd.Session.{
  Session, ends_with_user, repair_trailing_user_orphan, save_state, replace_all_messages,
}

module _ (db : Db) (s : Session) (j : String) (other : str_eq s.id j ≡ false) where
  save_state-others : rows_of j (save_state db s).0.messages ≡ rows_of j db.messages
  unfolding save_state
  save_state-others = simp (
    rows_of-append,
    rows_of-rows_from_ne s.id j s.persisted_count
        (map persisted (drop s.persisted_count s.messages)) other,
    append-nil,
  )

  replace_all_messages-others :
      rows_of j (replace_all_messages db s).0.messages ≡ rows_of j db.messages
  unfolding replace_all_messages
  replace_all_messages-others = simp (
    rows_of-append,
    rows_of-rows_from_ne s.id j 0 (map persisted s.messages) other,
    append-nil,
    rows_of-delete_all_ne s.id j db.messages other,
  )

  repair-others : rows_of j (repair_trailing_user_orphan db s).0.messages ≡ rows_of j db.messages
  unfolding repair_trailing_user_orphan
  repair-others = elim (Bool-cases (ends_with_user s.messages)) [
    | inl orphan ↦
        rw orphan (rows_of-delete_ordinal_ne s.id j (length s.messages - 1) db.messages other)
    | inr whole ↦ rw whole
  ]

  -- Saving, rewriting or repairing a session leaves the message rows of a session with another id
  -- alone.
  pub isolation :
      (rows_of j (save_state db s).0.messages ≡ rows_of j db.messages)
      × (rows_of j (replace_all_messages db s).0.messages ≡ rows_of j db.messages)
      × (rows_of j (repair_trailing_user_orphan db s).0.messages ≡ rows_of j db.messages)
  isolation = (save_state-others, replace_all_messages-others, repair-others)
