-- ===== src/Session/Compact/Keeps.antt =====
-- session.py, `compact_session`: what a compaction keeps of a session.
use lucyd.Base.{
  ℕ, ◌+◌, Text, ◌≡◌, sym, refl, ap, subst, ◌≢◌, ◌⊎◌, inl, inr, false, Option, none, some, arith,
  length, take, drop, get_last?, ltb, Bool-cases,
}
use lucyd.Message.{Message, Json, Usage, is_tool_result, calls_tools}
use lucyd.Store.{Db}
use lucyd.Session.{Session, needs_compaction}
use lucyd.Session.Sync.{IsSynced, replace_all_messages-IsSynced}
use lucyd.Session.Turns.{IsPaired, plain}
use lucyd.Session.Compact.Cut.{
  drop-skip_results, skip_rest-drop-IsPaired, map-without_usage-IsPaired, last_usage-without_usage,
}
use lucyd.Session.Compact.{
  skip_results, is_blank, summary_prompt, transcript, split_point, finish, summarised, or_empty,
  replace_old, compact_session,
}

finish-cases :
    (db : Db) (s : Session) (k : ℕ) (o : Option (Option Text × Usage))
    → (finish db s k o ≡ (db, s))
      ⊎ ((reply : Option Text × Usage) × (finish db s k o ≡ replace_old db s k reply))
unfolding finish
finish-cases db s k none = inl refl
finish-cases db s k (some reply) = inr (reply, refl)

replace_old-IsSynced :
    (db : Db) (s : Session) (k : ℕ) (reply : Option Text × Usage)
    → IsSynced (replace_old db s k reply).0 (replace_old db s k reply).1
unfolding replace_old
replace_old-IsSynced db s k (text, usage) =
    let r = replace_all_messages-IsSynced db (summarised s k (or_empty text)) in
    record { rows = r.rows; count = r.count }

replace_old-IsPaired :
    (db : Db) (s : Session) (k : ℕ) (reply : Option Text × Usage)
    → IsPaired (drop k s.messages)
    → IsPaired (replace_old db s k reply).1.messages
unfolding replace_old calls_tools is_tool_result
replace_old-IsPaired db s k (text, usage) p =
    plain refl refl (plain refl refl (map-without_usage-IsPaired p))

-- `t` comes of `s` by one compaction, and is below every threshold.
abbrev pub Settles : Session → Session → ℕ → Type 0
Settles s t threshold =
    (needs_compaction t threshold ≡ false)
    × (t.compaction_count ≡ s.compaction_count + 1)
    × (t.warned_about_compaction ≡ false)

replace_old-Settles :
    (db : Db) (s : Session) (k threshold : ℕ) (reply : Option Text × Usage)
    → Settles s (replace_old db s k reply).1 threshold
unfolding replace_old needs_compaction
replace_old-Settles db s k threshold (text, usage) =
    (rw (last_usage-without_usage (drop k s.messages)) (ground arith), refl, refl)

module _ (str_args : Json → Text) (split_at : ℕ → ℕ)
    (complete : Text → Option (Option Text × Usage)) (min_messages limit : ℕ) (prompt : Text) where
  -- the session that a compaction leaves
  abbrev compacted : Db → Session → Db × Session
  compacted db s = compact_session str_args split_at complete min_messages limit prompt db s

  pub compact_session-cases :
      (db : Db) (s : Session)
      → (compacted db s ≡ (db, s))
        ⊎ ((reply : Option Text × Usage) × (compacted db s
              ≡ replace_old db s (split_point split_at s.messages) reply))
  unfolding compact_session
  compact_session-cases db s = elim (Bool-cases (ltb (length s.messages) min_messages)) [
    | inl short ↦ inl (rw short)
    | inr long ↦
        let conversation =
          transcript str_args limit (take (split_point split_at s.messages) s.messages) in
        elim (Bool-cases (is_blank conversation)) [
          | inl blank ↦ inl (unfold is_blank in rw (long, blank))
          | inr told ↦
              unfold is_blank in
              rw (long, told)
                (finish-cases db s (split_point split_at s.messages)
                  (complete (summary_prompt prompt conversation)))
        ]
  ]

  -- A compaction of a session whose rows equal its messages, whether it goes through, is skipped or
  -- fails, keeps them equal.
  pub compact_session-IsSynced :
      (db : Db) (s : Session) → IsSynced db s → IsSynced (compacted db s).0 (compacted db s).1
  compact_session-IsSynced db s h = elim (compact_session-cases db s) [
    | inl same ↦ subst (λ (p : Db × Session). IsSynced p.0 p.1) (sym same) h
    | inr (reply, e) ↦
        subst (λ (p : Db × Session). IsSynced p.0 p.1) (sym e)
          (replace_old-IsSynced db s (split_point split_at s.messages) reply)
  ]

  -- A compaction of a well-paired session that does not end in a tool result leaves it well paired:
  -- no tool call is cut off from its results.
  pub compact_session-IsPaired :
      (db : Db) (s : Session)
      → IsPaired s.messages
      → ((r : Message) → get_last? s.messages ≡ some r → is_tool_result r ≡ false)
      → IsPaired (compacted db s).1.messages
  unfolding split_point skip_results
  compact_session-IsPaired db s p last = elim (compact_session-cases db s) [
    | inl same ↦ subst (λ (q : Db × Session). IsPaired q.1.messages) (sym same) p
    | inr (reply, e) ↦
        subst (λ (q : Db × Session). IsPaired q.1.messages) (sym e)
          (replace_old-IsPaired db s (split_point split_at s.messages) reply (
            subst IsPaired
              (sym (
                drop-skip_results (split_at (length s.messages)) s.messages
                  (drop (split_at (length s.messages)) s.messages) refl))
              (skip_rest-drop-IsPaired (split_at (length s.messages)) s.messages p last)))
  ]

  -- A compaction that changed the session leaves one that is below the threshold, has not been warned,
  -- and counts one compaction more.
  pub compact_session-Settles :
      (db : Db) (s : Session) (threshold : ℕ)
      → ((compacted db s).1 ≢ s)
      → Settles s (compacted db s).1 threshold
  compact_session-Settles db s threshold changed = elim (compact_session-cases db s) [
    | inl same ↦ absurd (changed (ap (λ (q : Db × Session). q.1) same))
    | inr (reply, e) ↦
        subst (λ (q : Db × Session). Settles s q.1 threshold) (sym e)
          (replace_old-Settles db s (split_point split_at s.messages) threshold reply)
  ]
