-- ===== src/Examples/Sessions.antt =====
-- The theorems on sessions, applied to ann's session.
use lucyd.Base.{
  ◌≡◌, ◌≢◌, subst, some_inj, refl, ap, arith, ◌/◌, true, false, none, some, [], ◌∷◌, ◌++◌, map, lit,
  get_last?,
}
use lucyd.Message.{Message, no_usage, persisted, user_text, is_user, is_tool_result, calls_tools}
use lucyd.Store.{Db, rows_of, rows_from, find_session}
use lucyd.Session.{
  Session, new_session, load, save_state, add_user_message, ends_with_user,
  repair_trailing_user_orphan, replace_all_messages, append_event, save_session_meta, corruptions,
  restore, needs_compaction,
}
use lucyd.Session.Turns.{IsPaired, nil, plain, pair}
use lucyd.Session.Sync.{IsSynced, IsInStep, IsInStep-of_IsSynced, load-save_state}
use lucyd.Session.Repair.{crash_recovery}
use lucyd.Session.Compact.{compact_session}
use lucyd.Session.Compact.Keeps.{compact_session-IsPaired}
use lucyd.Pipeline.{handle_agentic_error}
use lucyd.Pipeline.Rollback.{next_message-rows}
use lucyd.Examples.{hi, hello as hello_message, asks, answers, holding, tables, ann, stored}

ann-IsSynced : IsSynced tables ann
unfolding rows_of rows_from persisted
ann-IsSynced = record { rows = refl; count = refl }

ann-IsInStep : IsInStep tables ann
ann-IsInStep = IsInStep-of_IsSynced tables ann ann-IsSynced

-- ann asks a question
abbrev asked : Db × Session
asked = elim (add_user_message tables ann (lit "more?") "ann" "http") [
  | some p ↦ p
  | none ↦ (tables, ann)
]

abbrev again : Session
again = new_session "s1" "m" "ann"

abbrev read : Session
read = elim (load asked.0 again) [ some u ↦ u | none ↦ again ]

asked_lem : add_user_message tables ann (lit "more?") "ann" "http" ≡ some asked
unfolding add_user_message ends_with_user is_user
asked_lem = refl

read_lem : load asked.0 again ≡ some read
unfolding add_user_message ends_with_user is_user load save_state find_session new_session
read_lem = refl

crash_recovery_example :
    let (db'', u', repaired) = repair_trailing_user_orphan asked.0 read in
    (repaired ≡ true)
    × (u'.messages ≡ map persisted ann.messages)
    × (rows_of "s1" db''.messages ≡ rows_from "s1" 0 (map persisted ann.messages))
    × (ends_with_user u'.messages ≡ false)
unfolding new_session
crash_recovery_example =
    crash_recovery tables ann again (lit "more?") "ann" "http" ann-IsInStep asked_lem refl read_lem

load-save_state_example :
    load (save_state tables ann).0 again
    ≡ some (record ann {
      contact = "ann";
      messages = map persisted ann.messages;
      trace_id = again.trace_id;
      persisted_count = 2;
    })
unfolding find_session new_session
load-save_state_example = load-save_state tables ann again ann-IsInStep refl refl

abbrev compacting : Db → Session → Db × Session
compacting db s =
    compact_session (λ a. lit "{}") (λ n. n / 2) (λ t. some (some (lit "ann said hi"), no_usage)) 2
      100 (lit "Sum up.") db s

with_tools : IsPaired (hi ∷ asks ∷ answers ∷ hello_message ∷ [])
unfolding calls_tools is_tool_result
with_tools = plain refl refl (pair refl refl (plain refl refl nil))

ends_plainly :
    (r : Message)
    → get_last? (hi ∷ asks ∷ answers ∷ hello_message ∷ []) ≡ some r
    → is_tool_result r ≡ false
unfolding is_tool_result
ends_plainly r h = subst (λ (m : Message). is_tool_result m ≡ false) (some_inj h) refl

compact_session-IsPaired_example :
    IsPaired (compacting tables (holding (hi ∷ asks ∷ answers ∷ hello_message ∷ []) 4)).1.messages
unfolding is_tool_result
compact_session-IsPaired_example =
    compact_session-IsPaired (λ a. lit "{}") (λ n. n / 2)
      (λ t. some (some (lit "ann said hi"), no_usage)) 2 100 (lit "Sum up.") tables
      (holding (hi ∷ asks ∷ answers ∷ hello_message ∷ []) 4) with_tools ends_plainly

counted : (compacting tables ann).1.compaction_count ≡ 1
unfolding compact_session lucyd.Session.Compact.transcript lucyd.Session.Compact.split_point lit
    lucyd.Session.Compact.finish
counted = refl

changed : (compacting tables ann).1 ≢ ann
changed e = absurd (omega (arith, counted, ap (λ (s : Session). s.compaction_count) e))

-- a turn of ann's that failed: her question was persisted, a tool was called, then the provider broke
abbrev broken : Session
broken = holding (((hi ∷ hello_message ∷ []) ++ hi ∷ []) ++ asks ∷ answers ∷ []) 3

abbrev broken_tables : Db
broken_tables = record tables { messages = stored 0 hi ∷ stored 1 hello_message ∷ stored 2 hi ∷ [] }

abbrev recovered : Db × Session
recovered = handle_agentic_error false 2 3 broken_tables broken

abbrev next : Db × Session
next = elim (add_user_message recovered.0 recovered.1 (lit "again?") "ann" "http") [
  | some p ↦ p
  | none ↦ recovered
]

next_lem : add_user_message recovered.0 recovered.1 (lit "again?") "ann" "http" ≡ some next
unfolding add_user_message handle_agentic_error lucyd.Pipeline.rolled_back
next_lem = refl

next_message-rows_example :
    rows_of "s1" next.0.messages
    ≡ rows_from "s1" 0 (map persisted ((hi ∷ hello_message ∷ []) ++ hi ∷ []))
      ++ rows_from "s1" 2 (persisted (user_text (lit "again?")) ∷ [])
unfolding is_user rows_of rows_from persisted
next_message-rows_example =
    next_message-rows broken_tables broken (hi ∷ hello_message ∷ []) (asks ∷ answers ∷ []) hi refl
      refl (lit "again?") "ann" "http" refl refl next_lem
