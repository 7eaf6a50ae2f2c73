-- ===== src/Examples/Tending.antt =====
-- The theorems on the operations, applied to bob's session on a Monday morning.
use lucyd.Base.{
  ℕ, ◌+◌, ◌≡◌, ◌⊎◌, refl, arith, Text, Bool, true, none, some, [], ◌∷◌, lit, mem_name, Option,
}
use lucyd.Base.Dict.{lookup}
use lucyd.Store.{Db, SessionRow, find_active}
use lucyd.Session.{Session, needs_compaction}
use lucyd.Manager.{World, close_session}
use lucyd.Manager.Active.{HasUniqueActive}
use lucyd.Agentic.Retry.{raised}
use lucyd.Pipeline.Process.{Settings, Request}
use lucyd.Knowledge.Harvest.{harvest_conversation}
use lucyd.Knowledge.Harvest.Watermark.{idle}
use lucyd.Operations.{Morning, reset, list_contacts, user_key_of, handle_session_reset, week_start}
use lucyd.Operations.Reset.{MayClose, handle_session_reset-Decides, handle_session_reset-once}
use lucyd.Operations.Maintain.{Survey, Kept, ran, handle_maintain}
use lucyd.Operations.Maintain.Shared.{
  Leaves, user_session, handle_maintain-Leaves, handle_maintain-harvested,
}
use lucyd.Examples.{hi, hello, holding, row, tables, env, overloaded}
use lucyd.Examples.Processes.{settings}

abbrev bobs_row : SessionRow
bobs_row = record row { contact = "user:bob" }

abbrev bobs_world : World
bobs_world = record { db = record tables { sessions = bobs_row ∷ [] }; loaded = [] }

bobs_world-HasUniqueActive : HasUniqueActive bobs_world.db
bobs_world-HasUniqueActive c = ground arith

-- 07:00 on Monday of the second week; the row is from the first one
abbrev monday : Morning
monday = record {
  now = 630000;
  created_at = λ r. 5000;
  last_message = λ db key. some 600000;
  diary_written = true;
}

-- an hour later, with a session that was opened since
abbrev retry : Morning
retry = record {
  now = 633600;
  created_at = λ r. 630100;
  last_message = λ db key. some 630100;
  diary_written = true;
}

handle_session_reset-Decides_example :
    let r = handle_session_reset monday true 60 "bob" bobs_world in
    (MayClose monday 60 (user_key_of "bob") bobs_world bobs_row
      × (r ≡ ((close_session bobs_world (user_key_of "bob")).0, reset "s1")))
    ⊎ ((MayClose monday 60 (user_key_of "bob") bobs_world bobs_row → ⊥) × (r.0 ≡ bobs_world))
unfolding find_active user_key_of
handle_session_reset-Decides_example =
    handle_session_reset-Decides monday 60 "bob" bobs_world bobs_row refl

was_reset : (handle_session_reset monday true 60 "bob" bobs_world).1 ≡ reset "s1"
unfolding handle_session_reset find_active
was_reset = refl

handle_session_reset-once_example :
    let key = user_key_of "bob" in
    let closed = (handle_session_reset monday true 60 "bob" bobs_world).0 in
    HasUniqueActive closed.db
    × (find_active key closed.db.sessions ≡ none)
    × (lookup key closed.loaded ≡ none)
    × ((handle_session_reset retry true 60 "bob" bobs_world).0 ≡ bobs_world)
unfolding week_start
handle_session_reset-once_example =
    handle_session_reset-once monday retry 60 "bob" bobs_world bobs_world "s1"
      bobs_world-HasUniqueActive was_reset (omega arith) (λ r found. omega arith)

abbrev survey : Survey
survey = record {
  maintain_enabled = true;
  maintain_idle_minutes = 30;
  user_name = "bob";
  fresh = "s2";
  now = 630000;
  now_local = lit "Monday 07:00";
  protocol = some (lit "Tidy up.");
  files = record { path = lit "MEMORY.md"; mtime = some 7 } ∷ [];
  facts = [];
  created_at = λ f. 0;
  last_message = some 600000;
  ledger_path = lit "notes/maintenance-log.md";
  sorted = λ ts. ts;
  hours = λ n. lit "8.3";
  parse = λ t. some 0;
  format = λ n. lit "now";
}

abbrev kept : Kept
kept = record { world = bobs_world; states = []; last_pass = none }

abbrev dispatch : Text → World → World × Bool
dispatch t w = (w, true)

handle_maintain-Leaves_example : Leaves survey kept (handle_maintain dispatch survey kept)
handle_maintain-Leaves_example = handle_maintain-Leaves dispatch survey kept

abbrev turn : Text → ℕ → ℕ × Bool
turn t n = (n + 1, true)

bob_present : mem_name (user_key_of "bob") (list_contacts bobs_world) ≡ true
unfolding list_contacts user_key_of mem_name
bob_present = refl

bob_ran : (handle_maintain dispatch survey kept).1 ≡ ran (lit "MEMORY.md" ∷ []) 0 21
unfolding handle_maintain lucyd.Manager.get_or_create find_active lucyd.Manager.resume
    lucyd.Session.load lucyd.Store.find_session lucyd.Session.new_session
    lucyd.Session.repair_trailing_user_orphan lucyd.Store.select_contents
bob_ran = refl

handle_maintain-harvested_example :
    let states = (handle_maintain dispatch survey kept).0.states in
    harvest_conversation turn (user_session survey kept) 3 states ≡ idle turn 3 states
handle_maintain-harvested_example =
    handle_maintain-harvested dispatch turn 3 survey kept (lit "MEMORY.md" ∷ []) 0 21 bob_present
      bob_ran

-- a provider that is always overloaded
abbrev failing : Settings ℕ
failing = record settings {
  env = record env { complete = λ turn ms i. raised overloaded };
  consolidation_enabled = true;
}

abbrev talking : Session
talking = record (holding (hi ∷ hello ∷ hi ∷ hello ∷ []) 4) { contact = "user:bob" }

-- no exception gets out
abbrev contained : World → Request → Option World
contained w asked = none
