-- ===== src/Operations/Maintain.antt =====
-- operations.py, `handle_maintain`, and maintain_state.py: the self-maintenance pass. Its times are
-- seconds; what the files and the mechanical maintenance give is read from the `Survey`.
pub mod Shared
use lucyd.Base.{
  ℕ, suc, ◌-◌, ◌*◌, ◌/◌, ◌%◌, ◌++◌, String, Text, Bool, true, false, not, Option, none, some, List,
  [], ◌∷◌, map, is_empty, length, lit, join, decimal, mem_name, ltb, leb, if◌then◌else◌,
}
use lucyd.Base.Dict.{Dict, lookup}
use lucyd.Message.{Message, Json, Fields, string}
use lucyd.Tools.{get_field}
use lucyd.Session.{Session}
use lucyd.Session.Compact.{is_blank}
use lucyd.Manager.{World, get_or_create}
use lucyd.Knowledge.{Fact}
use lucyd.Knowledge.Harvest.{
  Consolidated, get_unprocessed_range, update_consolidation_state, serialize_messages,
}
use lucyd.Operations.{user_key_of, list_contacts}

-- A Markdown file of the workspace, by its relative path, with its time unless `stat` fails.
pub record WorkspaceFile : Type 0 where
  pub path : Text
  pub mtime : Option ℕ

-- `cutoff is None or mtime > cutoff`, on a file that has a time
unfoldable pub is_changed : Option ℕ → WorkspaceFile → Bool
is_changed since f = elim f.mtime [
  | none ↦ false
  | some mtime ↦ elim since [ none ↦ true | some cutoff ↦ ltb cutoff mtime ]
]

unfoldable pub changed_paths : Option ℕ → List WorkspaceFile → List Text
unfolding is_changed
changed_paths since [] = []
changed_paths since (f ∷ fs) =
    let rest = changed_paths since fs in if is_changed since f then f.path ∷ rest else rest

-- `changed_workspace_files`; `sorted` is Python's
unfoldable pub changed_workspace_files :
    (List Text → List Text) → List WorkspaceFile → Option ℕ → List Text
unfolding changed_paths
changed_workspace_files sorted files since = sorted (changed_paths since files)

-- `facts_created_since`: `created_at` gives the times of the rows, which are in their order
unfoldable pub created_since : (Fact → ℕ) → ℕ → List Fact → List Text
unfolding lit
created_since created_at since [] = []
created_since created_at since (f ∷ fs) =
    let rest = created_since created_at since fs in
    if not (ltb since (created_at f))
    then rest
    else if f.valid
    then (f.entity ++ (lit " · " ++ (f.attribute ++ (lit " · " ++ f.value)))) ∷ rest
    else rest

unfoldable pub facts_created_since : (Fact → ℕ) → Option ℕ → List Fact → List Text
unfolding created_since
facts_created_since created_at none rows = []
facts_created_since created_at (some since) rows = created_since created_at since rows

-- `load_state`: the file's JSON object, `none` if it cannot be read; `parse` reads an ISO time
unfoldable pub load_state : (Text → Option ℕ) → Option Fields → Option ℕ
unfolding get_field
load_state parse none = none
load_state parse (some fields) = elim (get_field "last_pass_at" fields) [
  | some (string raw) ↦ parse raw
  | _ ↦ none
]

-- `save_last_pass`; `format` prints an ISO time
unfoldable pub save_last_pass : (ℕ → Text) → ℕ → Fields
save_last_pass format now = Fields.field "last_pass_at" (string (format now)) Fields.end

-- `_format_idle`, with one decimal that Python rounds
unfoldable pub format_idle : (ℕ → Text) → Option ℕ → Text → Text
unfolding lit decimal
format_idle hours none user_name = user_name ++ lit " has no messages on record yet."
format_idle hours (some idle) user_name =
    if ltb idle 3600
    then user_name ++ (lit " last messaged " ++ (decimal (idle / 60) ++ lit " minutes ago."))
    else user_name ++ (lit " last messaged " ++ (hours idle ++ lit " hours ago."))

-- `"\n".join(f"  - {f}" for f in files) if files else "  (none)"`
unfoldable pub bullets : List Text → Text
unfolding lit join
bullets items =
    if is_empty items then lit "  (none)" else join (lit "\n") (map (λ f. lit "  - " ++ f) items)

-- What `_build_maintain_brief` prints.
pub record Brief : Type 0 where
  pub protocol : Text
  pub now_local : Text
  pub last_pass : Option Text
  pub changed_files : List Text
  pub new_facts : List Text
  pub conversation : Text
  pub idle_line : Text
  pub ledger_path : Text

unfoldable pub last_pass_line : Option Text → Text
unfolding lit
last_pass_line none = lit "never (first pass)"
last_pass_line (some t) = t

-- `_build_maintain_brief`
unfoldable pub build_maintain_brief : Brief → Text
unfolding lit bullets is_blank last_pass_line
build_maintain_brief b =
    lit "=== This pass ===\nNow: "
    ++ (b.now_local
        ++ (lit "\nLast pass: "
            ++ (last_pass_line b.last_pass
                ++ (lit "\n"
                    ++ (b.idle_line
                        ++ (lit "\nYour ask-ledger: "
                            ++ (b.ledger_path
                                ++ (lit
                                      " — read it before you ask anything so you don't re-ask, and append what you ask/fix this pass.\n\nFiles of yours changed since last pass:\n"
                                    ++ (bullets b.changed_files
                                        ++ (lit "\n\nStructured facts created since last pass:\n"
                                            ++ (bullets b.new_facts
                                                ++ (lit
                                                      "\n\nConversation since your last pass — consolidate it (see your protocol):\n"
                                                    ++ ((if is_blank b.conversation
                                                          then lit
                                                            "  (no new conversation since last pass)"
                                                          else b.conversation)
                                                        ++ (lit
                                                            "\n\n=== Your maintenance protocol (MAINTAIN.md) ===\n"
                                                            ++ b.protocol))))))))))))))

-- What a pass reads: the configuration, the clock, the workspace and the times of rows and files.
pub record Survey : Type 0 where
  pub maintain_enabled : Bool
  pub maintain_idle_minutes : ℕ
  pub user_name : String
  pub fresh : String
  pub now : ℕ
  pub now_local : Text
  pub protocol : Option Text
  pub files : List WorkspaceFile
  pub facts : List Fact
  pub created_at : Fact → ℕ
  pub last_message : Option ℕ
  pub ledger_path : Text
  pub sorted : List Text → List Text
  pub hours : ℕ → Text
  pub parse : Text → Option ℕ
  pub format : ℕ → Text

-- Where a pass reads and writes: the sessions, the marks of what was consolidated and the file of the
-- last pass.
pub record Kept : Type 0 where
  pub world : World
  pub states : Dict Consolidated
  pub last_pass : Option Fields

pub data Outcome : Type 0 where
  disabled protocol_missing skipped_user_active process_raised : Outcome
  ran : List Text → ℕ → ℕ → Outcome

-- `process_message` with the brief, on the maintenance session; false if it raises
module _ (dispatch : Text → World → World × Bool) where
  -- the harvested session, if the user has one, and its unprocessed range
  unfoldable pub harvest_source : Survey → Kept → World × Option (Session × ℕ × ℕ)
  unfolding list_contacts get_unprocessed_range lookup user_key_of
  harvest_source v k =
      let key = user_key_of v.user_name in
      if mem_name key (list_contacts k.world)
      then (let (w, s) = get_or_create k.world v.fresh key "" in
          let (start_idx, end_idx) =
            get_unprocessed_range (lookup s.id k.states) s.messages s.compaction_count in
          if ltb start_idx end_idx then (w, some (s, start_idx, end_idx)) else (w, none))
      else (k.world, none)

  unfoldable pub conversation_of : Option (Session × ℕ × ℕ) → Text
  unfolding serialize_messages
  conversation_of none = []
  conversation_of (some (s, start_idx, end_idx)) =
      serialize_messages s.messages start_idx end_idx 50000

  -- `update_consolidation_state(*advance_to)`
  unfoldable pub advance : Option (Session × ℕ × ℕ) → Dict Consolidated → Dict Consolidated
  unfolding update_consolidation_state
  advance none states = states
  advance (some (s, start_idx, end_idx)) states =
      update_consolidation_state s.id s.compaction_count end_idx states

  -- what follows the dispatch
  unfoldable pub after_dispatch :
      Survey
      → Kept
      → List Text
      → List Text
      → Option (Session × ℕ × ℕ)
      → World × Bool
      → Kept × Outcome
  unfolding advance conversation_of save_last_pass
  after_dispatch v k changed_files new_facts source (w, false) =
      (record k { world = w }, process_raised)
  after_dispatch v k changed_files new_facts source (w, true) = (
    record {
      world = w;
      states = advance source k.states;
      last_pass = some (save_last_pass v.format v.now);
    },
    ran changed_files (length new_facts) (length (conversation_of source)),
  )

  -- the pass, behind the gates
  unfoldable pub run_pass :
      Survey → Kept → Text → Option ℕ → World × Option (Session × ℕ × ℕ) → Kept × Outcome
  unfolding after_dispatch build_maintain_brief changed_workspace_files facts_created_since
      load_state
  run_pass v k protocol idle (w, source) =
      let last_pass_at = load_state v.parse k.last_pass in
      let changed_files = changed_workspace_files v.sorted v.files last_pass_at in
      let new_facts = facts_created_since v.created_at last_pass_at v.facts in
      let b : Brief = record {
        protocol = protocol;
        now_local = v.now_local;
        last_pass = elim last_pass_at [ none ↦ none | some t ↦ some (v.format t) ];
        changed_files = changed_files;
        new_facts = new_facts;
        conversation = conversation_of source;
        idle_line = format_idle v.hours idle (lit v.user_name);
        ledger_path = v.ledger_path;
      } in
      after_dispatch v k changed_files new_facts source (dispatch (build_maintain_brief b) w)

  -- `idle_minutes is not None and idle_minutes < maintain_idle_minutes`, in seconds
  unfoldable pub interrupts : ℕ → Option ℕ → Bool
  interrupts idle_minutes none = false
  interrupts idle_minutes (some idle) = ltb idle (60 * idle_minutes)

  -- `idle_minutes_since_user`, in seconds
  unfoldable pub idle_of : ℕ → Option ℕ → Option ℕ
  idle_of now none = none
  idle_of now (some last) = some (now - last)

  unfoldable pub past_protocol : Survey → Kept → Option Text → Kept × Outcome
  unfolding run_pass interrupts idle_of harvest_source
  past_protocol v k none = (k, protocol_missing)
  past_protocol v k (some protocol) =
      let idle = idle_of v.now v.last_message in
      if interrupts v.maintain_idle_minutes idle
      then (k, skipped_user_active)
      else run_pass v k protocol idle (harvest_source v k)

  -- `handle_maintain`, behind the mechanical maintenance
  unfoldable pub handle_maintain : Survey → Kept → Kept × Outcome
  unfolding past_protocol
  handle_maintain v k =
      if not v.maintain_enabled then (k, disabled) else past_protocol v k v.protocol
