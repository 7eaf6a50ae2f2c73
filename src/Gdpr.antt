-- ===== src/Gdpr.antt =====
-- tools/gdpr.py, `handle_gdpr_redact`: the erasure of one record. The database's jsonb is the parameter
-- `jsonb`, the normal form of a text that is JSON; a record has its columns as texts.
pub mod Rows
pub mod Framed
use lucyd.Base.{
  ℕ, suc, String, Text, Bool, true, false, not, ◌&&◌, ◌||◌, Option, none, some, List, [], ◌∷◌, ◌++◌,
  map, any, length, filter_by, is_empty, lit, decimal, text_eq, mem_text, ◌==◌, if◌then◌else◌,
}
use lucyd.Knowledge.{Fact}
use lucyd.Files.{replace_text}

-- A row of knowledge.episodes.
pub record Episode : Type 0 where
  pub id : ℕ
  pub summary : Text
  pub topics : Text
  pub decisions : Text

-- A row of sessions.messages or sessions.events, by its id.
pub record JsonRow : Type 0 where
  pub id : ℕ
  pub payload : Text

pub record IndexedChunk : Type 0 where
  pub path : Text
  pub hash : Text

-- The tables, the scheduled jobs and the names in the download directory.
pub record Stores : Type 0 where
  pub facts : List Fact
  pub aliases : List (Text × Text)
  pub episodes : List Episode
  pub messages : List JsonRow
  pub events : List JsonRow
  pub chunks : List IndexedChunk
  pub embedding_cache : List Text
  pub jobs : List Text
  pub downloads : List Text

pub data Target : Type 0 where
  fact alias episode stored_message event chunk atjob download : Target
  unknown : Text → Target

pub data Action : Type 0 where
  delete redact : Action
  other_action : Text → Action

-- `DELETE ... WHERE id = $1`
unfoldable pub delete_id {ℓ} : {A : Type ℓ} → (A → ℕ) → ℕ → List A → List A
delete_id id_of id [] = []
delete_id id_of id (x ∷ xs) =
    let rest = delete_id id_of id xs in if id_of x == id then rest else x ∷ rest

-- `UPDATE ... WHERE id = $1`; `none` if the change of a row fails
unfoldable pub consed {ℓ} : {A : Type ℓ} → Option A → Option (List A) → Option (List A)
consed (some x) (some xs) = some (x ∷ xs)
consed (some x) none = none
consed none xs = none

unfoldable pub update_id {ℓ} :
    {A : Type ℓ} → (A → ℕ) → ℕ → (A → Option A) → List A → Option (List A)
unfolding consed
update_id id_of id change [] = some []
update_id id_of id change (x ∷ xs) =
    consed (if id_of x == id then change x else some x) (update_id id_of id change xs)

-- whether a row has the id, which a command's tag counts
unfoldable pub has_id {ℓ} : {A : Type ℓ} → (A → ℕ) → ℕ → List A → Bool
has_id id_of id xs = any (λ x. id_of x == id) xs

unfoldable pub fact_id : Fact → ℕ
fact_id f = f.id

unfoldable pub episode_id : Episode → ℕ
episode_id e = e.id

unfoldable pub row_id : JsonRow → ℕ
row_id r = r.id

unfoldable pub redact_fact : Text → Text → Fact → Option Fact
unfolding replace_text
redact_fact old new f = some (record f {
  entity = replace_text old new f.entity;
  attribute = replace_text old new f.attribute;
  value = replace_text old new f.value;
})

-- `alias = $1 OR canonical = $1`, on both columns of a row
unfoldable pub names_alias : Text → Text × Text → Bool
unfolding text_eq
names_alias name (known, canonical) = text_eq known name || text_eq canonical name

unfoldable pub hashes_of : Text → List IndexedChunk → List Text
unfolding text_eq
hashes_of path [] = []
hashes_of path (c ∷ cs) =
    let rest = hashes_of path cs in if text_eq c.path path then c.hash ∷ rest else rest

-- `jsonb`; if there is a download directory, the name that a file in it has behind `Path(...).name` and
-- `resolve`, if it stays in it; and whether that is a file
module _ (jsonb : Text → Option Text) (resolve_download : Option (Text → Option Text))
    (is_file : Text → Bool) where
  unfoldable pub redact_json : Text → Text → JsonRow → Option JsonRow
  unfolding replace_text
  redact_json old new r = elim (jsonb (replace_text old new r.payload)) [
    | none ↦ none
    | some payload ↦ some (record r { payload = payload })
  ]

  unfoldable pub redact_episode : Text → Text → Episode → Option Episode
  unfolding replace_text
  redact_episode old new e = elim (jsonb (replace_text old new e.topics)) [
    | none ↦ none
    | some topics ↦ elim (jsonb (replace_text old new e.decisions)) [
      | none ↦ none
      | some decisions ↦ some (record e {
        summary = replace_text old new e.summary;
        topics = topics;
        decisions = decisions;
      })
    ]
  ]

  -- `... deleted.` or `... not found.`
  unfoldable pub deleted_reply : Text → Bool → Text
  unfolding lit
  deleted_reply what found = if found then what ++ lit " deleted." else what ++ lit " not found."

  unfoldable pub redacted_reply : Text → Text → Text → Bool → Text
  unfolding lit
  redacted_reply what old new found =
      if found
      then what ++ (lit " redacted: '" ++ (old ++ (lit "' -> '" ++ (new ++ lit "'."))))
      else what ++ lit " not found."

  unfoldable pub named_id : Text → ℕ → Text
  unfolding decimal lit
  named_id kind id = kind ++ (lit " #" ++ decimal id)

  unfoldable pub after_facts : Stores → Text → Option (List Fact) → Option (Stores × Text)
  after_facts s reply none = none
  after_facts s reply (some rows) = some (record s { facts = rows }, reply)

  unfoldable pub after_episodes : Stores → Text → Option (List Episode) → Option (Stores × Text)
  after_episodes s reply none = none
  after_episodes s reply (some rows) = some (record s { episodes = rows }, reply)

  unfoldable pub after_messages : Stores → Text → Option (List JsonRow) → Option (Stores × Text)
  after_messages s reply none = none
  after_messages s reply (some rows) = some (record s { messages = rows }, reply)

  unfoldable pub after_events : Stores → Text → Option (List JsonRow) → Option (Stores × Text)
  after_events s reply none = none
  after_events s reply (some rows) = some (record s { events = rows }, reply)

  unfoldable pub unlink_download : Text → Stores → Option Text → Option (Stores × Text)
  unlink_download old s none = some (s, lit "Error: path escapes the download dir.")
  unlink_download old s (some name) =
      if is_file name
      then some (
        record s { downloads = filter_by (λ d. not (text_eq d name)) s.downloads },
        lit "Deleted download '" ++ (name ++ lit "'."),
      )
      else some (s, lit "Download '" ++ (old ++ lit "' not found."))

  unfoldable pub delete_download :
      Text → Stores → Option (Text → Option Text) → Option (Stores × Text)
  delete_download old s none = some (s, lit "Error: no download dir configured.")
  delete_download old s (some resolve) =
      if is_empty old
      then some (s, lit "Error: for target='download', 'old' must be the filename to delete.")
      else unlink_download old s (resolve old)

  unfoldable pub delete_record : Target → ℕ → Text → Stores → Option (Stores × Text)
  unfolding delete_id has_id names_alias hashes_of deleted_reply named_id fact_id episode_id row_id
      mem_text text_eq decimal lit
  delete_record fact id old s = some (
    record s { facts = delete_id fact_id id s.facts },
    deleted_reply (named_id (lit "Fact") id) (has_id fact_id id s.facts),
  )
  delete_record alias id old s =
      let name = if is_empty old then decimal id else old in
      let left = filter_by (λ a. not (names_alias name a)) s.aliases in
      let gone = filter_by (names_alias name) s.aliases in
      some (
        record s { aliases = left },
        lit "Deleted " ++ (decimal (length gone) ++ lit " alias(es)."),
      )
  delete_record episode id old s = some (
    record s { episodes = delete_id episode_id id s.episodes },
    deleted_reply (named_id (lit "Episode") id) (has_id episode_id id s.episodes),
  )
  delete_record stored_message id old s = some (
    s,
    lit
        "Error: Messages cannot be deleted (breaks session structure). Use action='redact' instead.",
  )
  delete_record event id old s = some (
    record s { events = delete_id row_id id s.events },
    deleted_reply (named_id (lit "Event") id) (has_id row_id id s.events),
  )
  delete_record chunk id old s =
      let hashes = hashes_of old s.chunks in
      if is_empty old
      then some (
        s,
        lit "Error: for target='chunk', 'old' must be the file path whose index chunks to purge.",
      )
      else some (
        record s {
          chunks = filter_by (λ c. not (text_eq c.path old)) s.chunks;
          embedding_cache = filter_by (λ h. not (mem_text h hashes)) s.embedding_cache;
        },
        lit "Purged "
            ++ (decimal (length hashes)
                ++ (lit " index chunk(s) + cached embeddings for path '" ++ (old ++ lit "'."))),
      )
  delete_record atjob id old s =
      let job = if id == 0 then old else decimal id in
      if is_empty job
      then some (s, lit "Error: for target='atjob', provide the job id (from gdpr_search).")
      else if mem_text job s.jobs
      then some (
        record s { jobs = filter_by (λ j. not (text_eq j job)) s.jobs },
        lit "Removed at-job " ++ (job ++ lit "."),
      )
      else some
          (s, lit "at-job " ++ (job ++ lit ": removal failed (not found or atrm unavailable)."))
  delete_record download id old s = delete_download old s resolve_download
  delete_record (unknown t) id old s = some (
    s,
    lit "Error: Unknown target '"
        ++ (t ++ lit "'. Use: fact, alias, episode, message, event, chunk, atjob, download."),
  )

  unfoldable pub redact_record : Target → ℕ → Text → Text → Stores → Option (Stores × Text)
  unfolding delete_record update_id has_id redact_fact redact_episode redact_json redacted_reply
      named_id after_facts after_episodes after_messages after_events fact_id episode_id row_id lit
  redact_record fact id old new s =
      after_facts s (redacted_reply (named_id (lit "Fact") id) old new true)
        (update_id fact_id id (redact_fact old new) s.facts)
  redact_record alias id old new s = delete_record alias id old s
  redact_record episode id old new s =
      after_episodes s (redacted_reply (named_id (lit "Episode") id) old new true)
        (update_id episode_id id (redact_episode old new) s.episodes)
  redact_record stored_message id old new s =
      after_messages s
        (redacted_reply (named_id (lit "Message") id) old new (has_id row_id id s.messages))
        (update_id row_id id (redact_json old new) s.messages)
  redact_record event id old new s =
      after_events s
        (redacted_reply (named_id (lit "Event") id) old new (has_id row_id id s.events))
        (update_id row_id id (redact_json old new) s.events)
  redact_record chunk id old new s = delete_record chunk id old s
  redact_record atjob id old new s =
      some (s, lit "Error: at-jobs are immutable; use action='delete' to remove the job.")
  redact_record download id old new s =
      some (s, lit "Error: downloads support action='delete' only.")
  redact_record (unknown t) id old new s = delete_record (unknown t) id old s

  -- `handle_gdpr_redact`; `none` if a redacted text is no JSON and the statement raises
  unfoldable pub handle_gdpr_redact :
      Target → ℕ → Action → Text → Text → Stores → Option (Stores × Text)
  unfolding delete_record redact_record lit
  handle_gdpr_redact target id delete old new s = delete_record target id old s
  handle_gdpr_redact target id redact old new s =
      if is_empty old
      then some (s, lit "Error: 'old' parameter required for redact action.")
      else redact_record target id old new s
  handle_gdpr_redact target id (other_action a) old new s =
      some (s, lit "Error: action must be 'delete' or 'redact'.")
