-- ===== src/Gdpr/Framed.antt =====
-- tools/gdpr.py, `handle_gdpr_redact`: what an erasure leaves as it was.
use lucyd.Base.{
  ℕ, ◌≡◌, ◌∙◌, refl, ap, arith, any, ◌&&◌, true, Text, Bool, not, Option, none, some, List, [], ◌∷◌,
  map, filter_by, is_empty, decimal, text_eq, mem_text, ◌==◌, Bool-cases, inl, inr, if◌then◌else◌,
}
use lucyd.Knowledge.{Fact}
use lucyd.Gdpr.{
  Episode, JsonRow, IndexedChunk, Stores, Target, fact, alias, episode, stored_message, event,
  chunk, atjob, download, unknown, Action, delete, redact, other_action, update_id, fact_id,
  episode_id, row_id, redact_fact, redact_json, redact_episode, after_facts, after_episodes,
  after_messages, after_events, hashes_of, unlink_download, delete_download, delete_record,
  redact_record, handle_gdpr_redact,
}
use lucyd.Gdpr.Rows.{
  others, delete_id-others, Keeps, update_id-Keeps, redact_fact-id, redact_json-id,
  redact_episode-id,
}

-- the chunks of other files
abbrev pub other_chunks : Text → List IndexedChunk → List IndexedChunk
other_chunks path chunks = filter_by (λ c. not (text_eq c.path path)) chunks

-- the cached embeddings of no chunk of the file
abbrev pub other_embeddings : Text → List IndexedChunk → List Text → List Text
other_embeddings path chunks hashes =
    filter_by (λ h. not (any (λ c. text_eq c.path path && text_eq h c.hash) chunks)) hashes

-- the aliases that neither are the name nor stand for it
abbrev pub other_aliases : Text → List (Text × Text) → List (Text × Text)
other_aliases name aliases =
    filter_by (λ a. not (text_eq a.0 name) && not (text_eq a.1 name)) aliases

abbrev pub other_texts : Text → List Text → List Text
other_texts name texts = filter_by (λ t. not (text_eq t name)) texts

-- the downloads other than the file that the name resolves to, if it does
abbrev pub other_named : Option Text → List Text → List Text
other_named none names = names
other_named (some name) names = other_texts name names

abbrev pub other_downloads : Option (Text → Option Text) → Text → List Text → List Text
other_downloads none old names = names
other_downloads (some resolve) old names = other_named (resolve old) names

-- What an erasure of a target may change of the stores: of each store what is not named stays, in order.
abbrev pub OnlyTarget : Option (Text → Option Text) → Target → ℕ → Text → Stores → Stores → Type 0
OnlyTarget resolve_download target id old s t = elim target [
  | fact ↦
      (t ≡ record s { facts = t.facts }) × (others fact_id id t.facts ≡ others fact_id id s.facts)
  | alias ↦
      let name = if is_empty old then decimal id else old in
      (t ≡ record s { aliases = t.aliases })
      × (other_aliases name t.aliases ≡ other_aliases name s.aliases)
  | episode ↦
      (t ≡ record s { episodes = t.episodes })
      × (others episode_id id t.episodes ≡ others episode_id id s.episodes)
  | stored_message ↦
      (t ≡ record s { messages = t.messages })
      × (others row_id id t.messages ≡ others row_id id s.messages)
      × (map row_id t.messages ≡ map row_id s.messages)
  | event ↦
      (t ≡ record s { events = t.events }) × (others row_id id t.events ≡ others row_id id s.events)
  | chunk ↦
      (t ≡ record s { chunks = t.chunks; embedding_cache = t.embedding_cache })
      × (other_chunks old t.chunks ≡ other_chunks old s.chunks)
      × (other_embeddings old s.chunks t.embedding_cache
          ≡ other_embeddings old s.chunks s.embedding_cache)
  | atjob ↦
      let job = if id == 0 then old else decimal id in
      (t ≡ record s { jobs = t.jobs }) × (other_texts job t.jobs ≡ other_texts job s.jobs)
  | download ↦
      (t ≡ record s { downloads = t.downloads })
      × (other_downloads resolve_download old t.downloads
          ≡ other_downloads resolve_download old s.downloads)
  | unknown name ↦ t ≡ s
]

abbrev pub Framed :
    Option (Text → Option Text) → Target → ℕ → Text → Stores → Option (Stores × Text) → Type 0
Framed resolve_download target id old s o = elim o [
  | none ↦ Unit
  | some (t, reply) ↦ OnlyTarget resolve_download target id old s t
]

unchanged :
    (resolve_download : Option (Text → Option Text)) (target : Target) (id : ℕ) (old : Text)
    (s : Stores)
    → OnlyTarget resolve_download target id old s s
unchanged resolve_download fact id old s = (refl, refl)
unchanged resolve_download alias id old s = (refl, refl)
unchanged resolve_download episode id old s = (refl, refl)
unchanged resolve_download stored_message id old s = (refl, refl, refl)
unchanged resolve_download event id old s = (refl, refl)
unchanged resolve_download chunk id old s = (refl, refl, refl)
unchanged resolve_download atjob id old s = (refl, refl)
unchanged resolve_download download id old s = (refl, refl)
unchanged resolve_download (unknown name) id old s = refl

-- Dropping some of the unwanted before keeping the wanted changes nothing.
filter_by-within :
    {A : Type 0} (wanted keep : A → Bool) (xs : List A)
    → ((x : A) → wanted x ≡ true → keep x ≡ true)
    → filter_by wanted (filter_by keep xs) ≡ filter_by wanted xs
filter_by-within wanted keep [] h = refl
filter_by-within wanted keep (x ∷ xs) h = elim (Bool-cases (wanted x)) [
  | inl wants ↦ simp (wants, h x wants, filter_by-within wanted keep xs h)
  | inr leaves ↦ elim (Bool-cases (keep x)) [
    | inl kept ↦ simp (leaves, kept, filter_by-within wanted keep xs h)
    | inr dropped ↦ simp (leaves, dropped, filter_by-within wanted keep xs h)
  ]
]

-- a hash is among those of a file's chunks
mem_text-hashes_of :
    (path h : Text) (chunks : List IndexedChunk)
    → mem_text h (hashes_of path chunks) ≡ any (λ c. text_eq c.path path && text_eq h c.hash) chunks
unfolding mem_text hashes_of
mem_text-hashes_of path h [] = refl
mem_text-hashes_of path h (c ∷ cs) = elim (Bool-cases (text_eq c.path path)) [
  | inl same ↦ simp (same, mem_text-hashes_of path h cs)
  | inr other ↦ simp (other, mem_text-hashes_of path h cs)
]

module _ (jsonb : Text → Option Text) (resolve_download : Option (Text → Option Text))
    (is_file : Text → Bool) where
  -- Of the downloads only the named one goes.
  abbrev OnlyNamed : Option Text → Stores → Option (Stores × Text) → Type 0
  OnlyNamed named s r = elim r [
    | none ↦ Unit
    | some (t, reply) ↦
        (t ≡ record s { downloads = t.downloads })
        × (other_named named t.downloads ≡ other_named named s.downloads)
  ]

  unlink_download-OnlyNamed :
      (old : Text) (s : Stores) (named : Option Text)
      → OnlyNamed named s (unlink_download jsonb resolve_download is_file old s named)
  unfolding unlink_download
  unlink_download-OnlyNamed old s none = (refl, refl)
  unlink_download-OnlyNamed old s (some name) = elim (Bool-cases (is_file name)) [
    | inl there ↦ rw there (refl, filter_by-within _ _ s.downloads (λ x h. h))
    | inr gone ↦ rw gone (refl, refl)
  ]

  delete_download-Framed :
      (id : ℕ) (old : Text) (s : Stores) (o : Option (Text → Option Text))
      → Framed o download id old s (delete_download jsonb resolve_download is_file old s o)
  unfolding delete_download
  delete_download-Framed id old s none = (refl, refl)
  delete_download-Framed id old s (some resolve) = elim (Bool-cases (is_empty old)) [
    | inl nothing ↦ rw nothing (refl, refl)
    | inr named ↦ rw named (unlink_download-OnlyNamed old s (resolve old))
  ]

  delete_record-Framed :
      (target : Target) (id : ℕ) (old : Text) (s : Stores)
      → Framed resolve_download target id old s
          (delete_record jsonb resolve_download is_file target id old s)
  unfolding delete_record
  delete_record-Framed fact id old s = (refl, delete_id-others fact_id id s.facts)
  delete_record-Framed alias id old s = (refl, filter_by-within _ _ s.aliases (λ a h. ground arith))
  delete_record-Framed episode id old s = (refl, delete_id-others episode_id id s.episodes)
  delete_record-Framed stored_message id old s = (refl, refl, refl)
  delete_record-Framed event id old s = (refl, delete_id-others row_id id s.events)
  delete_record-Framed chunk id old s = elim (Bool-cases (is_empty old)) [
    | inl nothing ↦ rw nothing (refl, refl, refl)
    | inr path ↦ rw path (
      refl,
      filter_by-within _ _ s.chunks (λ c h. h),
      filter_by-within _ _ s.embedding_cache
          (λ x h. ap not (mem_text-hashes_of old x s.chunks) ∙ h),
    )
  ]
  delete_record-Framed atjob id old s =
      let job = if id == 0 then old else decimal id in
      elim (Bool-cases (is_empty job)) [
        | inl nothing ↦ rw nothing (refl, refl)
        | inr named ↦ elim (Bool-cases (mem_text job s.jobs)) [
          | inl there ↦ rw (named, there) (refl, filter_by-within _ _ s.jobs (λ x h. h))
          | inr gone ↦ rw (named, gone) (refl, refl)
        ]
      ]
  delete_record-Framed download id old s = delete_download-Framed id old s resolve_download
  delete_record-Framed (unknown name) id old s = refl

  after_facts-Framed :
      (id : ℕ) (old reply : Text) (s : Stores) (o : Option (List Fact))
      → Keeps fact_id id s.facts o
      → Framed resolve_download fact id old s (after_facts jsonb resolve_download is_file s reply o)
  unfolding after_facts
  after_facts-Framed id old reply s none h = tt
  after_facts-Framed id old reply s (some rows) (kept, ids) = (refl, kept)

  after_episodes-Framed :
      (id : ℕ) (old reply : Text) (s : Stores) (o : Option (List Episode))
      → Keeps episode_id id s.episodes o
      → Framed resolve_download episode id old s
          (after_episodes jsonb resolve_download is_file s reply o)
  unfolding after_episodes
  after_episodes-Framed id old reply s none h = tt
  after_episodes-Framed id old reply s (some rows) (kept, ids) = (refl, kept)

  after_messages-Framed :
      (id : ℕ) (old reply : Text) (s : Stores) (o : Option (List JsonRow))
      → Keeps row_id id s.messages o
      → Framed resolve_download stored_message id old s
          (after_messages jsonb resolve_download is_file s reply o)
  unfolding after_messages
  after_messages-Framed id old reply s none h = tt
  after_messages-Framed id old reply s (some rows) (kept, ids) = (refl, kept, ids)

  after_events-Framed :
      (id : ℕ) (old reply : Text) (s : Stores) (o : Option (List JsonRow))
      → Keeps row_id id s.events o
      → Framed resolve_download event id old s
          (after_events jsonb resolve_download is_file s reply o)
  unfolding after_events
  after_events-Framed id old reply s none h = tt
  after_events-Framed id old reply s (some rows) (kept, ids) = (refl, kept)

  redact_record-Framed :
      (target : Target) (id : ℕ) (old new : Text) (s : Stores)
      → Framed resolve_download target id old s
          (redact_record jsonb resolve_download is_file target id old new s)
  unfolding redact_record
  redact_record-Framed fact id old new s =
      after_facts-Framed id old _ s (update_id fact_id id (redact_fact old new) s.facts)
        (update_id-Keeps fact_id id (redact_fact old new) (redact_fact-id old new) s.facts)
  redact_record-Framed alias id old new s = delete_record-Framed alias id old s
  redact_record-Framed episode id old new s =
      let change = redact_episode jsonb resolve_download is_file old new in
      after_episodes-Framed id old _ s (update_id episode_id id change s.episodes) (
        update_id-Keeps episode_id id change
          (redact_episode-id jsonb resolve_download is_file old new) s.episodes)
  redact_record-Framed stored_message id old new s =
      let change = redact_json jsonb resolve_download is_file old new in
      after_messages-Framed id old _ s (update_id row_id id change s.messages) (
        update_id-Keeps row_id id change (redact_json-id jsonb resolve_download is_file old new)
          s.messages)
  redact_record-Framed event id old new s =
      let change = redact_json jsonb resolve_download is_file old new in
      after_events-Framed id old _ s (update_id row_id id change s.events) (
        update_id-Keeps row_id id change (redact_json-id jsonb resolve_download is_file old new)
          s.events)
  redact_record-Framed chunk id old new s = delete_record-Framed chunk id old s
  redact_record-Framed atjob id old new s = (refl, refl)
  redact_record-Framed download id old new s = (refl, refl)
  redact_record-Framed (unknown name) id old new s = refl

  -- An erasure that does not raise changes at most the store of its target, with the cached embeddings
  -- where that is the index, and keeps, in order and as they were, all of it that it does not name: the
  -- facts, episodes, messages and events with another id, the aliases of which neither column is the name,
  -- the chunks of other paths and the cached embeddings of no chunk of the path, the other at-jobs, and the
  -- downloads but the one that the name resolves to, all where it resolves to none. No message goes. Of a
  -- chunk, a job or a download the name is the old text, of an alias that or, where it is empty, the id, and
  -- of a job the id, unless that is 0.
  pub handle_gdpr_redact-Framed :
      (target : Target) (id : ℕ) (action : Action) (old new : Text) (s : Stores)
      → Framed resolve_download target id old s
          (handle_gdpr_redact jsonb resolve_download is_file target id action old new s)
  unfolding handle_gdpr_redact
  handle_gdpr_redact-Framed target id delete old new s = delete_record-Framed target id old s
  handle_gdpr_redact-Framed target id redact old new s = elim (Bool-cases (is_empty old)) [
    | inl nothing ↦ rw nothing (unchanged resolve_download target id old s)
    | inr something ↦ rw something (redact_record-Framed target id old new s)
  ]
  handle_gdpr_redact-Framed target id (other_action a) old new s =
      unchanged resolve_download target id old s
