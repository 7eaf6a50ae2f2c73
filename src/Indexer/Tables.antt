-- ===== src/Indexer/Tables.antt =====
-- tools/indexer.py, `index_workspace`: changed files are indexed anew, removed ones are forgotten.
pub mod Recorded
pub mod Again
use lucyd.Base.{
  ℕ, suc, ◌+◌, String, Text, Bool, true, false, not, ◌&&◌, ◌||◌, Option, none, some, List, [], ◌∷◌,
  ◌++◌, map, any, length, lit, text_eq, mem_name, is_empty, str_eq, if◌then◌else◌,
}
use lucyd.Base.Dict.{Dict, lookup, insert, erase}
use lucyd.Indexer.{Chunk, chunk_file}

-- A row of search.chunks, less its source, model and time. `E` is the type of embeddings.
pub record ChunkRow (E : Type 0) : Type 0 where
  pub id : Text
  pub path : String
  pub hash : Text
  pub chunk : Chunk
  pub embedding : Option E

-- search.files, as the hash of each path, and search.chunks.
pub record Index (E : Type 0) : Type 0 where
  pub files : Dict Text
  pub chunks : List (ChunkRow E)

-- What reading a file gives: an OSError, an error in its UTF-8, or a text.
pub data Read : Type 0 where
  os_error decode_error : Read
  content : Text → Read

-- `errors` holds the paths of its messages.
pub record Summary : Type 0 where
  pub indexed : List (String × ℕ)
  pub skipped : ℕ
  pub removed : List String
  pub errors : List String

-- What is not the indexer's: SHA-256, `str.splitlines`, the embedding API and the configured sizes.
pub record Setup (E : Type 0) : Type 0 where
  pub sha256 : Text → Text
  pub splitlines : Text → List Text
  pub embed : List Text → Option (List E)
  pub chunk_size : ℕ
  pub overlap : ℕ

-- A run ends with its summary, or an exception ends it.
pub data Run (E : Type 0) : Type 0 where
  ended : Index E → Summary → Run E
  aborted : Index E → Run E

module _ {E : Type 0} (u : Setup E) where
  -- `compute_chunk_id`
  unfoldable pub compute_chunk_id : String → Text → Text
  unfolding lit
  compute_chunk_id path text = u.sha256 (lit path ++ (lit ":" ++ text))

  -- `DELETE FROM search.chunks WHERE path = $1`
  unfoldable pub delete_chunks : String → List (ChunkRow E) → List (ChunkRow E)
  delete_chunks path [] = []
  delete_chunks path (r ∷ rows) =
      let rest = delete_chunks path rows in if str_eq r.path path then rest else r ∷ rest

  unfoldable pub mem_id : Text → List (ChunkRow E) → Bool
  unfolding text_eq
  mem_id id [] = false
  mem_id id (r ∷ rows) = text_eq r.id id || mem_id id rows

  -- the inserts of `update_chunks`: an id that is taken violates the primary key
  unfoldable pub insert_chunks :
      String → List (Chunk × Option E) → List (ChunkRow E) → Option (List (ChunkRow E))
  unfolding compute_chunk_id mem_id
  insert_chunks path [] rows = some rows
  insert_chunks path ((c, e) ∷ cs) rows =
      let id = compute_chunk_id path c.text in
      let row : ChunkRow E = record {
        id = id;
        path = path;
        hash = u.sha256 c.text;
        chunk = c;
        embedding = e;
      } in
      let rest = insert_chunks path cs (rows ++ row ∷ []) in if mem_id id rows then none else rest

  -- the end of the transaction of `update_chunks`
  unfoldable pub upsert_file :
      String → Text → Index E → Option (List (ChunkRow E)) → Option (Index E)
  unfolding insert
  upsert_file path file_hash ix none = none
  upsert_file path file_hash ix (some rows) =
      some (record { files = insert path file_hash ix.files; chunks = rows })

  -- `update_chunks`: `none` when the transaction is rolled back
  unfoldable pub update_chunks :
      String → List (Chunk × Option E) → Text → Index E → Option (Index E)
  unfolding delete_chunks insert_chunks upsert_file
  update_chunks path chunks file_hash ix =
      upsert_file path file_hash ix (insert_chunks path chunks (delete_chunks path ix.chunks))

  -- the loop of `remove_stale_files` over the paths that search.files had at its start
  unfoldable pub remove_stale : List String → List String → Index E → Index E × List String
  unfolding erase delete_chunks mem_name
  remove_stale current_paths [] ix = (ix, [])
  remove_stale current_paths (p ∷ ps) ix =
      let gone : Index E = record {
        files = erase p ix.files;
        chunks = delete_chunks p ix.chunks;
      } in
      let (kept, removed) = remove_stale current_paths ps ix in
      let (left, removed') = remove_stale current_paths ps gone in
      if mem_name p current_paths then (kept, removed) else (left, p ∷ removed')

  -- `remove_stale_files`
  unfoldable pub remove_stale_files : List String → Index E → Index E × List String
  unfolding remove_stale
  remove_stale_files current_paths ix = remove_stale current_paths (map (λ r. r.0) ix.files) ix

  -- the embeddings assigned by their position: one too many is an IndexError
  unfoldable pub with_embeddings : List Chunk → List E → Option (List (Chunk × Option E))
  with_embeddings [] [] = some []
  with_embeddings [] (e ∷ es) = none
  with_embeddings (c ∷ cs) [] = elim (with_embeddings cs []) [
    | none ↦ none
    | some rest ↦ some ((c, none) ∷ rest)
  ]
  with_embeddings (c ∷ cs) (e ∷ es) = elim (with_embeddings cs es) [
    | none ↦ none
    | some rest ↦ some ((c, some e) ∷ rest)
  ]

  -- `embed_batch` and the loop that assigns what it returns
  unfoldable pub embedded : List Chunk → Option (List E) → Option (List (Chunk × Option E))
  unfolding with_embeddings
  embedded chunks none = none
  embedded chunks (some es) = with_embeddings chunks es

  -- `update_chunks` on a file whose chunks are embedded
  unfoldable pub indexed_as : String → ℕ → Index E → Summary → Option (Index E) → Run E
  indexed_as path n ix s none = aborted ix
  indexed_as path n ix s (some ix') = ended ix' (record s { indexed = s.indexed ++ (path, n) ∷ [] })

  unfoldable pub write_file :
      String → Text → Index E → Summary → Option (List (Chunk × Option E)) → Run E
  unfolding indexed_as update_chunks
  write_file path file_hash ix s none = ended ix (record s { errors = s.errors ++ path ∷ [] })
  write_file path file_hash ix s (some chunks) =
      indexed_as path (length chunks) ix s (update_chunks path chunks file_hash ix)

  -- `rel_path in indexed and indexed[rel_path] == file_hash`
  unfoldable pub is_indexed : Option Text → Text → Bool
  unfolding text_eq
  is_indexed none file_hash = false
  is_indexed (some h) file_hash = text_eq h file_hash

  -- the body of the loop over the files; `before` are the hashes from before the run
  unfoldable pub index_file : Bool → Dict Text → String → Read → Index E → Summary → Run E
  unfolding is_indexed write_file embedded lookup
  index_file force before path os_error ix s =
      ended ix (record s { errors = s.errors ++ path ∷ [] })
  index_file force before path decode_error ix s = aborted ix
  index_file force before path (content text) ix s =
      let file_hash = u.sha256 text in
      let chunks = chunk_file (u.splitlines text) u.chunk_size u.overlap in
      if not force && is_indexed (lookup path before) file_hash
      then ended ix (record s { skipped = suc s.skipped })
      else if is_empty chunks
      then ended ix (record s { skipped = suc s.skipped })
      else write_file path file_hash ix s (embedded chunks (u.embed (map (λ c. c.text) chunks)))

  -- one round of the loop, unless an exception left it before
  unfoldable pub next_file : Bool → Dict Text → String → Read → Run E → Run E
  unfolding index_file
  next_file force before path r (aborted ix) = aborted ix
  next_file force before path r (ended ix s) = index_file force before path r ix s

  unfoldable pub index_files : Bool → Dict Text → List (String × Read) → Run E → Run E
  unfolding next_file
  index_files force before [] run = run
  index_files force before ((path, r) ∷ files) run =
      index_files force before files (next_file force before path r run)

  -- what follows the loop
  unfoldable pub after_files : List String → Run E → Run E
  unfolding remove_stale_files
  after_files paths (aborted ix) = aborted ix
  after_files paths (ended ix s) =
      let (ix', removed) = remove_stale_files paths ix in ended ix' (record s { removed = removed })

  -- `index_workspace` on the scanned files, with an API key
  unfoldable pub index_workspace : Bool → List (String × Read) → Index E → Run E
  unfolding index_files after_files
  index_workspace force files ix = after_files (map (λ f. f.0) files) (
      index_files force ix.files files
        (ended ix (record { indexed = []; skipped = 0; removed = []; errors = [] })))
