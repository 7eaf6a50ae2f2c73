-- ===== src/Indexer/Tables/Recorded.antt =====
-- tools/indexer.py, `index_workspace`: what the loop over the files leaves in search.files.
use lucyd.Base.{
  ℕ, suc, String, Text, ◌≡◌, ◌∙◌, refl, sym, subst, Bool, true, false, Option, none, some, List, [],
  ◌∷◌, ◌++◌, map, length, text_eq_iff, mem_name, is_empty, str_eq, eq_iff, eq_refl, All, Bool-cases,
  ◌⊎◌, inl, inr, arith, if◌then◌else◌,
}
use lucyd.Base.Dict.{Dict, lookup, lookup-insert}
use lucyd.Indexer.{Chunk, chunk_file}
use lucyd.Indexer.Tables.{
  ChunkRow, Index, Read, os_error, decode_error, content, Summary, Setup, Run, ended, aborted,
  delete_chunks, insert_chunks, upsert_file, update_chunks, embedded, indexed_as, write_file,
  is_indexed, index_file, next_file, index_files,
}

module _ {E : Type 0} (u : Setup E) where
  -- The file's hash is recorded, or the file has no chunk to record.
  abbrev pub Recorded : Index E → String × Read → Type 0
  Recorded ix (path, os_error) = ⊥
  Recorded ix (path, decode_error) = ⊥
  Recorded ix (path, content text) =
      (lookup path ix.files ≡ some (u.sha256 text))
      ⊎ (is_empty (chunk_file (u.splitlines text) u.chunk_size u.overlap) ≡ true)

  -- A run that ended without errors, and what holds of its tables.
  abbrev pub Clean : (Index E → Type 0) → Run E → Type 0
  Clean P (aborted ix) = ⊥
  Clean P (ended ix s) = (s.errors ≡ []) × P ix

  abbrev pub Anything : Index E → Type 0
  Anything ix = Unit

  no_error_after : (es : List String) (p : String) → es ++ p ∷ [] ≡ [] → ⊥
  no_error_after [] p h = cc
  no_error_after (e ∷ es) p h = cc

  -- The run writes nothing but the hash of the file, and records it if the table has still the hash from before.
  abbrev Wrote : Dict Text → Summary → Index E → String → Read → Index E → Type 0
  Wrote before s ix path r ix' =
      (s.errors ≡ [])
      × (lookup path ix.files ≡ lookup path before → Recorded ix' (path, r))
      × ((q : String)
          → (if str_eq path q then none else lookup q ix'.files)
            ≡ (if str_eq path q then none else lookup q ix.files))

  indexed_as-Wrote :
      (before : Dict Text) (path : String) (n : ℕ) (ix : Index E) (s : Summary) (text : Text)
      (rows : Option (List (ChunkRow E)))
      → let o = upsert_file u path (u.sha256 text) ix rows in
        Clean Anything (indexed_as u path n ix s o)
        → Clean (Wrote before s ix path (content text)) (indexed_as u path n ix s o)
  unfolding indexed_as upsert_file
  indexed_as-Wrote before path n ix s text none h = h
  indexed_as-Wrote before path n ix s text (some rows) h = (
    h.0,
    (
      h.0,
      λ same. inl (rw (lookup-insert path path (u.sha256 text) ix.files, eq_refl path)),
      λ q. rw (lookup-insert path q (u.sha256 text) ix.files) (if-if (str_eq path q) _ _),
    ),
  )
    where
      if-if :
          (b : Bool) (x y : Option Text)
          → (if b then none else if b then x else y) ≡ (if b then none else y)
      if-if true x y = refl
      if-if false x y = refl

  write_file-Wrote :
      (before : Dict Text) (path : String) (ix : Index E) (s : Summary) (text : Text)
      (o : Option (List (Chunk × Option E)))
      → Clean Anything (write_file u path (u.sha256 text) ix s o)
      → Clean (Wrote before s ix path (content text)) (write_file u path (u.sha256 text) ix s o)
  unfolding write_file update_chunks
  write_file-Wrote before path ix s text none h = absurd (no_error_after s.errors path h.0)
  write_file-Wrote before path ix s text (some chunks) h =
      indexed_as-Wrote before path (length chunks) ix s text
        (insert_chunks u path chunks (delete_chunks u path ix.chunks)) h

  is_indexed-hash : (o : Option Text) (h : Text) → is_indexed u o h ≡ true → o ≡ some h
  unfolding is_indexed
  is_indexed-hash none h e = cc
  is_indexed-hash (some g) h e = grind (arith, text_eq_iff g h)

  vectors : Text → Option (List (Chunk × Option E))
  vectors text =
      let chunks = chunk_file (u.splitlines text) u.chunk_size u.overlap in
      embedded u chunks (u.embed (map (λ c. c.text) chunks))

  along :
      (P : Index E → Type 0) (run run' : Run E)
      → run ≡ run'
      → (Clean Anything run' → Clean P run')
      → Clean Anything run
      → Clean P run
  along P run run' e f h = subst (Clean P) (sym e) (f (subst (Clean Anything) e h))

  index_file-Wrote :
      (before : Dict Text) (path : String) (r : Read) (ix : Index E) (s : Summary)
      → Clean Anything (index_file u false before path r ix s)
      → Clean (Wrote before s ix path r) (index_file u false before path r ix s)
  unfolding index_file vectors
  index_file-Wrote before path os_error ix s h = absurd (no_error_after s.errors path h.0)
  index_file-Wrote before path decode_error ix s h = h
  index_file-Wrote before path (content text) ix s h =
      elim (Bool-cases (is_indexed u (lookup path before) (u.sha256 text))) [
        | inl known ↦
            along (Wrote before s ix path (content text))
              (index_file u false before path (content text) ix s)
              (ended ix (record s { skipped = suc s.skipped })) (rw known)
              (λ c. (
                c.0,
                (
                  c.0,
                  λ same. inl (same ∙ is_indexed-hash (lookup path before) (u.sha256 text) known),
                  λ q. refl,
                ),
              ))
              h
        | inr changed ↦
            elim (Bool-cases (is_empty (chunk_file (u.splitlines text) u.chunk_size u.overlap))) [
              | inl nothing ↦
                  along (Wrote before s ix path (content text))
                    (index_file u false before path (content text) ix s)
                    (ended ix (record s { skipped = suc s.skipped })) (rw (changed, nothing))
                    (λ c. (c.0, (c.0, λ same. inr nothing, λ q. refl))) h
              | inr chunks ↦
                  along (Wrote before s ix path (content text))
                    (index_file u false before path (content text) ix s)
                    (write_file u path (u.sha256 text) ix s (vectors text)) (rw (changed, chunks))
                    (write_file-Wrote before path ix s text (vectors text)) h
            ]
      ]

  paths_of : List (String × Read) → List String
  paths_of files = map (λ f. f.0) files

  -- No two files have the same path.
  abbrev pub AreDistinct : List (String × Read) → Type 0
  AreDistinct [] = Unit
  AreDistinct ((path, r) ∷ files) =
      (mem_name path (map (λ f. f.0) files) ≡ false) × AreDistinct files

  aborted-Clean :
      (before : Dict Text) (files : List (String × Read)) (ix : Index E)
      → Clean Anything (index_files u false before files (aborted ix))
      → ⊥
  unfolding index_files next_file
  aborted-Clean before [] ix h = h
  aborted-Clean before ((path, r) ∷ files) ix h = aborted-Clean before files ix h

  next_file-Clean :
      (before : Dict Text) (path : String) (r : Read) (run : Run E)
      → Clean Anything (next_file u false before path r run)
      → Clean Anything run
  unfolding next_file
  next_file-Clean before path r (aborted ix) h = h
  next_file-Clean before path r (ended ix s) h =
      errors (index_file u false before path r ix s) (index_file-Wrote before path r ix s h)
    where
      errors : (run : Run E) → Clean (Wrote before s ix path r) run → Clean Anything (ended ix s)
      errors (aborted ix') w = absurd w
      errors (ended ix' s') w = (w.1.0, tt)

  index_files-Clean :
      (before : Dict Text) (files : List (String × Read)) (run : Run E)
      → Clean Anything (index_files u false before files run)
      → Clean Anything run
  unfolding index_files
  index_files-Clean before [] run h = h
  index_files-Clean before ((path, r) ∷ files) run h =
      next_file-Clean before path r run
        (index_files-Clean before files (next_file u false before path r run) h)

  -- What the loop makes of the tables: all the files are recorded, and no other path is written.
  abbrev pub WroteAll : Index E → List (String × Read) → Index E → Type 0
  WroteAll ix files ix' =
      All (Recorded ix') files
      × ((q : String)
          → (mem_name q (map (λ f. f.0) files) ≡ false)
          → lookup q ix'.files ≡ lookup q ix.files)

  abbrev pub Same : Dict Text → Index E → String × Read → Type 0
  Same before ix f = lookup f.0 ix.files ≡ lookup f.0 before

  pub Recorded-keep :
      (ix ix' : Index E) (path : String) (r : Read)
      → lookup path ix'.files ≡ lookup path ix.files
      → Recorded ix (path, r)
      → Recorded ix' (path, r)
  Recorded-keep ix ix' path os_error e w = w
  Recorded-keep ix ix' path decode_error e w = w
  Recorded-keep ix ix' path (content text) e (inl known) = inl (e ∙ known)
  Recorded-keep ix ix' path (content text) e (inr nothing) = inr nothing

  unwritten :
      (before : Dict Text) (s : Summary) (ix : Index E) (path : String) (r : Read) (ix' : Index E)
      (q : String)
      → Wrote before s ix path r ix'
      → str_eq path q ≡ false
      → lookup q ix'.files ≡ lookup q ix.files
  unwritten before s ix path r ix' q w other =
      subst
        (λ (b : Bool).
          (if b then none else lookup q ix'.files) ≡ (if b then none else lookup q ix.files))
        other (w.2 q)

  Same-keep :
      (before : Dict Text) (s : Summary) (ix : Index E) (path : String) (r : Read) (ix' : Index E)
      (files : List (String × Read))
      → Wrote before s ix path r ix'
      → mem_name path (map (λ f. f.0) files) ≡ false
      → All (Same before ix) files
      → All (Same before ix') files
  unfolding mem_name
  Same-keep before s ix path r ix' [] w d same = tt
  Same-keep before s ix path r ix' ((q, r') ∷ files) w d (own, others) = (
    unwritten before s ix path r ix' q w (ground arith) ∙ own,
    Same-keep before s ix path r ix' files w (ground arith) others,
  )

  WroteAll-cons :
      (before : Dict Text) (s : Summary) (ix : Index E) (path : String) (r : Read)
      (files : List (String × Read)) (ix' ix'' : Index E)
      → lookup path ix.files ≡ lookup path before
      → mem_name path (map (λ f. f.0) files) ≡ false
      → Wrote before s ix path r ix'
      → WroteAll ix' files ix''
      → WroteAll ix ((path, r) ∷ files) ix''
  unfolding mem_name
  WroteAll-cons before s ix path r files ix' ix'' same d w (all, frame) = (
    (Recorded-keep ix' ix'' path r (frame path d) (w.1 same), all),
    λ q e.
        frame q (ground arith)
        ∙ unwritten before s ix path r ix' q w (ground (arith, eq_iff path q, eq_iff q path)),
  )

  pub Clean-map :
      (P Q : Index E → Type 0) (run : Run E)
      → ((ix : Index E) → P ix → Q ix)
      → Clean P run
      → Clean Q run
  Clean-map P Q (aborted ix) f h = h
  Clean-map P Q (ended ix s) f h = (h.0, f ix h.1)

  pub index_files-WroteAll :
      (before : Dict Text) (files : List (String × Read)) (ix : Index E) (s : Summary)
      → AreDistinct files
      → All (Same before ix) files
      → Clean Anything (index_files u false before files (ended ix s))
      → Clean (WroteAll ix files) (index_files u false before files (ended ix s))
  unfolding index_files next_file
  index_files-WroteAll before [] ix s d same h = (h.0, (tt, λ q e. refl))
  index_files-WroteAll before ((path, r) ∷ files) ix s d same h =
      after (index_file u false before path r ix s)
        (λ ix' s'. index_files-WroteAll before files ix' s' d.1)
        (index_file-Wrote before path r ix s
          (index_files-Clean before files (index_file u false before path r ix s) h))
        h
    where
      after :
          (run : Run E)
          → ((ix' : Index E) (s' : Summary)
              → All (Same before ix') files
              → Clean Anything (index_files u false before files (ended ix' s'))
              → Clean (WroteAll ix' files) (index_files u false before files (ended ix' s')))
          → Clean (Wrote before s ix path r) run
          → Clean Anything (index_files u false before files run)
          → Clean (WroteAll ix ((path, r) ∷ files)) (index_files u false before files run)
      after (aborted ix') rest w c = absurd w
      after (ended ix' s') rest w c =
          Clean-map (WroteAll ix' files) (WroteAll ix ((path, r) ∷ files))
            (index_files u false before files (ended ix' s'))
            (λ ix''. WroteAll-cons before s ix path r files ix' ix'' same.0 d.0 w.1)
            (rest ix' s' (Same-keep before s ix path r ix' files w.1 d.0 same.1) c)
