-- ===== src/Indexer/Tables/Again.antt =====
-- tools/indexer.py, `index_workspace`: a second run over the same files.
use lucyd.Base.{
  ℕ, suc, ◌+◌, String, Text, ◌≡◌, ◌∙◌, refl, sym, ap, subst, Bool, true, false, ◌||◌, List, [], ◌∷◌,
  map, length, text_eq_iff, mem_name, str_eq, eq_iff, eq_refl, All, Bool-cases, inl, inr, arith,
  if◌then◌else◌,
}
use lucyd.Base.Dict.{Dict, lookup, erase, lookup-erase}
use lucyd.Indexer.Tables.{
  Index, Read, os_error, decode_error, content, Summary, Setup, Run, ended, aborted, remove_stale,
  remove_stale_files, is_indexed, index_file, next_file, index_files, after_files, index_workspace,
}
use lucyd.Indexer.Tables.Recorded.{
  Recorded, Recorded-keep, Clean, Clean-map, Anything, AreDistinct, WroteAll, Same,
  index_files-WroteAll,
}

module _ {E : Type 0} (u : Setup E) where
  -- Every path of search.files is one of these, or one of those.
  abbrev Within : {V : Type 0} → List String → List String → Dict V → Type 0
  Within current rest files = All (λ f. (mem_name f.0 current || mem_name f.0 rest) ≡ true) files

  Within-current :
      (current rest : List String) (p : String) (files : Dict Text)
      → mem_name p current ≡ true
      → Within current (p ∷ rest) files
      → Within current rest files
  unfolding mem_name
  Within-current current rest p [] here w = tt
  Within-current current rest p ((q, h) ∷ files) here (own, others) = (
    elim (Bool-cases (str_eq q p)) [
      | inl same ↦ grind (arith, eq_iff q p)
      | inr other ↦
          subst (λ (b : Bool). (mem_name q current || (b || mem_name q rest)) ≡ true) other own
    ],
    Within-current current rest p files here others,
  )

  Within-erase :
      (current rest : List String) (p : String) (files : Dict Text)
      → Within current (p ∷ rest) files
      → Within current rest (erase p files)
  unfolding mem_name erase
  Within-erase current rest p [] w = tt
  Within-erase current rest p ((q, h) ∷ files) (own, others) = elim (Bool-cases (str_eq q p)) [
    | inl same ↦ rw same (Within-erase current rest p files others)
    | inr other ↦ rw other (
      subst (λ (b : Bool). (mem_name q current || (b || mem_name q rest)) ≡ true) other own,
      Within-erase current rest p files others,
    )
  ]

  remove_stale-Within :
      (current ps : List String) (ix : Index E)
      → Within current ps ix.files
      → Within current [] (remove_stale u current ps ix).0.files
  unfolding remove_stale
  remove_stale-Within current [] ix w = w
  remove_stale-Within current (p ∷ ps) ix w = elim (Bool-cases (mem_name p current)) [
    | inl here ↦
        rw here (remove_stale-Within current ps ix (Within-current current ps p ix.files here w))
    | inr gone ↦ rw gone (remove_stale-Within current ps _ (Within-erase current ps p ix.files w))
  ]

  apart :
      (current : List String) (p q : String)
      → mem_name p current ≡ false
      → mem_name q current ≡ true
      → str_eq p q ≡ false
  apart current p q gone here = grind (arith, eq_iff p q)

  -- What it removes is not among the current paths.
  remove_stale-lookup :
      (current ps : List String) (ix : Index E) (q : String)
      → mem_name q current ≡ true
      → lookup q (remove_stale u current ps ix).0.files ≡ lookup q ix.files
  unfolding remove_stale
  remove_stale-lookup current [] ix q h = refl
  remove_stale-lookup current (p ∷ ps) ix q h = elim (Bool-cases (mem_name p current)) [
    | inl here ↦ rw here (remove_stale-lookup current ps ix q h)
    | inr gone ↦ rw gone (
        remove_stale-lookup current ps _ q h
        ∙ lookup-erase p q ix.files
        ∙ rw (apart current p q gone h))
  ]

  remove_stale-nothing :
      (current ps : List String) (ix : Index E)
      → All (λ p. mem_name p current ≡ true) ps
      → remove_stale u current ps ix ≡ (ix, [])
  unfolding remove_stale
  remove_stale-nothing current [] ix w = refl
  remove_stale-nothing current (p ∷ ps) ix (here, w) =
      rw here (remove_stale-nothing current ps ix w)

  Within-all :
      (current : List String) (files : Dict Text)
      → Within current [] files
      → All (λ p. mem_name p current ≡ true) (map (λ f. f.0) files)
  unfolding mem_name
  Within-all current [] w = tt
  Within-all current ((q, h) ∷ files) (own, others) =
      (ground (arith, own), Within-all current files others)

  Within-weaken :
      {V : Type 0} (current rest : List String) (p : String) (files : Dict V)
      → Within current rest files
      → Within current (p ∷ rest) files
  unfolding mem_name
  Within-weaken current rest p [] w = tt
  Within-weaken current rest p ((q, h) ∷ files) (own, others) =
      (ground (arith, own), Within-weaken current rest p files others)

  Within-own :
      {V : Type 0} (current : List String) (files : Dict V)
      → Within current (map (λ f. f.0) files) files
  unfolding mem_name
  Within-own current [] = tt
  Within-own current ((q, h) ∷ files) = (
    ground (arith, eq_refl q),
    Within-weaken current (map (λ f. f.0) files) q files (Within-own current files),
  )

  if-same : (b : Bool) (run : Run E) → (if b then run else run) ≡ run
  if-same true run = refl
  if-same false run = refl

  -- A file that is recorded is skipped.
  index_file-skips :
      (f : String × Read) (ix : Index E) (s : Summary)
      → Recorded u ix f
      → index_file u false ix.files f.0 f.1 ix s ≡ ended ix (record s { skipped = suc s.skipped })
  unfolding index_file is_indexed
  index_file-skips (path, os_error) ix s w = absurd w
  index_file-skips (path, decode_error) ix s w = absurd w
  index_file-skips (path, content text) ix s (inl known) =
      rw (known, (text_eq_iff (u.sha256 text) (u.sha256 text)).1 refl)
  index_file-skips (path, content text) ix s (inr nothing) = rw nothing (
      if-same (is_indexed u (lookup path ix.files) (u.sha256 text))
        (ended ix (record s { skipped = suc s.skipped })))

  index_files-skips :
      (files : List (String × Read)) (ix : Index E) (s : Summary)
      → All (Recorded u ix) files
      → index_files u false ix.files files (ended ix s)
        ≡ ended ix (record s { skipped = length files + s.skipped })
  unfolding index_files next_file
  index_files-skips [] ix s w = ap (λ (n : ℕ). ended ix (record s { skipped = n })) (omega arith)
  index_files-skips ((path, r) ∷ files) ix s (own, others) =
      rw (index_file-skips (path, r) ix s own) (
        index_files-skips files ix (record s { skipped = suc s.skipped }) others
        ∙ ap (λ (n : ℕ). ended ix (record s { skipped = n })) (omega arith))

  remove_stale-Recorded :
      (current ps : List String) (ix : Index E) (files : List (String × Read))
      → Within [] current files
      → All (Recorded u ix) files
      → All (Recorded u (remove_stale u current ps ix).0) files
  unfolding mem_name
  remove_stale-Recorded current ps ix [] here w = tt
  remove_stale-Recorded current ps ix ((path, r) ∷ files) (here, more) (own, others) = (
    Recorded-keep u ix (remove_stale u current ps ix).0 path r
        (remove_stale-lookup current ps ix path here) own,
    remove_stale-Recorded current ps ix files more others,
  )

  -- Recorded files only, all of them: nothing is left to do.
  abbrev Settled : List (String × Read) → Index E → Type 0
  Settled files ix = All (Recorded u ix) files × Within (map (λ f. f.0) files) [] ix.files

  -- After a clean loop, the end of `index_workspace` leaves the scanned files.
  after_files-Settled :
      (files : List (String × Read)) (run : Run E)
      → Clean u (λ ix. All (Recorded u ix) files) run
      → Clean u (Settled files) (after_files u (map (λ f. f.0) files) run)
  unfolding after_files remove_stale_files
  after_files-Settled files (aborted ix) w = w
  after_files-Settled files (ended ix s) (clean, all) =
      let paths = map (λ f. f.0) files in
      let stored = map (λ f. f.0) ix.files in
      (
        clean,
        (
          remove_stale-Recorded paths stored ix files (Within-own [] files) all,
          remove_stale-Within paths stored ix (Within-own paths ix.files),
        ),
      )

  after_files-Clean :
      (paths : List String) (run : Run E)
      → Clean u (Anything u) (after_files u paths run)
      → Clean u (Anything u) run
  unfolding after_files
  after_files-Clean paths (aborted ix) h = h
  after_files-Clean paths (ended ix s) h = h

  all-Same : (files : List (String × Read)) (ix : Index E) → All (Same u ix.files ix) files
  all-Same [] ix = tt
  all-Same (f ∷ files) ix = (refl, all-Same files ix)

  index_workspace-Settled :
      (files : List (String × Read)) (ix : Index E)
      → AreDistinct u files
      → Clean u (Anything u) (index_workspace u false files ix)
      → Clean u (Settled files) (index_workspace u false files ix)
  unfolding index_workspace
  index_workspace-Settled files ix d h =
      let blank : Summary = record { indexed = []; skipped = 0; removed = []; errors = [] } in
      let run = index_files u false ix.files files (ended ix blank) in
      after_files-Settled files run (
        Clean-map u (WroteAll u ix files) (λ ix'. All (Recorded u ix') files) run (λ ix' w. w.0)
          (index_files-WroteAll u ix.files files ix blank d (all-Same files ix)
            (after_files-Clean (map (λ f. f.0) files) run h)))

  Settled-again :
      (files : List (String × Read)) (ix : Index E)
      → Settled files ix
      → index_workspace u false files ix
        ≡ ended ix (record { indexed = []; skipped = length files; removed = []; errors = [] })
  unfolding index_workspace after_files remove_stale_files
  Settled-again files ix (all, within) =
      rw
        (
          index_files-skips files ix
              (record { indexed = []; skipped = 0; removed = []; errors = [] }) all,
          remove_stale-nothing (map (λ f. f.0) files) (map (λ f. f.0) ix.files) ix
              (Within-all (map (λ f. f.0) files) ix.files within),
        )
        (ap (λ (n : ℕ). ended ix (record { indexed = []; skipped = n; removed = []; errors = [] }))
          (omega arith))

  -- Over files with different paths, after a run of index_workspace without `force` that ended with no
  -- error in its summary, a second run over the same files skips every one of them, removes nothing
  -- and leaves the tables as they are.
  pub index_workspace-again :
      (files : List (String × Read)) (ix ix' : Index E) (s : Summary)
      → AreDistinct u files
      → index_workspace u false files ix ≡ ended ix' s
      → s.errors ≡ []
      → index_workspace u false files ix'
        ≡ ended ix' (record { indexed = []; skipped = length files; removed = []; errors = [] })
  index_workspace-again files ix ix' s d run clean =
      let settled : Clean u (Settled files) (ended ix' s) =
        subst (Clean u (Settled files)) run (
          index_workspace-Settled files ix d
            (subst (Clean u (Anything u)) (sym run) (clean, tt))) in
      Settled-again files ix' settled.1
