-- ===== src/Files/Edits.antt =====
-- tools/filesystem.py, `tool_edit`: an edit of one occurrence.
use lucyd.Base.{
  ℕ, Text, any, Bool, ◌&&◌, ◌⊎◌, ◌≡◌, ◌∙◌, refl, sym, ap, append-nil, true, false, some, List, [],
  ◌∷◌, ◌++◌, drop, length, lit, starts_with, contains, text_eq, text_eq_iff, ltb, ◌==◌, ==_iff,
  Bool-cases, inl, inr, arith,
}
use lucyd.Files.{
  Entry, file, Disk, entry_at, put_entry, Access, check_path, is_locked, is_directory, write_text,
  count_text, replace_first, newlines_from, universal_newlines, edit_content, edit_entry,
  edit_checked, tool_edit,
}

starts_with-append : (s p : Text) → starts_with s p ≡ true → s ≡ p ++ drop (length p) s
unfolding starts_with
starts_with-append s [] h = refl
starts_with-append [] (p ∷ ps) h = cc
starts_with-append (c ∷ s) (p ∷ ps) h = elim (Bool-cases (c == p)) [
  | inl same ↦
      (let rest : starts_with s ps ≡ true = ground (arith, same) in
        ap (λ (r : Text). c ∷ r) (starts_with-append s ps rest)
        ∙ ap (λ (x : ℕ). x ∷ (ps ++ drop (length ps) s)) ((==_iff c p).0 same))
  | inr other ↦ absurd (ground (arith, other))
]

-- The first occurrence gives way to the new text, and what is before and behind it stays.
replace_first-Once :
    (old new content : Text)
    → contains content old ≡ true
    → (pre post : Text) × (content ≡ pre ++ (old ++ post))
      × (replace_first old new content ≡ pre ++ (new ++ post))
unfolding contains replace_first starts_with
replace_first-Once [] new [] h = ([], [], refl, sym (append-nil new))
replace_first-Once (o ∷ os) new [] h = cc
replace_first-Once old new (c ∷ cs) h = elim (Bool-cases (starts_with (c ∷ cs) old)) [
  | inl here ↦ ([], drop (length old) (c ∷ cs), starts_with-append (c ∷ cs) old here, rw here)
  | inr later ↦
      (let (pre, post, split, result) = replace_first-Once old new cs (ground (arith, later)) in
        (c ∷ pre, post, ap (λ (r : Text). c ∷ r) split, rw (later, result)))
]

entry_at-put_entry :
    (p : Text) (e : Entry) (es : List (Text × Entry)) → entry_at p (put_entry p e es) ≡ some e
unfolding entry_at put_entry
entry_at-put_entry p e [] = rw ((text_eq_iff p p).1 refl)
entry_at-put_entry p e ((r, f) ∷ es) = elim (Bool-cases (text_eq r p)) [
  | inl same ↦ rw (same, (text_eq_iff p p).1 refl)
  | inr other ↦ rw (other, other) (entry_at-put_entry p e es)
]

-- whether a text has a carriage return
abbrev pub has_return : Text → Bool
has_return t = any (λ c. c == 13) t

-- What is read has no carriage return, and a text without one is read as it is.
abbrev pub Translated : Text → Text → Type 0
Translated content read =
    (has_return read ≡ false) × ((read ≡ content) ⊎ (has_return content ≡ true))

newlines_from-clean : (after : Bool) (t : Text) → has_return (newlines_from after t) ≡ false
unfolding newlines_from
newlines_from-clean after [] = refl
newlines_from-clean after (c ∷ cs) = elim (Bool-cases (c == 13)) [
  | inl return ↦ rw return (newlines_from-clean true cs)
  | inr other ↦ elim (Bool-cases (after && (c == 10))) [
    | inl second ↦ rw (other, second) (newlines_from-clean false cs)
    | inr kept ↦ rw (other, kept, other) (newlines_from-clean false cs)
  ]
]

newlines_from-same : (t : Text) → (newlines_from false t ≡ t) ⊎ (has_return t ≡ true)
unfolding newlines_from
newlines_from-same [] = inl refl
newlines_from-same (c ∷ cs) = elim (Bool-cases (c == 13)) [
  | inl return ↦ inr (rw return refl)
  | inr other ↦ elim (newlines_from-same cs) [
    | inl same ↦ inl (rw (other, same) refl)
    | inr return ↦ inr (rw (other, return) refl)
  ]
]

-- Without `replace_all`, an edit of a text file that it may read and write, on a path that is neither
-- locked nor refused, whose old text occurs in what is read, and at most once by str.count, succeeds. The
-- file is read with every carriage return, and the line feed behind it, as one line feed, so what is read
-- has no carriage return, and is the file's text if that has none. The file then is what was read with the
-- new text in place of the old one, and all before and behind it as it was read.
pub tool_edit-Once :
    (a : Access) (path resolved old new content : Text) (d : Disk)
    → is_locked a path ≡ false
    → check_path a path ≡ inl resolved
    → entry_at resolved d.entries ≡ some (file content)
    → a.readable resolved ≡ true
    → a.writable resolved ≡ true
    → contains (universal_newlines content) old ≡ true
    → ltb 1 (count_text old (universal_newlines content)) ≡ false
    → (pre post : Text) × (d' : Disk) × Translated content (universal_newlines content)
      × (universal_newlines content ≡ pre ++ (old ++ post))
      × (tool_edit a path old new false d ≡ some (d', lit "Edited " ++ path))
      × (entry_at resolved d'.entries ≡ some (file (pre ++ (new ++ post))))
unfolding tool_edit edit_checked edit_entry edit_content write_text is_directory universal_newlines
    newlines_from
tool_edit-Once a path resolved old new content d free passed there readable writable found once =
    let read = universal_newlines content in
    let (pre, post, split, result) = replace_first-Once old new read found in
    (
      pre,
      post,
      record { entries = put_entry resolved (file (replace_first old new read)) d.entries },
      (newlines_from-clean false content, newlines_from-same content),
      split,
      rw (free, passed, there, readable, found, once, writable, there),
      entry_at-put_entry resolved (file (replace_first old new read)) d.entries
          ∙ ap (λ (t : Text). some (file t)) result,
    )
