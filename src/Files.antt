-- ===== src/Files.antt =====
-- tools/filesystem.py: reading, writing and editing files under the allowed paths.
pub mod Confined
pub mod Edits
use lucyd.Base.{
  ℕ, zero, suc, ◌+◌, ◌-◌, String, Text, Bool, true, false, not, ◌&&◌, ◌||◌, ◌==◌, Option, none,
  some, List, [], ◌∷◌, ◌++◌, any, take, drop, length, lit, decimal, starts_with, contains, text_eq,
  mem_text, is_empty, ltb, ◌⊎◌, inl, inr, if◌then◌else◌,
}

-- What is at a path: a directory, a file that is not UTF-8, or the characters of a text file, its line
-- ends as they are stored. Writing stores a line feed as it is, which is so on POSIX.
pub data Entry : Type 0 where
  directory binary : Entry
  file : Text → Entry

-- The files by their resolved paths.
pub record Disk : Type 0 where
  pub entries : List (Text × Entry)

unfoldable pub entry_at : Text → List (Text × Entry) → Option Entry
unfolding text_eq
entry_at p [] = none
entry_at p ((q, e) ∷ es) = let rest = entry_at p es in if text_eq q p then some e else rest

unfoldable pub put_entry : Text → Entry → List (Text × Entry) → List (Text × Entry)
unfolding text_eq
put_entry p e [] = (p, e) ∷ []
put_entry p e ((q, f) ∷ es) =
    let rest = put_entry p e es in if text_eq q p then (p, e) ∷ es else (q, f) ∷ rest

-- `Path(..).expanduser().resolve()`, the name of a path, what the process may read and write, and
-- the configuration.
pub record Access : Type 0 where
  pub resolve : Text → Option Text
  pub name : Text → Text
  pub readable : Text → Bool
  pub writable : Text → Bool
  pub allow : List Text
  pub locked_basenames : List Text
  pub default_read_limit : ℕ
  pub separator : Text

module _ (a : Access) where
  -- `resolved == prefix or resolved.startswith(prefix + os.sep)`
  unfoldable pub is_under : Text → Text → Bool
  unfolding text_eq starts_with
  is_under resolved prefix = text_eq resolved prefix || starts_with resolved (prefix ++ a.separator)

  unfoldable pub is_allowed : Text → Bool
  unfolding is_under
  is_allowed resolved = any (is_under resolved) a.allow

  -- `_check_path` on a path that resolves, or does not: the resolved path, or the error
  unfoldable pub check_resolved : Text → Option Text → Text ⊎ Text
  unfolding is_allowed lit
  check_resolved path none = inr (lit "Error: Invalid path: " ++ path)
  check_resolved path (some resolved) =
      if is_empty a.allow
      then inr (lit "Error: No allowed paths configured — filesystem access denied")
      else if is_allowed resolved
      then inl resolved
      else inr (lit "Error: Path not allowed: " ++ path)

  -- `_check_path`
  unfoldable pub check_path : Text → Text ⊎ Text
  unfolding check_resolved
  check_path path = check_resolved path (a.resolve path)

  -- `_guard_locked`
  unfoldable pub is_locked : Text → Bool
  unfolding mem_text
  is_locked path = mem_text (a.name path) a.locked_basenames

  unfoldable pub locked_error : Text → Text
  unfolding lit
  locked_error path =
      lit "Error: "
      ++ (a.name path
          ++ lit " is operator-owned; raise changes with the operator, don't edit it directly.")

  unfoldable pub is_directory : Option Entry → Bool
  is_directory (some directory) = true
  is_directory (some binary) = false
  is_directory (some (file t)) = false
  is_directory none = false

  -- the `open` for writing: the file, PermissionError, or, as `none`, the IsADirectoryError that is not caught
  unfoldable pub write_text : Text → Text → Text → Text → Disk → Option (Disk × Text)
  unfolding put_entry entry_at is_directory lit
  write_text path resolved content done d =
      if is_directory (entry_at resolved d.entries)
      then none
      else if a.writable resolved
      then some (record d { entries = put_entry resolved (file content) d.entries }, done)
      else some (d, lit "Error: Permission denied: " ++ path)

  unfoldable pub write_checked : Text → Text → Disk → Text ⊎ Text → Option (Disk × Text)
  unfolding write_text decimal lit
  write_checked path content d (inr err) = some (d, err)
  write_checked path content d (inl resolved) =
      write_text path resolved content
        (lit "Written " ++ (decimal (length content) ++ (lit " chars to " ++ path))) d

  -- `tool_write`
  unfoldable pub tool_write : Text → Text → Disk → Option (Disk × Text)
  unfolding is_locked locked_error check_path write_checked
  tool_write path content d =
      if is_locked path
      then some (d, locked_error path)
      else write_checked path content d (check_path path)

-- `content.count(old)` of a text that is not empty: `skip` characters belong to the last occurrence
unfoldable pub count_from : ℕ → Text → Text → ℕ
unfolding starts_with
count_from skip old [] = 0
count_from zero old (c ∷ cs) =
    let found = count_from (length old - 1) old cs in
    let rest = count_from 0 old cs in if starts_with (c ∷ cs) old then suc found else rest
count_from (suc skip) old (c ∷ cs) = count_from skip old cs

unfoldable pub count_text : Text → Text → ℕ
unfolding count_from
count_text old content = if is_empty old then suc (length content) else count_from 0 old content

-- `content.replace(old, new, 1)`
unfoldable pub replace_first : Text → Text → Text → Text
unfolding starts_with
replace_first old new [] = if is_empty old then new else []
replace_first old new (c ∷ cs) =
    let rest = replace_first old new cs in
    if starts_with (c ∷ cs) old then new ++ drop (length old) (c ∷ cs) else c ∷ rest

-- `content.replace(old, new)` for an `old` that is not empty, and between all characters for one that is
unfoldable pub replace_from : ℕ → Text → Text → Text → Text
unfolding starts_with
replace_from skip old new [] = []
replace_from zero old new (c ∷ cs) =
    let found = replace_from (length old - 1) old new cs in
    let rest = replace_from 0 old new cs in
    if starts_with (c ∷ cs) old then new ++ found else c ∷ rest
replace_from (suc skip) old new (c ∷ cs) = replace_from skip old new cs

unfoldable pub interleave : Text → Text → Text
interleave new [] = new
interleave new (c ∷ cs) = new ++ c ∷ interleave new cs

unfoldable pub replace_text : Text → Text → Text → Text
unfolding replace_from interleave
replace_text old new content =
    if is_empty old then interleave new content else replace_from 0 old new content

-- Reading in text mode without `newline`: a carriage return, with the line feed behind it if there is one,
-- is read as a line feed.
unfoldable pub newlines_from : Bool → Text → Text
newlines_from after_return [] = []
newlines_from after_return (c ∷ cs) =
    let returned = newlines_from true cs in
    let rest = newlines_from false cs in
    if c == 13 then 10 ∷ returned else if after_return && (c == 10) then rest else c ∷ rest

unfoldable pub universal_newlines : Text → Text
universal_newlines content = newlines_from false content

module _ (a : Access) where
  -- what follows the reading of the file in `tool_edit`
  unfoldable pub edit_content :
      Text → Text → Text → Text → Bool → Text → Disk → Option (Disk × Text)
  unfolding contains count_text replace_first replace_text write_text decimal lit
  edit_content path resolved old new replace_all content d =
      let n = count_text old content in
      if not (contains content old)
      then some (
        d,
        lit "Error: old_string not found in "
            ++ (path
                ++ lit
                    ". Ensure exact match including whitespace and newlines. Use read to verify current content."),
      )
      else if replace_all
      then write_text a path resolved (replace_text old new content)
          (lit "Replaced " ++ (decimal n ++ (lit " occurrences in " ++ path))) d
      else if ltb 1 n
      then some (
        d,
        lit "Error: old_string found "
            ++ (decimal n
                ++ (lit " times in "
                    ++ (path ++ lit ". Use replace_all=true or provide more context."))),
      )
      else write_text a path resolved (replace_first old new content) (lit "Edited " ++ path) d

  -- the reading: `none` for the errors that are not caught, IsADirectoryError and PermissionError
  unfoldable pub edit_entry :
      Text → Text → Text → Text → Bool → Disk → Option Entry → Option (Disk × Text)
  unfolding edit_content lit
  edit_entry path resolved old new replace_all d none =
      some (d, lit "Error: File not found: " ++ path)
  edit_entry path resolved old new replace_all d (some directory) = none
  edit_entry path resolved old new replace_all d (some binary) =
      if a.readable resolved then some (d, lit "Error: Cannot read binary file: " ++ path) else none
  edit_entry path resolved old new replace_all d (some (file content)) =
      if a.readable resolved
      then edit_content path resolved old new replace_all (universal_newlines content) d
      else none

  unfoldable pub edit_checked :
      Text → Text → Text → Bool → Disk → Text ⊎ Text → Option (Disk × Text)
  unfolding edit_entry entry_at
  edit_checked path old new replace_all d (inr err) = some (d, err)
  edit_checked path old new replace_all d (inl resolved) =
      edit_entry path resolved old new replace_all d (entry_at resolved d.entries)

  -- `tool_edit`
  unfoldable pub tool_edit : Text → Text → Text → Bool → Disk → Option (Disk × Text)
  unfolding is_locked locked_error check_path edit_checked
  tool_edit path old new replace_all d =
      if is_locked a path
      then some (d, locked_error a path)
      else edit_checked path old new replace_all d (check_path a path)

-- The calls that change a file.
pub data Call : Type 0 where
  write : Text → Text → Call
  edit : Text → Text → Text → Bool → Call

unfoldable pub path_of : Call → Text
path_of (write path content) = path
path_of (edit path old new replace_all) = path

unfoldable pub run_call : Access → Call → Disk → Option (Disk × Text)
unfolding tool_write tool_edit
run_call a (write path content) d = tool_write a path content d
run_call a (edit path old new replace_all) d = tool_edit a path old new replace_all d
