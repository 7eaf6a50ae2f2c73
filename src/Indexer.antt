-- ===== src/Indexer.antt =====
-- tools/indexer.py: the files of the workspace, cut into chunks of lines and kept in tables.
pub mod Cover
pub mod Tables
use lucyd.Base.{
  ℕ, zero, suc, ◌+◌, ◌-◌, max, Text, Bool, true, false, not, ◌&&◌, List, [], ◌∷◌, ◌++◌, take, drop,
  length, lit, join, ltb, leb, if◌then◌else◌,
}
use mathlib.Core.List.{reverse}

-- One dict of `chunk_file`: lines from 1, both ends included.
pub record Chunk : Type 0 where
  pub text : Text
  pub start_line : ℕ
  pub end_line : ℕ

-- the inner loop: how many lines it takes of the ones that are left, `chunk_lines` being empty or not
unfoldable pub fill_lines : ℕ → ℕ → Bool → List Text → ℕ
fill_lines chunk_size char_count started [] = 0
fill_lines chunk_size char_count started (line ∷ lines) =
    let added = length line + (if started then 1 else 0) in
    let rest = fill_lines chunk_size (char_count + added) true lines in
    if ltb chunk_size (char_count + added) && started then 0 else suc rest

-- the loop back over the lines of a chunk, the last one first: how many the next chunk repeats
unfoldable pub overlap_lines : ℕ → ℕ → List Text → ℕ
overlap_lines overlap overlap_chars [] = 0
overlap_lines overlap overlap_chars (line ∷ lines) =
    let line_cost = length line + 1 in
    let rest = overlap_lines overlap (overlap_chars + line_cost) lines in
    if ltb overlap (overlap_chars + line_cost) then 0 else suc rest

-- The outer loop from the line `start_idx`, on fuel: each round begins at least one line further, so that
-- as many rounds as there are lines left are enough.
unfoldable pub chunk_from : ℕ → ℕ → ℕ → List Text → ℕ → List Chunk
unfolding fill_lines overlap_lines join lit
chunk_from zero chunk_size overlap lines start_idx = []
chunk_from (suc fuel) chunk_size overlap lines start_idx =
    let ahead = drop start_idx lines in
    let taken = fill_lines chunk_size 0 false ahead in
    let chunk_lines = take taken ahead in
    let end_idx = start_idx + taken in
    let overlap_start = end_idx - overlap_lines overlap 0 (reverse chunk_lines) in
    let chunk : Chunk = record {
      text = join (lit "\n") chunk_lines;
      start_line = start_idx + 1;
      end_line = start_idx + length chunk_lines;
    } in
    let rest = chunk_from fuel chunk_size overlap lines (max (start_idx + 1) overlap_start) in
    if leb (length lines) start_idx
    then []
    else if leb (length lines) end_idx
    then chunk ∷ []
    else chunk ∷ rest

-- `chunk_file`
unfoldable pub chunk_file : List Text → ℕ → ℕ → List Chunk
unfolding chunk_from
chunk_file lines chunk_size overlap = chunk_from (length lines) chunk_size overlap lines 0
