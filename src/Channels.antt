-- ===== src/Channels.antt =====
-- channels/telegram.py: long messages in chunks, and sending with retries.
pub mod Chunks
use lucyd.Base.{
  ℕ, zero, suc, ◌+◌, Text, Bool, true, false, not, ◌&&◌, Option, none, some, List, [], ◌∷◌, ◌++◌,
  take, drop, length, is_empty, ltb, leb, lit, ◌==◌, if◌then◌else◌,
}

-- the first line of a text after `current`, and the others: `text.split("\n")`
unfoldable pub lines_after : Text → Text → List Text
lines_after current [] = current ∷ []
lines_after current (c ∷ cs) =
    let same = lines_after (current ++ c ∷ []) cs in
    let next = lines_after [] cs in if c == 10 then current ∷ next else same

unfoldable pub split_lines : Text → List Text
unfolding lines_after
split_lines text = lines_after [] text

-- what is left at the end, cut by the limit: each round takes `limit` characters off, so as many rounds
-- as there are characters are enough for a limit above 0
unfoldable pub cut_rest : ℕ → ℕ → Text → List Text
cut_rest zero limit current = current ∷ []
cut_rest (suc fuel) limit current =
    let rest = cut_rest fuel limit (drop limit current) in
    if ltb limit (length current)
    then take limit current ∷ rest
    else if is_empty current
    then []
    else current ∷ []

-- the loop over the lines: `current` is the chunk that is being filled
unfoldable pub fill_chunks : ℕ → Text → List Text → List Text
unfolding cut_rest
fill_chunks limit current [] =
    if is_empty current then [] else cut_rest (length current) limit current
fill_chunks limit current (line ∷ lines) =
    let flushed = fill_chunks limit line lines in
    let joined =
      fill_chunks limit (if is_empty current then line else current ++ 10 ∷ line) lines in
    if not (is_empty current) && ltb limit (length current + length line + 1)
    then current ∷ flushed
    else joined

-- `chunk_text`
unfoldable pub chunk_text : ℕ → Text → List Text
unfolding fill_chunks split_lines
chunk_text limit text =
    if leb (length text) limit then text ∷ [] else fill_chunks limit [] (split_lines text)
