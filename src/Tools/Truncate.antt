-- ===== src/Tools/Truncate.antt =====
-- tools/__init__.py, `_smart_truncate` and `_truncate_json`: how a tool's output is cut to a limit.
use lucyd.Base.{
  ℕ, ◌==◌, zero, suc, ◌+◌, ◌-◌, ◌/◌, Text, Bool, Option, none, some, [], ◌∷◌, ◌++◌, length, take,
  drop, lit, starts_with, decimal, grouped, ltb, leb, ◌||◌, if◌then◌else◌,
}
use mathlib.Core.List.{reverse}
use lucyd.Message.{Json, Items}
use lucyd.Pipeline.{lstrip}

abbrev pub count : Items → ℕ
count Items.nil = 0
count (Items.cons x xs) = suc (count xs)

-- `data[:n]`
unfoldable pub first_items : ℕ → Items → Items
first_items zero xs = Items.nil
first_items (suc n) Items.nil = Items.nil
first_items (suc n) (Items.cons x xs) = Items.cons x (first_items n xs)

unfoldable pub items_marker : ℕ → ℕ → Text
items_marker shown total =
    lit "\n[truncated — showing "
    ++ (decimal shown ++ (lit " of " ++ (decimal total ++ lit " items]")))

unfoldable pub chars_marker : ℕ → ℕ → Text
chars_marker shown total =
    lit "\n[truncated — showing "
    ++ (grouped shown ++ (lit " of " ++ (grouped total ++ lit " chars]")))

unfoldable pub skipped_marker : ℕ → ℕ → Text
skipped_marker skipped total =
    lit "\n[...truncated "
    ++ (grouped skipped ++ (lit " of " ++ (grouped total ++ lit " chars...]\n")))

unfoldable pub strip : Text → Text
strip s = reverse (lstrip (reverse (lstrip s)))

-- `s.rfind("\n")`: the last place of a newline
unfoldable pub last_newline : Text → Option ℕ
last_newline [] = none
last_newline (c ∷ cs) = elim (last_newline cs) [
  | some i ↦ some (suc i)
  | none ↦ if c == 10 then some 0 else none
]

-- `s[-n:]`, which is the whole text for 0
unfoldable pub last_chars : ℕ → Text → Text
last_chars n text = if n == 0 then text else drop (length text - n) text

-- `loads` and `dumps` are those of `json`; a text that is no JSON is `none`. `head_share n` is
-- `int(n * 0.7)`, and `near_end n limit` is `n > limit * 0.8`, both on floats.
module _ (loads : Text → Option Json) (dumps : Json → Text) (head_share : ℕ → ℕ)
    (near_end : ℕ → ℕ → Bool) where
  unfoldable pub candidate : Items → ℕ → Text
  candidate data_ n = dumps (Json.array (first_items n data_))

  -- what the search keeps for a size that fits
  unfoldable pub shown : Items → ℕ → Text
  unfolding candidate
  shown data_ n =
      candidate data_ n ++ (if ltb n (count data_) then items_marker n (count data_) else [])

  unfoldable pub fits : ℕ → Items → ℕ → Bool
  unfolding candidate
  fits limit data_ n =
      leb (length (candidate data_ n) + length (items_marker n (count data_))) limit

  -- The loop of the binary search between `lo` and `hi - 1`, which is the source's `hi`.
  unfoldable pub search_size : ℕ → ℕ → Items → ℕ → ℕ → Text → Text
  unfolding shown fits
  search_size zero limit data_ lo hi best = best
  search_size (suc fuel) limit data_ lo hi best =
      let mid = (lo + (hi - 1)) / 2 in
      let up = search_size fuel limit data_ (mid + 1) hi (shown data_ mid) in
      let down = search_size fuel limit data_ lo mid best in
      if ltb lo hi then (if fits limit data_ mid then up else down) else best

  -- `text` cut to the limit, with the count of what is shown
  unfoldable pub cut_text : Text → ℕ → Text
  cut_text text limit =
      if leb (length text) limit then text else take limit text ++ chars_marker limit (length text)

  -- `_truncate_json`: the interval shrinks each round, so that one round per item and two more suffice
  unfoldable pub truncate_json : Json → ℕ → Text
  unfolding search_size cut_text
  truncate_json (Json.array data_) limit =
      search_size (suc (suc (count data_))) limit data_ 0 (suc (count data_)) (lit "[]")
  truncate_json data_ limit = cut_text (dumps data_) limit

  -- the longest marker and 10 characters
  unfoldable pub marker_len : ℕ → ℕ
  marker_len total = length (skipped_marker total total) + 10

  -- where the head alone is cut: at the last newline if it is near the limit
  unfoldable pub head_cut : Text → ℕ → Text
  head_cut text limit = elim (last_newline (take limit text)) [
    | none ↦ take limit text
    | some i ↦ if near_end i limit then take i (take limit text) else take limit text
  ]

  unfoldable pub head_only : Text → ℕ → Text
  unfolding head_cut
  head_only text limit =
      head_cut text limit ++ chars_marker (length (head_cut text limit)) (length text)

  -- the head, the count of what is skipped, and the tail
  unfoldable pub head_and_tail : Text → ℕ → Text
  unfolding last_chars
  head_and_tail text usable =
      let head_size = head_share usable in
      let tail_size = usable - head_size in
      let total = length text in
      take head_size text
      ++ (skipped_marker (total - head_size - tail_size) total ++ last_chars tail_size text)

  unfoldable pub cut_plain : Text → ℕ → Text
  unfolding head_only head_and_tail marker_len
  cut_plain text limit =
      if ltb limit (marker_len (length text) + 200)
      then head_only text limit
      else head_and_tail text (limit - marker_len (length text))

  -- `_smart_truncate`
  unfoldable pub smart_truncate : Text → ℕ → Text
  unfolding truncate_json cut_plain strip
  smart_truncate text limit =
      if leb (length text) limit
      then text
      else if starts_with (strip text) (lit "[") || starts_with (strip text) (lit "{")
      then elim (loads (strip text)) [
        | some data_ ↦ truncate_json data_ limit
        | none ↦ cut_plain text limit
      ]
      else cut_plain text limit
