-- ===== src/Pdf.antt =====
-- tools/pdf.py, `_parse_page_range`: pages such as "3,7-9" as indices from 0.
pub mod Pages
use lucyd.Base.{
  ℕ, zero, suc, ◌+◌, ◌-◌, min, Text, Bool, true, false, ◌||◌, Option, none, some, List, [], ◌∷◌,
  ◌++◌, is_empty, ltb, ◌⊎◌, inl, inr, ◌==◌, if◌then◌else◌,
}
use lucyd.Tools.Truncate.{strip}

-- What `int` makes of a text: a number, one below 0, or a ValueError.
pub data Parsed : Type 0 where
  nat : ℕ → Parsed
  negative not_int : Parsed

-- the parts of a text between commas
unfoldable pub commas_after : Text → Text → List Text
commas_after current [] = current ∷ []
commas_after current (c ∷ cs) =
    let same = commas_after (current ++ c ∷ []) cs in
    let next = commas_after [] cs in if c == 44 then current ∷ next else same

-- `part.split("-", 1)` of a part with a hyphen
unfoldable pub split_hyphen : Text → Option (Text × Text)
split_hyphen [] = none
split_hyphen (c ∷ cs) =
    let rest = split_hyphen cs in
    if c == 45 then some ([], cs) else elim rest [ none ↦ none | some (a, b) ↦ some (c ∷ a, b) ]

-- `i in indices`
unfoldable pub mem_index : ℕ → List ℕ → Bool
mem_index i [] = false
mem_index i (j ∷ js) = i == j || mem_index i js

unfoldable pub add_index : ℕ → List ℕ → List ℕ
unfolding mem_index
add_index i indices = if mem_index i indices then indices else indices ++ i ∷ []

-- `for i in range(start, start + count)`
unfoldable pub add_range : ℕ → ℕ → List ℕ → List ℕ
unfolding add_index
add_range start zero indices = indices
add_range start (suc count) indices = add_range (suc start) count (add_index start indices)

-- The errors of `_parse_page_range`.
pub data PageError : Type 0 where
  bad_range reversed_range bad_number low_number : PageError

-- a range from one number to another: `none` is an error
unfoldable pub add_pages : ℕ → Parsed → Parsed → List ℕ → List ℕ ⊎ PageError
unfolding add_range
add_pages total (nat start) (nat end) indices =
    if ltb start 1 || ltb end start
    then inr reversed_range
    else inl (add_range (start - 1) (min end total - (start - 1)) indices)
add_pages total not_int e indices = inr bad_range
add_pages total s not_int indices = inr bad_range
add_pages total s e indices = inr reversed_range

unfoldable pub add_page : ℕ → Parsed → List ℕ → List ℕ ⊎ PageError
unfolding add_index
add_page total (nat p) indices =
    if ltb p 1
    then inr low_number
    else if ltb (p - 1) total
    then inl (add_index (p - 1) indices)
    else inl indices
add_page total negative indices = inr low_number
add_page total not_int indices = inr bad_number

module _ (int : Text → Parsed) where
  unfoldable pub add_split : ℕ → Text → Option (Text × Text) → List ℕ → List ℕ ⊎ PageError
  unfolding add_pages add_page
  add_split total part none indices = add_page total (int part) indices
  add_split total part (some (a, b)) indices = add_pages total (int a) (int b) indices

  -- the body of the loop, on a stripped part
  unfoldable pub add_part : ℕ → Text → List ℕ → List ℕ ⊎ PageError
  unfolding add_split split_hyphen
  add_part total part indices =
      if is_empty part then inl indices else add_split total part (split_hyphen part) indices

  -- one round, unless an error has ended the loop
  unfoldable pub next_part : ℕ → Text → List ℕ ⊎ PageError → List ℕ ⊎ PageError
  unfolding add_part strip
  next_part total part (inr e) = inr e
  next_part total part (inl indices) = add_part total (strip part) indices

  unfoldable pub add_parts : ℕ → List Text → List ℕ ⊎ PageError → List ℕ ⊎ PageError
  unfolding next_part
  add_parts total [] found = found
  add_parts total (part ∷ parts) found = add_parts total parts (next_part total part found)

  -- `_parse_page_range`
  unfoldable pub parse_page_range : Text → ℕ → List ℕ ⊎ PageError
  unfolding add_parts commas_after
  parse_page_range pages total = add_parts total (commas_after [] pages) (inl [])
