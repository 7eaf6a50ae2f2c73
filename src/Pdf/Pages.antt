-- ===== src/Pdf/Pages.antt =====
-- tools/pdf.py, `_parse_page_range`: the indices that it returns.
use lucyd.Base.{
  ℕ, zero, suc, ◌+◌, ◌-◌, ◌≤◌, ◌<◌, min, Text, ◌≡◌, refl, false, ◌||◌, Option, none, some, List, [],
  ◌∷◌, ◌++◌, is_empty, ltb, All, All-append, Bool-cases, ◌⊎◌, inl, inr, arith, ◌==◌,
}
use lucyd.Tools.Truncate.{strip}
use lucyd.Pdf.{
  Parsed, nat, negative, not_int, PageError, commas_after, split_hyphen, mem_index, add_index,
  add_range, add_pages, add_page, add_split, add_part, next_part, add_parts, parse_page_range,
}

-- No index twice.
abbrev pub AreDistinct : List ℕ → Type 0
AreDistinct [] = Unit
AreDistinct (i ∷ is) = (mem_index i is ≡ false) × AreDistinct is

-- Pages that the document has, each once.
abbrev pub ArePages : ℕ → List ℕ → Type 0
ArePages total indices = All (λ i. i < total) indices × AreDistinct indices

abbrev pub IfPages : ℕ → List ℕ ⊎ PageError → Type 0
IfPages total (inl indices) = ArePages total indices
IfPages total (inr e) = Unit

mem_index-append : (i j : ℕ) (is : List ℕ) → mem_index i (is ++ j ∷ []) ≡ (mem_index i is || i == j)
unfolding mem_index
mem_index-append i j [] = ground arith
mem_index-append i j (k ∷ is) = ground (arith, mem_index-append i j is)

AreDistinct-append :
    (i : ℕ) (is : List ℕ) → mem_index i is ≡ false → AreDistinct is → AreDistinct (is ++ i ∷ [])
unfolding mem_index
AreDistinct-append i [] h d = (refl, tt)
AreDistinct-append i (k ∷ is) h (new, d) =
    (ground (arith, mem_index-append k i is, new), AreDistinct-append i is (ground arith) d)

add_index-ArePages :
    (total i : ℕ) (is : List ℕ) → i < total → ArePages total is → ArePages total (add_index i is)
unfolding add_index
add_index-ArePages total i is h (below, d) = elim (Bool-cases (mem_index i is)) [
  | inl there ↦ rw there (below, d)
  | inr new ↦
      rw new (All-append (λ j. j < total) is (i ∷ []) below (h, tt), AreDistinct-append i is new d)
]

add_range-ArePages :
    (total start count : ℕ) (is : List ℕ)
    → start + count ≤ total ⊎ (count ≡ 0)
    → ArePages total is
    → ArePages total (add_range start count is)
unfolding add_range
add_range-ArePages total start zero is h p = p
add_range-ArePages total start (suc count) is (inl h) p =
    add_range-ArePages total (suc start) count (add_index start is) (inl (omega arith))
      (add_index-ArePages total start is (omega arith) p)
add_range-ArePages total start (suc count) is (inr h) p = absurd (omega arith)

within :
    (start end total : ℕ) → (start + (min end total - start) ≤ total) ⊎ (min end total - start ≡ 0)
within start end total = elim (Bool-cases (ltb start (min end total))) [
  | inl some_page ↦ inl (ground (arith, some_page))
  | inr no_page ↦ inr (ground (arith, no_page))
]

add_pages-ArePages :
    (total : ℕ) (s e : Parsed) (is : List ℕ)
    → ArePages total is
    → IfPages total (add_pages total s e is)
unfolding add_pages
add_pages-ArePages total (nat start) (nat end) is p =
    elim (Bool-cases (ltb start 1 || ltb end start)) [
      | inl reversed ↦ rw reversed tt
      | inr proper ↦ rw proper (
          add_range-ArePages total (start - 1) (min end total - (start - 1)) is
            (within (start - 1) end total) p)
    ]
add_pages-ArePages total (nat start) negative is p = tt
add_pages-ArePages total (nat start) not_int is p = tt
add_pages-ArePages total negative (nat end) is p = tt
add_pages-ArePages total negative negative is p = tt
add_pages-ArePages total negative not_int is p = tt
add_pages-ArePages total not_int e is p = tt

add_page-ArePages :
    (total : ℕ) (q : Parsed) (is : List ℕ) → ArePages total is → IfPages total (add_page total q is)
unfolding add_page
add_page-ArePages total (nat n) is p = elim (Bool-cases (ltb n 1)) [
  | inl low ↦ rw low tt
  | inr page ↦ elim (Bool-cases (ltb (n - 1) total)) [
    | inl has ↦ rw (page, has) (add_index-ArePages total (n - 1) is (ground (arith, has)) p)
    | inr past ↦ rw (page, past) p
  ]
]
add_page-ArePages total negative is p = tt
add_page-ArePages total not_int is p = tt

module _ (int : Text → Parsed) where
  add_split-ArePages :
      (total : ℕ) (part : Text) (o : Option (Text × Text)) (is : List ℕ)
      → ArePages total is
      → IfPages total (add_split int total part o is)
  unfolding add_split
  add_split-ArePages total part none is p = add_page-ArePages total (int part) is p
  add_split-ArePages total part (some (a, b)) is p = add_pages-ArePages total (int a) (int b) is p

  next_part-ArePages :
      (total : ℕ) (part : Text) (found : List ℕ ⊎ PageError)
      → IfPages total found
      → IfPages total (next_part int total part found)
  unfolding next_part add_part
  next_part-ArePages total part (inr e) p = tt
  next_part-ArePages total part (inl is) p = elim (Bool-cases (is_empty (strip part))) [
    | inl blank ↦ rw blank p
    | inr text ↦ rw text (add_split-ArePages total (strip part) (split_hyphen (strip part)) is p)
  ]

  add_parts-ArePages :
      (total : ℕ) (parts : List Text) (found : List ℕ ⊎ PageError)
      → IfPages total found
      → IfPages total (add_parts int total parts found)
  unfolding add_parts
  add_parts-ArePages total [] found p = p
  add_parts-ArePages total (part ∷ parts) found p =
      add_parts-ArePages total parts (next_part int total part found)
        (next_part-ArePages total part found p)

  -- The indices that a page range gives, if it gives no error, are pages that the document has, each once,
  -- whatever `int` reads from the parts.
  pub parse_page_range-ArePages :
      (pages : Text) (total : ℕ) → IfPages total (parse_page_range int pages total)
  unfolding parse_page_range
  parse_page_range-ArePages pages total =
      add_parts-ArePages total (commas_after [] pages) (inl []) (tt, tt)
