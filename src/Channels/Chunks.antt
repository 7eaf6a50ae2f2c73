-- ===== src/Channels/Chunks.antt =====
-- channels/telegram.py, `chunk_text`: what the chunks hold and how long they are.
use lucyd.Base.{
  ℕ, zero, suc, ◌+◌, ◌≤◌, ◌<◌, Text, ◌≡◌, ◌∙◌, refl, sym, ap, false, not, ◌&&◌, List, [], ◌∷◌, ◌++◌,
  append-nil, append_assoc, take, drop, take-append-drop, length, length-append, length-take,
  length-drop, is_empty, filter_by, ltb, leb, leb→le, All, Bool-cases, inl, inr, arith, ◌==◌,
  if◌then◌else◌,
}
use lucyd.Channels.{lines_after, split_lines, cut_rest, fill_chunks, chunk_text}

-- A text without its line breaks.
unfoldable pub visible : Text → Text
visible text = filter_by (λ c. not (c == 10)) text

unfoldable pub all_visible : List Text → Text
unfolding visible
all_visible [] = []
all_visible (t ∷ ts) = visible t ++ all_visible ts

visible-append : (s t : Text) → visible (s ++ t) ≡ visible s ++ visible t
unfolding visible
visible-append [] t = refl
visible-append (c ∷ s) t = elim (Bool-cases (c == 10)) [
  | inl break ↦ rw break (visible-append s t)
  | inr shown ↦ rw shown (ap (λ (r : Text). c ∷ r) (visible-append s t))
]

cut_rest-visible :
    (fuel limit : ℕ) (current : Text) → all_visible (cut_rest fuel limit current) ≡ visible current
unfolding cut_rest all_visible
cut_rest-visible zero limit current = append-nil (visible current)
cut_rest-visible (suc fuel) limit current = elim (Bool-cases (ltb limit (length current))) [
  | inl long ↦
      rw (long, cut_rest-visible fuel limit (drop limit current))
        (sym (visible-append (take limit current) (drop limit current))
          ∙ ap visible (take-append-drop limit current))
  | inr short ↦ rw short (last current)
]
  where
    last : (t : Text) → all_visible (if is_empty t then [] else t ∷ []) ≡ visible t
    last [] = refl
    last (c ∷ cs) = append-nil (visible (c ∷ cs))

joined-visible :
    (current line : Text)
    → visible (if is_empty current then line else current ++ 10 ∷ line)
      ≡ visible current ++ visible line
unfolding visible
joined-visible [] line = refl
joined-visible (c ∷ cs) line = visible-append (c ∷ cs) (10 ∷ line)

fill_chunks-visible :
    (limit : ℕ) (current : Text) (lines : List Text)
    → all_visible (fill_chunks limit current lines) ≡ visible current ++ all_visible lines
unfolding fill_chunks all_visible
fill_chunks-visible limit [] [] = refl
fill_chunks-visible limit (c ∷ cs) [] =
    cut_rest-visible (length (c ∷ cs)) limit (c ∷ cs) ∙ sym (append-nil (visible (c ∷ cs)))
fill_chunks-visible limit current (line ∷ lines) =
    elim (Bool-cases (not (is_empty current) && ltb limit (length current + length line + 1))) [
      | inl full ↦
          rw full (ap (λ (r : Text). visible current ++ r) (fill_chunks-visible limit line lines))
      | inr room ↦
          rw
            (
              room,
              fill_chunks-visible limit (if is_empty current then line else current ++ 10 ∷ line)
                  lines,
              joined-visible current line,
            )
            (append_assoc (visible current) (visible line) (all_visible lines))
    ]

lines_after-shown :
    (current : Text) (c : ℕ) (cs : Text)
    → (c == 10) ≡ false
    → lines_after current (c ∷ cs) ≡ lines_after (current ++ c ∷ []) cs
unfolding lines_after
lines_after-shown current c cs shown = rw shown

lines_after-visible :
    (current text : Text) → all_visible (lines_after current text) ≡ visible current ++ visible text
unfolding lines_after all_visible
lines_after-visible current [] = refl
lines_after-visible current (c ∷ cs) = elim (Bool-cases (c == 10)) [
  | inl break ↦
      rw (break, visible) (ap (λ (r : Text). visible current ++ r) (lines_after-visible [] cs))
  | inr shown ↦
      ap all_visible (lines_after-shown current c cs shown)
      ∙ lines_after-visible (current ++ c ∷ []) cs
      ∙ ap (λ (r : Text). r ++ visible cs) (visible-append current (c ∷ []))
      ∙ append_assoc (visible current) (visible (c ∷ [])) (visible cs)
      ∙ ap (λ (r : Text). visible current ++ r) (sym (visible-append (c ∷ []) cs))
]

-- For a limit above 0, without which the source does not end, the chunks hold, in order, every
-- character of the text but line breaks.
pub chunk_text-visible :
    (limit : ℕ) (text : Text) → 0 < limit → all_visible (chunk_text limit text) ≡ visible text
unfolding chunk_text all_visible split_lines
chunk_text-visible limit text h = elim (Bool-cases (leb (length text) limit)) [
  | inl short ↦ rw short (append-nil (visible text))
  | inr long ↦
      rw long (fill_chunks-visible limit [] (split_lines text) ∙ lines_after-visible [] text)
]

-- At most `limit` characters.
abbrev pub Fits : ℕ → Text → Type 0
Fits limit t = length t ≤ limit

cut_rest-Fits :
    (fuel limit : ℕ) (current : Text)
    → 0 < limit
    → length current ≤ fuel + limit
    → All (Fits limit) (cut_rest fuel limit current)
unfolding cut_rest
cut_rest-Fits zero limit current h enough = (omega arith, tt)
cut_rest-Fits (suc fuel) limit current h enough = elim (Bool-cases (ltb limit (length current))) [
  | inl long ↦ rw long (
    omega (arith, length-take limit current),
    cut_rest-Fits fuel limit (drop limit current) h (omega (arith, length-drop limit current)),
  )
  | inr short ↦ rw short (last current (ground (arith, short)))
]
  where
    last : (t : Text) → length t ≤ limit → All (Fits limit) (if is_empty t then [] else t ∷ [])
    last [] fits = tt
    last (c ∷ cs) fits = (fits, tt)

fill_chunks-Fits :
    (limit : ℕ) (current : Text) (lines : List Text)
    → 0 < limit
    → length current ≤ limit
    → All (Fits limit) lines
    → All (Fits limit) (fill_chunks limit current lines)
unfolding fill_chunks
fill_chunks-Fits limit [] [] h fits all = tt
fill_chunks-Fits limit (c ∷ cs) [] h fits all =
    cut_rest-Fits (length (c ∷ cs)) limit (c ∷ cs) h (omega arith)
fill_chunks-Fits limit [] (line ∷ lines) h fits (own, others) =
    fill_chunks-Fits limit line lines h own others
fill_chunks-Fits limit (c ∷ cs) (line ∷ lines) h fits (own, others) =
    elim (Bool-cases (ltb limit (length (c ∷ cs) + length line + 1))) [
      | inl full ↦ rw full (fits, fill_chunks-Fits limit line lines h own others)
      | inr room ↦ rw room (
          fill_chunks-Fits limit ((c ∷ cs) ++ 10 ∷ line) lines h
            (ground (arith, room, length-append cs (10 ∷ line))) others)
    ]

-- If the limit is above 0 and no line of the text is longer than it, then no chunk is.
pub chunk_text-Fits :
    (limit : ℕ) (text : Text)
    → 0 < limit
    → All (Fits limit) (split_lines text)
    → All (Fits limit) (chunk_text limit text)
unfolding chunk_text
chunk_text-Fits limit text h lines = elim (Bool-cases (leb (length text) limit)) [
  | inl short ↦ rw short (leb→le (length text) limit short, tt)
  | inr long ↦ rw long (fill_chunks-Fits limit [] (split_lines text) h (omega arith) lines)
]
