-- ===== src/Indexer/Cover.antt =====
-- tools/indexer.py, `chunk_file`: the chunks cover the file, within the size.
use lucyd.Base.{
  ℕ, zero, suc, ◌+◌, ◌-◌, ◌≤◌, ◌<◌, Text, ◌≡◌, ◌∙◌, refl, ap, Bool, true, false, ◌&&◌, List, [],
  ◌∷◌, take, drop, length, length-take, total, length-join_cons, length-drop, lit, join, ltb, leb,
  leb→le, All, Bool-cases, ◌⊎◌, inl, inr, arith, if◌then◌else◌,
}
use lucyd.Indexer.{Chunk, fill_lines, chunk_from, chunk_file}

fill_lines-le :
    (chunk_size char_count : ℕ) (started : Bool) (ls : List Text)
    → fill_lines chunk_size char_count started ls ≤ length ls
unfolding fill_lines
fill_lines-le chunk_size char_count started [] = omega arith
fill_lines-le chunk_size char_count started (l ∷ ls) =
    ground (
      arith,
      fill_lines-le chunk_size (char_count + (length l + (if started then 1 else 0))) true ls,
    )

-- A chunk has a line, if there is one.
fill_lines-pos :
    (chunk_size : ℕ) (ls : List Text) → 0 < length ls → 0 < fill_lines chunk_size 0 false ls
unfolding fill_lines
fill_lines-pos chunk_size [] h = absurd (omega arith)
fill_lines-pos chunk_size (l ∷ ls) h = ground arith

not_le : (a b : ℕ) → leb a b ≡ false → b < a
not_le a b h = ground arith

-- A chunk that holds the line.
abbrev pub Holds : ℕ → Chunk → Type 0
Holds n c = (c.start_line ≤ n) × (n ≤ c.end_line)

abbrev pub SomeChunk : (Chunk → Type 0) → List Chunk → Type 0
SomeChunk P [] = ⊥
SomeChunk P (c ∷ cs) = P c ⊎ SomeChunk P cs

chunk_from-Holds :
    (fuel chunk_size overlap : ℕ) (lines : List Text) (start_idx k : ℕ)
    → length lines ≤ fuel + start_idx
    → start_idx ≤ k
    → k < length lines
    → SomeChunk (Holds (suc k)) (chunk_from fuel chunk_size overlap lines start_idx)
unfolding chunk_from
chunk_from-Holds zero chunk_size overlap lines start_idx k enough from within = absurd (omega arith)
chunk_from-Holds (suc fuel) chunk_size overlap lines start_idx k enough from within =
    let ahead = drop start_idx lines in
    let taken = fill_lines chunk_size 0 false ahead in
    let left : length ahead ≡ length lines - start_idx = length-drop start_idx lines in
    let some_line : 0 < taken = fill_lines-pos chunk_size ahead (omega arith) in
    let few : taken ≤ length ahead = fill_lines-le chunk_size 0 false ahead in
    let shown : length (take taken ahead) ≡ taken = (omega (arith, length-take taken ahead)) in
    let more : leb (length lines) start_idx ≡ false = ground arith in
    elim (Bool-cases (leb (length lines) (start_idx + taken))) [
      | inl last ↦
          rw (more, last)
            (inl (omega arith, omega (arith, leb→le (length lines) (start_idx + taken) last)))
      | inr ahead_too ↦
          rw (more, ahead_too)
            (elim (Bool-cases (leb (start_idx + taken) k)) [
              | inl later ↦ inr (
                  chunk_from-Holds fuel chunk_size overlap lines _ k (omega arith)
                    (omega (arith, leb→le (start_idx + taken) k later)) within)
              | inr here ↦ inl (omega arith, omega (arith, not_le (start_idx + taken) k here))
            ])
    ]

-- The lines after the first one, each with a line break before it, keep the chunk within the size.
fill_lines-started :
    (chunk_size char_count : ℕ) (ls : List Text)
    → char_count ≤ chunk_size
    → let n = fill_lines chunk_size char_count true ls in
      char_count + (total (take n ls) + length (take n ls)) ≤ chunk_size
unfolding fill_lines total
fill_lines-started chunk_size char_count [] h = omega arith
fill_lines-started chunk_size char_count (l ∷ ls) h =
    elim (Bool-cases (ltb chunk_size (char_count + (length l + 1)))) [
      | inl full ↦ rw full (omega arith)
      | inr room ↦
          (let fits : char_count + (length l + 1) ≤ chunk_size = ground (arith, room) in
            rw room
              (omega (arith, fill_lines-started chunk_size (char_count + (length l + 1)) ls fits)))
    ]

fill_lines-full :
    (chunk_size char_count : ℕ) (ls : List Text)
    → chunk_size < char_count
    → fill_lines chunk_size char_count true ls ≡ 0
unfolding fill_lines
fill_lines-full chunk_size char_count [] h = refl
fill_lines-full chunk_size char_count (l ∷ ls) h = ground arith

and_false : (b : Bool) → (b && false) ≡ false
and_false true = refl
and_false false = refl

fill_lines-first :
    (chunk_size : ℕ) (l : Text) (ls : List Text)
    → fill_lines chunk_size 0 false (l ∷ ls) ≡ suc (fill_lines chunk_size (length l) true ls)
unfolding fill_lines
fill_lines-first chunk_size l ls =
    rw (and_false (ltb chunk_size (0 + (length l + 0))))
      (ap (λ (n : ℕ). suc (fill_lines chunk_size n true ls)) (omega arith))

-- A chunk is within the size or is one line.
fill_lines-Fits :
    (chunk_size : ℕ) (ls : List Text)
    → let n = fill_lines chunk_size 0 false ls in
      (length (join (lit "\n") (take n ls)) ≤ chunk_size) ⊎ (n ≡ 1)
unfolding lit join fill_lines
fill_lines-Fits chunk_size [] = inl (omega arith)
fill_lines-Fits chunk_size (l ∷ ls) =
    rw (fill_lines-first chunk_size l ls) (elim (Bool-cases (leb (length l) chunk_size)) [
      | inl fits ↦
          (let within : length l ≤ chunk_size = leb→le (length l) chunk_size fits in
            inl (
              omega (
                arith,
                fill_lines-started chunk_size (length l) ls within,
                length-join_cons (lit "\n") l (take (fill_lines chunk_size (length l) true ls) ls)
                    refl,
              )))
      | inr long ↦
          inr
            (ap suc (fill_lines-full chunk_size (length l) ls (not_le (length l) chunk_size long)))
    ])

-- A chunk of these lines: it is the lines from its start to its end, joined, and it is within the size
-- or is one line.
pub record IsSlice (lines : List Text) (chunk_size : ℕ) (c : Chunk) : Type 0 where
  pub start : 1 ≤ c.start_line
  pub order : c.start_line ≤ c.end_line
  pub end : c.end_line ≤ length lines
  pub text :
      c.text
      ≡ join (lit "\n") (take (suc c.end_line - c.start_line) (drop (c.start_line - 1) lines))
  pub size : (length c.text ≤ chunk_size) ⊎ (c.start_line ≡ c.end_line)

-- the chunk that the loop makes at a line
made : ℕ → List Text → ℕ → Chunk
made chunk_size lines start_idx =
    let ahead = drop start_idx lines in
    let chunk_lines = take (fill_lines chunk_size 0 false ahead) ahead in
    record {
      text = join (lit "\n") chunk_lines;
      start_line = start_idx + 1;
      end_line = start_idx + length chunk_lines;
    }

made-IsSlice :
    (chunk_size : ℕ) (lines : List Text) (start_idx : ℕ)
    → start_idx < length lines
    → IsSlice lines chunk_size (made chunk_size lines start_idx)
unfolding made
made-IsSlice chunk_size lines start_idx below =
    let ahead = drop start_idx lines in
    let taken = fill_lines chunk_size 0 false ahead in
    let left : length ahead ≡ length lines - start_idx = length-drop start_idx lines in
    let some_line : 0 < taken = fill_lines-pos chunk_size ahead (omega arith) in
    let few : taken ≤ length ahead = fill_lines-le chunk_size 0 false ahead in
    let shown : length (take taken ahead) ≡ taken = omega (arith, length-take taken ahead) in
    let count : taken ≡ suc (start_idx + length (take taken ahead)) - (start_idx + 1) =
      omega arith in
    let from : start_idx ≡ start_idx + 1 - 1 = omega arith in
    record {
      start = omega arith;
      order = omega arith;
      end = omega arith;
      text = ap (join (lit "\n")) (
          ap (λ (n : ℕ). take n ahead) count
          ∙ ap
              (λ (k : ℕ).
                take (suc (start_idx + length (take taken ahead)) - (start_idx + 1)) (drop k lines))
              from);
      size = elim (fill_lines-Fits chunk_size ahead) [
        | inl fits ↦ inl fits
        | inr one ↦ inr (omega arith)
      ];
    }

chunk_from-IsSlice :
    (fuel chunk_size overlap : ℕ) (lines : List Text) (start_idx : ℕ)
    → All (IsSlice lines chunk_size) (chunk_from fuel chunk_size overlap lines start_idx)
unfolding chunk_from made
chunk_from-IsSlice zero chunk_size overlap lines start_idx = tt
chunk_from-IsSlice (suc fuel) chunk_size overlap lines start_idx =
    elim (Bool-cases (leb (length lines) start_idx)) [
      | inl past ↦ rw past tt
      | inr more ↦
          (let slice =
              made-IsSlice chunk_size lines start_idx (not_le (length lines) start_idx more) in
            let taken = fill_lines chunk_size 0 false (drop start_idx lines) in
            elim (Bool-cases (leb (length lines) (start_idx + taken))) [
              | inl last ↦ rw (more, last) (slice, tt)
              | inr again ↦
                  rw (more, again) (slice, chunk_from-IsSlice fuel chunk_size overlap lines _)
            ])
    ]

-- Whatever the size and the overlap: every line of the file is in one of the chunks, and each chunk is
-- the lines from its start to its end, which the file has, joined, and is within the size or one line.
pub chunk_file-IsSlice :
    (lines : List Text) (chunk_size overlap k : ℕ)
    → k < length lines
    → SomeChunk (Holds (suc k)) (chunk_file lines chunk_size overlap)
      × All (IsSlice lines chunk_size) (chunk_file lines chunk_size overlap)
unfolding chunk_file
chunk_file-IsSlice lines chunk_size overlap k h = (
  chunk_from-Holds (length lines) chunk_size overlap lines 0 k (omega arith) (omega arith) h,
  chunk_from-IsSlice (length lines) chunk_size overlap lines 0,
)
