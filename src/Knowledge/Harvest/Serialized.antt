-- ===== src/Knowledge/Harvest/Serialized.antt =====
-- consolidation.py, `serialize_messages`: the length of the text that it makes.
use lucyd.Base.{
  ℕ, suc, ◌+◌, ◌-◌, ◌≤◌, Text, refl, Option, none, some, List, [], ◌∷◌, take, drop, length,
  length-take, total, length-join, lit, ltb, Bool-cases, inl, inr, arith,
}
use lucyd.Message.{Message}
use lucyd.Knowledge.Harvest.{harvest_line, harvest_lines, spent, with_line, serialize_messages}

with_line-total :
    (max_chars chars n : ℕ) (o : Option Text) (rest : List Text)
    → chars ≤ max_chars
    → (chars + spent o ≤ max_chars → (chars + spent o + total rest ≤ max_chars) × (length rest ≤ n))
    → (chars + total (with_line max_chars chars o rest) ≤ max_chars)
      × (length (with_line max_chars chars o rest) ≤ suc n)
unfolding with_line total spent
with_line-total max_chars chars n none rest h within =
    (let (a, b) = within (omega arith) in (omega arith, omega arith))
with_line-total max_chars chars n (some line) rest h within =
    elim (Bool-cases (ltb max_chars (chars + length line))) [
      | inl over ↦ elim (Bool-cases (ltb 100 (max_chars - chars))) [
        | inl cut ↦
            rw (over, cut) (omega (arith, length-take (max_chars - chars) line), omega arith)
        | inr short ↦ rw (over, short) (omega arith, omega arith)
      ]
      | inr fits ↦
          (let (a, b) = within (ground (arith, fits)) in rw fits (omega arith, omega arith))
    ]

-- The lines take up what is left of the budget at most, and there are no more of them than messages.
harvest_lines-total :
    (max_chars chars : ℕ) (ms : List Message)
    → chars ≤ max_chars
    → (chars + total (harvest_lines max_chars chars ms) ≤ max_chars)
      × (length (harvest_lines max_chars chars ms) ≤ length ms)
unfolding harvest_lines total
harvest_lines-total max_chars chars [] h = (omega arith, omega arith)
harvest_lines-total max_chars chars (m ∷ ms) h =
    with_line-total max_chars chars (length ms) (harvest_line m) _ h
      (harvest_lines-total max_chars (chars + spent (harvest_line m)) ms)

-- The text of a span is no longer than its budget and one line break for each message of the span.
pub length-serialize_messages :
    (messages : List Message) (start_idx end_idx max_chars : ℕ)
    → length (serialize_messages messages start_idx end_idx max_chars)
      ≤ max_chars + (end_idx - start_idx)
unfolding serialize_messages lit
length-serialize_messages messages start_idx end_idx max_chars =
    let span = take (end_idx - start_idx) (drop start_idx messages) in
    let (chars, lines) = harvest_lines-total max_chars 0 span (omega arith) in
    omega (
      arith,
      length-join (lit "\n") (harvest_lines max_chars 0 span) refl,
      length-take (end_idx - start_idx) (drop start_idx messages),
    )
