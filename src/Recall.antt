-- ===== src/Recall.antt =====
-- memory.py, `inject_recall`: which recalled blocks go into a prompt, under a budget of tokens.
pub mod Chosen
use lucyd.Base.{
  ℕ, ◌+◌, ◌-◌, ◌≤◌, Text, ◌||◌, List, [], ◌∷◌, ◌++◌, ◌≡◌, refl, ◌⊎◌, inl, inr, map, leb, ltb, ◌==◌,
  if◌then◌else◌, lit, decimal, join, is_empty, mem_text, arith, Bool-cases,
}
use mathlib.Core.List.{reverse}

-- RecallBlock
pub record RecallBlock : Type 0 where
  pub priority : ℕ
  pub section : Text
  pub text : Text
  pub est_tokens : ℕ

-- `sorted(blocks, key=…, reverse=True)`, which keeps the order of equal priorities
unfoldable pub insert_block : RecallBlock → List RecallBlock → List RecallBlock
insert_block b [] = b ∷ []
insert_block b (c ∷ cs) =
    let rest = insert_block b cs in if ltb b.priority c.priority then c ∷ rest else b ∷ c ∷ cs

unfoldable pub by_priority : List RecallBlock → List RecallBlock
unfolding insert_block
by_priority [] = []
by_priority (b ∷ bs) = insert_block b (by_priority bs)

-- the loop over the blocks under `remaining` tokens: those that fit, and those that are dropped
unfoldable pub fit_blocks : ℕ → List RecallBlock → List RecallBlock × List RecallBlock
fit_blocks remaining [] = ([], [])
fit_blocks remaining (b ∷ bs) =
    let (taken, dropped) = fit_blocks (remaining - b.est_tokens) bs in
    let (others, left_out) = fit_blocks remaining bs in
    if leb b.est_tokens remaining then (b ∷ taken, dropped) else (others, b ∷ left_out)

-- a budget of 0 is unlimited
unfoldable pub choose_blocks : ℕ → List RecallBlock → List RecallBlock × List RecallBlock
unfolding fit_blocks by_priority
choose_blocks max_tokens blocks =
    if max_tokens == 0 then (by_priority blocks, []) else fit_blocks max_tokens (by_priority blocks)

unfoldable pub drop_brackets : Text → Text
drop_brackets [] = []
drop_brackets (c ∷ cs) =
    let rest = drop_brackets cs in if (c == 91) || (c == 93) then rest else c ∷ cs

-- `block.section.strip("[]")`
unfoldable pub section_name : RecallBlock → Text
unfolding drop_brackets
section_name b = reverse (drop_brackets (reverse (drop_brackets b.section)))

-- the tokens of all blocks whose section's name is among the names
unfoldable pub used_tokens : List Text → List RecallBlock → ℕ
unfolding section_name
used_tokens included [] = 0
used_tokens included (b ∷ bs) =
    (if mem_text (section_name b) included then b.est_tokens else 0) + used_tokens included bs

unfoldable pub footer : ℕ → ℕ → Text → List RecallBlock → Text
unfolding section_name
footer max_tokens used sections dropped =
    lit "[Memory loaded: "
    ++ (sections
        ++ (lit " | "
            ++ ((if max_tokens == 0
                  then decimal used ++ lit " tokens loaded (no budget limit)]"
                  else decimal used ++ (lit "/" ++ (decimal max_tokens ++ lit " tokens used]")))
                ++ (if is_empty dropped
                    then []
                    else lit "\n[Dropped (over budget): "
                      ++ (join (lit ", ") (map section_name dropped)
                          ++ lit " — use memory_search to access]")))))

unfoldable pub render : RecallBlock → Text
render b = b.section ++ (lit "\n" ++ b.text)

-- `inject_recall`
unfoldable pub inject_recall : List RecallBlock → ℕ → Text
unfolding choose_blocks used_tokens footer render section_name
inject_recall blocks max_tokens =
    let (taken, dropped) = choose_blocks max_tokens blocks in
    let names = map section_name taken in
    if is_empty taken
    then []
    else join (lit "\n\n") (
        map render taken
        ++ footer max_tokens (used_tokens names (by_priority blocks)) (join (lit ", ") names)
            dropped
          ∷ [])
