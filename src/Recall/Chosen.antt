-- ===== src/Recall/Chosen.antt =====
-- memory.py, `inject_recall`: the order in which it takes the blocks, and which of them it takes.
use lucyd.Base.{ℕ, ◌+◌, ◌-◌, ◌≤◌, ◌<◌, ◌≡◌, List, [], ◌∷◌, filter_by, ◌==◌, ◌⊎◌}
use mathlib.Core.List.{Perm}
use mathlib.Core.List.Perm
use lucyd.Recall.{RecallBlock}

abbrev pub tokens_of : List RecallBlock → ℕ
tokens_of [] = 0
tokens_of (b ∷ bs) = b.est_tokens + tokens_of bs

abbrev pub IsUnder : ℕ → List RecallBlock → Type 0
IsUnder n [] = Unit
IsUnder n (b ∷ bs) = (b.priority ≤ n) × IsUnder n bs

-- No block comes behind one of a lower priority.
abbrev pub IsDescending : List RecallBlock → Type 0
IsDescending [] = Unit
IsDescending (b ∷ bs) = IsUnder b.priority bs × IsDescending bs

abbrev pub with_priority : ℕ → List RecallBlock → List RecallBlock
with_priority n bs = filter_by (λ b. b.priority == n) bs

-- The blocks by descending priority, those of one priority in their former order.
pub record IsSortOf (sorted blocks : List RecallBlock) : Type 0 where
  pub same : Perm sorted blocks
  pub descending : IsDescending sorted
  pub stable : (n : ℕ) → with_priority n sorted ≡ with_priority n blocks

-- From the first block on, each is taken if it is within what remains of the tokens, and else dropped.
pub data Greedy : ℕ → List RecallBlock → List RecallBlock → List RecallBlock → Type 0 where
  none_left : {remaining : ℕ} → Greedy remaining [] [] []
  taken :
      {remaining : ℕ} {b : RecallBlock} {bs xs ys : List RecallBlock}
      → b.est_tokens ≤ remaining
      → Greedy (remaining - b.est_tokens) bs xs ys
      → Greedy remaining (b ∷ bs) (b ∷ xs) ys
  dropped :
      {remaining : ℕ} {b : RecallBlock} {bs xs ys : List RecallBlock}
      → remaining < b.est_tokens
      → Greedy remaining bs xs ys
      → Greedy remaining (b ∷ bs) xs (b ∷ ys)

-- What is taken and dropped: all and nothing if no budget is set.
abbrev pub Chosen : ℕ → List RecallBlock → List RecallBlock × List RecallBlock → Type 0
Chosen max_tokens sorted (ins, outs) =
    ((max_tokens ≡ 0) × (ins ≡ sorted) × (outs ≡ []))
    ⊎ (Greedy max_tokens sorted ins outs × (tokens_of ins ≤ max_tokens))
