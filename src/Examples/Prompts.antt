-- ===== src/Examples/Prompts.antt =====
-- The theorems on the system prompt and on recall, applied to a few blocks.
use lucyd.Base.{ℕ, List, [], ◌∷◌, lit}
use lucyd.Recall.{RecallBlock}
use lucyd.Recall.Chosen.{Chosen}
use lucyd.Context.{Tier, Block}

-- a character counts as a token
abbrev blocks : List Block
blocks =
    record { text = lit "persona"; tier = Tier.stable }
    ∷ record { text = lit "tools"; tier = Tier.semi_stable }
    ∷ record { text = lit "recall"; tier = Tier.dynamic }
    ∷ []

abbrev facts : RecallBlock
facts = record {
  priority = 1;
  section = lit "[Known facts]";
  text = lit "ann likes tea";
  est_tokens = 7;
}

abbrev episodes : RecallBlock
episodes = record {
  priority = 3;
  section = lit "[Recent episodes]";
  text = lit "a walk";
  est_tokens = 5;
}

abbrev budget : ℕ
budget = 10
