-- ===== src/Pipeline/Reply.antt =====
-- pipeline.py, `_is_silent`, `_deliver_reply` and the output guardrail: what is answered to a message.
use lucyd.Base.{
  ℕ, Text, Bool, true, false, not, ◌&&◌, ◌||◌, none, some, List, [], ◌∷◌, ◌++◌, all, is_empty, lit,
  starts_with, length, drop, any, if◌then◌else◌,
}
use mathlib.Core.List.{reverse}
use lucyd.Message.{Response}
use lucyd.Guardrails.{Rule, check_output}
use lucyd.Session.Compact.{is_blank, or_empty}
use lucyd.Pipeline.{Talker, is_ephemeral, lstrip}

-- `\w` of a regular expression
module _ (is_word : ℕ → Bool) where
  -- whether the position between the two parts of a text, the first one reversed, is a `\b`
  unfoldable pub at_boundary : Text → Text → Bool
  at_boundary [] [] = false
  at_boundary [] (c ∷ cs) = is_word c
  at_boundary (b ∷ bs) [] = is_word b
  at_boundary (b ∷ bs) (c ∷ cs) = if is_word b then not (is_word c) else is_word c

  unfoldable pub not_word : ℕ → Bool
  not_word c = not (is_word c)

  -- `(?=$|\W)`
  unfoldable pub ends_word : Text → Bool
  unfolding not_word
  ends_word [] = true
  ends_word (c ∷ cs) = not_word c

  -- `^\s*token(?=$|\W)`, at the start of a stripped text
  unfoldable pub opens_with : Text → Text → Bool
  unfolding ends_word
  opens_with text token = starts_with text token && ends_word (drop (length token) text)

  -- `\btoken\b\W*$` at one position: `before` is what stands before it, reversed
  unfoldable pub closes_at : Text → Text → Text → Bool
  unfolding at_boundary not_word
  closes_at before text token =
      let rest = drop (length token) text in
      at_boundary before text
      && (starts_with text token
          && (at_boundary (reverse token ++ before) rest && all not_word rest))

  unfoldable pub closes_with : Text → Text → Text → Bool
  unfolding closes_at
  closes_with before [] token = closes_at before [] token
  closes_with before (c ∷ cs) token =
      closes_at before (c ∷ cs) token || closes_with (c ∷ before) cs token

  -- `_is_silent`
  unfoldable pub is_silent : Text → List Text → Bool
  unfolding opens_with closes_with
  is_silent text tokens =
      let stripped = reverse (lstrip (reverse (lstrip text))) in
      not (is_empty text)
      && any (λ token. opens_with stripped token || closes_with [] stripped token) tokens

  -- what the future of a message is resolved with after a loop that ended: the reply, and whether it is
  -- silent
  unfoldable pub deliver_reply :
      List Text → Talker → Bool → {Cost : Type 0} → Response Cost → Text × Bool
  unfolding is_silent is_blank or_empty
  deliver_reply silent_tokens talker to_silent r =
      let said = or_empty r.text in
      let reply =
        if r.cost_limited && is_blank said
        then lit
            "[cost limit reached — max_cost_per_message in lucyd.toml. raise or set to 0 to disable.]"
        else said in
      (reply, is_ephemeral talker || (is_silent reply silent_tokens || to_silent))

-- a final reply that has text and tool calls keeps its calls only
unfoldable pub without_preamble : {Cost : Type 0} → Response Cost → Response Cost
without_preamble r = if is_empty r.tool_calls then r else record r { text = none }

-- the output guardrail of `_finalize_response`
unfoldable pub guarded : {Cost : Type 0} → List Rule → Response Cost → Response Cost
guarded rules r = elim r.text [
  | none ↦ r
  | some t ↦ if is_empty t then r else elim (check_output t rules) [
    | none ↦ r
    | some e ↦ record r { text = some (lit "response withheld by output guardrail") }
  ]
]
