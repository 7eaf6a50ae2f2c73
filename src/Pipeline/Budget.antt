-- ===== src/Pipeline/Budget.antt =====
-- pipeline.py, `_ensure_context_budget`: compactions before the agentic loop.
pub mod Checked
use lucyd.Base.{
  ℕ, zero, suc, ◌+◌, ◌*◌, ◌≤◌, ◌<◌, String, Text, Bool, true, false, Option, none, some, List, [],
  ◌∷◌, ◌≡◌, ◌∙◌, refl, sym, ap, subst, ◌⊎◌, inl, inr, map, length, length-map, length-drop, take,
  drop, get_last?, ltb, leb, ◌==◌, if◌then◌else◌, arith, Bool-cases,
}
use lucyd.Message.{
  Message, Json, Usage, ToolCall, ToolResultEntry, user, agent, tool_result, is_user,
  is_tool_result,
}
use lucyd.Store.{Db}
use lucyd.Session.{Session, ends_with_user, add_user_message}
use lucyd.Session.Sync.{IsSynced}
use lucyd.Session.Compact.{skip_results, split_point, without_usage, replace_old, compact_session}
use lucyd.Session.Compact.Keeps.{compact_session-cases, compact_session-IsSynced}

-- `_estimate_tokens` and `str` of a tool call's arguments
module _ (estimate_tokens : Text → ℕ) (str_args : Json → Text) where
  unfoldable pub call_tokens : List ToolCall → ℕ
  call_tokens [] = 0
  call_tokens (tc ∷ tcs) = estimate_tokens (str_args tc.arguments) + call_tokens tcs

  unfoldable pub result_tokens : List ToolResultEntry → ℕ
  result_tokens [] = 0
  result_tokens (r ∷ rs) = estimate_tokens r.content + result_tokens rs

  unfoldable pub message_tokens : Message → ℕ
  unfolding call_tokens result_tokens
  message_tokens (user u) = estimate_tokens u.content
  message_tokens (agent a) =
      estimate_tokens (elim a.text [ none ↦ [] | some t ↦ t ]) + call_tokens a.tool_calls
  message_tokens (tool_result rs) = result_tokens rs

  -- `_history_tokens`
  unfoldable pub history_tokens : List Message → ℕ
  unfolding message_tokens
  history_tokens [] = 0
  history_tokens (m ∷ ms) = message_tokens m + history_tokens ms

-- The tokenizer, and what a compaction is given: `split_at k n` is `int(n * (1 - keep))` with the share that
-- attempt `k` keeps; 4 messages at least, and 2000 characters of a tool result.
module _ (estimate_tokens : Text → ℕ) (str_args : Json → Text) (split_at : ℕ → ℕ → ℕ)
    (complete : Text → Option (Option Text × Usage)) (prompt : Text) where
  unfoldable pub compact_attempt : ℕ → Db → Session → Db × Session
  compact_attempt k db s = compact_session str_args (split_at k) complete 4 2000 prompt db s

  -- `used / max_ctx <= 0.80`, which for sizes below 2 ^ 50 the floats decide exactly
  unfoldable pub within_budget : ℕ → Session → Bool
  unfolding history_tokens
  within_budget max_ctx s =
      leb (5 * history_tokens estimate_tokens str_args s.messages) (4 * max_ctx)

  -- the loop over the attempts, `left` of them to go
  unfoldable pub budget_attempts : ℕ → ℕ → ℕ → Db → Session → Bool × Db × Session
  unfolding compact_attempt within_budget
  budget_attempts max_ctx zero k db s = (false, db, s)
  budget_attempts max_ctx (suc left) k db s =
      let (db', s') = compact_attempt k db s in
      let rest = budget_attempts max_ctx left (k + 1) db' s' in
      if within_budget max_ctx s then (true, db, s) else rest

  -- `_ensure_context_budget`: whether the message can proceed
  unfoldable pub ensure_context_budget : ℕ → Db → Session → Bool × Db × Session
  unfolding budget_attempts
  ensure_context_budget max_ctx db s =
      if max_ctx == 0 then (true, db, s) else budget_attempts max_ctx 2 0 db s
