-- ===== src/Agentic/Loop.antt =====
-- agentic.py, `run_agentic_loop` and `run_single_shot`.
pub mod Turns
pub mod Pairing
pub mod Cost
use lucyd.Base.{
  ℕ, zero, suc, ◌+◌, ◌-◌, max, Text, Bool, true, false, not, ◌||◌, Option, none, some, List, [],
  ◌∷◌, ◌++◌, is_empty, ltb, ◌==◌, str_eq, lit, join, if◌then◌else◌,
}
use lucyd.Message.{
  Message, Response, agent, tool_result, context_tokens, truthy, to_internal_message,
}
use lucyd.Agentic.Retry.{Outcome, ok, timeout, failed, no_exception, call_provider_with_retry}
use lucyd.Agentic.Env.{
  Env, LoopConfig, LoopState, on_response, on_running, on_tool_results, truncated_hint,
  context_hint, turns_hint, stop_text, finished, stamped, charged, over_cost, run_tools,
}

-- How one round of the loop ends.
pub data TurnEnd (Cost : Type 0) : Type 0 where
  go_on : Response Cost → LoopState Cost → TurnEnd Cost
  finish : Response Cost → LoopState Cost → TurnEnd Cost
  fail : Outcome (Response Cost) → LoopState Cost → TurnEnd Cost

-- `internal_msg.get("text") or internal_msg.get("tool_calls")`
unfoldable pub has_content : {Cost : Type 0} → Response Cost → Bool
unfolding truthy to_internal_message
has_content r = let msg = to_internal_message r in truthy msg.text || not (is_empty msg.tool_calls)

-- the reply and the hint after a truncated one
unfoldable pub reply_messages : {Cost : Type 0} → Response Cost → List Message
reply_messages r =
    (if has_content r then agent (to_internal_message r) ∷ [] else [])
    ++ (if str_eq r.stop_reason "max_tokens"
        then (if is_empty r.tool_calls then [] else truncated_hint ∷ [])
        else [])

unfoldable pub fallback_of : {Cost : Type 0} → Response Cost → List Text → List Text
unfolding truthy
fallback_of r fallback = elim r.text [
  | none ↦ fallback
  | some t ↦
      if not (is_empty t)
      then (if is_empty r.tool_calls then fallback else fallback ++ t ∷ [])
      else fallback
]

-- from the append of the reply to the truncation warning
unfoldable pub record_reply : {Cost : Type 0} → Response Cost → LoopState Cost → LoopState Cost
record_reply r st = record st {
  messages = st.messages ++ reply_messages r;
  fallback_text = fallback_of r st.fallback_text;
  notices = st.notices ++ on_response r ∷ [];
}

-- `not response.tool_calls or response.stop_reason == "end_turn"`
unfoldable pub is_final : {Cost : Type 0} → Response Cost → Bool
is_final r = is_empty r.tool_calls || str_eq r.stop_reason "end_turn"

module _ {Cost : Type 0} (env : Env Cost) (cfg : LoopConfig Cost) where
  -- the wrap-up hint for a large context
  unfoldable pub hints_before : Response Cost → List Message
  unfolding context_hint context_tokens
  hints_before r =
      if ltb 0 cfg.max_context_for_tools
      then (if ltb cfg.max_context_for_tools (context_tokens r.usage)
          then context_hint (context_tokens r.usage) cfg.max_context_for_tools ∷ []
          else [])
      else []

  -- the warning two turns before the limit
  unfoldable pub hints_after : ℕ → ℕ → List Message
  unfolding turns_hint
  hints_after max_turns turn = if max_turns - (turn + 1) == 2 then turns_hint max_turns ∷ [] else []

  -- from the context hint to the end of the loop's body
  unfoldable pub use_tools : ℕ → ℕ → Response Cost → LoopState Cost → LoopState Cost
  use_tools max_turns turn r st =
      let (entries, ran) = run_tools env cfg r.tool_calls st in
      record ran {
        messages =
            st.messages ++ (hints_before r ++ (tool_result entries ∷ hints_after max_turns turn));
        notices = st.notices ++ on_running r.tool_calls ∷ on_tool_results entries ∷ [];
      }

  -- the cost of the reply is added
  unfoldable pub pay : Response Cost → LoopState Cost → LoopState Cost
  unfolding charged
  pay r st = record st { accumulated_cost = charged env cfg env.charge r.usage st.accumulated_cost }

  -- the body of the loop after the call of the provider
  unfoldable pub on_reply : ℕ → ℕ → Response Cost → LoopState Cost → TurnEnd Cost
  on_reply max_turns turn r st =
      let paid = pay r st in
      if over_cost env cfg paid.accumulated_cost
      then finish (finished env cfg paid (turn + 1) (record r { cost_limited = true })) paid
      else (let said = record_reply r paid in
          if is_final r
          then finish (finished env cfg said (turn + 1) r) said
          else go_on r (use_tools max_turns turn r said))

  unfoldable pub on_outcome : ℕ → ℕ → LoopState Cost → Outcome (Response Cost) → TurnEnd Cost
  on_outcome max_turns turn st (ok r) = on_reply max_turns turn r st
  on_outcome max_turns turn st timeout = fail timeout st
  on_outcome max_turns turn st (failed e) = fail (failed e) st
  on_outcome max_turns turn st no_exception = fail no_exception st

  -- one round of `for turn in range(max_turns)`
  unfoldable pub take_turn : ℕ → ℕ → LoopState Cost → TurnEnd Cost
  take_turn max_turns turn st =
      on_outcome max_turns turn st
        (call_provider_with_retry (env.complete turn st.messages) cfg.api_retries).outcome

  unfoldable pub exhausted_text : ℕ → Option Text → List Text → Text
  unfolding stop_text
  exhausted_text max_turns (some (c ∷ cs)) fallback = (c ∷ cs) ++ stop_text max_turns
  exhausted_text max_turns _ fallback =
      if is_empty fallback
      then stop_text max_turns
      else join (lit "\n\n") fallback ++ stop_text max_turns

  -- after the loop; with no response the attribute assignments would raise
  unfoldable pub exhausted : ℕ → LoopState Cost → Option (Response Cost) → Outcome (Response Cost)
  unfolding stamped exhausted_text
  exhausted max_turns st none = no_exception
  exhausted max_turns st (some r) = ok (
      stamped env cfg st max_turns
        (record r { text = some (exhausted_text max_turns r.text st.fallback_text) }))

  unfoldable pub after_turn :
      TurnEnd Cost
      → (Response Cost → LoopState Cost → Outcome (Response Cost) × LoopState Cost)
      → Outcome (Response Cost) × LoopState Cost
  after_turn (go_on r st) next = next r st
  after_turn (finish r st) next = (ok r, st)
  after_turn (fail o st) next = (o, st)

  -- the loop with `left` rounds to go
  unfoldable pub rounds :
      ℕ → ℕ → ℕ → LoopState Cost → Option (Response Cost) → Outcome (Response Cost) × LoopState Cost
  rounds max_turns zero turn st last = (exhausted max_turns st last, st)
  rounds max_turns (suc left) turn st last =
      after_turn (take_turn max_turns turn st)
        (λ r next. rounds max_turns left (turn + 1) next (some r))

  unfoldable pub start : List Message → LoopState Cost
  start messages = record {
    messages = messages;
    accumulated_cost = env.zero_cost;
    fallback_text = [];
    tool_calls_total = 0;
    tool_calls_failed = 0;
    all_attachments = [];
    notices = [];
  }

  -- run_agentic_loop
  unfoldable pub run_agentic_loop : List Message → Outcome (Response Cost) × LoopState Cost
  run_agentic_loop messages =
      let max_turns = max 1 cfg.max_turns in rounds max_turns max_turns 0 (start messages) none

  -- run_single_shot
  unfoldable pub single_reply :
      LoopState Cost → Outcome (Response Cost) → Outcome (Response Cost) × LoopState Cost
  unfolding charged
  single_reply st (ok r) = (
    ok (record r {
      total_cost = elim env.charge [ none ↦ r.total_cost | some charge ↦ charge r.usage ];
    }),
    record st {
      messages = st.messages ++ agent (to_internal_message r) ∷ [];
      notices = st.notices ++ on_response r ∷ [];
    },
  )
  single_reply st timeout = (timeout, st)
  single_reply st (failed e) = (failed e, st)
  single_reply st no_exception = (no_exception, st)

  unfoldable pub run_single_shot : List Message → Outcome (Response Cost) × LoopState Cost
  run_single_shot messages =
      single_reply (start messages)
        (call_provider_with_retry (env.complete 0 messages) cfg.api_retries).outcome
