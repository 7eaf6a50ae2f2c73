-- ===== src/Agentic/Env.antt =====
-- agentic.py, `run_agentic_loop`: what the loop is run with, its variables, and the run of the tools of
-- one reply.
pub mod Results
use lucyd.Base.{
  ℕ, zero, suc, ◌+◌, ◌-◌, max, String, Text, Bool, true, false, not, ◌&&◌, ◌||◌, Option, none, some,
  List, [], ◌∷◌, ◌++◌, length, take, is_empty, ltb, ◌==◌, str_eq, lit, join, decimal, grouped,
  starts_with, contains, mem_text, if◌then◌else◌,
}
use lucyd.Message.{
  Message, ToolCall, ToolResultEntry, Json, Usage, Response, user_text, agent, tool_result,
  context_tokens, truthy, to_internal_message,
}
use lucyd.Agentic.Retry.{Attempt}

-- How one tool run ends: the text and the attachments of `ToolRegistry.execute`, or an exception, by
-- its class and message.
pub data ToolOutcome : Type 0 where
  done : Text → List Text → ToolOutcome
  crashed : Text → Text → ToolOutcome

-- LoopConfig, less what only times out, delays or logs. Amounts of money are Python floats: `Cost`.
pub record LoopConfig (Cost : Type 0) : Type 0 where
  pub max_turns : ℕ
  pub api_retries : ℕ
  pub max_cost : Cost
  pub max_context_for_tools : ℕ
  pub tool_call_retry : Bool

-- What the loop is run with: the arithmetic of floats, the metering of a call if there is any, the
-- provider's i-th answer to the messages of a turn, the k-th tool run, and `str` of arguments.
pub record Env (Cost : Type 0) : Type 0 where
  pub zero_cost : Cost
  pub add_cost : Cost → Cost → Cost
  pub exceeds : Cost → Cost → Bool
  pub charge : Option (Usage → Cost)
  pub complete : ℕ → List Message → ℕ → Attempt (Response Cost)
  pub execute : ℕ → ToolCall → ToolOutcome
  pub str_args : Json → Text

-- The calls of the callbacks.
pub data Notice (Cost : Type 0) : Type 0 where
  on_response : Response Cost → Notice Cost
  on_running : List ToolCall → Notice Cost
  on_tool_results : List ToolResultEntry → Notice Cost

-- The variables of the loop.
pub record LoopState (Cost : Type 0) : Type 0 where
  pub messages : List Message
  pub accumulated_cost : Cost
  pub fallback_text : List Text
  pub tool_calls_total : ℕ
  pub tool_calls_failed : ℕ
  pub all_attachments : List Text
  pub notices : List (Notice Cost)

-- _truncate_args
unfoldable pub truncate_args : Text → Text
truncate_args s = if ltb 200 (length s) then take 200 s ++ lit "..." else s

-- the loop over `tool_attachments`
unfoldable pub collect : List Text → List Text → List Text
collect all [] = all
collect all (a ∷ atts) = collect (if mem_text a all then all else all ++ a ∷ []) atts

unfoldable pub truncated_hint : Message
truncated_hint = user_text (
    lit
      "[system: Your response was truncated (max output tokens). Some tool calls may be missing. Wrap up quickly.]")

unfoldable pub context_hint : ℕ → ℕ → Message
context_hint tokens limit = user_text (
    lit "[system: Context at "
    ++ (grouped tokens
        ++ (lit " tokens (limit: "
            ++ (grouped limit
                ++ lit
                    "). Quality degrades at this size. Summarize intermediate results and provide your final answer instead of making more tool calls.]"))))

unfoldable pub turns_hint : ℕ → Message
turns_hint max_turns = user_text (
    lit "[system: You have 2 tool-use turns remaining out of "
    ++ (decimal max_turns ++ lit ". Wrap up your work and provide a final answer.]"))

unfoldable pub stop_text : ℕ → Text
stop_text max_turns =
    lit "\n[Stopped: maximum tool-use turns (" ++ (decimal max_turns ++ lit ") reached]")

-- `"\n\n".join(fallback_text)` where the reply has no text and there is a fallback
unfoldable pub with_fallback : Option Text → List Text → Option Text
unfolding truthy
with_fallback text fallback =
    if not (truthy text) && not (is_empty fallback) then some (join (lit "\n\n") fallback) else text

module _ {Cost : Type 0} (env : Env Cost) (cfg : LoopConfig Cost) where
  -- the attributes that every return of the loop sets
  unfoldable pub stamped : LoopState Cost → ℕ → Response Cost → Response Cost
  stamped st turns r = record r {
    attachments = st.all_attachments;
    turns = turns;
    total_cost = st.accumulated_cost;
  }

  unfoldable pub finished : LoopState Cost → ℕ → Response Cost → Response Cost
  unfolding stamped with_fallback
  finished st turns r = stamped st turns (record r { text = with_fallback r.text st.fallback_text })

  unfoldable pub charged : Option (Usage → Cost) → Usage → Cost → Cost
  charged none u acc = acc
  charged (some charge) u acc = env.add_cost acc (charge u)

  -- `max_cost > 0 and accumulated_cost > max_cost`
  unfoldable pub over_cost : Cost → Bool
  over_cost acc = env.exceeds cfg.max_cost env.zero_cost && env.exceeds acc cfg.max_cost

  -- the entry for one tool call, and whether it counts as failed
  unfoldable pub result_entry : ToolCall → ToolOutcome → ToolResultEntry × Bool × List Text
  result_entry tc (crashed cls message) = (
    record {
      tool_call_id = tc.id;
      tool_name = tc.name;
      content = lit "Error: " ++ (cls ++ (lit ": " ++ message));
    },
    true,
    [],
  )
  result_entry tc (done text atts) =
      let failed = starts_with text (lit "Error:") in
      let retry = failed && (cfg.tool_call_retry && contains text (lit "Invalid arguments")) in
      (
        record {
          tool_call_id = tc.id;
          tool_name = tc.name;
          content =
              if retry
              then text
                ++ (lit "\n\nYour tool call had invalid arguments. Here is what you sent: "
                    ++ (truncate_args (env.str_args tc.arguments)
                        ++ lit ". Please try again with valid JSON arguments."))
              else text;
        },
        failed,
        atts,
      )

  -- the counters and the attachments after one result
  unfoldable pub after_result : LoopState Cost → ToolResultEntry × Bool × List Text → LoopState Cost
  unfolding collect
  after_result st (entry, bad, atts) = record st {
    tool_calls_total = st.tool_calls_total + 1;
    tool_calls_failed = if bad then suc st.tool_calls_failed else st.tool_calls_failed;
    all_attachments = collect st.all_attachments atts;
  }

  -- the loop over the results of `asyncio.gather`
  unfoldable pub run_tools : List ToolCall → LoopState Cost → List ToolResultEntry × LoopState Cost
  unfolding after_result
  run_tools [] st = ([], st)
  run_tools (tc ∷ tcs) st =
      let result = result_entry tc (env.execute st.tool_calls_total tc) in
      let (entries, last) = run_tools tcs (after_result st result) in (result.0 ∷ entries, last)
