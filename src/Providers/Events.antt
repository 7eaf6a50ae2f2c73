-- ===== src/Providers/Events.antt =====
-- providers/_openai_wire.py and providers/anthropic.py: tool calls and results as events, read off a history and off both formats.
use lucyd.Base.{String, Text, ◌≡◌, refl, sym, ap, List, [], ◌∷◌, ◌++◌, append_assoc}
use lucyd.Message.{ToolCall, ToolResultEntry, Message, user, agent, tool_result}
use lucyd.Providers.{
  WireCall, ChatMessage, chat_user, chat_assistant, chat_tool, AnthropicBlock, thinking_kept,
  thinking, said, tool_use, tool_answer, AnthropicMessage, from_user, from_assistant, from_tools,
}

-- What a history says of tools, in its order: a call with its id and name, or the id and text of a result.
pub data ToolEvent : Type 0 where
  called : String → String → ToolEvent
  answered : String → Text → ToolEvent

unfoldable pub calls_of : List ToolCall → List ToolEvent
calls_of [] = []
calls_of (tc ∷ tcs) = called tc.id tc.name ∷ calls_of tcs

unfoldable pub results_of : List ToolResultEntry → List ToolEvent
results_of [] = []
results_of (r ∷ rs) = answered r.tool_call_id r.content ∷ results_of rs

unfoldable pub history_trace : List Message → List ToolEvent
unfolding calls_of results_of
history_trace [] = []
history_trace (user u ∷ ms) = history_trace ms
history_trace (agent a ∷ ms) = calls_of a.tool_calls ++ history_trace ms
history_trace (tool_result rs ∷ ms) = results_of rs ++ history_trace ms

unfoldable pub wire_calls : List WireCall → List ToolEvent
wire_calls [] = []
wire_calls (c ∷ cs) = called c.id c.name ∷ wire_calls cs

unfoldable pub chat_trace : List ChatMessage → List ToolEvent
unfolding wire_calls
chat_trace [] = []
chat_trace (chat_user c ∷ ms) = chat_trace ms
chat_trace (chat_assistant t calls ∷ ms) = wire_calls calls ++ chat_trace ms
chat_trace (chat_tool id t ∷ ms) = answered id t ∷ chat_trace ms

unfoldable pub block_trace : List AnthropicBlock → List ToolEvent
block_trace [] = []
block_trace (thinking_kept b ∷ bs) = block_trace bs
block_trace (thinking t ∷ bs) = block_trace bs
block_trace (said t ∷ bs) = block_trace bs
block_trace (tool_use id name input ∷ bs) = called id name ∷ block_trace bs
block_trace (tool_answer id t ∷ bs) = answered id t ∷ block_trace bs

unfoldable pub anthropic_trace : List AnthropicMessage → List ToolEvent
unfolding block_trace
anthropic_trace [] = []
anthropic_trace (from_user c ∷ ms) = anthropic_trace ms
anthropic_trace (from_assistant bs ∷ ms) = block_trace bs ++ anthropic_trace ms
anthropic_trace (from_tools bs ∷ ms) = block_trace bs ++ anthropic_trace ms

pub chat_trace-append :
    (xs ys : List ChatMessage) → chat_trace (xs ++ ys) ≡ chat_trace xs ++ chat_trace ys
unfolding chat_trace
chat_trace-append [] ys = refl
chat_trace-append (chat_user c ∷ xs) ys = chat_trace-append xs ys
chat_trace-append (chat_assistant t calls ∷ xs) ys =
    rw (chat_trace-append xs ys)
      (sym (append_assoc (wire_calls calls) (chat_trace xs) (chat_trace ys)))
chat_trace-append (chat_tool id t ∷ xs) ys =
    ap (λ (r : List ToolEvent). answered id t ∷ r) (chat_trace-append xs ys)

pub anthropic_trace-append :
    (xs ys : List AnthropicMessage)
    → anthropic_trace (xs ++ ys) ≡ anthropic_trace xs ++ anthropic_trace ys
unfolding anthropic_trace
anthropic_trace-append [] ys = refl
anthropic_trace-append (from_user c ∷ xs) ys = anthropic_trace-append xs ys
anthropic_trace-append (from_assistant bs ∷ xs) ys =
    rw (anthropic_trace-append xs ys)
      (sym (append_assoc (block_trace bs) (anthropic_trace xs) (anthropic_trace ys)))
anthropic_trace-append (from_tools bs ∷ xs) ys =
    rw (anthropic_trace-append xs ys)
      (sym (append_assoc (block_trace bs) (anthropic_trace xs) (anthropic_trace ys)))

pub block_trace-append :
    (xs ys : List AnthropicBlock) → block_trace (xs ++ ys) ≡ block_trace xs ++ block_trace ys
unfolding block_trace
block_trace-append [] ys = refl
block_trace-append (thinking_kept b ∷ xs) ys = block_trace-append xs ys
block_trace-append (thinking t ∷ xs) ys = block_trace-append xs ys
block_trace-append (said t ∷ xs) ys = block_trace-append xs ys
block_trace-append (tool_use id name input ∷ xs) ys =
    ap (λ (r : List ToolEvent). called id name ∷ r) (block_trace-append xs ys)
block_trace-append (tool_answer id t ∷ xs) ys =
    ap (λ (r : List ToolEvent). answered id t ∷ r) (block_trace-append xs ys)
