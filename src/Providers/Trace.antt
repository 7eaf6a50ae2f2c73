-- ===== src/Providers/Trace.antt =====
-- providers/_openai_wire.py and providers/anthropic.py: the tool calls and results that the formats carry.
use lucyd.Base.{
  Text, ◌≡◌, ◌∙◌, refl, sym, ap, Bool, true, false, Option, none, some, List, [], ◌∷◌, ◌++◌,
  append-nil, All, map, is_empty, Bool-cases, some_inj, inl, inr, if◌then◌else◌,
}
use lucyd.Message.{
  Json, object, end, ToolCall, ToolResultEntry, AssistantMessage, Message, user, agent, tool_result,
  truthy,
}
use lucyd.Session.Compact.{or_empty}
use lucyd.Providers.{
  Content, ChatMessage, chat_user, AnthropicBlock, thinking, said, AnthropicMessage, from_user,
  from_assistant, from_tools, user_content, user_entries, wire_call, chat_agent, chat_results,
  chat_messages, append_entries, format_chat, thinking_blocks, tool_uses, agent_blocks,
  tool_answers, anthropic_messages, format_anthropic,
}
use lucyd.Providers.Events.{
  ToolEvent, called, answered, calls_of, results_of, history_trace, wire_calls, chat_trace,
  block_trace, anthropic_trace, chat_trace-append, anthropic_trace-append, block_trace-append,
}

wire_calls-map :
    (dumps : Json → Text) (tcs : List ToolCall)
    → wire_calls (map (wire_call dumps) tcs) ≡ calls_of tcs
unfolding wire_calls calls_of wire_call
wire_calls-map dumps [] = refl
wire_calls-map dumps (tc ∷ tcs) =
    ap (λ (r : List ToolEvent). called tc.id tc.name ∷ r) (wire_calls-map dumps tcs)

chat_results-trace : (rs : List ToolResultEntry) → chat_trace (chat_results rs) ≡ results_of rs
unfolding chat_results chat_trace results_of
chat_results-trace [] = refl
chat_results-trace (r ∷ rs) =
    ap (λ (x : List ToolEvent). answered r.tool_call_id r.content ∷ x) (chat_results-trace rs)

tool_uses-trace : (tcs : List ToolCall) → block_trace (tool_uses tcs) ≡ calls_of tcs
unfolding tool_uses block_trace calls_of
tool_uses-trace [] = refl
tool_uses-trace (tc ∷ tcs) =
    ap (λ (r : List ToolEvent). called tc.id tc.name ∷ r) (tool_uses-trace tcs)

tool_answers-trace : (rs : List ToolResultEntry) → block_trace (tool_answers rs) ≡ results_of rs
unfolding tool_answers block_trace results_of
tool_answers-trace [] = refl
tool_answers-trace (r ∷ rs) =
    ap (λ (x : List ToolEvent). answered r.tool_call_id r.content ∷ x) (tool_answers-trace rs)

chat_agent-trace :
    (dumps : Json → Text) (a : AssistantMessage)
    → chat_trace (chat_agent dumps a ∷ []) ≡ calls_of a.tool_calls
unfolding chat_agent chat_trace
chat_agent-trace dumps a = elim (Bool-cases (truthy a.text)) [
  | inl text ↦ rw text (
      append-nil (wire_calls (map (wire_call dumps) a.tool_calls))
      ∙ wire_calls-map dumps a.tool_calls)
  | inr silent ↦ elim (Bool-cases (is_empty a.tool_calls)) [
    | inl nothing ↦
        rw (silent, nothing)
          (append-nil (wire_calls (map (wire_call dumps) a.tool_calls))
            ∙ wire_calls-map dumps a.tool_calls)
    | inr calls ↦
        rw (silent, calls)
          (append-nil (wire_calls (map (wire_call dumps) a.tool_calls))
            ∙ wire_calls-map dumps a.tool_calls)
  ]
]

chat_user-trace :
    (o : Option Content) (out : List ChatMessage)
    → user_entries chat_user o ≡ some out
    → chat_trace out ≡ []
unfolding user_entries chat_trace
chat_user-trace none out h = cc
chat_user-trace (some c) out h = ap chat_trace (sym (some_inj h))

chat_messages-trace :
    (dumps : Json → Text) (m : Message) (out : List ChatMessage)
    → chat_messages dumps m ≡ some out
    → chat_trace out ≡ history_trace (m ∷ [])
unfolding chat_messages history_trace chat_trace
chat_messages-trace dumps (user u) out h = chat_user-trace (user_content u) out h
chat_messages-trace dumps (agent a) out h =
    ap chat_trace (sym (some_inj h))
    ∙ chat_agent-trace dumps a
    ∙ sym (append-nil (calls_of a.tool_calls))
chat_messages-trace dumps (tool_result rs) out h =
    ap chat_trace (sym (some_inj h)) ∙ chat_results-trace rs ∙ sym (append-nil (results_of rs))

anthropic_user-trace :
    (o : Option Content) (out : List AnthropicMessage)
    → user_entries from_user o ≡ some out
    → anthropic_trace out ≡ []
unfolding user_entries anthropic_trace
anthropic_user-trace none out h = cc
anthropic_user-trace (some c) out h = ap anthropic_trace (sym (some_inj h))

-- an entry is left out only where it has no blocks
shown-trace :
    (from : List AnthropicBlock → AnthropicMessage) (bs : List AnthropicBlock)
    → ((xs : List AnthropicBlock) → anthropic_trace (from xs ∷ []) ≡ block_trace xs)
    → anthropic_trace (if is_empty bs then [] else from bs ∷ []) ≡ block_trace bs
unfolding anthropic_trace block_trace
shown-trace from [] h = refl
shown-trace from (b ∷ bs) h = h (b ∷ bs)

quiet : (b : Bool) (t : Text) → block_trace (if b then thinking t ∷ [] else []) ≡ []
unfolding block_trace
quiet true t = refl
quiet false t = refl

said-trace :
    (b : Bool) (t : Text) (bs : List AnthropicBlock)
    → block_trace ((if b then said t ∷ [] else []) ++ bs) ≡ block_trace bs
unfolding block_trace
said-trace true t bs = refl
said-trace false t bs = refl

thinking_blocks-trace : (b : Option Json) (t : Option Text) → block_trace (thinking_blocks b t) ≡ []
unfolding thinking_blocks block_trace
thinking_blocks-trace none t = quiet (truthy t) (or_empty t)
thinking_blocks-trace (some (object end)) t = quiet (truthy t) (or_empty t)
thinking_blocks-trace (some b) t = refl

agent_blocks-trace : (a : AssistantMessage) → block_trace (agent_blocks a) ≡ calls_of a.tool_calls
unfolding agent_blocks
agent_blocks-trace a =
    block_trace-append (thinking_blocks a.thinking_block a.thinking) _
    ∙ rw (thinking_blocks-trace a.thinking_block a.thinking) (
        said-trace (truthy a.text) (or_empty a.text) (tool_uses a.tool_calls)
        ∙ tool_uses-trace a.tool_calls)

anthropic_messages-trace :
    (m : Message) (out : List AnthropicMessage)
    → anthropic_messages m ≡ some out
    → anthropic_trace out ≡ history_trace (m ∷ [])
unfolding anthropic_messages history_trace anthropic_trace block_trace
anthropic_messages-trace (user u) out h = anthropic_user-trace (user_content u) out h
anthropic_messages-trace (agent a) out h =
    ap anthropic_trace (sym (some_inj h))
    ∙ shown-trace from_assistant (agent_blocks a) (λ xs. append-nil (block_trace xs))
    ∙ agent_blocks-trace a
    ∙ sym (append-nil (calls_of a.tool_calls))
anthropic_messages-trace (tool_result rs) out h =
    ap anthropic_trace (sym (some_inj h))
    ∙ shown-trace from_tools (tool_answers rs) (λ xs. append-nil (block_trace xs))
    ∙ tool_answers-trace rs
    ∙ sym (append-nil (results_of rs))

-- The images of the message have the data that the formats ask of them.
abbrev pub Converts : Message → Type 0
Converts (user u) = (c : Content) × (user_content u ≡ some c)
Converts (agent a) = Unit
Converts (tool_result rs) = Unit

history_trace-cons :
    (m : Message) (ms : List Message)
    → history_trace (m ∷ []) ++ history_trace ms ≡ history_trace (m ∷ ms)
unfolding history_trace
history_trace-cons (user u) ms = refl
history_trace-cons (agent a) ms =
    ap (λ (r : List ToolEvent). r ++ history_trace ms) (append-nil (calls_of a.tool_calls))
history_trace-cons (tool_result rs) ms =
    ap (λ (r : List ToolEvent). r ++ history_trace ms) (append-nil (results_of rs))

chat_messages-some :
    (dumps : Json → Text) (m : Message)
    → Converts m
    → (out : List ChatMessage) × (chat_messages dumps m ≡ some out)
unfolding chat_messages user_entries
chat_messages-some dumps (user u) (c, e) = (chat_user c ∷ [], rw e)
chat_messages-some dumps (agent a) h = (_, refl)
chat_messages-some dumps (tool_result rs) h = (_, refl)

anthropic_messages-some :
    (m : Message) → Converts m → (out : List AnthropicMessage) × (anthropic_messages m ≡ some out)
unfolding anthropic_messages user_entries
anthropic_messages-some (user u) (c, e) = (from_user c ∷ [], rw e)
anthropic_messages-some (agent a) h = (_, refl)
anthropic_messages-some (tool_result rs) h = (_, refl)

format_chat-trace :
    (dumps : Json → Text) (ms : List Message)
    → All Converts ms
    → (out : List ChatMessage) × (format_chat dumps ms ≡ some out)
      × (chat_trace out ≡ history_trace ms)
unfolding format_chat append_entries chat_trace history_trace
format_chat-trace dumps [] h = ([], refl, refl)
format_chat-trace dumps (m ∷ ms) (own, others) =
    let (rest, made, trace) = format_chat-trace dumps ms others in
    let (out, entries) = chat_messages-some dumps m own in
    (
      out ++ rest,
      rw (entries, made),
      chat_trace-append out rest
          ∙ rw (chat_messages-trace dumps m out entries, trace) (history_trace-cons m ms),
    )

format_anthropic-trace :
    (ms : List Message)
    → All Converts ms
    → (out : List AnthropicMessage) × (format_anthropic ms ≡ some out)
      × (anthropic_trace out ≡ history_trace ms)
unfolding format_anthropic append_entries anthropic_trace history_trace
format_anthropic-trace [] h = ([], refl, refl)
format_anthropic-trace (m ∷ ms) (own, others) =
    let (rest, made, trace) = format_anthropic-trace ms others in
    let (out, entries) = anthropic_messages-some m own in
    (
      out ++ rest,
      rw (entries, made),
      anthropic_trace-append out rest
          ∙ rw (anthropic_messages-trace m out entries, trace) (history_trace-cons m ms),
    )

-- Where the images of the messages have their data, both formats of a history exist, and each carries
-- exactly the history's tool calls, with their ids and names, and its tool results, with their ids and
-- texts, in the history's order.
pub formats-trace :
    (dumps : Json → Text) (ms : List Message)
    → All Converts ms
    → ((out : List ChatMessage) × (format_chat dumps ms ≡ some out)
        × (chat_trace out ≡ history_trace ms))
      × ((out : List AnthropicMessage) × (format_anthropic ms ≡ some out)
          × (anthropic_trace out ≡ history_trace ms))
formats-trace dumps ms h = (format_chat-trace dumps ms h, format_anthropic-trace ms h)
