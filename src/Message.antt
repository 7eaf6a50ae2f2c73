-- ===== src/Message.antt =====
-- messages.py and the shared types of providers/__init__.py.
use lucyd.Base.{
  ℕ, ◌+◌, String, Text, Bool, true, false, not, Option, none, some, List, [], ◌∷◌, is_empty,
}

-- A decoded JSON value. A number is kept as the text that `json.dumps` prints for it.
mutual
  pub data Json : Type 0 where
    null : Json
    boolean : Bool → Json
    number : Text → Json
    string : Text → Json
    array : Items → Json
    object : Fields → Json

  pub data Items : Type 0 where
    nil : Items
    cons : Json → Items → Items

  pub data Fields : Type 0 where
    end : Fields
    field : String → Json → Fields → Fields

pub record ToolCall : Type 0 where
  pub id : String
  pub name : String
  pub arguments : Json

pub record Usage : Type 0 where
  pub input_tokens : ℕ
  pub output_tokens : ℕ
  pub cache_read_tokens : ℕ
  pub cache_write_tokens : ℕ

unfoldable pub no_usage : Usage
no_usage = record {
  input_tokens = 0;
  output_tokens = 0;
  cache_read_tokens = 0;
  cache_write_tokens = 0;
}

-- the property `Usage.context_tokens`
unfoldable pub context_tokens : Usage → ℕ
context_tokens u = u.input_tokens + u.cache_read_tokens

-- The stored `usage` dict. Messages of old versions have no `context_tokens` key; a missing count
-- is read as 0 by `dict.get`, so the other keys are plain numbers.
pub record UsageDict : Type 0 where
  pub input_tokens : ℕ
  pub output_tokens : ℕ
  pub cache_read_tokens : ℕ
  pub cache_write_tokens : ℕ
  pub context_tokens : Option ℕ

-- An absent key is `none`, or the empty list.
pub record AssistantMessage : Type 0 where
  pub text : Option Text
  pub tool_calls : List ToolCall
  pub thinking : Option Text
  pub thinking_block : Option Json
  pub usage : Option UsageDict
  pub attachments : List Json
  pub source_metadata : Option Fields

-- `image_blocks` is the transient key `_image_blocks`.
pub record UserMessage : Type 0 where
  pub content : Text
  pub image_blocks : List Json

pub record ToolResultEntry : Type 0 where
  pub tool_call_id : String
  pub tool_name : String
  pub content : Text

pub data Message : Type 0 where
  user : UserMessage → Message
  agent : AssistantMessage → Message
  tool_result : List ToolResultEntry → Message

-- `{"role": "user", "content": text}`
unfoldable pub user_text : Text → Message
user_text t = user (record { content = t; image_blocks = [] })

-- `msg["role"] == "user"`, and the other roles
unfoldable pub is_user : Message → Bool
is_user (user u) = true
is_user (agent a) = false
is_user (tool_result rs) = false

unfoldable pub is_tool_result : Message → Bool
is_tool_result (user u) = false
is_tool_result (agent a) = false
is_tool_result (tool_result rs) = true

-- `msg["role"] == "agent" and msg.get("tool_calls")`
unfoldable pub calls_tools : Message → Bool
calls_tools (user u) = false
calls_tools (agent a) = not (is_empty a.tool_calls)
calls_tools (tool_result rs) = false

-- `{k: v for k, v in msg.items() if not k.startswith("_")}`
unfoldable pub persisted : Message → Message
persisted (user u) = user (record u { image_blocks = [] })
persisted (agent a) = agent a
persisted (tool_result rs) = tool_result rs

-- `str | None` as a condition: `None` and `""` are false.
unfoldable pub truthy : Option Text → Bool
truthy none = false
truthy (some t) = not (is_empty t)

unfoldable pub or_none : Option Text → Option Text
or_none none = none
or_none (some []) = none
or_none (some (c ∷ cs)) = some (c ∷ cs)

-- the same for the thinking block, a dict or `None`
unfoldable pub dict_or_none : Option Json → Option Json
dict_or_none (some (object end)) = none
dict_or_none block = block

-- LLMResponse, without the provider's raw object and the repr-only latency. `Cost` is the type of
-- amounts of money (Python floats).
pub record Response (Cost : Type 0) : Type 0 where
  pub text : Option Text
  pub tool_calls : List ToolCall
  pub stop_reason : String
  pub usage : Usage
  pub thinking : Option Text
  pub thinking_block : Option Json
  pub cost_limited : Bool
  pub attachments : List Text
  pub turns : ℕ
  pub total_cost : Cost

-- LLMResponse.to_internal_message
unfoldable pub to_internal_message : {Cost : Type 0} → Response Cost → AssistantMessage
unfolding or_none dict_or_none context_tokens
to_internal_message r = record {
  text = or_none r.text;
  tool_calls = r.tool_calls;
  thinking = or_none r.thinking;
  thinking_block = dict_or_none r.thinking_block;
  usage = some (record {
    input_tokens = r.usage.input_tokens;
    output_tokens = r.usage.output_tokens;
    cache_read_tokens = r.usage.cache_read_tokens;
    cache_write_tokens = r.usage.cache_write_tokens;
    context_tokens = some (context_tokens r.usage);
  });
  attachments = [];
  source_metadata = none;
}
