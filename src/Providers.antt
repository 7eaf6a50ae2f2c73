-- ===== src/Providers.antt =====
-- providers/_openai_wire.py and providers/anthropic.py: messages in the formats of the vendors' APIs.
pub mod Events
pub mod Trace
use lucyd.Base.{
  ℕ, String, Text, Bool, true, false, not, ◌&&◌, ◌||◌, Option, none, some, List, [], ◌∷◌, ◌++◌, map,
  is_empty, lit, text_eq, if◌then◌else◌,
}
use lucyd.Message.{
  Json, Fields, null, boolean, number, string, array, object, end, field, ToolCall, ToolResultEntry,
  UserMessage, AssistantMessage, Message, user, agent, tool_result, truthy,
}
use lucyd.Tools.{get_field}
use lucyd.Session.Compact.{or_empty}

-- A block of a user's content: text, an image as base64 in the vendor's form, or any other block, unchanged.
pub data Block : Type 0 where
  text_block : Text → Block
  image : Json → Json → Block
  other : Json → Block

pub data Content : Type 0 where
  plain : Text → Content
  blocks : List Block → Content

-- `block.get("type") == "image"`
unfoldable pub is_image_type : Option Json → Bool
unfolding text_eq lit
is_image_type (some (string t)) = text_eq t (lit "image")
is_image_type o = false

-- a block with a media type: `block["data"]` raises a KeyError where it is missing
unfoldable pub image_block : Json → Option Json → Option Json → Option Block
image_block b none value = some (other b)
image_block b (some media_type) none = none
image_block b (some media_type) (some value) = some (image media_type value)

-- `_convert_content_blocks` on one block
unfoldable pub convert_block : Json → Option Block
unfolding get_field is_image_type image_block
convert_block (object fs) =
    if is_image_type (get_field "type" fs)
    then image_block (object fs) (get_field "media_type" fs) (get_field "data" fs)
    else some (other (object fs))
convert_block b = some (other b)

unfoldable pub convert_blocks : List Json → Option (List Block)
unfolding convert_block
convert_blocks [] = some []
convert_blocks (b ∷ bs) = elim (convert_block b) [
  | none ↦ none
  | some c ↦ elim (convert_blocks bs) [ none ↦ none | some cs ↦ some (c ∷ cs) ]
]

-- the content of a user message, its images before its text
unfoldable pub user_content : UserMessage → Option Content
unfolding convert_blocks
user_content u =
    if is_empty u.image_blocks
    then some (plain u.content)
    else elim (convert_blocks u.image_blocks) [
      | none ↦ none
      | some bs ↦ some (blocks (bs ++ text_block u.content ∷ []))
    ]

-- The arguments of a call: JSON text for a dict, otherwise what they are.
pub data Arguments : Type 0 where
  dumped : Text → Arguments
  unchanged : Json → Arguments

-- `{"id": …, "type": "function", "function": {"name": …, "arguments": …}}`
pub record WireCall : Type 0 where
  pub id : String
  pub name : String
  pub arguments : Arguments

-- A message of the OpenAI format, by its role.
pub data ChatMessage : Type 0 where
  chat_user : Content → ChatMessage
  chat_assistant : Option Text → List WireCall → ChatMessage
  chat_tool : String → Text → ChatMessage

-- A content block of the Anthropic format.
pub data AnthropicBlock : Type 0 where
  thinking_kept : Json → AnthropicBlock
  thinking : Text → AnthropicBlock
  said : Text → AnthropicBlock
  tool_use : String → String → Json → AnthropicBlock
  tool_answer : String → Text → AnthropicBlock

pub data AnthropicMessage : Type 0 where
  from_user : Content → AnthropicMessage
  from_assistant from_tools : List AnthropicBlock → AnthropicMessage

unfoldable pub chat_results : List ToolResultEntry → List ChatMessage
chat_results [] = []
chat_results (r ∷ rs) = chat_tool r.tool_call_id r.content ∷ chat_results rs

-- the one entry of a user message
unfoldable pub user_entries : {A : Type 0} → (Content → A) → Option Content → Option (List A)
user_entries from none = none
user_entries from (some c) = some (from c ∷ [])

-- `dumps` is `json.dumps`
module _ (dumps : Json → Text) where
  unfoldable pub dump_arguments : Json → Arguments
  dump_arguments (object fs) = dumped (dumps (object fs))
  dump_arguments a = unchanged a

  unfoldable pub wire_call : ToolCall → WireCall
  unfolding dump_arguments
  wire_call tc = record { id = tc.id; name = tc.name; arguments = dump_arguments tc.arguments }

  -- an agent's message: its content is its text, or empty where it has neither text nor calls
  unfoldable pub chat_agent : AssistantMessage → ChatMessage
  unfolding wire_call truthy
  chat_agent a =
      let calls = map wire_call a.tool_calls in
      if truthy a.text
      then chat_assistant a.text calls
      else if is_empty a.tool_calls
      then chat_assistant (some []) calls
      else chat_assistant none calls

  -- the entries that one message becomes in OpenAIWireMixin.format_messages
  unfoldable pub chat_messages : Message → Option (List ChatMessage)
  unfolding user_entries user_content chat_agent chat_results
  chat_messages (user u) = user_entries chat_user (user_content u)
  chat_messages (agent a) = some (chat_agent a ∷ [])
  chat_messages (tool_result rs) = some (chat_results rs)

-- the loop of `format_messages`, for the entries that one message becomes
unfoldable pub append_entries : {A : Type 0} → Option (List A) → Option (List A) → Option (List A)
append_entries none rest = none
append_entries (some xs) none = none
append_entries (some xs) (some ys) = some (xs ++ ys)

-- OpenAIWireMixin.format_messages
unfoldable pub format_chat : (Json → Text) → List Message → Option (List ChatMessage)
unfolding append_entries chat_messages
format_chat dumps [] = some []
format_chat dumps (m ∷ ms) = append_entries (chat_messages dumps m) (format_chat dumps ms)

-- the thinking of an agent's message: the signed block, or else its text
unfoldable pub thinking_blocks : Option Json → Option Text → List AnthropicBlock
unfolding truthy or_empty
thinking_blocks none t = if truthy t then thinking (or_empty t) ∷ [] else []
thinking_blocks (some (object end)) t = if truthy t then thinking (or_empty t) ∷ [] else []
thinking_blocks (some b) t = thinking_kept b ∷ []

unfoldable pub tool_uses : List ToolCall → List AnthropicBlock
tool_uses [] = []
tool_uses (tc ∷ tcs) = tool_use tc.id tc.name tc.arguments ∷ tool_uses tcs

unfoldable pub agent_blocks : AssistantMessage → List AnthropicBlock
unfolding thinking_blocks tool_uses truthy or_empty
agent_blocks a =
    thinking_blocks a.thinking_block a.thinking
    ++ ((if truthy a.text then said (or_empty a.text) ∷ [] else []) ++ tool_uses a.tool_calls)

unfoldable pub tool_answers : List ToolResultEntry → List AnthropicBlock
tool_answers [] = []
tool_answers (r ∷ rs) = tool_answer r.tool_call_id r.content ∷ tool_answers rs

-- the entries that one message becomes in AnthropicProvider.format_messages: an agent's message
-- without a block, and results without an entry, become none
unfoldable pub anthropic_messages : Message → Option (List AnthropicMessage)
unfolding user_entries user_content agent_blocks tool_answers
anthropic_messages (user u) = user_entries from_user (user_content u)
anthropic_messages (agent a) =
    some (if is_empty (agent_blocks a) then [] else from_assistant (agent_blocks a) ∷ [])
anthropic_messages (tool_result rs) =
    some (if is_empty (tool_answers rs) then [] else from_tools (tool_answers rs) ∷ [])

-- AnthropicProvider.format_messages
unfoldable pub format_anthropic : List Message → Option (List AnthropicMessage)
unfolding append_entries anthropic_messages
format_anthropic [] = some []
format_anthropic (m ∷ ms) = append_entries (anthropic_messages m) (format_anthropic ms)
