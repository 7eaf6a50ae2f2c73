-- ===== src/Examples.antt =====
-- Concrete sessions, tables, providers and tools, on which the theorems are applied.
mod Sessions
mod Budgets
mod Prompts
mod Managers
mod Loops
mod Dispatching
mod Processes
mod Knowing
mod Formats
mod Filing
mod Serving
mod Tending
mod Fetching
use lucyd.Base.{
  ℕ, ◌+◌, ◌/◌, String, Text, Bool, true, false, Option, none, some, List, [], ◌∷◌, lit, ltb,
  if◌then◌else◌,
}
use lucyd.Message.{
  Message, AssistantMessage, ToolCall, ToolResultEntry, Json, Usage, Response, user_text, agent,
  tool_result, no_usage, null, user,
}
use lucyd.Store.{Db, SessionRow, MessageRow}
use lucyd.Session.{Session}
use lucyd.Manager.{World}
use lucyd.Agentic.Retry.{Attempt, Exc, returned, raised}
use lucyd.Agentic.Env.{Env, LoopConfig, LoopState, ToolOutcome, done}

abbrev pub hi : Message
hi = user (record { content = lit "hi"; image_blocks = [] })

abbrev pub saying : Text → List ToolCall → AssistantMessage
saying text calls = record {
  text = some text;
  tool_calls = calls;
  thinking = none;
  thinking_block = none;
  usage = none;
  attachments = [];
  source_metadata = none;
}

abbrev pub hello : Message
hello = agent (saying (lit "hello") [])

abbrev pub search_call : ToolCall
search_call = record { id = "t1"; name = "search"; arguments = null }

abbrev pub asks : Message
asks = agent (saying (lit "let me see") (search_call ∷ []))

abbrev pub answers : Message
answers =
    tool_result (record { tool_call_id = "t1"; tool_name = "search"; content = lit "found" } ∷ [])

abbrev pub holding : List Message → ℕ → Session
holding ms n = record {
  id = "s1";
  model = "m";
  contact = "ann";
  messages = ms;
  total_input_tokens = 0;
  total_output_tokens = 0;
  compaction_count = 0;
  warned_about_compaction = false;
  pending_system_warning = [];
  trace_id = "";
  persisted_count = n;
}

abbrev pub row : SessionRow
row = record {
  id = "s1";
  contact = "ann";
  model = "m";
  total_input_tokens = 0;
  total_output_tokens = 0;
  compaction_count = 0;
  warned_about_compaction = false;
  pending_system_warning = [];
  closed = false;
}

abbrev pub stored : ℕ → Message → MessageRow
stored n m = record { session_id = "s1"; ordinal = n; content = m }

-- ann's open session: the two rows of a finished exchange
abbrev pub tables : Db
tables = record { sessions = row ∷ []; messages = stored 0 hi ∷ stored 1 hello ∷ []; events = [] }

abbrev pub ann : Session
ann = holding (hi ∷ hello ∷ []) 2

abbrev pub empty_db : Db
empty_db = record { sessions = []; messages = []; events = [] }

abbrev pub nobody : World
nobody = record { db = empty_db; loaded = [] }

abbrev pub restarted : World
restarted = record { db = tables; loaded = [] }

abbrev pub replying : Text → List ToolCall → String → Response ℕ
replying text calls reason = record {
  text = some text;
  tool_calls = calls;
  stop_reason = reason;
  usage = record {
    input_tokens = 100;
    output_tokens = 5;
    cache_read_tokens = 0;
    cache_write_tokens = 0;
  };
  thinking = none;
  thinking_block = none;
  cost_limited = false;
  attachments = [];
  turns = 0;
  total_cost = 0;
}

abbrev pub overloaded : Exc
overloaded = record {
  cls_name = "APIStatusError";
  status_code = some 529;
  response_status = none;
  is_os_error = false;
}

-- the first turn calls a tool, after one transient error; the second one answers
abbrev pub provider : ℕ → List Message → ℕ → Attempt (Response ℕ)
provider turn ms i =
    if ltb 0 turn
    then returned (replying (lit "done") [] "end_turn")
    else if ltb 0 i
    then returned (replying (lit "let me see") (search_call ∷ []) "tool_use")
    else raised overloaded

abbrev pub env : Env ℕ
env = record {
  zero_cost = 0;
  add_cost = λ a b. a + b;
  exceeds = λ a b. ltb b a;
  charge = some (λ u. 3);
  complete = provider;
  execute = λ k tc. done (lit "found") [];
  str_args = λ a. lit "{}";
}

abbrev pub cfg : LoopConfig ℕ
cfg = record {
  max_turns = 5;
  api_retries = 2;
  max_cost = 100;
  max_context_for_tools = 0;
  tool_call_retry = false;
}

abbrev pub state : List Message → LoopState ℕ
state ms = record {
  messages = ms;
  accumulated_cost = 0;
  fallback_text = [];
  tool_calls_total = 0;
  tool_calls_failed = 0;
  all_attachments = [];
  notices = [];
}
