-- ===== src/Examples/Formats.antt =====
-- The theorems on chunks, the index, the providers' formats and the rate limiter, applied to short inputs.
use lucyd.Base.{
  ℕ, suc, ◌<◌, ◌≤◌, String, Text, ◌≡◌, refl, arith, Bool, true, false, Option, none, some, List, [],
  ◌∷◌, lit, length, All,
}
use lucyd.Message.{Json, Message}
use lucyd.Channels.{split_lines, chunk_text}
use lucyd.Channels.Chunks.{visible, all_visible, chunk_text-visible}
use lucyd.Indexer.{chunk_file}
use lucyd.Indexer.Cover.{Holds, SomeChunk, IsSlice, chunk_file-IsSlice}
use lucyd.Indexer.Tables.{Setup, Index, Read, content, ended, Summary, index_workspace}
use lucyd.Indexer.Tables.Again.{index_workspace-again}
use lucyd.Providers.{ChatMessage, AnthropicMessage, format_chat, format_anthropic}
use lucyd.Providers.Events.{chat_trace, anthropic_trace, history_trace}
use lucyd.Providers.Trace.{formats-trace}
use lucyd.Api.{RateLimiter, check_all}
use lucyd.Api.Window.{log_all, check_all-log}
use lucyd.Examples.{hi, asks, answers}

abbrev two_lines : Text
two_lines = lit "hello\nthere"

chunk_text-visible_example : all_visible (chunk_text 6 two_lines) ≡ visible two_lines
chunk_text-visible_example = chunk_text-visible 6 two_lines (omega arith)

abbrev notes : List Text
notes = lit "one" ∷ lit "two" ∷ lit "three" ∷ []

chunk_file-IsSlice_example :
    SomeChunk (Holds 2) (chunk_file notes 7 3) × All (IsSlice notes 7) (chunk_file notes 7 3)
chunk_file-IsSlice_example = chunk_file-IsSlice notes 7 3 1 (omega arith)

abbrev setup : Setup ℕ
setup = record {
  sha256 = λ t. t;
  splitlines = split_lines;
  embed = λ ts. some (length ts ∷ []);
  chunk_size = 20;
  overlap = 0;
}

abbrev memory : List (String × Read)
memory = ("MEMORY.md", content two_lines) ∷ []

abbrev no_index : Index ℕ
no_index = record { files = []; chunks = [] }

abbrev first_index : Index ℕ
first_index = elim (index_workspace setup false memory no_index) [ ended ix s ↦ ix | _ ↦ no_index ]

abbrev first_summary : Summary
first_summary = record { indexed = ("MEMORY.md", 1) ∷ []; skipped = 0; removed = []; errors = [] }

first_run : index_workspace setup false memory no_index ≡ ended first_index first_summary
unfolding index_workspace chunk_file split_lines
first_run = refl

index_workspace-again_example :
    index_workspace setup false memory first_index
    ≡ ended first_index (record { indexed = []; skipped = 1; removed = []; errors = [] })
unfolding lucyd.Base.mem_name
index_workspace-again_example =
    index_workspace-again setup memory no_index first_index first_summary (refl, tt) first_run refl

abbrev braces : Json → Text
braces a = lit "{}"

abbrev history : List Message
history = hi ∷ asks ∷ answers ∷ []

formats-trace_example :
    ((out : List ChatMessage) × (format_chat braces history ≡ some out)
      × (chat_trace out ≡ history_trace history))
    × ((out : List AnthropicMessage) × (format_anthropic history ≡ some out)
        × (anthropic_trace out ≡ history_trace history))
unfolding lucyd.Providers.user_content
formats-trace_example = formats-trace braces history ((_, refl), (tt, (tt, tt)))

abbrev limiter : RateLimiter
limiter = record { max_requests = 2; window = 60; cleanup_threshold = 1 }

abbrev requests : List (String × ℕ)
requests = ("ann", 0) ∷ ("ann", 10) ∷ ("ann", 10) ∷ ("bob", 50) ∷ []

check_all-log_example : check_all limiter 0 requests [] ≡ log_all limiter 0 requests []
check_all-log_example = check_all-log limiter requests
