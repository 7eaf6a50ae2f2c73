-- ===== src/Session/Compact.antt =====
-- session.py, `SessionManager.compact_session`: old messages give way to a summary.
mod Cut
pub mod Keeps
use lucyd.Base.{
  ℕ, suc, ◌+◌, ◌-◌, String, Text, Bool, true, false, not, ◌&&◌, ◌||◌, Option, none, some, List, [],
  ◌∷◌, ◌++◌, map, length, take, drop, lit, all, ltb, leb, ◌==◌, if◌then◌else◌,
}
use Prim.Native.String.{String}
use lucyd.Message.{
  Message, AssistantMessage, ToolCall, ToolResultEntry, Json, Usage, user, agent, tool_result,
  user_text, is_tool_result,
}
use lucyd.Store.{Db, Event}
use lucyd.Session.{Session, replace_all_messages, append_event}

-- What `str.strip` removes.
unfoldable pub is_space : ℕ → Bool
is_space c =
    leb 9 c && leb c 13
    || leb 28 c && leb c 32
    || c == 133
    || c == 160
    || c == 5760
    || leb 8192 c && leb c 8202
    || c == 8232
    || c == 8233
    || c == 8239
    || c == 8287
    || c == 12288

-- `not text.strip()`
unfoldable pub is_blank : Text → Bool
unfolding is_space
is_blank t = all is_space t

-- the loop that moves `split_point` past tool results, over the messages from `split_point` on: it
-- stops at the last message
unfoldable pub skip_results : ℕ → List Message → ℕ
skip_results split [] = split
skip_results split (m ∷ []) = split
skip_results split (m ∷ n ∷ rest) =
    let next = skip_results (split + 1) (n ∷ rest) in if is_tool_result m then next else split

-- `for tc in msg.get("tool_calls", [])`
call_lines : (Json → Text) → ℕ → List ToolCall → Text
call_lines str_args limit [] = []
call_lines str_args limit (tc ∷ tcs) =
    lit "assistant [tool_call]: "
    ++ (lit tc.name
        ++ (lit "("
            ++ (take limit (str_args tc.arguments)
                ++ (lit ")\n\n" ++ call_lines str_args limit tcs))))

result_lines : ℕ → List ToolResultEntry → Text
result_lines limit [] = []
result_lines limit (r ∷ rs) =
    lit "tool_result: " ++ (take limit r.content ++ (lit "\n\n" ++ result_lines limit rs))

spoken : String → Option Text → Text
spoken who none = []
spoken who (some []) = []
spoken who (some (c ∷ cs)) = lit who ++ ((c ∷ cs) ++ lit "\n\n")

message_lines : (Json → Text) → ℕ → Message → Text
unfolding call_lines result_lines spoken
message_lines str_args limit (user u) = spoken "user: " (some u.content)
message_lines str_args limit (agent a) =
    spoken "assistant: " a.text ++ call_lines str_args limit a.tool_calls
message_lines str_args limit (tool_result rs) = result_lines limit rs

-- conversation_text
unfoldable pub transcript : (Json → Text) → ℕ → List Message → Text
unfolding message_lines
transcript str_args limit [] = []
transcript str_args limit (m ∷ ms) = message_lines str_args limit m ++ transcript str_args limit ms

summary_prompt : Text → Text → Text
summary_prompt prompt conversation =
    prompt
    ++ (lit "\n\n---\n\n"
        ++ (conversation
            ++ lit
                "--- END OF CONVERSATION ---\n\nWrite ONLY the summary. Do not continue, extend, or invent conversation turns beyond what appears above."))

unfoldable pub split_point : (ℕ → ℕ) → List Message → ℕ
unfolding skip_results
split_point split_at ms = skip_results (split_at (length ms)) (drop (split_at (length ms)) ms)

summary_message : Text → Message
unfolding user_text
summary_message summary = user_text (lit "[Previous conversation summary]\n" ++ summary)

marker_message : Message
unfolding user_text
marker_message = user_text (
    lit
      "[system: This conversation was compacted. The summary above covers earlier messages. Some details may be lost. Use memory_search or memory_get to find specific information from before compaction.]")

-- `msg.pop("usage", None)` on every agent message
unfoldable pub without_usage : Message → Message
without_usage (user u) = user u
without_usage (agent a) = agent (record a { usage = none })
without_usage (tool_result rs) = tool_result rs

unfoldable pub or_empty : Option Text → Text
or_empty none = []
or_empty (some t) = t

-- the session with a summary in place of the messages before `split`
unfoldable pub summarised : Session → ℕ → Text → Session
unfolding summary_message marker_message without_usage
summarised s split summary = record s {
  messages = map without_usage (summary_message summary ∷ marker_message ∷ drop split s.messages);
  compaction_count = s.compaction_count + 1;
  warned_about_compaction = false;
}

-- what follows a summary that the provider returned
unfoldable pub replace_old : Db → Session → ℕ → Option Text × Usage → Db × Session
unfolding summarised or_empty replace_all_messages append_event
replace_old db s split (text, usage) =
    let (db', t) = replace_all_messages db (summarised s split (or_empty text)) in
    (
      append_event db' t (
          Event.compaction usage.output_tokens (length (take split s.messages)) t.compaction_count
            (take 2000 (or_empty text))),
      t,
    )

unfoldable pub finish : Db → Session → ℕ → Option (Option Text × Usage) → Db × Session
unfolding replace_old
finish db s split none = (db, s)
finish db s split (some reply) = replace_old db s split reply

-- SessionManager.compact_session. Its parameters are `str(arguments)` of a tool call, the number
-- `int(n * (1 - keep_recent_pct))` of a length `n`, and the call of the compaction provider on the
-- prompt, `none` where it raises. The cost record is left out.
unfoldable pub compact_session :
    (Json → Text)
    → (ℕ → ℕ)
    → (Text → Option (Option Text × Usage))
    → ℕ
    → ℕ
    → Text
    → Db
    → Session
    → Db × Session
unfolding summary_prompt is_blank
compact_session str_args split_at complete min_messages tool_result_max_chars prompt db s =
    if ltb (length s.messages) min_messages
    then (db, s)
    else (let split = split_point split_at s.messages in
        let conversation = transcript str_args tool_result_max_chars (take split s.messages) in
        if is_blank conversation
        then (db, s)
        else finish db s split (complete (summary_prompt prompt conversation)))
