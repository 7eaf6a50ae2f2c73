-- ===== src/Knowledge/Harvest.antt =====
-- operations.py, `harvest_conversation`, and consolidation.py: the messages that are handed to an agent
-- before a compaction or a close.
pub mod Watermark
pub mod Serialized
use lucyd.Base.{
  ℕ, suc, ◌+◌, ◌-◌, String, Text, Bool, true, false, ◌&&◌, not, Option, none, some, List, [], ◌∷◌,
  ◌++◌, take, drop, length, lit, join, starts_with, is_empty, ltb, leb, if◌then◌else◌,
}
use lucyd.Base.Dict.{Dict, lookup, insert}
use lucyd.Message.{Message, user, agent, tool_result}
use lucyd.Session.{Session}
use lucyd.Session.Compact.{is_blank, or_empty}

-- A row of knowledge.consolidation_state, less its time.
pub record Consolidated : Type 0 where
  pub last_compaction_count : ℕ
  pub last_message_count : ℕ

-- `get_unprocessed_range`, on the row of the session
unfoldable pub get_unprocessed_range : Option Consolidated → List Message → ℕ → ℕ × ℕ
get_unprocessed_range none messages compaction_count = (0, length messages)
get_unprocessed_range (some c) messages compaction_count =
    if ltb c.last_compaction_count compaction_count
    then (1, length messages)
    else if ltb c.last_message_count (length messages)
    then (c.last_message_count, length messages)
    else (0, 0)

-- `update_consolidation_state`
unfoldable pub update_consolidation_state : String → ℕ → ℕ → Dict Consolidated → Dict Consolidated
unfolding insert
update_consolidation_state session_id compaction_count message_count d =
    insert session_id
      (record { last_compaction_count = compaction_count; last_message_count = message_count }) d

-- the line of a message that has a role and a text that count
unfoldable pub harvest_line : Message → Option Text
unfolding or_empty lit
harvest_line (user u) = if is_empty u.content then none else some (lit "user: " ++ u.content)
harvest_line (agent a) =
    if is_empty (or_empty a.text) then none else some (lit "agent: " ++ or_empty a.text)
harvest_line (tool_result rs) = none

-- what a line adds to `chars`
unfoldable pub spent : Option Text → ℕ
spent none = 0
spent (some line) = length line

-- the body of the loop of `serialize_messages`: `chars` is what the lines before took, at most
-- `max_chars`, and `rest` are the lines of the messages behind
unfoldable pub with_line : ℕ → ℕ → Option Text → List Text → List Text
with_line max_chars chars none rest = rest
with_line max_chars chars (some line) rest =
    if ltb max_chars (chars + length line)
    then (if ltb 100 (max_chars - chars) then take (max_chars - chars) line ∷ [] else [])
    else line ∷ rest

unfoldable pub harvest_lines : ℕ → ℕ → List Message → List Text
unfolding with_line spent harvest_line
harvest_lines max_chars chars [] = []
harvest_lines max_chars chars (m ∷ ms) =
    with_line max_chars chars (harvest_line m)
      (harvest_lines max_chars (chars + spent (harvest_line m)) ms)

-- `serialize_messages`
unfoldable pub serialize_messages : List Message → ℕ → ℕ → ℕ → Text
unfolding harvest_lines join lit
serialize_messages messages start_idx end_idx max_chars =
    join (lit "\n")
      (harvest_lines max_chars 0 (take (end_idx - start_idx) (drop start_idx messages)))

-- `harvest_turn` is `process_message` with the brief of a conversation, on the maintenance session: the state
-- that it left, with `false` on a TimeoutError, RuntimeError or OSError
module _ {W : Type 0} (harvest_turn : Text → W → W × Bool) where
  pub record Harvest : Type 0 where
    pub outside : W
    pub states : Dict Consolidated
    pub ok_to_compact : Bool
    pub harvested : Bool

  -- what follows the harvest's turn
  unfoldable pub after_harvest_turn : Session → ℕ → Dict Consolidated → W × Bool → Harvest
  unfolding update_consolidation_state
  after_harvest_turn s end_idx states (w, false) = record {
    outside = w;
    states = states;
    ok_to_compact = false;
    harvested = false;
  }
  after_harvest_turn s end_idx states (w, true) = record {
    outside = w;
    states = update_consolidation_state s.id s.compaction_count end_idx states;
    ok_to_compact = true;
    harvested = true;
  }

  -- `harvest_conversation` on an unprocessed range
  unfoldable pub harvest_range : Session → W → Dict Consolidated → ℕ × ℕ → Harvest
  unfolding serialize_messages is_blank after_harvest_turn
  harvest_range s w states (start_idx, end_idx) =
      let conversation = serialize_messages s.messages start_idx end_idx 50000 in
      if leb end_idx start_idx
      then record { outside = w; states = states; ok_to_compact = true; harvested = false }
      else if is_blank conversation
      then record { outside = w; states = states; ok_to_compact = true; harvested = false }
      else after_harvest_turn s end_idx states (harvest_turn conversation w)

  -- `harvest_conversation`
  unfoldable pub harvest_conversation : Session → W → Dict Consolidated → Harvest
  unfolding harvest_range get_unprocessed_range lookup starts_with lit
  harvest_conversation s w states =
      if not (starts_with (lit s.contact) (lit "user:"))
      then record { outside = w; states = states; ok_to_compact = true; harvested = false }
      else harvest_range s w states
          (get_unprocessed_range (lookup s.id states) s.messages s.compaction_count)
