-- ===== src/Operations/Harvested.antt =====
-- operations.py, `harvest_conversation`, with pipeline.py's `process_message` as its turn, and the compaction
-- behind it.
use lucyd.Base.{Option, none, some, Text, ◌≡◌, Bool, true, false, [], ◌++◌, lit, ◌⊎◌}
use lucyd.Base.Dict.{Dict, lookup}
use lucyd.Session.{Session}
use lucyd.Manager.{World}
use lucyd.Pipeline.{Talker}
use lucyd.Pipeline.Process.{Settings, Request, process_message}
use lucyd.Knowledge.Harvest.{Consolidated, Harvest, harvest_conversation}
use lucyd.Knowledge.Harvest.Watermark.{pending, idle, conversation, unprocessed}

-- `_build_harvest_brief`
unfoldable pub build_harvest_brief : Text → Text
unfolding lit
build_harvest_brief text =
    lit
      "=== Catch up your memory before this conversation is compressed ===\nThis stretch of conversation is about to be compacted or closed. Record\nwhat lasts before it goes, then you're done — nothing else this pass:\n- Durable facts -> memory_write, each under the right entity. You know\n  who's who: you, the people and organizations you serve, and the\n  framework itself are different things that relate — never collapse\n  them into one.\n- One episode -> record_episode: a short summary in your voice, the\n  topics, and the emotional tone. That's what carries\n  the thread and the mood forward so you don't wake up cold.\n\nConversation since your last consolidation:\n"
    ++ (text ++ lit "\n")

-- the call of `process_message`; the other fields of the request are the clock's and the configuration's
unfoldable pub harvest_request : Request → Text → Request
unfolding build_harvest_brief
harvest_request q text = record q {
  inbound = record (q.inbound) {
    talker = Talker.system;
    key = "system:maintenance";
    sender = "maintenance";
    text = build_harvest_brief text;
  };
  force_compact = false;
  to_silent = true;
}

-- `inner` is what a compaction of the maintenance session would harvest. `escapes` tells, of a call, whether
-- `process_message` lets a TimeoutError, RuntimeError or OSError out, of the database for instance, and then
-- in which state it leaves the world; where it does not, it returns as modelled.
module _ {Cost : Type 0} (c : Settings Cost) (inner : World → Session → World × Bool)
    (escapes : World → Request → Option World) (q : Request) where
  -- how the call of `process_message` in `harvest_conversation` ends
  unfoldable pub turn_end : World → Request → Option World → World × Bool
  turn_end w asked (some left) = (left, false)
  turn_end w asked none = ((process_message c inner w asked).world, true)

  unfoldable pub harvest_turn : Text → World → World × Bool
  unfolding harvest_request turn_end
  harvest_turn text w = let asked = harvest_request q text in turn_end w asked (escapes w asked)

  unfoldable pub harvest_session : Dict Consolidated → World → Session → Harvest harvest_turn
  harvest_session states w s = harvest_conversation harvest_turn s w states

  -- what `_run_compaction_if_needed` reads of the harvest
  unfoldable pub harvest_before_compaction : Dict Consolidated → World → Session → World × Bool
  unfolding harvest_session
  harvest_before_compaction states w s =
      let r = harvest_session states w s in (r.outside, r.ok_to_compact)

  -- the request of the turn of a harvest
  abbrev pub asked_for : Dict Consolidated → Session → Request
  asked_for states s =
      harvest_request q (conversation harvest_turn s (unprocessed harvest_turn s states))

  -- How a harvest ends: there was nothing to do; an exception left its turn; or its turn returned.
  abbrev pub Ends : Dict Consolidated → World → Session → Type 0
  Ends states w s =
      let r = harvest_session states w s in
      let asked = asked_for states s in
      (r ≡ idle harvest_turn w states)
      ⊎ ((left : World) × (escapes w asked ≡ some left)
          × (r ≡ record {
            outside = left;
            states = states;
            ok_to_compact = false;
            harvested = false;
          }))
      ⊎ ((escapes w asked ≡ none)
          × (r.ok_to_compact ≡ true)
          × (r.outside ≡ (process_message c inner w asked).world)
          × (pending (lookup s.id r.states) s.messages s.compaction_count ≡ []))
