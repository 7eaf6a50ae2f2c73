-- ===== src/Examples/Knowing.antt =====
-- The theorems on facts and harvests, applied to ann's city and ann's session.
use lucyd.Base.{
  ℕ, ◌+◌, ◌++◌, str_eq, Text, ◌≡◌, refl, arith, Bool, true, false, none, some, [], ◌∷◌, lit,
  if◌then◌else◌,
}
use lucyd.Base.Dict.{lookup}
use lucyd.Knowledge.{
  Fact, Facts, Naming, upsert_fact, handle_memory_write, handle_memory_forget, resolve_entity,
  normalize_entity, named,
}
use lucyd.Knowledge.Keys.{IsKnowledge, count_current, current_value, same_key}
use lucyd.Knowledge.Unique.{outcome_over, upsert_fact_lem}
use lucyd.Knowledge.Forget.{handle_memory_forget-write}
use lucyd.Knowledge.Harvest.{harvest_conversation}
use lucyd.Knowledge.Harvest.Watermark.{
  pending, mark, conversation, unprocessed, idle, harvest_conversation-again,
  harvest_conversation-blocks,
}
use lucyd.Session.{Session}
use lucyd.Examples.{hi, hello, holding}

abbrev lives_in : Fact
lives_in = record {
  id = 1;
  entity = lit "ann";
  attribute = lit "city";
  value = lit "Graz";
  source_session = lit "agent";
  valid = true;
}

abbrev known : Facts
known = record { rows = lives_in ∷ []; next_id = 2 }

known-IsKnowledge : IsKnowledge known
unfolding count_current
known-IsKnowledge = record { descending = (omega arith, tt); unique = λ e a. ground arith }

upsert_fact_lem_example :
    let (t', result) = upsert_fact (lit "ann") (lit "city") (lit "Wien") (lit "agent") known in
    IsKnowledge t'
    × (current_value (lit "ann") (lit "city") t'.rows ≡ (
        if same_key (lit "ann") (lit "city") (lit "ann") (lit "city")
        then some (lit "Wien")
        else current_value (lit "ann") (lit "city") known.rows))
    × (result ≡ outcome_over (lit "Wien") (current_value (lit "ann") (lit "city") known.rows))
upsert_fact_lem_example =
    upsert_fact_lem (lit "ann") (lit "city") (lit "Wien") (lit "agent") known (lit "ann")
      (lit "city") known-IsKnowledge

abbrev names : Naming
names = record { lower = λ t. t; aliases = []; user_entity = lit "ann" }

handle_memory_forget-write_example :
    let entity = resolve_entity names (lit "ann") in
    let attribute = normalize_entity names (lit "city") in
    let (t', stored) = handle_memory_write names (lit "ann") (lit "city") (lit "Wien") known in
    let (t'', reply) = handle_memory_forget names (lit "ann") (lit "city") t' in
    IsKnowledge t''
    × (current_value (lit "ann") (lit "city") t''.rows ≡ (
        if same_key entity attribute (lit "ann") (lit "city")
        then none
        else current_value (lit "ann") (lit "city") known.rows))
    × (reply ≡ lit "Forgotten: " ++ named entity attribute)
handle_memory_forget-write_example =
    handle_memory_forget-write names (lit "ann") (lit "city") (lit "Wien") known (lit "ann")
      (lit "city") known-IsKnowledge

abbrev user_ann : Session
user_ann = record (holding (hi ∷ hello ∷ []) 2) { contact = "user:ann" }

-- a turn that counts itself and succeeds, and one that fails
abbrev succeeding : Text → ℕ → ℕ × Bool
succeeding t n = (n + 1, true)

abbrev failing : Text → ℕ → ℕ × Bool
failing t n = (n + 1, false)

succeeded : (harvest_conversation succeeding user_ann 0 []).harvested ≡ true
unfolding harvest_conversation
succeeded = refl

harvest_conversation-again_example :
    let r = harvest_conversation succeeding user_ann 0 [] in
    (harvest_conversation succeeding user_ann 7 r.states ≡ idle succeeding 7 r.states)
    × (pending (lookup "s1" r.states) (user_ann.messages ++ hi ∷ []) 0 ≡ hi ∷ [])
    × (lookup "s2" r.states ≡ (if str_eq "s1" "s2" then some (mark 0 2) else lookup "s2" []))
harvest_conversation-again_example =
    harvest_conversation-again succeeding user_ann 0 7 [] (hi ∷ []) "s2" succeeded

failed_turn : (harvest_conversation failing user_ann 0 []).ok_to_compact ≡ false
unfolding harvest_conversation
failed_turn = refl

harvest_conversation-blocks_example :
    let turned = failing (conversation failing user_ann (unprocessed failing user_ann [])) 0 in
    (harvest_conversation failing user_ann 0 []
      ≡ record { outside = turned.0; states = []; ok_to_compact = false; harvested = false })
    × (turned.1 ≡ false)
harvest_conversation-blocks_example = harvest_conversation-blocks failing user_ann 0 [] failed_turn
