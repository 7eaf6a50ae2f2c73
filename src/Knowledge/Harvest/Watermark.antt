-- ===== src/Knowledge/Harvest/Watermark.antt =====
-- operations.py, `harvest_conversation`: the watermark of a session against what was harvested.
use lucyd.Base.{
  ℕ, ◌-◌, String, Text, ◌≡◌, ◌∙◌, refl, sym, ap, Bool, true, false, Option, none, some, List, [],
  ◌∷◌, ◌++◌, take, drop, length, length-append, drop-append, take_all, lit, starts_with, ltb, leb,
  append-nil, str_eq, eq_refl, ◌⊎◌, Bool-cases, inl, inr, arith, if◌then◌else◌,
}
use lucyd.Base.Dict.{Dict, lookup, insert, lookup-insert}
use lucyd.Message.{Message}
use lucyd.Session.{Session}
use lucyd.Session.Compact.{is_blank}
use lucyd.Knowledge.Harvest.{
  Consolidated, get_unprocessed_range, update_consolidation_state, serialize_messages, Harvest,
  after_harvest_turn, harvest_range, harvest_conversation,
}

-- The messages that the next harvest takes.
unfoldable pub pending : Option Consolidated → List Message → ℕ → List Message
unfolding get_unprocessed_range
pending c messages compaction_count =
    let (start_idx, end_idx) = get_unprocessed_range c messages compaction_count in
    take (end_idx - start_idx) (drop start_idx messages)

abbrev pub mark : ℕ → ℕ → Consolidated
mark compaction_count message_count = record {
  last_compaction_count = compaction_count;
  last_message_count = message_count;
}

ltb_self : (n : ℕ) → ltb n n ≡ false
ltb_self n = ground arith

longer :
    (messages ext : List Message) (m : Message)
    → ltb (length messages) (length (messages ++ m ∷ ext)) ≡ true
longer messages ext m = ground (arith, length-append messages (m ∷ ext))

-- After a mark at the end, what is added is pending.
pending-mark :
    (messages ext : List Message) (compaction_count : ℕ)
    → pending (some (mark compaction_count (length messages))) (messages ++ ext) compaction_count
      ≡ ext
unfolding pending get_unprocessed_range
pending-mark messages [] k = rw (ltb_self k, append-nil messages, ltb_self (length messages))
pending-mark messages (m ∷ ext) k =
    rw (ltb_self k, longer messages ext m, drop-append messages (m ∷ ext))
      (take_all _ (m ∷ ext) (omega (arith, length-append messages (m ∷ ext))))

pub range-end :
    (c : Option Consolidated) (messages : List Message) (k : ℕ)
    → let (start_idx, end_idx) = get_unprocessed_range c messages k in
      leb end_idx start_idx ≡ false → end_idx ≡ length messages
unfolding get_unprocessed_range
range-end none messages k h = refl
range-end (some c) messages k h = ground arith

pub str_eq_self : (k : String) → str_eq k k ≡ true
str_eq_self k = eq_refl k

module _ {W : Type 0} (harvest_turn : Text → W → W × Bool) where
  unfoldable pub idle : W → Dict Consolidated → Harvest harvest_turn
  idle w states = record { outside = w; states = states; ok_to_compact = true; harvested = false }

  abbrev pub conversation : Session → ℕ × ℕ → Text
  conversation s (start_idx, end_idx) = serialize_messages s.messages start_idx end_idx 50000

  harvest_range-cases :
      (s : Session) (w : W) (states : Dict Consolidated) (p : ℕ × ℕ)
      → (harvest_range harvest_turn s w states p ≡ idle w states)
        ⊎ ((leb p.1 p.0 ≡ false)
            × (harvest_range harvest_turn s w states p
                ≡ after_harvest_turn harvest_turn s p.1 states (harvest_turn (conversation s p) w)))
  unfolding harvest_range idle
  harvest_range-cases s w states (start_idx, end_idx) = elim (Bool-cases (leb end_idx start_idx)) [
    | inl nothing ↦ inl (rw nothing)
    | inr something ↦
        elim (Bool-cases (is_blank (serialize_messages s.messages start_idx end_idx 50000))) [
          | inl blank ↦ inl (rw (something, blank))
          | inr text ↦ inr (something, rw (something, text))
        ]
  ]

  abbrev pub unprocessed : Session → Dict Consolidated → ℕ × ℕ
  unprocessed s states = get_unprocessed_range (lookup s.id states) s.messages s.compaction_count

  -- A harvest does nothing, or takes a turn on what is pending.
  pub harvest_conversation-cases :
      (s : Session) (w : W) (states : Dict Consolidated)
      → (harvest_conversation harvest_turn s w states ≡ idle w states)
        ⊎ (harvest_conversation harvest_turn s w states
            ≡ after_harvest_turn harvest_turn s
                (length s.messages)
                states
                (harvest_turn (conversation s (unprocessed s states)) w))
  unfolding harvest_conversation idle
  harvest_conversation-cases s w states =
      elim (Bool-cases (starts_with (lit s.contact) (lit "user:"))) [
        | inl known ↦ elim (harvest_range-cases s w states (unprocessed s states)) [
          | inl same ↦ inl (rw known same)
          | inr (range, turned) ↦ inr (
              rw (known, sym (range-end (lookup s.id states) s.messages s.compaction_count range))
                turned)
        ]
        | inr other ↦ inl (rw other)
      ]

  after_harvest_turn-states :
      (s : Session) (end_idx : ℕ) (states : Dict Consolidated) (p : W × Bool)
      → (after_harvest_turn harvest_turn s end_idx states p).harvested ≡ true
      → (after_harvest_turn harvest_turn s end_idx states p).states
        ≡ insert s.id (mark s.compaction_count end_idx) states
  unfolding after_harvest_turn update_consolidation_state
  after_harvest_turn-states s end_idx states (w, false) h = cc
  after_harvest_turn-states s end_idx states (w, true) h = refl

  after_harvest_turn-blocks :
      (s : Session) (end_idx : ℕ) (states : Dict Consolidated) (p : W × Bool)
      → (after_harvest_turn harvest_turn s end_idx states p).ok_to_compact ≡ false
      → (after_harvest_turn harvest_turn s end_idx states p
          ≡ record { outside = p.0; states = states; ok_to_compact = false; harvested = false })
        × (p.1 ≡ false)
  unfolding after_harvest_turn
  after_harvest_turn-blocks s end_idx states (w, false) h = (refl, refl)
  after_harvest_turn-blocks s end_idx states (w, true) h = cc

  harvest_conversation-states :
      (s : Session) (w : W) (states : Dict Consolidated)
      → (harvest_conversation harvest_turn s w states).harvested ≡ true
      → (harvest_conversation harvest_turn s w states).states
        ≡ insert s.id (mark s.compaction_count (length s.messages)) states
  unfolding idle
  harvest_conversation-states s w states h = elim (harvest_conversation-cases s w states) [
    | inl same ↦
        (let clash : false ≡ true = ap (λ (r : Harvest harvest_turn). r.harvested) (sym same) ∙ h in
          cc)
    | inr turned ↦
        ap (λ (r : Harvest harvest_turn). r.states) turned
        ∙ after_harvest_turn-states s (length s.messages) states _
            (ap (λ (r : Harvest harvest_turn). r.harvested) (sym turned) ∙ h)
  ]

  pub harvest_conversation-marked :
      (s : Session) (w : W) (states : Dict Consolidated)
      → lookup s.id states ≡ some (mark s.compaction_count (length s.messages))
      → harvest_conversation harvest_turn s w states ≡ idle w states
  unfolding harvest_conversation harvest_range get_unprocessed_range idle
  harvest_conversation-marked s w states own =
      elim (Bool-cases (starts_with (lit s.contact) (lit "user:"))) [
        | inl known ↦ rw (known, own, ltb_self s.compaction_count, ltb_self (length s.messages))
        | inr other ↦ rw other
      ]

  -- After a harvest that a turn took, nothing is pending of the session: harvesting it again, in any
  -- state of the world, does nothing. Of what is added to its messages before it is compacted, the next
  -- harvest takes everything and nothing else. The marks of the other sessions stay.
  pub harvest_conversation-again :
      (s : Session) (w later : W) (states : Dict Consolidated) (ext : List Message) (id : String)
      → (harvest_conversation harvest_turn s w states).harvested ≡ true
      → let r = harvest_conversation harvest_turn s w states in
        (harvest_conversation harvest_turn s later r.states ≡ idle later r.states)
        × (pending (lookup s.id r.states) (s.messages ++ ext) s.compaction_count ≡ ext)
        × (lookup id r.states ≡ (
            if str_eq s.id id
            then some (mark s.compaction_count (length s.messages))
            else lookup id states))
  harvest_conversation-again s w later states ext id h =
      let r = harvest_conversation harvest_turn s w states in
      let marked : r.states ≡ insert s.id (mark s.compaction_count (length s.messages)) states =
        harvest_conversation-states s w states h in
      let own : lookup s.id r.states ≡ some (mark s.compaction_count (length s.messages)) = rw (
        marked,
        lookup-insert s.id s.id (mark s.compaction_count (length s.messages)) states,
        str_eq_self s.id,
      ) in
      (
        harvest_conversation-marked s later r.states own,
        rw own (pending-mark s.messages ext s.compaction_count),
        rw marked (lookup-insert s.id id (mark s.compaction_count (length s.messages)) states),
      )

  -- A harvest forbids the compaction only after its turn failed on what is pending; it then leaves every
  -- mark, so that the same messages are pending for the next one.
  pub harvest_conversation-blocks :
      (s : Session) (w : W) (states : Dict Consolidated)
      → (harvest_conversation harvest_turn s w states).ok_to_compact ≡ false
      → let turned = harvest_turn (conversation s (unprocessed s states)) w in
        (harvest_conversation harvest_turn s w states ≡ record {
          outside = turned.0;
          states = states;
          ok_to_compact = false;
          harvested = false;
        })
        × (turned.1 ≡ false)
  unfolding idle
  harvest_conversation-blocks s w states h = elim (harvest_conversation-cases s w states) [
    | inl same ↦
        (let clash : true ≡ false =
            ap (λ (r : Harvest harvest_turn). r.ok_to_compact) (sym same) ∙ h in
          cc)
    | inr turned ↦
        (let (result, failed) =
            after_harvest_turn-blocks s (length s.messages) states _
              (ap (λ (r : Harvest harvest_turn). r.ok_to_compact) (sym turned) ∙ h) in
          (turned ∙ result, failed))
  ]
