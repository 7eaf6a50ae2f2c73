-- ===== src/Operations/Maintain/Shared.antt =====
-- operations.py, `handle_maintain`: when a pass runs, and the marks that it shares with the harvest
-- before a compaction.
use lucyd.Base.{
  ℕ, ◌-◌, ◌*◌, ◌≤◌, ◌<◌, ◌≢◌, ◌∙◌, sym, ◌≡◌, refl, ap, Text, Bool, true, false, Option, none, some,
  List, mem_name, lit, starts_with, length, ltb, leb, Bool-cases, inl, inr, ◌⊎◌, arith,
}
use lucyd.Base.Dict.{Dict, lookup, insert, lookup-insert}
use lucyd.Session.{Session}
use lucyd.Manager.{World, get_or_create}
use lucyd.Knowledge.Harvest.{
  Consolidated, get_unprocessed_range, update_consolidation_state, harvest_range,
  harvest_conversation,
}
use lucyd.Knowledge.Harvest.Watermark.{
  mark, unprocessed, idle, range-end, str_eq_self, harvest_conversation-marked,
}
use lucyd.Operations.{user_key_of, list_contacts}
use lucyd.Operations.Maintain.{
  Survey, Kept, Outcome, disabled, protocol_missing, skipped_user_active, process_raised, ran,
  load_state, save_last_pass, harvest_source, advance, after_dispatch, run_pass, interrupts,
  idle_of, past_protocol, handle_maintain,
}

-- Nothing is harvested of an empty range.
harvest_conversation-empty :
    {W : Type 0} (turn : Text → W → W × Bool) (s : Session) (w : W) (states : Dict Consolidated)
    → ltb (unprocessed turn s states).0 (unprocessed turn s states).1 ≡ false
    → harvest_conversation turn s w states ≡ idle turn w states
unfolding harvest_conversation harvest_range idle
harvest_conversation-empty turn s w states h =
    (let none_left : leb (unprocessed turn s states).1 (unprocessed turn s states).0 ≡ true =
        ground (arith, h) in
      elim (Bool-cases (starts_with (lit s.contact) (lit "user:"))) [
        | inl known ↦ rw (known, none_left) refl
        | inr other ↦ rw other refl
      ])

-- The session that the user has, or gets.
abbrev pub user_session : Survey → Kept → Session
user_session v k = (get_or_create k.world v.fresh (user_key_of v.user_name) "").1

-- The user never wrote, or the last message is long enough ago; and the contrary.
abbrev pub IsQuiet : ℕ → ℕ → Option ℕ → Type 0
IsQuiet now minutes last_message =
    (last_message ≡ none) ⊎ ((last : ℕ) × (last_message ≡ some last) × (60 * minutes ≤ now - last))

abbrev pub IsBusy : ℕ → ℕ → Option ℕ → Type 0
IsBusy now minutes last_message =
    (last : ℕ) × (last_message ≡ some last) × (now - last < 60 * minutes)

-- The marks after a pass that ran: that of the user's session, if there is one with something to harvest,
-- is moved to the end of its messages, and the others stay.
abbrev pub Moved : Survey → Kept → Dict Consolidated → Type 0
Moved v k states =
    let s = user_session v k in
    let (start_idx, end_idx) =
      get_unprocessed_range (lookup s.id k.states) s.messages s.compaction_count in
    let present = mem_name (user_key_of v.user_name) (list_contacts k.world) in
    ((present ≡ false) × (states ≡ k.states))
    ⊎ ((present ≡ true)
        × (ltb start_idx end_idx ≡ true)
        × (states ≡ insert s.id (mark s.compaction_count (length s.messages)) k.states))
    ⊎ ((present ≡ true) × (ltb start_idx end_idx ≡ false) × (states ≡ k.states))

-- What a pass leaves besides the sessions, and when it ends in which way: `ran` and `process_raised` are
-- behind all gates, and each of the others names the first gate that is shut.
abbrev pub Leaves : Survey → Kept → Kept × Outcome → Type 0
Leaves v k (k', o) = elim o [
  | ran files facts chars ↦
      (v.maintain_enabled ≡ true)
      × (v.protocol ≢ none)
      × IsQuiet v.now v.maintain_idle_minutes v.last_message
      × Moved v k k'.states
      × (load_state v.parse k'.last_pass ≡ v.parse (v.format v.now))
  | process_raised ↦
      (v.maintain_enabled ≡ true)
      × (v.protocol ≢ none)
      × IsQuiet v.now v.maintain_idle_minutes v.last_message
      × (k'.states ≡ k.states)
      × (k'.last_pass ≡ k.last_pass)
  | disabled ↦ (v.maintain_enabled ≡ false) × (k' ≡ k)
  | protocol_missing ↦ (v.maintain_enabled ≡ true) × (v.protocol ≡ none) × (k' ≡ k)
  | skipped_user_active ↦
      (v.maintain_enabled ≡ true)
      × (v.protocol ≢ none)
      × IsBusy v.now v.maintain_idle_minutes v.last_message
      × (k' ≡ k)
]

module _ (dispatch : Text → World → World × Bool) where
  interrupts-IsQuiet :
      (now minutes : ℕ) (o : Option ℕ)
      → interrupts dispatch minutes (idle_of dispatch now o) ≡ false
      → IsQuiet now minutes o
  unfolding interrupts idle_of
  interrupts-IsQuiet now minutes none h = inl refl
  interrupts-IsQuiet now minutes (some last) h = inr (last, refl, ground arith)

  interrupts-IsBusy :
      (now minutes : ℕ) (o : Option ℕ)
      → interrupts dispatch minutes (idle_of dispatch now o) ≡ true
      → IsBusy now minutes o
  unfolding interrupts idle_of
  interrupts-IsBusy now minutes none h = cc
  interrupts-IsBusy now minutes (some last) h = (last, refl, ground arith)

  advance-Moved :
      (v : Survey) (k : Kept)
      → Moved v k (advance dispatch (harvest_source dispatch v k).1 k.states)
  unfolding harvest_source advance update_consolidation_state
  advance-Moved v k =
      let s = user_session v k in
      let p = get_unprocessed_range (lookup s.id k.states) s.messages s.compaction_count in
      elim (Bool-cases (mem_name (user_key_of v.user_name) (list_contacts k.world))) [
        | inl present ↦ elim (Bool-cases (ltb p.0 p.1)) [
          | inl some_left ↦ inr (
              inl (
                present,
                some_left,
                rw (present, some_left)
                    (ap (λ n. insert s.id (mark s.compaction_count n) k.states)
                      (range-end (lookup s.id k.states) s.messages s.compaction_count
                        (ground (arith, some_left)))),
              ))
          | inr none_left ↦ inr (inr (present, none_left, rw (present, none_left) refl))
        ]
        | inr absent ↦ inl (absent, rw absent refl)
      ]

  saved-load :
      (v : Survey)
      → load_state v.parse (some (save_last_pass v.format v.now)) ≡ v.parse (v.format v.now)
  unfolding load_state save_last_pass
  saved-load v = refl

  after_dispatch-Leaves :
      (v : Survey) (k : Kept) (files facts : List Text) (p : World × Bool)
      → v.maintain_enabled ≡ true
      → v.protocol ≢ none
      → IsQuiet v.now v.maintain_idle_minutes v.last_message
      → Leaves v k (after_dispatch dispatch v k files facts (harvest_source dispatch v k).1 p)
  unfolding after_dispatch
  after_dispatch-Leaves v k files facts (w, false) on known quiet = (on, known, quiet, refl, refl)
  after_dispatch-Leaves v k files facts (w, true) on known quiet =
      (on, known, quiet, advance-Moved v k, saved-load v)

  past_protocol-Leaves :
      (v : Survey) (k : Kept) (o : Option Text)
      → v.maintain_enabled ≡ true
      → v.protocol ≡ o
      → Leaves v k (past_protocol dispatch v k o)
  unfolding past_protocol run_pass
  past_protocol-Leaves v k none on e = (on, e, refl)
  past_protocol-Leaves v k (some protocol) on e =
      let known : v.protocol ≢ none = λ h. cc in
      elim (Bool-cases
        (interrupts dispatch v.maintain_idle_minutes (idle_of dispatch v.now v.last_message))) [
          | inl active ↦
              rw active (on, known, interrupts-IsBusy v.now v.maintain_idle_minutes _ active, refl)
          | inr quiet ↦ rw quiet (
              after_dispatch-Leaves v k _ _ _ on known
                (interrupts-IsQuiet v.now v.maintain_idle_minutes _ quiet))
        ]

  -- A pass runs only if it is enabled, the protocol is there, and the user has been quiet for the idle
  -- minutes or never wrote. Then, if process_message returns, the mark of the user's session moves to the end
  -- of its messages if there is something to harvest, every other mark stays, and the next pass reads the
  -- time of this one as the last; if process_message raises, the marks and the file of the last pass stay.
  -- Else it leaves everything and names the first gate that is shut: it is disabled, the protocol is missing,
  -- or the user wrote within the idle minutes.
  pub handle_maintain-Leaves : (v : Survey) (k : Kept) → Leaves v k (handle_maintain dispatch v k)
  unfolding handle_maintain
  handle_maintain-Leaves v k = elim (Bool-cases v.maintain_enabled) [
    | inl on ↦ simp on (past_protocol-Leaves v k v.protocol on refl)
    | inr off ↦ simp off (refl, refl)
  ]

  ran-Moved :
      (v : Survey) (k : Kept) (t : Kept × Outcome) {files : List Text} {facts chars : ℕ}
      → Leaves v k t
      → t.1 ≡ ran files facts chars
      → Moved v k t.0.states
  ran-Moved v k (k', ran files facts chars) h e = h.3
  ran-Moved v k (k', process_raised) h e = cc
  ran-Moved v k (k', disabled) h e = cc
  ran-Moved v k (k', protocol_missing) h e = cc
  ran-Moved v k (k', skipped_user_active) h e = cc

  -- A maintenance pass and the harvest before a compaction share their mark: after a pass that ran, where
  -- the user had an open session, a harvest of that session as it was, in any state of the world and by any
  -- turn, does nothing.
  pub handle_maintain-harvested :
      {W : Type 0} (turn : Text → W → W × Bool) (later : W) (v : Survey) (k : Kept)
      (files : List Text) (facts chars : ℕ)
      → mem_name (user_key_of v.user_name) (list_contacts k.world) ≡ true
      → (handle_maintain dispatch v k).1 ≡ ran files facts chars
      → let states = (handle_maintain dispatch v k).0.states in
        harvest_conversation turn (user_session v k) later states ≡ idle turn later states
  handle_maintain-harvested turn later v k files facts chars present done =
      let s = user_session v k in
      elim (ran-Moved v k (handle_maintain dispatch v k) (handle_maintain-Leaves v k) done) [
        | inl (absent, same) ↦ (let clash : true ≡ false = sym present ∙ absent in cc)
        | inr (inl (here, some_left, marked)) ↦ rw marked (
            harvest_conversation-marked turn s later
              (insert s.id (mark s.compaction_count (length s.messages)) k.states)
              (rw
                (
                  lookup-insert s.id s.id (mark s.compaction_count (length s.messages)) k.states,
                  str_eq_self s.id,
                )
                refl))
        | inr (inr (here, none_left, same)) ↦
            rw same (harvest_conversation-empty turn s later k.states none_left)
      ]
