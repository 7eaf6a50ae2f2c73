-- ===== src/Agentic/Loop/Pairing.antt =====
-- agentic.py, `run_agentic_loop`, against the turn structure that session.py checks.
use lucyd.Base.{
  All, ℕ, suc, ◌+◌, ◌-◌, max, Text, ◌≡◌, ◌∙◌, refl, ap, sym, Bool, true, false, ◌&&◌, ◌||◌, none,
  List, [], ◌∷◌, ◌++◌, append_assoc, append-nil, arith, Bool-cases, inl, inr, ltb, ◌==◌,
  if◌then◌else◌, is_empty, str_eq,
}
use lucyd.Message.{
  Message, ToolResultEntry, Response, agent, tool_result, user_text, context_tokens, calls_tools,
  is_tool_result, to_internal_message,
}
use lucyd.Session.{corruptions}
use lucyd.Session.Turns.{
  IsPaired, nil, plain, pair, IsPaired-append, IsPaired-corruptions, corruptions-IsPaired,
}
use lucyd.Agentic.Retry.{
  Attempt, returned, timed_out, raised, Outcome, ok, call_provider_with_retry,
}
use lucyd.Agentic.Retry.Attempts.{settled, call_provider_with_retry-Settles}
use lucyd.Agentic.Env.{Env, LoopConfig, LoopState, truncated_hint, context_hint}
use lucyd.Agentic.Loop.{
  has_content, TurnEnd, record_reply, reply_messages, is_final, hints_before, hints_after,
  use_tools, pay, after_turn, start, run_agentic_loop,
}
use lucyd.Agentic.Loop.Turns.{TurnShape, limited, answered, used, broken, rounds-induction}

-- A message of the user is not part of any pair.
hint-plain :
    (t : Text) → (calls_tools (user_text t) ≡ false) × (is_tool_result (user_text t) ≡ false)
unfolding calls_tools is_tool_result user_text
hint-plain t = (refl, refl)

-- What stands after a well-paired list is checked by itself.
corruptions-append :
    {ms : List Message} (ns : List Message) → IsPaired ms → corruptions (ms ++ ns) ≡ corruptions ns
unfolding corruptions
corruptions-append ns nil = refl
corruptions-append [] (plain {m = m} {ms = ms} c r p) =
    rw append-nil (IsPaired-corruptions (plain c r p))
corruptions-append (n ∷ ns) (plain {m = m} {ms = []} c r p) = rw (c, r)
corruptions-append (n ∷ ns) (plain {m = m} {ms = x ∷ ms} c r p) =
    rw (c, r) (corruptions-append (n ∷ ns) p)
corruptions-append ns (pair c r p) = rw (c, r) (corruptions-append ns p)

-- A reply with tools that goes on is recorded as one message that calls them.
reply_messages-tools :
    {Cost : Type 0} (r : Response Cost)
    → is_final r ≡ false
    → (calls_tools (agent (to_internal_message r)) ≡ true)
      × (reply_messages r
          ≡ agent (to_internal_message r)
            ∷ (if str_eq r.stop_reason "max_tokens" then truncated_hint ∷ [] else []))
unfolding reply_messages is_final calls_tools to_internal_message has_content
reply_messages-tools r h = ground arith

abbrev IsPlain : Message → Type 0
IsPlain m = (calls_tools m ≡ false) × (is_tool_result m ≡ false)

IsPaired-of_plain : (ms : List Message) → All IsPlain ms → IsPaired ms
IsPaired-of_plain [] h = nil
IsPaired-of_plain (m ∷ ms) ((c, r), hs) = plain c r (IsPaired-of_plain ms hs)

orphan_result :
    (entries : List ToolResultEntry) (rest : List Message)
    → IsPaired rest
    → corruptions (tool_result entries ∷ rest) ≡ 1
unfolding corruptions calls_tools is_tool_result
orphan_result entries [] p = refl
orphan_result entries (m ∷ rest) p = ap suc (IsPaired-corruptions p)

-- Plain messages between a call of tools and its results are logged twice: calls without results, and
-- results without calls.
corruptions-between :
    (a : Message) (hints : List Message) (entries : List ToolResultEntry) (rest : List Message)
    → calls_tools a ≡ true
    → All IsPlain hints
    → IsPaired rest
    → corruptions (a ∷ (hints ++ (tool_result entries ∷ rest))) ≡ (if is_empty hints then 0 else 2)
unfolding corruptions
corruptions-between a [] entries rest c hs p =
    rw c (unfold is_tool_result in IsPaired-corruptions p)
corruptions-between a (h ∷ hints) entries rest c ((hc, hr), hs) p =
    rw (c, hr)
      (ap suc (
        corruptions-append (tool_result entries ∷ rest)
          (IsPaired-of_plain (h ∷ hints) ((hc, hr), hs))
        ∙ orphan_result entries rest p))

-- The hints that land between the tool calls and their results.
abbrev pub hint_between : {Cost : Type 0} → Env Cost → LoopConfig Cost → Response Cost → Bool
hint_between env cfg r =
    str_eq r.stop_reason "max_tokens"
    || ltb 0 cfg.max_context_for_tools && ltb cfg.max_context_for_tools (context_tokens r.usage)

settled-ok : {R : Type 0} (a : Attempt R) {r : R} → settled a ≡ ok r → a ≡ returned r
settled-ok (returned r) h = cc
settled-ok timed_out h = cc
settled-ok (raised e) h = cc

no_calls :
    {Cost : Type 0} (r : Response Cost)
    → is_empty r.tool_calls ≡ true
    → calls_tools (agent (to_internal_message r)) ≡ false
unfolding calls_tools to_internal_message
no_calls r h = rw h

final_reply-IsPaired :
    {Cost : Type 0} (r : Response Cost) → is_empty r.tool_calls ≡ true → IsPaired (reply_messages r)
unfolding reply_messages
final_reply-IsPaired r h = elim (Bool-cases (has_content r)) [
  | inl spoken ↦ elim (Bool-cases (str_eq r.stop_reason "max_tokens")) [
    | inl cut ↦ rw (spoken, cut, h) (plain (no_calls r h) (unfold is_tool_result in refl) nil)
    | inr whole ↦ rw (spoken, whole) (plain (no_calls r h) (unfold is_tool_result in refl) nil)
  ]
  | inr silent ↦ elim (Bool-cases (str_eq r.stop_reason "max_tokens")) [
    | inl cut ↦ rw (silent, cut, h) nil
    | inr whole ↦ rw (silent, whole) nil
  ]
]

no_tools_of_final :
    {Cost : Type 0} (r : Response Cost)
    → is_final r ≡ true
    → (is_empty r.tool_calls ≡ false
        → (str_eq r.stop_reason "max_tokens" ≡ false) × (str_eq r.stop_reason "end_turn" ≡ false))
    → is_empty r.tool_calls ≡ true
unfolding is_final
no_tools_of_final r h clean = elim (Bool-cases (is_empty r.tool_calls)) [
  | inl e ↦ e
  | inr e ↦ cc (rw (e, (clean e).1) at h)
]

module _ {Cost : Type 0} (env : Env Cost) (cfg : LoopConfig Cost) where
  pay-messages :
      (r : Response Cost) (st : LoopState Cost) → (pay env cfg r st).messages ≡ st.messages
  unfolding pay
  pay-messages r st = refl

  -- the messages that one turn with tools adds
  abbrev turn_messages : ℕ → ℕ → Response Cost → List ToolResultEntry → List Message
  turn_messages n turn r entries =
      reply_messages r
      ++ (hints_before env cfg r ++ (tool_result entries ∷ hints_after env cfg n turn))

  use_tools-messages :
      (n turn : ℕ) (r : Response Cost) (st : LoopState Cost)
      → (entries : List ToolResultEntry) × ((use_tools env cfg n turn r
            (record_reply r (pay env cfg r st))).messages
          ≡ st.messages ++ turn_messages n turn r entries)
  unfolding use_tools record_reply pay
  use_tools-messages n turn r st = (_, append_assoc st.messages (reply_messages r) _)

  hints_after-IsPaired : (n turn : ℕ) → IsPaired (hints_after env cfg n turn)
  unfolding hints_after calls_tools is_tool_result user_text
  hints_after-IsPaired n turn = elim (Bool-cases (n - (turn + 1) == 2)) [
    | inl warn ↦ rw warn (plain refl refl nil)
    | inr quiet ↦ rw quiet nil
  ]

  -- the hints of a turn before the results
  abbrev hints_of : Response Cost → List Message
  hints_of r =
      (if str_eq r.stop_reason "max_tokens" then truncated_hint ∷ [] else [])
      ++ hints_before env cfg r

  hints-IsPlain : (r : Response Cost) → All IsPlain (hints_of r)
  unfolding hints_before truncated_hint context_hint calls_tools is_tool_result user_text
  hints-IsPlain r = ground arith

  hints_empty :
      (r : Response Cost)
      → ◌≡◌ {A = ℕ}
          (if is_empty (hints_of r) then 0 else 2)
          (if hint_between env cfg r then 2 else 0)
  unfolding hints_before
  hints_empty r = ground arith

  turn_messages-corruptions :
      (n turn : ℕ) (r : Response Cost) (entries : List ToolResultEntry)
      → is_final r ≡ false
      → corruptions (turn_messages n turn r entries) ≡ (if hint_between env cfg r then 2 else 0)
  turn_messages-corruptions n turn r entries h =
      let (c, e) = reply_messages-tools r h in
      let hints : List Message =
        (if str_eq r.stop_reason "max_tokens" then truncated_hint ∷ [] else [])
        ++ hints_before env cfg r in
      let regroup : turn_messages n turn r entries
          ≡ agent (to_internal_message r)
            ∷ (hints ++ (tool_result entries ∷ hints_after env cfg n turn)) =
        ap
          (λ l. l ++ (hints_before env cfg r ++ (tool_result entries ∷ hints_after env cfg n turn)))
          e
        ∙ ap (λ l. agent (to_internal_message r) ∷ l)
            (sym (append_assoc _ (hints_before env cfg r) _)) in
      rw regroup (
        corruptions-between (agent (to_internal_message r)) hints entries
          (hints_after env cfg n turn) c (hints-IsPlain r) (hints_after-IsPaired n turn)
        ∙ hints_empty r)

  -- From a well-paired list, a turn whose reply is not final, so that it runs tools, leaves exactly
  -- two corruptions for _validate_turn_structure to log where the reply was truncated or its context
  -- is over the limit (the hint stands between the tool calls and their results), and none otherwise.
  pub use_tools-corruptions :
      (n turn : ℕ) (r : Response Cost) (st : LoopState Cost)
      → IsPaired st.messages
      → is_final r ≡ false
      → corruptions (use_tools env cfg n turn r (record_reply r (pay env cfg r st))).messages
        ≡ (if hint_between env cfg r then 2 else 0)
  use_tools-corruptions n turn r st p h =
      let (entries, e) = use_tools-messages n turn r st in
      ap corruptions e
      ∙ corruptions-append (turn_messages n turn r entries) p
      ∙ turn_messages-corruptions n turn r entries h

  -- A reply that neither truncates tool calls nor ends the turn beside them.
  abbrev pub IsClean : Response Cost → Type 0
  IsClean r =
      is_empty r.tool_calls ≡ false
      → (str_eq r.stop_reason "max_tokens" ≡ false) × (str_eq r.stop_reason "end_turn" ≡ false)

  returned_of_ok :
      (call : ℕ → Attempt (Response Cost)) (retries : ℕ) (r : Response Cost)
      → (call_provider_with_retry call retries).outcome ≡ ok r
      → (i : ℕ) × (call i ≡ returned r)
  returned_of_ok call retries r h =
      let s = call_provider_with_retry-Settles call retries in
      (s.last, settled-ok (call s.last) (sym s.outcome ∙ h))

  use_tools-IsPaired :
      (n turn : ℕ) (r : Response Cost) (st : LoopState Cost)
      → IsPaired st.messages
      → is_final r ≡ false
      → hint_between env cfg r ≡ false
      → IsPaired (use_tools env cfg n turn r (record_reply r (pay env cfg r st))).messages
  use_tools-IsPaired n turn r st p h quiet =
      corruptions-IsPaired _ (use_tools-corruptions n turn r st p h ∙ rw quiet)

  answered-IsPaired :
      (r : Response Cost) (st : LoopState Cost)
      → IsPaired st.messages
      → is_final r ≡ true
      → IsClean r
      → IsPaired (record_reply r (pay env cfg r st)).messages
  unfolding record_reply pay
  answered-IsPaired r st p h clean =
      IsPaired-append p (final_reply-IsPaired r (no_tools_of_final r h clean))

  module _ (off : cfg.max_context_for_tools ≡ 0)
      (clean : (turn : ℕ) (ms : List Message) (i : ℕ) (r : Response Cost)
        → env.complete turn ms i ≡ returned r
        → IsClean r) where
    quiet : (r : Response Cost) → IsClean r → is_final r ≡ false → hint_between env cfg r ≡ false
    unfolding is_final
    quiet r c go = rw off (ground (arith, c))

    turn-IsPaired :
        (n turn : ℕ) (st : LoopState Cost) (e : TurnEnd Cost)
        → IsPaired st.messages
        → TurnShape env cfg n turn st e
        → (k : Response Cost → LoopState Cost → Outcome (Response Cost) × LoopState Cost)
        → ((r : Response Cost) (next : LoopState Cost)
            → IsPaired next.messages
            → IsPaired (k r next).1.messages)
        → IsPaired (after_turn env cfg e k).1.messages
    unfolding after_turn
    turn-IsPaired n turn st e p (limited r o over) k more = unfold pay in p
    turn-IsPaired n turn st e p (answered r o within final) k more =
        let (i, c) = returned_of_ok (env.complete turn st.messages) cfg.api_retries r o in
        answered-IsPaired r st p final (clean turn st.messages i r c)
    turn-IsPaired n turn st e p (used r o within go) k more =
        let (i, c) = returned_of_ok (env.complete turn st.messages) cfg.api_retries r o in
        more _ _ (use_tools-IsPaired n turn r st p go (quiet r (clean turn st.messages i r c) go))
    turn-IsPaired n turn st e p (broken o bad) k more = p

    -- Without a context limit for tools, and if the provider neither truncates a reply with tool calls
    -- nor ends a turn beside them, the loop keeps a well-paired list well paired, however it ends.
    pub run_agentic_loop-IsPaired :
        (messages : List Message)
        → IsPaired messages
        → IsPaired (run_agentic_loop env cfg messages).1.messages
    unfolding run_agentic_loop
    run_agentic_loop-IsPaired messages h =
        rounds-induction env cfg (max 1 cfg.max_turns) (λ t st. IsPaired st.messages)
          (λ q. IsPaired q.1.messages)
          (λ turn st e lt p shape k more.
            turn-IsPaired (max 1 cfg.max_turns) turn st e p shape k more)
          (λ st r p. p) (max 1 cfg.max_turns) 0 (start env cfg messages) none (omega arith)
          (inl (omega arith)) (unfold start in h)
