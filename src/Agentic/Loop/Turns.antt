-- ===== src/Agentic/Loop/Turns.antt =====
-- agentic.py, `run_agentic_loop`: induction over the turns, and what holds however the loop ends.
use lucyd.Base.{
  ◌≢◌, ℕ, zero, suc, ◌+◌, ◌≤◌, ◌<◌, max, ◌≡◌, ◌∙◌, refl, ap, sym, subst, true, false, Option, none,
  some, List, [], ◌++◌, append_assoc, append-nil, arith, Bool-cases, ◌⊎◌, inl, inr,
}
use lucyd.Message.{Message, Response}
use lucyd.Agentic.Retry.{
  ok_inj, Outcome, ok, timeout, failed, no_exception, call_provider_with_retry,
}
use lucyd.Agentic.Env.{Env, LoopConfig, LoopState, finished, over_cost}
use lucyd.Agentic.Loop.{
  TurnEnd, go_on, finish, fail, record_reply, reply_messages, is_final, use_tools, pay, on_reply,
  on_outcome, take_turn, exhausted, after_turn, rounds, start, run_agentic_loop,
}

-- How a turn from state `st` can end: the cost limit is passed, the reply is final, its tools are run,
-- or the provider's call fails.
pub data TurnShape {Cost : Type 0} (env : Env Cost) (cfg : LoopConfig Cost) (max_turns turn : ℕ)
    (st : LoopState Cost) : TurnEnd Cost → Type 0 where
  limited :
      (r : Response Cost)
      → (call_provider_with_retry (env.complete turn st.messages) cfg.api_retries).outcome ≡ ok r
      → over_cost env cfg (pay env cfg r st).accumulated_cost ≡ true
      → TurnShape env cfg max_turns turn st (
          finish
            (finished env cfg (pay env cfg r st) (turn + 1) (record r { cost_limited = true }))
            (pay env cfg r st))
  answered :
      (r : Response Cost)
      → (call_provider_with_retry (env.complete turn st.messages) cfg.api_retries).outcome ≡ ok r
      → over_cost env cfg (pay env cfg r st).accumulated_cost ≡ false
      → is_final r ≡ true
      → TurnShape env cfg max_turns turn st (
          finish
            (finished env cfg (record_reply r (pay env cfg r st)) (turn + 1) r)
            (record_reply r (pay env cfg r st)))
  used :
      (r : Response Cost)
      → (call_provider_with_retry (env.complete turn st.messages) cfg.api_retries).outcome ≡ ok r
      → over_cost env cfg (pay env cfg r st).accumulated_cost ≡ false
      → is_final r ≡ false
      → TurnShape env cfg max_turns turn st
          (go_on r (use_tools env cfg max_turns turn r (record_reply r (pay env cfg r st))))
  broken :
      (o : Outcome (Response Cost))
      → ((r : Response Cost) → o ≢ ok r)
      → TurnShape env cfg max_turns turn st (fail o st)

module _ {Cost : Type 0} (env : Env Cost) (cfg : LoopConfig Cost) (max_turns : ℕ) where
  on_outcome-shape :
      (turn : ℕ) (st : LoopState Cost) (o : Outcome (Response Cost))
      → (call_provider_with_retry (env.complete turn st.messages) cfg.api_retries).outcome ≡ o
      → TurnShape env cfg max_turns turn st (on_outcome env cfg max_turns turn st o)
  unfolding on_outcome on_reply
  on_outcome-shape turn st (ok r) h =
      elim (Bool-cases (over_cost env cfg (pay env cfg r st).accumulated_cost)) [
        | inl over ↦ rw over (limited r h over)
        | inr within ↦ elim (Bool-cases (is_final r)) [
          | inl final ↦ rw (within, final) (answered r h within final)
          | inr more ↦ rw (within, more) (used r h within more)
        ]
      ]
  on_outcome-shape turn st timeout h = broken timeout (λ r e. cc)
  on_outcome-shape turn st (failed x) h = broken (failed x) (λ r e. cc)
  on_outcome-shape turn st no_exception h = broken no_exception (λ r e. cc)

  pub take_turn-shape :
      (turn : ℕ) (st : LoopState Cost)
      → TurnShape env cfg max_turns turn st (take_turn env cfg max_turns turn st)
  unfolding take_turn
  take_turn-shape turn st = on_outcome-shape turn st _ refl

  -- Induction over the turns: `P` holds at the head of each round, `Q` of what the loop returns.
  module _ (P : ℕ → LoopState Cost → Type 0) (Q : Outcome (Response Cost) × LoopState Cost → Type 0)
      (keep : (turn : ℕ) (st : LoopState Cost) (e : TurnEnd Cost)
        → turn < max_turns
        → P turn st
        → TurnShape env cfg max_turns turn st e
        → (k : Response Cost → LoopState Cost → Outcome (Response Cost) × LoopState Cost)
        → ((r : Response Cost) (next : LoopState Cost) → P (turn + 1) next → Q (k r next))
        → Q (after_turn env cfg e k))
      (stop : (st : LoopState Cost) (r : Response Cost)
        → P max_turns st
        → Q (exhausted env cfg max_turns st (some r), st)) where
    pub rounds-induction :
        (left turn : ℕ) (st : LoopState Cost) (last : Option (Response Cost))
        → turn + left ≡ max_turns
        → (0 < left) ⊎ (last ≢ none)
        → P turn st
        → Q (rounds env cfg max_turns left turn st last)
    unfolding rounds
    rounds-induction zero turn st none h (inl pos) p = absurd (omega arith)
    rounds-induction zero turn st none h (inr some_last) p = absurd (some_last refl)
    rounds-induction zero turn st (some r) h _ p =
        stop st r (subst (λ (t : ℕ). P t st) (omega arith) p)
    rounds-induction (suc left) turn st last h _ p =
        keep turn st (take_turn env cfg max_turns turn st) (omega arith) p (take_turn-shape turn st)
          (λ r next. rounds env cfg max_turns left (turn + 1) next (some r))
          (λ r next q.
            rounds-induction left (turn + 1) next (some r) (omega arith) (inr (λ e. cc)) q)

module _ {Cost : Type 0} (env : Env Cost) (cfg : LoopConfig Cost) where
  abbrev InTurns : ℕ → Outcome (Response Cost) × LoopState Cost → Type 0
  InTurns n q = (r : Response Cost) → q.0 ≡ ok r → (1 ≤ r.turns) × (r.turns ≤ n)

  turn-InTurns :
      (n turn : ℕ) (st : LoopState Cost) (e : TurnEnd Cost)
      → turn < n
      → TurnShape env cfg n turn st e
      → (k : Response Cost → LoopState Cost → Outcome (Response Cost) × LoopState Cost)
      → ((r : Response Cost) (next : LoopState Cost) → InTurns n (k r next))
      → InTurns n (after_turn env cfg e k)
  unfolding after_turn finished
  turn-InTurns n turn st e h (limited r o over) k more = λ x q. rw (← ok_inj q) (omega arith)
  turn-InTurns n turn st e h (answered r o within final) k more =
      λ x q. rw (← ok_inj q) (omega arith)
  turn-InTurns n turn st e h (used r o within go) k more = more _ _
  turn-InTurns n turn st e h (broken o bad) k more = λ x q. absurd (bad x q)

  -- If the loop ends with a reply, it took at least one turn and at most max(1, max_turns).
  pub run_agentic_loop-turns :
      (messages : List Message) (r : Response Cost)
      → (run_agentic_loop env cfg messages).0 ≡ ok r
      → (1 ≤ r.turns) × (r.turns ≤ max 1 cfg.max_turns)
  unfolding run_agentic_loop exhausted
  run_agentic_loop-turns messages =
      rounds-induction env cfg (max 1 cfg.max_turns) (λ t st. Unit {0})
        (InTurns (max 1 cfg.max_turns))
        (λ turn st e h p shape k more.
          turn-InTurns (max 1 cfg.max_turns) turn st e h shape k (λ r next. more r next tt))
        (λ st r p x q. rw (← ok_inj q) (omega arith)) (max 1 cfg.max_turns) 0
        (start env cfg messages) none (omega arith) (inl (omega arith)) tt

  abbrev Extends : List Message → LoopState Cost → Type 0
  Extends ms st = (ext : List Message) × (st.messages ≡ ms ++ ext)

  extend :
      (ms xs more : List Message)
      → (ext : List Message) × (xs ≡ ms ++ ext)
      → (ext : List Message) × (xs ++ more ≡ ms ++ ext)
  extend ms xs more (ext, e) = (ext ++ more, ap (λ l. l ++ more) e ∙ append_assoc ms ext more)

  pay-Extends :
      (ms : List Message) (r : Response Cost) (st : LoopState Cost)
      → Extends ms st
      → Extends ms (pay env cfg r st)
  unfolding pay
  pay-Extends ms r st p = p

  record_reply-Extends :
      (ms : List Message) (r : Response Cost) (st : LoopState Cost)
      → Extends ms st
      → Extends ms (record_reply r st)
  unfolding record_reply
  record_reply-Extends ms r st p = extend ms st.messages (reply_messages r) p

  use_tools-Extends :
      (ms : List Message) (n turn : ℕ) (r : Response Cost) (st : LoopState Cost)
      → Extends ms st
      → Extends ms (use_tools env cfg n turn r st)
  unfolding use_tools
  use_tools-Extends ms n turn r st p = extend ms st.messages _ p

  turn-Extends :
      (ms : List Message) {n : ℕ} (turn : ℕ) (st : LoopState Cost) (e : TurnEnd Cost)
      → Extends ms st
      → TurnShape env cfg n turn st e
      → (k : Response Cost → LoopState Cost → Outcome (Response Cost) × LoopState Cost)
      → ((r : Response Cost) (next : LoopState Cost) → Extends ms next → Extends ms (k r next).1)
      → Extends ms (after_turn env cfg e k).1
  unfolding after_turn
  turn-Extends ms turn st e p (limited r o over) k more = pay-Extends ms r st p
  turn-Extends ms turn st e p (answered r o within final) k more =
      record_reply-Extends ms r (pay env cfg r st) (pay-Extends ms r st p)
  turn-Extends ms {n} turn st e p (used r o within go) k more = more _ _ (
      use_tools-Extends ms n turn r (record_reply r (pay env cfg r st))
        (record_reply-Extends ms r (pay env cfg r st) (pay-Extends ms r st p)))
  turn-Extends ms turn st e p (broken o bad) k more = p

  -- The loop only appends messages, however it ends: what it was given stays in front, as it was.
  pub run_agentic_loop-extends :
      (messages : List Message)
      → (ext : List Message) × ((run_agentic_loop env cfg messages).1.messages ≡ messages ++ ext)
  unfolding run_agentic_loop after_turn
  run_agentic_loop-extends messages =
      rounds-induction env cfg (max 1 cfg.max_turns) (λ t st. Extends messages st)
        (λ q. Extends messages q.1)
        (λ turn st e h p shape k more. turn-Extends messages turn st e p shape k more) (λ st r p. p)
        (max 1 cfg.max_turns) 0 (start env cfg messages) none (omega arith) (inl (omega arith))
        (unfold start in ([], sym (append-nil messages)))
