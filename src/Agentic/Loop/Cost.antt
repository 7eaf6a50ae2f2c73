-- ===== src/Agentic/Loop/Cost.antt =====
-- agentic.py, `run_agentic_loop`: the cost circuit breaker, against the bill of the replies.
use lucyd.Base.{
  ℕ, ◌+◌, max, ◌≡◌, ◌∙◌, refl, sym, ap, true, false, Option, none, some, List, [], ◌∷◌, ◌++◌,
  append-nil, Bool-cases, arith, ◌⊎◌, inl, inr,
}
use lucyd.Message.{Message, Response, Usage}
use lucyd.Agentic.Retry.{ok_inj, Outcome, ok}
use lucyd.Agentic.Env.{
  Env, LoopConfig, LoopState, Notice, on_response, on_running, on_tool_results, finished, charged,
  over_cost,
}
use lucyd.Agentic.Env.Results.{run_tools_lem}
use lucyd.Agentic.Loop.{
  TurnEnd, record_reply, use_tools, pay, exhausted, after_turn, start, run_agentic_loop,
}
use lucyd.Agentic.Loop.Turns.{TurnShape, limited, answered, used, broken, rounds-induction}

-- The replies that the callbacks were called with.
abbrev pub replies_of : {Cost : Type 0} → List (Notice Cost) → List (Response Cost)
replies_of [] = []
replies_of (on_response r ∷ ns) = r ∷ replies_of ns
replies_of (on_running tcs ∷ ns) = replies_of ns
replies_of (on_tool_results entries ∷ ns) = replies_of ns

replies_of-append :
    {Cost : Type 0} (ms ns : List (Notice Cost))
    → replies_of (ms ++ ns) ≡ replies_of ms ++ replies_of ns
replies_of-append [] ns = refl
replies_of-append (on_response r ∷ ms) ns = ap (λ rs. r ∷ rs) (replies_of-append ms ns)
replies_of-append (on_running tcs ∷ ms) ns = replies_of-append ms ns
replies_of-append (on_tool_results entries ∷ ms) ns = replies_of-append ms ns

module _ {Cost : Type 0} (env : Env Cost) (cfg : LoopConfig Cost) where
  -- The sum of the charges of replies, in their order, on top of an amount; without metering there are none.
  abbrev pub owed : Option (Usage → Cost) → Cost → Response Cost → Cost
  owed none amount r = amount
  owed (some charge) amount r = env.add_cost amount (charge r.usage)

  abbrev pub bill : Cost → List (Response Cost) → Cost
  bill amount [] = amount
  bill amount (r ∷ rs) = bill (owed env.charge amount r) rs

  -- No limit is set, or the cost does not exceed it.
  abbrev pub IsAffordable : Cost → Type 0
  IsAffordable cost =
      (env.exceeds cfg.max_cost env.zero_cost ≡ false) ⊎ (env.exceeds cost cfg.max_cost ≡ false)

  -- A reply carries the bill of all replies up to it. It is marked, and its cost is over the limit, if it
  -- is the one that the callbacks did not get, and else within the limit.
  abbrev pub IsBilled : Outcome (Response Cost) × LoopState Cost → Type 0
  IsBilled q =
      (r : Response Cost)
      → q.0 ≡ ok r
      → let replies = replies_of q.1.notices in
        (r.total_cost ≡ q.1.accumulated_cost)
        × (((r.cost_limited ≡ true)
              × (r.total_cost ≡ bill env.zero_cost (replies ++ r ∷ []))
              × (env.exceeds cfg.max_cost env.zero_cost ≡ true)
              × (env.exceeds r.total_cost cfg.max_cost ≡ true))
            ⊎ ((r.total_cost ≡ bill env.zero_cost replies) × IsAffordable r.total_cost))

  bill-append :
      (amount : Cost) (rs ss : List (Response Cost))
      → bill amount (rs ++ ss) ≡ bill (bill amount rs) ss
  bill-append amount [] ss = refl
  bill-append amount (r ∷ rs) ss = bill-append (owed env.charge amount r) rs ss

  charged-owed :
      (o : Option (Usage → Cost)) (r : Response Cost) (amount : Cost)
      → charged env cfg o r.usage amount ≡ owed o amount r
  unfolding charged
  charged-owed none r amount = refl
  charged-owed (some charge) r amount = refl

  -- the cost is the bill of the replies that the callbacks got
  abbrev IsPaid : LoopState Cost → Type 0
  IsPaid st = st.accumulated_cost ≡ bill env.zero_cost (replies_of st.notices)

  pay-bill :
      (r : Response Cost) (st : LoopState Cost)
      → IsPaid st
      → (pay env cfg r st).accumulated_cost ≡ bill env.zero_cost (replies_of st.notices ++ r ∷ [])
  unfolding pay
  pay-bill r st paid =
      charged-owed env.charge r st.accumulated_cost
      ∙ (ap (λ amount. owed env.charge amount r) paid
          ∙ sym (bill-append env.zero_cost (replies_of st.notices) (r ∷ [])))

  owed-usage :
      (o : Option (Usage → Cost)) (amount : Cost) (r s : Response Cost)
      → r.usage ≡ s.usage
      → owed o amount r ≡ owed o amount s
  owed-usage none amount r s same = refl
  owed-usage (some charge) amount r s same = ap (λ u. env.add_cost amount (charge u)) same

  bill-usage :
      (amount : Cost) (rs : List (Response Cost)) (r s : Response Cost)
      → r.usage ≡ s.usage
      → bill amount (rs ++ r ∷ []) ≡ bill amount (rs ++ s ∷ [])
  bill-usage amount [] r s same = owed-usage env.charge amount r s same
  bill-usage amount (x ∷ rs) r s same = bill-usage (owed env.charge amount x) rs r s same

  -- the reply at the limit is charged like any other
  limited-bill :
      (turn : ℕ) (r : Response Cost) (st : LoopState Cost)
      → IsPaid st
      → let paid = pay env cfg r st in
        let reply = finished env cfg paid turn (record r { cost_limited = true }) in
        reply.total_cost ≡ bill env.zero_cost (replies_of paid.notices ++ reply ∷ [])
  unfolding finished pay
  limited-bill turn r st paid =
      pay-bill r st paid
      ∙ bill-usage env.zero_cost (replies_of st.notices) r
          (finished env cfg (pay env cfg r st) turn (record r { cost_limited = true })) refl

  affordable : (cost : Cost) → over_cost env cfg cost ≡ false → IsAffordable cost
  unfolding over_cost
  affordable cost h = elim (Bool-cases (env.exceeds cfg.max_cost env.zero_cost)) [
    | inl set ↦ inr (ground (arith, set))
    | inr unset ↦ inl unset
  ]

  exceeded :
      (cost : Cost)
      → over_cost env cfg cost ≡ true
      → (env.exceeds cfg.max_cost env.zero_cost ≡ true) × (env.exceeds cost cfg.max_cost ≡ true)
  unfolding over_cost
  exceeded cost h = (ground arith, ground arith)

  use_tools-cost :
      (n turn : ℕ) (r : Response Cost) (st : LoopState Cost)
      → (use_tools env cfg n turn r st).accumulated_cost ≡ st.accumulated_cost
  unfolding use_tools
  use_tools-cost n turn r st = (run_tools_lem env cfg r.tool_calls st).3

  use_tools-replies :
      (n turn : ℕ) (r : Response Cost) (st : LoopState Cost)
      → replies_of (use_tools env cfg n turn r st).notices ≡ replies_of st.notices
  unfolding use_tools
  use_tools-replies n turn r st = replies_of-append st.notices _ ∙ append-nil _

  pay-replies :
      (r : Response Cost) (st : LoopState Cost)
      → replies_of (pay env cfg r st).notices ≡ replies_of st.notices
  unfolding pay
  pay-replies r st = refl

  record_reply-IsPaid :
      (r : Response Cost) (st : LoopState Cost)
      → IsPaid st
      → IsPaid (record_reply r (pay env cfg r st))
  unfolding record_reply
  record_reply-IsPaid r st paid =
      pay-bill r st paid
      ∙ ap (bill env.zero_cost) (
          ap (λ rs. rs ++ r ∷ []) (sym (pay-replies r st))
          ∙ sym (replies_of-append (pay env cfg r st).notices (on_response r ∷ [])))

  use_tools-IsPaid :
      (n turn : ℕ) (r : Response Cost) (st : LoopState Cost)
      → IsPaid st
      → IsPaid (use_tools env cfg n turn r st)
  use_tools-IsPaid n turn r st paid =
      use_tools-cost n turn r st
      ∙ (paid ∙ ap (bill env.zero_cost) (sym (use_tools-replies n turn r st)))

  record_reply-cost :
      (r : Response Cost) (st : LoopState Cost)
      → (record_reply r st).accumulated_cost ≡ st.accumulated_cost
  unfolding record_reply
  record_reply-cost r st = refl

  -- a turn begins with the bill paid, and without a reply or within the limit
  abbrev IsWithin : ℕ → LoopState Cost → Type 0
  IsWithin turn st = IsPaid st × ((turn ≡ 0) ⊎ (over_cost env cfg st.accumulated_cost ≡ false))

  turn-IsBilled :
      (n turn : ℕ) (st : LoopState Cost) (e : TurnEnd Cost)
      → IsPaid st
      → TurnShape env cfg n turn st e
      → (k : Response Cost → LoopState Cost → Outcome (Response Cost) × LoopState Cost)
      → ((r : Response Cost) (next : LoopState Cost)
          → IsWithin (turn + 1) next
          → IsBilled (k r next))
      → IsBilled (after_turn env cfg e k)
  unfolding after_turn finished
  turn-IsBilled n turn st e paid (limited r o over) k more =
      let e = exceeded (pay env cfg r st).accumulated_cost over in
      λ x q. rw (← ok_inj q) (refl, inl (refl, limited-bill (turn + 1) r st paid, e.0, e.1))
  turn-IsBilled n turn st e paid (answered r o within final) k more = λ x q. rw (← ok_inj q) (
    refl,
    inr (
      record_reply-IsPaid r st paid,
      affordable _ (rw (record_reply-cost r (pay env cfg r st)) within),
    ),
  )
  turn-IsBilled n turn st e paid (used r o within go) k more = more r _ (
    use_tools-IsPaid n turn r _ (record_reply-IsPaid r st paid),
    inr (
        ap (over_cost env cfg) (
          use_tools-cost n turn r (record_reply r (pay env cfg r st))
          ∙ record_reply-cost r (pay env cfg r st))
        ∙ within),
  )
  turn-IsBilled n turn st e paid (broken o bad) k more = λ x q. absurd (bad x q)

  run_agentic_loop-IsBilled :
      (messages : List Message) → IsBilled (run_agentic_loop env cfg messages)
  unfolding run_agentic_loop exhausted
  run_agentic_loop-IsBilled messages =
      rounds-induction env cfg (max 1 cfg.max_turns) IsWithin IsBilled
        (λ turn st e lt p shape k more.
          turn-IsBilled (max 1 cfg.max_turns) turn st e p.0 shape k more)
        (λ st r p x q. rw (← ok_inj q) (refl, inr (p.0, affordable _ (within st p.1))))
        (max 1 cfg.max_turns) 0 (start env cfg messages) none (omega arith) (inl (omega arith))
        (unfold start in (refl, inl refl))
    where
      within :
          (st : LoopState Cost)
          → (max 1 cfg.max_turns ≡ 0) ⊎ (over_cost env cfg st.accumulated_cost ≡ false)
          → over_cost env cfg st.accumulated_cost ≡ false
      within st (inl none_left) = absurd (omega arith)
      within st (inr low) = low

  -- If the loop ends with a reply, it carries the cost accumulated over the turns, and that is the sum of
  -- the charges of all replies that the loop got, in order: of those that were given to the callbacks and,
  -- if the loop stopped at the cost limit, of the reply itself, which was not. In that case it is marked as
  -- cost-limited, a limit is set and the cost exceeds it; else no limit is set or the cost is within it.
  pub run_agentic_loop-cost :
      (messages : List Message) (r : Response Cost)
      → (run_agentic_loop env cfg messages).0 ≡ ok r
      → let st = (run_agentic_loop env cfg messages).1 in
        let replies = replies_of st.notices in
        (r.total_cost ≡ st.accumulated_cost)
        × (((r.cost_limited ≡ true)
              × (r.total_cost ≡ bill env.zero_cost (replies ++ r ∷ []))
              × (env.exceeds cfg.max_cost env.zero_cost ≡ true)
              × (env.exceeds r.total_cost cfg.max_cost ≡ true))
            ⊎ ((r.total_cost ≡ bill env.zero_cost replies) × IsAffordable r.total_cost))
  run_agentic_loop-cost messages r h = run_agentic_loop-IsBilled messages r h
