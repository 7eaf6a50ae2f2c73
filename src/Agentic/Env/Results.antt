-- ===== src/Agentic/Env/Results.antt =====
-- agentic.py, the run of the tools of one reply: what it answers, counts and collects.
use lucyd.Base.{
  ◌+◌, ◌≤◌, Text, ◌≡◌, refl, Bool, false, List, [], ◌∷◌, ◌++◌, length, arith, ◌||◌, mem_text,
  text_eq, Bool-cases, inl, inr,
}
use lucyd.Message.{ToolCall, ToolResultEntry}
use lucyd.Agentic.Env.{
  Env, LoopConfig, LoopState, ToolOutcome, done, crashed, result_entry, after_result, run_tools,
  collect,
}

-- No text stands twice in the list.
abbrev pub Distinct : List Text → Type 0
Distinct [] = Unit
Distinct (t ∷ ts) = (mem_text t ts ≡ false) × Distinct ts

text_eq_sym : (a b : Text) → text_eq a b ≡ text_eq b a
unfolding text_eq
text_eq_sym [] [] = refl
text_eq_sym [] (d ∷ ds) = refl
text_eq_sym (c ∷ cs) [] = refl
text_eq_sym (c ∷ cs) (d ∷ ds) = ground (arith, text_eq_sym cs ds)

mem_text-snoc :
    (t a : Text) (ts : List Text) → mem_text t (ts ++ a ∷ []) ≡ (mem_text t ts || text_eq t a)
unfolding mem_text
mem_text-snoc t a [] = ground arith
mem_text-snoc t a (u ∷ ts) = ground (arith, mem_text-snoc t a ts)

Distinct-snoc :
    (a : Text) (ts : List Text) → mem_text a ts ≡ false → Distinct ts → Distinct (ts ++ a ∷ [])
unfolding mem_text
Distinct-snoc a [] h d = ground arith
Distinct-snoc a (t ∷ ts) h d =
    ground (arith, Distinct-snoc a ts, mem_text-snoc t a ts, text_eq_sym a t)

collect-Distinct : (all atts : List Text) → Distinct all → Distinct (collect all atts)
unfolding collect
collect-Distinct all [] d = d
collect-Distinct all (a ∷ atts) d = elim (Bool-cases (mem_text a all)) [
  | inl old ↦ rw old (collect-Distinct all atts d)
  | inr new ↦ rw new (collect-Distinct (all ++ a ∷ []) atts (Distinct-snoc a all new d))
]

module _ {Cost : Type 0} (env : Env Cost) (cfg : LoopConfig Cost) where
  result_entry-names :
      (tc : ToolCall) (o : ToolOutcome)
      → let (entry, _, _) = result_entry env cfg tc o in
        (entry.tool_call_id ≡ tc.id) × (entry.tool_name ≡ tc.name)
  unfolding result_entry
  result_entry-names tc (done text atts) = (refl, refl)
  result_entry-names tc (crashed cls message) = (refl, refl)

  failed_after :
      (st : LoopState Cost) (result : ToolResultEntry × Bool × List Text)
      → (after_result env cfg st result).tool_calls_failed ≤ st.tool_calls_failed + 1
  unfolding after_result
  failed_after st (entry, bad, atts) = ground arith

  -- The entries name the calls they answer, one each and in order.
  abbrev pub Answers : List ToolCall → List ToolResultEntry → Type 0
  Answers [] [] = Unit
  Answers [] (e ∷ es) = ⊥
  Answers (tc ∷ tcs) [] = ⊥
  Answers (tc ∷ tcs) (e ∷ es) = (e.tool_call_id ≡ tc.id) × (e.tool_name ≡ tc.name) × Answers tcs es

  pub run_tools_lem :
      (tcs : List ToolCall) (st : LoopState Cost)
      → let (entries, ran) = run_tools env cfg tcs st in
        Answers tcs entries
        × (ran.tool_calls_total ≡ st.tool_calls_total + length tcs)
        × (ran.tool_calls_failed ≤ st.tool_calls_failed + length tcs)
        × (ran.accumulated_cost ≡ st.accumulated_cost)
        × (ran.messages ≡ st.messages)
        × (Distinct st.all_attachments → Distinct ran.all_attachments)
  unfolding run_tools
  run_tools_lem [] st = (tt, omega arith, omega arith, refl, refl, λ d. d)
  run_tools_lem (tc ∷ tcs) st =
      let result = result_entry env cfg tc (env.execute st.tool_calls_total tc) in
      let (answers, total, failed, cost, messages, distinct) =
        run_tools_lem tcs (after_result env cfg st result) in
      let (id_eq, name_eq) = result_entry-names tc (env.execute st.tool_calls_total tc) in
      let bound = failed_after st result in
      (
        (id_eq, name_eq, answers),
        omega arith,
        omega arith,
        cost,
        messages,
        λ d. distinct (collect-Distinct st.all_attachments result.2 d),
      )

  -- Every tool call is answered by one entry with its id and name, in order, also where the tool raised
  -- or failed; each is counted once, failures at most once each; the cost and the messages are left alone;
  -- and attachments collected without duplicates stay without duplicates.
  pub run_tools-Answers :
      (tcs : List ToolCall) (st : LoopState Cost)
      → Distinct st.all_attachments
      → let (entries, ran) = run_tools env cfg tcs st in
        Answers tcs entries
        × (ran.tool_calls_total ≡ st.tool_calls_total + length tcs)
        × (ran.tool_calls_failed ≤ st.tool_calls_failed + length tcs)
        × (ran.accumulated_cost ≡ st.accumulated_cost)
        × (ran.messages ≡ st.messages)
        × Distinct ran.all_attachments
  run_tools-Answers tcs st d =
      let (answers, total, failed, cost, messages, distinct) = run_tools_lem tcs st in
      (answers, total, failed, cost, messages, distinct d)
