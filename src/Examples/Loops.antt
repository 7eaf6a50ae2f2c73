-- ===== src/Examples/Loops.antt =====
-- The theorems on the agentic loop, applied to a provider that calls a tool and then answers.
use lucyd.Base.{
  ◌++◌, ◌≡◌, ◌⊎◌, refl, ℕ, ◌+◌, ◌≤◌, true, List, [], ◌∷◌, contains, decimal, grouped, join,
  mem_text, mem_name, starts_with, text_eq, subst, Bool-cases, inl, inr, ltb, lit, length,
  if◌then◌else◌,
}
use lucyd.Message.{
  context_tokens, dict_or_none, or_none, to_internal_message, truthy, user_text, Message, Response,
  calls_tools, is_tool_result,
}
use lucyd.Session.{corruptions}
use lucyd.Session.Turns.{IsPaired, nil, plain}
use lucyd.Agentic.Retry.{
  after_attempt, is_transient_error, attempts, exception_of, mistral_transient, none_or_high,
  raise_last, some_high, ok, returned, call_provider_with_retry,
}
use lucyd.Agentic.Retry.Attempts.{Settles, call_provider_with_retry-Settles}
use lucyd.Agentic.Env.{
  after_result, charged, collect, context_hint, finished, result_entry, stamped, stop_text,
  truncate_args, truncated_hint, turns_hint, with_fallback, run_tools, over_cost,
}
use lucyd.Agentic.Env.Results.{Distinct, Answers, run_tools-Answers}
use lucyd.Agentic.Loop.{
  rounds, after_turn, take_turn, on_outcome, on_reply, start, exhausted, exhausted_text,
  fallback_of, has_content, hints_after, hints_before, reply_messages, run_agentic_loop, use_tools,
  record_reply, pay, is_final,
}
use lucyd.Agentic.Loop.Pairing.{
  hint_between, use_tools-corruptions, IsClean, run_agentic_loop-IsPaired,
}
use lucyd.Agentic.Loop.Cost.{replies_of, bill, IsAffordable, run_agentic_loop-cost}
use lucyd.Examples.{hi, search_call, env, cfg, provider, state, replying}

call_provider_with_retry-Settles_example :
    Settles (provider 0 (hi ∷ [])) 2 0 (call_provider_with_retry (provider 0 (hi ∷ [])) 2)
call_provider_with_retry-Settles_example = call_provider_with_retry-Settles (provider 0 (hi ∷ [])) 2

run_tools-Answers_example :
    let (entries, ran) = run_tools env cfg (search_call ∷ []) (state (hi ∷ [])) in
    Answers env cfg (search_call ∷ []) entries
    × (ran.tool_calls_total ≡ 0 + length (search_call ∷ []))
    × (ran.tool_calls_failed ≤ 0 + length (search_call ∷ []))
    × (ran.accumulated_cost ≡ 0)
    × (ran.messages ≡ hi ∷ [])
    × Distinct ran.all_attachments
run_tools-Answers_example = run_tools-Answers env cfg (search_call ∷ []) (state (hi ∷ [])) tt

abbrev ended : Response ℕ
ended = elim (run_agentic_loop env cfg (hi ∷ [])).0 [ ok r ↦ r | _ ↦ replying [] [] "" ]

ended_lem : (run_agentic_loop env cfg (hi ∷ [])).0 ≡ ok ended
unfolding run_agentic_loop rounds after_turn take_turn on_outcome call_provider_with_retry
    after_attempt is_transient_error mem_name on_reply over_cost pay start is_final use_tools
    run_tools record_reply after_result charged collect context_hint finished result_entry stamped
    stop_text truncate_args truncated_hint turns_hint with_fallback exhausted exhausted_text
    fallback_of has_content hints_after hints_before reply_messages attempts exception_of
    mistral_transient none_or_high raise_last some_high contains decimal grouped join lit mem_text
    starts_with text_eq context_tokens dict_or_none or_none to_internal_message truthy user_text
ended_lem = refl

run_agentic_loop-cost_example :
    let st = (run_agentic_loop env cfg (hi ∷ [])).1 in
    let replies = replies_of st.notices in
    (ended.total_cost ≡ st.accumulated_cost)
    × (((ended.cost_limited ≡ true)
          × (ended.total_cost ≡ bill env cfg env.zero_cost (replies ++ ended ∷ []))
          × (env.exceeds cfg.max_cost env.zero_cost ≡ true)
          × (env.exceeds ended.total_cost cfg.max_cost ≡ true))
        ⊎ ((ended.total_cost ≡ bill env cfg env.zero_cost replies)
            × IsAffordable env cfg ended.total_cost))
run_agentic_loop-cost_example = run_agentic_loop-cost env cfg (hi ∷ []) ended ended_lem

hi-IsPaired : IsPaired (hi ∷ [])
unfolding calls_tools is_tool_result
hi-IsPaired = plain refl refl nil

use_tools-corruptions_example :
    corruptions
      (use_tools env cfg 5 0 (replying (lit "cut") (search_call ∷ []) "max_tokens") (
        record_reply (replying (lit "cut") (search_call ∷ []) "max_tokens") (
          pay env cfg
            (replying (lit "cut") (search_call ∷ []) "max_tokens")
            (state (hi ∷ []))))).messages
    ≡ (if hint_between env cfg (replying (lit "cut") (search_call ∷ []) "max_tokens") then 2 else 0)
unfolding is_final
use_tools-corruptions_example =
    use_tools-corruptions env cfg 5 0 (replying (lit "cut") (search_call ∷ []) "max_tokens")
      (state (hi ∷ [])) hi-IsPaired refl

returned_inj : {R : Type 0} {a b : R} → returned a ≡ returned b → a ≡ b
returned_inj h = cc

provider-IsClean :
    (turn : ℕ) (ms : List Message) (i : ℕ) (r : Response ℕ)
    → provider turn ms i ≡ returned r
    → IsClean env cfg r
provider-IsClean turn ms i r h = elim (Bool-cases (ltb 0 turn)) [
  | inl later ↦ subst (IsClean env cfg) (returned_inj (rw later at h)) (λ e. cc (e))
  | inr first ↦ elim (Bool-cases (ltb 0 i)) [
    | inl retried ↦
        subst (IsClean env cfg) (returned_inj (rw (first, retried) at h)) (λ e. (refl, refl))
    | inr early ↦ cc (rw (first, early) at h)
  ]
]

run_agentic_loop-IsPaired_example : IsPaired (run_agentic_loop env cfg (hi ∷ [])).1.messages
run_agentic_loop-IsPaired_example =
    run_agentic_loop-IsPaired env cfg refl provider-IsClean (hi ∷ []) hi-IsPaired
