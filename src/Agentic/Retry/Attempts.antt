-- ===== src/Agentic/Retry/Attempts.antt =====
-- agentic.py, `_call_provider_with_retry`: how many calls are made, and which one counts.
use native.Mathlib.Decide.{ℕ_discrete}
use lucyd.Base.{
  subst, ℕ, zero, suc, ◌+◌, ◌≤◌, ◌<◌, ◌≡◌, refl, sym, true, Option, none, arith, leb, ◌⊎◌, inl, inr,
  Bool-cases,
}
use lucyd.Agentic.Retry.{
  Exc, is_transient_error, Attempt, returned, timed_out, raised, Outcome, ok, timeout, failed,
  Called, attempts, after_attempt, exception_of, call_provider_with_retry,
}

-- The outcome that one call has by itself.
abbrev pub settled : {R : Type 0} → Attempt R → Outcome R
settled (returned r) = ok r
settled timed_out = timeout
settled (raised e) = failed e

-- The call raised an exception that is worth a retry.
abbrev pub IsTransient : {R : Type 0} → Attempt R → Type 0
IsTransient (returned r) = ⊥
IsTransient timed_out = ⊥
IsTransient (raised e) = is_transient_error e ≡ true

-- The last call made was call number `last`: its result is the outcome, all calls from `first` to the
-- one before it raised transient exceptions, and it was not one itself unless the calls are used up.
pub record Settles {R : Type 0} (call : ℕ → Attempt R) (retries first : ℕ) (c : Called R)
    : Type 0 where
  pub last : ℕ
  pub calls : c.calls ≡ last + 1
  pub within : last ≤ retries
  pub after : first ≤ last
  pub outcome : c.outcome ≡ settled (call last)
  pub retried : (i : ℕ) → first ≤ i → i < last → IsTransient (call i)
  pub stopped : (last ≡ retries) ⊎ ¬ (IsTransient (call last))

Attempt-cases :
    {R : Type 0} (a : Attempt R)
    → ((r : R) × (a ≡ returned r)) ⊎ (a ≡ timed_out) ⊎ ((e : Exc) × (a ≡ raised e))
Attempt-cases (returned r) = inl (r, refl)
Attempt-cases timed_out = inr (inl refl)
Attempt-cases (raised e) = inr (inr (e, refl))

module _ {R : Type 0} (call : ℕ → Attempt R) (retries : ℕ) where
  stop_here :
      (attempt : ℕ) (o : Outcome R)
      → attempt ≤ retries
      → o ≡ settled (call attempt)
      → (attempt ≡ retries) ⊎ ¬ (IsTransient (call attempt))
      → Settles call retries attempt (record { outcome = o; calls = attempt + 1 })
  stop_here attempt o within e stopped = record {
    last = attempt;
    calls = refl;
    within = within;
    after = omega arith;
    outcome = e;
    retried = λ i lo hi. absurd (omega arith);
    stopped = stopped;
  }

  retry_here :
      (attempt : ℕ) (c : Called R)
      → IsTransient (call attempt)
      → Settles call retries (attempt + 1) c
      → Settles call retries attempt c
  retry_here attempt c t h = record {
    last = h.last;
    calls = h.calls;
    within = h.within;
    after = omega arith;
    outcome = h.outcome;
    retried = λ i lo hi. elim (ℕ_discrete i attempt) [
      | yes same ↦ subst (λ (k : ℕ). IsTransient (call k)) (sym same) t
      | no other ↦ h.retried i (omega arith) hi
    ];
    stopped = h.stopped;
  }

  after_attempt-Settles :
      (attempt : ℕ) (again : Called R)
      → attempt ≤ retries
      → (attempt < retries → Settles call retries (attempt + 1) again)
      → Settles call retries attempt (after_attempt (call attempt) retries attempt again)
  unfolding after_attempt
  after_attempt-Settles attempt again within next = elim (Attempt-cases (call attempt)) [
    | inl (r, e) ↦ rw e (stop_here attempt (ok r) within (rw e) (inr (λ t. subst IsTransient e t)))
    | inr (inl e) ↦
        rw e (stop_here attempt timeout within (rw e) (inr (λ t. subst IsTransient e t)))
    | inr (inr (x, e)) ↦ elim (Bool-cases (is_transient_error x)) [
      | inr lasting ↦
          rw (e, lasting)
            (stop_here attempt (failed x) within (rw e)
              (inr (λ t. cc (lasting, subst IsTransient e t))))
      | inl transient ↦ elim (Bool-cases (leb retries attempt)) [
        | inl used_up ↦
            rw (e, transient, used_up)
              (stop_here attempt (failed x) within (rw e) (inl (ground arith)))
        | inr left ↦
            rw (e, transient, left)
              (retry_here attempt again (subst IsTransient (sym e) transient) (next (ground arith)))
      ]
    ]
  ]

  attempts-Settles :
      (left attempt : ℕ) (last : Option Exc)
      → attempt + left ≡ retries
      → Settles call retries attempt (attempts call retries (suc left) attempt last)
  unfolding attempts
  attempts-Settles zero attempt last h =
      after_attempt-Settles attempt _ (omega arith) (λ more. absurd (omega arith))
  attempts-Settles (suc left) attempt last h =
      after_attempt-Settles attempt _ (omega arith)
        (λ more. attempts-Settles left (attempt + 1) (exception_of (call attempt)) (omega arith))

  -- At most 1 + api_retries calls are made and at least one; the outcome is that of the last call;
  -- every earlier call raised a transient exception, and the last one did not unless the calls are
  -- used up.
  pub call_provider_with_retry-Settles :
      Settles call retries 0 (call_provider_with_retry call retries)
  unfolding call_provider_with_retry
  call_provider_with_retry-Settles =
      let e : 1 + retries ≡ suc retries = omega arith in
      rw e (attempts-Settles retries 0 none (omega arith))
