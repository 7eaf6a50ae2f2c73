-- ===== src/Pipeline/Budget/Checked.antt =====
-- pipeline.py, `_ensure_context_budget`: what the compactions keep, and what a turn that is given up leaves.
use lucyd.Base.{
  ℕ, zero, suc, ◌+◌, ◌<◌, String, Text, Bool, true, false, Option, none, List, [], ◌∷◌, ◌≡◌, ◌∙◌,
  refl, sym, subst, ◌⊎◌, inl, inr, map, length, length-map, length-drop, drop, get_last?, ◌==◌,
  arith, Bool-cases,
}
use lucyd.Message.{Message, Json, Usage, user, agent, tool_result, is_user}
use lucyd.Store.{Db}
use lucyd.Session.{Session, ends_with_user, add_user_message}
use lucyd.Session.Sync.{IsSynced}
use lucyd.Session.Compact.{skip_results, split_point, without_usage, replace_old}
use lucyd.Session.Compact.Keeps.{compact_session-cases, compact_session-IsSynced}
use lucyd.Pipeline.Budget.{within_budget, compact_attempt, budget_attempts, ensure_context_budget}

module _ (estimate_tokens : Text → ℕ) (str_args : Json → Text) (split_at : ℕ → ℕ → ℕ)
    (complete : Text → Option (Option Text × Usage)) (prompt : Text) where
  -- Induction over the attempts: what every compaction keeps holds of what the budget check leaves.
  module _ (K : Db → Session → Type 0)
      (keep : (k : ℕ) (db : Db) (s : Session)
        → K db s
        → K
            (compact_attempt estimate_tokens str_args split_at complete prompt k db s).0
            (compact_attempt estimate_tokens str_args split_at complete prompt k db s).1) where
    attempts-keep :
        (max_ctx left k : ℕ) (db : Db) (s : Session)
        → K db s
        → K
            (budget_attempts estimate_tokens str_args split_at complete prompt max_ctx left k db
              s).1
            (budget_attempts estimate_tokens str_args split_at complete prompt max_ctx left k db
              s).2
    unfolding budget_attempts
    attempts-keep max_ctx zero k db s h = h
    attempts-keep max_ctx (suc left) k db s h =
        elim (Bool-cases
          (within_budget estimate_tokens str_args split_at complete prompt max_ctx s)) [
            | inl fits ↦ rw fits h
            | inr over ↦ rw over (attempts-keep max_ctx left (k + 1) _ _ (keep k db s h))
          ]

    budget-keep :
        (max_ctx : ℕ) (db : Db) (s : Session)
        → K db s
        → K
            (ensure_context_budget estimate_tokens str_args split_at complete prompt max_ctx db s).1
            (ensure_context_budget estimate_tokens str_args split_at complete prompt max_ctx db s).2
    unfolding ensure_context_budget
    budget-keep max_ctx db s h = elim (Bool-cases (max_ctx == 0)) [
      | inl off ↦ rw off h
      | inr on ↦ rw on (attempts-keep max_ctx 2 0 db s h)
    ]

skip_results-lt :
    (split : ℕ) (ms : List Message) → 0 < length ms → skip_results split ms < split + length ms
unfolding skip_results
skip_results-lt split [] h = absurd (omega arith)
skip_results-lt split (m ∷ []) h = omega arith
skip_results-lt split (m ∷ n ∷ ms) h =
    ground (arith, skip_results-lt (split + 1) (n ∷ ms) (omega arith))

get_last?-drop : (k : ℕ) (ms : List Message) → k < length ms → get_last? (drop k ms) ≡ get_last? ms
get_last?-drop zero ms h = refl
get_last?-drop (suc k) [] h = absurd (omega arith)
get_last?-drop (suc k) (m ∷ []) h = absurd (omega arith)
get_last?-drop (suc k) (m ∷ n ∷ ms) h = get_last?-drop k (n ∷ ms) (omega arith)

is_user-without_usage : (m : Message) → is_user (without_usage m) ≡ is_user m
unfolding is_user without_usage
is_user-without_usage (user u) = refl
is_user-without_usage (agent a) = refl
is_user-without_usage (tool_result rs) = refl

ends_with_user-without_usage :
    (ms : List Message) → ends_with_user (map without_usage ms) ≡ ends_with_user ms
unfolding ends_with_user
ends_with_user-without_usage [] = refl
ends_with_user-without_usage (m ∷ []) = unfold is_user in is_user-without_usage m
ends_with_user-without_usage (m ∷ n ∷ ms) = ends_with_user-without_usage (n ∷ ms)

ends_with_user-cons :
    (m : Message) (ms : List Message) → 0 < length ms → ends_with_user (m ∷ ms) ≡ ends_with_user ms
unfolding ends_with_user
ends_with_user-cons m [] h = absurd (omega arith)
ends_with_user-cons m (n ∷ ms) h = refl

ends_with_user-drop :
    (k : ℕ) (ms : List Message) → k < length ms → ends_with_user (drop k ms) ≡ ends_with_user ms
unfolding ends_with_user
ends_with_user-drop k ms h = rw (get_last?-drop k ms h)

nonempty : (ms : List Message) → ends_with_user ms ≡ true → 0 < length ms
unfolding ends_with_user
nonempty [] h = cc
nonempty (m ∷ ms) h = omega arith

split_point-lt :
    (split_at : ℕ → ℕ) (ms : List Message)
    → split_at (length ms) < length ms
    → split_point split_at ms < length ms
unfolding split_point
split_point-lt split_at ms h = omega (
  arith,
  skip_results-lt (split_at (length ms)) (drop (split_at (length ms)) ms)
      (omega (arith, length-drop (split_at (length ms)) ms)),
  length-drop (split_at (length ms)) ms,
)

replace_old-ends :
    (db : Db) (s : Session) (k : ℕ) (reply : Option Text × Usage)
    → k < length s.messages
    → ends_with_user (replace_old db s k reply).1.messages ≡ ends_with_user s.messages
unfolding replace_old
replace_old-ends db s k (text, usage) h =
    let long : 0 < length (map without_usage (drop k s.messages)) =
      omega (arith, length-map without_usage (drop k s.messages), length-drop k s.messages) in
    ends_with_user-cons _ _ (omega arith)
    ∙ ends_with_user-cons _ _ long
    ∙ ends_with_user-without_usage (drop k s.messages)
    ∙ ends_with_user-drop k s.messages h

refused :
    (db : Db) (s : Session) (text : Text) (sender source : String)
    → ends_with_user s.messages ≡ true
    → add_user_message db s text sender source ≡ none
unfolding add_user_message
refused db s text sender source h = rw h

module _ (estimate_tokens : Text → ℕ) (str_args : Json → Text) (split_at : ℕ → ℕ → ℕ)
    (complete : Text → Option (Option Text × Usage)) (prompt : Text) where
  abbrev pub checked : ℕ → Db → Session → Bool × Db × Session
  checked = ensure_context_budget estimate_tokens str_args split_at complete prompt

  abbrev pub Sound : ℕ → Bool → Session → Type 0
  Sound max_ctx true s =
      (max_ctx ≡ 0)
      ⊎ (within_budget estimate_tokens str_args split_at complete prompt max_ctx s ≡ true)
  Sound max_ctx false s = Unit

  attempts-Sound :
      (max_ctx left k : ℕ) (db : Db) (s : Session)
      → let (fits, db', s') =
          budget_attempts estimate_tokens str_args split_at complete prompt max_ctx left k db s in
        Sound max_ctx fits s'
  unfolding budget_attempts
  attempts-Sound max_ctx zero k db s = tt
  attempts-Sound max_ctx (suc left) k db s =
      elim (Bool-cases
        (within_budget estimate_tokens str_args split_at complete prompt max_ctx s)) [
          | inl fits ↦ rw fits (inr fits)
          | inr over ↦ rw over (attempts-Sound max_ctx left (k + 1) _ _)
        ]

  -- The budget check keeps the rows of a session equal to its messages, over up to two compactions; and
  -- if it lets the message proceed, the provider has no limit or the history is within 80% of it.
  pub ensure_context_budget-IsSynced :
      (max_ctx : ℕ) (db : Db) (s : Session)
      → IsSynced db s
      → let (fits, db', s') = checked max_ctx db s in IsSynced db' s' × Sound max_ctx fits s'
  unfolding ensure_context_budget compact_attempt
  ensure_context_budget-IsSynced max_ctx db s h = (
    budget-keep estimate_tokens str_args split_at complete prompt IsSynced
        (λ k db s h. compact_session-IsSynced str_args (split_at k) complete 4 2000 prompt db s h)
        max_ctx db s h,
    elim (Bool-cases (max_ctx == 0)) [
      | inl off ↦ rw off (inl (ground arith))
      | inr on ↦ rw on (attempts-Sound max_ctx 2 0 db s)
    ],
  )

  module _ (shrinks : (k n : ℕ) → 0 < n → split_at k n < n) where
    attempt-ends :
        (k : ℕ) (db : Db) (s : Session)
        → ends_with_user s.messages ≡ true
        → ends_with_user
            (compact_attempt estimate_tokens str_args split_at complete prompt k db s).1.messages
          ≡ true
    unfolding compact_attempt
    attempt-ends k db s h =
        elim (compact_session-cases str_args (split_at k) complete 4 2000 prompt db s) [
          | inl same ↦ subst (λ (p : Db × Session). ends_with_user p.1.messages ≡ true) (sym same) h
          | inr (reply, e) ↦
              subst (λ (p : Db × Session). ends_with_user p.1.messages ≡ true) (sym e)
                (replace_old-ends db s (split_point (split_at k) s.messages) reply (
                    split_point-lt (split_at k) s.messages
                      (shrinks k (length s.messages) (nonempty s.messages h)))
                  ∙ h)
        ]

    -- If every compaction keeps at least one message, then a session that ends in the user message of the
    -- turn still does after the budget check, and refuses a user message: a turn that is given up there,
    -- with nothing removed, leaves a session that accepts no further one.
    pub ensure_context_budget-blocks :
        (max_ctx : ℕ) (db : Db) (s : Session) (text : Text) (sender source : String)
        → ends_with_user s.messages ≡ true
        → let (fits, db', s') = checked max_ctx db s in
          add_user_message db' s' text sender source ≡ none
    ensure_context_budget-blocks max_ctx db s text sender source h =
        refused _ _ text sender source (
          budget-keep estimate_tokens str_args split_at complete prompt
            (λ (db : Db) (s : Session). ends_with_user s.messages ≡ true) attempt-ends max_ctx db s
            h)
