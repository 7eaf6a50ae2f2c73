-- ===== src/Examples/Budgets.antt =====
-- The theorems on the budget check, applied to ann's session after a question.
use lucyd.Base.{
  ◌≡◌, ◌<◌, refl, arith, ℕ, zero, suc, ◌-◌, ◌/◌, Text, Option, none, some, [], ◌∷◌, lit, length,
}
use lucyd.Message.{Json, Usage, no_usage}
use lucyd.Session.{add_user_message, ends_with_user}
use lucyd.Session.Sync.{IsSynced}
use lucyd.Pipeline.Budget.Checked.{
  checked, Sound, ensure_context_budget-IsSynced, ensure_context_budget-blocks,
}
use lucyd.Examples.{hi, hello, holding, tables, stored}
use lucyd.Store.{Db, rows_of, rows_from}
use lucyd.Message.{persisted}
use lucyd.Session.{Session}

abbrev braces : Json → Text
braces a = lit "{}"

-- a compaction keeps half of the messages, the second one their last
abbrev half : ℕ → ℕ → ℕ
half zero n = n / 2
half (suc k) n = n - 1

abbrev summarise : Text → Option (Option Text × Usage)
summarise t = some (some (lit "ann said hi"), no_usage)

abbrev asking : Session
asking = holding (hi ∷ hello ∷ hi ∷ hello ∷ hi ∷ []) 5

abbrev asking_tables : Db
asking_tables = record tables {
  messages = stored 0 hi ∷ stored 1 hello ∷ stored 2 hi ∷ stored 3 hello ∷ stored 4 hi ∷ [];
}

asking-IsSynced : IsSynced asking_tables asking
unfolding rows_from rows_of persisted
asking-IsSynced = record { rows = refl; count = refl }

half-lt : (k n : ℕ) → 0 < n → half k n < n
half-lt zero n h = omega arith
half-lt (suc k) n h = omega arith

ensure_context_budget-IsSynced_example :
    let (fits, db', s') =
      checked length braces half summarise (lit "Sum up.") 5 asking_tables asking in
    IsSynced db' s' × Sound length braces half summarise (lit "Sum up.") 5 fits s'
ensure_context_budget-IsSynced_example =
    ensure_context_budget-IsSynced length braces half summarise (lit "Sum up.") 5 asking_tables
      asking asking-IsSynced

ensure_context_budget-blocks_example :
    let (fits, db', s') =
      checked length braces half summarise (lit "Sum up.") 5 asking_tables asking in
    add_user_message db' s' (lit "more?") "ann" "http" ≡ none
unfolding ends_with_user
ensure_context_budget-blocks_example =
    ensure_context_budget-blocks length braces half summarise (lit "Sum up.") half-lt 5
      asking_tables asking (lit "more?") "ann" "http" refl
