-- ===== src/Examples/Dispatching.antt =====
-- The theorems on the queue, the guardrails and the tools, applied to small inputs.
use lucyd.Base.{
  ◌≡◌, ◌⊎◌, refl, arith, ℕ, ◌+◌, ◌*◌, ◌/◌, ◌≤◌, String, Text, Bool, true, false, Option, none, some,
  List, [], ◌∷◌, lit, length, starts_with, ltb,
}
use lucyd.Message.{Json, Items, nil, cons, end, object, number, array}
use lucyd.Pipeline.{Talker}
use lucyd.Queue.{Item, Entry, Queue, tier_of, prioritize, full, put_nowait}
use lucyd.Queue.Tiers.{Lines, Implements, enqueue, put_nowait-Implements}
use lucyd.Guardrails.{Scope, Rule}
use lucyd.Tools.{ToolSpec, ToolRegistry, Outcome, Result}
use lucyd.Tools.Truncate.{count, fits, shown, truncate_json}
use lucyd.Tools.Fitting.{truncate_json-Found}

-- the parameters: no string is a number or JSON, the floats are exact, and a character is a token
abbrev no_number : Text → Option Text
no_number s = none

abbrev same : Text → Text
same s = s

abbrev no_json : Text → Option Json
no_json s = none

abbrev empty_list : Json → Text
empty_list j = lit "[]"

abbrev seven_tenths : ℕ → ℕ
seven_tenths n = n * 7 / 10

abbrev far : ℕ → ℕ → Bool
far i n = ltb (n * 8) (i * 10)

abbrev share : ℕ → ℕ → ℕ → ℕ
share n most est = n * most / est

abbrev from : Talker → Option Item
from t = some (record { talker = some t; payload = "hi"; queued_at = none; tier = none })

abbrev entry : ℕ → ℕ → Option Item → Entry
entry p n i = record { priority = p; seq = n; item = i }

-- a user's message, one of the system and a sentinel are waiting
abbrev lines : Lines
lines = record {
  users = entry 0 2 (from Talker.user) ∷ [];
  systems = entry 1 1 (from Talker.system) ∷ [];
  sentinels = entry 2 3 none ∷ [];
}

abbrev waiting : Queue
waiting = record {
  maxsize = 10;
  seq = 3;
  entries = entry 0 2 (from Talker.user) ∷ entry 1 1 (from Talker.system) ∷ entry 2 3 none ∷ [];
}

waiting-Implements : Implements waiting lines
waiting-Implements =
    (refl, ((refl, omega arith), tt), ((refl, omega arith), tt), ((refl, omega arith), tt))

put_nowait-Implements_example :
    (Implements
      (put_nowait 7 (from Talker.user) waiting).0
      (enqueue (tier_of (from Talker.user)) (prioritize 7 (from Talker.user) waiting).0 lines))
    × ((put_nowait 7 (from Talker.user) waiting).1 ≡ true)
unfolding full
put_nowait-Implements_example =
    put_nowait-Implements 7 (from Talker.user) waiting lines waiting-Implements refl

abbrev rules : List Rule
rules =
    record { name = lit "broken"; predicate = λ t. none; scope = Scope.input }
    ∷ record {
      name = lit "no_shouting";
      predicate = λ t. some (starts_with t (lit "HEY"), lit "shouting");
      scope = Scope.input;
    }
    ∷ []

abbrev tool : String → Outcome → ToolSpec
tool name outcome = record {
  name = name;
  description = lit "";
  input_schema = object end;
  function = λ arguments. outcome;
  max_output = 0;
  talkers = none;
}

abbrev registry : ToolRegistry
registry = record {
  tools = ("broken", tool "broken" (Outcome.raised (lit "KeyError"))) ∷ [];
  truncation_limit = 100;
  max_result_tokens = 0;
}

abbrev echo : ToolSpec
echo = tool "echo" (Outcome.returned (Result.string (lit "hello")))

abbrev printed : Json → Text
printed (array Items.nil) = lit "[]"
printed (array (Items.cons x Items.nil)) = lit "[1]"
printed (array (Items.cons x (Items.cons y xs))) = lit "[1, 1, 1, 1, 1]"
printed _ = lit "1"

abbrev ones : Items
ones = cons (number (lit "1")) (cons (number (lit "1")) nil)

truncate_json-Found_example :
    ((truncate_json no_json printed seven_tenths far (array ones) 36 ≡ lit "[]")
      × (fits no_json printed seven_tenths far 36 ones 0 ≡ false))
    ⊎ ((n : ℕ) × (n ≤ count ones)
        × (truncate_json no_json printed seven_tenths far (array ones) 36
            ≡ shown no_json printed seven_tenths far ones n)
        × (length (truncate_json no_json printed seven_tenths far (array ones) 36) ≤ 36)
        × ((n ≡ count ones) ⊎ (fits no_json printed seven_tenths far 36 ones (n + 1) ≡ false)))
truncate_json-Found_example = truncate_json-Found no_json printed seven_tenths far ones 36
