-- ===== src/Guardrails.antt =====
-- guardrails.py: tripwire predicates over the text of a message, run in the order of registration.
use lucyd.Base.{
  ◌≡◌, refl, Bool, true, false, Option, none, some, List, [], ◌∷◌, ◌++◌, Text, All, ◌⊎◌, inl, inr,
  if◌then◌else◌, Bool-cases, Option-cases,
}

pub data Scope : Type 0 where
  input output : Scope

-- What a predicate does with a text: it raises (none), or returns whether it trips and the reason.
abbrev pub Predicate : Type 0
Predicate = Text → Option (Bool × Text)

-- _Rule
pub record Rule : Type 0 where
  pub name : Text
  pub predicate : Predicate
  pub scope : Scope

-- GuardrailTripped
pub record GuardrailTripped : Type 0 where
  pub name : Text
  pub scope : Scope
  pub reason : Text

unfoldable pub scope_eq : Scope → Scope → Bool
scope_eq Scope.input Scope.input = true
scope_eq Scope.output Scope.output = true
scope_eq _ _ = false

-- `_register`
unfoldable pub register : Scope → Text → Predicate → List Rule → List Rule
register s n p rules = rules ++ record { name = n; predicate = p; scope = s } ∷ []

-- `some reason` when the rule's predicate returns that it trips: one that raises counts as not tripped
unfoldable pub tripped : Rule → Text → Option Text
tripped r text = elim (r.predicate text) [
  | none ↦ none
  | some (t, reason) ↦ if t then some reason else none
]

-- `_run`: the exception it raises
unfoldable pub run : Scope → Text → List Rule → Option GuardrailTripped
unfolding scope_eq tripped
run s text [] = none
run s text (r ∷ rules) =
    let rest = run s text rules in
    if scope_eq r.scope s
    then elim (tripped r text) [
      | none ↦ rest
      | some reason ↦ some (record { name = r.name; scope = s; reason = reason })
    ]
    else rest

unfoldable pub check_input : Text → List Rule → Option GuardrailTripped
unfolding run
check_input text rules = run Scope.input text rules

unfoldable pub check_output : Text → List Rule → Option GuardrailTripped
unfolding run
check_output text rules = run Scope.output text rules

-- `names`
unfoldable pub names : Option Scope → List Rule → List Text
unfolding scope_eq
names s [] = []
names s (r ∷ rules) =
    let rest = names s rules in
    elim s [ none ↦ r.name ∷ rest | some t ↦ if scope_eq r.scope t then r.name ∷ rest else rest ]

-- A rule that lets the text pass in a scope: it is of the other scope, or does not trip.
abbrev pub Passes : Scope → Text → Rule → Type 0
Passes s text r = (scope_eq r.scope s ≡ false) ⊎ (tripped r text ≡ none)

-- The rule that stops the text: the first of the scope that trips, after rules that let it pass.
pub record Stops (s : Scope) (text : Text) (rules : List Rule) (e : GuardrailTripped) : Type 0 where
  pub earlier : List Rule
  pub rule : Rule
  pub following : List Rule
  pub listed : rules ≡ earlier ++ rule ∷ following
  pub passed : All (Passes s text) earlier
  pub in_scope : scope_eq rule.scope s ≡ true
  pub trips : tripped rule text ≡ some e.reason
  pub named : e.name ≡ rule.name
  pub scoped : e.scope ≡ s

abbrev pub Verdict : Scope → Text → List Rule → Option GuardrailTripped → Type 0
Verdict s text rules none = All (Passes s text) rules
Verdict s text rules (some e) = Stops s text rules e

skip :
    (s : Scope) (text : Text) (r : Rule) (rules : List Rule) (o : Option GuardrailTripped)
    → Passes s text r
    → Verdict s text rules o
    → Verdict s text (r ∷ rules) o
skip s text r rules none p v = (p, v)
skip s text r rules (some e) p v = record {
  earlier = r ∷ v.earlier;
  rule = v.rule;
  following = v.following;
  listed = rw v.listed;
  passed = (p, v.passed);
  in_scope = v.in_scope;
  trips = v.trips;
  named = v.named;
  scoped = v.scoped;
}

-- If running a scope over a text raises, it is for the first rule of that scope that trips, with the
-- rule's name, its reason and the scope; if it raises nothing, every rule is of the other scope or
-- does not trip, where a rule that raises itself counts as not tripping.
pub run-Verdict :
    (s : Scope) (text : Text) (rules : List Rule) → Verdict s text rules (run s text rules)
unfolding run
run-Verdict s text [] = tt
run-Verdict s text (r ∷ rules) = elim (Bool-cases (scope_eq r.scope s)) [
  | inr h ↦ rw h (skip s text r rules (run s text rules) (inl h) (run-Verdict s text rules))
  | inl h ↦ elim (Option-cases (tripped r text)) [
    | inl n ↦ rw (h, n) (skip s text r rules (run s text rules) (inr n) (run-Verdict s text rules))
    | inr (reason, t) ↦
        rw (h, t)
          (record {
            earlier = [];
            rule = r;
            following = rules;
            listed = refl;
            passed = tt;
            in_scope = h;
            trips = t;
            named = refl;
            scoped = refl;
          })
  ]
]
