-- ===== src/Session/Turns.antt =====
-- session.py, `_validate_turn_structure`: the lists in which it finds nothing to log.
use lucyd.Base.{◌≡◌, refl, true, false, List, [], ◌∷◌, ◌++◌, arith, Bool-cases, inl, inr, ◌↔◌}
use lucyd.Message.{Message, user, agent, tool_result, is_tool_result, calls_tools}
use lucyd.Session.{corruptions}

-- Every message that calls tools is answered by the next one, and nothing else is a tool result.
pub data IsPaired : List Message → Type 0 where
  nil : IsPaired []
  plain :
      {m : Message} {ms : List Message}
      → calls_tools m ≡ false
      → is_tool_result m ≡ false
      → IsPaired ms
      → IsPaired (m ∷ ms)
  pair :
      {m r : Message} {ms : List Message}
      → calls_tools m ≡ true
      → is_tool_result r ≡ true
      → IsPaired ms
      → IsPaired (m ∷ r ∷ ms)

pub calls_tools-not_result : (m : Message) → calls_tools m ≡ true → is_tool_result m ≡ false
unfolding calls_tools is_tool_result
calls_tools-not_result (user u) h = refl
calls_tools-not_result (agent a) h = refl
calls_tools-not_result (tool_result rs) h = cc

pub IsPaired-corruptions : {ms : List Message} → IsPaired ms → corruptions ms ≡ 0
unfolding corruptions
IsPaired-corruptions nil = refl
IsPaired-corruptions (plain {m = m} {ms = []} c r p) = rw (c, r)
IsPaired-corruptions (plain {m = m} {ms = n ∷ ms} c r p) = rw (c, r) (IsPaired-corruptions p)
IsPaired-corruptions (pair {m = m} {r = n} c r p) = rw (c, r) (IsPaired-corruptions p)

pub corruptions-IsPaired : (ms : List Message) → corruptions ms ≡ 0 → IsPaired ms
unfolding corruptions
corruptions-IsPaired [] h = nil
corruptions-IsPaired (m ∷ []) h = plain (ground arith) (ground arith) nil
corruptions-IsPaired (m ∷ n ∷ ms) h = elim (Bool-cases (calls_tools m)) [
  | inl c ↦ pair c (ground arith) (corruptions-IsPaired ms (ground arith))
  | inr c ↦ plain c (ground arith) (corruptions-IsPaired (n ∷ ms) (ground arith))
]

pub IsPaired-append : {ms ns : List Message} → IsPaired ms → IsPaired ns → IsPaired (ms ++ ns)
IsPaired-append nil q = q
IsPaired-append (plain c r p) q = plain c r (IsPaired-append p q)
IsPaired-append (pair c r p) q = pair c r (IsPaired-append p q)

-- _validate_turn_structure finds no corruption in a list exactly when it is well paired.
pub IsPaired-iff : (ms : List Message) → (corruptions ms ≡ 0) ↔ IsPaired ms
IsPaired-iff ms = (corruptions-IsPaired ms, IsPaired-corruptions)
