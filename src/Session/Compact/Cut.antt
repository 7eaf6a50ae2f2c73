-- ===== src/Session/Compact/Cut.antt =====
-- session.py, `compact_session`: where the messages are cut.
use lucyd.Base.{
  ℕ, zero, suc, ◌+◌, ◌≡◌, ◌∙◌, sym, refl, ap, subst, ◌⊎◌, inl, inr, true, false, some, List, [],
  ◌∷◌, map, arith, drop, get_last?, Bool-cases, if◌then◌else◌,
}
use lucyd.Message.{Message, user, agent, tool_result, is_tool_result, calls_tools}
use lucyd.Session.{last_usage}
use lucyd.Session.Turns.{IsPaired, nil, plain, pair, calls_tools-not_result}
use lucyd.Session.Compact.{skip_results, without_usage}

-- The messages from the moved split point on.
pub skip_rest : List Message → List Message
skip_rest [] = []
skip_rest (m ∷ []) = m ∷ []
skip_rest (m ∷ n ∷ rest) =
    let next = skip_rest (n ∷ rest) in if is_tool_result m then next else m ∷ n ∷ rest

drop-suc :
    (k : ℕ) (ms : List Message) {m : Message} {l : List Message}
    → drop k ms ≡ m ∷ l
    → drop (suc k) ms ≡ l
drop-suc zero [] h = cc
drop-suc zero (x ∷ xs) h = cc
drop-suc (suc k) [] h = cc
drop-suc (suc k) (x ∷ xs) h = drop-suc k xs h

drop-next :
    (k : ℕ) (ms : List Message) {m : Message} {l : List Message}
    → drop k ms ≡ m ∷ l
    → drop (k + 1) ms ≡ l
drop-next k ms h = let e : k + 1 ≡ suc k = omega arith in rw e (drop-suc k ms h)

pub drop-skip_results :
    (k : ℕ) (ms l : List Message) → drop k ms ≡ l → drop (skip_results k l) ms ≡ skip_rest l
unfolding skip_results skip_rest
drop-skip_results k ms [] h = h
drop-skip_results k ms (m ∷ []) h = h
drop-skip_results k ms (m ∷ n ∷ rest) h = elim (Bool-cases (is_tool_result m)) [
  | inl r ↦ rw r (drop-skip_results (k + 1) ms (n ∷ rest) (drop-next k ms h))
  | inr r ↦ rw r h
]

-- A cut falls between two turns, or inside a pair.
drop-IsPaired :
    {ms : List Message} (k : ℕ)
    → IsPaired ms
    → IsPaired (drop k ms)
      ⊎ ((r : Message) × (rest : List Message) × (drop k ms ≡ r ∷ rest)
          × (is_tool_result r ≡ true)
          × IsPaired rest)
drop-IsPaired zero p = inl p
drop-IsPaired (suc k) nil = inl nil
drop-IsPaired (suc k) (plain c r p) = drop-IsPaired k p
drop-IsPaired (suc zero) (pair {r = x} {ms = ms} c r p) = inr (x, ms, refl, r, p)
drop-IsPaired (suc (suc k)) (pair c r p) = drop-IsPaired k p

skip_rest-IsPaired : {ms : List Message} → IsPaired ms → skip_rest ms ≡ ms
unfolding skip_rest
skip_rest-IsPaired nil = refl
skip_rest-IsPaired (plain {ms = []} c r p) = refl
skip_rest-IsPaired (plain {ms = n ∷ ms} c r p) = rw r
skip_rest-IsPaired (pair {m = m} c r p) = rw (calls_tools-not_result m c)

get_last?-drop :
    (k : ℕ) (ms : List Message) {m : Message} {l : List Message}
    → drop k ms ≡ m ∷ l
    → get_last? ms ≡ get_last? (m ∷ l)
get_last?-drop zero ms h = ap get_last? h
get_last?-drop (suc k) [] h = cc
get_last?-drop (suc zero) (x ∷ []) h = cc
get_last?-drop (suc (suc k)) (x ∷ []) h = cc
get_last?-drop (suc k) (x ∷ y ∷ ms) h = get_last?-drop k (y ∷ ms) h

-- A cut inside a pair goes on to the end of the pair.
inside :
    (r : Message) (rest : List Message)
    → is_tool_result r ≡ true
    → IsPaired rest
    → ¬ (get_last? (r ∷ rest) ≡ some r)
    → IsPaired (skip_rest (r ∷ rest))
unfolding skip_rest
inside r [] h q more = absurd (more refl)
inside r (n ∷ rest) h q more = rw h (subst IsPaired (sym (skip_rest-IsPaired q)) q)

-- The recent part of a well-paired list is well paired, unless the list ends in a tool result.
pub skip_rest-drop-IsPaired :
    (k : ℕ) (ms : List Message)
    → IsPaired ms
    → ((r : Message) → get_last? ms ≡ some r → is_tool_result r ≡ false)
    → IsPaired (skip_rest (drop k ms))
skip_rest-drop-IsPaired k ms p last = elim (drop-IsPaired k p) [
  | inl whole ↦ subst IsPaired (sym (skip_rest-IsPaired whole)) whole
  | inr (r, rest, cut, result, q) ↦
      rw cut (inside r rest result q (λ e. cc (last r (get_last?-drop k ms cut ∙ e), result)))
]

without_usage-calls : (m : Message) → calls_tools (without_usage m) ≡ calls_tools m
unfolding without_usage calls_tools
without_usage-calls (user u) = refl
without_usage-calls (agent a) = refl
without_usage-calls (tool_result rs) = refl

without_usage-result : (m : Message) → is_tool_result (without_usage m) ≡ is_tool_result m
unfolding without_usage is_tool_result
without_usage-result (user u) = refl
without_usage-result (agent a) = refl
without_usage-result (tool_result rs) = refl

pub map-without_usage-IsPaired : {ms : List Message} → IsPaired ms → IsPaired (map without_usage ms)
map-without_usage-IsPaired nil = nil
map-without_usage-IsPaired (plain {m = m} c r p) =
    plain (without_usage-calls m ∙ c) (without_usage-result m ∙ r) (map-without_usage-IsPaired p)
map-without_usage-IsPaired (pair {m = m} {r = n} c r p) =
    pair (without_usage-calls m ∙ c) (without_usage-result n ∙ r) (map-without_usage-IsPaired p)

pub last_usage-without_usage : (ms : List Message) → last_usage 0 (map without_usage ms) ≡ 0
unfolding last_usage without_usage
last_usage-without_usage [] = refl
last_usage-without_usage (user u ∷ ms) = last_usage-without_usage ms
last_usage-without_usage (agent a ∷ ms) = last_usage-without_usage ms
last_usage-without_usage (tool_result rs ∷ ms) = last_usage-without_usage ms
