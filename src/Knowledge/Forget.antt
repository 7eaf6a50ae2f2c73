-- ===== src/Knowledge/Forget.antt =====
-- tools/memory_write.py: a fact that is written and forgotten again.
use lucyd.Base.{
  ℕ, ◌≤◌, Text, ◌≡◌, ◌∙◌, refl, sym, subst, Bool, true, false, Option, none, some, List, [], ◌∷◌,
  ◌++◌, any, lit, Bool-cases, inl, inr, arith, if◌then◌else◌,
}
use lucyd.Knowledge.{
  Fact, Facts, is_current, find_fact, upsert_fact, Naming, resolve_entity, normalize_entity,
  handle_memory_write, forget, handle_memory_forget, named,
}
use lucyd.Knowledge.Keys.{
  value_of, current_value, count_current, Descending, IsKnowledge, same_key, is_current-other,
  distinct,
}
use lucyd.Knowledge.Unique.{same_key_self, upsert_fact_lem}

skip-taken :
    (b : Bool) (f : Fact) (o : Option Fact)
    → (if b then none else value_of (if b then some f else o)) ≡ (if b then none else value_of o)
skip-taken true f o = refl
skip-taken false f o = refl

if-taken :
    (b : Bool) (x y : Option Text)
    → (if b then none else if b then x else y) ≡ (if b then none else y)
if-taken true x y = refl
if-taken false x y = refl

forget-Descending :
    (entity attribute : Text) (n : ℕ) (fs : List Fact)
    → Descending n fs
    → Descending n (forget entity attribute fs)
unfolding forget
forget-Descending entity attribute n [] d = d
forget-Descending entity attribute n (f ∷ fs) (lt, d) =
    elim (Bool-cases (is_current entity attribute f)) [
      | inl current ↦ rw current (lt, forget-Descending entity attribute f.id fs d)
      | inr other ↦ rw other (lt, forget-Descending entity attribute f.id fs d)
    ]

count-forget :
    (entity attribute e a : Text) (fs : List Fact)
    → count_current e a (forget entity attribute fs) ≤ count_current e a fs
unfolding forget count_current is_current
count-forget entity attribute e a [] = omega arith
count-forget entity attribute e a (f ∷ fs) = ground (arith, count-forget entity attribute e a fs)

current-forget :
    (entity attribute e a : Text) (fs : List Fact)
    → current_value e a (forget entity attribute fs)
      ≡ (if same_key entity attribute e a then none else current_value e a fs)
unfolding forget current_value find_fact
current-forget entity attribute e a [] = ground arith
current-forget entity attribute e a (f ∷ fs) = elim (Bool-cases (is_current entity attribute f)) [
  | inl current ↦
      rw (current, is_current-other entity attribute e a f current)
        (current-forget entity attribute e a fs
          ∙ sym (skip-taken (same_key entity attribute e a) f (find_fact e a fs)))
  | inr other ↦ elim (Bool-cases (is_current e a f)) [
    | inl current ↦ rw (other, current, distinct entity attribute f e a current other)
    | inr neither ↦ rw (other, neither) (current-forget entity attribute e a fs)
  ]
]

forget-IsKnowledge :
    (entity attribute : Text) (t : Facts)
    → IsKnowledge t
    → IsKnowledge (record t { rows = forget entity attribute t.rows })
forget-IsKnowledge entity attribute t h = record {
  descending = forget-Descending entity attribute t.next_id t.rows h.descending;
  unique = λ e a. omega (arith, count-forget entity attribute e a t.rows, h.unique e a);
}

any-of_current :
    (e a value : Text) (fs : List Fact)
    → current_value e a fs ≡ some value
    → any (is_current e a) fs ≡ true
unfolding current_value find_fact value_of
any-of_current e a value [] h = cc
any-of_current e a value (f ∷ fs) h = elim (Bool-cases (is_current e a f)) [
  | inl current ↦ rw current
  | inr other ↦ rw other (
      any-of_current e a value fs
        (subst (λ b. value_of (if b then some f else find_fact e a fs) ≡ some value) other h))
]

-- A fact that is written and then forgotten under the same names is reported as forgotten, its key
-- has no current value, every other key has the value from before, and both conditions on the
-- table, that the ids come from the serial and that no key has two current values, are kept.
pub handle_memory_forget-write :
    (n : Naming) (name attr value : Text) (t : Facts) (e a : Text)
    → IsKnowledge t
    → let entity = resolve_entity n name in
      let attribute = normalize_entity n attr in
      let (t', stored) = handle_memory_write n name attr value t in
      let (t'', reply) = handle_memory_forget n name attr t' in
      IsKnowledge t''
      × (current_value e a t''.rows
          ≡ (if same_key entity attribute e a then none else current_value e a t.rows))
      × (reply ≡ lit "Forgotten: " ++ named entity attribute)
unfolding handle_memory_write handle_memory_forget
handle_memory_forget-write n name attr value t e a h =
    let entity = resolve_entity n name in
    let attribute = normalize_entity n attr in
    let t' = (upsert_fact entity attribute value (lit "agent") t).0 in
    let (kept, wrote, result) = upsert_fact_lem entity attribute value (lit "agent") t e a h in
    let (again, own, result') =
      upsert_fact_lem entity attribute value (lit "agent") t entity attribute h in
    let written : current_value entity attribute t'.rows ≡ some value =
      own ∙ rw (same_key_self entity attribute) in
    (
      forget-IsKnowledge entity attribute t' kept,
      rw (current-forget entity attribute e a t'.rows, wrote)
          (if-taken (same_key entity attribute e a) (some value) (current_value e a t.rows)),
      rw (any-of_current entity attribute value t'.rows written),
    )
