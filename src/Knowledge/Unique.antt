-- ===== src/Knowledge/Unique.antt =====
-- consolidation.py and tools/memory_write.py: an entity has at most one current value of an attribute.
use lucyd.Base.{
  ◌≤◌, Text, ◌≡◌, refl, Bool, true, false, Option, none, some, List, [], ◌∷◌, text_eq, text_eq_iff,
  Bool-cases, inl, inr, arith, if◌then◌else◌,
}
use lucyd.Knowledge.{
  Fact, Facts, is_current, find_fact, invalidate, insert_fact, Upsert, new, updated, unchanged,
  upsert_over, upsert_fact,
}
use lucyd.Knowledge.Keys.{
  value_of, current_value, count_current, IsKnowledge, same_key, invalidate-Descending,
  count-invalidate, count-same, current-invalidate,
}

pub same_key_self : (e a : Text) → same_key e a e a ≡ true
unfolding same_key
same_key_self e a = grind (arith, text_eq_iff e e, text_eq_iff a a)

-- A new row gives its key its value.
current-insert :
    (entity attribute value source_session : Text) (t : Facts) (e a : Text)
    → current_value e a (insert_fact entity attribute value source_session t).rows
      ≡ (if same_key entity attribute e a then some value else current_value e a t.rows)
unfolding insert_fact current_value find_fact is_current same_key
current-insert entity attribute value source_session t e a =
    elim (Bool-cases (same_key entity attribute e a)) [ inl same ↦ rw same | inr other ↦ rw other ]

insert_fact-IsKnowledge :
    (entity attribute value source_session : Text) (t : Facts)
    → IsKnowledge t
    → count_current entity attribute t.rows ≡ 0
    → IsKnowledge (insert_fact entity attribute value source_session t)
unfolding insert_fact count_current is_current same_key
insert_fact-IsKnowledge entity attribute value source_session t h none_yet = record {
  descending = (omega arith, h.descending);
  unique = at_most_one;
}
  where
    at_most_one :
        (e a : Text)
        → count_current e a (insert_fact entity attribute value source_session t).rows ≤ 1
    at_most_one e a = elim (Bool-cases (same_key entity attribute e a)) [
      | inl same ↦ rw same (omega (arith, count-same entity attribute e a t.rows same))
      | inr other ↦ rw other (h.unique e a)
    ]

count-of_none : (e a : Text) (fs : List Fact) → find_fact e a fs ≡ none → count_current e a fs ≡ 0
unfolding find_fact count_current
count-of_none e a [] h = refl
count-of_none e a (f ∷ fs) h = elim (Bool-cases (is_current e a f)) [
  | inl current ↦ grind arith
  | inr other ↦ rw other (count-of_none e a fs (ground (arith, other)))
]

if-if :
    (b : Bool) (x y z : Option Text) → (if b then x else if b then y else z) ≡ (if b then x else z)
if-if true x y z = refl
if-if false x y z = refl

-- a value that is current already
current-same :
    (entity attribute value e a : Text) (fs : List Fact) (f : Fact)
    → find_fact entity attribute fs ≡ some f
    → text_eq f.value value ≡ true
    → current_value e a fs
      ≡ (if same_key entity attribute e a then some value else current_value e a fs)
unfolding same_key current_value
current-same entity attribute value e a fs f o same =
    grind (arith, text_eq_iff entity e, text_eq_iff attribute a, text_eq_iff f.value value)

-- What `upsert_fact` answers over the value that was current.
unfoldable pub outcome_over : Text → Option Text → Upsert
unfolding text_eq
outcome_over value none = new
outcome_over value (some v) = if text_eq v value then unchanged else updated

upsert_over_lem :
    (entity attribute value source_session : Text) (t : Facts) (o : Option Fact) (e a : Text)
    → IsKnowledge t
    → find_fact entity attribute t.rows ≡ o
    → let (t', result) = upsert_over entity attribute value source_session t o in
      IsKnowledge t'
      × (current_value e a t'.rows
          ≡ (if same_key entity attribute e a then some value else current_value e a t.rows))
      × (result ≡ outcome_over value (value_of o))
unfolding upsert_over outcome_over value_of
upsert_over_lem entity attribute value source_session t none e a h o = (
  insert_fact-IsKnowledge entity attribute value source_session t h
      (count-of_none entity attribute t.rows o),
  current-insert entity attribute value source_session t e a,
  refl,
)
upsert_over_lem entity attribute value source_session t (some f) e a h o =
    elim (Bool-cases (text_eq f.value value)) [
      | inl same ↦ rw same (h, current-same entity attribute value e a t.rows f o same, refl)
      | inr other ↦
          (let u = record t { rows = invalidate f.id t.rows } in
            let (count, taken) =
              current-invalidate entity attribute t.next_id t.rows f e a h.descending
                (h.unique entity attribute) o in
            let kept : IsKnowledge u = record {
              descending = invalidate-Descending t.next_id f.id t.rows h.descending;
              unique = λ x b. omega (arith, count-invalidate x b f.id t.rows, h.unique x b);
            } in
            rw other (
              insert_fact-IsKnowledge entity attribute value source_session u kept count,
              rw (current-insert entity attribute value source_session u e a, taken)
                  (if-if (same_key entity attribute e a) (some value) none
                    (current_value e a t.rows)),
              refl,
            ))
    ]

-- Where the ids come from the serial and no key has two current values, both still hold after an
-- upsert, which gives the key the value, leaves every other key the value it had, and answers by
-- the value that was current: new without one, unchanged on the same one, otherwise updated.
pub upsert_fact_lem :
    (entity attribute value source_session : Text) (t : Facts) (e a : Text)
    → IsKnowledge t
    → let (t', result) = upsert_fact entity attribute value source_session t in
      IsKnowledge t'
      × (current_value e a t'.rows
          ≡ (if same_key entity attribute e a then some value else current_value e a t.rows))
      × (result ≡ outcome_over value (current_value entity attribute t.rows))
unfolding upsert_fact current_value
upsert_fact_lem entity attribute value source_session t e a h =
    upsert_over_lem entity attribute value source_session t (find_fact entity attribute t.rows) e a
      h refl
