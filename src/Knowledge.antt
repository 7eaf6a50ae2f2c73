-- ===== src/Knowledge.antt =====
-- consolidation.py, tools/memory_write.py and the entity names of memory.py: the facts an agent keeps.
pub mod Keys
pub mod Unique
pub mod Forget
pub mod Harvest
use lucyd.Base.{
  ℕ, suc, String, Text, Bool, true, false, ◌&&◌, not, Option, none, some, List, [], ◌∷◌, ◌++◌, map,
  any, lit, text_eq, is_empty, ◌==◌, if◌then◌else◌,
}
use lucyd.Tools.Truncate.{strip}

-- A row of knowledge.facts, less its confidence and its times; `valid` is `invalidated_at IS NULL`.
pub record Fact : Type 0 where
  pub id : ℕ
  pub entity : Text
  pub attribute : Text
  pub value : Text
  pub source_session : Text
  pub valid : Bool

-- The table, the newest row first, and what its serial gives next.
pub record Facts : Type 0 where
  pub rows : List Fact
  pub next_id : ℕ

-- `entity = $1 AND attribute = $2 AND invalidated_at IS NULL`
unfoldable pub is_current : Text → Text → Fact → Bool
unfolding text_eq
is_current entity attribute f =
    f.valid && (text_eq f.entity entity && text_eq f.attribute attribute)

-- `fetchrow` of these rows
unfoldable pub find_fact : Text → Text → List Fact → Option Fact
unfolding is_current
find_fact entity attribute [] = none
find_fact entity attribute (f ∷ fs) =
    let rest = find_fact entity attribute fs in
    if is_current entity attribute f then some f else rest

-- `SET invalidated_at = now() WHERE id = $1`
unfoldable pub invalidate : ℕ → List Fact → List Fact
invalidate i [] = []
invalidate i (f ∷ fs) = (if f.id == i then record f { valid = false } else f) ∷ invalidate i fs

unfoldable pub insert_fact : Text → Text → Text → Text → Facts → Facts
insert_fact entity attribute value source_session t = record {
  rows =
      record {
        id = t.next_id;
        entity = entity;
        attribute = attribute;
        value = value;
        source_session = source_session;
        valid = true;
      }
      ∷ t.rows;
  next_id = suc t.next_id;
}

pub data Upsert : Type 0 where
  new updated unchanged : Upsert

-- what follows the query of `upsert_fact`
unfoldable pub upsert_over : Text → Text → Text → Text → Facts → Option Fact → Facts × Upsert
unfolding insert_fact invalidate text_eq
upsert_over entity attribute value source_session t none =
    (insert_fact entity attribute value source_session t, new)
upsert_over entity attribute value source_session t (some f) =
    if text_eq f.value value then (t, unchanged) else (
      insert_fact entity attribute value source_session
          (record t { rows = invalidate f.id t.rows }),
      updated,
    )

-- `upsert_fact`
unfoldable pub upsert_fact : Text → Text → Text → Text → Facts → Facts × Upsert
unfolding upsert_over find_fact
upsert_fact entity attribute value source_session t =
    upsert_over entity attribute value source_session t (find_fact entity attribute t.rows)

-- The aliases, by their normalized names, Python's `str.lower`, and the user's entity, if one is set.
pub record Naming : Type 0 where
  pub lower : Text → Text
  pub aliases : List (Text × Text)
  pub user_entity : Text

-- `.replace(" ", "_")`
unfoldable pub underscored : Text → Text
underscored s = map (λ c. if c == 32 then 95 else c) s

-- `_normalize_entity`
unfoldable pub normalize_entity : Naming → Text → Text
unfolding underscored strip
normalize_entity n name = underscored (strip (n.lower name))

-- `SELECT canonical FROM knowledge.entity_aliases WHERE alias = $1`
unfoldable pub canonical_of : Text → List (Text × Text) → Option Text
unfolding text_eq
canonical_of alias [] = none
canonical_of alias ((a, canonical) ∷ rest) =
    let found = canonical_of alias rest in if text_eq a alias then some canonical else found

-- `resolve_entity` of memory.py
unfoldable pub resolve_alias : Naming → Text → Text
unfolding normalize_entity canonical_of
resolve_alias n name = elim (canonical_of (normalize_entity n name) n.aliases) [
  | none ↦ normalize_entity n name
  | some canonical ↦ canonical
]

-- `_resolve_entity` of tools/memory_write.py
unfoldable pub resolve_entity : Naming → Text → Text
unfolding resolve_alias normalize_entity text_eq
resolve_entity n name =
    if not (is_empty n.user_entity) && text_eq (normalize_entity n name) n.user_entity
    then n.user_entity
    else resolve_alias n name

-- `f"{entity}.{attribute}"`
unfoldable pub named : Text → Text → Text
unfolding lit
named entity attribute = entity ++ (lit "." ++ attribute)

unfoldable pub old_value : Option Fact → Text
unfolding lit
old_value none = lit "None"
old_value (some f) = f.value

-- `handle_memory_write`, with a database
unfoldable pub handle_memory_write : Naming → Text → Text → Text → Facts → Facts × Text
unfolding resolve_entity normalize_entity upsert_fact find_fact named old_value lit
handle_memory_write n name attr value t =
    let entity = resolve_entity n name in
    let attribute = normalize_entity n attr in
    let existing = find_fact entity attribute t.rows in
    let (t', result) = upsert_fact entity attribute value (lit "agent") t in
    (
      t',
      elim result [
        | unchanged ↦ lit "Already known: " ++ (named entity attribute ++ (lit " = " ++ value))
        | updated ↦
            lit "Updated: "
            ++ (named entity attribute
                ++ (lit " = " ++ (value ++ (lit " (was: " ++ (old_value existing ++ lit ")")))))
        | new ↦ lit "Stored: " ++ (named entity attribute ++ (lit " = " ++ value))
      ],
    )

-- the `UPDATE` of `handle_memory_forget`
unfoldable pub forget : Text → Text → List Fact → List Fact
unfolding is_current
forget entity attribute [] = []
forget entity attribute (f ∷ fs) =
    (if is_current entity attribute f then record f { valid = false } else f)
    ∷ forget entity attribute fs

-- `handle_memory_forget`, with a database
unfoldable pub handle_memory_forget : Naming → Text → Text → Facts → Facts × Text
unfolding resolve_entity normalize_entity forget is_current named lit
handle_memory_forget n name attr t =
    let entity = resolve_entity n name in
    let attribute = normalize_entity n attr in
    (
      record t { rows = forget entity attribute t.rows },
      if any (is_current entity attribute) t.rows
          then lit "Forgotten: " ++ named entity attribute
          else lit "No current fact found for " ++ named entity attribute,
    )
