-- ===== src/Knowledge/Keys.antt =====
-- consolidation.py: the current value of a key in the table of facts.
use lucyd.Base.{
  ℕ, suc, ◌<◌, ◌≤◌, Text, ◌≡◌, refl, ap, subst, some_inj, Bool, true, false, ◌&&◌, Option, none,
  some, List, [], ◌∷◌, text_eq, text_eq_iff, Bool-cases, inl, inr, arith, ◌==◌, if◌then◌else◌,
}
use lucyd.Knowledge.{Fact, Facts, is_current, find_fact, invalidate}

-- The value that the table gives an entity's attribute.
unfoldable pub value_of : Option Fact → Option Text
value_of none = none
value_of (some f) = some f.value

unfoldable pub current_value : Text → Text → List Fact → Option Text
unfolding value_of find_fact
current_value entity attribute rows = value_of (find_fact entity attribute rows)

unfoldable pub count_current : Text → Text → List Fact → ℕ
unfolding is_current
count_current entity attribute [] = 0
count_current entity attribute (f ∷ fs) =
    let rest = count_current entity attribute fs in
    if is_current entity attribute f then suc rest else rest

-- The ids fall from below a bound: each row was inserted after the ones behind it.
abbrev pub Descending : ℕ → List Fact → Type 0
Descending n [] = Unit
Descending n (f ∷ fs) = (f.id < n) × Descending f.id fs

-- What every operation keeps: the ids come from the serial, and no key has two current values.
pub record IsKnowledge (t : Facts) : Type 0 where
  pub descending : Descending t.next_id t.rows
  pub unique : (entity attribute : Text) → count_current entity attribute t.rows ≤ 1

unfoldable pub same_key : Text → Text → Text → Text → Bool
unfolding text_eq
same_key entity attribute e a = text_eq entity e && text_eq attribute a

module _ (entity attribute e a : Text) where
  pub is_current-other :
      (g : Fact)
      → is_current entity attribute g ≡ true
      → is_current e a g ≡ same_key entity attribute e a
  unfolding is_current same_key
  is_current-other g h =
      grind (arith, text_eq_iff g.entity entity, text_eq_iff g.attribute attribute)

  pub is_current-same :
      (g : Fact)
      → same_key entity attribute e a ≡ true
      → is_current e a g ≡ is_current entity attribute g
  unfolding is_current same_key
  is_current-same g h = grind (arith, text_eq_iff entity e, text_eq_iff attribute a)

none-of_count : (e a : Text) (fs : List Fact) → count_current e a fs ≤ 0 → find_fact e a fs ≡ none
unfolding count_current find_fact
none-of_count e a [] h = refl
none-of_count e a (f ∷ fs) h = elim (Bool-cases (is_current e a f)) [
  | inl current ↦ absurd (ground (arith, current))
  | inr other ↦ rw other (none-of_count e a fs (ground (arith, other)))
]

invalidate-above : (n i : ℕ) (fs : List Fact) → Descending n fs → n ≤ i → invalidate i fs ≡ fs
unfolding invalidate
invalidate-above n i [] d h = refl
invalidate-above n i (f ∷ fs) (lt, d) h = elim (Bool-cases (f.id == i)) [
  | inl same ↦ absurd (ground arith)
  | inr other ↦
      rw other (ap (λ (r : List Fact). f ∷ r) (invalidate-above f.id i fs d (omega arith)))
]

find_fact-below :
    (e a : Text) (n : ℕ) (fs : List Fact) (f : Fact)
    → Descending n fs
    → find_fact e a fs ≡ some f
    → f.id < n
unfolding find_fact
find_fact-below e a n [] f d h = cc
find_fact-below e a n (g ∷ gs) f (lt, d) h = elim (Bool-cases (is_current e a g)) [
  | inl current ↦ grind arith
  | inr other ↦
      (let below : f.id < g.id = find_fact-below e a g.id gs f d (grind arith) in omega arith)
]

pub invalidate-Descending :
    (n i : ℕ) (fs : List Fact) → Descending n fs → Descending n (invalidate i fs)
unfolding invalidate
invalidate-Descending n i [] d = d
invalidate-Descending n i (f ∷ fs) (lt, d) = elim (Bool-cases (f.id == i)) [
  | inl same ↦ rw same (lt, invalidate-Descending f.id i fs d)
  | inr other ↦ rw other (lt, invalidate-Descending f.id i fs d)
]

pub count-invalidate :
    (e a : Text) (i : ℕ) (fs : List Fact)
    → count_current e a (invalidate i fs) ≤ count_current e a fs
unfolding invalidate count_current is_current
count-invalidate e a i [] = omega arith
count-invalidate e a i (f ∷ fs) = ground (arith, count-invalidate e a i fs)

eq_self : (n : ℕ) → (n == n) ≡ true
eq_self n = ground arith

module _ (entity attribute : Text) where
  pub count-same :
      (e a : Text) (fs : List Fact)
      → same_key entity attribute e a ≡ true
      → count_current e a fs ≡ count_current entity attribute fs
  unfolding count_current
  count-same e a [] h = refl
  count-same e a (f ∷ fs) h = rw (is_current-same entity attribute e a f h, count-same e a fs h)

  -- the key of the first row, with no other current row of that key
  first-invalidate :
      (g : Fact) (gs : List Fact) (e a : Text)
      → Descending g.id gs
      → count_current entity attribute gs ≤ 0
      → is_current entity attribute g ≡ true
      → (count_current entity attribute (invalidate g.id (g ∷ gs)) ≡ 0)
        × (current_value e a (invalidate g.id (g ∷ gs))
            ≡ (if same_key entity attribute e a then none else current_value e a (g ∷ gs)))
  unfolding invalidate count_current find_fact is_current current_value
  first-invalidate g gs e a d u current =
      rw
        (
          eq_self g.id,
          invalidate-above g.id g.id gs d (omega arith),
          is_current-other entity attribute e a g current,
        )
        (
          omega arith,
          elim (Bool-cases (same_key entity attribute e a)) [
            | inl same ↦ rw (same, none-of_count e a gs (omega (arith, count-same e a gs same)))
            | inr other ↦ rw other
          ],
        )

  pub distinct :
      (g : Fact) (e a : Text)
      → is_current e a g ≡ true
      → is_current entity attribute g ≡ false
      → same_key entity attribute e a ≡ false
  distinct g e a current other = grind (arith, is_current-same entity attribute e a g)

  -- Taking back the current fact of a key takes its value, and no other one.
  pub current-invalidate :
      (n : ℕ) (fs : List Fact) (f : Fact) (e a : Text)
      → Descending n fs
      → count_current entity attribute fs ≤ 1
      → find_fact entity attribute fs ≡ some f
      → (count_current entity attribute (invalidate f.id fs) ≡ 0)
        × (current_value e a (invalidate f.id fs)
            ≡ (if same_key entity attribute e a then none else current_value e a fs))
  unfolding find_fact count_current invalidate current_value
  current-invalidate n [] f e a d u h = cc
  current-invalidate n (g ∷ gs) f e a (lt, d) u h =
      elim (Bool-cases (is_current entity attribute g)) [
        | inl current ↦
            (let found : g ≡ f = some_inj (
                subst (λ b. (if b then some g else find_fact entity attribute gs) ≡ some f) current
                  h) in
              subst
                (λ (x : Fact).
                  (count_current entity attribute (invalidate x.id (g ∷ gs)) ≡ 0)
                  × (current_value e a (invalidate x.id (g ∷ gs)) ≡ (
                      if same_key entity attribute e a then none else current_value e a (g ∷ gs))))
                found (first-invalidate g gs e a d (ground (arith, current)) current))
        | inr other ↦
            (let later : find_fact entity attribute gs ≡ some f = ground (arith, other) in
              let below : f.id < g.id = find_fact-below entity attribute g.id gs f d later in
              let (count, value) =
                current-invalidate g.id gs f e a d (ground (arith, other)) later in
              let kept : (g.id == f.id) ≡ false = ground arith in
              rw (kept, other)
                (
                  count,
                  elim (Bool-cases (is_current e a g)) [
                    | inl current ↦ rw (current, distinct g e a current other)
                    | inr neither ↦ rw neither value
                  ],
                ))
      ]
