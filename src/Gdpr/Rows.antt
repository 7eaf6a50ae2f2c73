-- ===== src/Gdpr/Rows.antt =====
-- tools/gdpr.py: the rows that a deletion or an update by id leaves.
use lucyd.Base.{
  ℕ, ◌≡◌, ◌∙◌, refl, ap, sym, Text, Bool, true, not, Option, none, some, List, [], ◌∷◌, map,
  filter_by, ◌==◌, Bool-cases, inl, inr, arith, some_inj, ◌++◌,
}
use lucyd.Knowledge.{Fact}
use lucyd.Gdpr.{
  Episode, JsonRow, delete_id, consed, update_id, fact_id, episode_id, row_id, redact_fact,
  redact_json, redact_episode,
}

module _ {A : Type 0} (id_of : A → ℕ) (id : ℕ) where
  -- the rows with another id
  abbrev pub others : List A → List A
  others xs = filter_by (λ x. not (id_of x == id)) xs

  pub delete_id-others : (xs : List A) → others (delete_id id_of id xs) ≡ others xs
  unfolding delete_id
  delete_id-others [] = refl
  delete_id-others (x ∷ xs) = elim (Bool-cases (id_of x == id)) [
    | inl same ↦ simp (same, delete_id-others xs)
    | inr other ↦ simp (other, delete_id-others xs)
  ]

  -- what an update leaves, if it does not fail
  abbrev pub Keeps : List A → Option (List A) → Type 0
  Keeps xs o = elim o [
    | none ↦ Unit
    | some ys ↦ (others ys ≡ others xs) × (map id_of ys ≡ map id_of xs)
  ]

  others-cons : (y : A) (ys : List A) → others (y ∷ ys) ≡ others (y ∷ []) ++ others ys
  others-cons y ys = elim (Bool-cases (id_of y == id)) [
    | inl same ↦ rw same refl
    | inr other ↦ rw other refl
  ]

  -- the same of one row
  abbrev RowKeeps : A → Option A → Type 0
  RowKeeps x o = elim o [
    | none ↦ Unit
    | some y ↦ (id_of y ≡ id_of x) × (others (y ∷ []) ≡ others (x ∷ []))
  ]

  consed-Keeps :
      (x : A) (xs : List A) (o : Option A) (rest : Option (List A))
      → RowKeeps x o
      → Keeps xs rest
      → Keeps (x ∷ xs) (consed o rest)
  unfolding consed
  consed-Keeps x xs none rest row h = tt
  consed-Keeps x xs (some y) none row h = tt
  consed-Keeps x xs (some y) (some ys) (same, kept) (left, ids) = (
    others-cons y ys
        ∙ (ap (λ r. others (y ∷ []) ++ r) left
            ∙ (ap (λ r. r ++ others xs) kept ∙ sym (others-cons x xs))),
    cc,
  )

  -- A change that keeps the id keeps the row's place.
  changed-RowKeeps :
      (x : A) (o : Option A)
      → (id_of x == id) ≡ true
      → ((y : A) → o ≡ some y → id_of y ≡ id_of x)
      → RowKeeps x o
  changed-RowKeeps x none here keeps = tt
  changed-RowKeeps x (some y) here keeps =
      (let same : id_of y ≡ id_of x = keeps y refl in (same, rw (same, here) refl))

  pub update_id-Keeps :
      (change : A → Option A)
      → ((x y : A) → change x ≡ some y → id_of y ≡ id_of x)
      → (xs : List A) → Keeps xs (update_id id_of id change xs)
  unfolding update_id
  update_id-Keeps change keeps [] = (refl, refl)
  update_id-Keeps change keeps (x ∷ xs) = elim (Bool-cases (id_of x == id)) [
    | inl here ↦ rw here (
        consed-Keeps x xs (change x) (update_id id_of id change xs)
          (changed-RowKeeps x (change x) here (keeps x)) (update_id-Keeps change keeps xs))
    | inr elsewhere ↦ rw elsewhere (
        consed-Keeps x xs (some x) (update_id id_of id change xs) (refl, refl)
          (update_id-Keeps change keeps xs))
  ]

pub redact_fact-id :
    (old new : Text) (f g : Fact) → redact_fact old new f ≡ some g → fact_id g ≡ fact_id f
unfolding redact_fact fact_id
redact_fact-id old new f g h = ap fact_id (some_inj (sym h))

pub redact_json-id :
    (jsonb : Text → Option Text) (resolve_download : Option (Text → Option Text))
    (is_file : Text → Bool) (old new : Text) (r t : JsonRow)
    → redact_json jsonb resolve_download is_file old new r ≡ some t
    → row_id t ≡ row_id r
unfolding redact_json row_id
redact_json-id jsonb resolve_download is_file old new r t h = ground arith

pub redact_episode-id :
    (jsonb : Text → Option Text) (resolve_download : Option (Text → Option Text))
    (is_file : Text → Bool) (old new : Text) (e g : Episode)
    → redact_episode jsonb resolve_download is_file old new e ≡ some g
    → episode_id g ≡ episode_id e
unfolding redact_episode episode_id
redact_episode-id jsonb resolve_download is_file old new e g h = ground arith
