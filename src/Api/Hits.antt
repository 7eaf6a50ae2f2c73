-- ===== src/Api/Hits.antt =====
-- api.py, `_RateLimiter`: the hits that are recent, and what a sweep leaves of them.
use lucyd.Base.{
  ℕ, ◌+◌, ◌≤◌, String, ◌≡◌, ◌∙◌, refl, sym, ap, subst, some_inj, Bool, true, false, ◌||◌, none,
  some, List, [], ◌∷◌, ◌++◌, append-nil, map, length, get_last?, filter_by, mem_name, str_eq,
  eq_iff, eq_refl, All, Bool-cases, Option-cases, ◌⊎◌, inl, inr, arith, ltb, leb, if◌then◌else◌,
}
use lucyd.Base.Dict.{Dict, lookup, erase, lookup-erase}
use lucyd.Api.{
  RateLimiter, or_nil, hits_of, is_recent, recent, is_stale, stale_keys, delete_keys, sweep,
}

-- The times of a key in a log of admitted requests.
unfoldable pub times_of : String → List (String × ℕ) → List ℕ
times_of key [] = []
times_of key ((k, t) ∷ log) = let rest = times_of key log in if str_eq k key then t ∷ rest else rest

times_of-append :
    (key k : String) (t : ℕ) (log : List (String × ℕ))
    → times_of key (log ++ (k, t) ∷ []) ≡ times_of key log ++ (if str_eq k key then t ∷ [] else [])
unfolding times_of
times_of-append key k t [] = refl
times_of-append key k t ((j, s) ∷ log) = elim (Bool-cases (str_eq j key)) [
  | inl own ↦ rw own (ap (λ (r : List ℕ). s ∷ r) (times_of-append key k t log))
  | inr other ↦ rw other (times_of-append key k t log)
]

pub times_of-own :
    (key k : String) (t : ℕ) (log : List (String × ℕ)) (added : Bool)
    → str_eq key k ≡ true
    → times_of k (if added then log ++ (key, t) ∷ [] else log)
      ≡ times_of key log ++ (if added then t ∷ [] else [])
times_of-own key k t log added own =
    subst
      (λ (j : String).
        times_of j (if added then log ++ (key, t) ∷ [] else log)
        ≡ times_of key log ++ (if added then t ∷ [] else []))
      ((eq_iff key k).0 own) (itself added)
  where
    itself :
        (b : Bool)
        → times_of key (if b then log ++ (key, t) ∷ [] else log)
          ≡ times_of key log ++ (if b then t ∷ [] else [])
    itself true = rw (times_of-append key key t log, eq_refl key)
    itself false = sym (append-nil (times_of key log))

pub times_of-other :
    (key k : String) (t : ℕ) (log : List (String × ℕ)) (added : Bool)
    → str_eq key k ≡ false
    → times_of k (if added then log ++ (key, t) ∷ [] else log) ≡ times_of k log
times_of-other key k t log true other =
    rw (times_of-append k key t log, other) (append-nil (times_of k log))
times_of-other key k t log false other = refl

module _ (l : RateLimiter) where
  pub recent-append :
      (now : ℕ) (xs ys : List ℕ) → recent l now (xs ++ ys) ≡ recent l now xs ++ recent l now ys
  unfolding recent
  recent-append now [] ys = refl
  recent-append now (t ∷ xs) ys = elim (Bool-cases (is_recent l now t)) [
    | inl new ↦ rw new (ap (λ (r : List ℕ). t ∷ r) (recent-append now xs ys))
    | inr old ↦ rw old (recent-append now xs ys)
  ]

  -- What is dropped at one time is not recent later.
  pub recent-recent :
      (now wait : ℕ) (ts : List ℕ)
      → recent l (now + wait) (recent l now ts) ≡ recent l (now + wait) ts
  unfolding recent is_recent
  recent-recent now wait [] = refl
  recent-recent now wait (t ∷ ts) = ground (arith, recent-recent now wait ts)

  abbrev pub Ascending : List ℕ → Type 0
  Ascending [] = Unit
  Ascending (t ∷ ts) = All (λ s. t ≤ s) ts × Ascending ts

  last-greatest : (ts : List ℕ) (m : ℕ) → Ascending ts → get_last? ts ≡ some m → All (λ t. t ≤ m) ts
  last-greatest [] m a h = tt
  last-greatest (t ∷ []) m a h = (omega (arith, some_inj h), tt)
  last-greatest (t ∷ u ∷ ts) m (le, a) h =
      let rest = last-greatest (u ∷ ts) m a h in (omega (arith, le.0, rest.0), rest)

  stale-recent :
      (now wait m : ℕ) (ts : List ℕ)
      → leb (m + l.window) now ≡ true
      → All (λ t. t ≤ m) ts
      → recent l (now + wait) ts ≡ []
  unfolding recent is_recent
  stale-recent now wait m [] h all = refl
  stale-recent now wait m (t ∷ ts) h (le, all) =
      (let old : ltb (now + wait) (t + l.window) ≡ false = ground arith in
        rw old (stale-recent now wait m ts h all))

  -- The limiter's lists and the log have the same recent times now and later.
  pub record Follows (clock : ℕ) (hits : Dict (List ℕ)) (log : List (String × ℕ)) : Type 0 where
    pub same :
        (key : String) (wait : ℕ)
        → recent l (clock + wait) (hits_of key hits) ≡ recent l (clock + wait) (times_of key log)
    pub ascending : (key : String) → Ascending (hits_of key hits)
    pub past : (key : String) → All (λ t. t ≤ clock) (hits_of key hits)

  lookup-delete_keys :
      (ks : List String) (j : String) (d : Dict (List ℕ))
      → lookup j (delete_keys l ks d) ≡ (if mem_name j ks then none else lookup j d)
  unfolding delete_keys mem_name
  lookup-delete_keys [] j d = refl
  lookup-delete_keys (k ∷ ks) j d =
      rw (lookup-delete_keys ks j (erase k d), lookup-erase k j d)
        (ground (arith, eq_iff k j, eq_iff j k))

  mem-filter_by :
      (p : String → Bool) (j : String) (ks : List String)
      → mem_name j (filter_by p ks) ≡ true
      → p j ≡ true
  unfolding mem_name
  mem-filter_by p j [] h = cc
  mem-filter_by p j (k ∷ ks) h = elim (Bool-cases (p k)) [
    | inl kept ↦ elim (Bool-cases (str_eq j k)) [
      | inl same ↦ subst (λ (x : String). p x ≡ true) (sym ((eq_iff j k).0 same)) kept
      | inr other ↦ mem-filter_by p j ks (
          subst (λ b. (b || mem_name j (filter_by p ks)) ≡ true) other
            (subst (λ b. mem_name j (if b then k ∷ filter_by p ks else filter_by p ks) ≡ true) kept
              h))
    ]
    | inr left ↦
        mem-filter_by p j ks
          (subst (λ b. mem_name j (if b then k ∷ filter_by p ks else filter_by p ks) ≡ true) left h)
  ]

  -- A sweep leaves the hits of a key or deletes stale ones.
  hits_of-sweep :
      (now : ℕ) (hits : Dict (List ℕ)) (key : String)
      → (hits_of key (sweep l now hits) ≡ hits_of key hits)
        ⊎ ((hits_of key (sweep l now hits) ≡ [])
            × (is_stale l now (get_last? (hits_of key hits)) ≡ true))
  unfolding sweep hits_of stale_keys or_nil
  hits_of-sweep now hits key = elim (Bool-cases (ltb l.cleanup_threshold (length hits))) [
    | inl large ↦ elim (Bool-cases (mem_name key (stale_keys l now hits))) [
      | inl stale ↦ inr (
        rw (large, lookup-delete_keys (stale_keys l now hits) key hits, stale),
        mem-filter_by (λ k. is_stale l now (get_last? (hits_of k hits))) key (map (λ e. e.0) hits)
            stale,
      )
      | inr kept ↦ inl (rw (large, lookup-delete_keys (stale_keys l now hits) key hits, kept))
    ]
    | inr small ↦ inl (rw small)
  ]

  no_last : (ts : List ℕ) → get_last? ts ≡ none → ts ≡ []
  no_last [] h = refl
  no_last (t ∷ []) h = cc
  no_last (t ∷ u ∷ ts) h = absurd (no_elem (no_last (u ∷ ts) h))
    where
      no_elem : u ∷ ts ≡ [] → ⊥
      no_elem e = cc

  stale-nothing :
      (now wait : ℕ) (ts : List ℕ)
      → Ascending ts
      → is_stale l now (get_last? ts) ≡ true
      → recent l (now + wait) ts ≡ []
  unfolding is_stale recent
  stale-nothing now wait ts c h = elim (Option-cases (get_last? ts)) [
    | inl nothing ↦ ap (recent l (now + wait)) (no_last ts nothing)
    | inr (m, last) ↦
        stale-recent now wait m ts (subst (λ o. is_stale l now o ≡ true) last h)
          (last-greatest ts m c last)
  ]

  later_same :
      (clock wait more : ℕ) (hits : Dict (List ℕ)) (log : List (String × ℕ)) (key : String)
      → Follows clock hits log
      → recent l (clock + wait + more) (hits_of key hits)
        ≡ recent l (clock + wait + more) (times_of key log)
  later_same clock wait more hits log key h =
      subst (λ (n : ℕ). recent l n (hits_of key hits) ≡ recent l n (times_of key log)) (omega arith)
        (h.same key (wait + more))

  All-later :
      (clock wait : ℕ) (ts : List ℕ) → All (λ t. t ≤ clock) ts → All (λ t. t ≤ clock + wait) ts
  All-later clock wait [] h = tt
  All-later clock wait (t ∷ ts) (le, h) = (omega arith, All-later clock wait ts h)

  pub sweep-Follows :
      (clock wait : ℕ) (hits : Dict (List ℕ)) (log : List (String × ℕ))
      → Follows clock hits log
      → Follows (clock + wait) (sweep l (clock + wait) hits) log
  unfolding recent
  sweep-Follows clock wait hits log h =
      let now = clock + wait in
      record {
        same = λ key more. elim (hits_of-sweep now hits key) [
          | inl kept ↦ rw kept (later_same clock wait more hits log key h)
          | inr (gone, stale) ↦ rw gone (
              sym (
                sym (later_same clock wait more hits log key h)
                ∙ stale-nothing now more (hits_of key hits) (h.ascending key) stale))
        ];
        ascending = λ key. elim (hits_of-sweep now hits key) [
          | inl kept ↦ subst (λ (ts : List ℕ). Ascending ts) (sym kept) (h.ascending key)
          | inr (gone, stale) ↦ subst (λ (ts : List ℕ). Ascending ts) (sym gone) tt
        ];
        past = λ key. elim (hits_of-sweep now hits key) [
          | inl kept ↦
              subst (λ (ts : List ℕ). All (λ t. t ≤ now) ts) (sym kept)
                (All-later clock wait (hits_of key hits) (h.past key))
          | inr (gone, stale) ↦ subst (λ (ts : List ℕ). All (λ t. t ≤ now) ts) (sym gone) tt
        ];
      }
