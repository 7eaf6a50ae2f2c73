-- ===== src/Api/Window.antt =====
-- api.py, `_RateLimiter`: its decisions against those of a log of every admitted request.
use lucyd.Base.{
  ℕ, ◌+◌, ◌≤◌, String, ◌≡◌, ◌∙◌, refl, sym, ap, subst, Bool, true, false, List, [], ◌∷◌, ◌++◌,
  append-nil, length, str_eq, All, All-append, Bool-cases, inl, inr, arith, ltb, leb, if◌then◌else◌,
}
use lucyd.Base.Dict.{Dict, insert, lookup-insert}
use lucyd.Api.Hits.{
  times_of, times_of-own, times_of-other, recent-append, recent-recent, Ascending, Follows,
  sweep-Follows,
}
use lucyd.Api.{RateLimiter, or_nil, hits_of, is_recent, recent, sweep, admit, check, check_all}

module _ (l : RateLimiter) where
  -- The window as a rule on the log: a request is admitted while its key has fewer than the maximum of
  -- admitted requests in the window.
  unfoldable pub log_all : ℕ → List (String × ℕ) → List (String × ℕ) → List Bool
  unfolding recent times_of
  log_all clock [] log = []
  log_all clock ((key, wait) ∷ requests) log =
      let now = clock + wait in
      let allowed = ltb (length (recent l now (times_of key log))) l.max_requests in
      let admitted = log_all now requests (log ++ (key, now) ∷ []) in
      let refused = log_all now requests log in allowed ∷ (if allowed then admitted else refused)

  -- The hits of a key, written.
  hits_of-insert :
      (k key : String) (ts : List ℕ) (hits : Dict (List ℕ))
      → hits_of key (insert k ts hits) ≡ (if str_eq k key then ts else hits_of key hits)
  unfolding hits_of or_nil
  hits_of-insert k key ts hits =
      rw (lookup-insert k key ts hits)
        (elim (Bool-cases (str_eq k key)) [ inl own ↦ rw own | inr other ↦ rw other ])

  recent-All : (P : ℕ → Type 0) (now : ℕ) (ts : List ℕ) → All P ts → All P (recent l now ts)
  unfolding recent
  recent-All P now [] h = tt
  recent-All P now (t ∷ ts) (own, h) = elim (Bool-cases (is_recent l now t)) [
    | inl new ↦ rw new (own, recent-All P now ts h)
    | inr old ↦ rw old (recent-All P now ts h)
  ]

  Ascending-append :
      (now : ℕ) (ts : List ℕ)
      → All (λ t. t ≤ now) ts
      → Ascending l ts
      → Ascending l (ts ++ now ∷ [])
  Ascending-append now [] h a = (tt, tt)
  Ascending-append now (t ∷ ts) (le, h) (below, a) =
      (All-append (λ s. t ≤ s) ts (now ∷ []) below (le, tt), Ascending-append now ts h a)

  Ascending-recent : (now : ℕ) (ts : List ℕ) → Ascending l ts → Ascending l (recent l now ts)
  unfolding recent
  Ascending-recent now [] a = tt
  Ascending-recent now (t ∷ ts) (below, a) = elim (Bool-cases (is_recent l now t)) [
    | inl new ↦ rw new (recent-All (λ s. t ≤ s) now ts below, Ascending-recent now ts a)
    | inr old ↦ rw old (Ascending-recent now ts a)
  ]

  -- What the key's list becomes, and the log with it.
  admit-Follows :
      (now : ℕ) (key : String) (hits : Dict (List ℕ)) (log : List (String × ℕ)) (ts : List ℕ)
      (added : Bool)
      → Follows l now hits log
      → Ascending l ts
      → All (λ t. t ≤ now) ts
      → ((wait : ℕ)
          → recent l (now + wait) ts
            ≡ recent l (now + wait) (times_of key log ++ (if added then now ∷ [] else [])))
      → Follows l now (insert key ts hits) (if added then log ++ (key, now) ∷ [] else log)
  admit-Follows now key hits log ts added h a past same = record {
    same = λ k wait. elim (Bool-cases (str_eq key k)) [
      | inl own ↦
          rw (hits_of-insert key k ts hits, own, times_of-own key k now log added own) (same wait)
      | inr other ↦
          rw (hits_of-insert key k ts hits, other, times_of-other key k now log added other)
            (h.same k wait)
    ];
    ascending = λ k. elim (Bool-cases (str_eq key k)) [
      | inl own ↦ rw (hits_of-insert key k ts hits, own) a
      | inr other ↦ rw (hits_of-insert key k ts hits, other) (h.ascending k)
    ];
    past = λ k. elim (Bool-cases (str_eq key k)) [
      | inl own ↦ rw (hits_of-insert key k ts hits, own) past
      | inr other ↦ rw (hits_of-insert key k ts hits, other) (h.past k)
    ];
  }

  full-not_below : (n : ℕ) → leb l.max_requests n ≡ true → ltb n l.max_requests ≡ false
  full-not_below n h = ground arith

  room-below : (n : ℕ) → leb l.max_requests n ≡ false → ltb n l.max_requests ≡ true
  room-below n h = ground arith

  -- One request: the limiter and the log decide alike, and stay alike.
  check-Follows :
      (clock wait : ℕ) (key : String) (hits : Dict (List ℕ)) (log : List (String × ℕ))
      → Follows l clock hits log
      → let (allowed, hits') = check l (clock + wait) key hits in
        (allowed ≡ ltb (length (recent l (clock + wait) (times_of key log))) l.max_requests)
        × Follows l (clock + wait) hits' (if allowed then log ++ (key, clock + wait) ∷ [] else log)
  unfolding check admit
  check-Follows clock wait key hits log h =
      let now = clock + wait in
      let swept = sweep l now hits in
      let s = sweep-Follows l clock wait hits log h in
      let kept = recent l now (hits_of key swept) in
      let here : kept ≡ recent l now (times_of key log) =
        subst (λ (n : ℕ). recent l n (hits_of key swept) ≡ recent l n (times_of key log))
          (omega arith) (s.same key 0) in
      let ordered : Ascending l kept = Ascending-recent now (hits_of key swept) (s.ascending key) in
      let past : All (λ t. t ≤ now) kept =
        recent-All (λ t. t ≤ now) now (hits_of key swept) (s.past key) in
      elim (Bool-cases (leb l.max_requests (length kept))) [
        | inl full ↦ rw full (
          sym (
              subst (λ (r : List ℕ). ltb (length r) l.max_requests ≡ false) here
                (full-not_below (length kept) full)),
          admit-Follows now key swept log kept false s ordered past (λ more.
              recent-recent l now more (hits_of key swept)
              ∙ s.same key more
              ∙ ap (recent l (now + more)) (sym (append-nil (times_of key log)))),
        )
        | inr room ↦ rw room (
          sym (
              subst (λ (r : List ℕ). ltb (length r) l.max_requests ≡ true) here
                (room-below (length kept) room)),
          admit-Follows now key swept log (kept ++ now ∷ []) true s
              (Ascending-append now kept past ordered)
              (All-append (λ t. t ≤ now) kept (now ∷ []) past (omega arith, tt))
              (λ more.
                recent-append l (now + more) kept (now ∷ [])
                ∙ ap (λ (r : List ℕ). r ++ recent l (now + more) (now ∷ []))
                    (recent-recent l now more (hits_of key swept) ∙ s.same key more)
                ∙ sym (recent-append l (now + more) (times_of key log) (now ∷ []))),
        )
      ]

  log_all-if :
      (clock : ℕ) (requests log log' : List (String × ℕ)) (b : Bool)
      → log_all clock requests (if b then log else log')
        ≡ (if b then log_all clock requests log else log_all clock requests log')
  log_all-if clock requests log log' true = refl
  log_all-if clock requests log log' false = refl

  check_all-Follows :
      (requests : List (String × ℕ)) (clock : ℕ) (hits : Dict (List ℕ)) (log : List (String × ℕ))
      → Follows l clock hits log
      → check_all l clock requests hits ≡ log_all clock requests log
  unfolding check_all log_all
  check_all-Follows [] clock hits log h = refl
  check_all-Follows ((key, wait) ∷ requests) clock hits log h =
      let (same, later) = check-Follows clock wait key hits log h in
      let now = clock + wait in
      let (allowed, hits') = check l now key hits in
      ap (λ (r : List Bool). allowed ∷ r)
        (check_all-Follows requests now hits' (if allowed then log ++ (key, now) ∷ [] else log)
            later
          ∙ log_all-if now requests (log ++ (key, now) ∷ []) log allowed)
      ∙ ap
          (λ (b : Bool).
            b
            ∷ (if b
                then log_all now requests (log ++ (key, now) ∷ [])
                else log_all now requests log))
          same

  -- For every maximum, window and cleanup threshold: the limiter, which forgets old requests and deletes
  -- the keys that it finds stale, admits of every sequence of requests just those that a log of all
  -- admitted requests admits, which asks for fewer than the maximum of the key's in the window.
  pub check_all-log :
      (requests : List (String × ℕ)) → check_all l 0 requests [] ≡ log_all 0 requests []
  unfolding hits_of times_of
  check_all-log requests =
      check_all-Follows requests 0 [] []
        (record { same = λ key wait. refl; ascending = λ key. tt; past = λ key. tt })
