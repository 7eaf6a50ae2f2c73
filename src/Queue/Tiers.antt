-- ===== src/Queue/Tiers.antt =====
-- lucyd.py, class `PriorityMessageQueue`: the queue is three first-in first-out lines, served in order.
use lucyd.Base.{
  ℕ, zero, suc, append-nil, append_assoc, Bool-cases, inl, inr, subst, ◌≤◌, ◌<◌, true, false,
  Option, none, some, List, [], ◌∷◌, ◌++◌, All, All-append, ◌≡◌, refl, arith,
}
use lucyd.Pipeline.{is_ephemeral}
use lucyd.Queue.{
  Item, Entry, Queue, talker_of, tier_of, prioritize, before, insert_entry, full, put_nowait,
  get_nowait,
}

-- What the queue promises: a line of messages of users, one of the system, one of sentinels.
pub record Lines : Type 0 where
  pub users : List Entry
  pub systems : List Entry
  pub sentinels : List Entry

unfoldable pub enqueue : ℕ → Entry → Lines → Lines
enqueue zero e l = record l { users = l.users ++ e ∷ [] }
enqueue (suc zero) e l = record l { systems = l.systems ++ e ∷ [] }
enqueue _ e l = record l { sentinels = l.sentinels ++ e ∷ [] }

-- the next item, and the lines without it
unfoldable pub serve : Lines → Option (Option Item × Lines)
serve l = elim l.users [
  | e ∷ es ↦ some (e.item, record l { users = es })
  | [] ↦ elim l.systems [
    | e ∷ es ↦ some (e.item, record l { systems = es })
    | [] ↦ elim l.sentinels [ e ∷ es ↦ some (e.item, record l { sentinels = es }) | [] ↦ none ]
  ]
]

abbrev pub InTier : ℕ → ℕ → Entry → Type 0
InTier p n e = (e.priority ≡ p) × (e.seq ≤ n)

-- The queue holds the lines one after the other, and no number above its counter.
abbrev pub Implements : Queue → Lines → Type 0
Implements q l =
    (q.entries ≡ l.users ++ (l.systems ++ l.sentinels))
    × All (InTier 0 q.seq) l.users
    × All (InTier 1 q.seq) l.systems
    × All (InTier 2 q.seq) l.sentinels

later : (p n : ℕ) (xs : List Entry) → All (InTier p n) xs → All (InTier p (suc n)) xs
later p n [] h = tt
later p n (x ∷ xs) h = ((h.0.0, omega (arith, h.0.1)), later p n xs h.1)

pass :
    (e : Entry) (p n : ℕ) (xs ys : List Entry)
    → All (InTier p n) xs
    → p ≤ e.priority
    → n < e.seq
    → insert_entry e (xs ++ ys) ≡ xs ++ insert_entry e ys
unfolding insert_entry before
pass e p n [] ys h hp hn = refl
pass e p n (x ∷ xs) ys h hp hn = ground (arith, h.0.0, h.0.1, pass e p n xs ys h.1 hp hn)

precede :
    (e : Entry) (p n : ℕ) (xs ys : List Entry)
    → All (InTier p n) xs
    → e.priority < p
    → insert_entry e ys ≡ e ∷ ys
    → insert_entry e (xs ++ ys) ≡ e ∷ (xs ++ ys)
unfolding insert_entry before
precede e p n [] ys h hp hy = hy
precede e p n (x ∷ xs) ys h hp hy = ground (arith, h.0.0)

-- Where an entry newer than all others goes: to the end of its own line.
module _ (e : Entry) (n : ℕ) (u s z : List Entry) (new : n < e.seq) (us : All (InTier 0 n) u)
    (ss : All (InTier 1 n) s) (zs : All (InTier 2 n) z) where
  at_systems : e.priority < 2 → insert_entry e z ≡ e ∷ z
  unfolding insert_entry
  at_systems h =
      subst (λ (t : List Entry). insert_entry e t ≡ e ∷ t) (append-nil z)
        (precede e 2 n z [] zs h refl)

  at_users : e.priority < 1 → insert_entry e (s ++ z) ≡ e ∷ (s ++ z)
  at_users h = precede e 1 n s z ss h (at_systems (omega arith))

  place_user : e.priority ≡ 0 → insert_entry e (u ++ (s ++ z)) ≡ (u ++ e ∷ []) ++ (s ++ z)
  place_user h =
      rw (pass e 0 n u (s ++ z) us (omega arith) new, at_users (omega arith), append_assoc)

  place_system : e.priority ≡ 1 → insert_entry e (u ++ (s ++ z)) ≡ u ++ ((s ++ e ∷ []) ++ z)
  place_system h = rw (
    pass e 0 n u (s ++ z) us (omega arith) new,
    pass e 1 n s z ss (omega arith) new,
    at_systems (omega arith),
    append_assoc,
  )

  at_end : e.priority ≡ 2 → insert_entry e z ≡ z ++ e ∷ []
  unfolding insert_entry
  at_end h =
      subst (λ (t : List Entry). insert_entry e t ≡ z ++ e ∷ []) (append-nil z)
        (pass e 2 n z [] zs (omega arith) new)

  place_sentinel : e.priority ≡ 2 → insert_entry e (u ++ (s ++ z)) ≡ u ++ (s ++ (z ++ e ∷ []))
  unfolding insert_entry
  place_sentinel h =
      rw (pass e 0 n u (s ++ z) us (omega arith) new, pass e 1 n s z ss (omega arith) new, at_end h)

-- If the queue implements three lines and is not full, a put succeeds, and the queue implements the
-- lines with the entry at the end of the line of the item's tier.
pub put_nowait-Implements :
    (now : ℕ) (item : Option Item) (q : Queue) (l : Lines)
    → Implements q l
    → full q ≡ false
    → (Implements (put_nowait now item q).0 (enqueue (tier_of item) (prioritize now item q).0 l))
      × ((put_nowait now item q).1 ≡ true)
unfolding put_nowait prioritize tier_of enqueue
put_nowait-Implements now none q l (h, u, s, z) hf =
    let e : Entry = record { priority = 2; seq = suc q.seq; item = none } in
    rw hf (
      (
        rw h (place_sentinel e q.seq l.users l.systems l.sentinels (omega arith) u s z refl),
        later 0 q.seq l.users u,
        later 1 q.seq l.systems s,
        All-append (InTier 2 (suc q.seq)) l.sentinels _ (later 2 q.seq l.sentinels z)
            ((refl, omega arith), tt),
      ),
      refl,
    )
put_nowait-Implements now (some i) q l (h, u, s, z) hf =
    elim (Bool-cases (is_ephemeral (talker_of i))) [
      | inl e ↦
          rw (hf, e)
            (
              (
                rw h (place_system _ q.seq l.users l.systems l.sentinels (omega arith) u s z refl),
                later 0 q.seq l.users u,
                All-append (InTier 1 (suc q.seq)) l.systems _ (later 1 q.seq l.systems s)
                    ((refl, omega arith), tt),
                later 2 q.seq l.sentinels z,
              ),
              refl,
            )
      | inr e ↦
          rw (hf, e)
            (
              (
                rw h (place_user _ q.seq l.users l.systems l.sentinels (omega arith) u s z refl),
                All-append (InTier 0 (suc q.seq)) l.users _ (later 0 q.seq l.users u)
                    ((refl, omega arith), tt),
                later 1 q.seq l.systems s,
                later 2 q.seq l.sentinels z,
              ),
              refl,
            )
    ]

-- What a get returns where the lines answer `o`.
abbrev pub Served : Queue → Option (Option Item × Lines) → Type 0
Served q none = get_nowait q ≡ none
Served q (some (item, rest)) = (p : Queue) × (get_nowait q ≡ some (item, p)) × Implements p rest

get_head :
    (q : Queue) (u s z : List Entry)
    → Implements q (record { users = u; systems = s; sentinels = z })
    → Served q (serve (record { users = u; systems = s; sentinels = z }))
unfolding get_nowait serve
get_head q (e ∷ es) s z (h, u, ss, zs) =
    rw h (record q { entries = es ++ (s ++ z) }, refl, (refl, u.1, ss, zs))
get_head q [] (e ∷ es) z (h, u, ss, zs) =
    rw h (record q { entries = es ++ z }, refl, (refl, tt, ss.1, zs))
get_head q [] [] (e ∷ es) (h, u, ss, zs) =
    rw h (record q { entries = es }, refl, (refl, tt, tt, zs.1))
get_head q [] [] [] (h, u, ss, zs) = rw h

-- If the queue implements three lines, a get returns the head of the first line that is not empty and
-- leaves a queue that implements the lines without it; it fails if all are empty.
pub get_nowait-serve : (q : Queue) (l : Lines) → Implements q l → Served q (serve l)
get_nowait-serve q l h = get_head q l.users l.systems l.sentinels h
