-- ===== src/Operations/Reset.antt =====
-- operations.py, `handle_session_reset`: when the user's session is closed, and how often in a week.
use lucyd.Base.{
  ℕ, ◌-◌, ◌*◌, ◌≤◌, ◌<◌, ◌≡◌, refl, String, true, false, Option, none, some, leb, some_inj,
  Bool-cases, inl, inr, ◌⊎◌, arith,
}
use lucyd.Store.{SessionRow, find_active}
use lucyd.Base.Dict.{lookup}
use lucyd.Manager.{World, close_session}
use lucyd.Manager.Active.{HasUniqueActive, close_session-closes}
use lucyd.Operations.{
  user_key_of, reset, Morning, week_start, is_active, reset_row, handle_session_reset,
}

-- What has to be given before the session of a row is closed: the diary is written, the row was opened
-- before the week, and the last message is idle for long enough.
pub record MayClose (m : Morning) (idle_minutes : ℕ) (key : String) (w : World) (row : SessionRow)
    : Type 0 where
  pub diary : m.diary_written ≡ true
  pub old : m.created_at row < week_start m.now
  pub last : ℕ
  pub last_message : m.last_message w.db key ≡ some last
  pub quiet : 60 * idle_minutes ≤ m.now - last

-- the meaning of the idle test
is_active-false :
    (now idle_minutes : ℕ) (o : Option ℕ)
    → is_active now idle_minutes o ≡ false
    → (last : ℕ) × (o ≡ some last) × (60 * idle_minutes ≤ now - last)
unfolding is_active
is_active-false now idle_minutes none h = cc
is_active-false now idle_minutes (some last) h = (last, refl, ground arith)

is_active-true :
    (now idle_minutes last : ℕ) (o : Option ℕ)
    → is_active now idle_minutes o ≡ true
    → o ≡ some last
    → now - last < 60 * idle_minutes
unfolding is_active
is_active-true now idle_minutes last none h e = cc
is_active-true now idle_minutes last (some l) h e =
    (let same : l ≡ last = some_inj e in ground arith)

reset_row-Decides :
    (m : Morning) (idle_minutes : ℕ) (key : String) (w : World) (row : SessionRow)
    → (MayClose m idle_minutes key w row
        × (reset_row m idle_minutes key w (some row) ≡ ((close_session w key).0, reset row.id)))
      ⊎ ((MayClose m idle_minutes key w row → ⊥)
          × ((reset_row m idle_minutes key w (some row)).0 ≡ w))
unfolding reset_row
reset_row-Decides m idle_minutes key w row = elim (Bool-cases m.diary_written) [
  | inr missing ↦ inr (λ c. (let d : m.diary_written ≡ true = c.diary in cc), rw missing refl)
  | inl diary ↦ elim (Bool-cases (leb (week_start m.now) (m.created_at row))) [
    | inl new ↦ inr (
      λ c. (let old : m.created_at row < week_start m.now = c.old in ground arith),
      rw (diary, new) refl,
    )
    | inr old ↦ elim (Bool-cases (is_active m.now idle_minutes (m.last_message w.db key))) [
      | inl active ↦ inr (
        λ c.
            (let quiet : 60 * idle_minutes ≤ m.now - c.last = c.quiet in
              omega (arith, is_active-true m.now idle_minutes c.last _ active c.last_message)),
        rw (diary, old, active) refl,
      )
      | inr idle ↦
          (let (last, at, quiet) = is_active-false m.now idle_minutes _ idle in
            inl (
              record {
                diary = diary;
                old = ground arith;
                last = last;
                last_message = at;
                quiet = quiet;
              },
              rw (diary, old, idle) refl,
            ))
    ]
  ]
]

-- If the user has an open session, the weekly reset, enabled, closes and reports it exactly if the diary is
-- written, the session was opened before the week, and the user's last message is idle for long enough;
-- otherwise it leaves the world as it was.
pub handle_session_reset-Decides :
    (m : Morning) (idle_minutes : ℕ) (user_name : String) (w : World) (row : SessionRow)
    → find_active (user_key_of user_name) w.db.sessions ≡ some row
    → let key = user_key_of user_name in
      let r = handle_session_reset m true idle_minutes user_name w in
      (MayClose m idle_minutes key w row × (r ≡ ((close_session w key).0, reset row.id)))
      ⊎ ((MayClose m idle_minutes key w row → ⊥) × (r.0 ≡ w))
unfolding handle_session_reset
handle_session_reset-Decides m idle_minutes user_name w row h =
    rw h (reset_row-Decides m idle_minutes (user_key_of user_name) w row)

-- a reported reset closed the session
reset_row-closes :
    (m : Morning) (idle_minutes : ℕ) (key : String) (w : World) (o : Option SessionRow)
    {id : String}
    → (reset_row m idle_minutes key w o).1 ≡ reset id
    → (reset_row m idle_minutes key w o).0 ≡ (close_session w key).0
unfolding reset_row
reset_row-closes m idle_minutes key w none h = cc
reset_row-closes m idle_minutes key w (some row) h = ground arith

later_row :
    (m : Morning) (start idle_minutes : ℕ) (key : String) (w : World) (o : Option SessionRow)
    → week_start m.now ≤ start
    → ((row : SessionRow) → o ≡ some row → start ≤ m.created_at row)
    → (reset_row m idle_minutes key w o).0 ≡ w
unfolding reset_row
later_row m start idle_minutes key w none same since = refl
later_row m start idle_minutes key w (some row) same since =
    (let opened : start ≤ m.created_at row = since row refl in ground arith)

-- Where no contact has two open sessions and the weekly reset, enabled, reports a reset: still no contact
-- has two, and the user has no open session, in memory or in the tables. Later in the same week, in any
-- world whose open session of the user, if there is one, was opened after the first run, the reset changes
-- nothing.
pub handle_session_reset-once :
    (m later : Morning) (idle_minutes : ℕ) (user_name : String) (w w' : World) (id : String)
    → HasUniqueActive w.db
    → (handle_session_reset m true idle_minutes user_name w).1 ≡ reset id
    → week_start later.now ≤ m.now
    → ((row : SessionRow)
        → find_active (user_key_of user_name) w'.db.sessions ≡ some row
        → m.now ≤ later.created_at row)
    → let key = user_key_of user_name in
      let closed = (handle_session_reset m true idle_minutes user_name w).0 in
      HasUniqueActive closed.db
      × (find_active key closed.db.sessions ≡ none)
      × (lookup key closed.loaded ≡ none)
      × ((handle_session_reset later true idle_minutes user_name w').0 ≡ w')
unfolding handle_session_reset
handle_session_reset-once m later idle_minutes user_name w w' id unique did same since =
    let key = user_key_of user_name in
    let closing : (reset_row m idle_minutes key w (find_active key w.db.sessions)).0
        ≡ (close_session w key).0 =
      reset_row-closes m idle_minutes key w (find_active key w.db.sessions) did in
    let (unique', free, gone) = close_session-closes w key unique in
    (
      rw closing unique',
      rw closing free,
      rw closing gone,
      later_row later m.now idle_minutes key w' (find_active key w'.db.sessions) same since,
    )
