-- ===== src/Manager/Active.antt =====
-- session.py, `SessionManager`: a contact has at most one open session.
use lucyd.Base.{
  ℕ, suc, ◌+◌, ◌≤◌, String, ◌≡◌, refl, not, ◌&&◌, Option, none, some, List, [], ◌∷◌, ◌++◌, arith,
  eq_iff, eq_refl, str_eq, Bool-cases, Option-cases, inl, inr, if◌then◌else◌, ◌≢◌,
}
use lucyd.Base.Dict.{lookup, lookup-insert, lookup-erase}
use lucyd.Store.{Db, SessionRow, find_session, find_active, close_row}
use lucyd.Session.{
  Session, new_session, load, repair_trailing_user_orphan, append_event, ends_with_user, restore,
}
use lucyd.Manager.{World, new_row, create, resume, find_or_create, get_or_create, close_session}

-- How many open sessions a contact has.
abbrev pub active_count : String → List SessionRow → ℕ
active_count c [] = 0
active_count c (r ∷ rows) =
    let rest = active_count c rows in if str_eq r.contact c && not r.closed then suc rest else rest

abbrev pub HasUniqueActive : Db → Type 0
HasUniqueActive db = (c : String) → active_count c db.sessions ≤ 1

active_count-append :
    (c : String) (xs ys : List SessionRow)
    → active_count c (xs ++ ys) ≡ active_count c xs + active_count c ys
active_count-append c [] ys = omega arith
active_count-append c (r ∷ xs) ys = ground (arith, active_count-append c xs ys)

no_active-count :
    (c : String) (rows : List SessionRow) → find_active c rows ≡ none → active_count c rows ≡ 0
unfolding find_active
no_active-count c [] h = refl
no_active-count c (r ∷ rows) h = ground (arith, no_active-count c rows)

count-no_active :
    (c : String) (rows : List SessionRow) → active_count c rows ≡ 0 → find_active c rows ≡ none
unfolding find_active
count-no_active c [] h = refl
count-no_active c (r ∷ rows) h = ground (arith, count-no_active c rows)

active_count-close :
    (c id : String) (rows : List SessionRow)
    → active_count c (close_row id rows) ≤ active_count c rows
unfolding close_row
active_count-close c id [] = omega arith
active_count-close c id (r ∷ rows) = ground (arith, active_count-close c id rows)

-- Closing the row that was found closes one open session of the contact.
active_count-close_found :
    (c : String) (rows : List SessionRow) {row : SessionRow}
    → find_active c rows ≡ some row
    → active_count c (close_row row.id rows) + 1 ≤ active_count c rows
unfolding find_active close_row
active_count-close_found c [] h = cc
active_count-close_found c (r ∷ rows) {row} h = ground (
  arith,
  active_count-close_found c rows {row = row},
  active_count-close c row.id rows,
  eq_refl row.id,
)

found_active-found :
    (c : String) (rows : List SessionRow) {row : SessionRow}
    → find_active c rows ≡ some row
    → find_session row.id rows ≢ none
unfolding find_active find_session
found_active-found c [] h = cc
found_active-found c (r ∷ rows) {row} h =
    ground (arith, found_active-found c rows {row = row}, eq_refl row.id)

load-ne-none : (db : Db) (s : Session) → find_session s.id db.sessions ≢ none → load db s ≢ none
unfolding load restore
load-ne-none db s h = ground arith

sessions-repair :
    (db : Db) (s : Session) → (repair_trailing_user_orphan db s).0.sessions ≡ db.sessions
unfolding repair_trailing_user_orphan
sessions-repair db s = elim (Bool-cases (ends_with_user s.messages)) [ inl o ↦ rw o | inr o ↦ rw o ]

create-HasUniqueActive :
    (w : World) (fresh contact model : String)
    → HasUniqueActive w.db
    → find_active contact w.db.sessions ≡ none
    → HasUniqueActive (create w fresh contact model).0.db
unfolding create append_event
create-HasUniqueActive w fresh contact model h free c = ground (
  arith,
  h c,
  active_count-append c w.db.sessions (new_row fresh contact model ∷ []),
  no_active-count contact w.db.sessions free,
  eq_iff contact c,
)

resume-HasUniqueActive :
    (w : World) (fresh contact model : String) (o : Option Session)
    → HasUniqueActive w.db
    → o ≢ none
    → HasUniqueActive (resume w fresh contact model o).0.db
unfolding resume
resume-HasUniqueActive w fresh contact model none h ne = absurd (ne refl)
resume-HasUniqueActive w fresh contact model (some s) h ne = λ c. rw (sessions-repair w.db s) (h c)

found-HasUniqueActive :
    (w : World) (fresh contact model : String) (o : Option SessionRow)
    → HasUniqueActive w.db
    → find_active contact w.db.sessions ≡ o
    → HasUniqueActive (find_or_create w fresh contact model o).0.db
unfolding find_or_create
found-HasUniqueActive w fresh contact model none h e =
    create-HasUniqueActive w fresh contact model h e
found-HasUniqueActive w fresh contact model (some row) h e =
    resume-HasUniqueActive w fresh contact model (load w.db (new_session row.id model contact)) h (
      load-ne-none w.db (new_session row.id model contact)
        (unfold new_session in found_active-found contact w.db.sessions e))

-- If every contact has at most one open session row, then so it is after get_or_create for any
-- contact.
pub get_or_create-HasUniqueActive :
    (w : World) (fresh contact model : String)
    → HasUniqueActive w.db
    → HasUniqueActive (get_or_create w fresh contact model).0.db
unfolding get_or_create
get_or_create-HasUniqueActive w fresh contact model h =
    elim (Option-cases (lookup contact w.loaded)) [
      | inl absent ↦
          rw (absent)
            (found-HasUniqueActive w fresh contact model (find_active contact w.db.sessions) h refl)
      | inr (s, present) ↦ rw present h
    ]

-- If every contact has at most one open session row, then after close_session that holds too and the
-- contact has no open session, in memory or in the tables.
pub close_session-closes :
    (w : World) (contact : String)
    → HasUniqueActive w.db
    → let w' = (close_session w contact).0 in
      HasUniqueActive w'.db
      × (find_active contact w'.db.sessions ≡ none)
      × (lookup contact w'.loaded ≡ none)
unfolding close_session
close_session-closes w contact h = elim (Option-cases (find_active contact w.db.sessions)) [
  | inl free ↦ rw free (h, free, simp (lookup-erase, eq_refl))
  | inr (row, found) ↦ rw found (
    λ c. omega (arith, active_count-close c row.id w.db.sessions, h c),
    count-no_active contact (close_row row.id w.db.sessions)
        (omega (arith, active_count-close_found contact w.db.sessions found, h contact)),
    simp (lookup-erase, eq_refl),
  )
]

-- If every contact has at most one open session row, then get_or_create after a close gives the
-- contact a new session with no messages.
pub fresh_start :
    (w : World) (contact fresh model : String)
    → HasUniqueActive w.db
    → (get_or_create (close_session w contact).0 fresh contact model).1
      ≡ new_session fresh model contact
unfolding get_or_create create
fresh_start w contact fresh model h =
    let (_, free, absent) = close_session-closes w contact h in rw (absent, free)

create-loaded :
    (w : World) (fresh contact model : String)
    → let (w', s) = create w fresh contact model in lookup contact w'.loaded ≡ some s
unfolding create
create-loaded w fresh contact model = simp (lookup-insert, eq_refl)

resume-loaded :
    (w : World) (fresh contact model : String) (o : Option Session)
    → let (w', s) = resume w fresh contact model o in lookup contact w'.loaded ≡ some s
unfolding resume
resume-loaded w fresh contact model none = create-loaded w fresh contact model
resume-loaded w fresh contact model (some s) = simp (lookup-insert, eq_refl)

find_or_create-loaded :
    (w : World) (fresh contact model : String) (o : Option SessionRow)
    → let (w', s) = find_or_create w fresh contact model o in lookup contact w'.loaded ≡ some s
unfolding find_or_create
find_or_create-loaded w fresh contact model none = create-loaded w fresh contact model
find_or_create-loaded w fresh contact model (some row) =
    resume-loaded w fresh contact model (load w.db (new_session row.id model contact))

pub get_or_create-loaded :
    (w : World) (fresh contact model : String)
    → let (w', s) = get_or_create w fresh contact model in lookup contact w'.loaded ≡ some s
unfolding get_or_create
get_or_create-loaded w fresh contact model = elim (Option-cases (lookup contact w.loaded)) [
  | inl absent ↦
      rw absent (find_or_create-loaded w fresh contact model (find_active contact w.db.sessions))
  | inr (s, present) ↦ rw present present
]

reuse_loaded :
    (w : World) (later contact model : String) {s : Session}
    → lookup contact w.loaded ≡ some s
    → get_or_create w later contact model ≡ (w, s)
unfolding get_or_create
reuse_loaded w later contact model h = rw h

-- A second get_or_create of a contact, whatever identifier it would give, returns the session of the
-- first and changes nothing.
pub get_or_create_twice :
    (w : World) (fresh later contact model : String)
    → let (w', s) = get_or_create w fresh contact model in
      get_or_create w' later contact model ≡ (w', s)
get_or_create_twice w fresh later contact model =
    reuse_loaded (get_or_create w fresh contact model).0 later contact model
      (get_or_create-loaded w fresh contact model)
