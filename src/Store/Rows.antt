-- ===== src/Store/Rows.antt =====
-- How the statements on sessions.messages meet the rows of one session.
use lucyd.Base.{
  ℕ, suc, ◌+◌, ◌<◌, String, ◌≡◌, refl, ap, false, List, [], ◌∷◌, ◌++◌, arith, str_eq, eq_iff,
  eq_refl, length, ◌∙◌,
}
use lucyd.Message.{Message}
use lucyd.Store.{
  MessageRow, rows_of, rows_from, order_by_ordinal, contents, delete_ordinal, delete_all,
}

pub rows_of-append :
    (id : String) (xs ys : List MessageRow) → rows_of id (xs ++ ys) ≡ rows_of id xs ++ rows_of id ys
unfolding rows_of
rows_of-append id [] ys = refl
rows_of-append id (r ∷ xs) ys = ground (arith, rows_of-append id xs ys)

pub rows_of-rows_from :
    (id : String) (i : ℕ) (ms : List Message) → rows_of id (rows_from id i ms) ≡ rows_from id i ms
unfolding rows_of rows_from
rows_of-rows_from id i [] = refl
rows_of-rows_from id i (m ∷ ms) = rw (eq_refl id, rows_of-rows_from id (i + 1) ms)

-- The rows of one session are not seen by a query for another.
pub rows_of-rows_from_ne :
    (id j : String) (i : ℕ) (ms : List Message)
    → str_eq id j ≡ false
    → rows_of j (rows_from id i ms) ≡ []
unfolding rows_of rows_from
rows_of-rows_from_ne id j i [] h = refl
rows_of-rows_from_ne id j i (m ∷ ms) h = rw (h, rows_of-rows_from_ne id j (i + 1) ms h)

pub rows_of-delete_all :
    (id : String) (rows : List MessageRow) → rows_of id (delete_all id rows) ≡ []
unfolding rows_of delete_all
rows_of-delete_all id [] = refl
rows_of-delete_all id (r ∷ rows) = ground (arith, rows_of-delete_all id rows)

pub rows_of-delete_all_ne :
    (id j : String) (rows : List MessageRow)
    → str_eq id j ≡ false
    → rows_of j (delete_all id rows) ≡ rows_of j rows
unfolding rows_of delete_all
rows_of-delete_all_ne id j [] h = refl
rows_of-delete_all_ne id j (r ∷ rows) h = ground (
  arith,
  rows_of-delete_all_ne id j rows h,
  eq_iff r.session_id id,
  eq_iff r.session_id j,
  eq_iff id j,
)

pub rows_of-delete_ordinal :
    (id : String) (k : ℕ) (rows : List MessageRow)
    → rows_of id (delete_ordinal id k rows) ≡ delete_ordinal id k (rows_of id rows)
unfolding rows_of delete_ordinal
rows_of-delete_ordinal id k [] = refl
rows_of-delete_ordinal id k (r ∷ rows) = ground (arith, rows_of-delete_ordinal id k rows)

pub rows_of-delete_ordinal_ne :
    (id j : String) (k : ℕ) (rows : List MessageRow)
    → str_eq id j ≡ false
    → rows_of j (delete_ordinal id k rows) ≡ rows_of j rows
unfolding rows_of delete_ordinal
rows_of-delete_ordinal_ne id j k [] h = refl
rows_of-delete_ordinal_ne id j k (r ∷ rows) h = ground (
  arith,
  rows_of-delete_ordinal_ne id j k rows h,
  eq_iff r.session_id id,
  eq_iff r.session_id j,
  eq_iff id j,
)

-- Deleting the ordinal after the last one, or an earlier one that is not there, changes nothing.
delete_ordinal-rows_from :
    (id : String) (k i : ℕ) (ms : List Message)
    → k < i
    → delete_ordinal id k (rows_from id i ms) ≡ rows_from id i ms
unfolding delete_ordinal rows_from
delete_ordinal-rows_from id k i [] h = refl
delete_ordinal-rows_from id k i (m ∷ ms) h =
    ground (arith, delete_ordinal-rows_from id k (i + 1) ms (omega arith))

-- Deleting the last ordinal leaves the rows of the front.
pub delete_ordinal-last :
    (id : String) (i : ℕ) (ms : List Message) (m : Message)
    → delete_ordinal id (i + length ms) (rows_from id i (ms ++ m ∷ [])) ≡ rows_from id i ms
unfolding delete_ordinal rows_from
delete_ordinal-last id i [] m = ground (arith, eq_refl id)
delete_ordinal-last id i (x ∷ ms) m =
    let e : i + suc (length ms) ≡ i + 1 + length ms = omega arith in
    ground (arith, e, delete_ordinal-last id (i + 1) ms m)

pub rows_from-append :
    (id : String) (i : ℕ) (xs ys : List Message)
    → rows_from id i (xs ++ ys) ≡ rows_from id i xs ++ rows_from id (i + length xs) ys
unfolding rows_from
rows_from-append id i [] ys = ap (λ (k : ℕ). rows_from id k ys) (omega arith)
rows_from-append id i (x ∷ xs) ys =
    let e : i + suc (length xs) ≡ i + 1 + length xs = omega arith in
    rw e (
      ap (λ r. record { session_id = id; ordinal = i; content = x } ∷ r)
        (rows_from-append id (i + 1) xs ys))

-- Rows with rising ordinals are in order.
order-rows_from :
    (id : String) (i : ℕ) (ms : List Message)
    → order_by_ordinal (rows_from id i ms) ≡ rows_from id i ms
unfolding order_by_ordinal rows_from
order-rows_from id i [] = refl
order-rows_from id i (m ∷ []) = refl
order-rows_from id i (m ∷ n ∷ ms) = rw (order-rows_from id (i + 1) (n ∷ ms)) (ground arith)

contents-rows_from : (id : String) (i : ℕ) (ms : List Message) → contents (rows_from id i ms) ≡ ms
unfolding contents rows_from
contents-rows_from id i [] = refl
contents-rows_from id i (m ∷ ms) = ap (λ r. m ∷ r) (contents-rows_from id (i + 1) ms)

-- What is read back from numbered rows is the list that was written.
pub contents-order-rows_from :
    (id : String) (i : ℕ) (ms : List Message) → contents (order_by_ordinal (rows_from id i ms)) ≡ ms
contents-order-rows_from id i ms =
    ap contents (order-rows_from id i ms) ∙ contents-rows_from id i ms
