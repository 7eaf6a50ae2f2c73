-- ===== src/Queue.antt =====
-- lucyd.py, class `PriorityMessageQueue`: the daemon's inbox, ordered by tier and by arrival.
pub mod Tiers
use lucyd.Base.{
  ℕ, suc, ◌+◌, String, Bool, true, false, ◌&&◌, ◌||◌, Option, none, some, List, [], ◌∷◌, length,
  ltb, leb, ◌==◌, if◌then◌else◌,
}
use lucyd.Pipeline.{Talker, is_ephemeral}

-- The keys of a queued `dict` that the queue reads or sets.
pub record Item : Type 0 where
  pub talker : Option Talker
  pub payload : String
  pub queued_at : Option ℕ
  pub tier : Option ℕ

-- `(priority, seq, item)`; an item `none` is the shutdown sentinel
pub record Entry : Type 0 where
  pub priority : ℕ
  pub seq : ℕ
  pub item : Option Item

-- `entries` is the content of the `asyncio.PriorityQueue`, least first.
pub record Queue : Type 0 where
  pub maxsize : ℕ
  pub seq : ℕ
  pub entries : List Entry

unfoldable pub talker_of : Item → Talker
talker_of i = elim i.talker [ none ↦ Talker.user | some t ↦ t ]

unfoldable pub tier_of : Option Item → ℕ
unfolding talker_of
tier_of none = 2
tier_of (some i) = if is_ephemeral (talker_of i) then 1 else 0

unfoldable pub stamp : ℕ → Option Item → Option Item
unfolding tier_of
stamp now none = none
stamp now (some i) = some (record i { queued_at = some now; tier = some (tier_of (some i)) })

unfoldable pub prioritize : ℕ → Option Item → Queue → Entry × Queue
unfolding tier_of stamp
prioritize now item q = (
  record { priority = tier_of item; seq = suc q.seq; item = stamp now item },
  record q { seq = suc q.seq },
)

-- tuples compare by priority, then by `seq`, which no two entries share
unfoldable pub before : Entry → Entry → Bool
before a b = ltb a.priority b.priority || (a.priority == b.priority && ltb a.seq b.seq)

unfoldable pub insert_entry : Entry → List Entry → List Entry
unfolding before
insert_entry e [] = e ∷ []
insert_entry e (x ∷ xs) =
    let rest = insert_entry e xs in if before e x then e ∷ x ∷ xs else x ∷ rest

-- `full()`: a `maxsize` of 0 is no limit
unfoldable pub full : Queue → Bool
full q = ltb 0 q.maxsize && leb q.maxsize (length q.entries)

-- `put_nowait`: on `QueueFull` (false) the number has been taken all the same
unfoldable pub put_nowait : ℕ → Option Item → Queue → Queue × Bool
unfolding prioritize insert_entry full
put_nowait now item q =
    let (e, numbered) = prioritize now item q in
    if full q
    then (numbered, false)
    else (record numbered { entries = insert_entry e q.entries }, true)

-- `get_nowait`: `none` is `QueueEmpty`
unfoldable pub get_nowait : Queue → Option (Option Item × Queue)
get_nowait q = elim q.entries [ [] ↦ none | e ∷ es ↦ some (e.item, record q { entries = es }) ]

unfoldable pub qsize : Queue → ℕ
qsize q = length q.entries
