-- ===== src/Daemon/Commands.antt =====
-- lucyd.py, `_message_loop`: the futures of the commands, which are the resets and the forced compactions.
use lucyd.Base.{
  ℕ, String, ◌≡◌, refl, sym, subst, Bool, true, false, ◌==◌, Option, none, some, List, [], ◌∷◌,
  ◌++◌, All, All-append, Bool-cases, inl, inr, arith, if◌then◌else◌,
}
use lucyd.Manager.{World}
use lucyd.Pipeline.{Talker}
use lucyd.Operations.{Dispatch, DiaryTurn}
use lucyd.Daemon.{
  Kind, message, reset, compact, QueueItem, Daemon, Resolution, Got, timeout, cancelled, sentinel,
  item, Round, Next, continue, stop, crash, is_resolved, resolve, process_reset_item,
  drain_control_queue, immediate, compact_item, proceed, message_loop,
}
use lucyd.Daemon.Loop.{serve_future, serve_item, serve_got, serve, message_loop-serve}
use lucyd.Daemon.Answers.{
  IsOnce, Grows, moved, joined, Grows-IsOnce, Grows-keeps, drain-Grows, serve_got-Grows,
  serve-Grows,
}

abbrev pub future_of : Option ℕ → List ℕ
future_of none = []
future_of (some future) = future ∷ []

-- the futures of the resets among items of the control queue
abbrev pub resets_of : List QueueItem → List ℕ
resets_of [] = []
resets_of (i ∷ items) =
    elim i.kind [ reset ↦ future_of i.response_future | message ↦ [] | compact ↦ [] ]
    ++ resets_of items

-- the future of a command that the inbox gives
abbrev pub command_of : Got → List ℕ
command_of timeout = []
command_of cancelled = []
command_of sentinel = []
command_of (item i) = elim i.kind [
  | reset ↦ future_of i.response_future
  | message ↦ []
  | compact ↦ future_of i.response_future
]

-- The loop ends at the sentinel, when it is cancelled, and by the KeyError of a message that has a future
-- and no talker.
abbrev pub keyed : Option ℕ → Option Talker → Bool
keyed none talker = true
keyed (some future) none = false
keyed (some future) (some talker) = true

abbrev pub goes_on : Got → Bool
goes_on timeout = true
goes_on cancelled = false
goes_on sentinel = false
goes_on (item i) = elim i.kind [
  | reset ↦ true
  | message ↦ keyed i.response_future i.talker
  | compact ↦ true
]

-- The futures of the commands that the loop finds at the start of a turn or takes from the inbox, up to
-- its end.
abbrev pub commands : List Round → List ℕ
commands [] = []
commands (r ∷ rounds) =
    resets_of r.control ++ (command_of r.got ++ (if goes_on r.got then commands rounds else []))

abbrev pub AreResolved : {Result : Type 0} → List ℕ → Daemon Result → Type 0
AreResolved futures d = All (λ f. is_resolved f d.resolved ≡ true) futures

is_resolved-append :
    {Result : Type 0} (f : ℕ) (es added : List (ℕ × Resolution Result))
    → is_resolved f es ≡ true
    → is_resolved f (es ++ added) ≡ true
unfolding is_resolved
is_resolved-append f [] added h = cc
is_resolved-append f ((g, r) ∷ es) added h = elim (Bool-cases (g == f)) [
  | inl same ↦ rw same refl
  | inr other ↦ rw other (is_resolved-append f es added (ground (arith, other)))
]

AreResolved-Grows :
    {Result : Type 0} (futures : List ℕ) {d e : Daemon Result}
    → Grows d e
    → AreResolved futures d
    → AreResolved futures e
AreResolved-Grows [] grows h = tt
AreResolved-Grows (f ∷ futures) {d} grows (first, rest) =
    let (added, same) = Grows-keeps grows in
    (
      subst (λ es. is_resolved f es ≡ true) (sym same)
          (is_resolved-append f d.resolved added first),
      AreResolved-Grows futures grows rest,
    )

is_resolved-last_one :
    {Result : Type 0} (future : ℕ) (r : Resolution Result) (es : List (ℕ × Resolution Result))
    → is_resolved future (es ++ (future, r) ∷ []) ≡ true
unfolding is_resolved
is_resolved-last_one future r [] = ground arith
is_resolved-last_one future r ((g, s) ∷ es) = elim (Bool-cases (g == future)) [
  | inl same ↦ rw same refl
  | inr other ↦ rw other (is_resolved-last_one future r es)
]

resolve-AreResolved :
    {Result : Type 0} (o : Option ℕ) (r : Resolution Result) (w : World) (d : Daemon Result)
    → AreResolved (future_of o) (resolve o r w d)
unfolding resolve
resolve-AreResolved none r w d = tt
resolve-AreResolved (some future) r w d = elim (Bool-cases (is_resolved future d.resolved)) [
  | inl done ↦ simp done (refl, tt)
  | inr new ↦ simp new (is_resolved-last_one future r d.resolved, tt)
]

module _ {Result : Type 0} (process_message : Dispatch → World → World × Option Result)
    (is_uuid : String → Bool) (diary : DiaryTurn) where
  reset-AreResolved :
      (i : QueueItem) (d : Daemon Result)
      → AreResolved
          (future_of i.response_future)
          (process_reset_item process_message is_uuid diary i d)
  unfolding process_reset_item
  reset-AreResolved i d = resolve-AreResolved i.response_future _ _ d

  compact-AreResolved :
      (i : QueueItem) (d : Daemon Result)
      → AreResolved (future_of i.response_future) (compact_item process_message is_uuid diary i d)
  unfolding compact_item
  compact-AreResolved i d = resolve-AreResolved i.response_future _ _ d

  drain_kind-AreResolved :
      (k : Kind) (i : QueueItem) (items : List QueueItem)
      → ((x : Daemon Result)
          → AreResolved
              (resets_of items)
              (drain_control_queue process_message is_uuid diary items x))
      → (d : Daemon Result) → i.kind ≡ k
      → AreResolved
          (resets_of (i ∷ items))
          (drain_control_queue process_message is_uuid diary (i ∷ items) d)
  unfolding drain_control_queue
  drain_kind-AreResolved reset i items rest d e = simp e (
      All-append _ (future_of i.response_future) (resets_of items)
        (AreResolved-Grows (future_of i.response_future)
          (drain-Grows process_message is_uuid diary items _) (reset-AreResolved i d))
        (rest _))
  drain_kind-AreResolved message i items rest d e = simp e (rest d)
  drain_kind-AreResolved compact i items rest d e = simp e (rest d)

  drain-AreResolved :
      (items : List QueueItem) (d : Daemon Result)
      → AreResolved (resets_of items) (drain_control_queue process_message is_uuid diary items d)
  drain-AreResolved [] d = tt
  drain-AreResolved (i ∷ items) d =
      drain_kind-AreResolved i.kind i items (λ x. drain-AreResolved items x) d refl

  -- whether the loop goes on behind a turn
  abbrev Onward : Bool → Next → Type 0
  Onward true next = next ≡ continue
  Onward false next = Unit

  immediate-Onward :
      (i : QueueItem) (future : ℕ) (o : Option Talker) (d : Daemon Result)
      → Onward (keyed (some future) o) (immediate process_message is_uuid diary i o d).1
  unfolding immediate
  immediate-Onward i future none d = tt
  immediate-Onward i future (some talker) d = refl

  serve_future-Onward :
      (i : QueueItem) (o : Option ℕ) (control_after : List QueueItem) (d : Daemon Result)
      → Onward (keyed o i.talker) (serve_future process_message is_uuid diary i o control_after d).1
  unfolding serve_future
  serve_future-Onward i none control_after d = refl
  serve_future-Onward i (some future) control_after d = immediate-Onward i future i.talker d

  -- A turn of the inbox resolves its command and tells whether the loop goes on.
  abbrev Served : Got → Daemon Result × Next → Type 0
  Served g (d, next) = AreResolved (command_of g) d × Onward (goes_on g) next

  serve_item-Served :
      (i : QueueItem) (k : Kind) (control_after : List QueueItem) (d : Daemon Result)
      → i.kind ≡ k
      → Served (item i) (serve_item process_message is_uuid diary i k control_after d)
  unfolding serve_item
  serve_item-Served i reset control_after d e = simp e (reset-AreResolved i d, refl)
  serve_item-Served i compact control_after d e = simp e (compact-AreResolved i d, refl)
  serve_item-Served i message control_after d e =
      simp e (tt, serve_future-Onward i i.response_future control_after d)

  serve_got-Served :
      (g : Got) (control_after : List QueueItem) (d : Daemon Result)
      → Served g (serve_got process_message is_uuid diary g control_after d)
  unfolding serve_got
  serve_got-Served timeout control_after d = (tt, refl)
  serve_got-Served cancelled control_after d = (tt, tt)
  serve_got-Served sentinel control_after d = (tt, tt)
  serve_got-Served (item i) control_after d = serve_item-Served i i.kind control_after d refl

  proceed-AreResolved :
      (goes : Bool) (rounds : List Round) (d : Daemon Result) (next : Next)
      → Onward goes next
      → ((x : Daemon Result)
          → AreResolved (commands rounds) (serve process_message is_uuid diary rounds x).0)
      → AreResolved
          (if goes then commands rounds else [])
          (proceed process_message is_uuid diary
            (λ x. serve process_message is_uuid diary rounds x)
            (d, next)).0
  unfolding proceed
  proceed-AreResolved false rounds d next on rest = tt
  proceed-AreResolved true rounds d next on rest = rw on (rest d)

  proceed-Grows :
      (rounds : List Round) (d : Daemon Result) (next : Next)
      → Grows d
          (proceed process_message is_uuid diary
            (λ x. serve process_message is_uuid diary rounds x)
            (d, next)).0
  unfolding proceed
  proceed-Grows rounds d continue = serve-Grows process_message is_uuid diary rounds d
  proceed-Grows rounds d stop = moved d.world d
  proceed-Grows rounds d crash = moved d.world d

  serve-AreResolved :
      (rounds : List Round) (d : Daemon Result)
      → AreResolved (commands rounds) (serve process_message is_uuid diary rounds d).0
  unfolding serve
  serve-AreResolved [] d = tt
  serve-AreResolved (r ∷ rounds) d =
      let d' = drain_control_queue process_message is_uuid diary r.control d in
      let (d'', next) = serve_got process_message is_uuid diary r.got r.control_after d' in
      let (served, on) = serve_got-Served r.got r.control_after d' in
      let later = proceed-Grows rounds d'' next in
      All-append _ (resets_of r.control) _
        (AreResolved-Grows (resets_of r.control)
          (joined (serve_got-Grows process_message is_uuid diary r.got r.control_after d') later)
          (drain-AreResolved r.control d))
        (All-append _ (command_of r.got) _ (AreResolved-Grows (command_of r.got) later served) (
          proceed-AreResolved (goes_on r.got) rounds d'' next on (λ x. serve-AreResolved rounds x)))

  -- If no future was resolved twice before, none is after the message loop, begun with nothing waiting, on
  -- every sequence of turns, whatever process_message answers and however often an item or its future comes
  -- back; what was resolved before stays so, with its result; and the future of every reset that is in the
  -- control queue at the start of a turn, and of every reset or forced compaction that the inbox gives, up to
  -- the end of the loop, is resolved.
  pub message_loop-IsOnce :
      (rounds : List Round) (d : Daemon Result)
      → IsOnce d.resolved
      → let d' = (message_loop process_message is_uuid diary rounds [] d).0 in
        IsOnce d'.resolved
        × ((added : List (ℕ × Resolution Result)) × (d'.resolved ≡ d.resolved ++ added))
        × AreResolved (commands rounds) d'
  message_loop-IsOnce rounds d once =
      let run = message_loop-serve process_message is_uuid diary rounds d in
      let grows =
        subst (λ t. Grows d t.0) (sym run) (serve-Grows process_message is_uuid diary rounds d) in
      (
        Grows-IsOnce grows once,
        Grows-keeps grows,
        subst (λ t. AreResolved (commands rounds) t.0) (sym run) (serve-AreResolved rounds d),
      )
