-- ===== src/Daemon/Answers.antt =====
-- lucyd.py, `_message_loop`: how the resolved futures grow.
use lucyd.Base.{
  ℕ, String, ◌≡◌, ◌∙◌, refl, sym, ap, Bool, false, ◌&&◌, ◌==◌, Option, none, some, List, [], ◌∷◌,
  ◌++◌, append_assoc, append-nil, is_empty, str_eq, Bool-cases, inl, inr, arith,
}
use lucyd.Manager.{World}
use lucyd.Pipeline.{Talker}
use lucyd.Operations.{Dispatch, DiaryTurn}
use lucyd.Daemon.{
  Kind, message, reset, compact, QueueItem, Daemon, Resolution, Got, timeout, cancelled, sentinel,
  item, Round, Next, continue, stop, crash, is_resolved, resolve, settle, immediate_dispatch,
  process_reset_item, drain_control_queue, process, immediate, compact_item, proceed,
}
use lucyd.Daemon.Loop.{direct, serve_future, serve_item, serve_got, serve}

-- No future is resolved twice.
abbrev pub IsOnce : {Result : Type 0} → List (ℕ × Resolution Result) → Type 0
IsOnce [] = Unit
IsOnce ((future, r) ∷ es) = (is_resolved future es ≡ false) × IsOnce es

-- Steps that only change the sessions or resolve a future that is not done.
pub data Grows {Result : Type 0} : Daemon Result → Daemon Result → Type 0 where
  moved : (w : World) (d : Daemon Result) → Grows d (record d { world = w })
  resolved_one :
      (w : World) (future : ℕ) (r : Resolution Result) (d : Daemon Result)
      → is_resolved future d.resolved ≡ false
      → Grows d (record d { world = w; resolved = d.resolved ++ (future, r) ∷ [] })
  joined : {a b c : Daemon Result} → Grows a b → Grows b c → Grows a c

is_resolved-last :
    {Result : Type 0} (f future : ℕ) (r : Resolution Result) (es : List (ℕ × Resolution Result))
    → is_resolved f es ≡ false
    → (future == f) ≡ false
    → is_resolved f (es ++ (future, r) ∷ []) ≡ false
unfolding is_resolved
is_resolved-last f future r [] h other = rw other refl
is_resolved-last f future r ((g, s) ∷ es) h other = elim (Bool-cases (g == f)) [
  | inl same ↦ absurd (ground (arith, same))
  | inr unlike ↦ rw unlike (is_resolved-last f future r es (ground (arith, unlike)) other)
]

IsOnce-last :
    {Result : Type 0} (future : ℕ) (r : Resolution Result) (es : List (ℕ × Resolution Result))
    → is_resolved future es ≡ false
    → IsOnce es
    → IsOnce (es ++ (future, r) ∷ [])
unfolding is_resolved
IsOnce-last future r [] h once = (refl, tt)
IsOnce-last future r ((g, s) ∷ es) h (first, rest) = elim (Bool-cases (g == future)) [
  | inl same ↦ absurd (ground (arith, same))
  | inr unlike ↦ (
    is_resolved-last g future r es first (ground (arith, unlike)),
    IsOnce-last future r es (ground (arith, unlike)) rest,
  )
]

pub Grows-IsOnce :
    {Result : Type 0} {d e : Daemon Result} → Grows d e → IsOnce d.resolved → IsOnce e.resolved
Grows-IsOnce (moved w d) once = once
Grows-IsOnce (resolved_one w future r d new) once = IsOnce-last future r d.resolved new once
Grows-IsOnce (joined g h) once = Grows-IsOnce h (Grows-IsOnce g once)

pub Grows-keeps :
    {Result : Type 0} {d e : Daemon Result}
    → Grows d e
    → (added : List (ℕ × Resolution Result)) × (e.resolved ≡ d.resolved ++ added)
Grows-keeps (moved w d) = ([], sym (append-nil d.resolved))
Grows-keeps (resolved_one w future r d new) = ((future, r) ∷ [], refl)
Grows-keeps (joined {a} g h) =
    let (first, e) = Grows-keeps g in
    let (second, f) = Grows-keeps h in
    (first ++ second, f ∙ (ap (λ es. es ++ second) e ∙ append_assoc a.resolved first second))

pub resolve-Grows :
    {Result : Type 0} (o : Option ℕ) (r : Resolution Result) (w : World) (d : Daemon Result)
    → Grows d (resolve o r w d)
unfolding resolve
resolve-Grows none r w d = moved w d
resolve-Grows (some future) r w d = elim (Bool-cases (is_resolved future d.resolved)) [
  | inl done ↦ rw done (moved w d)
  | inr new ↦ rw new (resolved_one w future r d new)
]

pub unchanged : {Result : Type 0} (d : Daemon Result) → Grows d d
unchanged d = moved d.world d

module _ {Result : Type 0} (process_message : Dispatch → World → World × Option Result)
    (is_uuid : String → Bool) (diary : DiaryTurn) where
  settle-Grows :
      (future : Option ℕ) (p : World × Option Result) (d : Daemon Result)
      → Grows d (settle process_message is_uuid diary future p d)
  unfolding settle
  settle-Grows future (w, none) d = moved w d
  settle-Grows future (w, some r) d = resolve-Grows future _ w d

  process-Grows :
      (call : Dispatch) (d : Daemon Result) → Grows d (process process_message is_uuid diary call d)
  unfolding process
  process-Grows call d = settle-Grows call.response_future (process_message call d.world) d

  pub reset-Grows :
      (i : QueueItem) (d : Daemon Result)
      → Grows d (process_reset_item process_message is_uuid diary i d)
  unfolding process_reset_item
  reset-Grows i d = resolve-Grows i.response_future _ _ d

  pub compact-Grows :
      (i : QueueItem) (d : Daemon Result) → Grows d (compact_item process_message is_uuid diary i d)
  unfolding compact_item
  compact-Grows i d = resolve-Grows i.response_future _ _ d

  drain_kind-Grows :
      (k : Kind) (i : QueueItem) (items : List QueueItem)
      → ((x : Daemon Result) → Grows x (drain_control_queue process_message is_uuid diary items x))
      → (d : Daemon Result) → i.kind ≡ k
      → Grows d (drain_control_queue process_message is_uuid diary (i ∷ items) d)
  unfolding drain_control_queue
  drain_kind-Grows reset i items rest d e = simp e (joined (reset-Grows i d) (rest _))
  drain_kind-Grows message i items rest d e = simp e (rest d)
  drain_kind-Grows compact i items rest d e = simp e (rest d)

  pub drain-Grows :
      (items : List QueueItem) (d : Daemon Result)
      → Grows d (drain_control_queue process_message is_uuid diary items d)
  unfolding drain_control_queue
  drain-Grows [] d = unchanged d
  drain-Grows (i ∷ items) d = drain_kind-Grows i.kind i items (λ x. drain-Grows items x) d refl

  direct-Grows :
      (i : QueueItem) (o : Option Talker) (control_after : List QueueItem) (d : Daemon Result)
      → Grows d (direct process_message is_uuid diary i o control_after d)
  unfolding direct
  direct-Grows i none control_after d = unchanged d
  direct-Grows i (some talker) control_after d = elim (Bool-cases (str_eq i.sender "")) [
    | inl nobody ↦ rw nobody (unchanged d)
    | inr sender ↦ elim (Bool-cases (is_empty i.text && is_empty i.attachments)) [
      | inl nothing ↦ rw (sender, nothing) (unchanged d)
      | inr something ↦
          rw (sender, something)
            (joined (process-Grows (immediate_dispatch i talker) d) (drain-Grows control_after _))
    ]
  ]

  immediate-Grows :
      (i : QueueItem) (o : Option Talker) (d : Daemon Result)
      → Grows d (immediate process_message is_uuid diary i o d).0
  unfolding immediate
  immediate-Grows i none d = unchanged d
  immediate-Grows i (some talker) d = process-Grows (immediate_dispatch i talker) d

  serve_future-Grows :
      (i : QueueItem) (o : Option ℕ) (control_after : List QueueItem) (d : Daemon Result)
      → Grows d (serve_future process_message is_uuid diary i o control_after d).0
  unfolding serve_future
  serve_future-Grows i none control_after d = direct-Grows i i.talker control_after d
  serve_future-Grows i (some future) control_after d = immediate-Grows i i.talker d

  serve_item-Grows :
      (i : QueueItem) (k : Kind) (control_after : List QueueItem) (d : Daemon Result)
      → Grows d (serve_item process_message is_uuid diary i k control_after d).0
  unfolding serve_item
  serve_item-Grows i reset control_after d = reset-Grows i d
  serve_item-Grows i compact control_after d = compact-Grows i d
  serve_item-Grows i message control_after d =
      serve_future-Grows i i.response_future control_after d

  pub serve_got-Grows :
      (g : Got) (control_after : List QueueItem) (d : Daemon Result)
      → Grows d (serve_got process_message is_uuid diary g control_after d).0
  unfolding serve_got
  serve_got-Grows timeout control_after d = unchanged d
  serve_got-Grows cancelled control_after d = unchanged d
  serve_got-Grows sentinel control_after d = unchanged d
  serve_got-Grows (item i) control_after d = serve_item-Grows i i.kind control_after d

  proceed-Grows :
      (f : Daemon Result → Daemon Result × Next) (d : Daemon Result) (next : Next)
      → ((x : Daemon Result) → Grows x (f x).0)
      → Grows d (proceed process_message is_uuid diary f (d, next)).0
  unfolding proceed
  proceed-Grows f d continue onward = onward d
  proceed-Grows f d stop onward = unchanged d
  proceed-Grows f d crash onward = unchanged d

  pub serve-Grows :
      (rounds : List Round) (d : Daemon Result)
      → Grows d (serve process_message is_uuid diary rounds d).0
  unfolding serve
  serve-Grows [] d = unchanged d
  serve-Grows (r ∷ rounds) d =
      let d' = drain_control_queue process_message is_uuid diary r.control d in
      let (d'', next) = serve_got process_message is_uuid diary r.got r.control_after d' in
      joined (drain-Grows r.control d) (
        joined (serve_got-Grows r.got r.control_after d')
          (proceed-Grows _ d'' next (λ x. serve-Grows rounds x)))
