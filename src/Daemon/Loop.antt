-- ===== src/Daemon/Loop.antt =====
-- lucyd.py, `_message_loop`, against a loop without the dict of waiting messages.
use lucyd.Base.{
  ℕ, String, Text, ◌≡◌, ◌∙◌, refl, ap, Bool, ◌&&◌, Option, none, some, List, [], ◌∷◌, append-nil,
  is_empty, not, join, lit, filter_by, str_eq, eq_refl, Bool-cases, inl, inr, if◌then◌else◌,
}
use lucyd.Base.Dict.{lookup, insert, erase}
use lucyd.Manager.{World}
use lucyd.Pipeline.{Talker}
use lucyd.Operations.{Dispatch, DiaryTurn}
use lucyd.Daemon.{
  Kind, message, reset, compact, QueueItem, Daemon, Got, timeout, cancelled, sentinel, item, Round,
  Next, continue, stop, crash, session_key_of, combined_text, combined_attachments, waiting_of,
  or_nil, drained_dispatch, immediate_dispatch, process_reset_item, drain_control_queue, process,
  drain_messages, drain_all, enqueue, immediate, on_future, compact_item, handle_item, handle_got,
  proceed, message_loop,
}

one_text : (t : Text) → join (lit "\n") (filter_by (λ u. not (is_empty u)) (t ∷ [])) ≡ t
unfolding join
one_text [] = refl
one_text (c ∷ cs) = refl

-- One waiting message is dispatched as it came.
drained-one :
    (i : QueueItem) (talker : Talker)
    → i.response_future ≡ none
    → drained_dispatch (waiting_of i talker) (waiting_of i talker ∷ [])
      ≡ immediate_dispatch i talker
unfolding drained_dispatch waiting_of combined_text combined_attachments immediate_dispatch
drained-one i talker alone = rw (alone, one_text i.text, append-nil i.attachments)

module _ {Result : Type 0} (process_message : Dispatch → World → World × Option Result)
    (is_uuid : String → Bool) (diary : DiaryTurn) where
  -- A message without a future is processed on its own, unless it has no talker, no sender or no content.
  unfoldable pub direct : QueueItem → Option Talker → List QueueItem → Daemon Result → Daemon Result
  direct i none control_after d = d
  direct i (some talker) control_after d =
      if str_eq i.sender ""
      then d
      else if is_empty i.text && is_empty i.attachments
      then d
      else drain_control_queue process_message is_uuid diary control_after
          (process process_message is_uuid diary (immediate_dispatch i talker) d)

  unfoldable pub serve_future :
      QueueItem → Option ℕ → List QueueItem → Daemon Result → Daemon Result × Next
  unfolding direct
  serve_future i (some future) control_after d =
      immediate process_message is_uuid diary i i.talker d
  serve_future i none control_after d = (direct i i.talker control_after d, continue)

  unfoldable pub serve_item :
      QueueItem → Kind → List QueueItem → Daemon Result → Daemon Result × Next
  unfolding serve_future
  serve_item i reset control_after d =
      (process_reset_item process_message is_uuid diary i d, continue)
  serve_item i compact control_after d = (compact_item process_message is_uuid diary i d, continue)
  serve_item i message control_after d = serve_future i i.response_future control_after d

  unfoldable pub serve_got : Got → List QueueItem → Daemon Result → Daemon Result × Next
  unfolding serve_item
  serve_got timeout control_after d = (d, continue)
  serve_got cancelled control_after d = (d, stop)
  serve_got sentinel control_after d = (d, stop)
  serve_got (item i) control_after d = serve_item i i.kind control_after d

  -- The loop that keeps no waiting messages.
  unfoldable pub serve : List Round → Daemon Result → Daemon Result × Next
  unfolding serve_got
  serve [] d = (d, continue)
  serve (r ∷ rounds) d =
      proceed process_message is_uuid diary (λ d'. serve rounds d')
        (serve_got r.got r.control_after
          (drain_control_queue process_message is_uuid diary r.control d))

  enqueue-direct :
      (i : QueueItem) (o : Option Talker) (control_after : List QueueItem) (d : Daemon Result)
      → i.response_future ≡ none
      → enqueue process_message is_uuid diary i o control_after [] d
        ≡ ([], direct i o control_after d)
  unfolding enqueue direct drain_all or_nil lookup insert erase drain_messages
  enqueue-direct i none control_after d alone = refl
  enqueue-direct i (some talker) control_after d alone =
      let key = session_key_of talker i.sender in
      elim (Bool-cases (str_eq i.sender "")) [
        | inl nobody ↦ rw nobody refl
        | inr sender ↦ elim (Bool-cases (is_empty i.text && is_empty i.attachments)) [
          | inl nothing ↦ rw (sender, nothing) refl
          | inr something ↦
              rw (sender, something, eq_refl key)
                (ap
                  (λ call. (
                    [],
                    drain_control_queue process_message is_uuid diary control_after
                        (process process_message is_uuid diary call d),
                  ))
                  (drained-one i talker alone))
        ]
      ]

  on_future-serve :
      (i : QueueItem) (o : Option ℕ) (control_after : List QueueItem) (d : Daemon Result)
      → i.response_future ≡ o
      → on_future process_message is_uuid diary i o control_after [] d
        ≡ ([], (serve_future i o control_after d).0, (serve_future i o control_after d).1)
  unfolding on_future serve_future
  on_future-serve i (some future) control_after d waited = refl
  on_future-serve i none control_after d alone =
      ap (λ t. (t.0, t.1, continue)) (enqueue-direct i i.talker control_after d alone)

  handle_item-serve :
      (i : QueueItem) (k : Kind) (control_after : List QueueItem) (d : Daemon Result)
      → handle_item process_message is_uuid diary i k control_after [] d
        ≡ ([], (serve_item i k control_after d).0, (serve_item i k control_after d).1)
  unfolding handle_item serve_item
  handle_item-serve i reset control_after d = refl
  handle_item-serve i compact control_after d = refl
  handle_item-serve i message control_after d =
      on_future-serve i i.response_future control_after d refl

  handle_got-serve :
      (g : Got) (control_after : List QueueItem) (d : Daemon Result)
      → handle_got process_message is_uuid diary g control_after [] d
        ≡ ([], (serve_got g control_after d).0, (serve_got g control_after d).1)
  unfolding handle_got serve_got drain_all
  handle_got-serve timeout control_after d = refl
  handle_got-serve cancelled control_after d = refl
  handle_got-serve sentinel control_after d = refl
  handle_got-serve (item i) control_after d = handle_item-serve i i.kind control_after d

  proceed-equal :
      (f g : Daemon Result → Daemon Result × Next) (t : Daemon Result × Next)
      → ((d : Daemon Result) → f d ≡ g d)
      → proceed process_message is_uuid diary f t ≡ proceed process_message is_uuid diary g t
  unfolding proceed
  proceed-equal f g (d, continue) same = same d
  proceed-equal f g (d, stop) same = refl
  proceed-equal f g (d, crash) same = refl

  -- The message loop, begun with nothing waiting, does in every sequence of turns what a loop does that
  -- dispatches each message by itself, unchanged and at once: no message ever waits for another, none is
  -- combined with another, and none is left when the loop ends.
  pub message_loop-serve :
      (rounds : List Round) (d : Daemon Result)
      → message_loop process_message is_uuid diary rounds [] d ≡ serve rounds d
  unfolding message_loop serve
  message_loop-serve [] d = refl
  message_loop-serve (r ∷ rounds) d =
      let d' = drain_control_queue process_message is_uuid diary r.control d in
      ap
        (λ t.
          proceed process_message is_uuid diary
            (λ x. message_loop process_message is_uuid diary rounds t.0 x) (t.1, t.2))
        (handle_got-serve r.got r.control_after d')
      ∙ proceed-equal _ _ (serve_got r.got r.control_after d') (λ x. message_loop-serve rounds x)
