-- ===== src/Daemon.antt =====
-- lucyd.py: the message loop of the daemon, and the resets that it carries out. What the queues give in a
-- turn of the loop is a `Round`; `process_message` is a parameter.
mod Items
pub mod Loop
pub mod Answers
pub mod Commands
unfoldable pub use Items.{
  talker_name, session_key_of, close_all, is_resolved, resolve, combined_text, combined_attachments,
  waiting_of, or_nil, drained_dispatch, immediate_dispatch,
}
pub use Items.{
  Kind, QueueItem, ResetResult, Resolution, Daemon, Waiting, Got, Round, Next, message, reset,
  compact, all_reset, id_reset, contact_reset, no_session_id, no_session_contact, reset_done,
  compact_done, answered, timeout, cancelled, sentinel, item, continue, stop, crash,
}
use Prim.Native.String.{◌++◌ as append_string}
use lucyd.Base.{
  ℕ, String, Text, Bool, true, false, not, ◌&&◌, ◌||◌, Option, none, some, List, [], ◌∷◌, ◌++◌, map,
  filter_by, is_empty, length, lit, join, str_eq, if◌then◌else◌,
}
use lucyd.Base.Dict.{Dict, lookup, insert, erase}
use lucyd.Manager.{World, close_session, close_session_by_id}
use lucyd.Pipeline.{Talker}
use lucyd.Operations.{Dispatch, Compacted, DiaryTurn, handle_compact, list_contacts, user_key_of}

-- `process_message` gives the answer that its `_resolve` is called with, or none if it ends without;
-- `is_uuid` is `_is_uuid`, and `diary` what `_handle_compact` reads
module _ {Result : Type 0} (process_message : Dispatch → World → World × Option Result)
    (is_uuid : String → Bool) (diary : DiaryTurn) where
  -- `_reset_session`
  unfoldable pub reset_session : String → Bool → World → World × ResetResult
  unfolding close_all list_contacts user_key_of
  reset_session target by_id w =
      let contact = if str_eq target "user" then user_key_of diary.user_name else target in
      let (closed_id, found_id) = close_session_by_id w target in
      let (closed, found) = close_session w contact in
      if str_eq target "all"
      then (close_all (list_contacts w) w, all_reset (length (list_contacts w)))
      else if by_id || is_uuid target
      then (if found_id then (closed_id, id_reset target) else (w, no_session_id target))
      else (closed, if found then contact_reset contact else no_session_contact contact)

  -- `_process_reset_item`
  unfoldable pub process_reset_item : QueueItem → Daemon Result → Daemon Result
  unfolding reset_session resolve
  process_reset_item i d =
      let (w, r) =
        if i.all
        then reset_session "all" false d.world
        else if not (str_eq i.session_id "")
        then reset_session i.session_id true d.world
        else reset_session i.sender false d.world in
      resolve i.response_future (reset_done r) w d

  -- `_drain_control_queue`
  unfoldable pub drain_control_queue : List QueueItem → Daemon Result → Daemon Result
  unfolding process_reset_item
  drain_control_queue [] d = d
  drain_control_queue (i ∷ items) d = elim i.kind [
    | message ↦ drain_control_queue items d
    | reset ↦ drain_control_queue items (process_reset_item i d)
    | compact ↦ drain_control_queue items d
  ]

  -- what a call of `process_message` left: the sessions and, if it has an answer, the resolved future
  unfoldable pub settle : Option ℕ → World × Option Result → Daemon Result → Daemon Result
  unfolding resolve
  settle future (w, none) d = record d { world = w }
  settle future (w, some r) d = resolve future (answered r) w d

  unfoldable pub process : Dispatch → Daemon Result → Daemon Result
  unfolding settle
  process call d = settle call.response_future (process_message call d.world) d

  -- `drain_pending`, on the messages of the session
  unfoldable pub drain_messages : List Waiting → Daemon Result → Daemon Result
  unfolding process drained_dispatch
  drain_messages [] d = d
  drain_messages (first ∷ msgs) d = process (drained_dispatch first (first ∷ msgs)) d

  -- `for s in list(pending.keys()): await drain_pending(s)`
  unfoldable pub drain_all :
      List String → Dict (List Waiting) → Daemon Result → Dict (List Waiting) × Daemon Result
  unfolding drain_messages lookup erase or_nil
  drain_all [] pending d = (pending, d)
  drain_all (s ∷ keys) pending d =
      drain_all keys (erase s pending) (drain_messages (or_nil (lookup s pending)) d)

  -- a queued message without a future: it waits, the others are waited for, and all are drained, and then
  -- the control queue
  unfoldable pub enqueue :
      QueueItem
      → Option Talker
      → List QueueItem
      → Dict (List Waiting)
      → Daemon Result
      → Dict (List Waiting) × Daemon Result
  unfolding drain_all waiting_of drain_control_queue insert session_key_of
  enqueue i none control_after pending d = (pending, d)
  enqueue i (some talker) control_after pending d =
      let key = session_key_of talker i.sender in
      let pending' = insert key (or_nil (lookup key pending) ++ waiting_of i talker ∷ []) pending in
      if str_eq i.sender ""
      then (pending, d)
      else if is_empty i.text && is_empty i.attachments
      then (pending, d)
      else (let (left, d') = drain_all (map (λ e. e.0) pending') pending' d in
          (left, drain_control_queue control_after d'))

  -- `item["talker"]` of a message with a future is a KeyError without one
  unfoldable pub immediate : QueueItem → Option Talker → Daemon Result → Daemon Result × Next
  unfolding process immediate_dispatch
  immediate i none d = (d, crash)
  immediate i (some talker) d = (process (immediate_dispatch i talker) d, continue)

  unfoldable pub on_future :
      QueueItem
      → Option ℕ
      → List QueueItem
      → Dict (List Waiting)
      → Daemon Result
      → Dict (List Waiting) × Daemon Result × Next
  unfolding immediate enqueue
  on_future i (some future) control_after pending d =
      let (d', next) = immediate i i.talker d in (pending, d', next)
  on_future i none control_after pending d =
      let (pending', d') = enqueue i i.talker control_after pending d in (pending', d', continue)

  unfoldable pub compact_item : QueueItem → Daemon Result → Daemon Result
  unfolding handle_compact resolve
  compact_item i d =
      let (w, r) = handle_compact process_message diary d.world in
      resolve i.response_future (compact_done r) w d

  unfoldable pub handle_item :
      QueueItem
      → Kind
      → List QueueItem
      → Dict (List Waiting)
      → Daemon Result
      → Dict (List Waiting) × Daemon Result × Next
  unfolding on_future compact_item process_reset_item
  handle_item i reset control_after pending d = (pending, process_reset_item i d, continue)
  handle_item i compact control_after pending d = (pending, compact_item i d, continue)
  handle_item i message control_after pending d =
      on_future i i.response_future control_after pending d

  -- what the loop does with what the inbox gave
  unfoldable pub handle_got :
      Got
      → List QueueItem
      → Dict (List Waiting)
      → Daemon Result
      → Dict (List Waiting) × Daemon Result × Next
  unfolding handle_item drain_all
  handle_got timeout control_after pending d = (pending, d, continue)
  handle_got cancelled control_after pending d = (pending, d, stop)
  handle_got sentinel control_after pending d =
      let (pending', d') = drain_all (map (λ e. e.0) pending) pending d in (pending', d', stop)
  handle_got (item i) control_after pending d = handle_item i i.kind control_after pending d

  -- whether the loop goes on
  unfoldable pub proceed :
      (Daemon Result → Daemon Result × Next) → Daemon Result × Next → Daemon Result × Next
  proceed onward (d, continue) = onward d
  proceed onward (d, stop) = (d, stop)
  proceed onward (d, crash) = (d, crash)

  -- `_message_loop`, over what the queues give in its turns; it ends with them, or stops before
  unfoldable pub message_loop :
      List Round → Dict (List Waiting) → Daemon Result → Daemon Result × Next
  unfolding handle_got drain_control_queue proceed
  message_loop [] pending d = (d, continue)
  message_loop (r ∷ rounds) pending d =
      let (pending', d', next) =
        handle_got r.got r.control_after pending (drain_control_queue r.control d) in
      proceed (λ x. message_loop rounds pending' x) (d', next)
