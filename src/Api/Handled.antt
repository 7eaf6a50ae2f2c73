-- ===== src/Api/Handled.antt =====
-- api.py: what the handlers put on the queues.
use lucyd.Base.{
  ℕ, map, ◌≡◌, ◌∙◌, refl, ap, String, Text, Bool, true, false, not, ◌&&◌, ◌⊎◌, inl, inr, Option,
  none, some, List, [], ◌∷◌, ◌++◌, drop, length, is_empty, lit, starts_with, text_eq, text_eq_iff,
  mem_name, leb, str_eq, eq_iff, eq_refl, Bool-cases, arith,
}
use lucyd.Pipeline.{Talker}
use lucyd.Message.{Json, Fields}
use lucyd.Manager.{World, append_outbound_to_user}
use lucyd.Operations.{user_key_of}
use lucyd.Tools.Truncate.{strip}
use lucyd.Daemon.{message, reset, compact, QueueItem}
use lucyd.Api.Requests.{
  RawAttachment, Body, Parsed, malformed, not_object, body, Attachment, senders_of, sender_or,
  message_item, control_item, attachment_ref,
}
use lucyd.Api.Handlers.{
  HttpApi, HttpRequest, State, Reply, json, awaiting, elsewhere, Route, chat, inbound, system_event,
  agent_action, outbound_send, reset_sessions, compact_user, other, route, post_route,
  extract_attachments, post_awaited, chat_extracted, inbound_extracted, ephemeral_extracted,
  append_delivered, handle_outbound_send, handle_reset, handle_compact_request, handle_body,
  on_malformed, on_not_object, handle,
}

-- What a queued item may say of its origin: a message names a talker and one of its senders, and no reset
-- goes on the inbox.
abbrev pub IsLegit : String → QueueItem → Type 0
IsLegit user_name i = elim i.kind [
  | message ↦
      (talker : Talker) × (i.talker ≡ some talker)
      × (mem_name i.sender (senders_of user_name talker) ≡ true)
  | reset ↦ ⊥
  | compact ↦ Unit
]

abbrev pub is_error : Reply → Bool
is_error (json code text) = leb 400 code
is_error (awaiting future) = false
is_error elsewhere = false

-- the queues, what was sent and the sessions are the same
abbrev pub IsQuiet : State → State → Type 0
IsQuiet s t =
    (t.queue ≡ s.queue)
    × (t.control_queue ≡ s.control_queue)
    × (t.sent ≡ s.sent)
    × (t.world ≡ s.world)

-- Files may have been added.
abbrev pub Grown : State → State → Type 0
Grown s t = (added : List (Text × Text)) × (t.files ≡ added ++ s.files)

-- One legitimate item is added to the inbox, and nothing else but files changes.
abbrev pub Queued : String → State → State → Type 0
Queued user_name s t =
    (i : QueueItem) × IsLegit user_name i
    × (t.queue ≡ s.queue ++ i ∷ [])
    × (t.control_queue ≡ s.control_queue)
    × (t.sent ≡ s.sent)
    × (t.world ≡ s.world)
    × Grown s t

-- One reset is added to the control queue, with the future that the answer waits for, and nothing else
-- changes.
abbrev pub ResetAsked : State → State → Reply → Type 0
ResetAsked s t reply =
    (i : QueueItem) × (future : ℕ) × (i.kind ≡ reset)
    × (i.response_future ≡ some future)
    × (reply ≡ awaiting future)
    × (t.control_queue ≡ s.control_queue ++ i ∷ [])
    × (t.queue ≡ s.queue)
    × (t.sent ≡ s.sent)
    × (t.world ≡ s.world)
    × (t.files ≡ s.files)

-- The sessions stay, or the user's session gets the text.
abbrev pub Recorded : String → Text → World → World → Type 0
Recorded user_name text w w' =
    (w' ≡ w)
    ⊎ ((fresh : String) × (refs : List Json) × (metadata : Option Fields) × (w'
          ≡ (append_outbound_to_user w fresh (user_key_of user_name) text refs metadata).0))

-- A text that the bridge delivered counts as sent, and may be recorded; nothing else changes.
abbrev pub Delivered : String → (Text → List RawAttachment → Bool) → State → State → Type 0
Delivered user_name send_to_user s t =
    (text : Text) × (attachments : List RawAttachment) × (send_to_user text attachments ≡ true)
    × (t.sent ≡ s.sent ++ text ∷ [])
    × Recorded user_name text s.world t.world
    × (t.queue ≡ s.queue)
    × (t.control_queue ≡ s.control_queue)
    × (t.files ≡ s.files)

-- A handler changes nothing but files, or it answers without an error and does one of the three.
abbrev pub Handled : String → (Text → List RawAttachment → Bool) → State → State × Reply → Type 0
Handled user_name send_to_user s (t, reply) =
    (IsQuiet s t × Grown s t)
    ⊎ ((is_error reply ≡ false)
        × (Queued user_name s t ⊎ ResetAsked s t reply ⊎ Delivered user_name send_to_user s t))

own_name : (name : String) → mem_name name (senders_of name Talker.user) ≡ true
unfolding mem_name senders_of
own_name name = rw (eq_refl name) refl

pub get_only : (method path : String) → post_route path ≡ other → route method path ≡ other
unfolding route
get_only method path h = elim (Bool-cases (str_eq method "POST")) [
  | inl posted ↦ rw posted h
  | inr got ↦ rw got refl
]

starts_with-drop : (t p : Text) → starts_with t p ≡ true → t ≡ p ++ drop (length p) t
unfolding starts_with
starts_with-drop t [] h = refl
starts_with-drop [] (c ∷ p) h = cc
starts_with-drop (d ∷ t) (c ∷ p) h = ground (arith, starts_with-drop t p)

pub bearer-token :
    (header token : Text)
    → starts_with header (lit "Bearer ") ≡ true
    → text_eq (drop 7 header) token ≡ true
    → header ≡ lit "Bearer " ++ token
unfolding lit
bearer-token header token bearer right =
    starts_with-drop header (lit "Bearer ") bearer
    ∙ ap (λ t. lit "Bearer " ++ t) ((text_eq_iff (drop 7 header) token).0 right)

pub local-remote :
    (o : Option String)
    → mem_name (sender_or "" o) ("127.0.0.1" ∷ "::1" ∷ []) ≡ true
    → (o ≡ some "127.0.0.1") ⊎ (o ≡ some "::1")
unfolding mem_name sender_or
local-remote none h = cc
local-remote (some a) h = elim (Bool-cases (str_eq a "127.0.0.1")) [
  | inl four ↦ inl (ap some ((eq_iff a "127.0.0.1").0 four))
  | inr not_four ↦ inr (ap some ((eq_iff a "::1").0 (ground arith)))
]

module _ (api : HttpApi) (send_to_user : Text → List RawAttachment → Bool) where
  still : (s : State) → IsQuiet s s × Grown s s
  still s = ((refl, refl, refl, refl), ([], refl))

  -- a state with more files
  abbrev grown : List (Text × Text) → State → State
  grown files s = record s { files = files ++ s.files }

  chat_extracted-Handled :
      (files : List (Text × Text)) (b : Body) (s : State) (o : Option (List Attachment))
      → Handled api.user_name send_to_user s (chat_extracted api send_to_user b (grown files s) o)
  unfolding chat_extracted post_awaited message_item
  chat_extracted-Handled files b s none = inl ((refl, refl, refl, refl), (files, refl))
  chat_extracted-Handled files b s (some attachments) =
      elim (Bool-cases (is_empty (strip b.message) && is_empty attachments)) [
        | inl nothing ↦ rw nothing (inl ((refl, refl, refl, refl), (files, refl)))
        | inr something ↦
            elim (Bool-cases (
              mem_name (sender_or "agentctl" b.sender)
                (senders_of api.user_name Talker.operator))) [
                  | inr stranger ↦
                      rw (something, stranger) (inl ((refl, refl, refl, refl), (files, refl)))
                  | inl known ↦
                      rw (something, known)
                        (inr (
                          refl,
                          inl (
                            _,
                            (Talker.operator, refl, known),
                            refl,
                            refl,
                            refl,
                            refl,
                            (files, refl),
                          ),
                        ))
                ]
      ]

  inbound_extracted-Handled :
      (files : List (Text × Text)) (channel : String) (b : Body) (s : State)
      (o : Option (List Attachment))
      → Handled api.user_name send_to_user s
          (inbound_extracted api send_to_user channel b (grown files s) o)
  unfolding inbound_extracted post_awaited message_item
  inbound_extracted-Handled files channel b s none = inl ((refl, refl, refl, refl), (files, refl))
  inbound_extracted-Handled files channel b s (some attachments) =
      elim (Bool-cases (is_empty (strip b.message) && is_empty attachments)) [
        | inl nothing ↦ rw nothing (inl ((refl, refl, refl, refl), (files, refl)))
        | inr something ↦ rw something (
            inr (
              refl,
              inl (
                _,
                (Talker.user, refl, own_name api.user_name),
                refl,
                refl,
                refl,
                refl,
                (files, refl),
              ),
            ))
      ]

  ephemeral_extracted-Handled :
      (files : List (Text × Text)) (talker : Talker) (b : Body) (s : State)
      (o : Option (List Attachment))
      → Handled api.user_name send_to_user s
          (ephemeral_extracted api send_to_user talker b (grown files s) o)
  unfolding ephemeral_extracted message_item
  ephemeral_extracted-Handled files talker b s none = inl ((refl, refl, refl, refl), (files, refl))
  ephemeral_extracted-Handled files talker b s (some attachments) =
      elim (Bool-cases (is_empty (strip b.message) && is_empty attachments)) [
        | inl nothing ↦ rw nothing (inl ((refl, refl, refl, refl), (files, refl)))
        | inr something ↦
            elim (Bool-cases (mem_name (sender_or "" b.sender) (senders_of api.user_name talker))) [
              | inr stranger ↦
                  rw (something, stranger) (inl ((refl, refl, refl, refl), (files, refl)))
              | inl known ↦
                  rw (something, known)
                    (inr
                      (refl, inl (_, (talker, refl, known), refl, refl, refl, refl, (files, refl))))
            ]
      ]

  append_delivered-Delivered :
      (r : HttpRequest) (b : Body) (s : State)
      → send_to_user (strip b.text) b.attachments ≡ true
      → Delivered api.user_name send_to_user s
          (append_delivered api send_to_user r b (record s { sent = s.sent ++ strip b.text ∷ [] }))
  unfolding append_delivered
  append_delivered-Delivered r b s sent =
      elim (Bool-cases (api.has_sessions && not (str_eq api.user_name ""))) [
        | inl kept ↦ rw kept (
          strip b.text,
          b.attachments,
          sent,
          refl,
          inr (r.fresh, map attachment_ref b.attachments, some r.metadata, refl),
          refl,
          refl,
          refl,
        )
        | inr lost ↦ rw lost (strip b.text, b.attachments, sent, refl, inl refl, refl, refl, refl)
      ]

  handle_outbound_send-Handled :
      (r : HttpRequest) (b : Body) (s : State)
      → Handled api.user_name send_to_user s (handle_outbound_send api send_to_user r b s)
  unfolding handle_outbound_send
  handle_outbound_send-Handled r b s =
      elim (Bool-cases (is_empty (strip b.text) && is_empty b.attachments)) [
        | inl nothing ↦ rw nothing (inl (still s))
        | inr something ↦ elim (Bool-cases (is_empty api.bridges_primary)) [
          | inl alone ↦ rw (something, alone) (inl (still s))
          | inr bridged ↦ elim (Bool-cases (not api.has_http_client)) [
            | inl unset ↦ rw (something, bridged, unset) (inl (still s))
            | inr set ↦ elim (Bool-cases (send_to_user (strip b.text) b.attachments)) [
              | inr failed ↦ rw (something, bridged, set, failed) (inl (still s))
              | inl sent ↦
                  rw (something, bridged, set, sent)
                    (inr (refl, inr (inr (append_delivered-Delivered r b s sent))))
            ]
          ]
        ]
      ]

  handle_reset-Handled :
      (b : Body) (s : State)
      → Handled api.user_name send_to_user s (handle_reset api send_to_user b s)
  unfolding handle_reset control_item
  handle_reset-Handled b s = elim (Bool-cases (str_eq (sender_or "all" b.target) "")) [
    | inl nobody ↦ rw nobody (inl (still s))
    | inr target ↦
        rw target
          (inr (refl, inr (inl (_, s.next_future, refl, refl, refl, refl, refl, refl, refl, refl))))
  ]

  handle_compact-Handled :
      (s : State) → Handled api.user_name send_to_user s (handle_compact_request api send_to_user s)
  unfolding handle_compact_request control_item
  handle_compact-Handled s = inr (refl, inl (_, tt, refl, refl, refl, refl, ([], refl)))

  handle_body-Handled :
      (t : Route) (r : HttpRequest) (b : Body) (s : State)
      → Handled api.user_name send_to_user s (handle_body api send_to_user t r b s)
  unfolding handle_body extract_attachments
  handle_body-Handled chat r b s = chat_extracted-Handled _ b s _
  handle_body-Handled (inbound channel) r b s = inbound_extracted-Handled _ channel b s _
  handle_body-Handled system_event r b s = ephemeral_extracted-Handled _ Talker.system b s _
  handle_body-Handled agent_action r b s = ephemeral_extracted-Handled _ Talker.agent b s _
  handle_body-Handled outbound_send r b s = handle_outbound_send-Handled r b s
  handle_body-Handled reset_sessions r b s = handle_reset-Handled b s
  handle_body-Handled compact_user r b s = handle_compact-Handled s
  handle_body-Handled other r b s = inl (still s)

  pub handle-Handled :
      (t : Route) (r : HttpRequest) (p : Parsed) (s : State)
      → Handled api.user_name send_to_user s (handle api send_to_user t r p s)
  unfolding handle on_malformed on_not_object
  handle-Handled compact_user r malformed s = handle_compact-Handled s
  handle-Handled _ r malformed s = inl (still s)
  handle-Handled compact_user r not_object s = handle_compact-Handled s
  handle-Handled _ r not_object s = inl (still s)
  handle-Handled t r (body b) s = handle_body-Handled t r b s
