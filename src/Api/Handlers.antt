-- ===== src/Api/Handlers.antt =====
-- api.py: the handlers of the HTTP server that feed the queues of the daemon.
use lucyd.Base.{
  ℕ, suc, String, Text, Bool, false, not, ◌&&◌, ◌||◌, Option, none, some, List, [], ◌∷◌, ◌++◌, map,
  all, is_empty, lit, mem_name, ltb, str_eq, if◌then◌else◌,
}
use lucyd.Base.Dict.{Dict}
use lucyd.Message.{Fields}
use lucyd.Manager.{World, append_outbound_to_user}
use lucyd.Pipeline.{Talker}
use lucyd.Tools.Truncate.{strip}
use lucyd.Operations.{user_key_of}
use lucyd.Daemon.{QueueItem, reset, compact}
use lucyd.Api.{RateLimiter}
use lucyd.Api.Requests.{
  RawAttachment, Body, Parsed, malformed, not_object, body, Attachment, senders_of, sender_or,
  decode_attachments, message_item, control_item, in_context, attachment_ref,
}

-- The configuration of `HTTPApi`, the clock of a request and the parameters of the stored attachments.
pub record HttpApi : Type 0 where
  pub auth_token : Text
  pub trust_localhost : Bool
  pub user_name : String
  pub download_dir : Text
  pub max_attachment_bytes : ℕ
  pub bridges_primary : Text
  pub has_http_client : Bool
  pub has_sessions : Bool
  pub rate_limiter : RateLimiter
  pub status_rate_limiter : RateLimiter
  pub b64decode : Text → Option Text
  pub name_of : Text → Text

pub record HttpRequest : Type 0 where
  pub path : String
  pub method : String
  pub remote : Option String
  pub authorization : Text
  pub parsed : Parsed
  pub now : ℕ
  pub millis : ℕ → ℕ
  pub fresh : String
  pub metadata : Fields

-- What the handlers change: the limiters' requests, the files of the attachments, the two queues, what was
-- sent over the bridge, the sessions and the number of the next future.
pub record State : Type 0 where
  pub hits : Dict (List ℕ)
  pub status_hits : Dict (List ℕ)
  pub files : List (Text × Text)
  pub queue : List QueueItem
  pub control_queue : List QueueItem
  pub sent : List Text
  pub world : World
  pub next_future : ℕ

-- A status with a text, or what the daemon resolves the future with; `elsewhere` is the answer of a handler
-- that is not modelled.
pub data Reply : Type 0 where
  json : ℕ → Text → Reply
  awaiting : ℕ → Reply
  elsewhere : Reply

pub data Route : Type 0 where
  chat system_event agent_action outbound_send reset_sessions compact_user other : Route
  inbound : String → Route

-- the POST routes of `start` that are modelled here
unfoldable pub post_route : String → Route
post_route path =
    if str_eq path "/api/v1/chat" || str_eq path "/api/v1/chat/stream"
    then chat
    else if str_eq path "/api/v1/inbound/telegram"
    then inbound "telegram"
    else if str_eq path "/api/v1/inbound/email"
    then inbound "email"
    else if str_eq path "/api/v1/system/event"
    then system_event
    else if str_eq path "/api/v1/agent/action"
    then agent_action
    else if str_eq path "/api/v1/outbound/send"
    then outbound_send
    else if str_eq path "/api/v1/sessions/reset"
    then reset_sessions
    else if str_eq path "/api/v1/compact"
    then compact_user
    else other

unfoldable pub route : String → String → Route
unfolding post_route
route method path = if str_eq method "POST" then post_route path else other

unfoldable pub is_ascii : Text → Bool
is_ascii t = all (λ c. ltb c 128) t

-- `bridge_client.send_to_user`: false if it raises BridgeDeliveryError
module _ (api : HttpApi) (send_to_user : Text → List RawAttachment → Bool) where
  -- `_extract_attachments`, which writes files
  unfoldable pub extract_attachments : HttpRequest → Body → State → State × Option (List Attachment)
  unfolding decode_attachments
  extract_attachments r b s =
      let (files, attachments) =
        decode_attachments api.b64decode api.name_of r.millis api.download_dir
          api.max_attachment_bytes 0 b.attachments in
      (record s { files = files ++ s.files }, attachments)

  unfoldable pub paths_of : List Attachment → List Text
  paths_of attachments = map (λ (a : Attachment). a.local_path) attachments

  -- a message with a future, on the queue
  unfoldable pub post_awaited : State → Talker → String → Text → List Text → String → State × Reply
  unfolding message_item
  post_awaited s talker sender text attachments channel = (
    record s {
      queue =
          s.queue ++ message_item talker sender text attachments (some s.next_future) channel ∷ [];
      next_future = suc s.next_future;
    },
    awaiting s.next_future,
  )

  -- what `_handle_chat` and `_handle_chat_stream` do behind the attachments
  unfoldable pub chat_extracted : Body → State → Option (List Attachment) → State × Reply
  unfolding strip post_awaited in_context paths_of senders_of sender_or
  chat_extracted b s none = (s, json 400 (lit "invalid base64 in attachment"))
  chat_extracted b s (some attachments) =
      let sender = sender_or "agentctl" b.sender in
      if is_empty (strip b.message) && is_empty attachments
      then (s, json 400 (lit "\"message\" field is required"))
      else if not (mem_name sender (senders_of api.user_name Talker.operator))
      then (s, json 400 (lit "invalid sender"))
      else post_awaited s Talker.operator sender (in_context b.context (strip b.message))
          (paths_of attachments) ""

  -- `_handle_user_inbound` behind the attachments
  unfoldable pub inbound_extracted :
      String → Body → State → Option (List Attachment) → State × Reply
  unfolding strip post_awaited paths_of
  inbound_extracted channel b s none = (s, json 400 (lit "invalid base64 in attachment"))
  inbound_extracted channel b s (some attachments) =
      if is_empty (strip b.message) && is_empty attachments
      then (s, json 400 (lit "\"message\" field is required"))
      else post_awaited s Talker.user api.user_name (strip b.message) (paths_of attachments) channel

  -- `_queue_ephemeral` behind the attachments
  unfoldable pub ephemeral_extracted :
      Talker → Body → State → Option (List Attachment) → State × Reply
  unfolding strip message_item paths_of senders_of sender_or
  ephemeral_extracted talker b s none = (s, json 400 (lit "invalid base64 in attachment"))
  ephemeral_extracted talker b s (some attachments) =
      let sender = sender_or "" b.sender in
      if is_empty (strip b.message) && is_empty attachments
      then (s, json 400 (lit "\"message\" field is required"))
      else if not (mem_name sender (senders_of api.user_name talker))
      then (s, json 400 (lit "invalid sender"))
      else (
        record s {
          queue =
              s.queue
              ++ message_item talker sender (strip b.message) (paths_of attachments) none "" ∷ [];
        },
        json 202 (lit "accepted"),
      )

  -- the user's session gets what was delivered
  unfoldable pub append_delivered : HttpRequest → Body → State → State
  unfolding attachment_ref append_outbound_to_user user_key_of strip
  append_delivered r b s =
      if api.has_sessions && not (str_eq api.user_name "")
      then record s {
        world =
            (append_outbound_to_user s.world r.fresh (user_key_of api.user_name) (strip b.text)
              (map attachment_ref b.attachments) (some r.metadata)).0;
      }
      else s

  -- `_handle_outbound_send`
  unfoldable pub handle_outbound_send : HttpRequest → Body → State → State × Reply
  unfolding strip append_delivered
  handle_outbound_send r b s =
      if is_empty (strip b.text) && is_empty b.attachments
      then (s, json 400 (lit "\"text\" or \"attachments\" required"))
      else if is_empty api.bridges_primary
      then (s, json 503 (lit "no primary bridge configured"))
      else if not api.has_http_client
      then (s, json 503 (lit "outbound http client not configured"))
      else if not (send_to_user (strip b.text) b.attachments)
      then (s, json 502 (lit "bridge delivery failed"))
      else (
        append_delivered r b (record s { sent = s.sent ++ strip b.text ∷ [] }),
        json 200 (lit "delivered"),
      )

  -- `_handle_reset`, which puts the target on the control queue
  unfoldable pub handle_reset : Body → State → State × Reply
  unfolding control_item sender_or
  handle_reset b s =
      let target = sender_or "all" b.target in
      if str_eq target "" then (s, json 400 (lit "\"target\" must be a non-empty string")) else (
        record s {
          control_queue =
              s.control_queue ++ control_item reset target (str_eq target "all") s.next_future ∷ [];
          next_future = suc s.next_future;
        },
        awaiting s.next_future,
      )

  -- `_handle_compact`, which reads no body
  unfoldable pub handle_compact_request : State → State × Reply
  unfolding control_item
  handle_compact_request s = (
    record s {
      queue = s.queue ++ control_item compact "" false s.next_future ∷ [];
      next_future = suc s.next_future;
    },
    awaiting s.next_future,
  )

  -- the handlers, on a parsed body
  unfoldable pub handle_body : Route → HttpRequest → Body → State → State × Reply
  unfolding extract_attachments chat_extracted inbound_extracted ephemeral_extracted
      handle_outbound_send handle_reset handle_compact_request
  handle_body chat r b s =
      let (s', attachments) = extract_attachments r b s in chat_extracted b s' attachments
  handle_body (inbound channel) r b s =
      let (s', attachments) = extract_attachments r b s in
      inbound_extracted channel b s' attachments
  handle_body system_event r b s =
      let (s', attachments) = extract_attachments r b s in
      ephemeral_extracted Talker.system b s' attachments
  handle_body agent_action r b s =
      let (s', attachments) = extract_attachments r b s in
      ephemeral_extracted Talker.agent b s' attachments
  handle_body outbound_send r b s = handle_outbound_send r b s
  handle_body reset_sessions r b s = handle_reset b s
  handle_body compact_user r b s = handle_compact_request s
  handle_body other r b s = (s, elsewhere)

  unfoldable pub on_malformed : Route → State → State × Reply
  unfolding handle_compact_request
  on_malformed compact_user s = handle_compact_request s
  on_malformed other s = (s, elsewhere)
  on_malformed _ s = (s, json 400 (lit "invalid JSON body"))

  -- `_handle_reset` calls `get` on whatever it is
  unfoldable pub on_not_object : Route → State → State × Reply
  unfolding handle_compact_request
  on_not_object compact_user s = handle_compact_request s
  on_not_object other s = (s, elsewhere)
  on_not_object reset_sessions s = (s, json 500 (lit "internal server error"))
  on_not_object _ s = (s, json 400 (lit "JSON body must be an object"))

  -- `_parse_body` and the handler of the route
  unfoldable pub handle : Route → HttpRequest → Parsed → State → State × Reply
  unfolding handle_body on_malformed on_not_object
  handle t r malformed s = on_malformed t s
  handle t r not_object s = on_not_object t s
  handle t r (body b) s = handle_body t r b s
