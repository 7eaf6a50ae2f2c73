-- ===== src/Api/Requests.antt =====
-- api.py: the bodies of requests, their attachments and what the handlers put on the queues.
use lucyd.Base.{
  ℕ, suc, String, Text, Bool, false, not, ◌&&◌, ◌||◌, Option, none, some, List, [], ◌∷◌, ◌++◌,
  is_empty, length, lit, decimal, ltb, ◌==◌, if◌then◌else◌,
}
use lucyd.Message.{Json, string, object, field, end}
use lucyd.Pipeline.{Talker}
use lucyd.Daemon.{Kind, message, QueueItem}

-- An element of `attachments` of a body, with the fields that the handlers read.
pub record RawAttachment : Type 0 where
  pub content_type : Option Text
  pub payload : Text
  pub filename : Option Text
  pub is_voice : Bool

-- A JSON object, with the fields that the handlers read: a missing text is empty.
pub record Body : Type 0 where
  pub message : Text
  pub text : Text
  pub attachments : List RawAttachment
  pub sender : Option String
  pub context : Text
  pub target : Option String

-- `_parse_body`: what `request.json()` gives
pub data Parsed : Type 0 where
  malformed not_object : Parsed
  body : Body → Parsed

pub record Attachment : Type 0 where
  pub content_type : Text
  pub local_path : Text
  pub filename : Text
  pub size : ℕ
  pub is_voice : Bool

-- OPERATOR_SENDERS, SYSTEM_SENDERS and AGENT_SENDERS of config.py; a user message has the user's name
unfoldable pub senders_of : String → Talker → List String
senders_of user_name Talker.user = user_name ∷ []
senders_of user_name Talker.operator = "agentctl" ∷ []
senders_of user_name Talker.system = "maintenance" ∷ "automation" ∷ "error" ∷ []
senders_of user_name Talker.agent = "self" ∷ "other" ∷ []

unfoldable pub or_default : Text → Option Text → Text
or_default d none = d
or_default d (some t) = t

unfoldable pub sender_or : String → Option String → String
sender_or d none = d
sender_or d (some s) = s

-- `base64.b64decode`, `Path(...).name` and the clock, in milliseconds, when an attachment is stored
module _ (b64decode : Text → Option Text) (name_of : Text → Text) (millis : ℕ → ℕ)
    (download_dir : Text) (max_attachment_bytes : ℕ) where
  unfoldable pub stored_attachment : RawAttachment → ℕ → Text → Attachment
  unfolding lit decimal or_default
  stored_attachment a n bytes =
      let filename = or_default (lit "attachment") a.filename in
      record {
        content_type = or_default [] a.content_type;
        local_path =
            download_dir ++ (lit "/" ++ (decimal (millis n) ++ (lit "_" ++ name_of filename)));
        filename = name_of filename;
        size = length bytes;
        is_voice = a.is_voice;
      }

  -- what the loop of `_decode_attachments` does with a decoded item, before the others
  unfoldable pub with_stored :
      RawAttachment
      → ℕ
      → Text
      → List (Text × Text) × Option (List Attachment)
      → List (Text × Text) × Option (List Attachment)
  unfolding stored_attachment
  with_stored a n bytes (files, none) =
      if not (max_attachment_bytes == 0) && ltb max_attachment_bytes (length bytes)
      then (files, none)
      else (((stored_attachment a n bytes).local_path, bytes) ∷ files, none)
  with_stored a n bytes (files, some rest) =
      if not (max_attachment_bytes == 0) && ltb max_attachment_bytes (length bytes)
      then (files, some rest)
      else (
        ((stored_attachment a n bytes).local_path, bytes) ∷ files,
        some (stored_attachment a n bytes ∷ rest),
      )

  unfoldable pub with_decoded :
      RawAttachment
      → ℕ
      → Option Text
      → List (Text × Text) × Option (List Attachment)
      → List (Text × Text) × Option (List Attachment)
  unfolding with_stored
  with_decoded a n none rest = ([], none)
  with_decoded a n (some bytes) rest = with_stored a n bytes rest

  -- `_decode_attachments`: the files that it writes, in order, and the attachments, unless one is not base64
  unfoldable pub decode_attachments :
      ℕ → List RawAttachment → List (Text × Text) × Option (List Attachment)
  unfolding with_decoded or_default
  decode_attachments n [] = ([], some [])
  decode_attachments n (a ∷ raw) =
      let rest = decode_attachments (suc n) raw in
      if is_empty (or_default [] a.content_type) || is_empty a.payload
      then rest
      else with_decoded a n (b64decode a.payload) rest

-- `"talker": ..., "sender": ..., "text": ...` on the queue, with the paths of the attachments
unfoldable pub message_item : Talker → String → Text → List Text → Option ℕ → String → QueueItem
message_item talker sender text attachments response_future channel = record {
  kind = message;
  all = false;
  session_id = "";
  talker = some talker;
  sender = sender;
  text = text;
  attachments = attachments;
  response_future = response_future;
  channel = channel;
  reply_to = "";
}

-- `{"type": ...}` on a queue
unfoldable pub control_item : Kind → String → Bool → ℕ → QueueItem
control_item kind sender all future = record {
  kind = kind;
  all = all;
  session_id = "";
  talker = none;
  sender = sender;
  text = [];
  attachments = [];
  response_future = some future;
  channel = "";
  reply_to = "";
}

-- `f"[{context}] {message}" if context else message`
unfoldable pub in_context : Text → Text → Text
unfolding lit
in_context context text =
    if is_empty context then text else lit "[" ++ (context ++ (lit "] " ++ text))

-- `attachment_refs` of `_handle_outbound_send`
unfoldable pub attachment_ref : RawAttachment → Json
unfolding or_default lit
attachment_ref a = object (
    field "filename" (string (or_default (lit "attachment") a.filename)) (
      field "content_type" (string (or_default (lit "application/octet-stream") a.content_type))
        end))
