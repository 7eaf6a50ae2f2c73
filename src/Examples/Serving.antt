-- ===== src/Examples/Serving.antt =====
-- The theorems on the message loop and the HTTP server, applied to a few requests.
use lucyd.Base.{
  ℕ, ◌≡◌, ◌++◌, refl, String, Text, Bool, true, false, Option, none, some, List, [], ◌∷◌, lit,
}
use lucyd.Message.{end}
use lucyd.Manager.{World}
use lucyd.Pipeline.{Talker}
use lucyd.Operations.{Dispatch, DiaryTurn}
use lucyd.Daemon.{reset, Resolution, Daemon, Got, sentinel, item, Round, message_loop}
use lucyd.Daemon.Loop.{serve, message_loop-serve}
use lucyd.Daemon.Answers.{IsOnce}
use lucyd.Daemon.Commands.{commands, AreResolved, message_loop-IsOnce}
use lucyd.Api.{RateLimiter}
use lucyd.Api.Requests.{RawAttachment, body, message_item, control_item}
use lucyd.Api.Handlers.{HttpApi, HttpRequest, State, Reply, awaiting}
use lucyd.Api.Server.{auth_middleware}
use lucyd.Api.Handled.{Handled}
use lucyd.Examples.{nobody}

-- a pipeline that answers with the text
abbrev echo : Dispatch → World → World × Option Text
echo call w = (w, some call.text)

abbrev no_uuid : String → Bool
no_uuid s = false

abbrev diary : DiaryTurn
diary = record { user_name = "bob"; fresh = "s9"; diary_text = lit "Dear diary" }

abbrev turn_of : Got → Round
turn_of got = record { control = []; got = got; control_after = [] }

-- two events of one sender, a request that waits, a reset and the end
abbrev rounds : List Round
rounds =
    turn_of (item (message_item Talker.system "automation" (lit "one") [] none ""))
    ∷ turn_of (item (message_item Talker.system "automation" (lit "two") [] none ""))
    ∷ turn_of (item (message_item Talker.user "bob" (lit "hi") [] (some 4) "telegram"))
    ∷ record { control = control_item reset "all" true 5 ∷ []; got = sentinel; control_after = [] }
    ∷ []

abbrev idle_daemon : Daemon Text
idle_daemon = record { world = nobody; resolved = [] }

message_loop-serve_example :
    message_loop echo no_uuid diary rounds [] idle_daemon
    ≡ serve echo no_uuid diary rounds idle_daemon
message_loop-serve_example = message_loop-serve echo no_uuid diary rounds idle_daemon

-- the future of the request comes a second time, as one of a reset
abbrev again : List Round
again =
    turn_of (item (message_item Talker.user "bob" (lit "hi") [] (some 4) "telegram"))
    ∷ record { control = control_item reset "all" true 4 ∷ []; got = sentinel; control_after = [] }
    ∷ []

message_loop-IsOnce_example :
    let d' = (message_loop echo no_uuid diary again [] idle_daemon).0 in
    IsOnce d'.resolved
    × ((added : List (ℕ × Resolution Text)) × (d'.resolved ≡ idle_daemon.resolved ++ added))
    × AreResolved (commands again) d'
message_loop-IsOnce_example = message_loop-IsOnce echo no_uuid diary again idle_daemon tt

abbrev limiter : RateLimiter
limiter = record { max_requests = 5; window = 60; cleanup_threshold = 100 }

abbrev api : HttpApi
api = record {
  auth_token = lit "key";
  trust_localhost = false;
  user_name = "bob";
  download_dir = lit "/tmp";
  max_attachment_bytes = 0;
  bridges_primary = lit "telegram";
  has_http_client = true;
  has_sessions = true;
  rate_limiter = limiter;
  status_rate_limiter = limiter;
  b64decode = λ t. some t;
  name_of = λ t. t;
}

abbrev asking : HttpRequest
asking = record {
  path = "/api/v1/chat";
  method = "POST";
  remote = some "10.0.0.2";
  authorization = lit "Bearer key";
  parsed = body (record {
    message = lit " hello ";
    text = [];
    attachments = [];
    sender = none;
    context = lit "cli";
    target = none;
  });
  now = 100;
  millis = λ n. 100000;
  fresh = "s3";
  metadata = end;
}

abbrev quiet : State
quiet = record {
  hits = [];
  status_hits = [];
  files = [];
  queue = [];
  control_queue = [];
  sent = [];
  world = nobody;
  next_future = 7;
}

abbrev delivering : Text → List RawAttachment → Bool
delivering text attachments = true

-- the request is queued for the agent
asked : auth_middleware api delivering asking quiet ≡ (
  record quiet {
    hits = ("10.0.0.2", 100 ∷ []) ∷ [];
    queue = message_item Talker.operator "agentctl" (lit "[cli] hello") [] (some 7) "" ∷ [];
    next_future = 8;
  },
  awaiting 7,
)
unfolding auth_middleware lucyd.Base.mem_name lucyd.Api.Handlers.is_ascii lucyd.Base.text_eq
    lucyd.Pipeline.lstrip
asked = refl
