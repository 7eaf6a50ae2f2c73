-- ===== src/Examples/Processes.antt =====
-- The theorem on a whole message, applied to bob's first one.
use lucyd.Base.{ℕ, ◌-◌, String, Text, Bool, true, false, some, [], lit, length, ◌==◌}
use lucyd.Message.{no_usage}
use lucyd.Store.{Db}
use lucyd.Session.{Session}
use lucyd.Manager.{World}
use lucyd.Pipeline.{Talker}
use lucyd.Pipeline.Process.{Settings, Request}
use lucyd.Examples.{env, cfg}

abbrev pub settings : Settings ℕ
settings = record {
  env = env;
  loop_config = cfg;
  single_shot = false;
  rules = [];
  prepare = λ t. (t, []);
  is_word = λ c. false;
  silent_tokens = [];
  compaction_threshold = 1000;
  warning = λ s. lit "nearly full";
  consolidation_enabled = false;
  max_context_tokens = 1000;
  estimate_tokens = length;
  split_at = λ k n. n - 1;
  complete_summary = λ t. some (some (lit "bob said hi"), no_usage);
  compaction_prompt = lit "Sum up.";
}

abbrev pub greeting : Request
greeting = record {
  inbound = record {
    talker = Talker.user;
    key = "bob";
    model = "m";
    text = lit "hi";
    sender = "bob";
    source = "http";
    fresh = "s1";
    trace_id = "t";
    brief = [];
    timestamp = lit "[now]";
    image_blocks = [];
  };
  force_compact = false;
  to_silent = false;
}

abbrev pub kept_all : World → Session → World × Bool
kept_all w s = (w, true)
