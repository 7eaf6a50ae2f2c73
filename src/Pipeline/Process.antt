-- ===== src/Pipeline/Process.antt =====
-- pipeline.py, `process_message`: one message, from the input guardrail to the close of the session.
pub mod Synced
pub mod Rolled
pub mod Kept
use lucyd.Base.{
  ℕ, String, Text, Bool, true, false, not, ◌&&◌, ◌||◌, Option, none, some, List, [], ◌∷◌, ◌++◌,
  is_empty, length, ◌-◌, str_eq, if◌then◌else◌,
}
use lucyd.Message.{Message, Json, Usage, Response}
use lucyd.Store.{Db}
use lucyd.Session.{Session, needs_compaction}
use lucyd.Manager.{World, has_session}
use lucyd.Guardrails.{Rule, GuardrailTripped, check_input}
use lucyd.Agentic.Retry.{Outcome, ok, timeout, failed, no_exception}
use lucyd.Agentic.Env.{Env, LoopConfig, LoopState}
use lucyd.Agentic.Loop.{run_agentic_loop, run_single_shot}
use lucyd.Pipeline.{
  Talker, Inbound, put_session, setup_session, handle_agentic_error, persist_response,
  check_compaction_warning, auto_close,
}
use lucyd.Pipeline.Budget.{compact_attempt, ensure_context_budget}
use lucyd.Pipeline.Reply.{deliver_reply, without_preamble, guarded}

-- How a message is answered.
pub data Answer (Cost : Type 0) : Type 0 where
  blocked refused over_budget : Answer Cost
  broken : Outcome (Response Cost) → Answer Cost
  replied : Text → Bool → Answer Cost

-- The configuration, the provider and what is not modelled of the way of a message: the preprocessors and
-- attachments make a text and image blocks, `warning` is the text on the context of a session.
pub record Settings (Cost : Type 0) : Type 0 where
  pub env : Env Cost
  pub loop_config : LoopConfig Cost
  pub single_shot : Bool
  pub rules : List Rule
  pub prepare : Text → Text × List Json
  pub is_word : ℕ → Bool
  pub silent_tokens : List Text
  pub compaction_threshold : ℕ
  pub warning : Session → Text
  pub consolidation_enabled : Bool
  pub max_context_tokens : ℕ
  pub estimate_tokens : Text → ℕ
  pub split_at : ℕ → ℕ → ℕ
  pub complete_summary : Text → Option (Option Text × Usage)
  pub compaction_prompt : Text

-- What one message comes with, besides what its session is set up with.
pub record Request : Type 0 where
  pub inbound : Inbound
  pub force_compact : Bool
  pub to_silent : Bool

-- The state of the world, the session object of the message if it got one, and the answer.
pub record Turn (Cost : Type 0) : Type 0 where
  pub world : World
  pub session : Option Session
  pub answer : Answer Cost

-- `harvest` is `harvest_conversation` on a session: whether compaction may run
module _ {Cost : Type 0} (c : Settings Cost) (harvest : World → Session → World × Bool) where
  -- `_run_agentic`
  unfoldable pub run_agentic : List Message → Outcome (Response Cost) × LoopState Cost
  run_agentic messages =
      if c.single_shot
      then run_single_shot c.env c.loop_config messages
      else run_agentic_loop c.env c.loop_config messages

  -- `_compact_session` with the share that the configuration keeps
  unfoldable pub compact : Db → Session → Db × Session
  compact db s =
      compact_attempt c.estimate_tokens c.env.str_args c.split_at c.complete_summary
        c.compaction_prompt 0 db s

  -- `_run_compaction_if_needed`
  unfoldable pub run_compaction_if_needed : Bool → World → Session → World × Session
  unfolding compact
  run_compaction_if_needed forced w s =
      if forced || needs_compaction s c.compaction_threshold
      then (let (w', ok_to_compact) = if c.consolidation_enabled then harvest w s else (w, true) in
          if ok_to_compact
          then (let (db, t) = compact w'.db s in (record w' { db = db }, t))
          else (w', s))
      else (w, s)

  -- `_finalize_response`, less the answer
  unfoldable pub finalize : Request → Bool → Bool → ℕ → ℕ → World → Session → World × Session
  unfolding run_compaction_if_needed
  finalize q preexisted had_images user_msg_idx msg_count_before w s =
      let (db, kept) = persist_response had_images user_msg_idx msg_count_before w.db s in
      let (db', warned) =
        check_compaction_warning c.compaction_threshold (c.warning kept) db kept in
      let (w', t) = run_compaction_if_needed q.force_compact (record w { db = db' }) warned in
      (
        auto_close q.inbound.talker q.force_compact preexisted
            (put_session w' q.inbound.key w'.db t) q.inbound.key,
        t,
      )

  -- what follows the agentic loop
  unfoldable pub after_loop :
      Request → Bool → Bool → ℕ → ℕ → World → Session → Outcome (Response Cost) → Turn Cost
  unfolding finalize
  after_loop q preexisted had_images user_msg_idx msg_count_before w s (ok r) =
      let shown = guarded c.rules (without_preamble r) in
      let (w', t) = finalize q preexisted had_images user_msg_idx msg_count_before w s in
      let (reply, silent) =
        deliver_reply c.is_word c.silent_tokens q.inbound.talker q.to_silent shown in
      record { world = w'; session = some t; answer = replied reply silent }
  after_loop q preexisted had_images user_msg_idx msg_count_before w s o =
      let (db, t) = handle_agentic_error had_images user_msg_idx msg_count_before w.db s in
      let closed =
        auto_close q.inbound.talker false preexisted (put_session w q.inbound.key db t)
          q.inbound.key in
      record { world = closed; session = some t; answer = broken o }

  -- the loop, on a session that takes the message: `user_msg_idx` is from before the budget check
  unfoldable pub run_turn : Request → Bool → Bool → ℕ → World → Bool × Db × Session → Turn Cost
  unfolding run_agentic after_loop
  run_turn q preexisted had_images user_msg_idx w (fits, db, s) =
      let w' = put_session w q.inbound.key db s in
      if not fits
      then record { world = w'; session = some s; answer = over_budget }
      else (let (o, st) = run_agentic s.messages in
          after_loop q preexisted had_images user_msg_idx (length s.messages) w'
            (record s { messages = st.messages }) o)

  -- what follows the set-up
  unfoldable pub with_session : Request → Bool → Bool → World × Option Session → Turn Cost
  unfolding run_turn
  with_session q preexisted had_images (w, none) = record {
    world = w;
    session = none;
    answer = refused;
  }
  with_session q preexisted had_images (w, some s) =
      run_turn q preexisted had_images (length s.messages - 1) w (
        ensure_context_budget c.estimate_tokens c.env.str_args c.split_at c.complete_summary
          c.compaction_prompt c.max_context_tokens w.db s)

  -- what follows the input guardrail
  unfoldable pub past_guardrail : World → Request → Option GuardrailTripped → Turn Cost
  unfolding with_session
  past_guardrail w q (some e) = record { world = w; session = none; answer = blocked }
  past_guardrail w q none =
      let (text, image_blocks) = c.prepare q.inbound.text in
      let m = record (q.inbound) { text = text; image_blocks = image_blocks } in
      with_session q (has_session w m.key) (not (is_empty image_blocks)) (setup_session w m)

  -- `process_message`
  unfoldable pub process_message : World → Request → Turn Cost
  unfolding past_guardrail
  process_message w q = past_guardrail w q (check_input q.inbound.text c.rules)
