-- ===== src/Pipeline/Process/Rolled.antt =====
-- pipeline.py, `_handle_agentic_error`: the messages that a rollback leaves.
use lucyd.Base.{
  ◌≤◌, ◌≡◌, ◌∙◌, refl, sym, ap, List, [], ◌∷◌, ◌++◌, map, length, take, drop_last, length-drop_last,
  take-append, inl, inr, Bool-cases, arith, append-nil, if◌then◌else◌,
}
use lucyd.Message.{Message, Response, persisted, agent, to_internal_message}
use lucyd.Session.{ends_with_user}
use lucyd.Session.Repair.{ends_with_user-persisted}
use lucyd.Agentic.Retry.{Outcome, ok, timeout, failed, no_exception}
use lucyd.Agentic.Env.{Env, LoopConfig}
use lucyd.Agentic.Loop.{single_reply, start}
use lucyd.Pipeline.{rolled_back}
use lucyd.Pipeline.Process.Synced.{map-take}

pub single_shot-extends :
    {Cost : Type 0} (env : Env Cost) (cfg : LoopConfig Cost) (messages : List Message)
    (o : Outcome (Response Cost))
    → (ext : List Message) × ((single_reply env cfg (start env cfg messages) o).1.messages
        ≡ messages ++ ext)
unfolding single_reply start
single_shot-extends env cfg messages (ok r) = (agent (to_internal_message r) ∷ [], refl)
single_shot-extends env cfg messages timeout = ([], sym (append-nil messages))
single_shot-extends env cfg messages (failed e) = ([], sym (append-nil messages))
single_shot-extends env cfg messages no_exception = ([], sym (append-nil messages))

map-drop_last : (ms : List Message) → map persisted (drop_last ms) ≡ drop_last (map persisted ms)
map-drop_last [] = refl
map-drop_last (m ∷ []) = refl
map-drop_last (m ∷ n ∷ ms) = ap (λ (r : List Message). persisted m ∷ r) (map-drop_last (n ∷ ms))

-- The messages less a user message at their end.
unfoldable pub without_orphan : List Message → List Message
without_orphan ms = if ends_with_user ms then drop_last ms else ms

without_orphan-persisted :
    (ms : List Message) → map persisted (without_orphan ms) ≡ without_orphan (map persisted ms)
unfolding without_orphan
without_orphan-persisted ms = elim (Bool-cases (ends_with_user ms)) [
  | inl orphan ↦ rw (ends_with_user-persisted, orphan) (map-drop_last ms)
  | inr whole ↦ rw (ends_with_user-persisted, whole)
]

-- A rollback to the first `length base` messages, whatever image blocks were stripped.
pub rolled_back-persisted :
    (base ext ms : List Message)
    → map persisted ms ≡ map persisted (base ++ ext)
    → map persisted (rolled_back (length base) ms) ≡ map persisted (without_orphan base)
unfolding rolled_back ends_with_user without_orphan
rolled_back-persisted base ext ms e =
    without_orphan-persisted (take (length base) ms)
    ∙ ap without_orphan (
        map-take (length base) ms
        ∙ ap (take (length base)) e
        ∙ sym (map-take (length base) (base ++ ext))
        ∙ ap (map persisted) (take-append base ext))
    ∙ sym (without_orphan-persisted base)

pub length-without_orphan : (ms : List Message) → length (without_orphan ms) ≤ length ms
unfolding without_orphan
length-without_orphan ms = ground (arith, length-drop_last ms)
