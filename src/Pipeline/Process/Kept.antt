-- ===== src/Pipeline/Process/Kept.antt =====
-- pipeline.py, `process_message`: what a message leaves of its session, for each way that it is answered.
use lucyd.Base.{◌≡◌, Bool, true, some, map}
use lucyd.Base.Dict.{lookup}
use lucyd.Message.{Message, persisted}
use lucyd.Store.{rows_of, rows_from}
use lucyd.Session.{Session, ends_with_user}
use lucyd.Session.Sync.{IsSynced}
use lucyd.Manager.{World}
use lucyd.Pipeline.Process.{Settings, Request, Turn, blocked, refused, over_budget, broken, replied}
use lucyd.Pipeline.Process.Rolled.{without_orphan}

module _ {Cost : Type 0} (c : Settings Cost) (harvest : World → Session → World × Bool) where
  -- What a message leaves: nothing changed behind the guardrail; a session that refused it; or the
  -- session, with rows equal to its messages, or, after a broken loop, with the rows of the session `u`
  -- from before the loop, where the messages are those of `u` less its user message.
  abbrev pub Leaves : World → Request → Turn Cost → Type 0
  Leaves w q t = elim t.answer [
    | blocked ↦ t.world ≡ w
    | refused ↦
        (s : Session) × (lookup q.inbound.key t.world.loaded ≡ some s)
        × (ends_with_user s.messages ≡ true)
        × IsSynced t.world.db s
    | broken o ↦
        (s u : Session) × (t.session ≡ some s)
        × (rows_of u.id t.world.db.messages ≡ rows_from u.id 0 (map persisted u.messages))
        × (s.id ≡ u.id)
        × (map persisted s.messages ≡ map persisted (without_orphan u.messages))
    | over_budget ↦ (s : Session) × (t.session ≡ some s) × IsSynced t.world.db s
    | replied reply silent ↦ (s : Session) × (t.session ≡ some s) × IsSynced t.world.db s
  ]
