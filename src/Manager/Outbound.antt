-- ===== src/Manager/Outbound.antt =====
-- session.py, `append_outbound_to_user`: a message that the agent sends on its own account.
use lucyd.Base.{◌≡◌, true, List, [], ◌∷◌}
use lucyd.Message.{Message, is_user}
use lucyd.Session.{Session}

-- `ms` opens with a user message.
abbrev pub OpensWithUser : List Message → Type 0
OpensWithUser [] = ⊥
OpensWithUser (m ∷ ms) = is_user m ≡ true
