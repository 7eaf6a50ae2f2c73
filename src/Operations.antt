-- ===== src/Operations.antt =====
-- operations.py: the forced compaction, the weekly reset of the user's session and the maintenance pass,
-- with the state of maintain_state.py. Times are seconds.
pub mod Reset
pub mod Maintain
pub mod Harvested
use Prim.Native.String.{◌++◌ as append_string}
use lucyd.Base.{
  ℕ, ◌-◌, ◌*◌, ◌%◌, String, Text, Bool, true, false, not, ◌&&◌, Option, none, some, List, [], ◌∷◌,
  ◌++◌, mem_name, lit, ltb, leb, str_eq, if◌then◌else◌,
}
use lucyd.Store.{Db, SessionRow, find_active}
use lucyd.Session.{Session}
use lucyd.Manager.{World, get_or_create, close_session}
use lucyd.Pipeline.{Talker}

-- What `process_message` is called with. `force_compact` and `session_key` are set by the operations only:
-- an empty key stands for the talker and the sender.
pub record Dispatch : Type 0 where
  pub text : Text
  pub sender : String
  pub talker : Talker
  pub attachments : List Text
  pub response_future : Option ℕ
  pub channel : String
  pub reply_to : String
  pub force_compact : Bool
  pub session_key : String

-- `f"user:{config.user_name}"`
unfoldable pub user_key_of : String → String
user_key_of user_name = append_string "user:" user_name

-- `SELECT DISTINCT contact ... WHERE closed_at IS NULL`, in the order of the rows
unfoldable pub active_contacts : List SessionRow → List String → List String
unfolding mem_name
active_contacts [] seen = []
active_contacts (r ∷ rows) seen =
    let rest = active_contacts rows seen in
    let more = active_contacts rows (r.contact ∷ seen) in
    if r.closed then rest else if mem_name r.contact seen then rest else r.contact ∷ more

-- SessionManager.list_contacts
unfoldable pub list_contacts : World → List String
unfolding active_contacts
list_contacts w = active_contacts w.db.sessions []

pub data Compacted : Type 0 where
  skipped : Compacted
  completed : String → Compacted

-- What the user's session is compacted with: the name of the user, the identifier of a new session and the
-- diary prompt with the date in its place.
pub record DiaryTurn : Type 0 where
  pub user_name : String
  pub fresh : String
  pub diary_text : Text

unfoldable pub diary_dispatch : DiaryTurn → Dispatch
unfolding user_key_of
diary_dispatch d = record {
  text = d.diary_text;
  sender = d.user_name;
  talker = Talker.user;
  attachments = [];
  response_future = none;
  channel = "";
  reply_to = "silent";
  force_compact = true;
  session_key = user_key_of d.user_name;
}

-- `process_message`, on a state of the world, with what it resolves a future with
module _ {Result : Type 0} (process_message : Dispatch → World → World × Result) where
  -- `handle_compact`
  unfoldable pub handle_compact : DiaryTurn → World → World × Compacted
  unfolding list_contacts diary_dispatch user_key_of
  handle_compact d w =
      let key = user_key_of d.user_name in
      if mem_name key (list_contacts w)
      then (let (w', s) = get_or_create w d.fresh key "" in
          let (w'', r) = process_message (diary_dispatch d) w' in (w'', completed s.id))
      else (w, skipped)

pub data ResetOutcome : Type 0 where
  disabled no_session waiting_for_diary already_reset_this_week : ResetOutcome
  user_active : ResetOutcome
  reset : String → ResetOutcome

-- What `handle_session_reset` reads besides the tables: `now` counts from the midnight of a local Monday,
-- `created_at` gives the times of the rows on the same clock, `last_message` that of the contact's last
-- message, and `diary_written` says whether the diary file of the day is there.
pub record Morning : Type 0 where
  pub now : ℕ
  pub created_at : SessionRow → ℕ
  pub last_message : Db → String → Option ℕ
  pub diary_written : Bool

abbrev pub week : ℕ
week = 604800

-- Monday 00:00 of the week of a time
unfoldable pub week_start : ℕ → ℕ
week_start now = now - now % week

-- `idle is None or idle < idle_minutes`; `idle_minutes_since_user` is never below 0
unfoldable pub is_active : ℕ → ℕ → Option ℕ → Bool
is_active now idle_minutes none = true
is_active now idle_minutes (some last) = ltb (now - last) (60 * idle_minutes)

unfoldable pub reset_row : Morning → ℕ → String → World → Option SessionRow → World × ResetOutcome
unfolding week_start is_active
reset_row m idle_minutes key w none = (w, no_session)
reset_row m idle_minutes key w (some row) =
    if not m.diary_written
    then (w, waiting_for_diary)
    else if leb (week_start m.now) (m.created_at row)
    then (w, already_reset_this_week)
    else if is_active m.now idle_minutes (m.last_message w.db key)
    then (w, user_active)
    else ((close_session w key).0, reset row.id)

-- `handle_session_reset`
unfoldable pub handle_session_reset : Morning → Bool → ℕ → String → World → World × ResetOutcome
unfolding reset_row user_key_of
handle_session_reset m enabled idle_minutes user_name w =
    if not enabled
    then (w, disabled)
    else reset_row m idle_minutes (user_key_of user_name) w
        (find_active (user_key_of user_name) w.db.sessions)
