-- ===== src/Examples/Managers.antt =====
-- The theorems on the session manager, applied to empty tables and to ann's.
use lucyd.Base.{arith}
use lucyd.Store.{Db, SessionRow}
use lucyd.Session.{Session}
use lucyd.Manager.{World, get_or_create, close_session}
use lucyd.Manager.Active.{HasUniqueActive, get_or_create-HasUniqueActive}
use lucyd.Examples.{restarted}

restarted-HasUniqueActive : HasUniqueActive restarted.db
restarted-HasUniqueActive c = ground arith

get_or_create-HasUniqueActive_example :
    HasUniqueActive (get_or_create restarted "s9" "bob" "m").0.db
get_or_create-HasUniqueActive_example =
    get_or_create-HasUniqueActive restarted "s9" "bob" "m" restarted-HasUniqueActive
