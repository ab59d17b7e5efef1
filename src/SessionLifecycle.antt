-- ===== src/SessionLifecycle.antt =====
-- services/common/session_lifecycle.go: the consumer of lifecycle events. A set of ids is a map to `tt`; a payload
-- that does not parse is `none`.
pub mod Delivery
pub mod Redelivery
mod Examples
use game01_server.Prelude.{ℕ, Bool, true, false, ◌||◌, Option, none, some, List, [], ◌∷◌, String}
use game01_server.Prelude.Tests.{ltb, ◌==◌, if◌then◌else◌}
use game01_server.Prelude.Eq.{string_eq, str_eq}
use game01_server.Prelude.Maps.{Map, get, put, has}

-- The fields of a `SessionLifecycleEvent` that the consumer reads.
pub record Event : Type 0 where
  pub event_id : String
  pub session_id : String
  pub connection_epoch : ℕ

pub record SessionLifecycleConsumer : Type 0 where
  pub latest_epochs : Map String ℕ
  pub event_ids : Map String (Unit {0})

unfoldable pub new_session_lifecycle_consumer : SessionLifecycleConsumer
new_session_lifecycle_consumer = record { latest_epochs = []; event_ids = [] }

abbrev pub or_zero : Option ℕ → ℕ
or_zero none = 0
or_zero (some n) = n

unfoldable pub latest_epoch : SessionLifecycleConsumer → String → ℕ
latest_epoch c session_id = or_zero (get c.latest_epochs session_id)

unfoldable pub accept : SessionLifecycleConsumer → Event → SessionLifecycleConsumer × Bool
unfolding latest_epoch
accept c event =
    let noted = record c { event_ids = put c.event_ids event.event_id tt } in
    let raised = record noted {
      latest_epochs = put c.latest_epochs event.session_id event.connection_epoch;
    } in
    if has c.event_ids event.event_id
    then (c, false)
    else (if ltb event.connection_epoch (latest_epoch c event.session_id) then (c, false) else (
      if ltb (latest_epoch c event.session_id) event.connection_epoch then raised else noted,
      true,
    ))

-- The consumer after a message, and whether an error is returned.
unfoldable pub handle : SessionLifecycleConsumer → Option Event → SessionLifecycleConsumer × Bool
unfolding accept
handle c none = (c, true)
handle c (some event) =
    if str_eq event.event_id "" || (str_eq event.session_id "" || event.connection_epoch == 0)
    then (c, false)
    else ((accept c event).0, false)
