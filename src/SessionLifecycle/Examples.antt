-- ===== src/SessionLifecycle/Examples.antt =====
-- Runs of the consumer of services/common/session_lifecycle.go.
use game01_server.Prelude.{◌≡◌, List, [], ◌∷◌}
use game01_server.Prelude.Eq.{string_eq}
use game01_server.SessionLifecycle.{
  Event, SessionLifecycleConsumer, new_session_lifecycle_consumer, latest_epoch,
}
use game01_server.SessionLifecycle.Delivery.{accept_all, Rising, accept_all-Rising}
use game01_server.SessionLifecycle.Redelivery.{redelivery}

abbrev start : SessionLifecycleConsumer
start = new_session_lifecycle_consumer

-- A resume overtakes the disconnect before it.
abbrev overtaking : List Event
overtaking =
    record { event_id = "s:1:connected"; session_id = "s"; connection_epoch = 1 }
    ∷ record { event_id = "s:2:resumed"; session_id = "s"; connection_epoch = 2 }
    ∷ record { event_id = "s:1:disconnected"; session_id = "s"; connection_epoch = 1 }
    ∷ []

redelivery_example :
    accept_all (accept_all start overtaking).0 overtaking ≡ ((accept_all start overtaking).0, [])
redelivery_example = redelivery start overtaking

accept_all-Rising_example : Rising "s" (latest_epoch start "s") (accept_all start overtaking).1
accept_all-Rising_example = accept_all-Rising start overtaking "s"
