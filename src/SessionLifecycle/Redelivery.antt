-- ===== src/SessionLifecycle/Redelivery.antt =====
-- Events that come a second time to the consumer of services/common/session_lifecycle.go.
use game01_server.Prelude.{◌<◌, ◌⊎◌, ◌≡◌, refl, inl, inr, true, false, List, [], ◌∷◌, arith}
use game01_server.Prelude.Eq.{string_eq, eq_iff}
use game01_server.Prelude.Maps.{has}
use game01_server.Prelude.Lists.{All}
use game01_server.SessionLifecycle.{Event, SessionLifecycleConsumer, latest_epoch, accept}
use game01_server.SessionLifecycle.Delivery.{accept_all, accept_facts}

-- An event that the consumer will not accept: its id is known, or its epoch is old.
abbrev pub Settled : SessionLifecycleConsumer → Event → Type 0
Settled c e =
    (has c.event_ids e.event_id ≡ true) ⊎ (e.connection_epoch < latest_epoch c e.session_id)

accept-Settled : (c : SessionLifecycleConsumer) (e : Event) → Settled (accept c e).0 e
accept-Settled c e =
    let (ok, latest, known) = accept_facts c e e.session_id e.event_id in
    ground (arith, ok, latest, known, eq_iff e.event_id e.event_id)

Settled-accept :
    (c : SessionLifecycleConsumer) (e d : Event) → Settled c d → Settled (accept c e).0 d
Settled-accept c e d (inl known) =
    let (_, _, seen) = accept_facts c e d.session_id d.event_id in inl (ground (arith, seen, known))
Settled-accept c e d (inr old) =
    let (ok, latest, _) = accept_facts c e d.session_id d.event_id in
    inr (ground (arith, ok, latest, old, eq_iff e.session_id d.session_id))

Settled-accept_all :
    (c : SessionLifecycleConsumer) (es : List Event) (d : Event)
    → Settled c d
    → Settled (accept_all c es).0 d
unfolding accept_all
Settled-accept_all c [] d h = h
Settled-accept_all c (e ∷ es) d h = Settled-accept_all (accept c e).0 es d (Settled-accept c e d h)

accept_all-Settled :
    (c : SessionLifecycleConsumer) (es : List Event) → All (Settled (accept_all c es).0) es
unfolding accept_all
accept_all-Settled c [] = tt
accept_all-Settled c (e ∷ es) = (
  Settled-accept_all (accept c e).0 es e (accept-Settled c e),
  accept_all-Settled (accept c e).0 es,
)

accept_unchanged :
    (c : SessionLifecycleConsumer) (e : Event) → Settled c e → accept c e ≡ (c, false)
unfolding accept
accept_unchanged c e (inl known) = ground (arith, known)
accept_unchanged c e (inr old) = ground (arith, old)

accept_all_unchanged :
    (c : SessionLifecycleConsumer) (es : List Event)
    → All (Settled c) es
    → accept_all c es ≡ (c, [])
unfolding accept_all
accept_all_unchanged c [] h = refl
accept_all_unchanged c (e ∷ es) h =
    rw (accept_unchanged c e h.0, accept_all_unchanged c es h.1) refl

-- Delivery is idempotent: a row of events that is delivered a second time, right after the first, changes nothing, and
-- none of it is accepted again.
pub redelivery :
    (c : SessionLifecycleConsumer) (es : List Event)
    → accept_all (accept_all c es).0 es ≡ ((accept_all c es).0, [])
redelivery c es = accept_all_unchanged (accept_all c es).0 es (accept_all-Settled c es)
