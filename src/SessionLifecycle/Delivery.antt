-- ===== src/SessionLifecycle/Delivery.antt =====
-- What the consumer of services/common/session_lifecycle.go accepts of a row of events.
use game01_server.Prelude.{
  ℕ, ◌≤◌, ◌⊎◌, ◌∙◌, ◌≡◌, refl, sym, subst, inl, inr, max, Bool, true, false, List, [], ◌∷◌, String,
  arith,
}
use game01_server.Prelude.Tests.{ltb, if◌then◌else◌, Bool-cases}
use game01_server.Prelude.Eq.{string_eq, str_eq, eq_iff}
use game01_server.Prelude.Maps.{has, get-put}
use game01_server.SessionLifecycle.{Event, SessionLifecycleConsumer, latest_epoch, accept}

-- The consumer after a row of events, and the events that it accepted.
unfoldable pub accept_all :
    SessionLifecycleConsumer → List Event → SessionLifecycleConsumer × List Event
accept_all c [] = (c, [])
accept_all c (e ∷ es) =
    let (c', ok) = accept c e in
    let (last, rest) = accept_all c' es in (last, if ok then e ∷ rest else rest)

-- The largest epoch of a session's events.
unfoldable pub max_epoch : String → List Event → ℕ
max_epoch s [] = 0
max_epoch s (e ∷ es) =
    if str_eq e.session_id s then max e.connection_epoch (max_epoch s es) else max_epoch s es

-- The epochs of a session's events do not fall, from `b` on.
abbrev pub Rising : String → ℕ → List Event → Type 0
Rising s b [] = Unit
Rising s b (e ∷ es) =
    if str_eq e.session_id s
    then (b ≤ e.connection_epoch) × Rising s e.connection_epoch es
    else Rising s b es

-- The ids of the events differ from each other and from those of the consumer.
abbrev pub Fresh : (String → Bool) → List Event → Type 0
Fresh seen [] = Unit
Fresh seen (e ∷ es) =
    (seen e.event_id ≡ false) × Fresh (λ i. if str_eq e.event_id i then true else seen i) es

pub accept_facts :
    (c : SessionLifecycleConsumer) (e : Event) (s i : String)
    → let (c', ok) = accept c e in
      (ok ≡ (
        if has c.event_ids e.event_id
        then false
        else (if ltb e.connection_epoch (latest_epoch c e.session_id) then false else true)))
      × (latest_epoch c' s ≡ (
          if ok
          then (if str_eq e.session_id s then e.connection_epoch else latest_epoch c s)
          else latest_epoch c s))
      × (has c'.event_ids i ≡ (
          if ok
          then (if str_eq e.event_id i then true else has c.event_ids i)
          else has c.event_ids i))
unfolding accept latest_epoch has
accept_facts c e s i = ground (
  arith,
  eq_iff e.session_id s,
  get-put c.latest_epochs e.session_id e.connection_epoch s,
  get-put c.event_ids e.event_id tt i,
)

accept_all_cases :
    (c : SessionLifecycleConsumer) (e : Event) (es : List Event)
    → let r = accept_all (accept c e).0 es in
      (((accept c e).1 ≡ true) × (accept_all c (e ∷ es) ≡ (r.0, e ∷ r.1)))
      ⊎ (((accept c e).1 ≡ false) × (accept_all c (e ∷ es) ≡ r))
unfolding accept_all
accept_all_cases c e es = elim (Bool-cases (accept c e).1) [
  | inl ok ↦ inl (ok, ground (arith, ok))
  | inr refused ↦ inr (refused, ground (arith, refused))
]

accept_all_nil : (c : SessionLifecycleConsumer) → accept_all c [] ≡ (c, [])
unfolding accept_all
accept_all_nil c = refl

-- The epochs that the consumer accepts for one session never fall, and are never below the latest that it had.
pub accept_all-Rising :
    (c : SessionLifecycleConsumer) (es : List Event) (s : String)
    → Rising s (latest_epoch c s) (accept_all c es).1
accept_all-Rising c [] s = rw (accept_all_nil c) tt
accept_all-Rising c (e ∷ es) s =
    let (ok, latest, _) = accept_facts c e s s in
    let rest = accept_all-Rising (accept c e).0 es s in
    elim (accept_all_cases c e es) [
      | inr (refused, eq) ↦
          let same : latest_epoch (accept c e).0 s ≡ latest_epoch c s =
            ground (arith, latest, refused) in
          rw eq (subst (λ b. Rising s b (accept_all (accept c e).0 es).1) same rest)
      | inl (taken, eq) ↦ rw eq (elim (Bool-cases (str_eq e.session_id s)) [
        | inl own ↦
            let now : latest_epoch (accept c e).0 s ≡ e.connection_epoch =
              ground (arith, latest, taken, own) in
            let named : e.session_id ≡ s = (eq_iff e.session_id s).0 own in
            rw own (
              subst (λ k. latest_epoch c k ≤ e.connection_epoch) named (ground (arith, ok, taken)),
              subst (λ b. Rising s b (accept_all (accept c e).0 es).1) now rest,
            )
        | inr other ↦
            let same : latest_epoch (accept c e).0 s ≡ latest_epoch c s =
              ground (arith, latest, taken, other) in
            rw other (subst (λ b. Rising s b (accept_all (accept c e).0 es).1) same rest)
      ])
    ]

-- The latest epoch of a session is the largest among the one that the consumer had and those of the session's
-- accepted events.
pub latest_epoch-accept_all :
    (c : SessionLifecycleConsumer) (es : List Event) (s : String)
    → latest_epoch (accept_all c es).0 s ≡ max (latest_epoch c s) (max_epoch s (accept_all c es).1)
unfolding max_epoch
latest_epoch-accept_all c [] s = rw (accept_all_nil c) (omega arith)
latest_epoch-accept_all c (e ∷ es) s =
    let (ok, latest, _) = accept_facts c e s s in
    let (_, own, _) = accept_facts c e e.session_id s in
    let rest = latest_epoch-accept_all (accept c e).0 es s in
    elim (accept_all_cases c e es) [
      | inr (refused, eq) ↦ rw eq (ground (arith, latest, refused, rest))
      | inl (taken, eq) ↦ rw eq (elim (Bool-cases (str_eq e.session_id s)) [
        | inl own ↦
            let named : e.session_id ≡ s = (eq_iff e.session_id s).0 own in
            let above : latest_epoch c s ≤ e.connection_epoch =
              subst (λ k. latest_epoch c k ≤ e.connection_epoch) named
                (ground (arith, ok, taken)) in
            rw own (ground (arith, latest, taken, rest, own, above))
        | inr other ↦ rw other (ground (arith, latest, taken, rest, other))
      ])
    ]

Fresh-same :
    (f g : String → Bool) (es : List Event) → ((i : String) → f i ≡ g i) → Fresh f es → Fresh g es
Fresh-same f g [] h v = tt
Fresh-same f g (e ∷ es) h (new, rest) = (
  sym (h e.event_id) ∙ new,
  Fresh-same (λ i. if str_eq e.event_id i then true else f i)
      (λ i. if str_eq e.event_id i then true else g i) es (λ i. ground (arith, h i)) rest,
)

-- No event id is accepted twice, nor one that the consumer knew before.
pub accept_all-Fresh :
    (c : SessionLifecycleConsumer) (es : List Event) → Fresh (has c.event_ids) (accept_all c es).1
accept_all-Fresh c [] = rw (accept_all_nil c) tt
accept_all-Fresh c (e ∷ es) =
    let rest = accept_all-Fresh (accept c e).0 es in
    let known = λ (i : String). (accept_facts c e e.session_id i).2 in
    elim (accept_all_cases c e es) [
      | inr (refused, eq) ↦ rw eq (
          Fresh-same _ _ (accept_all (accept c e).0 es).1 (λ i. ground (arith, known i, refused))
            rest)
      | inl (taken, eq) ↦ rw eq (
        ground (arith, (accept_facts c e e.session_id e.event_id).0, taken),
        Fresh-same _ _ (accept_all (accept c e).0 es).1 (λ i. ground (arith, known i, taken)) rest,
      )
    ]
