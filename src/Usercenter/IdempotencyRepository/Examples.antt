-- ===== src/Usercenter/IdempotencyRepository/Examples.antt =====
-- Concrete calls on services/usercenter/repository/mongo/idempotency_repository.go, with a collection in memory.
use game01_server.Prelude.{ℕ, ◌≡◌, ◌≢◌, inl, inr, refl, Option, none, some, List, [], ◌∷◌, arith}
use game01_server.Prelude.Eq.{eq_iff}
use game01_server.Storage.{Collection}
use game01_server.Storage.Memory.{memory, memory-IsLawful, memory-IsLawful-document}
use game01_server.Usercenter.Domain.{IdempotencyRecord, unset, pending, validate_record}
use game01_server.Usercenter.IdempotencyRepository.{reserve, or_pending}
use game01_server.Usercenter.IdempotencyRepository.Calls.{inserts, claims, completes, run}
use game01_server.Usercenter.IdempotencyRepository.Protection.{run-keeps}
use game01_server.Usercenter.IdempotencyRepository.Reserve.{
  Refines, atomic_reserve, reserve-Refines,
}

abbrev link_request : IdempotencyRecord
link_request = record {
  key = "link:1";
  operation = "link";
  account_id = "a1";
  request_hash = "h1";
  response = "";
  state = unset;
  reservation_id = "r1";
  lease_until = 130;
  created_at = 100;
  expires_at = 500;
}

abbrev held_record : IdempotencyRecord
held_record = record link_request { state = pending }

abbrev other_request : IdempotencyRecord
other_request = record link_request { reservation_id = "r2"; lease_until = 150 }

abbrev records : Collection IdempotencyRecord
records = memory (λ d. d.key)

reserved_keeps : (reserve records [] link_request 100 100).0 ≡ ("link:1", held_record) ∷ []
unfolding reserve validate_record game01_server.Prelude.Maps.get game01_server.Prelude.Maps.put
reserved_keeps = refl

run-keeps_example :
    (memory-IsLawful (λ d. d.key)).document
      (run records (("link:1", held_record) ∷ []) (
        claims other_request held_record 120
        ∷ (completes "link:1" "r2" "x" 121 ∷ (inserts other_request ∷ []))))
      "link:1"
    ≡ some held_record
unfolding game01_server.Prelude.Maps.get
run-keeps_example =
    run-keeps records (memory-IsLawful (λ d. d.key)) (("link:1", held_record) ∷ []) "link:1"
      held_record
      (claims other_request held_record 120
        ∷ (completes "link:1" "r2" "x" 121 ∷ (inserts other_request ∷ [])))
      (memory-IsLawful-document (λ d. d.key) (("link:1", held_record) ∷ []) "link:1")
      (inr (omega arith), (inr (λ e. ground (arith, (eq_iff "r2" "r1").1 e)), (tt, tt)))

reserve-Refines_example :
    Refines records
      (memory-IsLawful (λ d. d.key))
      "link:1"
      (reserve records (("link:1", held_record) ∷ []) other_request 135 136)
      (atomic_reserve
        ((memory-IsLawful (λ d. d.key)).document (("link:1", held_record) ∷ []) "link:1")
        (or_pending other_request)
        135)
unfolding validate_record
reserve-Refines_example =
    reserve-Refines records (memory-IsLawful (λ d. d.key)) (("link:1", held_record) ∷ [])
      other_request 135 136 refl refl refl refl
