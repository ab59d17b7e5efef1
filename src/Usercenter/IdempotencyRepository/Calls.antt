-- ===== src/Usercenter/IdempotencyRepository/Calls.antt =====
-- The calls of the driver that the repository (services/usercenter/repository/mongo/idempotency_repository.go) makes, in any
-- order: whatever operations overlap, and whichever calls fail, the store runs through a row of such calls.
use game01_server.Prelude.{ℕ, List, [], ◌∷◌, String}
use game01_server.Storage.{Collection}
use game01_server.Usercenter.Domain.{IdempotencyRecord}
use game01_server.Usercenter.IdempotencyRepository.{
  claim_call, remove_stale, complete, release, renew, recover_expired,
}

pub data Call : Type 0 where
  inserts : IdempotencyRecord → Call
  removes_stale : String → ℕ → Call
  claims : IdempotencyRecord → IdempotencyRecord → ℕ → Call
  completes : String → String → String → ℕ → Call
  releases : String → String → Call
  renews : String → String → ℕ → ℕ → Call
  recovers : ℕ → Call

module _ (c : Collection IdempotencyRecord) where
  unfoldable pub run_call : c.Store → Call → c.Store
  run_call s (inserts r) = (c.insert_one s r).0
  run_call s (removes_stale key now) = (remove_stale c s key now).0
  run_call s (claims r current now) = (claim_call c s r current now).0
  run_call s (completes key reservation_id response now) =
      (complete c s key reservation_id response now).0
  run_call s (releases key reservation_id) = (release c s key reservation_id).0
  run_call s (renews key reservation_id lease_until now) =
      (renew c s key reservation_id lease_until now).0
  run_call s (recovers now) = (recover_expired c s now).0

  unfoldable pub run : c.Store → List Call → c.Store
  run s [] = s
  run s (call ∷ calls) = run (run_call s call) calls
