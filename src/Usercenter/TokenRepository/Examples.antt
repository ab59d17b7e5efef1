-- ===== src/Usercenter/TokenRepository/Examples.antt =====
-- Concrete calls on services/usercenter/repository/mongo/refresh_token_repository.go, with a collection in memory.
use game01_server.Prelude.{◌≡◌, ◌≢◌, ◌⊎◌, refl, Option, none, some, List, [], ◌∷◌, String}
use game01_server.Prelude.Maps.{Map}
use game01_server.Storage.{Collection}
use game01_server.Storage.Memory.{
  memory, memory-IsLawful, memory_sessions, memory_sessions-IsAtomic,
}
use game01_server.Usercenter.Domain.{RefreshToken}
use game01_server.Usercenter.TokenRepository.{document_error, create_token, rotate}
use game01_server.Usercenter.TokenRepository.Once.{creates, here, next, rotate_once}

abbrev tokens : Collection RefreshToken
tokens = memory (λ t. t.id)

abbrev old_token : RefreshToken
old_token = record {
  id = "t1";
  account_id = "a1";
  token_hash = "h1";
  install_id = "i1";
  created_at = 10;
  expires_at = 100;
  revoked_at = none;
}

abbrev new_token : RefreshToken
new_token = record old_token { id = "t2"; token_hash = "h2"; created_at = 20; expires_at = 110 }

abbrev after_first : Map String RefreshToken
after_first = (rotate tokens (some memory_sessions) (("t1", old_token) ∷ []) "t1" 20 new_token 20).0

-- Another token is stored before the second call.
abbrev before_second : Map String RefreshToken
before_second = (create_token tokens after_first (record new_token { id = "t4" }) 25).0

rotate_once_example :
    let again =
      rotate tokens
        (some memory_sessions)
        before_second
        "t1"
        30
        (record new_token { id = "t3" })
        30 in
    (again.0 ≡ before_second) × (again.1 ≢ none)
unfolding rotate document_error game01_server.Storage.UnitOfWork.execute
    game01_server.Prelude.Maps.get game01_server.Prelude.Maps.put
rotate_once_example =
    rotate_once tokens (memory-IsLawful (λ t. t.id)) memory_sessions memory_sessions-IsAtomic
      (("t1", old_token) ∷ []) "t1" 20 new_token 20 before_second 30
      (record new_token { id = "t3" }) 30 refl
      (next here (creates after_first (record new_token { id = "t4" }) 25))
