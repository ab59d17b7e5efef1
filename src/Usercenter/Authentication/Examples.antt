-- ===== src/Usercenter/Authentication/Examples.antt =====
-- A concrete refresh by services/usercenter/components/domain_auth_component.go, with a collection in memory.
use game01_server.Prelude.{◌≡◌, refl, Option, none, some, List, [], ◌∷◌, String}
use Prim.Native.String.{◌++◌}
use game01_server.Storage.{Collection}
use game01_server.Storage.Memory.{
  memory, memory-IsLawful, memory_sessions, memory_sessions-IsAtomic,
}
use game01_server.Usercenter.Domain.{RefreshToken, is_usable}
use game01_server.Usercenter.TokenRepository.{document_error, rotate, find_valid, token_found}
use game01_server.Usercenter.Authentication.{
  RefreshRequest, Draw, TokenGrant, refresh_authenticate_core,
}
use game01_server.Usercenter.Authentication.Refresh.{Replaces, refresh-Replaces}

abbrev tokens : Collection RefreshToken
tokens = memory (λ t. t.id)

abbrev old_token : RefreshToken
old_token = record {
  id = "t1";
  account_id = "a1";
  token_hash = "#raw1";
  install_id = "i1";
  created_at = 10;
  expires_at = 100;
  revoked_at = none;
}

abbrev hash : String → String
hash s = "#" ++ s

abbrev refresh : RefreshRequest
refresh = record { refresh_token = "raw1"; install_id = "i1 " }

abbrev draw : Draw
draw = record { id = some "t2"; random = some "raw2"; at = 21 }

abbrev grant : TokenGrant
grant = record { account_id = "a1"; refresh_token = "raw2"; expires_at = 111 }

refresh-Replaces_example :
    (old : RefreshToken) × (find_valid tokens (("t1", old_token) ∷ []) (hash "raw1") 20
      ≡ token_found old)
    × (old.token_hash ≡ hash "raw1")
    × Replaces hash 90 tokens
        (memory-IsLawful (λ t. t.id))
        memory_sessions
        memory_sessions-IsAtomic
        (("t1", old_token) ∷ [])
        (refresh_authenticate_core hash 90 tokens
          (some memory_sessions)
          (("t1", old_token) ∷ [])
          refresh
          20
          draw
          22).0
        refresh
        20
        old
        grant
unfolding refresh_authenticate_core find_valid rotate document_error is_usable
    game01_server.Prelude.Text.trim_space game01_server.Storage.Memory.first_where
    game01_server.Storage.UnitOfWork.execute game01_server.Prelude.Maps.get
    game01_server.Prelude.Maps.put game01_server.Usercenter.Authentication.new_token
    game01_server.Usercenter.Authentication.refresh_found
refresh-Replaces_example =
    refresh-Replaces hash 90 tokens (memory-IsLawful (λ t. t.id)) memory_sessions
      memory_sessions-IsAtomic (("t1", old_token) ∷ []) refresh 20 draw 22 grant refl
