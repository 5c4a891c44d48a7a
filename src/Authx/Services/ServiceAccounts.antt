-- ===== src/Authx/Services/ServiceAccounts.antt =====
-- v2/apiserver/internal/authx/service_accounts.go: the service accounts service.
use brignext.Base.{String, some, [], ◌∷◌, eqb, if◌then◌else◌}
use brignext.Effect.{M, pure, ◌>>=◌, ◌>>◌}
use brignext.Authx.Roles.{AuthorizeFn, role_reader, role_admin}
use brignext.Authx.Principals.{ServiceAccount}
use brignext.Authx.Interfaces.{ServiceAccountsStore, ServiceAccountList, Token}
use brignext.Core.Types.{ListOptions}
use brignext.Core.Interfaces.{System}

pub record ServiceAccountsService (W : Type 0) : Type 0 where
  pub authorize : AuthorizeFn W
  pub service_accounts_store : ServiceAccountsStore W
  pub system : System W

module _ {W : Type 0} (s : ServiceAccountsService W) where
  unfoldable pub create : ServiceAccount → M W Token
  create account = do
    s.authorize (role_admin ∷ [])
    token ← s.system.new_token 256
    now ← s.system.now
    s.service_accounts_store.create
        (record account { created = some now; hashed_token = s.system.short_sha "" token })
    pure (record { value = token })

  unfoldable pub list : ListOptions → M W ServiceAccountList
  list opts = do
    s.authorize (role_reader ∷ [])
    s.service_accounts_store.list (if eqb opts.limit 0 then record opts { limit = 20 } else opts)

  unfoldable pub get : String → M W ServiceAccount
  get id = do s.authorize (role_reader ∷ []); s.service_accounts_store.get id

  unfoldable pub get_by_token : String → M W ServiceAccount
  get_by_token token = s.service_accounts_store.get_by_hashed_token (s.system.short_sha "" token)

  unfoldable pub lock : String → M W (Unit {0})
  lock id = do s.authorize (role_admin ∷ []); s.service_accounts_store.lock id

  unfoldable pub unlock : String → M W Token
  unlock id = do
    s.authorize (role_admin ∷ [])
    new_token ← s.system.new_token 256
    s.service_accounts_store.unlock id (s.system.short_sha "" new_token)
    pure (record { value = new_token })
