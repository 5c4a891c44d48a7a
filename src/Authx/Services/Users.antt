-- ===== src/Authx/Services/Users.antt =====
-- v2/apiserver/internal/authx/users.go: the users service.
use brignext.Base.{String, [], ◌∷◌, eqb, if◌then◌else◌}
use brignext.Effect.{M, ◌>>◌}
use brignext.Authx.Roles.{AuthorizeFn, role_reader, role_admin}
use brignext.Authx.Principals.{User}
use brignext.Authx.Interfaces.{UsersStore, UserList}
use brignext.Core.Types.{ListOptions}

pub record UsersService (W : Type 0) : Type 0 where
  pub authorize : AuthorizeFn W
  pub users_store : UsersStore W

module _ {W : Type 0} (s : UsersService W) where
  unfoldable pub list : ListOptions → M W UserList
  list opts = do
    s.authorize (role_reader ∷ [])
    s.users_store.list (if eqb opts.limit 0 then record opts { limit = 20 } else opts)

  unfoldable pub get : String → M W User
  get id = do s.authorize (role_reader ∷ []); s.users_store.get id

  unfoldable pub lock : String → M W (Unit {0})
  lock id = do s.authorize (role_admin ∷ []); s.users_store.lock id

  unfoldable pub unlock : String → M W (Unit {0})
  unlock id = do s.authorize (role_admin ∷ []); s.users_store.unlock id
