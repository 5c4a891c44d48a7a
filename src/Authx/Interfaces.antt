-- ===== src/Authx/Interfaces.antt =====
-- v2/apiserver/internal/authx: the stores of users, service accounts and sessions, and tokens.
use brignext.Base.{ℕ, String, List}
use brignext.Effect.{M}
use brignext.Authx.Principals.{User, ServiceAccount, Session}
use brignext.Core.Types.{Time, ListMeta, ListOptions}

pub record Token : Type 0 where
  pub value : String

pub record UserList : Type 0 where
  pub meta : ListMeta
  pub items : List User

pub record ServiceAccountList : Type 0 where
  pub meta : ListMeta
  pub items : List ServiceAccount

pub record UsersStore (W : Type 0) : Type 0 where
  pub create : User → M W (Unit {0})
  pub count : M W ℕ
  pub list : ListOptions → M W UserList
  pub get : String → M W User
  pub lock : String → M W (Unit {0})
  pub unlock : String → M W (Unit {0})

pub record ServiceAccountsStore (W : Type 0) : Type 0 where
  pub create : ServiceAccount → M W (Unit {0})
  pub list : ListOptions → M W ServiceAccountList
  pub get : String → M W ServiceAccount
  pub get_by_hashed_token : String → M W ServiceAccount
  pub lock : String → M W (Unit {0})
  pub unlock : String → String → M W (Unit {0})

pub record SessionsStore (W : Type 0) : Type 0 where
  pub create : Session → M W (Unit {0})
  pub get_by_hashed_oauth2_state : String → M W Session
  pub get_by_hashed_token : String → M W Session
  pub authenticate : String → String → Time → M W (Unit {0})
  pub delete : String → M W (Unit {0})
