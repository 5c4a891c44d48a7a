-- ===== src/Authx/Mongo/ServiceAccountsStore.antt =====
-- v2/apiserver/internal/authx/mongodb/service_accounts_store.go.
pub mod Tokens
use brignext.Base.{String, Option, none, some, eqb, if◌then◌else◌}
use brignext.Errors.{err_not_found, service_account_exists}
use brignext.Effect.{M, pure, fail, attempt, ◌>>=◌}
use brignext.Mongo.{Collection}
use brignext.Authx.Principals.{ServiceAccount}
use brignext.Authx.Interfaces
use brignext.Authx.Interfaces.{ServiceAccountList}
use brignext.Authx.Docs.{AccountFilter, AccountUpdate, no_account_criteria, set_locked, unlock_with}
use brignext.Authx.Mongo.Pages.{create_error, page}
use brignext.Core.Types.{ListOptions}
use brignext.Core.Mongo.EventsStore.{Clock}

module _ {W : Type 0} (collection : Collection W ServiceAccount AccountFilter AccountUpdate)
    (clock : Clock W) where
  unfoldable pub create : ServiceAccount → M W (Unit {0})
  create account =
      attempt (collection.insert_one account) pure
        (λ e. fail (create_error "ServiceAccount" account.id (service_account_exists account.id) e))

  unfoldable pub list : ListOptions → M W ServiceAccountList
  list opts = do
    accounts ← page collection (λ a. a.id) opts
    pure (record { meta = accounts.0; items = accounts.1 })

  unfoldable pub found : String → Option ServiceAccount → M W ServiceAccount
  found id none = fail (err_not_found "ServiceAccount" id)
  found id (some account) = pure account

  unfoldable pub get : String → M W ServiceAccount
  unfolding found
  get id = do res ← collection.find_one (record no_account_criteria { id = some id }); found id res

  unfoldable pub get_by_hashed_token : String → M W ServiceAccount
  unfolding found
  get_by_hashed_token hashed_token = do
    res ← collection.find_one (record no_account_criteria { hashed_token = some hashed_token })
    found "" res

  -- `UpdateOne` by identifier.
  unfoldable pub update_account : String → AccountUpdate → M W (Unit {0})
  update_account id update = do
    matched_count ← collection.update_one (record no_account_criteria { id = some id }) update
    if eqb matched_count 0 then fail (err_not_found "ServiceAccount" id) else pure tt

  unfoldable pub lock : String → M W (Unit {0})
  unfolding update_account
  lock id = do now ← clock.now; update_account id (set_locked (some now))

  unfoldable pub unlock : String → String → M W (Unit {0})
  unfolding update_account
  unlock id new_hashed_token = update_account id (unlock_with new_hashed_token)

  -- The store that `NewServiceAccountsStore` makes.
  unfoldable pub service_accounts_store : Interfaces.ServiceAccountsStore W
  service_accounts_store = record {
    create = create;
    list = list;
    get = get;
    get_by_hashed_token = get_by_hashed_token;
    lock = lock;
    unlock = unlock;
  }
