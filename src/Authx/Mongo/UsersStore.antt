-- ===== src/Authx/Mongo/UsersStore.antt =====
-- v2/apiserver/internal/authx/mongodb/users_store.go.
pub mod Locks
use brignext.Base.{ℕ, String, Option, none, some, List, eqb, if◌then◌else◌}
use brignext.Errors.{err_not_found, user_exists}
use brignext.Effect.{M, pure, fail, attempt, ◌>>=◌, ◌>>◌}
use brignext.Mongo.{Collection}
use brignext.Authx.Principals.{User, Session}
use brignext.Authx.Interfaces
use brignext.Authx.Interfaces.{UserList}
use brignext.Authx.Docs.{
  AccountFilter, AccountUpdate, SessionFilter, SessionUpdate, no_account_criteria,
  no_session_criteria, set_locked,
}
use brignext.Authx.Mongo.Pages.{create_error, page}
use brignext.Core.Types.{Time, ListOptions}
use brignext.Core.Mongo.EventsStore.{Clock}

module _ {W : Type 0} (collection : Collection W User AccountFilter AccountUpdate)
    (sessions_collection : Collection W Session SessionFilter SessionUpdate) (clock : Clock W) where
  unfoldable pub create : User → M W (Unit {0})
  create user =
      attempt (collection.insert_one user) pure
        (λ e. fail (create_error "User" user.id (user_exists user.id) e))

  unfoldable pub count : M W ℕ
  count = collection.count_documents no_account_criteria

  unfoldable pub list : ListOptions → M W UserList
  list opts = do
    users ← page collection (λ u. u.id) opts
    pure (record { meta = users.0; items = users.1 })

  unfoldable pub found : String → Option User → M W User
  found id none = fail (err_not_found "User" id)
  found id (some user) = pure user

  unfoldable pub get : String → M W User
  unfolding found
  get id = do res ← collection.find_one (record no_account_criteria { id = some id }); found id res

  -- `UpdateOne` of "locked" by identifier.
  unfoldable pub update_locked : String → Option Time → M W (Unit {0})
  update_locked id locked = do
    matched_count ←
        collection.update_one (record no_account_criteria { id = some id }) (set_locked locked)
    if eqb matched_count 0 then fail (err_not_found "User" id) else pure tt

  -- What follows the reading of the clock: a locked user's sessions are deleted.
  unfoldable pub lock_at : String → Time → M W (Unit {0})
  unfolding update_locked
  lock_at id now = do
    update_locked id (some now)
    sessions_collection.delete_many (record no_session_criteria { user_id = some id })

  unfoldable pub lock : String → M W (Unit {0})
  unfolding lock_at
  lock id = do now ← clock.now; lock_at id now

  unfoldable pub unlock : String → M W (Unit {0})
  unfolding update_locked
  unlock id = update_locked id none

  -- The store that `NewUsersStore` makes.
  unfoldable pub users_store : Interfaces.UsersStore W
  users_store = record {
    create = create;
    count = count;
    list = list;
    get = get;
    lock = lock;
    unlock = unlock;
  }
