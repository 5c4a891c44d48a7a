-- ===== src/Authx/Mongo/SessionsStore.antt =====
-- v2/apiserver/internal/authx/mongodb/sessions_store.go.
use brignext.Base.{String, Option, none, some, eqb, if◌then◌else◌}
use brignext.Errors.{err_not_found}
use brignext.Effect.{M, pure, fail, ◌>>=◌}
use brignext.Mongo.{Collection}
use brignext.Authx.Principals.{Session}
use brignext.Authx.Interfaces
use brignext.Authx.Docs.{SessionFilter, SessionUpdate, no_session_criteria, set_user}
use brignext.Core.Types.{Time}
use brignext.Core.Mongo.EventsStore.{Clock}

module _ {W : Type 0} (collection : Collection W Session SessionFilter SessionUpdate)
    (clock : Clock W) where
  unfoldable pub create : Session → M W (Unit {0})
  create session = collection.insert_one session

  found : Option Session → M W Session
  found none = fail (err_not_found "Session" "")
  found (some session) = pure session

  unfoldable pub get_by_hashed_oauth2_state : String → M W Session
  unfolding found
  get_by_hashed_oauth2_state hashed_oauth2_state = do
    res ←
        collection.find_one
          (record no_session_criteria { hashed_oauth2_state = some hashed_oauth2_state })
    found res

  unfoldable pub get_by_hashed_token : String → M W Session
  unfolding found
  get_by_hashed_token hashed_token = do
    res ← collection.find_one (record no_session_criteria { hashed_token = some hashed_token })
    found res

  unfoldable pub authenticate : String → String → Time → M W (Unit {0})
  authenticate session_id user_id expires = do
    now ← clock.now
    matched_count ←
        collection.update_one (record no_session_criteria { id = some session_id })
          (set_user user_id now expires)
    if eqb matched_count 0 then fail (err_not_found "Session" session_id) else pure tt

  unfoldable pub delete : String → M W (Unit {0})
  delete id = do
    deleted_count ← collection.delete_one (record no_session_criteria { id = some id })
    if eqb deleted_count 0 then fail (err_not_found "Session" id) else pure tt

  -- The store that `NewSessionsStore` makes.
  unfoldable pub sessions_store : Interfaces.SessionsStore W
  sessions_store = record {
    create = create;
    get_by_hashed_oauth2_state = get_by_hashed_oauth2_state;
    get_by_hashed_token = get_by_hashed_token;
    authenticate = authenticate;
    delete = delete;
  }
