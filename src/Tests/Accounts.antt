-- ===== src/Tests/Accounts.antt =====
-- Users, service accounts and sessions in memory.
use brignext.Base.{
  ◌≡◌, refl, String, false, inl, inr, none, some, List, [], ◌∷◌, ◌++◌, length, select, find_first,
  any, update_all, update_first, remove_first, remove_all, if◌then◌else◌, ◌==◌,
}
use brignext.Errors.{ok, err, other, err_not_found, is_not_found}
use brignext.Effect.{pure, fail}
use brignext.Mongo.{Collection, Semantics, Laws}
use brignext.Authx.Roles.{Role, role_admin, role_reader}
use brignext.Authx.Principals.{User, ServiceAccount, Session, user_principal}
use brignext.Authx.Docs.{
  AccountFilter, AccountUpdate, SessionFilter, SessionUpdate, user_semantics, account_semantics,
  session_semantics, user_matches, account_matches, is_text, is_id_after, is_lacking, user_apply,
}
use brignext.Authx.Mongo.UsersStore.{lock, get}
use brignext.Authx.Mongo.UsersStore.Locks.{LockLaws, LockSpec, lock_lem}
use brignext.Authx.Mongo.ServiceAccountsStore.{unlock, get_by_hashed_token}
use brignext.Authx.Mongo.ServiceAccountsStore.Tokens.{
  get_by_hashed_token-unlock, has_account_id, has_token, unlocked, Answers,
}
use brignext.Authx.Locked.{FilterLaws, authenticate-lock}
use brignext.Core.Mongo.EventsStore.{Clock}
use brignext.Rest.TokenAuth
use brignext.Rest.TokenAuth.{TokenAuthFilter, accepted}

pub record Db : Type 0 where
  pub users : List User
  pub accounts : List ServiceAccount
  pub sessions : List Session

-- A collection that is a part of the database. It cannot list its documents.
module _ {D F U : Type 0} (docs : Db → List D) (put : List D → Db → Db) (s : Semantics D F U) where
  abbrev table : Collection Db D F U
  table = record {
    insert_one = λ d. λ w. (ok tt, put (docs w ++ d ∷ []) w);
    find_one = λ f. λ w. (ok (find_first (s.matches f) (docs w)), w);
    find = λ f. λ o. fail (other "unavailable");
    update_one = λ f. λ u. λ w. (
      ok (if any (s.matches f) (docs w) then 1 else 0),
      put (update_first (s.matches f) (s.apply u) (docs w)) w,
    );
    update_many = λ f. λ u. λ w. (ok tt, put (update_all (s.matches f) (s.apply u) (docs w)) w);
    delete_one = λ f. λ w. (
      ok (if any (s.matches f) (docs w) then 1 else 0),
      put (remove_first (s.matches f) (docs w)) w,
    );
    delete_many = λ f. λ w. (ok tt, put (remove_all (s.matches f) (docs w)) w);
    count_documents = λ f. λ w. (ok (length (select (s.matches f) (docs w))), w);
  }

  table-Laws : ((l : List D) (w : Db) → docs (put l w) ≡ l) → Laws table docs s
  table-Laws written = record {
    insert_one_law = λ d. λ w. inl (refl, written _ w);
    find_one_law = λ f. λ w. inl (refl, refl);
    find_law = λ f. λ o. λ w. inr ("unavailable", refl, refl);
    update_one_law = λ f. λ u. λ w. inl (refl, written _ w);
    update_many_law = λ f. λ u. λ w. inl (refl, written _ w);
    delete_one_law = λ f. λ w. inl (refl, written _ w);
    delete_many_law = λ f. λ w. inl (refl, written _ w);
    count_documents_law = λ f. λ w. inl (refl, refl);
  }

abbrev pub users_of : Db → List User
users_of w = w.users

abbrev pub accounts_of : Db → List ServiceAccount
accounts_of w = w.accounts

abbrev pub sessions_of : Db → List Session
sessions_of w = w.sessions

abbrev put_users : List User → Db → Db
put_users l w = record w { users = l }

abbrev pub users_table : Collection Db User AccountFilter AccountUpdate
users_table = table users_of put_users user_semantics

abbrev put_accounts : List ServiceAccount → Db → Db
put_accounts l w = record w { accounts = l }

abbrev pub accounts_table : Collection Db ServiceAccount AccountFilter AccountUpdate
accounts_table = table accounts_of put_accounts account_semantics

abbrev put_sessions : List Session → Db → Db
put_sessions l w = record w { sessions = l }

abbrev pub sessions_table : Collection Db Session SessionFilter SessionUpdate
sessions_table = table sessions_of put_sessions session_semantics

pub users_table-Laws : Laws users_table users_of user_semantics
users_table-Laws = table-Laws users_of put_users user_semantics (λ l. λ w. refl)

pub accounts_table-Laws : Laws accounts_table accounts_of account_semantics
accounts_table-Laws = table-Laws accounts_of put_accounts account_semantics (λ l. λ w. refl)

sessions_table-Laws : Laws sessions_table sessions_of session_semantics
sessions_table-Laws = table-Laws sessions_of put_sessions session_semantics (λ l. λ w. refl)

abbrev pub at_50 : Clock Db
at_50 = record { now = pure 50; format = λ t. ""; parse = λ s. none }

lock_laws : LockLaws users_table sessions_table at_50 users_of sessions_of
lock_laws = record {
  users_law = users_table-Laws;
  sessions_law = sessions_table-Laws;
  update_one_law = λ f. λ u. λ w. refl;
  delete_many_law = λ f. λ w. refl;
  now_law = λ w. ((50, refl), refl, refl);
}

abbrev pub user_named : String → List Role → User
user_named id roles = record {
  id = id;
  created = none;
  name = id;
  locked = none;
  user_roles = roles;
}

abbrev kate : User
kate = user_named "kate" (role_reader ∷ [])

abbrev session_of : String → Session
session_of user_id = record {
  id = user_id;
  created = some 1;
  root = false;
  user_id = user_id;
  hashed_oauth2_state = "state";
  hashed_token = user_id;
  authenticated = some 2;
  expires = some 100;
}

abbrev pub robot : ServiceAccount
robot = record {
  id = "robot";
  created = none;
  description = "";
  hashed_token = "robot-token";
  locked = none;
  service_account_roles = role_admin ∷ [];
}

abbrev pub db : Db
db = record {
  users = user_named "jane" (role_admin ∷ []) ∷ kate ∷ [];
  accounts = robot ∷ [];
  sessions = session_of "jane" ∷ session_of "kate" ∷ session_of "jane" ∷ [];
}

lock_example :
    let m = lock users_table sessions_table at_50 "jane" in
    LockSpec "jane" db.users db.sessions (m db).0 (m db).1.users (m db).1.sessions
lock_example = lock_lem users_table sessions_table at_50 users_of sessions_of lock_laws "jane" db

-- Every token is Kate's.
abbrev kates_filter : TokenAuthFilter Db
kates_filter = record {
  find_session = λ token. pure (session_of "kate");
  find_event = λ token. fail (err_not_found "Event" "");
  find_user = get users_table sessions_table at_50;
  find_service_account = λ token. fail (err_not_found "ServiceAccount" "");
  root_user_enabled = false;
  hashed_scheduler_token = "scheduler-token";
  hashed_observer_token = "observer-token";
  short_sha = λ salt. λ token. token;
  now = pure 50;
}

filter_laws : FilterLaws kates_filter users_table sessions_table at_50 users_of
filter_laws = record {
  find_user_law = λ id. λ w. refl;
  find_session_law = λ token. λ w. refl;
  find_event_law = λ token. λ w. refl;
  find_service_account_law = λ token. λ w. refl;
  now_law = λ w. refl;
}

abbrev jane_locked : Db
jane_locked = (lock users_table sessions_table at_50 "jane" db).1

jane_locked_ok : (lock users_table sessions_table at_50 "jane" db).0 ≡ ok tt
unfolding lock any user_matches is_text is_id_after is_lacking
jane_locked_ok = refl

kate_let_in :
    (TokenAuth.authenticate kates_filter "token" jane_locked).0
    ≡ ok (accepted (user_principal kate) "kate")
unfolding lock TokenAuth.authenticate is_not_found get find_first any user_matches update_first
    user_apply
kate_let_in = refl

locked_example : ("kate" == "jane") ≡ false
locked_example =
    authenticate-lock users_table sessions_table at_50 users_of sessions_of lock_laws kates_filter
      filter_laws "jane" db jane_locked_ok "token" jane_locked refl kate "kate" kate_let_in

abbrev unlocked_db : Db
unlocked_db = (unlock accounts_table at_50 "robot" "fresh" db).1

unlock_example :
    (a : ServiceAccount) × (find_first (has_account_id "robot") db.accounts ≡ some a)
    × Answers
        (ok (unlocked "fresh" a))
        (get_by_hashed_token accounts_table at_50 "fresh" unlocked_db).0
    × Answers
        (err (err_not_found "ServiceAccount" ""))
        (get_by_hashed_token accounts_table at_50 a.hashed_token unlocked_db).0
unfolding any has_token unlock account_matches
unlock_example =
    get_by_hashed_token-unlock accounts_table at_50 accounts_of accounts_table-Laws "robot" "fresh"
      db (refl, tt) refl refl
