-- ===== src/Authx/Docs.antt =====
-- The documents of the collections "users", "service-accounts" and "sessions", with the filters
-- and updates that the stores of v2/apiserver/internal/authx/mongodb build for them.
use Prim.Native.Nat.{Ordering}
use Prim.Native.String.{compare}
use brignext.Base.{
  ◌≢◌, String, Bool, true, not, ◌&&◌, Option, none, some, List, [], ◌∷◌, ◌++◌, select, ◌==◌,
  if◌then◌else◌,
}
use brignext.Mongo.{Semantics, Sort, created_desc, id_asc}
use brignext.Authx.Roles.{Role, same_role, has_role, precedes}
use brignext.Authx.Principals.{User, ServiceAccount, Session}
use brignext.Core.Types.{Time}
use brignext.Core.Mongo.ProjectDocs.{is_after}

-- `hashed_token` is for service accounts. `lacks_role` is `{"$nin": [role]}`.
pub record AccountFilter : Type 0 where
  pub id : Option String
  pub id_after : Option String
  pub hashed_token : Option String
  pub lacks_role : Option Role

abbrev pub no_account_criteria : AccountFilter
no_account_criteria = record { id = none; id_after = none; hashed_token = none; lacks_role = none }

pub record SessionFilter : Type 0 where
  pub id : Option String
  pub user_id : Option String
  pub hashed_token : Option String
  pub hashed_oauth2_state : Option String

abbrev pub no_session_criteria : SessionFilter
no_session_criteria = record {
  id = none;
  user_id = none;
  hashed_token = none;
  hashed_oauth2_state = none;
}

-- `push_role` is `$push` of one element with `$sort`, `pull_role` is `$pull` of one.
pub data AccountUpdate : Type 0 where
  set_locked : Option Time → AccountUpdate
  -- of a service account: `locked` is nil, and `hashedToken` is new
  unlock_with : String → AccountUpdate
  push_role pull_role : Role → AccountUpdate

pub data SessionUpdate : Type 0 where
  set_user : String → Time → Time → SessionUpdate

-- A filter's condition on a text.
unfoldable pub is_text : Option String → String → Bool
is_text none t = true
is_text (some s) t = t == s

unfoldable pub is_id_after : Option String → String → Bool
is_id_after none t = true
is_id_after (some s) t = is_after t s

unfoldable pub is_lacking : Option Role → List Role → Bool
is_lacking none roles = true
is_lacking (some r) roles = not (has_role r roles)

unfoldable pub user_matches : AccountFilter → User → Bool
unfolding is_text is_id_after is_lacking
user_matches f u =
    is_text f.id u.id && is_id_after f.id_after u.id && is_lacking f.lacks_role u.user_roles

unfoldable pub account_matches : AccountFilter → ServiceAccount → Bool
unfolding is_text is_id_after is_lacking
account_matches f a =
    is_text f.id a.id
    && is_id_after f.id_after a.id
    && is_text f.hashed_token a.hashed_token
    && is_lacking f.lacks_role a.service_account_roles

unfoldable pub session_matches : SessionFilter → Session → Bool
unfolding is_text
session_matches f s =
    is_text f.id s.id
    && is_text f.user_id s.user_id
    && is_text f.hashed_token s.hashed_token
    && is_text f.hashed_oauth2_state s.hashed_oauth2_state

unfoldable pub place_role : Role → List Role → List Role
place_role r [] = r ∷ []
place_role r (q ∷ qs) = let rest = place_role r qs in if precedes q r then q ∷ rest else r ∷ q ∷ qs

-- `$sort` of the whole array.
unfoldable pub sort_roles : List Role → List Role
unfolding place_role
sort_roles [] = []
sort_roles (r ∷ rs) = place_role r (sort_roles rs)

unfoldable pub with_role : Role → List Role → List Role
unfolding sort_roles
with_role r roles = sort_roles (roles ++ r ∷ [])

unfoldable pub without_role : Role → List Role → List Role
without_role r roles = select (λ q. not (same_role r q)) roles

unfoldable pub user_apply : AccountUpdate → User → User
unfolding with_role without_role
user_apply (set_locked t) u = record u { locked = t }
user_apply (unlock_with hashed_token) u = record u { locked = none }
user_apply (push_role r) u = record u { user_roles = with_role r u.user_roles }
user_apply (pull_role r) u = record u { user_roles = without_role r u.user_roles }

unfoldable pub account_apply : AccountUpdate → ServiceAccount → ServiceAccount
unfolding with_role without_role
account_apply (set_locked t) a = record a { locked = t }
account_apply (unlock_with hashed_token) a = record a { locked = none; hashed_token = hashed_token }
account_apply (push_role r) a = record a {
  service_account_roles = with_role r a.service_account_roles;
}
account_apply (pull_role r) a = record a {
  service_account_roles = without_role r a.service_account_roles;
}

unfoldable pub session_apply : SessionUpdate → Session → Session
session_apply (set_user user_id authenticated expires) s = record s {
  user_id = user_id;
  authenticated = some authenticated;
  expires = some expires;
}

-- By identifier; the other key is not used here.
abbrev pub InIdOrder : {D : Type 0} → (D → String) → List D → Type 0
InIdOrder id_of [] = Unit
InIdOrder id_of (d ∷ []) = Unit
InIdOrder id_of (d ∷ e ∷ ds) =
    (compare (id_of e) (id_of d) ≢ Ordering.lt) × InIdOrder id_of (e ∷ ds)

abbrev InOrder : {D : Type 0} → (D → String) → Sort → List D → Type 0
InOrder id_of created_desc ds = Unit
InOrder id_of id_asc ds = InIdOrder id_of ds

abbrev pub user_semantics : Semantics User AccountFilter AccountUpdate
user_semantics = record {
  id_of = λ u. u.id;
  matches = user_matches;
  apply = user_apply;
  IsOrdered = InOrder (λ u. u.id);
}

abbrev pub account_semantics : Semantics ServiceAccount AccountFilter AccountUpdate
account_semantics = record {
  id_of = λ a. a.id;
  matches = account_matches;
  apply = account_apply;
  IsOrdered = InOrder (λ a. a.id);
}

abbrev pub session_semantics : Semantics Session SessionFilter SessionUpdate
session_semantics = record {
  id_of = λ s. s.id;
  matches = session_matches;
  apply = session_apply;
  IsOrdered = InOrder (λ s. s.id);
}
