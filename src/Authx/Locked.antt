-- ===== src/Authx/Locked.antt =====
-- A locked user has no access: `Lock` of v2/apiserver/internal/authx/mongodb/users_store.go and
-- the token filter of v2/apiserver/internal/lib/restmachinery/authn/token_auth.go.
use brignext.Base.{
  ◌≡◌, sym, subst, ◌∙◌, ap, String, Bool, true, false, inl, inr, some, is_some, List, [], ◌∷◌,
  find_first, update_first, Bool-cases, Option-cases, eq_iff, ◌==◌,
}
use brignext.Errors.{ok}
use brignext.Mongo.{Collection}
use brignext.Authx.Principals.{User, Session, user_principal}
use brignext.Authx.Docs.{
  AccountFilter, AccountUpdate, SessionFilter, SessionUpdate, no_account_criteria, set_locked,
  user_apply,
}
use brignext.Authx.Mongo.UsersStore.{get, lock, found}
use brignext.Authx.Mongo.UsersStore.Locks.{LockLaws, Keeps, has_user_id, user_matches-id, lock_lem}
use brignext.Core.Types.{Time}
use brignext.Core.Mongo.EventsStore.{Clock}
use brignext.Rest.TokenAuth.{TokenAuthFilter, accepted, authenticate}
use brignext.Rest.TokenAuth.UserReads.{ReadLaws, authenticate-IsRead}

find_first-has :
    {A : Type 0} (p : A → Bool) (xs : List A) (x : A) → find_first p xs ≡ some x → p x ≡ true
unfolding find_first
find_first-has p [] x h = absurd (cc h)
find_first-has p (y ∷ ys) x h = elim (Bool-cases (p y)) [
  | inl e ↦ let h' : some y ≡ some x = rw e at h in cc (e, h')
  | inr e ↦ find_first-has p ys x (rw e at h)
]

some-injective : {A : Type 0} {a b : A} → some a ≡ some b → a ≡ b
some-injective h = cc h

-- The first user with the identifier, after it was locked.
find_first-locked :
    (id : String) (t : Time) (us : List User) (u : User)
    → find_first
        (has_user_id id)
        (update_first (has_user_id id) (user_apply (set_locked (some t))) us)
      ≡ some u
    → u.locked ≡ some t
unfolding find_first update_first has_user_id user_apply
find_first-locked id t [] u h = absurd (cc h)
find_first-locked id t (v ∷ us) u h = elim (Bool-cases (v.id == id)) [
  | inl e ↦
      let h' : some (record v { locked = some t }) ≡ some u = rw (e, e) at h in
      sym (ap (λ (x : User). x.locked) (some-injective h'))
  | inr e ↦ find_first-locked id t us u (rw (e, e) at h)
]

-- A user who is read, not locked, is another than the one that was locked.
other_than_locked :
    (id user_id : String) (t : Time) (us us' : List User) (u : User)
    → us' ≡ update_first (has_user_id id) (user_apply (set_locked (some t))) us
    → find_first (has_user_id user_id) us' ≡ some u
    → is_some u.locked ≡ false
    → (u.id == id) ≡ false
other_than_locked id user_id t us us' u b read unlocked = elim (Bool-cases (u.id == id)) [
  | inr n ↦ n
  | inl y ↦
      let named = find_first-has (has_user_id user_id) us' u read in
      let same_id : user_id ≡ id =
        sym ((eq_iff u.id user_id).0 (unfold has_user_id in named)) ∙ (eq_iff u.id id).0 y in
      let read' : find_first (has_user_id id) us' ≡ some u =
        subst (λ i. find_first (has_user_id i) us' ≡ some u) same_id read in
      let is_locked =
        find_first-locked id t us u (subst (λ l. find_first (has_user_id id) l ≡ some u) b read') in
      absurd (cc (ap is_some is_locked, unlocked))
]

-- The token filter reads users from the store, and what else it reads leaves the users as they
-- are.
pub record FilterLaws {W : Type 0} (t : TokenAuthFilter W)
    (collection : Collection W User AccountFilter AccountUpdate)
    (sessions_collection : Collection W Session SessionFilter SessionUpdate) (clock : Clock W)
    (users : W → List User) : Type 0 where
  pub find_user_law :
      (id : String) (w : W) → t.find_user id w ≡ get collection sessions_collection clock id w
  pub find_session_law : (token : String) → Keeps users (t.find_session token)
  pub find_event_law : (token : String) → Keeps users (t.find_event token)
  pub find_service_account_law : (token : String) → Keeps users (t.find_service_account token)
  pub now_law : Keeps users t.now

module _ {W : Type 0} (collection : Collection W User AccountFilter AccountUpdate)
    (sessions_collection : Collection W Session SessionFilter SessionUpdate) (clock : Clock W)
    (users : W → List User) (sessions : W → List Session)
    (laws : LockLaws collection sessions_collection clock users sessions) where
  -- What `Get` answers is the first user with the identifier.
  get-ok :
      (id : String) (w : W) (u : User)
      → (get collection sessions_collection clock id w).0 ≡ ok u
      → find_first (has_user_id id) (users w) ≡ some u
  unfolding get found
  get-ok id w u h =
      let f = record no_account_criteria { id = some id } in
      elim (rw (user_matches-id id) at (laws.users_law.find_one_law f w)) [
        | inr (s, a, l) ↦ absurd (cc (rw a at h))
        | inl (a, b) ↦ elim (Option-cases (find_first (has_user_id id) (users w))) [
          | inl n ↦ let a' = rw n at a in absurd (cc (rw a' at h))
          | inr (v, e) ↦
              let a' = rw e at a in let h' : ok v ≡ ok u = rw a' at h in rw e (ap some (cc h'))
        ]
      ]

  module _ (t : TokenAuthFilter W)
      (filter_laws : FilterLaws t collection sessions_collection clock users) (us : List User) where
    reads : ReadLaws t (λ w. users w ≡ us)
    reads = record {
      find_session_law = λ token. λ w. λ e. filter_laws.find_session_law token w ∙ e;
      find_event_law = λ token. λ w. λ e. filter_laws.find_event_law token w ∙ e;
      find_service_account_law =
          λ token. λ w. λ e. filter_laws.find_service_account_law token w ∙ e;
      now_law = λ w. λ e. filter_laws.now_law w ∙ e;
    }

  -- After `Lock` of a user succeeded, and as long as the users are as it left them, the token
  -- filter lets no request in as that user, whatever its token is and whatever the sessions are.
  pub authenticate-lock :
      (t : TokenAuthFilter W)
      → FilterLaws t collection sessions_collection clock users
      → (id : String) (w : W) → (lock collection sessions_collection clock id w).0 ≡ ok tt
      → (token : String) (w' : W)
      → users w' ≡ users (lock collection sessions_collection clock id w).1
      → (u : User) (session_id : String)
      → (authenticate t token w').0 ≡ ok (accepted (user_principal u) session_id)
      → (u.id == id) ≡ false
  authenticate-lock t filter_laws id w locked token w' same u session_id let_in =
      let ((v, at, f, b), gone) =
        rw locked at (lock_lem collection sessions_collection clock users sessions laws id w) in
      let us = users (lock collection sessions_collection clock id w).1 in
      let (user_id, w'', i, got, unlocked) =
        rw let_in at
          (authenticate-IsRead t (λ w. users w ≡ us) (reads t filter_laws us) token w' same) in
      let read : find_first (has_user_id user_id) us ≡ some u =
        rw (← i) (get-ok user_id w'' u (rw (← filter_laws.find_user_law user_id w'') got)) in
      other_than_locked id user_id at (users w) us u b read unlocked
