-- ===== src/Authx/Mongo/UsersStore/Locks.antt =====
-- What locking a user does: `Lock` and `Get` of
-- v2/apiserver/internal/authx/mongodb/users_store.go.
use mathlib.Core.Path.{fun_ext}
use brignext.Base.{
  ◌≡◌, refl, String, Bool, false, ◌&&◌, ◌⊎◌, inl, inr, none, some, List, [], ◌∷◌, arith, find_first,
  update_first, remove_all, Bool-cases, ◌==◌,
}
use brignext.Errors.{Outcome, ok, err, err_not_found, other}
use brignext.Effect.{M}
use brignext.Mongo.{Collection, Laws}
use brignext.Authx.Principals.{User, Session}
use brignext.Authx.Docs.{
  AccountFilter, AccountUpdate, SessionFilter, SessionUpdate, no_account_criteria,
  no_session_criteria, set_locked, user_semantics, session_semantics, user_matches, user_apply,
  session_matches, is_text, is_id_after, is_lacking,
}
use brignext.Authx.Mongo.UsersStore.{lock, lock_at, update_locked}
use brignext.Core.Types.{Time}
use brignext.Core.Mongo.EventsStore.{Clock}
use brignext.Core.Mongo.EventsStore.Ids.{update_first_none}
use brignext.Core.Mongo.WorkersStore.Updates.{any-find_first}

unfoldable pub has_user_id : String → User → Bool
has_user_id id u = u.id == id

unfoldable pub belongs_to : String → Session → Bool
belongs_to id s = s.user_id == id

pub user_matches-id :
    (id : String) → user_matches (record no_account_criteria { id = some id }) ≡ has_user_id id
unfolding user_matches is_text is_id_after is_lacking has_user_id
user_matches-id id = fun_ext λ u. ground arith

session_matches-user_id :
    (id : String)
    → session_matches (record no_session_criteria { user_id = some id }) ≡ belongs_to id
unfolding session_matches is_text belongs_to
session_matches-user_id id = fun_ext λ s. ground arith

-- A call that leaves some documents as they are.
abbrev pub Keeps : {W D A : Type 0} → (W → List D) → M W A → Type 0
Keeps {W} docs m = (w : W) → docs (m w).1 ≡ docs w

-- The two collections and the clock are independent, and the clock can be read.
pub record LockLaws {W : Type 0} (collection : Collection W User AccountFilter AccountUpdate)
    (sessions_collection : Collection W Session SessionFilter SessionUpdate) (clock : Clock W)
    (users : W → List User) (sessions : W → List Session) : Type 0 where
  pub users_law : Laws collection users user_semantics
  pub sessions_law : Laws sessions_collection sessions session_semantics
  pub update_one_law :
      (f : AccountFilter) (u : AccountUpdate) → Keeps sessions (collection.update_one f u)
  pub delete_many_law : (f : SessionFilter) → Keeps users (sessions_collection.delete_many f)
  pub now_law :
      (w : W)
      → ((t : Time) × ((clock.now w).0 ≡ ok t))
        × (users (clock.now w).1 ≡ users w)
        × (sessions (clock.now w).1 ≡ sessions w)

-- The first user with the identifier is locked, and nothing else is changed.
abbrev pub IsLocked : String → List User → List User → Type 0
IsLocked id us us' =
    (u : User) × (t : Time) × (find_first (has_user_id id) us ≡ some u)
    × (us' ≡ update_first (has_user_id id) (user_apply (set_locked (some t))) us)

-- What `Lock` promises, by its result.
abbrev pub LockSpec :
    String → List User → List Session → Outcome (Unit {0}) → List User → List Session → Type 0
LockSpec id us ss (ok x) us' ss' = IsLocked id us us' × (ss' ≡ remove_all (belongs_to id) ss)
LockSpec id us ss (err (err_not_found t i)) us' ss' =
    (t ≡ "User") × (i ≡ id) × (find_first (has_user_id id) us ≡ none) × (us' ≡ us) × (ss' ≡ ss)
LockSpec id us ss (err (other s)) us' ss' =
    ((us' ≡ us) × (ss' ≡ ss))
    ⊎ IsLocked id us us'
      × ((reached : Session → Bool) × (ss' ≡ remove_all (λ s. belongs_to id s && reached s) ss))
LockSpec id us ss _ us' ss' = ⊥

remove_all_none : {A : Type 0} (xs : List A) (p : A → Bool) → remove_all (λ x. p x && false) xs ≡ xs
unfolding remove_all
remove_all_none [] p = refl
remove_all_none (x ∷ xs) p = elim (Bool-cases (p x)) [
  | inl e ↦ rw (e, remove_all_none xs p)
  | inr e ↦ rw (e, remove_all_none xs p)
]

module _ {W : Type 0} (collection : Collection W User AccountFilter AccountUpdate)
    (sessions_collection : Collection W Session SessionFilter SessionUpdate) (clock : Clock W)
    (users : W → List User) (sessions : W → List Session)
    (laws : LockLaws collection sessions_collection clock users sessions) where
  -- `UpdateOne` of "locked", by its result; the sessions are as they were.
  update_locked_lem :
      (id : String) (t : Time) (w : W)
      → let m = update_locked collection sessions_collection clock id (some t) in
        (sessions (m w).1 ≡ sessions w)
        × (((m w).0 ≡ ok tt) × IsLocked id (users w) (users (m w).1)
            ⊎ ((m w).0 ≡ err (err_not_found "User" id))
              × (find_first (has_user_id id) (users w) ≡ none)
              × (users (m w).1 ≡ users w)
            ⊎ ((s : String) × ((m w).0 ≡ err (other s))
                × ((users (m w).1 ≡ users w) ⊎ IsLocked id (users w) (users (m w).1))))
  unfolding update_locked
  update_locked_lem id t w =
      let u = set_locked (some t) in
      let f = record no_account_criteria { id = some id } in
      let same = laws.update_one_law f u w in
      elim (rw (user_matches-id id) at (laws.users_law.update_one_law f u w)) [
        | inl (a, b) ↦ elim (any-find_first (has_user_id id) (users w)) [
          | inl (n, e) ↦
              let a' = rw n at a in
              (
                rw a' same,
                inr (
                    inl (
                      rw a',
                      e,
                      rw (a', b, update_first_none (has_user_id id) (user_apply u) (users w) n),
                    )),
              )
          | inr (y, (d, e)) ↦ let a' = rw y at a in (rw a' same, inl (rw a', (d, t, e, rw (a', b))))
        ]
        | inr (s, a, l) ↦ (
          rw a same,
          inr (
              inr (
                s,
                rw a,
                elim l [
                  | inl b ↦ inl (rw (a, b))
                  | inr b ↦ elim (any-find_first (has_user_id id) (users w)) [
                    | inl (n, e) ↦
                        inl
                          (rw (a, b, update_first_none (has_user_id id) (user_apply u) (users w) n))
                    | inr (y, (d, e)) ↦ inr (d, t, e, rw (a, b))
                  ]
                ],
              )),
        )
      ]

  -- What follows the reading of the clock.
  lock_at_lem :
      (id : String) (t : Time) (w : W)
      → let m = lock_at collection sessions_collection clock id t in
        LockSpec id (users w) (sessions w) (m w).0 (users (m w).1) (sessions (m w).1)
  unfolding lock_at
  lock_at_lem id t w =
      let m = update_locked collection sessions_collection clock id (some t) in
      let (same, result) = update_locked_lem id t w in
      let w₁ = (m w).1 in
      let f = record no_session_criteria { user_id = some id } in
      let kept = laws.delete_many_law f w₁ in
      elim result [
        | inr (inl (a, e, b)) ↦ rw a (refl, refl, e, b, same)
        | inr (inr (x, a, inl b)) ↦ rw a (inl (b, same))
        | inr (inr (x, a, inr b)) ↦
            rw a (inr (b, ((λ s. false), rw (same, remove_all_none (sessions w) (belongs_to id)))))
        | inl (a, b) ↦
            elim (rw (session_matches-user_id id) at (laws.sessions_law.delete_many_law f w₁)) [
              | inl (a', b') ↦ rw (a, a') (rw kept b, rw (b', same))
              | inr (x, a', (reached, b')) ↦ rw (a, a') (inr (rw kept b, (reached, rw (b', same))))
            ]
      ]

  -- `Lock`: where it succeeds, the first user with the identifier is locked, every session of the
  -- user is gone, and all else is as it was; it answers that the user is not found exactly where
  -- there is none, and then nothing is changed; where it fails otherwise, nothing is changed, or
  -- the user is locked and only sessions of the user are gone.
  pub lock_lem :
      (id : String) (w : W)
      → let m = lock collection sessions_collection clock id in
        LockSpec id (users w) (sessions w) (m w).0 (users (m w).1) (sessions (m w).1)
  unfolding lock
  lock_lem id w =
      let ((t, e), u, v) = laws.now_law w in rw (e, ← u, ← v) (lock_at_lem id t (clock.now w).1)
