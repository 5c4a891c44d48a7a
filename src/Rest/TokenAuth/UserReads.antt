-- ===== src/Rest/TokenAuth/UserReads.antt =====
-- Which user the token filter lets in, and what it reads before: `Decorate` of
-- v2/apiserver/internal/lib/restmachinery/authn/token_auth.go.
use brignext.Base.{
  ◌≡◌, refl, String, false, not, ◌&&◌, inl, inr, Option, none, some, is_some, ltb, Bool-cases, ◌==◌,
}
use brignext.Errors.{Error, Outcome, ok, err, panic, out_of_fuel, is_not_found}
use brignext.Effect.{M, attempt}
use brignext.Authx.Principals.{Session, user_principal}
use brignext.Core.Types.{Time}
use brignext.Rest.TokenAuth.{
  TokenAuthFilter, Verdict, accepted, accept_user, session_principal, check_expiry, check_session,
  try_session, accept_service_account, try_service_account, try_worker, authenticate,
}

-- What the filter reads leaves `Inv` as it is.
pub record ReadLaws {W : Type 0} (t : TokenAuthFilter W) (Inv : W → Type 0) : Type 0 where
  pub find_session_law : (token : String) (w : W) → Inv w → Inv (t.find_session token w).1
  pub find_event_law : (token : String) (w : W) → Inv w → Inv (t.find_event token w).1
  pub find_service_account_law :
      (token : String) (w : W) → Inv w → Inv (t.find_service_account token w).1
  pub now_law : (w : W) → Inv w → Inv (t.now w).1

module _ {W : Type 0} (t : TokenAuthFilter W) (Inv : W → Type 0) (laws : ReadLaws t Inv) where
  -- A user who is let in was read, not locked, in a world where `Inv` held.
  abbrev pub IsRead : Outcome Verdict → Type 0
  IsRead (ok (accepted (user_principal u) sid)) =
      (user_id : String) × (w : W) × Inv w
      × ((t.find_user user_id w).0 ≡ ok u)
      × (is_some u.locked ≡ false)
  IsRead _ = Unit

  attempt-IsRead :
      {A : Type 0} (m : M W A) (f : A → M W Verdict) (g : Error → M W Verdict) (w : W)
      → ((a : A) → (m w).0 ≡ ok a → IsRead (f a (m w).1).0)
      → ((e : Error) → IsRead (g e (m w).1).0)
      → IsRead (attempt m f g w).0
  attempt-IsRead m f g w hf hg = go (m w).0 refl
    where
      go : (r : Outcome _) → (m w).0 ≡ r → IsRead (attempt m f g w).0
      go (ok a) e = rw e (hf a e)
      go (err x) e = rw e (hg x)
      go panic e = rw e tt
      go out_of_fuel e = rw e tt

  session_principal-IsRead : (s : Session) (w : W) → Inv w → IsRead (session_principal t s w).0
  unfolding session_principal accept_user
  session_principal-IsRead s w i = elim (Bool-cases s.root) [
    | inl r ↦ rw r tt
    | inr r ↦ rw r (
        attempt-IsRead (t.find_user s.user_id) (accept_user t s) _ w
          (λ u. λ e. elim (Bool-cases (is_some u.locked)) [
            | inl l ↦ rw l tt
            | inr l ↦ rw l (s.user_id, w, i, e, l)
          ])
          (λ x. tt))
  ]

  check_expiry-IsRead :
      (s : Session) (o : Option Time) (w : W) → Inv w → IsRead (check_expiry t s o w).0
  unfolding check_expiry
  check_expiry-IsRead s none w i = session_principal-IsRead s w i
  check_expiry-IsRead s (some expires) w i = go (t.now w).0 refl
    where
      go : (r : Outcome Time) → (t.now w).0 ≡ r → IsRead (check_expiry t s (some expires) w).0
      go (ok now) n = elim (Bool-cases (ltb expires now)) [
        | inl x ↦ rw (n, x) tt
        | inr x ↦ rw (n, x) (session_principal-IsRead s (t.now w).1 (laws.now_law w i))
      ]
      go (err x) n = rw n tt
      go panic n = rw n tt
      go out_of_fuel n = rw n tt

  check_session-IsRead : (s : Session) (w : W) → Inv w → IsRead (check_session t s w).0
  unfolding check_session
  check_session-IsRead s w i = elim (Bool-cases (s.root && not t.root_user_enabled)) [
    | inl r ↦ rw r tt
    | inr r ↦ elim (Bool-cases (is_some s.authenticated)) [
      | inl a ↦ rw (r, a) (check_expiry-IsRead s s.expires w i)
      | inr a ↦ rw (r, a) tt
    ]
  ]

  try_session-IsRead : (token : String) (w : W) → Inv w → IsRead (try_session t token w).0
  unfolding try_session
  try_session-IsRead token w i =
      attempt-IsRead (t.find_session token) (check_session t) _ w
        (λ s.
          λ e. check_session-IsRead s (t.find_session token w).1 (laws.find_session_law token w i))
        (λ x. elim (Bool-cases (is_not_found x)) [ inl y ↦ rw y tt | inr n ↦ rw n tt ])

  try_service_account-IsRead :
      (token : String) (w : W) → Inv w → IsRead (try_service_account t token w).0
  unfolding try_service_account accept_service_account
  try_service_account-IsRead token w i =
      attempt-IsRead (t.find_service_account token) (accept_service_account t) _ w
        (λ a. λ e. elim (Bool-cases (is_some a.locked)) [ inl y ↦ rw y tt | inr n ↦ rw n tt ])
        (λ x. elim (Bool-cases (is_not_found x)) [
          | inl y ↦ rw y (
              try_session-IsRead token (t.find_service_account token w).1
                (laws.find_service_account_law token w i))
          | inr n ↦ rw n tt
        ])

  pub authenticate-IsRead : (token : String) (w : W) → Inv w → IsRead (authenticate t token w).0
  unfolding authenticate try_worker
  authenticate-IsRead token w i =
      elim (Bool-cases (t.short_sha "" token == t.hashed_scheduler_token)) [
        | inl y ↦ rw y tt
        | inr n ↦ elim (Bool-cases (t.short_sha "" token == t.hashed_observer_token)) [
          | inl y ↦ rw (n, y) tt
          | inr m ↦
              rw (n, m)
                (attempt-IsRead (t.find_event token) _ _ w (λ event. λ e. tt)
                  (λ x. elim (Bool-cases (is_not_found x)) [
                    | inl y ↦ rw y (
                        try_service_account-IsRead token (t.find_event token w).1
                          (laws.find_event_law token w i))
                    | inr k ↦ rw k tt
                  ]))
        ]
      ]
