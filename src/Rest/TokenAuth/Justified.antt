-- ===== src/Rest/TokenAuth/Justified.antt =====
-- Why the token filter accepts a request.
use brignext.Base.{
  ◌≡◌, refl, String, true, false, not, ◌&&◌, ◌⊎◌, inl, inr, Option, none, some, is_some, ltb, arith,
  Bool-cases, eq_iff, ◌==◌,
}
use brignext.Errors.{Error, Outcome, ok, err, panic, out_of_fuel, is_not_found, err_internal_server}
use brignext.Effect.{M, attempt}
use brignext.Authx.Principals.{
  Principal, Session, observer, root, scheduler, worker, user_principal, service_account_principal,
}
use brignext.Core.Types.{Time, Event}
use brignext.Rest.TokenAuth.{
  TokenAuthFilter, Verdict, refused, accepted, accept_user, session_principal, check_expiry,
  check_session, try_session, accept_service_account, try_service_account, try_worker, authenticate,
}

not_locked : (o : Option Time) → is_some o ≡ false → o ≡ none
not_locked o h = ground arith

module _ {W : Type 0} (t : TokenAuthFilter W) where
  -- The session has been authenticated, and had not expired when the clock was read.
  abbrev pub IsLive : Session → Type 0
  IsLive s =
      (is_some s.authenticated ≡ true)
      × ((s.expires ≡ none)
          ⊎ ((expires now : Time) × (w : W) × (s.expires ≡ some expires)
              × ((t.now w).0 ≡ ok now)
              × (ltb expires now ≡ false)))

  -- The token's session was found, with the identifier given.
  abbrev pub HasSession : String → String → Session → Type 0
  HasSession token sid s = (s.id ≡ sid) × ((w : W) × ((t.find_session token w).0 ≡ ok s)) × IsLive s

  -- What holds of each principal that a request with this token runs under.
  abbrev pub Justifies : String → Principal → String → Type 0
  Justifies token scheduler sid = t.short_sha "" token ≡ t.hashed_scheduler_token
  Justifies token observer sid = t.short_sha "" token ≡ t.hashed_observer_token
  Justifies token (worker event_id) sid =
      (e : Event) × (e.meta.id ≡ event_id) × ((w : W) × ((t.find_event token w).0 ≡ ok e))
  Justifies token (service_account_principal a) sid =
      (a.locked ≡ none) × ((w : W) × ((t.find_service_account token w).0 ≡ ok a))
  Justifies token root sid =
      (s : Session) × HasSession token sid s × (s.root ≡ true) × (t.root_user_enabled ≡ true)
  Justifies token (user_principal u) sid =
      (s : Session) × HasSession token sid s
      × (s.root ≡ false)
      × (u.locked ≡ none)
      × ((w : W) × ((t.find_user s.user_id w).0 ≡ ok u))

  abbrev pub IsJustified : String → Outcome Verdict → Type 0
  IsJustified token (ok (accepted p sid)) = Justifies token p sid
  IsJustified token _ = Unit

  -- An attempt is justified if both of its branches are.
  attempt-IsJustified :
      {A : Type 0} (token : String) (m : M W A) (f : A → M W Verdict) (g : Error → M W Verdict)
      (w : W)
      → ((a : A) → (m w).0 ≡ ok a → (w' : W) → IsJustified token (f a w').0)
      → ((e : Error) (w' : W) → IsJustified token (g e w').0)
      → IsJustified token (attempt m f g w).0
  attempt-IsJustified token m f g w hf hg = go (m w).0 refl
    where
      go : (r : Outcome _) → (m w).0 ≡ r → IsJustified token (attempt m f g w).0
      go (ok a) e = rw e (hf a e (m w).1)
      go (err x) e = rw e (hg x (m w).1)
      go panic e = rw e tt
      go out_of_fuel e = rw e tt

  -- A session that is live and found for the token.
  module _ (token : String) (s : Session) (w₀ : W)
      (found : (t.find_session token w₀).0 ≡ ok s) where
    session_principal-IsJustified :
        IsLive s
        → (not (s.root && not t.root_user_enabled) ≡ true)
        → (w : W) → IsJustified token (session_principal t s w).0
    unfolding session_principal accept_user
    session_principal-IsJustified live allowed w = elim (Bool-cases s.root) [
      | inl r ↦ rw r (s, (refl, (w₀, found), live), r, ground arith)
      | inr r ↦ rw r (
          attempt-IsJustified token (t.find_user s.user_id) (accept_user t s)
            (λ _. λ w'. (ok (refused 500 err_internal_server), w')) w
            (λ u q w'. elim (Bool-cases (is_some u.locked)) [
              | inl l ↦ rw l tt
              | inr l ↦ rw l (s, (refl, (w₀, found), live), r, not_locked u.locked l, (w, q))
            ])
            (λ e w'. tt))
    ]

    check_expiry-IsJustified :
        is_some s.authenticated ≡ true
        → (not (s.root && not t.root_user_enabled) ≡ true)
        → (o : Option Time) → s.expires ≡ o
        → (w : W) → IsJustified token (check_expiry t s o w).0
    unfolding check_expiry
    check_expiry-IsJustified auth allowed none e w =
        session_principal-IsJustified (auth, inl e) allowed w
    check_expiry-IsJustified auth allowed (some expires) e w = go (t.now w).0 refl
      where
        go :
            (r : Outcome Time)
            → (t.now w).0 ≡ r
            → IsJustified token (check_expiry t s (some expires) w).0
        go (ok now) n = elim (Bool-cases (ltb expires now)) [
          | inl x ↦ rw (n, x) tt
          | inr x ↦
              rw (n, x)
                (session_principal-IsJustified (auth, inr (expires, now, w, e, n, x)) allowed
                  (t.now w).1)
        ]
        go (err x) n = rw n tt
        go panic n = rw n tt
        go out_of_fuel n = rw n tt

    check_session-IsJustified : (w : W) → IsJustified token (check_session t s w).0
    unfolding check_session
    check_session-IsJustified w = elim (Bool-cases (s.root && not t.root_user_enabled)) [
      | inl r ↦ rw r tt
      | inr r ↦ elim (Bool-cases (is_some s.authenticated)) [
        | inl a ↦ rw (r, a) (check_expiry-IsJustified a (ground arith) s.expires refl w)
        | inr a ↦ rw (r, a) tt
      ]
    ]

  try_session-IsJustified : (token : String) (w : W) → IsJustified token (try_session t token w).0
  unfolding try_session
  try_session-IsJustified token w =
      attempt-IsJustified token (t.find_session token) (check_session t) _ w
        (λ s found w'. check_session-IsJustified token s w found w')
        (λ e w'. elim (Bool-cases (is_not_found e)) [ inl x ↦ rw x tt | inr x ↦ rw x tt ])

  try_service_account-IsJustified :
      (token : String) (w : W) → IsJustified token (try_service_account t token w).0
  unfolding try_service_account accept_service_account
  try_service_account-IsJustified token w =
      attempt-IsJustified token (t.find_service_account token) (accept_service_account t) _ w
        (λ a found w'. elim (Bool-cases (is_some a.locked)) [
          | inl l ↦ rw l tt
          | inr l ↦ rw l (not_locked a.locked l, (w, found))
        ])
        (λ e w'. elim (Bool-cases (is_not_found e)) [
          | inl x ↦ rw x (try_session-IsJustified token w')
          | inr x ↦ rw x tt
        ])

  try_worker-IsJustified : (token : String) (w : W) → IsJustified token (try_worker t token w).0
  unfolding try_worker
  try_worker-IsJustified token w =
      attempt-IsJustified token (t.find_event token) _ _ w (λ e found w'. (e, refl, (w, found)))
        (λ e w'. elim (Bool-cases (is_not_found e)) [
          | inl x ↦ rw x (try_service_account-IsJustified token w')
          | inr x ↦ rw x tt
        ])

  -- Whatever the stores answer, a request with a token runs under a principal only if the token
  -- justifies it: the scheduler's and the observer's tokens hash to the configured values, a worker
  -- or an unlocked service account was found by the token, and root and an unlocked user come from
  -- a session found by the token that is authenticated and not expired, root only where it is
  -- enabled.
  pub authenticate-IsJustified :
      (token : String) (w : W) → IsJustified token (authenticate t token w).0
  unfolding authenticate
  authenticate-IsJustified token w =
      elim (Bool-cases (t.short_sha "" token == t.hashed_scheduler_token)) [
        | inl x ↦ rw x ((eq_iff _ _).0 x)
        | inr x ↦ elim (Bool-cases (t.short_sha "" token == t.hashed_observer_token)) [
          | inl y ↦ rw (x, y) ((eq_iff _ _).0 y)
          | inr y ↦ rw (x, y) (try_worker-IsJustified token w)
        ]
      ]
