-- ===== src/Authx/Rest/Limits.antt =====
-- What the handlers of lists ask of the stores: in v2/apiserver/internal/core/rest and
-- v2/apiserver/internal/authx/rest, over the services.
use brignext.Base.{
  ℕ, ◌≡◌, eq_iff, refl, ◌≤◌, String, false, ◌||◌, ◌⊎◌, inl, inr, Option, none, some, [], ◌∷◌, ltb,
  eqb, Bool-cases, arith, ◌==◌, if◌then◌else◌,
}
use brignext.Effect.{M, ◌>>=◌, ◌>>◌}
use brignext.Authx.Roles.{role_reader}
use brignext.Authx.Services.Users.{UsersService}
use brignext.Authx.Interfaces.{UserList}
use brignext.Authx.Services.ServiceAccounts.{ServiceAccountsService}
use brignext.Authx.Services.ServiceAccounts
use brignext.Authx.Rest.Accounts.{list_users, list_service_accounts, limit_reply}
use brignext.Core.Types.{ListOptions}
use brignext.Core.Services.Events.{EventsService, is_empty}
use brignext.Core.Types.{worker_phases_all}
use brignext.Core.Services.Events
use brignext.Core.Services.Projects.{ProjectsService}
use brignext.Core.Services.Projects
use brignext.Core.Services.Secrets.{SecretsService}
use brignext.Core.Services.Secrets
use brignext.Core.Rest.Events.{selector_of}
use brignext.Core.Rest.Events as EventsEndpoints
use brignext.Core.Rest.Projects.{list_projects, list_secrets}
use brignext.Rest.Endpoints.{status_ok}
use brignext.Rest.Requests.{
  Request, Reply, answered, nothing, query_of, var_of, serve, serve_list, with_limit, within,
  limit_of, parse_int, invalid_limit_response,
}

abbrev defaulted : ListOptions → ListOptions
defaulted opts = if eqb opts.limit 0 then record opts { limit = 20 } else opts

-- A limit that is asked for is accepted exactly if it is a number from 1 to 100.
abbrev LimitCases : String → Option ℕ → Type 0
LimitCases s none = ((s == "") ≡ false) × (within (parse_int s) ≡ none)
LimitCases s (some n) = (s ≡ "") × (n ≡ 0) ⊎ (parse_int s ≡ some n) × (1 ≤ n) × (n ≤ 100)

within_cases :
    (s : String) (o : Option ℕ) → (s == "") ≡ false → parse_int s ≡ o → LimitCases s (within o)
unfolding within
within_cases s none n e = (n, rw e refl)
within_cases s (some m) n e = elim (Bool-cases (ltb m 1 || ltb 100 m)) [
  | inl y ↦ rw y (n, rw (e, y) refl)
  | inr y ↦ rw y (inr (e, ground arith, ground arith))
]

limit_cases : (s : String) → LimitCases s (limit_of s)
unfolding limit_of
limit_cases s = elim (Bool-cases (s == "")) [
  | inl y ↦ rw y (inl ((eq_iff s "").0 y, refl))
  | inr n ↦ rw n (within_cases s (parse_int s) n refl)
]

module _ {W A : Type 0} where
  -- The reply to a request for a list: the limit is refused and nothing is done; or the options
  -- that are passed on have the key to continue from and a limit from 1 to 100, which is 20 where
  -- none was asked for and otherwise the number that was.
  abbrev pub IsPaged : Request → (ListOptions → M W A) → W → Reply A × W → Type 0
  IsPaged r ask w reply =
      (reply ≡ (answered (invalid_limit_response (query_of r "limit")), w))
        × ((query_of r "limit" == "") ≡ false)
        × (within (parse_int (query_of r "limit")) ≡ none)
      ⊎ ((opts : ListOptions) × (reply ≡ serve status_ok (ask opts) w)
          × (opts.continue_ ≡ query_of r "continue")
          × (1 ≤ opts.limit)
          × (opts.limit ≤ 100)
          × ((query_of r "limit" ≡ "") × (opts.limit ≡ 20)
              ⊎ (parse_int (query_of r "limit") ≡ some opts.limit)))

  serve_list-IsPaged :
      (r : Request) (ask : ListOptions → M W A) (w : W)
      → IsPaged r ask w (serve_list r (λ opts. ask (defaulted opts)) w)
  unfolding serve_list with_limit
  serve_list-IsPaged r ask w = go (limit_of (query_of r "limit")) (limit_cases (query_of r "limit"))
    where
      go :
          (o : Option ℕ)
          → LimitCases (query_of r "limit") o
          → IsPaged r ask w (with_limit r (λ opts. ask (defaulted opts)) o w)
      go none (blank, h) = inl (refl, blank, h)
      go (some n) (inl (blank, z)) = inr (
        record { continue_ = query_of r "continue"; limit = 20 },
        rw z refl,
        refl,
        omega arith,
        omega arith,
        inl (blank, refl),
      )
      go (some n) (inr (e, low, high)) =
          let asked : eqb n 0 ≡ false = ground arith in
          inr (
            record { continue_ = query_of r "continue"; limit = n },
            rw asked refl,
            refl,
            low,
            high,
            inr e,
          )

module _ {W : Type 0} (e : EventsService W) (p : ProjectsService W) (s : SecretsService W)
    (a : ServiceAccountsService W) where
  -- The replies to a request for the lists of events, projects, secrets and service accounts.
  abbrev pub ArePaged : Request → W → Type 0
  ArePaged r w =
      IsPaged r
        (λ opts.
          e.authorize (role_reader ∷ [])
          >> e.events_store.list
              (if is_empty (selector_of r).worker_phases
                then record (selector_of r) { worker_phases = worker_phases_all }
                else selector_of r)
              opts)
        w (EventsEndpoints.list e r w)
      × IsPaged r (λ opts. p.authorize (role_reader ∷ []) >> p.projects_store.list opts) w
          (list_projects p r w)
      × IsPaged r
          (λ opts.
            s.authorize (role_reader ∷ [])
            >> (s.projects_store.get (var_of r "projectID") >>= λ project.
                s.secrets_store.list project opts))
          w (list_secrets s r w)
      × IsPaged r (λ opts. a.authorize (role_reader ∷ []) >> a.service_accounts_store.list opts) w
          (list_service_accounts a r w)

  -- The lists of events, projects, secrets and service accounts: a request is refused for its limit
  -- and nothing is done; or the reply is what comes of authorizing a reader and of asking the store
  -- for what the request selects (secrets, of a project that is read before), from the key to
  -- continue from on, in a page of at least 1 and at most 100, which is 20 where no limit is asked
  -- for and otherwise the limit.
  pub lists-IsPaged : (r : Request) (w : W) → ArePaged r w
  unfolding EventsEndpoints.list Events.list list_projects list_secrets list_service_accounts
      Projects.list Secrets.list ServiceAccounts.list
  lists-IsPaged r w = (
    serve_list-IsPaged r
        (λ opts.
          e.authorize (role_reader ∷ [])
          >> e.events_store.list
              (if is_empty (selector_of r).worker_phases
                then record (selector_of r) { worker_phases = worker_phases_all }
                else selector_of r)
              opts)
        w,
    serve_list-IsPaged r (λ opts. p.authorize (role_reader ∷ []) >> p.projects_store.list opts) w,
    serve_list-IsPaged r
        (λ opts.
          s.authorize (role_reader ∷ [])
          >> (s.projects_store.get (var_of r "projectID") >>= λ project.
              s.secrets_store.list project opts))
        w,
    serve_list-IsPaged r
        (λ opts. a.authorize (role_reader ∷ []) >> a.service_accounts_store.list opts) w,
  )

module _ {W : Type 0} (r : Request) (w : W) where
  -- The reply of the list of users to a request with a limit.
  abbrev pub IsDropped : Reply UserList × W → Type 0
  IsDropped reply =
      (reply ≡ (nothing, w)) × ((n : ℕ) × (parse_int (query_of r "limit") ≡ some n))
      ⊎ (reply ≡ (answered (invalid_limit_response (query_of r "limit")), w))
        × (within (parse_int (query_of r "limit")) ≡ none)

  limit_reply_lem :
      (o : Option ℕ)
      → (query_of r "limit" == "") ≡ false
      → LimitCases (query_of r "limit") o
      → IsDropped (limit_reply (query_of r "limit") o, w)
  unfolding limit_reply
  limit_reply_lem none n (blank, h) = inr (refl, h)
  limit_reply_lem (some m) n (inl (blank, z)) =
      absurd (cc ((eq_iff (query_of r "limit") "").1 blank, n))
  limit_reply_lem (some m) n (inr (e, low, high)) = inl (refl, (m, e))

  -- The list of users does nothing where a limit is given: no user is read and nothing is changed.
  -- An invalid limit is refused, and a limit that is a number gets no response at all.
  pub list_users-limit :
      (u : UsersService W) → (query_of r "limit" == "") ≡ false → IsDropped (list_users u r w)
  unfolding list_users
  list_users-limit u n =
      rw n (limit_reply_lem (limit_of (query_of r "limit")) n (limit_cases (query_of r "limit")))
