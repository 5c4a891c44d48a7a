-- ===== src/Authx/Mongo/Pages/Listing.antt =====
-- A client that reads users or service accounts page by page: `List` of
-- v2/apiserver/internal/authx/mongodb/users_store.go and service_accounts_store.go.
use mathlib.Core.List.{Perm}
use mathlib.Core.List.Perm
use brignext.Base.{
  ℕ, zero, suc, ◌<◌, ◌≡◌, refl, String, Option, none, List, [], ◌∷◌, ◌++◌, length, select, ◌⊎◌, inl,
  inr, arith, eq_iff, ◌==◌, if◌then◌else◌,
}
use brignext.Errors.{ok, err, other, Outcome}
use brignext.Effect.{M, pure, diverge, ◌>>=◌}
use brignext.Mongo.{Collection, Laws}
use brignext.Core.Types.{ListMeta, ListOptions}
use brignext.Core.Mongo.EventsStore.{Clock}
use brignext.Authx.Principals.{User, ServiceAccount, Session}
use brignext.Authx.Docs.{
  AccountFilter, AccountUpdate, SessionFilter, SessionUpdate, user_semantics, account_semantics,
  user_matches, account_matches, is_text, is_id_after, is_lacking, no_account_criteria,
}
use brignext.Authx.Mongo.Pages.Orders.{HasUniqueIds}
use brignext.Authx.Mongo.Pages.Reads.{AreNamed, after, key_after, IsPageOf, page_lem}
use brignext.Authx.Mongo.UsersStore
use brignext.Authx.Mongo.ServiceAccountsStore

-- The client has the documents, each exactly once; or the database has failed.
abbrev pub IsComplete : {D : Type 0} → List D → Outcome (List D) → Type 0
IsComplete {D} ds o =
    ((items : List D) × (o ≡ ok items) × Perm items ds) ⊎ ((x : String) × (o ≡ err (other x)))

-- A page is read and nothing is changed, or the database fails.
abbrev pub IsListed :
    {W L D : Type 0}
    → M W L
    → (L → ListMeta)
    → (L → List D)
    → (W → List D)
    → (D → String)
    → Option String
    → W
    → Type 0
IsListed {L = L} read meta_of items_of docs id_of k w =
    ((page : L) × ((read w).0 ≡ ok page)
      × (docs (read w).1 ≡ docs w)
      × IsPageOf id_of k (meta_of page) (items_of page) (docs w))
    ⊎ ((x : String) × ((read w).0 ≡ err (other x)))

user_after :
    (c : Option String) (u : User)
    → user_matches (record no_account_criteria { id_after = c }) u ≡ is_id_after c u.id
unfolding user_matches is_text is_lacking
user_after c u = ground arith

account_after :
    (c : Option String) (a : ServiceAccount)
    → account_matches (record no_account_criteria { id_after = c }) a ≡ is_id_after c a.id
unfolding account_matches is_text is_lacking
account_after c a = ground arith

everything : {D : Type 0} (id_of : D → String) (ds : List D) → after id_of none ds ≡ ds
unfolding select is_id_after
everything id_of [] = refl
everything id_of (d ∷ ds) = rw (everything id_of ds) refl

module _ {W L D : Type 0} (list : ListOptions → M W L) (meta_of : L → ListMeta)
    (items_of : L → List D) where
  -- A client that asks for the next page as long as there is one, and collects the items.
  unfoldable pub list_all : ℕ → ℕ → String → M W (List D)
  list_all zero limit continue_ = diverge
  list_all (suc fuel) limit continue_ = do
    page ← list (record { continue_ = continue_; limit = limit })
    let rest = list_all fuel limit (meta_of page).continue_
    if (meta_of page).continue_ == ""
        then pure (items_of page)
        else do items ← rest; pure (items_of page ++ items)

  module _ (docs : W → List D) (id_of : D → String)
      (list_law : (n : ℕ) (c : String) (w : W)
        → HasUniqueIds id_of (docs w)
        → AreNamed id_of (docs w)
        → IsListed
            (list (record { continue_ = c; limit = suc n }))
            meta_of
            items_of
            docs
            id_of
            (key_after c)
            w) where
    list_all_from :
        (fuel n : ℕ) (c : String) (w : W)
        → HasUniqueIds id_of (docs w)
        → AreNamed id_of (docs w)
        → length (after id_of (key_after c) (docs w)) < fuel
        → IsComplete (after id_of (key_after c) (docs w)) (list_all fuel (suc n) c w).0
    unfolding list_all
    list_all_from zero n c w u named enough = absurd (omega arith)
    list_all_from (suc fuel) n c w u named enough = elim (list_law n c w u named) [
      | inr (x, a) ↦ inr (x, rw a refl)
      | inl (page, a, b, inl (last, p)) ↦
          inl (items_of page, rw (a, (eq_iff (meta_of page).continue_ "").1 last) refl, p)
      | inl (page, a, b, inr (more, p, less)) ↦
          let c' = (meta_of page).continue_ in
          let w' = (list (record { continue_ = c; limit = suc n }) w).1 in
          let rest =
            list_all_from fuel n c' w' (rw b u) (rw b named) (rw (more, b) (omega arith)) in
          elim rest [
            | inr (x, e) ↦ inr (x, rw (a, more, e) refl)
            | inl (items, e, q) ↦
                let others = Perm.append_left (items_of page) (rw (more, b) at q) in
                inl (items_of page ++ items, rw (a, more, e) refl, Perm.trans others p)
          ]
    ]

    complete :
        (fuel limit : ℕ) (w : W)
        → HasUniqueIds id_of (docs w)
        → AreNamed id_of (docs w)
        → 0 < limit
        → length (docs w) < fuel
        → IsComplete (docs w) (list_all fuel limit "" w).0
    complete fuel zero w u named some_limit enough = absurd (omega arith)
    complete fuel (suc n) w u named some_limit enough =
        let all = everything id_of (docs w) in
        rw all at (list_all_from fuel n "" w u named (rw all enough))

module _ {W : Type 0} (users_collection : Collection W User AccountFilter AccountUpdate)
    (sessions_collection : Collection W Session SessionFilter SessionUpdate)
    (accounts_collection : Collection W ServiceAccount AccountFilter AccountUpdate)
    (clock : Clock W) (users : W → List User) (accounts : W → List ServiceAccount)
    (users_law : Laws users_collection users user_semantics)
    (accounts_law : Laws accounts_collection accounts account_semantics) where
  abbrev pub list_users : ℕ → ℕ → String → M W (List User)
  list_users =
      list_all (UsersStore.list users_collection sessions_collection clock) (λ l. l.meta)
        (λ l. l.items)

  abbrev pub list_accounts : ℕ → ℕ → String → M W (List ServiceAccount)
  list_accounts =
      list_all (ServiceAccountsStore.list accounts_collection clock) (λ l. l.meta) (λ l. l.items)

  list_users_lem :
      (n : ℕ) (c : String) (w : W)
      → HasUniqueIds (λ (u : User). u.id) (users w)
      → AreNamed (λ (u : User). u.id) (users w)
      → IsListed
          (UsersStore.list users_collection sessions_collection clock
            (record { continue_ = c; limit = suc n }))
          (λ l. l.meta)
          (λ l. l.items)
          users
          (λ u. u.id)
          (key_after c)
          w
  unfolding UsersStore.list
  list_users_lem n c w unique named =
      elim (page_lem users_collection users user_semantics users_law (λ u. u.id) user_after
        (λ l. λ o. o) n c w unique named) [
          | inr (x, a) ↦ inr (x, rw a refl)
          | inl (m, items, a, b, p) ↦ inl (record { meta = m; items = items }, rw a refl, rw a b, p)
        ]

  list_accounts_lem :
      (n : ℕ) (c : String) (w : W)
      → HasUniqueIds (λ (a : ServiceAccount). a.id) (accounts w)
      → AreNamed (λ (a : ServiceAccount). a.id) (accounts w)
      → IsListed
          (ServiceAccountsStore.list accounts_collection clock
            (record { continue_ = c; limit = suc n }))
          (λ l. l.meta)
          (λ l. l.items)
          accounts
          (λ a. a.id)
          (key_after c)
          w
  unfolding ServiceAccountsStore.list
  list_accounts_lem n c w unique named =
      elim (page_lem accounts_collection accounts account_semantics accounts_law (λ a. a.id)
        account_after (λ l. λ o. o) n c w unique named) [
          | inr (x, a) ↦ inr (x, rw a refl)
          | inl (m, items, a, b, p) ↦ inl (record { meta = m; items = items }, rw a refl, rw a b, p)
        ]

  -- A client that reads the pages of `List` one after another, with any limit but 0, ends after at
  -- most one page more than there are documents; it has every user, or service account, exactly
  -- once, unless the database fails. Identifiers are unique and not empty.
  pub list_all_pages :
      (fuel limit : ℕ) (w : W)
      → 0 < limit
      → HasUniqueIds (λ (u : User). u.id) (users w)
      → AreNamed (λ (u : User). u.id) (users w)
      → length (users w) < fuel
      → HasUniqueIds (λ (a : ServiceAccount). a.id) (accounts w)
      → AreNamed (λ (a : ServiceAccount). a.id) (accounts w)
      → length (accounts w) < fuel
      → IsComplete (users w) (list_users fuel limit "" w).0
        × IsComplete (accounts w) (list_accounts fuel limit "" w).0
  list_all_pages fuel limit w some_limit u named enough u' named' enough' = (
    complete (UsersStore.list users_collection sessions_collection clock) (λ l. l.meta)
        (λ l. l.items) users (λ u. u.id) list_users_lem fuel limit w u named some_limit enough,
    complete (ServiceAccountsStore.list accounts_collection clock) (λ l. l.meta) (λ l. l.items)
        accounts (λ a. a.id) list_accounts_lem fuel limit w u' named' some_limit enough',
  )
