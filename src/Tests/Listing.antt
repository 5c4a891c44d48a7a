-- ===== src/Tests/Listing.antt =====
-- Two users and a service account that are read page by page.
use brignext.Base.{
  ◌≤◌, refl, Bool, subst, List, [], ◌∷◌, length, select, inl, inr, Bool-cases, arith, eq_iff, ◌==◌,
}
use brignext.Mongo.{Collection, Sort, created_desc, id_asc}
use brignext.Authx.Principals.{User, ServiceAccount, Session}
use brignext.Authx.Docs.{
  AccountFilter, AccountUpdate, SessionFilter, SessionUpdate, user_semantics, account_semantics,
  session_semantics,
}
use brignext.Authx.Mongo.Pages.Orders.{HasUniqueIds}
use brignext.Authx.Mongo.Pages.Listing.{IsComplete, list_users, list_accounts, list_all_pages}
use brignext.Tests.Replica.{replica, replica-Laws}
use brignext.Tests.Accounts.{Db, user_named, robot, at_50, db}

abbrev anna : User
anna = user_named "anna" []

abbrev bert : User
bert = user_named "bert" []

abbrev two_users : Db → List User
two_users w = anna ∷ bert ∷ []

abbrev one_account : Db → List ServiceAccount
one_account w = robot ∷ []

abbrev users : Collection Db User AccountFilter AccountUpdate
users = replica (anna ∷ bert ∷ []) user_semantics

abbrev accounts : Collection Db ServiceAccount AccountFilter AccountUpdate
accounts = replica (robot ∷ []) account_semantics

abbrev sessions : Collection Db Session SessionFilter SessionUpdate
sessions = replica [] session_semantics

ordered_users :
    (sort : Sort) (p : User → Bool) → user_semantics.IsOrdered sort (select p (anna ∷ bert ∷ []))
unfolding select
ordered_users created_desc p = tt
ordered_users id_asc p = elim (Bool-cases (p anna)) [
  | inl y ↦ elim (Bool-cases (p bert)) [
    | inl y' ↦ rw (y, y') (λ e. absurd (cc e), tt)
    | inr n' ↦ rw (y, n') tt
  ]
  | inr n ↦ elim (Bool-cases (p bert)) [ inl y' ↦ rw (n, y') tt | inr n' ↦ rw (n, n') tt ]
]

ordered_accounts :
    (sort : Sort) (p : ServiceAccount → Bool)
    → account_semantics.IsOrdered sort (select p (robot ∷ []))
unfolding select
ordered_accounts created_desc p = tt
ordered_accounts id_asc p = elim (Bool-cases (p robot)) [ inl y ↦ rw y tt | inr n ↦ rw n tt ]

two_users-HasUniqueIds : HasUniqueIds (λ (u : User). u.id) (anna ∷ bert ∷ [])
unfolding select
two_users-HasUniqueIds id = elim (Bool-cases ("anna" == id)) [
  | inl y ↦
      subst (λ i. length (select (λ (u : User). u.id == i) (anna ∷ bert ∷ [])) ≤ 1)
        ((eq_iff "anna" id).0 y) (omega arith)
  | inr n ↦ elim (Bool-cases ("bert" == id)) [
    | inl y' ↦ rw (n, y') (omega arith)
    | inr n' ↦ rw (n, n') (omega arith)
  ]
]

one_account-HasUniqueIds : HasUniqueIds (λ (a : ServiceAccount). a.id) (robot ∷ [])
unfolding select
one_account-HasUniqueIds id = ground arith

list_all_pages_example :
    IsComplete
      (two_users db)
      (list_users users sessions accounts at_50 two_users one_account
        (replica-Laws _ _ ordered_users)
        (replica-Laws _ _ ordered_accounts)
        3
        1
        ""
        db).0
    × IsComplete
        (one_account db)
        (list_accounts users sessions accounts at_50 two_users one_account
          (replica-Laws _ _ ordered_users)
          (replica-Laws _ _ ordered_accounts)
          3
          1
          ""
          db).0
list_all_pages_example =
    list_all_pages users sessions accounts at_50 two_users one_account
      (replica-Laws _ _ ordered_users) (replica-Laws _ _ ordered_accounts) 3 1 db (omega arith)
      two_users-HasUniqueIds (refl, (refl, tt)) (omega arith) one_account-HasUniqueIds (refl, tt)
      (omega arith)
