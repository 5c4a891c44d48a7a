-- ===== src/Authx/Mongo/ServiceAccountsStore/Tokens.antt =====
-- Whom a token stands for after `Unlock`: `Unlock` and `GetByHashedToken` of
-- v2/apiserver/internal/authx/mongodb/service_accounts_store.go.
use mathlib.Core.Path.{fun_ext}
use brignext.Base.{
  ◌≡◌, refl, String, Bool, false, ◌⊎◌, inl, inr, Option, none, some, List, [], ◌∷◌, arith, any,
  find_first, update_first, ◌==◌, eq_iff,
}
use brignext.Errors.{Outcome, ok, err, err_not_found, other}
use brignext.Mongo.{Collection, Laws}
use brignext.Authx.Principals.{ServiceAccount}
use brignext.Authx.Docs.{
  AccountFilter, AccountUpdate, no_account_criteria, unlock_with, account_semantics,
  account_matches, account_apply, is_text, is_id_after, is_lacking,
}
use brignext.Authx.Mongo.ServiceAccountsStore.{unlock, update_account, get_by_hashed_token, found}
use brignext.Core.Mongo.EventsStore.{Clock}
use brignext.Core.Mongo.WorkersStore.Updates.{any-find_first}

unfoldable pub has_account_id : String → ServiceAccount → Bool
has_account_id id a = a.id == id

unfoldable pub has_token : String → ServiceAccount → Bool
has_token hashed_token a = a.hashed_token == hashed_token

-- No two service accounts have the same token.
abbrev pub HasUniqueTokens : List ServiceAccount → Type 0
HasUniqueTokens [] = Unit
HasUniqueTokens (a ∷ accounts) =
    (any (has_token a.hashed_token) accounts ≡ false) × HasUniqueTokens accounts

-- The document after `Unlock`.
abbrev pub unlocked : String → ServiceAccount → ServiceAccount
unlocked hashed_token a = record a { locked = none; hashed_token = hashed_token }

account_matches-id :
    (id : String)
    → account_matches (record no_account_criteria { id = some id }) ≡ has_account_id id
unfolding account_matches is_text is_id_after is_lacking has_account_id
account_matches-id id = fun_ext λ a. ground arith

account_matches-token :
    (h : String)
    → account_matches (record no_account_criteria { hashed_token = some h }) ≡ has_token h
unfolding account_matches is_text is_id_after is_lacking has_token
account_matches-token h = fun_ext λ a. ground arith

find_first-false {ℓ} :
    {A : Type ℓ} (p q : A → Bool) (xs : List A) (a : A)
    → find_first p xs ≡ some a
    → any q xs ≡ false
    → q a ≡ false
unfolding find_first any
find_first-false p q [] a e n = ground arith
find_first-false p q (x ∷ xs) a e n = ground (arith, find_first-false p q xs a)

find_first-none {ℓ} :
    {A : Type ℓ} (q : A → Bool) (xs : List A) → any q xs ≡ false → find_first q xs ≡ none
unfolding find_first any
find_first-none q [] n = refl
find_first-none q (x ∷ xs) n = ground (arith, find_first-none q xs)

-- The new token finds the account that was unlocked.
find_first-unlocked :
    (id h : String) (xs : List ServiceAccount) (a : ServiceAccount)
    → find_first (has_account_id id) xs ≡ some a
    → any (has_token h) xs ≡ false
    → find_first (has_token h) (update_first (has_account_id id) (account_apply (unlock_with h)) xs)
      ≡ some (unlocked h a)
unfolding find_first update_first any has_token account_apply
find_first-unlocked id h [] a e n = absurd (cc e)
find_first-unlocked id h (x ∷ xs) a e n = ground (arith, find_first-unlocked id h xs a, eq_iff h h)

-- The old one finds nobody.
find_first-old :
    (id h : String) (xs : List ServiceAccount) (a : ServiceAccount)
    → HasUniqueTokens xs
    → find_first (has_account_id id) xs ≡ some a
    → has_token h a ≡ false
    → find_first
        (has_token a.hashed_token)
        (update_first (has_account_id id) (account_apply (unlock_with h)) xs)
      ≡ none
unfolding find_first update_first any has_token account_apply
find_first-old id h [] a u e n = absurd (cc e)
find_first-old id h (x ∷ xs) a u e n = ground (
  arith,
  find_first-old id h xs a u.1,
  find_first-false (has_account_id id) (has_token x.hashed_token) xs a,
  find_first-none (has_token a.hashed_token) xs,
  eq_iff a.hashed_token x.hashed_token,
  eq_iff a.hashed_token h,
  eq_iff h a.hashed_token,
  eq_iff x.hashed_token a.hashed_token,
)

-- The account that was found, or that there is none.
abbrev pub token_result : Option ServiceAccount → Outcome ServiceAccount
token_result none = err (err_not_found "ServiceAccount" "")
token_result (some a) = ok a

-- The first result, unless the driver fails.
abbrev pub Answers : Outcome ServiceAccount → Outcome ServiceAccount → Type 0
Answers expected r = (r ≡ expected) ⊎ ((s : String) × (r ≡ err (other s)))

module _ {W : Type 0} (collection : Collection W ServiceAccount AccountFilter AccountUpdate)
    (clock : Clock W) (accounts : W → List ServiceAccount)
    (laws : Laws collection accounts account_semantics) where
  -- What `GetByHashedToken` answers.
  get_by_hashed_token_lem :
      (h : String) (w : W)
      → Answers
          (token_result (find_first (has_token h) (accounts w)))
          (get_by_hashed_token collection clock h w).0
  unfolding get_by_hashed_token found
  get_by_hashed_token_lem h w =
      elim (rw (account_matches-token h) at
        (laws.find_one_law (record no_account_criteria { hashed_token = some h }) w)) [
          | inl (a, b) ↦ elim (any-find_first (has_token h) (accounts w)) [
            | inl (n, f) ↦ inl (rw (a, f))
            | inr (y, (d, f)) ↦ inl (rw (a, f))
          ]
          | inr (s, a, b) ↦ inr (s, rw a)
        ]

  -- A successful `Unlock` has found the account and changed nothing else.
  unlock_lem :
      (id h : String) (w : W)
      → (unlock collection clock id h w).0 ≡ ok tt
      → (a : ServiceAccount) × (find_first (has_account_id id) (accounts w) ≡ some a)
        × (accounts (unlock collection clock id h w).1
            ≡ update_first (has_account_id id) (account_apply (unlock_with h)) (accounts w))
  unfolding unlock update_account
  unlock_lem id h w e =
      elim (rw (account_matches-id id) at
        (laws.update_one_law (record no_account_criteria { id = some id }) (unlock_with h) w)) [
          | inl (a, b) ↦ elim (any-find_first (has_account_id id) (accounts w)) [
            | inl (n, f) ↦ absurd (cc (rw (a, n) at e))
            | inr (y, (d, f)) ↦ let a' = rw y at a in (d, f, rw (a', b))
          ]
          | inr (s, a, b) ↦ absurd (cc (rw a at e))
        ]

  -- After a successful `Unlock` with a token that no service account had, where no two had the
  -- same: the new token stands for the account with the identifier, which is not locked and
  -- otherwise as it was, and the account's former token stands for nobody (unless the driver
  -- fails).
  pub get_by_hashed_token-unlock :
      (id h : String) (w : W)
      → HasUniqueTokens (accounts w)
      → any (has_token h) (accounts w) ≡ false
      → (unlock collection clock id h w).0 ≡ ok tt
      → let w₁ = (unlock collection clock id h w).1 in
        (a : ServiceAccount) × (find_first (has_account_id id) (accounts w) ≡ some a)
        × Answers (ok (unlocked h a)) (get_by_hashed_token collection clock h w₁).0
        × Answers
            (err (err_not_found "ServiceAccount" ""))
            (get_by_hashed_token collection clock a.hashed_token w₁).0
  get_by_hashed_token-unlock id h w u n e =
      let (a, f, us) = unlock_lem id h w e in
      let w₁ = (unlock collection clock id h w).1 in
      let new = find_first-unlocked id h (accounts w) a f n in
      let fresh = find_first-false (has_account_id id) (has_token h) (accounts w) a f n in
      let old = find_first-old id h (accounts w) a u f fresh in
      (
        a,
        f,
        rw (us, new) at (get_by_hashed_token_lem h w₁),
        rw (us, old) at (get_by_hashed_token_lem a.hashed_token w₁),
      )
