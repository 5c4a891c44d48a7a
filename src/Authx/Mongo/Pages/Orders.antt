-- ===== src/Authx/Mongo/Pages/Orders.antt =====
-- Documents in the order of their identifiers, and what comes after one of them: for `List` of
-- v2/apiserver/internal/authx/mongodb/users_store.go and service_accounts_store.go.
use mathlib.Core.List.{Perm}
use mathlib.Core.List.Perm
use Prim.Native.Nat.{Ordering}
use Prim.Native.String.{compare}
use brignext.Base.{
  ◌≤◌, ◌≡◌, ◌≢◌, refl, String, Bool, true, false, Option, none, some, List, [], ◌∷◌, ◌++◌, length,
  select, less, less_asymm, less_trans, less_total, inl, inr, Bool-cases, arith, ◌==◌, eq_iff,
  select-perm, length-select, length-select-select, length-perm, whole-append, select-select,
  select_same,
}
use brignext.Authx.Docs.{InIdOrder, is_id_after}
use brignext.Core.Mongo.ProjectDocs.{is_after}

less_irrefl : (s : String) → less s s ≡ false
less_irrefl s = elim (Bool-cases (less s s)) [ inl y ↦ less_asymm s s y | inr n ↦ n ]

not_less : (s t : String) → compare s t ≢ Ordering.lt → less s t ≡ false
not_less s t n =
    (elim (compare s t)
        as (λ o. o ≢ Ordering.lt → elim o [ Ordering.lt ↦ true | _ ↦ false ] ≡ false) [
          | Ordering.lt ↦ λ k. absurd (k refl)
          | Ordering.eq ↦ λ k. refl
          | Ordering.gt ↦ λ k. refl
        ])
      n

further_after :
    (continue_ : Option String) (s t : String)
    → is_id_after continue_ s ≡ true
    → less s t ≡ true
    → is_id_after continue_ t ≡ true
unfolding is_id_after is_after
further_after none s t h y = refl
further_after (some b) s t h y = less_trans b s t h y

module _ {D : Type 0} (id_of : D → String) where
  -- No two documents have the same identifier.
  abbrev pub HasUniqueIds : List D → Type 0
  HasUniqueIds ds = (id : String) → length (select (λ d. id_of d == id) ds) ≤ 1

  -- Each identifier is greater than the one before it, the first than `b`.
  abbrev IsAbove : String → List D → Type 0
  IsAbove b [] = Unit
  IsAbove b (d ∷ ds) = (less b (id_of d) ≡ true) × IsAbove (id_of d) ds

  tail-HasUniqueIds : (d : D) (ds : List D) → HasUniqueIds (d ∷ ds) → HasUniqueIds ds
  unfolding select
  tail-HasUniqueIds d ds u id = ground (arith, u id)

  not_same : (d e : D) (ds : List D) → HasUniqueIds (d ∷ e ∷ ds) → id_of e ≢ id_of d
  unfolding select
  not_same d e ds u same = ground (
    arith,
    u (id_of d),
    (eq_iff (id_of d) (id_of d)).1 refl,
    (eq_iff (id_of e) (id_of d)).1 same,
    length-select (λ c. id_of c == id_of d) ds,
  )

  strict :
      (d : D) (ds : List D)
      → InIdOrder id_of (d ∷ ds)
      → HasUniqueIds (d ∷ ds)
      → IsAbove (id_of d) ds
  strict d [] h u = tt
  strict d (e ∷ ds) (n, h) u =
      elim (less_total (id_of e) (id_of d) (not_less (id_of e) (id_of d) n)) [
        | inl same ↦ absurd (not_same d e ds u same)
        | inr y ↦ (y, strict e ds h (tail-HasUniqueIds d (e ∷ ds) u))
      ]

  above : (b : String) (ds : List D) → IsAbove b ds → select (λ d. less b (id_of d)) ds ≡ ds
  unfolding select
  above b [] h = refl
  above b (d ∷ []) (y, h) = rw y refl
  above b (d ∷ e ∷ ds) (y, (y', h)) =
      rw (y, above b (e ∷ ds) (less_trans b (id_of d) (id_of e) y y', h)) refl

  IsAbove-append :
      (b : String) (xs : List D) (c : D) (ys : List D)
      → IsAbove b (xs ++ c ∷ ys)
      → (less b (id_of c) ≡ true) × IsAbove (id_of c) ys
  IsAbove-append b [] c ys h = h
  IsAbove-append b (x ∷ xs) c ys (y, h) =
      let (y', h') = IsAbove-append (id_of x) xs c ys h in
      (less_trans b (id_of x) (id_of c) y y', h')

  tail-InIdOrder : (d : D) (ds : List D) → InIdOrder id_of (d ∷ ds) → InIdOrder id_of ds
  tail-InIdOrder d [] h = tt
  tail-InIdOrder d (e ∷ ds) h = h.1

  -- What comes after the document `c` in an ordered list.
  after_lem :
      (xs : List D) (c : D) (ys : List D)
      → InIdOrder id_of (xs ++ c ∷ ys)
      → HasUniqueIds (xs ++ c ∷ ys)
      → select (λ d. less (id_of c) (id_of d)) (xs ++ c ∷ ys) ≡ ys
  unfolding select
  after_lem [] c ys h u = rw (less_irrefl (id_of c)) (above (id_of c) ys (strict c ys h u))
  after_lem (x ∷ xs) c ys h u =
      let (y, _) = IsAbove-append (id_of x) xs c ys (strict x (xs ++ c ∷ ys) h u) in
      rw (less_asymm (id_of x) (id_of c) y) (
        after_lem xs c ys (tail-InIdOrder x (xs ++ c ∷ ys) h)
          (tail-HasUniqueIds x (xs ++ c ∷ ys) u))

  unique-select :
      (p : D → Bool) (l ds : List D) → Perm l (select p ds) → HasUniqueIds ds → HasUniqueIds l
  unique-select p l ds h u id =
      let q = λ (d : D). id_of d == id in
      omega (arith, length-perm (select-perm q h), length-select-select p q ds, u id)

  -- What comes after `c`, of what was selected in order after `continue_`, is what comes after `c`
  -- of all.
  pub cut_lem :
      (continue_ : Option String) (ds xs : List D) (c : D) (ys : List D)
      → Perm (xs ++ c ∷ ys) (select (λ d. is_id_after continue_ (id_of d)) ds)
      → InIdOrder id_of (xs ++ c ∷ ys)
      → HasUniqueIds ds
      → Perm ys (select (λ d. is_id_after (some (id_of c)) (id_of d)) ds)
  unfolding is_id_after is_after
  cut_lem continue_ ds xs c ys h o u =
      let p = λ (d : D). is_id_after continue_ (id_of d) in
      let q = λ (d : D). less (id_of c) (id_of d) in
      let l = xs ++ c ∷ ys in
      let passes : is_id_after continue_ (id_of c) ≡ true =
        whole-append p xs c ys
          (length-perm (Perm.trans (rw (select_same p ds) at (select-perm p h)) (Perm.symm h))) in
      let further : (d : D) → q d ≡ true → p d ≡ true =
        λ d. λ y. further_after continue_ (id_of c) (id_of d) passes y in
      rw (after_lem xs c ys o (unique-select p l ds h u), select-select p q further ds) at
        (select-perm q h)
