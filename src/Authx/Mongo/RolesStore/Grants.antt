-- ===== src/Authx/Mongo/RolesStore/Grants.antt =====
-- Which roles a principal has after `Grant` and `Revoke` of
-- v2/apiserver/internal/authx/mongodb/roles_store.go.
use mathlib.Core.Path.{fun_ext}
use brignext.Base.{
  ◌≡◌, refl, ◌∙◌, ap, String, Bool, true, false, not, ◌&&◌, ◌||◌, inl, inr, some, List, [], ◌∷◌,
  any, update_first, arith, Bool-cases, if◌then◌else◌, ◌==◌,
}
use brignext.Errors.{Outcome, ok, err, panic, out_of_fuel, other}
use brignext.Mongo.{Collection, Laws, Semantics}
use brignext.Authx.Roles.{Role, has_role, same_role}
use brignext.Authx.Docs.{AccountFilter, AccountUpdate, no_account_criteria, push_role, pull_role}
use brignext.Authx.Mongo.RolesStore.{grant_each, revoke_each}
use brignext.Authx.Mongo.RolesStore.RoleLists.{
  has_role-with_role, has_role-without_role, has_role_already,
}
use brignext.Authx.Mongo.RolesStore.Steps.{
  RoleSemantics, holds, exists, is_among, step_lem, granted_twice, revoked_twice, kept, kept_twice,
  lost, lost_twice, excluded, nothing_granted, nothing_revoked,
}

module _ {W D : Type 0} (collection : Collection W D AccountFilter AccountUpdate)
    (docs : W → List D) (s : Semantics D AccountFilter AccountUpdate)
    (laws : Laws collection docs s) (id_of : D → String) (roles_of : D → List Role)
    (role_laws : RoleSemantics s id_of roles_of) where
  -- Which roles the principal holds after a change of them.
  abbrev pub Holds : String → (Role → Bool → Bool) → List D → List D → Type 0
  Holds id change ds ds' =
      (exists id_of roles_of id ds' ≡ exists id_of roles_of id ds)
      × ((q : Role)
          → holds id_of roles_of id q ds' ≡ (
              if exists id_of roles_of id ds
              then change q (holds id_of roles_of id q ds)
              else false))

  abbrev has_this_id : String → D → Bool
  has_this_id id d = id_of d == id

  abbrev is_without : String → Role → D → Bool
  is_without id r d = (id_of d == id) && not (has_role r (roles_of d))

  matches-id :
      (id : String) → s.matches (record no_account_criteria { id = some id }) ≡ has_this_id id
  matches-id id = fun_ext λ d. role_laws.id_law id d

  matches-lacks :
      (id : String) (r : Role)
      → s.matches (record no_account_criteria { id = some id; lacks_role = some r })
        ≡ is_without id r
  matches-lacks id r = fun_ext λ d. role_laws.lacks_law id r d

  push_one :
      (id : String) (q r : Role) (d : D)
      → (id_of d == id) ≡ true
      → has_role q (roles_of (if is_without id r d then s.apply (push_role r) d else d))
        ≡ (has_role q (roles_of d) || same_role q r)
  push_one id q r d e = elim (Bool-cases (has_role r (roles_of d))) [
    | inl y ↦ rw (e, y) (has_role_already q r (roles_of d) y)
    | inr n ↦
        rw (e, n) (ap (has_role q) (role_laws.push_law r d).1 ∙ has_role-with_role q r (roles_of d))
  ]

  push_lem :
      (id : String) (r : Role) (ds : List D)
      → Holds id
          (λ q. λ b. b || same_role q r)
          ds
          (update_first (is_without id r) (s.apply (push_role r)) ds)
  push_lem id r ds =
      let step = λ (q : Role).
        step_lem id_of roles_of id (s.apply (push_role r)) (is_without id r)
          (λ b. b || same_role q r) q (λ d. λ y. ground arith) (λ d. (role_laws.push_law r d).0)
          (push_one id q r) ds in
      ((step r).0, λ q. (step q).1)

  pull_lem :
      (id : String) (r : Role) (ds : List D)
      → Holds id
          (λ q. λ b. b && not (same_role q r))
          ds
          (update_first (has_this_id id) (s.apply (pull_role r)) ds)
  pull_lem id r ds =
      let step = λ (q : Role).
        step_lem id_of roles_of id (s.apply (pull_role r)) (has_this_id id)
          (λ b. b && not (same_role q r)) q (λ d. λ y. y) (λ d. (role_laws.pull_law r d).0)
          (λ d. λ e.
            rw e
              (ap (has_role q) (role_laws.pull_law r d).1 ∙ has_role-without_role q r (roles_of d)))
          ds in
      ((step r).0, λ q. (step q).1)

  -- A principal that is not there has no roles.
  holds-none :
      (id : String) (q : Role) (ds : List D)
      → exists id_of roles_of id ds ≡ false
      → holds id_of roles_of id q ds ≡ false
  unfolding exists holds any
  holds-none id q [] h = refl
  holds-none id q (d ∷ ds) h = elim (Bool-cases (id_of d == id)) [
    | inl e ↦ absurd (cc (rw e at h))
    | inr e ↦ rw e (holds-none id q ds (rw e at h))
  ]

  holds_same :
      (id : String) (q : Role) (ds : List D)
      → holds id_of roles_of id q ds
        ≡ (if exists id_of roles_of id ds then holds id_of roles_of id q ds else false)
  holds_same id q ds = elim (Bool-cases (exists id_of roles_of id ds)) [
    | inl e ↦ rw e refl
    | inr e ↦ rw (e, holds-none id q ds e) refl
  ]

  -- What `Grant` promises, by its result: the roles are held besides those that were, or no role
  -- has been lost.
  abbrev pub GrantSpec : String → List Role → Outcome (Unit {0}) → List D → List D → Type 0
  GrantSpec id roles (ok x) ds ds' = Holds id (λ q. λ b. b || is_among q roles) ds ds'
  GrantSpec id roles (err (other e)) ds ds' =
      (q : Role) → (not (holds id_of roles_of id q ds) || holds id_of roles_of id q ds') ≡ true
  GrantSpec id roles _ ds ds' = ⊥

  -- The same for `Revoke`: the roles are no longer held, or none has been gained.
  abbrev pub RevokeSpec : String → List Role → Outcome (Unit {0}) → List D → List D → Type 0
  RevokeSpec id roles (ok x) ds ds' = Holds id (λ q. λ b. b && not (is_among q roles)) ds ds'
  RevokeSpec id roles (err (other e)) ds ds' =
      (q : Role) → (not (holds id_of roles_of id q ds') || holds id_of roles_of id q ds) ≡ true
  RevokeSpec id roles _ ds ds' = ⊥

  grant_more :
      (id : String) (r : Role) (roles : List Role) (o : Outcome (Unit {0})) (ds ds₁ ds' : List D)
      → Holds id (λ q. λ b. b || same_role q r) ds ds₁
      → GrantSpec id roles o ds₁ ds'
      → GrantSpec id (r ∷ roles) o ds ds'
  unfolding is_among
  grant_more id r roles (ok x) ds ds₁ ds' (a, b) (c, d) = (
    c ∙ a,
    λ q.
        (rw a at (d q))
        ∙ granted_twice _ (holds id_of roles_of id q ds) _ (same_role q r) (is_among q roles) (b q),
  )
  grant_more id r roles (err (other x)) ds ds₁ ds' (a, b) c = λ q.
      kept_twice (exists id_of roles_of id ds) _ _ _ (same_role q r) (holds_same id q ds) (b q)
        (c q)
  grant_more id r roles (err _) ds ds₁ ds' h c = absurd c
  grant_more id r roles panic ds ds₁ ds' h c = absurd c
  grant_more id r roles out_of_fuel ds ds₁ ds' h c = absurd c

  revoke_more :
      (id : String) (r : Role) (roles : List Role) (o : Outcome (Unit {0})) (ds ds₁ ds' : List D)
      → Holds id (λ q. λ b. b && not (same_role q r)) ds ds₁
      → RevokeSpec id roles o ds₁ ds'
      → RevokeSpec id (r ∷ roles) o ds ds'
  unfolding is_among
  revoke_more id r roles (ok x) ds ds₁ ds' (a, b) (c, d) = (
    c ∙ a,
    λ q.
        (rw a at (d q))
        ∙ revoked_twice _ (holds id_of roles_of id q ds) _ (same_role q r) (is_among q roles) (b q),
  )
  revoke_more id r roles (err (other x)) ds ds₁ ds' (a, b) c =
      λ q. lost_twice (exists id_of roles_of id ds) _ _ _ (same_role q r) (b q) (c q)
  revoke_more id r roles (err _) ds ds₁ ds' h c = absurd c
  revoke_more id r roles panic ds ds₁ ds' h c = absurd c
  revoke_more id r roles out_of_fuel ds ds₁ ds' h c = absurd c

  pub grant_each_lem :
      (id : String) (roles : List Role) (w : W)
      → GrantSpec id roles
          (grant_each collection id roles w).0
          (docs w)
          (docs (grant_each collection id roles w).1)
  unfolding grant_each is_among
  grant_each_lem id [] w =
      (refl, λ q. holds_same id q (docs w) ∙ nothing_granted (exists id_of roles_of id (docs w)) _)
  grant_each_lem id (r ∷ roles) w =
      let f = record no_account_criteria { id = some id; lacks_role = some r } in
      let w₁ = (collection.update_one f (push_role r) w).1 in
      elim (rw (matches-lacks id r) at (laws.update_one_law f (push_role r) w)) [
        | inl (a, b) ↦ rw a (
            grant_more id r roles _ (docs w) (docs w₁) _ (rw b (push_lem id r (docs w)))
              (grant_each_lem id roles w₁))
        | inr (x, a, l) ↦ rw a (λ q. elim l [
          | inl b ↦ rw b (excluded (holds id_of roles_of id q (docs w)))
          | inr b ↦ rw b (
              kept (exists id_of roles_of id (docs w)) _ _ (same_role q r)
                (holds_same id q (docs w)) ((push_lem id r (docs w)).1 q))
        ])
      ]

  pub revoke_each_lem :
      (id : String) (roles : List Role) (w : W)
      → RevokeSpec id roles
          (revoke_each collection id roles w).0
          (docs w)
          (docs (revoke_each collection id roles w).1)
  unfolding revoke_each is_among
  revoke_each_lem id [] w =
      (refl, λ q. holds_same id q (docs w) ∙ nothing_revoked (exists id_of roles_of id (docs w)) _)
  revoke_each_lem id (r ∷ roles) w =
      let f = record no_account_criteria { id = some id } in
      let w₁ = (collection.update_one f (pull_role r) w).1 in
      elim (rw (matches-id id) at (laws.update_one_law f (pull_role r) w)) [
        | inl (a, b) ↦ rw a (
            revoke_more id r roles _ (docs w) (docs w₁) _ (rw b (pull_lem id r (docs w)))
              (revoke_each_lem id roles w₁))
        | inr (x, a, l) ↦ rw a (λ q. elim l [
          | inl b ↦ rw b (excluded (holds id_of roles_of id q (docs w)))
          | inr b ↦ rw b (
              lost (exists id_of roles_of id (docs w)) _ _ (same_role q r)
                ((pull_lem id r (docs w)).1 q))
        ])
      ]
