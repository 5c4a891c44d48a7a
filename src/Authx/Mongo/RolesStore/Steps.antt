-- ===== src/Authx/Mongo/RolesStore/Steps.antt =====
-- What one update of `Grant` or `Revoke` does to the roles that a principal has:
-- v2/apiserver/internal/authx/mongodb/roles_store.go.
use brignext.Base.{
  ◌≡◌, refl, String, Bool, true, false, not, ◌&&◌, ◌||◌, inl, inr, some, List, [], ◌∷◌, any,
  update_first, arith, Bool-cases, if◌then◌else◌, ◌==◌,
}
use brignext.Mongo.{Semantics}
use brignext.Authx.Roles.{Role, has_role, same_role}
use brignext.Authx.Docs.{
  AccountFilter, AccountUpdate, no_account_criteria, push_role, pull_role, with_role, without_role,
}

-- Documents with an identifier and roles, and what the filters and updates of roles mean to them.
pub record RoleSemantics {D : Type 0} (s : Semantics D AccountFilter AccountUpdate)
    (id_of : D → String) (roles_of : D → List Role) : Type 0 where
  pub id_law :
      (id : String) (d : D)
      → s.matches (record no_account_criteria { id = some id }) d ≡ (id_of d == id)
  pub lacks_law :
      (id : String) (r : Role) (d : D)
      → s.matches (record no_account_criteria { id = some id; lacks_role = some r }) d
        ≡ ((id_of d == id) && not (has_role r (roles_of d)))
  pub push_law :
      (r : Role) (d : D)
      → (id_of (s.apply (push_role r) d) ≡ id_of d)
        × (roles_of (s.apply (push_role r) d) ≡ with_role r (roles_of d))
  pub pull_law :
      (r : Role) (d : D)
      → (id_of (s.apply (pull_role r) d) ≡ id_of d)
        × (roles_of (s.apply (pull_role r) d) ≡ without_role r (roles_of d))

module _ {D : Type 0} (id_of : D → String) (roles_of : D → List Role) where
  -- Does the first document with the identifier have the role?
  unfoldable pub holds : String → Role → List D → Bool
  holds id q [] = false
  holds id q (d ∷ ds) = if id_of d == id then has_role q (roles_of d) else holds id q ds

  -- Is there a document with the identifier?
  unfoldable pub exists : String → List D → Bool
  exists id ds = any (λ d. id_of d == id) ds

-- Is the role the same as one of these?
unfoldable pub is_among : Role → List Role → Bool
is_among q [] = false
is_among q (r ∷ rs) = same_role q r || is_among q rs

module _ {D : Type 0} (id_of : D → String) (roles_of : D → List Role) (id : String) (f : D → D)
    (p : D → Bool) where
  -- An update of documents with the identifier that changes what roles are held by `change`.
  pub step_lem :
      (change : Bool → Bool) (q : Role)
      → ((d : D) → p d ≡ true → (id_of d == id) ≡ true)
      → ((d : D) → id_of (f d) ≡ id_of d)
      → ((d : D)
          → (id_of d == id) ≡ true
          → has_role q (roles_of (if p d then f d else d)) ≡ change (has_role q (roles_of d)))
      → (ds : List D)
      → (exists id_of roles_of id (update_first p f ds) ≡ exists id_of roles_of id ds)
        × (holds id_of roles_of id q (update_first p f ds) ≡ (
            if exists id_of roles_of id ds then change (holds id_of roles_of id q ds) else false))
  unfolding exists holds any update_first
  step_lem change q h k c [] = (refl, refl)
  step_lem change q h k c (d ∷ ds) = elim (Bool-cases (id_of d == id)) [
    | inl e ↦ elim (Bool-cases (p d)) [
      | inl y ↦ (rw (y, k d, e), rw (y, k d, e) (rw y at (c d e)))
      | inr n ↦ (rw (n, e), rw (n, e) (rw n at (c d e)))
    ]
    | inr e ↦
        let (a, b) = step_lem change q h k c ds in
        elim (Bool-cases (p d)) [
          | inl y ↦ absurd (cc (h d y, e))
          | inr n ↦ (rw (n, e) a, rw (n, e) b)
        ]
  ]

pub granted_twice :
    (e h h₁ s t : Bool)
    → h₁ ≡ (if e then h || s else false)
    → (if e then h₁ || t else false) ≡ (if e then h || (s || t) else false)
granted_twice e h h₁ s t k = ground arith

pub revoked_twice :
    (e h h₁ s t : Bool)
    → h₁ ≡ (if e then h && not s else false)
    → (if e then h₁ && not t else false) ≡ (if e then h && not (s || t) else false)
revoked_twice e h h₁ s t k = ground arith

pub kept :
    (e h h₁ s : Bool)
    → h ≡ (if e then h else false)
    → h₁ ≡ (if e then h || s else false)
    → (not h || h₁) ≡ true
kept e h h₁ s k l = ground arith

pub kept_twice :
    (e h h₁ h₂ s : Bool)
    → h ≡ (if e then h else false)
    → h₁ ≡ (if e then h || s else false)
    → (not h₁ || h₂) ≡ true
    → (not h || h₂) ≡ true
kept_twice e h h₁ h₂ s k l m = ground arith

pub lost : (e h h₁ s : Bool) → h₁ ≡ (if e then h && not s else false) → (not h₁ || h) ≡ true
lost e h h₁ s l = ground arith

pub lost_twice :
    (e h h₁ h₂ s : Bool)
    → h₁ ≡ (if e then h && not s else false)
    → (not h₂ || h₁) ≡ true
    → (not h₂ || h) ≡ true
lost_twice e h h₁ h₂ s l m = ground arith

pub excluded : (h : Bool) → (not h || h) ≡ true
excluded h = ground arith

pub nothing_granted : (e h : Bool) → (if e then h else false) ≡ (if e then h || false else false)
nothing_granted e h = ground arith

pub nothing_revoked :
    (e h : Bool) → (if e then h else false) ≡ (if e then h && not false else false)
nothing_revoked e h = ground arith
