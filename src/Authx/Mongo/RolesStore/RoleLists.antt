-- ===== src/Authx/Mongo/RolesStore/RoleLists.antt =====
-- What the updates of a principal's roles do to the roles it has: `$push` with `$sort` and `$pull`
-- in v2/apiserver/internal/authx/mongodb/roles_store.go.
use brignext.Base.{
  ◌≡◌, refl, ◌∙◌, ap, Bool, true, false, not, ◌&&◌, ◌||◌, inl, inr, List, [], ◌∷◌, ◌++◌, any,
  select, arith, Bool-cases, eq_iff, ◌==◌,
}
use brignext.Authx.Roles.{Role, same_role, has_role, precedes, type_text, name_text}
use brignext.Authx.Docs.{place_role, sort_roles, with_role, without_role}

or_swap : (a b c : Bool) → (a || (b || c)) ≡ (b || (a || c))
or_swap a b c = ground arith

has_role-place_role :
    (q r : Role) (rs : List Role) → has_role q (place_role r rs) ≡ (same_role q r || has_role q rs)
unfolding has_role any place_role
has_role-place_role q r [] = refl
has_role-place_role q r (p ∷ rs) = elim (Bool-cases (precedes p r)) [
  | inl e ↦
      rw (e, has_role-place_role q r rs) (or_swap (same_role q p) (same_role q r) (has_role q rs))
  | inr e ↦ rw e refl
]

has_role-sort_roles : (q : Role) (rs : List Role) → has_role q (sort_roles rs) ≡ has_role q rs
unfolding sort_roles has_role any
has_role-sort_roles q [] = refl
has_role-sort_roles q (r ∷ rs) =
    has_role-place_role q r (sort_roles rs)
    ∙ ap (λ b. same_role q r || b) (has_role-sort_roles q rs)

has_role-append :
    (q r : Role) (rs : List Role) → has_role q (rs ++ r ∷ []) ≡ (has_role q rs || same_role q r)
unfolding has_role any
has_role-append q r [] = ground arith
has_role-append q r (p ∷ rs) = rw (has_role-append q r rs) (ground arith)

pub has_role-with_role :
    (q r : Role) (rs : List Role) → has_role q (with_role r rs) ≡ (has_role q rs || same_role q r)
unfolding with_role
has_role-with_role q r rs = has_role-sort_roles q (rs ++ r ∷ []) ∙ has_role-append q r rs

-- Roles that are the same are not told apart.
pub same_role-left : (q r x : Role) → same_role q r ≡ true → same_role q x ≡ same_role r x
unfolding same_role
same_role-left q r x h =
    let a : type_text q.type_ ≡ type_text r.type_ = (eq_iff _ _).0 (ground arith) in
    let b : name_text q.name ≡ name_text r.name = (eq_iff _ _).0 (ground arith) in
    let c : q.scope ≡ r.scope = (eq_iff _ _).0 (ground arith) in
    λ i. a i == type_text x.type_ && b i == name_text x.name && c i == x.scope

pub same_role_sym : (q r : Role) → same_role q r ≡ same_role r q
unfolding same_role
same_role_sym q r = ground (
  arith,
  eq_iff (type_text q.type_) (type_text r.type_),
  eq_iff (type_text r.type_) (type_text q.type_),
  eq_iff (name_text q.name) (name_text r.name),
  eq_iff (name_text r.name) (name_text q.name),
  eq_iff q.scope r.scope,
  eq_iff r.scope q.scope,
)

has_role_of_same :
    (q r : Role) (rs : List Role) → same_role q r ≡ true → has_role q rs ≡ has_role r rs
unfolding has_role any
has_role_of_same q r [] h = refl
has_role_of_same q r (x ∷ rs) h = λ i. same_role-left q r x h i || has_role_of_same q r rs h i

-- A role that is held already is not needed twice.
pub has_role_already :
    (q r : Role) (rs : List Role)
    → has_role r rs ≡ true
    → has_role q rs ≡ (has_role q rs || same_role q r)
has_role_already q r rs h = elim (Bool-cases (same_role q r)) [
  | inl e ↦ rw (has_role_of_same q r rs e, h) refl
  | inr e ↦ rw e (ground arith)
]

absorbed : (t h : Bool) → (h && not t) ≡ ((t || h) && not t)
absorbed t h = ground arith

pub has_role-without_role :
    (q r : Role) (rs : List Role)
    → has_role q (without_role r rs) ≡ (has_role q rs && not (same_role q r))
unfolding without_role has_role any select
has_role-without_role q r [] = refl
has_role-without_role q r (x ∷ rs) = elim (Bool-cases (same_role r x)) [
  | inl e ↦
      let t : same_role q r ≡ same_role q x =
        same_role_sym q r ∙ same_role-left r x q e ∙ same_role_sym x q in
      rw (e, has_role-without_role q r rs, t) (absorbed (same_role q x) (has_role q rs))
  | inr e ↦ elim (Bool-cases (same_role q r)) [
    | inl s ↦
        let n : same_role q x ≡ false = same_role-left q r x s ∙ e in
        rw (e, has_role-without_role q r rs, s, n) (ground arith)
    | inr s ↦ rw (e, has_role-without_role q r rs, s) (ground arith)
  ]
]
