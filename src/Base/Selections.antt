-- ===== src/Base/Selections.antt =====
-- What a selection keeps of an order, of a length and of another selection, and a list at one of
-- its places.
use Prim.Native.Nat.{ℕ, zero, suc, ◌≤◌, ◌<◌}
use mathlib.Core.Path.{◌≡◌, refl, ◌∙◌, ap}
use mathlib.Core.Logic.{inl, inr, ∥∥₁_elim}
use mathlib.Core.Bool.{Bool, true}
use mathlib.Core.Option.{some}
use mathlib.Core.List.{List, [], ◌∷◌, ◌++◌, Perm, Perm-prop, Permᴰ}
use mathlib.Core.List.Perm
use native.Mathlib.Nat.{ℕ_set}
use native.Mathlib.Omega.{arith}
use brignext.Base.Tests.{Bool-cases}
use brignext.Base.Lists.{length, take, get_elem?, select}

module _ {A : Type 0} where
  length-permᴰ : (l m : List A) → Permᴰ l m → length l ≡ length m
  length-permᴰ l m Permᴰ.nil = refl
  length-permᴰ l m (Permᴰ.cons e p) = ap suc (length-permᴰ _ _ p)
  length-permᴰ l m (Permᴰ.swap e f) = refl
  length-permᴰ l m (Permᴰ.trans {l₂ = k} p q) = length-permᴰ l k p ∙ length-permᴰ k m q

  pub length-perm : {l m : List A} → Perm l m → length l ≡ length m
  length-perm {l} {m} p = ∥∥₁_elim p (ℕ_set _ _) (length-permᴰ l m)

  -- A list that is longer than `n`, at its place `n`.
  pub split_lem :
      (n : ℕ) (l : List A)
      → n < length l
      → (ps : List A) × (c : A) × (ys : List A) × (get_elem? l n ≡ some c)
        × (take (suc n) l ≡ ps ++ c ∷ [])
        × (l ≡ ps ++ c ∷ ys)
        × (length ys < length l)
  split_lem n [] h = absurd (omega arith)
  split_lem zero (k ∷ l) h = ([], k, l, refl, refl, refl, omega arith)
  split_lem (suc n) (k ∷ l) h =
      let (ps, c, ys, e, t, d, shorter) = split_lem n l (omega arith) in
      (k ∷ ps, c, ys, e, rw t, rw d, omega arith)

module _ {A : Type 0} (p : A → Bool) where
  select-permᴰ : (l m : List A) → Permᴰ l m → Perm (select p l) (select p m)
  unfolding select
  select-permᴰ l m Permᴰ.nil = Perm.refl []
  select-permᴰ l m (Permᴰ.cons {a = a} {b = b} {l₁ = l₁} {l₂ = l₂} e q) =
      let ih = select-permᴰ l₁ l₂ q in
      elim (Bool-cases (p b)) [ inl y ↦ rw (e, y) (Perm.cons b ih) | inr n ↦ rw (e, n) ih ]
  select-permᴰ l m (Permᴰ.swap {a = a} {b = b} {l = k} e f) = elim (Bool-cases (p a)) [
    | inl y ↦ elim (Bool-cases (p b)) [
      | inl y' ↦ rw (← e, ← f, y, y') (Perm.swap b a (select p k))
      | inr n' ↦ rw (← e, ← f, y, n') (Perm.refl _)
    ]
    | inr n ↦ elim (Bool-cases (p b)) [
      | inl y' ↦ rw (← e, ← f, n, y') (Perm.refl _)
      | inr n' ↦ rw (← e, ← f, n, n') (Perm.refl _)
    ]
  ]
  select-permᴰ l m (Permᴰ.trans {l₂ = k} q r) = Perm.trans (select-permᴰ l k q) (select-permᴰ k m r)

  pub select-perm : {l m : List A} → Perm l m → Perm (select p l) (select p m)
  select-perm {l} {m} h = ∥∥₁_elim h Perm-prop (select-permᴰ l m)

  pub length-select : (l : List A) → length (select p l) ≤ length l
  unfolding select
  length-select [] = omega arith
  length-select (x ∷ l) = ground (arith, length-select l)

  -- Where a selection loses nothing, everything passes.
  pub whole-append :
      (xs : List A) (c : A) (ys : List A)
      → length (select p (xs ++ c ∷ ys)) ≡ length (xs ++ c ∷ ys)
      → p c ≡ true
  unfolding select
  whole-append [] c ys h = ground (arith, length-select ys)
  whole-append (x ∷ xs) c ys h = ground (arith, whole-append xs c ys, length-select (xs ++ c ∷ ys))

  pub select-select :
      (q : A → Bool)
      → ((x : A) → q x ≡ true → p x ≡ true)
      → (l : List A) → select q (select p l) ≡ select q l
  unfolding select
  select-select q h [] = refl
  select-select q h (x ∷ l) = ground (arith, select-select q h l, h x)

  pub length-select-select :
      (q : A → Bool) (l : List A) → length (select q (select p l)) ≤ length (select q l)
  unfolding select
  length-select-select q [] = omega arith
  length-select-select q (x ∷ l) = ground (arith, length-select-select q l)

  pub select_same : (l : List A) → select p (select p l) ≡ select p l
  select_same = select-select p (λ x. λ y. y)
