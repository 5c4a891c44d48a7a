-- ===== src/Effect/Results.antt =====
-- What a result says of the calls that it comes from.
use brignext.Base.{◌≡◌, refl, Bool, true, false, ◌⊎◌, inl, inr}
use brignext.Errors.{Error, Outcome, ok, err, panic, out_of_fuel}
use brignext.Effect.{M, attempt, refuse_if, ◌>>=◌}

module _ {W A B : Type 0} where
  -- What comes before a result.
  pub bind-ok :
      (m : M W A) (f : A → M W B) (w : W) (b : B)
      → ((m >>= f) w).0 ≡ ok b
      → (a : A) × ((m w).0 ≡ ok a) × ((f a (m w).1).0 ≡ ok b)
  bind-ok m f w b h = go (m w).0 refl
    where
      go : (r : Outcome A) → (m w).0 ≡ r → (a : A) × ((m w).0 ≡ ok a) × ((f a (m w).1).0 ≡ ok b)
      go (ok a) e = (a, e, rw e at h)
      go (err x) e = absurd (cc (rw e at h))
      go panic e = absurd (cc (rw e at h))
      go out_of_fuel e = absurd (cc (rw e at h))

module _ {W A B : Type 0} where
  -- The same, where what follows an answer is.
  pub bind-same :
      (m : M W A) (f g : A → M W B) (w : W)
      → ((a : A) → (m w).0 ≡ ok a → f a (m w).1 ≡ g a (m w).1)
      → (m >>= f) w ≡ (m >>= g) w
  bind-same m f g w same = go (m w).0 refl
    where
      go : (r : Outcome A) → (m w).0 ≡ r → (m >>= f) w ≡ (m >>= g) w
      go (ok a) e = rw e (same a e)
      go (err x) e = rw e refl
      go panic e = rw e refl
      go out_of_fuel e = rw e refl

-- No answer: an error, a panic, or a call that does not come back.
abbrev pub IsUnfinished : {A : Type 0} → Outcome A → Type 0
IsUnfinished (ok a) = ⊥
IsUnfinished (err x) = Unit
IsUnfinished panic = Unit
IsUnfinished out_of_fuel = Unit

pub outcome_cases : {A : Type 0} (r : Outcome A) → ((a : A) × (r ≡ ok a)) ⊎ IsUnfinished r
outcome_cases (ok a) = inl (a, refl)
outcome_cases (err x) = inr tt
outcome_cases panic = inr tt
outcome_cases out_of_fuel = inr tt

-- What follows a call without an answer is not done.
pub bind-IsUnfinished :
    {W A B : Type 0} (m : M W A) (f : A → M W B) (w : W)
    → IsUnfinished (m w).0
    → IsUnfinished ((m >>= f) w).0 × (((m >>= f) w).1 ≡ (m w).1)
bind-IsUnfinished {A = A} {B = B} m f w h = go (m w).0 refl
  where
    go : (r : Outcome A) → (m w).0 ≡ r → IsUnfinished ((m >>= f) w).0 × (((m >>= f) w).1 ≡ (m w).1)
    go (ok a) e = absurd (rw e at h)
    go (err x) e = (rw e tt, rw e refl)
    go panic e = (rw e tt, rw e refl)
    go out_of_fuel e = (rw e tt, rw e refl)

pub ok-injective : {A : Type 0} {a b : A} → ok a ≡ ok b → a ≡ b
ok-injective h = cc h

module _ {W A B : Type 0} where
  -- What comes before a result of an attempt.
  pub attempt-ok :
      (m : M W A) (f : A → M W B) (g : Error → M W B) (w : W) (b : B)
      → (attempt m f g w).0 ≡ ok b
      → ((a : A) × ((m w).0 ≡ ok a) × ((f a (m w).1).0 ≡ ok b))
        ⊎ ((x : Error) × ((m w).0 ≡ err x) × ((g x (m w).1).0 ≡ ok b))
  attempt-ok m f g w b h = go (m w).0 refl
    where
      go :
          (r : Outcome A)
          → (m w).0 ≡ r
          → ((a : A) × ((m w).0 ≡ ok a) × ((f a (m w).1).0 ≡ ok b))
            ⊎ ((x : Error) × ((m w).0 ≡ err x) × ((g x (m w).1).0 ≡ ok b))
      go (ok a) e = inl (a, e, rw e at h)
      go (err x) e = inr (x, e, rw e at h)
      go panic e = absurd (cc (rw e at h))
      go out_of_fuel e = absurd (cc (rw e at h))

module _ {W : Type 0} where
  -- A refusal that is passed.
  pub refuse_if-ok :
      (b : Bool) (e : Error) (w : W)
      → (refuse_if b e w).0 ≡ ok tt
      → (b ≡ false) × ((refuse_if b e w).1 ≡ w)
  refuse_if-ok true e w h = absurd (cc h)
  refuse_if-ok false e w h = (refl, refl)
