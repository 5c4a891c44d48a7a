-- ===== src/Effect.antt =====
-- The effects of a Go function: it reads and writes the world `W` (databases, cluster, clock),
-- and returns a value, returns an error or panics. What was written before an error or a panic
-- stays written. Of a pair `(value, err)` with `err != nil` no caller reads the value, and it is
-- not modelled.
pub mod Results
use brignext.Base.{Bool, true, false}
use brignext.Errors.{Error, Outcome, ok, err, panic, out_of_fuel}

abbrev pub M : Type 0 → Type 0 → Type 0
M W A = W → Outcome A × W

module _ {W A : Type 0} where
  abbrev pub pure : A → M W A
  pure a w = (ok a, w)

  -- return …, e
  abbrev pub fail : Error → M W A
  fail e w = (err e, w)

  -- a nil dereference, a failed type assertion, an index out of range
  abbrev pub crash : M W A
  crash w = (panic, w)

  -- where the fuel ends
  abbrev pub diverge : M W A
  diverge w = (out_of_fuel, w)

module _ {W A B : Type 0} where
  abbrev pub continue : Outcome A → (A → M W B) → M W B
  continue (ok a) f w = f a w
  continue (err e) f w = (err e, w)
  continue panic f w = (panic, w)
  continue out_of_fuel f w = (out_of_fuel, w)

  infixl 10 ◌>>=◌ ◌>>◌
  -- a, err := m; if err != nil { return err }; …
  abbrev pub ◌>>=◌ : M W A → (A → M W B) → M W B
  ◌>>=◌ m f w = continue (m w).0 f (m w).1

  abbrev pub ◌>>◌ : M W A → M W B → M W B
  m >> n = m >>= λ _. n

  abbrev pub settle : Outcome A → (A → M W B) → (Error → M W B) → M W B
  settle (ok a) f g w = f a w
  settle (err e) f g w = g e w
  settle panic f g w = (panic, w)
  settle out_of_fuel f g w = (out_of_fuel, w)

  -- a, err := m; … with both branches of `err != nil` written out
  abbrev pub attempt : M W A → (A → M W B) → (Error → M W B) → M W B
  attempt m f g w = settle (m w).0 f g (m w).1

-- if test { return e }
abbrev pub refuse_if : {W : Type 0} → Bool → Error → M W (Unit {0})
refuse_if true e w = (err e, w)
refuse_if false e w = (ok tt, w)

-- What a call that starts a goroutine returns, with the goroutine's actions, which run at any time
-- after it.
pub record Spawned (W A : Type 0) : Type 0 where
  pub result : A
  pub background : M W (Unit {0})
