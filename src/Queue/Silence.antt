-- ===== src/Queue/Silence.antt =====
-- Calls that do nothing that the substrate sees, put together: what
-- v2/apiserver/internal/lib/queue/amqp/queue_writer_factory.go and v2/internal/retries/retries.go do
-- until a writer is open.
use brignext.Base.{
  ℕ, zero, suc, ◌≡◌, refl, ◌∙◌, Bool, true, false, Option, none, some, List, eqb, not,
  if◌then◌else◌,
}
use brignext.Errors.{Error, Outcome, ok, err, panic, out_of_fuel}
use brignext.Effect.{M, fail, attempt, ◌>>=◌}
use brignext.Retries.{Attempt, retry_loop, return_error, next_count}
use brignext.Core.Kubernetes.Substrate.Carries.{Entry, IsStill}

module _ {W : Type 0} (log : W → List Entry) where
  pub bind-IsStill :
      {A B : Type 0} (m : M W A) (f : A → M W B)
      → IsStill log m
      → ((a : A) → IsStill log (f a))
      → IsStill log (m >>= f)
  bind-IsStill {A} {B} m f hm hf w = go (m w).0 refl
    where
      go : (r : Outcome A) → (m w).0 ≡ r → log ((m >>= f) w).1 ≡ log w
      go (ok a) e = rw e (hf a (m w).1 ∙ hm w)
      go (err x) e = rw e (hm w)
      go panic e = rw e (hm w)
      go out_of_fuel e = rw e (hm w)

  pub attempt-IsStill :
      {A B : Type 0} (m : M W A) (f : A → M W B) (g : Error → M W B)
      → IsStill log m
      → ((a : A) → IsStill log (f a))
      → ((x : Error) → IsStill log (g x))
      → IsStill log (attempt m f g)
  attempt-IsStill {A} {B} m f g hm hf hg w = go (m w).0 refl
    where
      go : (r : Outcome A) → (m w).0 ≡ r → log (attempt m f g w).1 ≡ log w
      go (ok a) e = rw e (hf a (m w).1 ∙ hm w)
      go (err x) e = rw e (hg x (m w).1 ∙ hm w)
      go panic e = rw e (hm w)
      go out_of_fuel e = rw e (hm w)

  if-IsStill :
      {A : Type 0} (b : Bool) (m n : M W A)
      → IsStill log m
      → IsStill log n
      → IsStill log (if b then m else n)
  if-IsStill true m n hm hn = hm
  if-IsStill false m n hm hn = hn

  return_error-IsStill : (o : Option Error) → IsStill log (return_error o)
  unfolding return_error
  return_error-IsStill none w = refl
  return_error-IsStill (some e) w = refl

  delayed-IsStill :
      (done : Option Error) (again : M W (Unit {0}))
      → IsStill log again
      → IsStill log (elim done [ none ↦ again | some e ↦ fail e ])
  delayed-IsStill none again h = h
  delayed-IsStill (some e) again h = λ w. refl

  pub retry_loop-IsStill :
      (fn : M W Attempt) (wait : ℕ → M W (Option Error)) (fuel max_attempts failed : ℕ)
      → IsStill log fn
      → ((n : ℕ) → IsStill log (wait n))
      → IsStill log (retry_loop fn wait fuel max_attempts failed)
  unfolding retry_loop
  retry_loop-IsStill fn wait zero max_attempts failed hf hw = λ w. refl
  retry_loop-IsStill fn wait (suc fuel) max_attempts failed hf hw =
      let again = retry_loop-IsStill fn wait fuel max_attempts (next_count failed) hf hw in
      bind-IsStill fn _ hf λ a. if-IsStill (not a.retry) _ _ (return_error-IsStill a.error) (
        if-IsStill (eqb (next_count failed) max_attempts) _ _ (return_error-IsStill a.error) (
          bind-IsStill (wait (next_count failed)) _ (hw (next_count failed))
            λ done. delayed-IsStill done _ again))
