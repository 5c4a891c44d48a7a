-- ===== src/Retries.antt =====
-- v2/internal/retries/retries.go: `ManageRetries`, which calls a function until it asks for no
-- more, or the attempts are used up, or the context is done.
pub mod Attempts
use brignext.Base.{ℕ, zero, suc, ◌+◌, ◌%◌, Bool, not, Option, none, some, eqb, if◌then◌else◌}
use brignext.Errors.{Error}
use brignext.Effect.{M, pure, fail, diverge, ◌>>=◌}

-- What the function under retry answers: the pair `(bool, error)`.
pub record Attempt : Type 0 where
  pub retry : Bool
  pub error : Option Error

-- The counter is a `uint8`.
unfoldable pub next_count : ℕ → ℕ
next_count failed_attempts = (failed_attempts + 1) % 256

module _ {W : Type 0} where
  -- return err; `errors.Wrapf` of nil is nil.
  unfoldable pub return_error : Option Error → M W (Unit {0})
  return_error none = pure tt
  return_error (some e) = fail e

module _ {W : Type 0} (fn : M W Attempt) (wait : ℕ → M W (Option Error)) where
  -- The loop, on fuel. `wait` is the `select` on the delay, whose length is a random number of
  -- `jitteredExpBackoff`, and the context: `none` where the delay passed, the context's error where
  -- that is done.
  unfoldable pub retry_loop : ℕ → ℕ → ℕ → M W (Unit {0})
  unfolding return_error next_count
  retry_loop zero max_attempts failed_attempts = diverge
  retry_loop (suc fuel) max_attempts failed_attempts =
      let again = retry_loop fuel max_attempts (next_count failed_attempts) in
      do
        attempt ← fn
        if not attempt.retry
            then return_error attempt.error
            else (if eqb (next_count failed_attempts) max_attempts
                then return_error attempt.error
                else (wait (next_count failed_attempts) >>= λ done. elim done [
                  | none ↦ again
                  | some e ↦ fail e
                ]))

  -- Every count of a `uint8` is passed at most once.
  unfoldable pub manage_retries : ℕ → M W (Unit {0})
  manage_retries max_attempts = retry_loop 256 max_attempts 0
