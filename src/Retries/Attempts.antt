-- ===== src/Retries/Attempts.antt =====
-- How often `ManageRetries` of v2/internal/retries/retries.go calls its function, and what it
-- returns.
use brignext.Base.{
  ℕ, zero, suc, ◌+◌, ◌-◌, ◌%◌, ◌≤◌, ◌<◌, ◌≡◌, ◌≢◌, subst, ◌⊎◌, inl, inr, refl, true, false, Option,
  none, some, eqb, arith, Bool-cases, Option-cases, if◌then◌else◌,
}
use brignext.Errors.{Error, Outcome, ok, err, out_of_fuel}
use brignext.Effect.{M}
use brignext.Retries.{Attempt, next_count, return_error, retry_loop, manage_retries}

-- 0 is met when the counter has gone round.
unfoldable pub limit : ℕ → ℕ
limit max_attempts = if eqb max_attempts 0 then 256 else max_attempts

-- The attempts that are left.
unfoldable pub left : ℕ → ℕ → ℕ
left max_attempts failed = (max_attempts + 255 - failed) % 256 + 1

pub left-limit : (m : ℕ) → m < 256 → left m 0 ≡ limit m
unfolding left limit
left-limit m h = ground arith

pub left-next :
    (m failed : ℕ)
    → m < 256
    → failed < 256
    → eqb (next_count failed) m ≡ false
    → (left m failed ≡ suc (left m (next_count failed))) × (next_count failed < 256)
unfolding left next_count
left-next m failed h k n = ground arith

pub no_fuel : (m failed : ℕ) → left m failed ≤ 0 → ⊥
unfolding left
no_fuel m failed h = omega arith

pub left-le : (m failed : ℕ) → left m failed ≤ 256
unfolding left
left-le m failed = omega arith

left-pos : (m failed : ℕ) → 1 ≤ left m failed
unfolding left
left-pos m failed = omega arith

-- The last attempt.
left-last :
    (m failed : ℕ) → m < 256 → failed < 256 → eqb (next_count failed) m ≡ true → left m failed ≡ 1
unfolding left next_count
left-last m failed h k e = ground arith

not_last :
    (m failed : ℕ)
    → m < 256
    → failed < 256
    → eqb (next_count failed) m ≡ false
    → left m failed ≡ 1
    → ⊥
not_last m failed h k e one =
    let (next, small) = left-next m failed h k e in
    let more = left-pos m (next_count failed) in omega arith

-- A call of the function answers, and is counted; so does a wait, and it is not counted.
pub record RetryLaws {W : Type 0} (fn : M W Attempt) (wait : ℕ → M W (Option Error)) (calls : W → ℕ)
    : Type 0 where
  pub fn_law : (w : W) → ((a : Attempt) × ((fn w).0 ≡ ok a)) × (calls (fn w).1 ≡ calls w + 1)
  pub wait_law :
      (n : ℕ) (w : W)
      → ((o : Option Error) × ((wait n w).0 ≡ ok o)) × (calls (wait n w).1 ≡ calls w)

return_error-end : {W : Type 0} (o : Option Error) (w : W) → (return_error o w).0 ≢ out_of_fuel
unfolding return_error
return_error-end none w p = absurd (cc p)
return_error-end (some e) w p = absurd (cc p)

pub return_error-world : {W : Type 0} (o : Option Error) (w : W) → (return_error o w).1 ≡ w
unfolding return_error
return_error-world none w = refl
return_error-world (some e) w = refl

module _ {W : Type 0} (fn : M W Attempt) (wait : ℕ → M W (Option Error)) (calls : W → ℕ)
    (laws : RetryLaws fn wait calls) where
  -- The run `m` from `w` ends, after one call more than `n` and at most `l` more.
  abbrev IsBounded : M W (Unit {0}) → W → ℕ → ℕ → Type 0
  IsBounded m w n l = ((m w).0 ≢ out_of_fuel) × (n < calls (m w).1) × (calls (m w).1 ≤ n + l)

  return_error-IsBounded :
      (o : Option Error) (w : W) (n l : ℕ)
      → calls w ≡ n + 1
      → 1 ≤ l
      → IsBounded (return_error o) w n l
  return_error-IsBounded o w n l c h = (
    return_error-end o w,
    rw (return_error-world o w, c) (omega arith),
    rw (return_error-world o w, c) (omega arith),
  )

  retry_loop_lem :
      (fuel m failed : ℕ) (w : W)
      → m < 256
      → failed < 256
      → left m failed ≤ fuel
      → IsBounded (retry_loop fn wait fuel m failed) w (calls w) (left m failed)
  unfolding retry_loop
  retry_loop_lem zero m failed w h k f = absurd (no_fuel m failed f)
  retry_loop_lem (suc fuel) m failed w h k f =
      let ((a, got), count) = laws.fn_law w in
      let w₁ = (fn w).1 in
      let stop =
        return_error-IsBounded a.error w₁ (calls w) (left m failed) count (left-pos m failed) in
      elim (Bool-cases a.retry) [
        | inr n ↦ rw (got, n) stop
        | inl y ↦ elim (Bool-cases (eqb (next_count failed) m)) [
          | inl e ↦ rw (got, y, e) stop
          | inr e ↦
              let (next, small) = left-next m failed h k e in
              let ((o, done), same) = laws.wait_law (next_count failed) w₁ in
              let w₂ = (wait (next_count failed) w₁).1 in
              elim (Option-cases o) [
                | inr (x, d) ↦
                    rw (got, y, e, done, d) (λ p. absurd (cc p), omega arith, omega arith)
                | inl d ↦
                    let (ends, more, most) =
                      retry_loop_lem fuel m (next_count failed) w₂ h small (omega arith) in
                    rw (got, y, e, done, d) (ends, omega arith, omega arith)
              ]
        ]
      ]

  -- `ManageRetries`, for each maximum that a `uint8` holds: it ends within the fuel of the model,
  -- and calls its function at least once and at most as often as the maximum says, or 256 times
  -- where that is 0.
  pub manage_retries_lem :
      (m : ℕ) (w : W)
      → m < 256
      → ((manage_retries fn wait m w).0 ≢ out_of_fuel)
        × (calls w < calls (manage_retries fn wait m w).1)
        × (calls (manage_retries fn wait m w).1 ≤ calls w + limit m)
  unfolding manage_retries
  manage_retries_lem m w h =
      rw (← left-limit m h) (retry_loop_lem 256 m 0 w h (omega arith) (left-le m 0))

-- What `err` is to the caller.
abbrev pub outcome_of : Option Error → Outcome (Unit {0})
outcome_of none = ok tt
outcome_of (some e) = err e

-- The function answers by the number of calls before it, and every delay passes.
pub record ScriptLaws {W : Type 0} (fn : M W Attempt) (wait : ℕ → M W (Option Error))
    (calls : W → ℕ) (answers : ℕ → Attempt) : Type 0 where
  pub fn_law : (w : W) → ((fn w).0 ≡ ok (answers (calls w))) × (calls (fn w).1 ≡ calls w + 1)
  pub wait_law : (n : ℕ) (w : W) → ((wait n w).0 ≡ ok none) × (calls (wait n w).1 ≡ calls w)

return_error-outcome : {W : Type 0} (o : Option Error) (w : W) → (return_error o w).0 ≡ outcome_of o
unfolding return_error
return_error-outcome none w = refl
return_error-outcome (some e) w = refl

module _ {W : Type 0} (fn : M W Attempt) (wait : ℕ → M W (Option Error)) (calls : W → ℕ)
    (answers : ℕ → Attempt) (laws : ScriptLaws fn wait calls answers) where
  -- The run `m` answers with the error of the attempt `n`, which is the last one.
  abbrev IsLast : M W (Unit {0}) → W → ℕ → Type 0
  IsLast m w n = ((m w).0 ≡ outcome_of (answers n).error) × (calls (m w).1 ≡ n + 1)

  return_error-IsLast :
      (w : W) (n : ℕ) → calls w ≡ n + 1 → IsLast (return_error (answers n).error) w n
  return_error-IsLast w n c =
      (return_error-outcome (answers n).error w, rw (return_error-world (answers n).error w) c)

  retry_loop-IsLast :
      (fuel m failed k n : ℕ) (w : W)
      → m < 256
      → failed < 256
      → left m failed ≤ fuel
      → n ≡ calls w + k
      → k < left m failed
      → ((i : ℕ) → calls w ≤ i → i < n → (answers i).retry ≡ true)
      → ((answers n).retry ≡ false) ⊎ (k + 1 ≡ left m failed)
      → IsLast (retry_loop fn wait fuel m failed) w n
  unfolding retry_loop
  retry_loop-IsLast zero m failed k n w h s f eq l before last = absurd (no_fuel m failed f)
  retry_loop-IsLast (suc fuel) m failed zero n w h s f eq l before last =
      let (got, count) = laws.fn_law w in
      let here : calls w ≡ n = omega arith in
      let stop = return_error-IsLast (fn w).1 n (rw (count, here)) in
      elim (Bool-cases (answers n).retry) [
        | inr e ↦ rw (got, here, e) stop
        | inl y ↦ elim (Bool-cases (eqb (next_count failed) m)) [
          | inl e ↦ rw (got, here, y, e) stop
          | inr e ↦
              absurd
                (elim last [ inl q ↦ cc (y, q) | inr q ↦ not_last m failed h s e (omega arith) ])
        ]
      ]
  retry_loop-IsLast (suc fuel) m failed (suc k) n w h s f eq l before last =
      let (got, count) = laws.fn_law w in
      let w₁ = (fn w).1 in
      let y = before (calls w) (omega arith) (omega arith) in
      elim (Bool-cases (eqb (next_count failed) m)) [
        | inl e ↦ absurd (let one = left-last m failed h s e in omega arith)
        | inr e ↦
            let (next, small) = left-next m failed h s e in
            let (done, same) = laws.wait_law (next_count failed) w₁ in
            let w₂ = (wait (next_count failed) w₁).1 in
            let after : calls w₂ ≡ calls w + 1 = omega arith in
            rw (got, y, e, done)
              (retry_loop-IsLast fuel m (next_count failed) k n w₂ h small (omega arith)
                (omega arith) (omega arith) (λ i. λ a. λ b. before i (omega arith) b)
                (elim last [ inl q ↦ inl q | inr q ↦ inr (omega arith) ]))
      ]

  -- `ManageRetries`, where every delay passes: the attempts are made one after another up to the
  -- first that asks for no more, or up to the maximum (256 for 0), no earlier and no later, and
  -- the error of that attempt is the result.
  pub manage_retries-IsLast :
      (m k : ℕ) (w : W)
      → m < 256
      → k < limit m
      → ((i : ℕ) → i < k → (answers (calls w + i)).retry ≡ true)
      → ((answers (calls w + k)).retry ≡ false) ⊎ (k + 1 ≡ limit m)
      → ((manage_retries fn wait m w).0 ≡ outcome_of (answers (calls w + k)).error)
        × (calls (manage_retries fn wait m w).1 ≡ calls w + k + 1)
  unfolding manage_retries
  manage_retries-IsLast m k w h l before last =
      let eq = left-limit m h in
      retry_loop-IsLast 256 m 0 k (calls w + k) w h (omega arith) (left-le m 0) refl (omega arith)
        (λ i. λ a. λ b.
          subst (λ j. (answers j).retry ≡ true) (omega arith) (before (i - calls w) (omega arith)))
        (elim last [ inl q ↦ inl q | inr q ↦ inr (omega arith) ])
