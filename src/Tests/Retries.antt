-- ===== src/Tests/Retries.antt =====
-- A function that fails twice before it succeeds.
use brignext.Base.{
  ℕ, ◌+◌, ◌<◌, ◌≤◌, ◌≡◌, ◌≢◌, refl, true, Option, none, some, inl, ltb, arith, if◌then◌else◌,
}
use brignext.Errors.{Error, other, ok, out_of_fuel}
use brignext.Effect.{M}
use brignext.Retries.{Attempt, manage_retries}
use brignext.Retries.Attempts.{
  RetryLaws, ScriptLaws, limit, manage_retries_lem, manage_retries-IsLast,
}

abbrev answers : ℕ → Attempt
answers n = record { retry = ltb n 2; error = if ltb n 2 then some (other "dial") else none }

abbrev counted : M ℕ Attempt
counted n = (ok (answers n), n + 1)

abbrev delay : ℕ → M ℕ (Option Error)
delay k n = (ok none, n)

abbrev calls : ℕ → ℕ
calls n = n

counted-RetryLaws : RetryLaws counted delay calls
counted-RetryLaws = record {
  fn_law = λ w. ((answers w, refl), refl);
  wait_law = λ k. λ w. ((none, refl), refl);
}

counted-ScriptLaws : ScriptLaws counted delay calls answers
counted-ScriptLaws = record { fn_law = λ w. (refl, refl); wait_law = λ k. λ w. (refl, refl) }

manage_retries_example :
    ((manage_retries counted delay 10 0).0 ≢ out_of_fuel)
    × (0 < (manage_retries counted delay 10 0).1)
    × ((manage_retries counted delay 10 0).1 ≤ 0 + limit 10)
manage_retries_example = manage_retries_lem counted delay calls counted-RetryLaws 10 0 (omega arith)

early : (i : ℕ) → i < 2 → (answers (0 + i)).retry ≡ true
early i h = ground arith

within : 2 < limit 10
unfolding limit
within = omega arith

third_attempt_example :
    ((manage_retries counted delay 10 0).0 ≡ ok tt) × ((manage_retries counted delay 10 0).1 ≡ 3)
third_attempt_example =
    manage_retries-IsLast counted delay calls answers counted-ScriptLaws 10 2 0 (omega arith) within
      early (inl refl)
