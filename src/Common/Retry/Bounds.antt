-- ===== src/Common/Retry/Bounds.antt =====
-- How often a retried request is made.
use pelagia.Prelude.{
  ℕ, zero, suc, ◌+◌, ◌≤◌, ◌≡◌, refl, ◌∙◌, inl, inr, arith, [], ◌∷◌, Bool, true, false, ltb,
}
use pelagia.Common.World.{Error, Result, ok, err, Log, sleep, M, Result-cases}
use pelagia.Common.Retry.{nil_error, attempts, run_with_retry, pause}

-- The requests of a log: all entries but the pauses.
abbrev pub count_requests : Log → ℕ
count_requests [] = 0
count_requests (sleep ∷ log) = count_requests log
count_requests (c ∷ log) = suc (count_requests log)

-- The outcome of `times` tries from a log with `made` requests.
abbrev pub Tried {ℓ} : {A : Type ℓ} → ℕ → ℕ → Result A → ℕ → Type 0
Tried times made (ok a) total = (suc made ≤ total) × (total ≤ made + times)
Tried times made (err e) total = total ≡ made + times

count_requests-pause : (b : Bool) (log : Log) → count_requests (pause b log).1 ≡ count_requests log
unfolding pause
count_requests-pause true log = refl
count_requests-pause false log = refl

module _ {ℓ} {A : Type ℓ} (run : M (Result A))
    (one : (log : Log) → count_requests (run log).1 ≡ suc (count_requests log)) where
  Tried-suc :
      (left made made' : ℕ) (r : Result A) (total : ℕ)
      → made' ≡ suc made
      → Tried left made' r total
      → Tried (suc left) made r total
  Tried-suc left made made' (ok a) total e h = omega arith
  Tried-suc left made made' (err e) total e' h = omega arith

  attempts-Tried :
      (left tries : ℕ) (last : Error) (log : Log)
      → Tried left
          (count_requests log)
          (attempts left tries last run log).0
          (count_requests (attempts left tries last run log).1)
  unfolding attempts
  attempts-Tried zero tries last log = omega arith
  attempts-Tried (suc left) tries last log = elim (Result-cases (run log).0) [
    | inl (a, e) ↦ rw (e, attempts) (omega (arith, one log))
    | inr (x, e) ↦
        rw (e, attempts)
          (let log'' = (pause (ltb zero left) (run log).1).1 in
            Tried-suc left _ (count_requests log'') _ _ (count_requests-pause _ _ ∙ one log)
              (attempts-Tried left (suc tries) x log''))
  ]

  -- For a request that adds one entry to the log, and any positive number of tries: a success takes
  -- between one try and all of them, and a failure means that all were made.
  pub run_with_retry-Tried :
      (more : ℕ) (log : Log)
      → Tried
          (suc more)
          (count_requests log)
          (run_with_retry more run log).0
          (count_requests (run_with_retry more run log).1)
  unfolding run_with_retry
  run_with_retry-Tried more log = attempts-Tried (suc more) 0 nil_error log

-- A try that succeeds is the last one.
pub run_with_retry-ok {ℓ} :
    {A : Type ℓ} (run : M (Result A)) (more : ℕ) (log : Log) (a : A)
    → (run log).0 ≡ ok a
    → run_with_retry more run log ≡ (ok a, (run log).1)
unfolding run_with_retry attempts
run_with_retry-ok run more log a e = rw (e, attempts)
