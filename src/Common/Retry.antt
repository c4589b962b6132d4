-- ===== src/Common/Retry.antt =====
-- `RunFuncWithRetry` of pkg/common/general_utils.go.
pub mod Bounds
pub mod Quiet
use pelagia.Prelude.{ℕ, zero, suc, String, Bool, true, false, ltb, [], ◌∷◌, sprint, show_nat}
use pelagia.Common.World.{Error, Result, ok, err, sleep, M}

-- `errors.Wrapf(err, …)`
unfoldable pub wrap : Error → String → Error
unfolding sprint
wrap e message = record e { text = sprint (message ∷ ": " ∷ e.text ∷ []) }

unfoldable pub exceeded : ℕ → ℕ → String
unfolding sprint show_nat
exceeded tries times =
    sprint ("Retries (" ∷ show_nat tries ∷ "/" ∷ show_nat times ∷ ") exceeded" ∷ [])

-- `time.Sleep`
unfoldable pub pause : Bool → M (Unit {0})
pause true log = (tt, sleep ∷ log)
pause false log = (tt, log)

-- The error before the first try.
abbrev pub nil_error : Error
nil_error = record { text = ""; not_found = false; no_match = false }

module _ {ℓ} {A : Type ℓ} where
  -- The loop, with `left` rounds to go after `tries` failures, the last with `last`.
  unfoldable pub attempts : ℕ → ℕ → Error → M (Result A) → M (Result A)
  unfolding wrap exceeded
  attempts zero tries last run log = (err (wrap last (exceeded tries tries)), log)
  attempts (suc left) tries last run log =
      let (output, log') = run log in
      elim output [
        | ok a ↦ (ok a, log')
        | err e ↦
            let (_, log'') = pause (ltb zero left) log' in attempts left (suc tries) e run log''
      ]

  -- `RunFuncWithRetry` with a positive number of tries, one and `more`: all of its callers have a
  -- positive constant there. With none at all, the source returns a nil output without an error.
  unfoldable pub run_with_retry : ℕ → M (Result A) → M (Result A)
  unfolding attempts
  run_with_retry more run = attempts (suc more) 0 nil_error run
