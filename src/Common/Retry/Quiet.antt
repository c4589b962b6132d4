-- ===== src/Common/Retry/Quiet.antt =====
-- Computations that make no requests of a kind, and the retries of them.
use pelagia.Prelude.{
  ℕ, zero, suc, ◌≡◌, refl, ◌∙◌, inl, inr, Bool, true, false, ltb, [], ◌∷◌, if◌then◌else◌,
}
use pelagia.Common.World.{Error, Result, Call, Log, sleep, M, ◌>>=◌, Result-cases}
use pelagia.Common.Retry.{nil_error, attempts, run_with_retry, pause}

-- The requests of a log that are of the kind.
abbrev pub count_calls : (Call → Bool) → Log → ℕ
count_calls kind [] = 0
count_calls kind (call ∷ log) =
    if kind call then suc (count_calls kind log) else count_calls kind log

module _ (kind : Call → Bool) where
  -- No request of the kind is made.
  abbrev pub Quiet {ℓ} : {A : Type ℓ} → M A → Type 0
  Quiet m = (log : Log) → count_calls kind (m log).1 ≡ count_calls kind log

  pub bind-Quiet {ℓ κ} :
      {A : Type ℓ} {B : Type κ} (m : M A) (f : A → M B)
      → Quiet m
      → ((a : A) → Quiet (f a))
      → Quiet (m >>= f)
  bind-Quiet m f q r log = r (m log).0 (m log).1 ∙ q log

  pub branch-Quiet {ℓ} :
      {A : Type ℓ} (b : Bool) (m n : M A) → Quiet m → Quiet n → Quiet (if b then m else n)
  branch-Quiet true m n x y = x
  branch-Quiet false m n x y = y

  module _ (sleeps : kind sleep ≡ false) where
    pause-Quiet : (b : Bool) → Quiet (pause b)
    unfolding pause
    pause-Quiet true log = rw sleeps refl
    pause-Quiet false log = refl

    -- A computation that makes none makes none when it is retried.
    module _ {ℓ} {A : Type ℓ} (run : M (Result A)) (quiet : Quiet run) where
      attempts-Quiet : (left tries : ℕ) (last : Error) → Quiet (attempts left tries last run)
      unfolding attempts
      attempts-Quiet zero tries last log = refl
      attempts-Quiet (suc left) tries last log = elim (Result-cases (run log).0) [
        | inl (a, e) ↦ rw (e, attempts) (quiet log)
        | inr (x, e) ↦
            rw (e, attempts)
              (attempts-Quiet left (suc tries) x (pause (ltb zero left) (run log).1).1
                ∙ pause-Quiet _ _
                ∙ quiet log)
      ]

      pub run_with_retry-Quiet : (more : ℕ) → Quiet (run_with_retry more run)
      unfolding run_with_retry
      run_with_retry-Quiet more log = attempts-Quiet (suc more) 0 nil_error log
