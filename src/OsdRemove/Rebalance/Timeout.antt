-- ===== src/OsdRemove/Rebalance/Timeout.antt =====
-- `checkRebalance` of executor.go: how long an OSD waits for its placement groups.
use pelagia.Prelude.{
  Bool-cases, inl, inr, ◌⊎◌, ◌≡◌, refl, sym, ap, ◌∙◌, ℕ, String, Bool, true, false, false≢true,
  arith,
}
use pelagia.Prelude.Numbers.{has_time_left}
use pelagia.Task.{waiting_rebalance, in_progress, failed, RemoveStatus}
use pelagia.Common.World.{Env, Log, Result, ok, Result-cases, now}
use pelagia.Common.Retry.{run_with_retry}
use pelagia.OsdRemove.Config.{LcmConfig}
use pelagia.OsdRemove.Steps.{further_tries}
use pelagia.OsdRemove.Rebalance.{
  check_pgs_for_osd, check_rebalance, rebalance_checked, still_rebalancing,
}

module _ (env : Env) (config : LcmConfig) (id : String) where
  -- The answer of the retried question whether the OSD has placement groups.
  abbrev pub pgs_answer : Log → Result Bool × Log
  pgs_answer log = run_with_retry further_tries (check_pgs_for_osd env config id) log

  -- The status of an OSD after checks that have left it waiting, with any requests of others between
  -- them.
  pub data Waited (s : RemoveStatus) : RemoveStatus → Type 0 where
    start : Waited s s
    again :
        {t : RemoveStatus} (log : Log)
        → Waited s t
        → t.status ≡ waiting_rebalance
        → Waited s (check_rebalance env config id t log).0

  -- The placement groups have moved, or the removal has failed.
  abbrev pub IsOver : RemoveStatus → Type 0
  IsOver r = (r.status ≡ in_progress) ⊎ (r.status ≡ failed)

  -- A check keeps the status, which needs time left if the start time is readable, or ends the wait.
  abbrev KeepsOrEnds : RemoveStatus → ℕ → RemoveStatus → Type 0
  KeepsOrEnds s time r =
      ((r ≡ s)
        × ((begun : ℕ)
            → env.parse_time s.started_at ≡ ok begun
            → has_time_left time begun config.osd_pg_rebalance_timeout ≡ true))
      ⊎ IsOver r

  still_rebalancing-KeepsOrEnds :
      (s : RemoveStatus) (log : Log)
      → KeepsOrEnds s
          (env.clock log)
          (still_rebalancing env config s (env.parse_time s.started_at) log).0
  unfolding still_rebalancing now
  still_rebalancing-KeepsOrEnds s log = elim (Result-cases (env.parse_time s.started_at)) [
    | inl (begun, e) ↦
        elim (Bool-cases (has_time_left (env.clock log) begun config.osd_pg_rebalance_timeout)) [
          | inl early ↦ rw (e, early) (inl (refl, λ other same. ground (arith, early, same)))
          | inr late ↦ rw (e, late) (inr (inr refl))
        ]
    | inr (x, e) ↦ rw e (inl (refl, λ other same. ground (arith, same)))
  ]

  check_rebalance-KeepsOrEnds :
      (s : RemoveStatus) (log : Log)
      → KeepsOrEnds s (env.clock (pgs_answer log).1) (check_rebalance env config id s log).0
  unfolding check_rebalance rebalance_checked
  check_rebalance-KeepsOrEnds s log = elim (Result-cases (pgs_answer log).0) [
    | inl (true, e) ↦ rw e (still_rebalancing-KeepsOrEnds s (pgs_answer log).1)
    | inl (false, e) ↦ rw e (inr (inl refl))
    | inr (x, e) ↦ rw e (inr (inr refl))
  ]

  not-IsOver : (r : RemoveStatus) → r.status ≡ waiting_rebalance → IsOver r → ⊥
  not-IsOver r e (inl moved) = ground (arith, e, moved)
  not-IsOver r e (inr broken) = ground (arith, e, broken)

  -- As long as the OSD waits, its status is the first one, with the same start time.
  Waited-same : {s t : RemoveStatus} → Waited s t → t.status ≡ waiting_rebalance → t ≡ s
  Waited-same start e = refl
  Waited-same (again {t} log w e) still = elim (check_rebalance-KeepsOrEnds t log) [
    | inl (kept, _) ↦ kept ∙ Waited-same w e
    | inr over ↦ absurd (not-IsOver (check_rebalance env config id t log).0 still over)
  ]

  -- However often an OSD with a readable start time has been checked while it waits for its
  -- placement groups, whatever the answers are, a check whose query ends at the timeout or later
  -- ends the wait: the OSD goes on to its removal or has failed.
  pub check_rebalance-bounded :
      (s : RemoveStatus) (begun : ℕ)
      → env.parse_time s.started_at ≡ ok begun
      → (t : RemoveStatus) → Waited s t
      → t.status ≡ waiting_rebalance
      → (log : Log)
      → has_time_left (env.clock (pgs_answer log).1) begun config.osd_pg_rebalance_timeout ≡ false
      → IsOver (check_rebalance env config id t log).0
  check_rebalance-bounded s begun parses t w waiting log late =
      elim (check_rebalance-KeepsOrEnds t log) [
        | inl (_, in_time) ↦ absurd (
            false≢true (
              sym late
              ∙ in_time begun
                  (ap (λ r. env.parse_time r.started_at) (Waited-same w waiting) ∙ parses)))
        | inr over ↦ over
      ]
