-- ===== src/OsdRemove/Rebalance.antt =====
-- executor.go and utils.go: taking an OSD out and waiting for its placement groups.
pub mod Waiting
pub mod Timeout
use pelagia.Prelude.{
  ℕ, zero, suc, ◌+◌, String, Bool, true, false, Option, none, some, [], ◌∷◌, sprint, has_text, ltb,
  nat_eq, ◌==◌, if◌then◌else◌,
}
use pelagia.Prelude.Numbers.{has_time_left}
use pelagia.Task.{
  RemovePhase, pending, waiting_rebalance, in_progress, failed, RemoveStatus, with_status,
}
use pelagia.Common.Objects.{OsdInfo}
use pelagia.Common.World.{
  Error, Result, ok, err, map_ok, Env, M, ◌>>=◌, pure, run_ceph, run_and_parse, now,
  current_time_string,
}
use pelagia.Common.Retry.{run_with_retry}
use pelagia.OsdRemove.Config.{LcmConfig}
use pelagia.OsdRemove.Steps.{further_tries, failed_with, retry_ceph}

-- `pgStats != nil && len(pgStats) > 0`
abbrev pub has_pgs : Option ℕ → Bool
has_pgs none = false
has_pgs (some n) = ltb 0 n

module _ (env : Env) (config : LcmConfig) where
  open config use {osd_pg_rebalance_timeout as timeout}

  -- `getOsdInfo`
  unfoldable pub get_osd_info : String → M (Result OsdInfo)
  get_osd_info id =
      run_and_parse env env.unmarshal_osd_info
        (sprint ("ceph osd info " ∷ id ∷ " --format json" ∷ []))

  -- An OSD that is not up has no placement groups.
  unfoldable pub pgs_present : String → Result (Option ℕ) → Result Bool
  pgs_present id (ok pgs) = ok (has_pgs pgs)
  pgs_present id (err e) =
      if has_text e.text (sprint ("osd " ∷ id ∷ " is not up" ∷ [])) then ok false else err e

  -- `checkPgsForOsd`
  unfoldable pub check_pgs_for_osd : String → M (Result Bool)
  check_pgs_for_osd id = do
    r ←
        run_and_parse env env.unmarshal_pgs
          (sprint ("ceph pg ls-by-osd " ∷ id ∷ " --format json" ∷ []))
    pure (pgs_present id r)

  -- The timeout message of `checkRebalance`.
  unfoldable pub rebalance_timeout_text : String
  rebalance_timeout_text =
      sprint ("timeout (" ∷ env.show_duration timeout ∷ ") reached for waiting pg rebalance" ∷ [])

  unfoldable pub still_rebalancing : RemoveStatus → Result ℕ → M RemoveStatus
  still_rebalancing s (err e) = pure s
  still_rebalancing s (ok start) = do
    t ← now env
    pure (if has_time_left t start timeout then s else failed_with s rebalance_timeout_text)

  unfoldable pub rebalance_checked : RemoveStatus → Result Bool → M RemoveStatus
  rebalance_checked s (err e) = pure (failed_with s e.text)
  rebalance_checked s (ok true) = still_rebalancing s (env.parse_time s.started_at)
  rebalance_checked s (ok false) = pure (record s { status = in_progress })

  -- `checkRebalance`
  unfoldable pub check_rebalance : String → RemoveStatus → M RemoveStatus
  check_rebalance id s = do
    r ← run_with_retry further_tries (check_pgs_for_osd id)
    rebalance_checked s r

  -- `status.StartedAt = GetCurrentTimeString()` at the end of `tryToMoveOsdOut`.
  unfoldable pub started : RemovePhase → M RemoveStatus
  started phase = do
    t ← current_time_string env
    pure (record (with_status phase) { started_at = t })

  unfoldable pub reweighted : RemovePhase → Result String → M RemoveStatus
  reweighted phase (ok _) = started phase
  reweighted phase (err e) = pure (failed_with (with_status phase) e.text)

  unfoldable pub reweight : String → RemovePhase → M RemoveStatus
  reweight id phase = do
    r ← retry_ceph env (sprint ("ceph osd crush reweight osd." ∷ id ∷ " 0.0" ∷ []))
    reweighted phase r

  unfoldable pub stop_timeout_text : String → String
  stop_timeout_text id = sprint (
      "timeout ("
      ∷ env.show_duration timeout
      ∷ ") reached for waiting ok-to-stop on osd '"
      ∷ id
      ∷ "'"
      ∷ [])

  -- `ok-to-stop` was refused and a wait had begun before. The source sets no new start time here.
  unfoldable pub wait_again : String → RemoveStatus → Result ℕ → M RemoveStatus
  wait_again id s (err e) = pure s
  wait_again id s (ok start) = do
    t ← now env
    pure (
        if has_time_left t start timeout
        then with_status pending
        else failed_with (with_status waiting_rebalance) (stop_timeout_text id))

  -- `ok-to-stop` was refused for the first time.
  unfoldable pub begin_wait : String → M RemoveStatus
  begin_wait id =
      if has_time_left 0 0 timeout
      then started pending
      else pure (failed_with (with_status waiting_rebalance) (stop_timeout_text id))

  unfoldable pub stop_answered : String → RemoveStatus → Result String → M RemoveStatus
  stop_answered id s (ok _) = reweight id waiting_rebalance
  stop_answered id s (err e) =
      if s.started_at == "" then begin_wait id else wait_again id s (env.parse_time s.started_at)

  unfoldable pub move_out : String → RemoveStatus → Result OsdInfo → M RemoveStatus
  move_out id s (err e) = pure (failed_with (with_status failed) e.text)
  move_out id s (ok info) =
      if nat_eq info.in_cluster 1
      then (if nat_eq info.up 1
          then (do
            r ← run_ceph env (sprint ("ceph osd ok-to-stop " ∷ id ∷ []))
            stop_answered id s r)
          else reweight id in_progress)
      else if nat_eq info.up 1
      then started waiting_rebalance
      else started in_progress

  -- `tryToMoveOsdOut`; its only caller passes a status that is there.
  unfoldable pub try_to_move_osd_out : String → RemoveStatus → M RemoveStatus
  try_to_move_osd_out id s = do r ← run_with_retry further_tries (get_osd_info id); move_out id s r
