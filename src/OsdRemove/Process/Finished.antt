-- ===== src/OsdRemove/Process/Finished.antt =====
-- The loop over the removed OSDs: their cleanup jobs and their deployments.
use pelagia.Prelude.{
  ℕ, suc, String, Bool, true, false, not, ◌&&◌, ◌||◌, ◌++◌, Option, none, some, List, [], ◌∷◌,
  sprint, is_empty, if◌then◌else◌,
}
use pelagia.Task.{
  pending, waiting_rebalance, in_progress, completed, finished, failed, skipped, RemoveStatus,
  OsdMapping, HostMapping, TaskRemoveInfo, with_status, same_phase, remove_phase_text,
}
use pelagia.Common.World.{Env, M, ◌>>=◌, pure}
use pelagia.OsdRemove.Config.{TaskConfig}
use pelagia.OsdRemove.Steps.{remove_deployment}
use pelagia.OsdRemove.Jobs.Run.{job_of, job_is, result_of, handle_job_run}
use pelagia.OsdRemove.Process.Collect.{
  HostOsdPair, Requests, bucket, host_at, osd_of, update, set_job, set_deployment,
}

-- What the pass has computed so far: `newRemoveInfo`, `curIssues`, `notCompleted`, `requeueNow`.
pub record Pass : Type 0 where
  pub info : TaskRemoveInfo
  pub issues : List String
  pub not_completed : ℕ
  pub requeue_now : Bool

-- A `for` loop whose body makes requests.
unfoldable pub each {ℓ κ} : {A : Type ℓ} {S : Type κ} → (A → S → M S) → List A → S → M S
each body [] s log = (s, log)
each body (x ∷ xs) s log = let (s', log') = body x s log in each body xs s' log'

abbrev pub on_info : (TaskRemoveInfo → TaskRemoveInfo) → Pass → Pass
on_info f p = record p { info = f p.info }

abbrev pub one_more : Pass → Pass
one_more p = record p { not_completed = suc p.not_completed }

abbrev pub add_issue : String → Pass → Pass
add_issue text p = record p { issues = p.issues ++ text ∷ [] }

abbrev pub add_warning : String → TaskRemoveInfo → TaskRemoveInfo
add_warning text info = record info { warnings = info.warnings ++ text ∷ [] }

-- The job has not been run yet, or not come to its end.
unfoldable pub needs_job : Option RemoveStatus → Bool
needs_job none = true
needs_job (some s) = same_phase s.status in_progress || same_phase s.status pending

-- No job is run for the OSD.
unfoldable pub skips_job : HostMapping → OsdMapping → Option RemoveStatus → Bool
skips_job h m none =
    h.node_is_down
    || h.volumes_info_missed
    || h.drop_from_crush
    || is_empty m.device_mapping
    || m.skip_device_cleanup_job
skips_job h m (some _) = m.skip_device_cleanup_job

abbrev pub deployment_of : OsdMapping → Option RemoveStatus
deployment_of m = (result_of m).deploy_remove_status

-- `OsdRemoveStatus.Status == RemoveFinished`
abbrev pub is_finished : OsdMapping → Bool
is_finished m = job_is finished (result_of m).osd_remove_status

unfoldable pub node_text : HostOsdPair → List String → String
node_text pair parts = sprint ("[node '" ∷ pair.host ∷ "'] " ∷ parts)

module _ (env : Env) (c : TaskConfig) (reqs : Requests) (pair : HostOsdPair) where
  open pair use {host, osd_id}

  -- The deployment of an OSD is removed once its devices are dealt with.
  unfoldable pub deploy_turn : OsdMapping → Option RemoveStatus → Pass → M Pass
  deploy_turn m none p =
      if is_finished m && not m.skip_device_cleanup_job
      then (do
        s ← remove_deployment env osd_id
        pure (one_more (on_info (update pair (set_deployment s)) p)))
      else pure (on_info (update pair (set_deployment (with_status skipped))) p)
  deploy_turn m (some s) p = pure (
      if same_phase s.status failed
      then add_issue
          (node_text pair ("failed to remove deployment 'rook-ceph-osd-" ∷ osd_id ∷ "'" ∷ [])) p
      else p)

  -- The job still runs: the pass waits for it, unless an OSD can be taken out meanwhile.
  unfoldable pub job_waits : Pass → Pass
  job_waits p =
      let waits = is_empty (bucket waiting_rebalance reqs) && is_empty (bucket pending reqs) in
      record p {
        not_completed = suc p.not_completed;
        requeue_now = if waits then false else p.requeue_now;
      }

  -- A cleanup job came back with a status.
  unfoldable pub job_ran : OsdMapping → RemoveStatus → Pass → M Pass
  job_ran m s p =
      let p' = on_info (update pair (set_job s)) p in
      if same_phase s.status completed
      then deploy_turn m (deployment_of m) p'
      else pure (job_waits p')

  unfoldable pub job_failed : RemoveStatus → Pass → Pass
  job_failed s p =
      add_issue
        (node_text pair (
          "deployment 'rook-ceph-osd-" ∷ osd_id ∷ "' is not removed, because job '" ∷ s.name
          ∷ "' is failed" ∷ []))
        (add_issue
          (node_text pair (
            "disk cleanup job '" ∷ s.name ∷ "' has failed, clean up disk/partitions manually" ∷ []))
          p)

  -- A job status that no step writes.
  unfoldable pub job_unexpected : RemoveStatus → Pass → Pass
  job_unexpected s p =
      on_info
        (add_warning (
          sprint (
            "unexpected remove status '"
            ∷ remove_phase_text s.status
            ∷ "' for device cleanup job '"
            ∷ s.name
            ∷ "', deployment remove for osd '"
            ∷ osd_id
            ∷ "' on node '"
            ∷ host
            ∷ "' skipped"
            ∷ [])))
        p

  -- The job has come to its end in an earlier pass.
  unfoldable pub job_ended : OsdMapping → Option RemoveStatus → Pass → M Pass
  job_ended m none p = pure p
  job_ended m (some s) p =
      if same_phase s.status failed
      then pure (job_failed s p)
      else if same_phase s.status completed || same_phase s.status skipped
      then deploy_turn m (deployment_of m) p
      else pure (job_unexpected s p)

  -- The body of the loop.
  unfoldable pub finish_turn : HostMapping → OsdMapping → Pass → M Pass
  finish_turn h m p =
      let job = job_of m in
      if needs_job job
      then (if skips_job h m job
          then deploy_turn m (deployment_of m)
              (on_info (update pair (set_job (with_status skipped))) p)
          else (do s ← handle_job_run env c osd_id host h.osd_mapping; job_ran m s p))
      else job_ended m job p

  unfoldable pub finish_one : Pass → M Pass
  finish_one p = finish_turn (host_at host p.info) (osd_of pair p.info) p
