-- ===== src/OsdRemove/Samples/Steps.antt =====
-- Runs of single steps.
use pelagia.Common.World.{run_and_parse, now, sleep, Log, Env}
use pelagia.OsdRemove.Rebalance.{
  check_rebalance, rebalance_checked, still_rebalancing, check_pgs_for_osd, pgs_present,
}
use pelagia.OsdRemove.Rebalance.Timeout.{IsOver, start, again, check_rebalance-bounded}
use pelagia.Task.{waiting_rebalance}
use pelagia.Prelude.{ℕ, some, none, lookup, ◌≡◌, refl, false, not, ◌&&◌, [], ◌∷◌, any, All, Assoc}
use pelagia.Task.{
  TaskPhase, RemovePhase, pending, in_progress, failed, RemoveStatus, with_status, OsdMapping,
}
use pelagia.Common.World.{Error, ok, err, ceph, run_ceph, scale_deployment}
use pelagia.Common.Retry.{run_with_retry, attempts, pause, wrap, exceeded}
use pelagia.Common.Retry.Bounds.{Tried, count_requests, run_with_retry-Tried}
use pelagia.OsdRemove.Steps.{scale_down, remove_from_crush}
use pelagia.OsdRemove.Steps.Order.{count_commands, remove_from_crush-not_scaled}
use pelagia.OsdRemove.Config.{plain_osd_id}
use pelagia.OsdRemove.Rebalance.{stop_answered, move_out}
use pelagia.OsdRemove.Rebalance.Waiting.{
  IsLeft, stop_command, move_out-IsLeft, stop_answered-restarts,
}
use pelagia.OsdRemove.Jobs.Build.{cleanup_job}
use pelagia.OsdRemove.Jobs.Run.{get_job_data, osd_at}
use pelagia.OsdRemove.Jobs.Sharing.{zaps, uses_disk, get_job_data-shared}
use pelagia.OsdRemove.Jobs.Run.{handle_job_run}
use pelagia.OsdRemove.Jobs.Parallel.{handle_job_run-delayed}
use pelagia.Task.{finished}
use pelagia.OsdRemove.Jobs.Zapping.{wipes_disk, cleanup_job-spares}
use pelagia.OsdRemove.Samples.{
  osd_with, env, refusing_env, refusal, lcm_config, osd_in, config_in, status_in,
}

run_with_retry-Tried_example :
    Tried 5 0
      (run_with_retry 4 (run_ceph refusing_env "ceph osd ls") []).0
      (count_requests (run_with_retry 4 (run_ceph refusing_env "ceph osd ls") []).1)
unfolding run_ceph
run_with_retry-Tried_example =
    run_with_retry-Tried (run_ceph refusing_env "ceph osd ls") (λ log. refl) 4 []

-- The error after all tries to scale a deployment down.
abbrev scale_error : Error
scale_error = wrap refusal (exceeded 5 5)

remove_from_crush-not_scaled_example :
    ((remove_from_crush refusing_env "3" (with_status in_progress) []).0.status ≡ failed)
    × ((remove_from_crush refusing_env "3" (with_status in_progress) []).0.error ≡ scale_error.text)
    × (count_commands (remove_from_crush refusing_env "3" (with_status in_progress) []).1 ≡ 0)
unfolding scale_down run_with_retry attempts scale_deployment pause plain_osd_id
remove_from_crush-not_scaled_example =
    remove_from_crush-not_scaled refusing_env "3" (with_status in_progress) scale_error [] refl

-- An OSD whose wait for `ok-to-stop` has begun.
abbrev waiting_osd : RemoveStatus
waiting_osd = record (with_status pending) { started_at = "t" }

move_out-IsLeft_example :
    IsLeft refusing_env lcm_config waiting_osd
      (ceph (stop_command refusing_env lcm_config "3") ∷ [])
      (move_out refusing_env lcm_config "3" waiting_osd
        (ok (record { osd_id = 3; uuid = "u"; up = 1; in_cluster = 1 }))
        [])
move_out-IsLeft_example =
    move_out-IsLeft refusing_env lcm_config "3" waiting_osd
      (record { osd_id = 3; uuid = "u"; up = 1; in_cluster = 1 }) refusal [] refl refl refl

stop_answered-restarts_example :
    ((stop_answered refusing_env lcm_config "3" waiting_osd (err refusal) []).0
      ≡ with_status pending)
    × ((stop_answered refusing_env lcm_config "3" (with_status pending) (err refusal) []).0.status
        ≡ pending)
stop_answered-restarts_example =
    stop_answered-restarts refusing_env lcm_config "3" waiting_osd 5 refusal refusal [] [] refl refl
      refl refl

-- Two OSDs with a common disk; the second is still in the cluster.
abbrev shared_osds : Assoc OsdMapping
shared_osds = ("0", osd_in RemovePhase.finished) ∷ ("1", osd_in pending) ∷ []

get_job_data-shared_example :
    ((get_job_data "0" shared_osds).0 ≡ false)
    × (zaps "/dev/vdb" (get_job_data "0" shared_osds).1 ≡ (
        zaps "/dev/vdb" (osd_at "0" shared_osds).device_mapping
        && not (any (uses_disk "0" "/dev/vdb") shared_osds)))
get_job_data-shared_example = get_job_data-shared "0" "/dev/vdb" shared_osds refl

cleanup_job-spares_example :
    All
      (λ k. (wipes_disk k.script && any (uses_disk "0" k.device) shared_osds) ≡ false)
      (cleanup_job env
        (config_in (status_in TaskPhase.processing))
        "ceph:v19.2.3"
        "node-1"
        "0"
        ""
        (get_job_data "0" shared_osds).1).containers
cleanup_job-spares_example =
    cleanup_job-spares env (config_in (status_in TaskPhase.processing)) "ceph:v19.2.3" "node-1" "0"
      "" shared_osds refl

-- An OSD whose disks are to be cleaned and one whose job is running.
abbrev busy_osds : Assoc OsdMapping
busy_osds =
    ("0", osd_in RemovePhase.finished)
    ∷ (
      "1",
      osd_with (
          some (record {
            osd_remove_status = some (with_status finished);
            deploy_remove_status = none;
            device_cleanup_job = some (with_status in_progress);
          })),
    )
    ∷ []

handle_job_run-delayed_example :
    handle_job_run env (config_in (status_in TaskPhase.processing)) "0" "node-1" busy_osds []
    ≡ (with_status pending, [])
unfolding lookup
handle_job_run-delayed_example =
    handle_job_run-delayed env (config_in (status_in TaskPhase.processing)) "0" "node-1" busy_osds
      [] refl refl

-- An OSD that waits for its placement groups since before the timeout.
abbrev moving_osd : RemoveStatus
moving_osd = record (with_status waiting_rebalance) { started_at = "t" }

-- The time is up at the second check.
abbrev late_clock : Log → ℕ
late_clock (_ ∷ _ ∷ _) = 40
late_clock _ = 7

abbrev late_env : Env
late_env = record env { clock = late_clock }

check_rebalance-bounded_example :
    IsOver late_env lcm_config "3"
      (check_rebalance late_env lcm_config "3"
        (check_rebalance late_env lcm_config "3" moving_osd []).0
        (sleep ∷ [])).0
unfolding check_rebalance rebalance_checked still_rebalancing now run_with_retry attempts
    check_pgs_for_osd pgs_present run_and_parse run_ceph
check_rebalance-bounded_example =
    check_rebalance-bounded late_env lcm_config "3" moving_osd 5 refl
      (check_rebalance late_env lcm_config "3" moving_osd []).0 (again [] start refl) refl
      (sleep ∷ []) refl
