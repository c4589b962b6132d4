-- ===== src/OsdRemove/Samples/Passes.antt =====
-- Runs of `processOsdRemoveTask`.
use pelagia.Prelude.{◌≡◌, ◌≤◌, refl, [], ◌∷◌, none, arith}
use pelagia.Task.{TaskPhase, RemovePhase, TaskRemoveInfo, waiting_rebalance}
use pelagia.OsdRemove.Process.Pass.{process_osd_remove_task, process_osds}
use pelagia.OsdRemove.Process.Count.{count_in, count_hosts, count_osds}
use pelagia.OsdRemove.Process.Results.{process-one_rebalancing}
use pelagia.OsdRemove.Process.Plan.{planned}
use pelagia.OsdRemove.Process.Faithful.{process-planned}
use pelagia.OsdRemove.Process.Completion.{IsComplete, process-IsComplete}
use pelagia.OsdRemove.Samples.{env, info_with, osd_in, osd_with, removed_osd, config_in, status_in}
use pelagia.OsdRemove.Process.Collect.{
  bucket, first_phase, classify, classify_osds, host_requests, count_not_completed,
  is_host_to_remove, classify_hosts, requests, hosts_to_remove, host_at, osd_of,
}
use pelagia.OsdRemove.Process.Finished.{
  each, needs_job, deploy_turn, job_ended, finish_turn, finish_one,
}
use pelagia.OsdRemove.Process.Pass.{
  admit, failed_issues, sort_issues, take_out, advance, pending_loop,
}
use pelagia.Prelude.{lookup, sort_strings}

abbrev info : TaskRemoveInfo
info = info_with (("0", osd_in waiting_rebalance) ∷ ("1", osd_with none) ∷ [])

process-one_rebalancing_example :
    count_in waiting_rebalance
      (process_osd_remove_task env (config_in (status_in TaskPhase.processing)) info []).0.1
    ≤ 1
unfolding count_hosts count_osds
process-one_rebalancing_example =
    process-one_rebalancing env (config_in (status_in TaskPhase.processing)) info [] (omega arith)

-- One OSD is removed, and another one has failed.
abbrev removed_info : TaskRemoveInfo
removed_info = info_with (("0", removed_osd) ∷ ("1", osd_in RemovePhase.failed) ∷ [])

process-IsComplete_example :
    IsComplete
      (process_osd_remove_task env (config_in (status_in TaskPhase.processing)) removed_info []).0.1
unfolding process_osd_remove_task process_osds advance take_out pending_loop each sort_issues admit
    bucket requests hosts_to_remove host_requests classify_hosts classify_osds classify
    is_host_to_remove count_not_completed finish_one finish_turn deploy_turn job_ended needs_job
    host_at osd_of lookup sort_strings failed_issues first_phase
process-IsComplete_example =
    process-IsComplete env (config_in (status_in TaskPhase.processing)) removed_info [] refl

process-planned_example :
    planned (process_osd_remove_task env (config_in (status_in TaskPhase.processing)) info []).0.1
    ≡ planned info
process-planned_example = process-planned env (config_in (status_in TaskPhase.processing)) info []
