-- ===== src/OsdRemove/Samples/Tasks.antt =====
-- Runs of the task controller.
use pelagia.Prelude.{◌≡◌, refl, ◌⊎◌, true, false, ◌||◌, [], none, some, get_last?}
use pelagia.Task.{TaskPhase, TaskCondition, TaskStatus}
use pelagia.Common.World.{run_ceph, run_and_parse, fetch_nodes, current_time_string}
use pelagia.OsdRemove.Phase.{prepare_init_status, move_task_phase}
use pelagia.OsdRemove.Processer.{
  handle_task, is_approved, with_latest, dispatch, on_validating, validated, validate_task, move,
  osd_hosts,
}
use pelagia.OsdRemove.Processer.Written.{cleared}
use pelagia.OsdRemove.Processer.Changes.{IsUnchanged}
use pelagia.OsdRemove.Processer.Moves.{Moves, handle_task-Moves}
use pelagia.OsdRemove.Processer.Approval.{new, pass, is_past_approval-Reaches, handle_task-approved}
use pelagia.OsdRemove.Processer.History.{IsRecorded, Lives, Lives-IsRecorded}
use pelagia.Prelude.{sort_strings, insert}
use pelagia.OsdRemove.Processer.{collect_hosts}
use pelagia.OsdRemove.Spec.Plan.{get_osds_for_cleanup, task_hosts}
use pelagia.OsdRemove.Spec.Hosts.{
  hosts_of, add_crush_hosts, add_spec_hosts, add_k8s_hosts, pick_host,
}
use pelagia.OsdRemove.Spec.Metadata.{fill_osd_mapping_from_osd_meta, fill_from_meta, find_metadata}
use pelagia.OsdRemove.Spec.Volumes.{strays_no_host}
use pelagia.OsdRemove.Spec.Context.{start_search, cluster_osds}
use pelagia.OsdRemove.Spec.Discovery.{
  find_osds_for_clean_up, find_hosts, find_host, found_unasked, found_host, plan_host, plan_strays,
  sorted_info,
}
use pelagia.OsdRemove.Controller.{oldest_from, reconcile}
use pelagia.OsdRemove.Controller.Oldest.{Found, oldest_from-Oldest}
use pelagia.OsdRemove.Controller.Turn.{IsOldest, reconcile-Waits}
use pelagia.OsdRemove.Steps.Order.{count_commands}
use pelagia.OsdRemove.Samples.{env, tasks, task_named, config_in, status_in, lcm_config}

handle_task-Moves_example :
    Moves env
      (config_in (status_in TaskPhase.pending))
      (status_in TaskPhase.pending)
      (handle_task env (config_in (status_in TaskPhase.pending)) []).0.0
handle_task-Moves_example = handle_task-Moves env (config_in (status_in TaskPhase.pending)) []

abbrev after : TaskStatus → TaskStatus
after status = (handle_task env (config_in status) []).0.0

is_past_approval-Reaches_example :
    ((false || is_approved (task_named "old" 3 none).spec)
      || is_approved (task_named "old" 3 none).spec)
    ≡ true
unfolding handle_task with_latest dispatch on_validating validated validate_task move
    move_task_phase run_and_parse run_ceph fetch_nodes current_time_string osd_hosts collect_hosts
    get_osds_for_cleanup task_hosts hosts_of add_crush_hosts add_spec_hosts add_k8s_hosts pick_host
    find_osds_for_clean_up start_search strays_no_host find_hosts find_host found_unasked found_host
    plan_host fill_osd_mapping_from_osd_meta fill_from_meta find_metadata plan_strays sorted_info
    sort_strings insert cluster_osds
is_past_approval-Reaches_example =
    is_past_approval-Reaches
      (pass env (config_in (cleared (after (status_in TaskPhase.pending)))) []
        (pass env (config_in (status_in TaskPhase.pending)) []
          (new {s = status_in TaskPhase.pending} refl) refl)
        refl)
      refl

-- A task that waits for the approval, which it now has.
abbrev waiting_status : TaskStatus
waiting_status = status_in TaskPhase.approve_waiting

handle_task-approved_example :
    (last : TaskCondition) × (get_last? (after waiting_status).conditions ≡ some last)
    × IsUnchanged (config_in waiting_status) last
    × ((after waiting_status).phase ≡ TaskPhase.waiting_operator)
    × ((after waiting_status).remove_info ≡ none)
handle_task-approved_example =
    handle_task-approved env (config_in waiting_status)
      (record {
        timestamp = "t";
        phase = TaskPhase.approve_waiting;
        nodes = none;
        ceph_cluster_spec_version = none;
      })
      [] refl refl refl

Lives-IsRecorded_example :
    IsRecorded (after (cleared (prepare_init_status env (task_named "old" 3 none) []).0))
Lives-IsRecorded_example = Lives-IsRecorded (
    Lives.pass env (config_in (cleared (prepare_init_status env (task_named "old" 3 none) []).0)) []
      (Lives.init env (task_named "old" 3 none) []) refl)

oldest_from-Oldest_example : Found tasks (oldest_from none tasks)
oldest_from-Oldest_example = oldest_from-Oldest tasks

reconcile-Waits_example :
    IsOldest env lcm_config "old" ⊎ (count_commands (reconcile env lcm_config "old" []).1 ≡ 0)
reconcile-Waits_example = reconcile-Waits env lcm_config "old" []
