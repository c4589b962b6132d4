-- ===== src/OsdRemove/Process/Faithful.antt =====
-- A call of `processOsdRemoveTask` keeps to the plan.
use pelagia.Prelude.{
  Bool-cases, inl, inr, ◌≡◌, refl, ◌∙◌, String, [], ◌∷◌, List, Assoc, if_ind, is_empty, nat_eq, not,
  ◌==◌,
}
use pelagia.Task.{
  pending, waiting_rebalance, in_progress, stray, finished, RemoveStatus, HostMapping,
  TaskRemoveInfo, same_phase,
}
use pelagia.Common.World.{Env, Log, M}
use pelagia.OsdRemove.Config.{TaskConfig}
use pelagia.OsdRemove.Rebalance.{try_to_move_osd_out}
use pelagia.OsdRemove.Process.Collect.{
  HostOsdPair, Requests, bucket, requests, hosts_to_remove, classify_hosts, set_osd, update, osd_of,
}
use pelagia.OsdRemove.Process.Finished.{Pass, finish_one}
use pelagia.OsdRemove.Process.Pass.{
  admit, forget_start, forget_waits, host_removed, set_host, remove_host, stray_one, remove_one,
  rebalance_one, osd_status, pending_turn, pending_loop, Processed, take_out, sort_issues, advance,
  process_osds, process_osd_remove_task,
}
use pelagia.OsdRemove.Process.Plan.{
  planned, planned-update, erase_hosts-adjust, erase_hosts-classify,
}
use pelagia.OsdRemove.Process.Turns.{each-keeps, finish_one-Follows}

planned-forget_waits :
    (waiting : Assoc String) (info : TaskRemoveInfo)
    → planned (forget_waits waiting info) ≡ planned info
unfolding forget_waits
planned-forget_waits [] info = refl
planned-forget_waits ((osd, host) ∷ waiting) info =
    planned-forget_waits waiting _
    ∙ planned-update (record { host = host; osd_id = osd }) forget_start info

planned-host_removed :
    (host : String) (s : RemoveStatus) (info : TaskRemoveInfo)
    → planned (host_removed host s info) ≡ planned info
unfolding host_removed
planned-host_removed host s info = elim (Bool-cases (s.error == "")) [
  | inl well ↦ rw well (erase_hosts-adjust host (set_host s) (λ h. refl) info.cleanup_map)
  | inr bad ↦ rw bad (erase_hosts-adjust host (set_host s) (λ h. refl) info.cleanup_map)
]

module _ (env : Env) (c : TaskConfig) (plan : Assoc HostMapping) where
  abbrev Keeps : Pass → Type 0
  Keeps p = planned p.info ≡ plan

  set_osd-Keeps :
      (pair : HostOsdPair) (s : RemoveStatus) (p : Pass)
      → Keeps p
      → planned (update pair (set_osd s) p.info) ≡ plan
  set_osd-Keeps pair s p k = planned-update pair (set_osd s) p.info ∙ k

  finish_one-Keeps :
      (reqs : Requests) (pair : HostOsdPair) (p : Pass) (log : Log)
      → Keeps p
      → Keeps (finish_one env c reqs pair p log).0
  finish_one-Keeps reqs pair p log k = (finish_one-Follows env c reqs pair p log).same_plan ∙ k

  stray_one-Keeps :
      (pair : HostOsdPair) (p : Pass) (log : Log) → Keeps p → Keeps (stray_one env c pair p log).0
  unfolding stray_one
  stray_one-Keeps pair p log k = set_osd-Keeps pair _ p k

  remove_one-Keeps :
      (pair : HostOsdPair) (p : Pass) (log : Log) → Keeps p → Keeps (remove_one env c pair p log).0
  unfolding remove_one
  remove_one-Keeps pair p log k = set_osd-Keeps pair _ p k

  rebalance_one-Keeps :
      (pair : HostOsdPair) (p : Pass) (log : Log)
      → Keeps p
      → Keeps (rebalance_one env c pair p log).0
  unfolding rebalance_one
  rebalance_one-Keeps pair p log k = set_osd-Keeps pair _ p k

  pending_loop-Keeps :
      (pairs : List HostOsdPair) (waiting : Assoc String) (p : Pass) (log : Log)
      → Keeps p
      → Keeps (pending_loop env c pairs waiting p log).0.0
  unfolding pending_loop pending_turn
  pending_loop-Keeps [] waiting p log k = k
  pending_loop-Keeps (pair ∷ pairs) waiting p log k =
      let (s, log') =
        try_to_move_osd_out env c.lcm_config pair.osd_id (osd_status (osd_of pair p.info)) log in
      if_ind (λ (m : M (Pass × Assoc String)). Keeps (m log').0.0) (same_phase s.status pending)
        (pending_loop-Keeps pairs _ _ _ (set_osd-Keeps pair s p k))
        (planned-forget_waits waiting _ ∙ set_osd-Keeps pair s p k)

  advance-Keeps :
      (reqs : Requests) (p : Pass) (log : Log) → Keeps p → Keeps (advance env c reqs p log).0
  unfolding advance sort_issues
  advance-Keeps reqs p log k =
      each-keeps Keeps _ rebalance_one-Keeps (bucket waiting_rebalance reqs) _ _ (
        each-keeps Keeps _ remove_one-Keeps (bucket in_progress reqs) _ _ (
          each-keeps Keeps _ stray_one-Keeps (bucket stray reqs) _ _
            (each-keeps Keeps _ (finish_one-Keeps reqs) (bucket finished reqs) p log k)))

  take_out-Keeps :
      (reqs : Requests) (p : Pass) (log : Log)
      → Keeps p
      → planned (take_out env c reqs p log).0.1 ≡ plan
  unfolding take_out
  take_out-Keeps reqs p log k =
      if_ind (λ (m : M Processed). planned (m log).0.1 ≡ plan)
        (not (is_empty (bucket waiting_rebalance reqs))) k
        (let (after, _) = pending_loop env c (bucket pending reqs) [] p log in
          if_ind (λ (r : Processed). planned r.1 ≡ plan) (nat_eq after.0.not_completed 0)
            (pending_loop-Keeps (bucket pending reqs) [] p log k)
            (pending_loop-Keeps (bucket pending reqs) [] p log k))

-- A pass changes nothing of the cleanup map but the statuses: the hosts, the OSDs, their devices
-- and the flags are as the validation has planned them.
pub process-planned :
    (env : Env) (c : TaskConfig) (info : TaskRemoveInfo) (log : Log)
    → planned (process_osd_remove_task env c info log).0.1 ≡ planned info
unfolding process_osd_remove_task process_osds remove_host
process-planned env c info log =
    if_ind (λ (m : M Processed). planned (m log).0.1 ≡ planned info)
      (is_empty (hosts_to_remove info.cleanup_map))
      (take_out-Keeps env c (planned info) _ _ _
        (advance-Keeps env c (planned info) (admit (requests info.cleanup_map)) _ log classified))
      (each-keeps (λ i. planned i ≡ planned info) (remove_host env c)
        (λ host i l k. planned-host_removed host _ i ∙ k) (hosts_to_remove info.cleanup_map) _ log
        classified)
  where
    classified :
        planned (record info { cleanup_map = classify_hosts info.cleanup_map }) ≡ planned info
    classified = erase_hosts-classify info.cleanup_map
