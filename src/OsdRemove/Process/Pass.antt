-- ===== src/OsdRemove/Process/Pass.antt =====
-- `processOsdRemoveTask` as a whole.
use pelagia.Prelude.{
  String, Bool, true, false, not, ◌&&◌, none, some, List, [], ◌∷◌, sprint, is_empty, adjust, insert,
  sort_strings, Assoc, nat_eq, ◌==◌, if◌then◌else◌,
}
use pelagia.Task.{
  pending, waiting_rebalance, in_progress, stray, finished, failed, RemoveStatus, RemoveResult,
  OsdMapping, HostMapping, TaskRemoveInfo, with_status, same_phase,
}
use pelagia.Common.World.{Env, M, ◌>>=◌, pure}
use pelagia.OsdRemove.Config.{TaskConfig}
use pelagia.OsdRemove.Steps.{remove_host_from_crush, remove_stray, remove_from_crush}
use pelagia.OsdRemove.Rebalance.{check_rebalance, try_to_move_osd_out}
use pelagia.OsdRemove.Jobs.Run.{result_of}
use pelagia.OsdRemove.Process.Collect.{
  HostOsdPair, Requests, bucket, classify_hosts, requests, hosts_to_remove, osd_of, update, set_osd,
}
use pelagia.OsdRemove.Process.Finished.{
  Pass, each, on_info, one_more, add_warning, node_text, finish_one,
}

-- If an OSD could not be removed, no other one is taken out.
unfoldable pub without_pending : Requests → Requests
without_pending [] = []
without_pending ((phase, pair) ∷ reqs) =
    if same_phase phase pending then without_pending reqs else (phase, pair) ∷ without_pending reqs

unfoldable pub admit : Requests → Requests
admit reqs =
    if not (is_empty (bucket failed reqs)) && not (is_empty (bucket pending reqs))
    then without_pending reqs
    else reqs

abbrev pub no_status : RemoveStatus
no_status = with_status pending

-- `RemoveStatus.OsdRemoveStatus` of a pair, which is there for the pairs of a bucket.
abbrev pub osd_status : OsdMapping → RemoveStatus
osd_status m = elim (result_of m).osd_remove_status [ none ↦ no_status | some s ↦ s ]

unfoldable pub failed_issue : HostOsdPair → String
failed_issue pair = node_text pair ("failed to remove osd '" ∷ pair.osd_id ∷ "'" ∷ [])

-- The loop over the failed OSDs.
unfoldable pub failed_issues : List HostOsdPair → List String
failed_issues [] = []
failed_issues (pair ∷ pairs) = failed_issue pair ∷ failed_issues pairs

abbrev pub forget_start : RemoveResult → RemoveResult
forget_start r = record r {
  osd_remove_status = elim r.osd_remove_status [
    | none ↦ none
    | some s ↦ some (record s { started_at = "" })
  ];
}

-- The waits that began before another OSD could be taken out start anew.
unfoldable pub forget_waits : Assoc String → TaskRemoveInfo → TaskRemoveInfo
forget_waits [] info = info
forget_waits ((osd, host) ∷ waiting) info =
    forget_waits waiting (update (record { host = host; osd_id = osd }) forget_start info)

-- What a call yields: finished or not, the new remove info, and `requeueNow`.
abbrev pub Processed : Type 0
Processed = Bool × TaskRemoveInfo × Bool

abbrev pub conclude_pass : Pass → Assoc String → Processed
conclude_pass p waiting =
    if nat_eq p.not_completed 0
    then (true, p.info, p.requeue_now)
    else (false, p.info, p.requeue_now && is_empty waiting)

abbrev pub start_pass : Requests → TaskRemoveInfo → Pass
start_pass reqs info = record {
  info = info;
  issues = failed_issues (bucket failed reqs);
  not_completed = 0;
  requeue_now = true;
}

-- `sort.Strings(curIssues)` and `newRemoveInfo.Issues = curIssues`
unfoldable pub sort_issues : Pass → Pass
sort_issues p =
    let sorted = sort_strings p.issues in
    record p { info = record (p.info) { issues = sorted }; issues = sorted }

abbrev pub set_host : RemoveStatus → HostMapping → HostMapping
set_host s h = record h { host_remove_status = some s }

unfoldable pub host_removed : String → RemoveStatus → TaskRemoveInfo → TaskRemoveInfo
host_removed host s info =
    let text =
      sprint ("[node '" ∷ host ∷ "'] failed to remove node from crush map: " ∷ s.error ∷ []) in
    let info' = if s.error == "" then info else add_warning text info in
    record info' { cleanup_map = adjust host (set_host s) info'.cleanup_map }

module _ (env : Env) (c : TaskConfig) where
  -- The body of the loop over `hostsToRemove`.
  unfoldable pub remove_host : String → TaskRemoveInfo → M TaskRemoveInfo
  remove_host host info = do s ← remove_host_from_crush env host; pure (host_removed host s info)

  -- The bodies of the loops over the stray OSDs and over those to be removed.
  unfoldable pub stray_one : HostOsdPair → Pass → M Pass
  stray_one pair p = do
    s ← remove_stray env pair.osd_id (osd_status (osd_of pair p.info))
    pure (one_more (on_info (update pair (set_osd s)) p))

  unfoldable pub remove_one : HostOsdPair → Pass → M Pass
  remove_one pair p = do
    s ← remove_from_crush env pair.osd_id (osd_status (osd_of pair p.info))
    pure (one_more (on_info (update pair (set_osd s)) p))

  -- The body of the loop over the OSDs that rebalance.
  unfoldable pub rebalance_one : HostOsdPair → Pass → M Pass
  rebalance_one pair p = do
    s ← check_rebalance env c.lcm_config pair.osd_id (osd_status (osd_of pair p.info))
    let p' = one_more (on_info (update pair (set_osd s)) p)
    pure (record p' {
      requeue_now = if same_phase s.status in_progress then p'.requeue_now else false;
    })

  -- The loop over the pending OSDs. It ends with the first one that is not pending any more.
  unfoldable pub pending_turn :
      (HostOsdPair)
      → (Assoc String → Pass → M (Pass × Assoc String))
      → Assoc String
      → RemoveStatus
      → Pass
      → M (Pass × Assoc String)
  pending_turn pair next waiting s p =
      let p' = one_more (on_info (update pair (set_osd s)) p) in
      if same_phase s.status pending
      then next (insert pair.osd_id pair.host waiting) p'
      else pure (on_info (forget_waits waiting) p', [])

  unfoldable pub pending_loop : List HostOsdPair → Assoc String → Pass → M (Pass × Assoc String)
  pending_loop [] waiting p log = ((p, waiting), log)
  pending_loop (pair ∷ pairs) waiting p log =
      let (s, log') =
        try_to_move_osd_out env c.lcm_config pair.osd_id (osd_status (osd_of pair p.info)) log in
      pending_turn pair (pending_loop pairs) waiting s p log'

  -- From the loop over the pending OSDs on.
  unfoldable pub take_out : Requests → Pass → M Processed
  take_out reqs p =
      if not (is_empty (bucket waiting_rebalance reqs))
      then pure (false, p.info, p.requeue_now)
      else do r ← pending_loop (bucket pending reqs) [] p; pure (conclude_pass r.0 r.1)

  -- The loops between the failed OSDs and the pending ones.
  unfoldable pub advance : Requests → Pass → M Pass
  advance reqs p = do
    p1 ← each (finish_one env c reqs) (bucket finished reqs) p
    p2 ← each stray_one (bucket stray reqs) (sort_issues p1)
    p3 ← each remove_one (bucket in_progress reqs) p2
    each rebalance_one (bucket waiting_rebalance reqs) p3

  unfoldable pub process_osds : Requests → TaskRemoveInfo → M Processed
  process_osds reqs info = do p ← advance reqs (start_pass reqs info); take_out reqs p

  -- `processOsdRemoveTask`
  unfoldable pub process_osd_remove_task : TaskRemoveInfo → M Processed
  process_osd_remove_task info =
      let hosts = hosts_to_remove info.cleanup_map in
      let info' = record info { cleanup_map = classify_hosts info.cleanup_map } in
      if is_empty hosts
      then process_osds (admit (requests info.cleanup_map)) info'
      else do removed ← each remove_host hosts info'; pure (false, removed, true)
