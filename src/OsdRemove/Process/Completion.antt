-- ===== src/OsdRemove/Process/Completion.antt =====
-- A task is reported as finished only when no OSD is left to remove.
use pelagia.OsdRemove.Process.Progress.{take_out-finished, advance-finished}
use pelagia.Prelude.{
  ◌≡◌, refl, sym, ap, ◌∙◌, subst, inl, inr, true, false≢true, List, [], ◌∷◌, arith, Bool-cases,
  is_empty, length, Assoc, sort_strings, contains, contains-sort_strings, All,
}
use pelagia.Task.{
  RemovePhase, pending, waiting_rebalance, in_progress, stray, finished, failed, HostMapping,
  TaskRemoveInfo,
}
use pelagia.Common.World.{Env, Log}
use pelagia.OsdRemove.Config.{TaskConfig}
use pelagia.OsdRemove.Process.Collect.{Requests, bucket, classify_hosts, requests, hosts_to_remove}
use pelagia.OsdRemove.Process.Finished.{Pass, each, finish_one}
use pelagia.OsdRemove.Process.Pass.{
  admit, failed_issue, sort_issues, advance, start_pass, process_osds, process_osd_remove_task,
}
use pelagia.OsdRemove.Process.Reported.{
  host_phases, FailuresNamed, hosts-FailuresNamed, failed_issues-All,
}
use pelagia.OsdRemove.Process.Count.{count_in, count_hosts}
use pelagia.OsdRemove.Process.Turns.{
  each-keeps, Follows, Follows-refl, Follows-trans, finish_one-Follows,
}
use pelagia.OsdRemove.Process.Buckets.{
  IsPlain, length-bucket-requests, bucket-admit, bucket-admit-pending,
}

-- What holds of the remove info of a finished task: no OSD rebalances or is being removed, each
-- failed OSD has the issue with its id and its host, and an OSD is left pending only if another one
-- has failed.
pub record IsComplete (info : TaskRemoveInfo) : Type 0 where
  pub none_rebalancing : count_in waiting_rebalance info ≡ 0
  pub none_in_progress : count_in in_progress info ≡ 0
  pub none_stray : count_in stray info ≡ 0
  pub failures_reported : FailuresNamed info.issues (host_phases info.cleanup_map)
  pub none_pending : count_in failed info ≡ 0 → count_in pending info ≡ 0

length-zero {ℓ} : {A : Type ℓ} (xs : List A) → length xs ≡ 0 → xs ≡ []
length-zero [] e = refl
length-zero (x ∷ xs) e = absurd (omega arith)

module _ (env : Env) (c : TaskConfig) where
  finished_loop-Follows :
      (reqs : Requests) (p : Pass) (log : Log)
      → Follows p (each (finish_one env c reqs) (bucket finished reqs) p log).0
  finished_loop-Follows reqs p log =
      each-keeps (Follows p) (finish_one env c reqs)
        (λ pair p' l f. Follows-trans f (finish_one-Follows env c reqs pair p' l))
        (bucket finished reqs) p log (Follows-refl p)

  -- The pass whose removed OSDs had their turn, when no other OSD had one.
  module _ (hosts : Assoc HostMapping) (info : TaskRemoveInfo) (log : Log)
      (shape : info.cleanup_map ≡ classify_hosts hosts) where
    abbrev reqs : Requests
    reqs = admit (requests hosts)

    abbrev first : Pass
    first = (each (finish_one env c reqs) (bucket finished reqs) (start_pass reqs info) log).0

    first-Follows : Follows (start_pass reqs info) first
    first-Follows = finished_loop-Follows reqs (start_pass reqs info) log

    count-first :
        (q : RemovePhase) → IsPlain q → count_in q first.info ≡ length (bucket q (requests hosts))
    count-first q plain =
        first-Follows.same_counts q
        ∙ ap (count_hosts q) shape
        ∙ sym (length-bucket-requests q plain hosts)

    first-IsComplete :
        length (bucket pending reqs) ≡ 0
        → length (bucket stray reqs) ≡ 0
        → length (bucket in_progress reqs) ≡ 0
        → length (bucket waiting_rebalance reqs) ≡ 0
        → IsComplete (sort_issues first).info
    unfolding sort_issues
    first-IsComplete no_pending no_stray no_removal no_rebalance = record {
      none_rebalancing =
          count-first waiting_rebalance (λ p. ground arith)
          ∙ ap length (sym (bucket-admit waiting_rebalance (requests hosts) refl))
          ∙ no_rebalance;
      none_in_progress =
          count-first in_progress (λ p. ground arith)
          ∙ ap length (sym (bucket-admit in_progress (requests hosts) refl))
          ∙ no_removal;
      none_stray =
          count-first stray (λ p. ground arith)
          ∙ ap length (sym (bucket-admit stray (requests hosts) refl))
          ∙ no_stray;
      failures_reported =
          subst (FailuresNamed (sort_strings first.issues))
            (sym (first-Follows.same_phases ∙ ap host_phases shape))
            (hosts-FailuresNamed (sort_strings first.issues) hosts (
              subst (All (λ pair. contains (sort_strings first.issues) (failed_issue pair) ≡ true))
                (bucket-admit failed (requests hosts) refl)
                (failed_issues-All (sort_strings first.issues) (bucket failed reqs)
                  (λ s e. contains-sort_strings first.issues s ∙ first-Follows.issues_kept s e))));
      none_pending = λ no_failed.
          count-first pending (λ p. ground arith)
          ∙ ap length (
              sym (
                bucket-admit-pending (requests hosts)
                  (length-zero _ (sym (count-first failed (λ p. ground arith)) ∙ no_failed))))
          ∙ no_pending;
    }

  process_osds-IsComplete :
      (hosts : Assoc HostMapping) (info : TaskRemoveInfo) (log : Log)
      → info.cleanup_map ≡ classify_hosts hosts
      → (process_osds env c (admit (requests hosts)) info log).0.0 ≡ true
      → IsComplete (process_osds env c (admit (requests hosts)) info log).0.1
  unfolding process_osds
  process_osds-IsComplete hosts info log shape e =
      let rs = admit (requests hosts) in
      let (p, l) = advance env c rs (start_pass rs info) log in
      let ended = take_out-finished env c rs p l e in
      let advanced = advance-finished env c rs (start_pass rs info) log ended.1 in
      subst IsComplete (sym (ended.2 ∙ advanced.3))
        (first-IsComplete hosts info log shape ended.0 advanced.0 advanced.1 advanced.2)

  -- When processOsdRemoveTask reports the task as finished, no OSD is rebalancing, being removed or a
  -- stray to remove, the issues have for every failed OSD the one with its id and its host, and an
  -- OSD is left pending only if another one failed.
  pub process-IsComplete :
      (info : TaskRemoveInfo) (log : Log)
      → (process_osd_remove_task env c info log).0.0 ≡ true
      → IsComplete (process_osd_remove_task env c info log).0.1
  unfolding process_osd_remove_task
  process-IsComplete info log e = elim (Bool-cases (is_empty (hosts_to_remove info.cleanup_map))) [
    | inl none_marked ↦ rw none_marked (
        process_osds-IsComplete info.cleanup_map
          (record info { cleanup_map = classify_hosts info.cleanup_map }) log refl
          (rw none_marked at e))
    | inr marked ↦ absurd (false≢true (rw marked at e))
  ]
