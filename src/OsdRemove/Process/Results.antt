-- ===== src/OsdRemove/Process/Results.antt =====
-- What a call of `processOsdRemoveTask` comes to.
use pelagia.Prelude.{
  ℕ, ◌+◌, ◌≤◌, ◌≡◌, refl, ap, inl, inr, String, true, List, [], ◌∷◌, arith, Bool-cases, if_ind,
  is_empty, length, Assoc, adjust, nat_eq, ◌==◌,
}
use pelagia.Task.{
  RemovePhase, pending, waiting_rebalance, RemoveStatus, HostMapping, TaskRemoveInfo,
}
use pelagia.Common.World.{Env, Log}
use pelagia.OsdRemove.Config.{TaskConfig}
use pelagia.OsdRemove.Process.Collect.{Requests, bucket, classify_hosts, requests, hosts_to_remove}
use pelagia.OsdRemove.Process.Finished.{Pass, each}
use pelagia.OsdRemove.Process.Pass.{
  admit, set_host, host_removed, remove_host, pending_loop, Processed, conclude_pass, take_out,
  start_pass, process_osds, process_osd_remove_task,
}
use pelagia.OsdRemove.Process.Count.{count_in, count_osds, count_hosts}
use pelagia.OsdRemove.Process.Turns.{each-keeps}
use pelagia.OsdRemove.Process.Buckets.{
  IsPlain, length-bucket-requests, count_hosts-classify, bucket-admit,
}
use pelagia.OsdRemove.Process.Exclusive.{advance-Waiting, pending_loop-Waiting}

is_empty→[] {ℓ} : {A : Type ℓ} (xs : List A) → is_empty xs ≡ true → length xs ≡ 0
is_empty→[] [] e = refl
is_empty→[] (x ∷ xs) e = cc

waiting-IsPlain : IsPlain waiting_rebalance
waiting-IsPlain p = ground arith

-- The removal of hosts leaves the OSDs alone.
count_hosts-set_host :
    (q : RemovePhase) (host : String) (s : RemoveStatus) (hosts : Assoc HostMapping)
    → count_hosts q (adjust host (set_host s) hosts) ≡ count_hosts q hosts
unfolding count_hosts adjust
count_hosts-set_host q host s [] = refl
count_hosts-set_host q host s ((j, h) ∷ hosts) = elim (Bool-cases (j == host)) [
  | inl e ↦ rw e
  | inr e ↦ rw e (ap (λ n. count_osds q h.osd_mapping + n) (count_hosts-set_host q host s hosts))
]

host_removed-count :
    (q : RemovePhase) (host : String) (s : RemoveStatus) (info : TaskRemoveInfo)
    → count_in q (host_removed host s info) ≡ count_in q info
unfolding host_removed
host_removed-count q host s info = elim (Bool-cases (s.error == "")) [
  | inl e ↦ rw e (count_hosts-set_host q host s info.cleanup_map)
  | inr e ↦ rw e (count_hosts-set_host q host s info.cleanup_map)
]

conclude-count :
    (p : Pass) (waiting : Assoc String) (n : ℕ)
    → count_in waiting_rebalance p.info ≤ n
    → count_in waiting_rebalance (conclude_pass p waiting).1 ≤ n
conclude-count p waiting n h =
    if_ind (λ (r : Processed). count_in waiting_rebalance r.1 ≤ n) (nat_eq p.not_completed 0) h h

module _ (env : Env) (c : TaskConfig) where
  remove_hosts-count :
      (q : RemovePhase) (n : ℕ) (hosts : List String) (info : TaskRemoveInfo) (log : Log)
      → count_in q info ≤ n
      → count_in q (each (remove_host env c) hosts info log).0 ≤ n
  unfolding remove_host
  remove_hosts-count q n hosts info log h =
      each-keeps (λ i. count_in q i ≤ n) (remove_host env c)
        (λ host i l k. omega (arith, host_removed-count q host _ i)) hosts info log h

  take_out-Waiting :
      (reqs : Requests) (p : Pass) (log : Log)
      → count_in waiting_rebalance p.info ≤ 1
      → (is_empty (bucket waiting_rebalance reqs) ≡ true → count_in waiting_rebalance p.info ≤ 0)
      → count_in waiting_rebalance (take_out env c reqs p log).0.1 ≤ 1
  unfolding take_out
  take_out-Waiting reqs p log one idle =
      elim (Bool-cases (is_empty (bucket waiting_rebalance reqs))) [
        | inl e ↦ rw e (
            conclude-count (pending_loop env c (bucket pending reqs) [] p log).0.0
              (pending_loop env c (bucket pending reqs) [] p log).0.1 1
              (pending_loop-Waiting env c (bucket pending reqs) [] p log (idle e)))
        | inr e ↦ rw e one
      ]

  -- After a pass at most one OSD is out and waits for the rebalance, if that held before.
  pub process-one_rebalancing :
      (info : TaskRemoveInfo) (log : Log)
      → count_in waiting_rebalance info ≤ 1
      → count_in waiting_rebalance (process_osd_remove_task env c info log).0.1 ≤ 1
  unfolding process_osd_remove_task process_osds
  process-one_rebalancing info log one =
      elim (Bool-cases (is_empty (hosts_to_remove info.cleanup_map))) [
        | inl e ↦ rw e (
            take_out-Waiting reqs _ _ (advance-Waiting env c 1 reqs start log classified) (λ idle.
              advance-Waiting env c 0 reqs start log (
                omega (
                  arith,
                  length-bucket-requests waiting_rebalance waiting-IsPlain info.cleanup_map,
                  ap length (bucket-admit waiting_rebalance (requests info.cleanup_map) refl),
                  is_empty→[] _ idle,
                ))))
        | inr e ↦ rw e (
            remove_hosts-count waiting_rebalance 1 (hosts_to_remove info.cleanup_map) _ log
              classified)
      ]
    where
      reqs : Requests
      reqs = admit (requests info.cleanup_map)

      start : Pass
      start = start_pass reqs (record info { cleanup_map = classify_hosts info.cleanup_map })

      classified : count_hosts waiting_rebalance (classify_hosts info.cleanup_map) ≤ 1
      classified = omega (arith, count_hosts-classify info.cleanup_map)
