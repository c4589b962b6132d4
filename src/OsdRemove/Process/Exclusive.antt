-- ===== src/OsdRemove/Process/Exclusive.antt =====
-- At most one OSD is out and waits for the rebalance at a time.
use pelagia.Prelude.{
  ℕ, ◌+◌, ◌≤◌, ◌≡◌, inl, inr, String, true, some, List, [], ◌∷◌, arith, Bool-cases, if_ind, Assoc,
}
use pelagia.Task.{
  RemovePhase, pending, waiting_rebalance, in_progress, stray, finished, RemoveStatus, OsdMapping,
  TaskRemoveInfo, same_phase,
}
use pelagia.Common.World.{Env, Log, M}
use pelagia.OsdRemove.Config.{TaskConfig}
use pelagia.OsdRemove.Outcomes.{
  IsSettled, remove_stray-IsSettled, remove_from_crush-IsSettled, Rebalances,
  check_rebalance-Rebalances,
}
use pelagia.OsdRemove.Process.Collect.{
  HostOsdPair, Requests, bucket, update, set_osd, osd_of, phase_of, on_result,
}
use pelagia.OsdRemove.Process.Finished.{Pass, on_info, finish_one}
use pelagia.OsdRemove.Process.Pass.{
  stray_one, remove_one, rebalance_one, pending_turn, pending_loop, forget_waits, osd_status,
  advance, sort_issues, forget_start,
}
use pelagia.OsdRemove.Process.Count.{count_in, weight, count-update-le}
use pelagia.OsdRemove.Process.Turns.{each-keeps, finish_one-Follows}

-- At most `n` OSDs of the pass wait for the rebalance.
abbrev Waiting : ℕ → Pass → Type 0
Waiting n p = count_in waiting_rebalance p.info ≤ n

weight-IsSettled : (p : RemovePhase) → IsSettled p → weight waiting_rebalance (some p) ≡ 0
weight-IsSettled p h = ground arith

weight-Rebalances :
    (m : OsdMapping) (p : RemovePhase)
    → Rebalances (osd_status m).status p
    → weight waiting_rebalance (some p) ≤ weight waiting_rebalance (phase_of m)
weight-Rebalances m p h = ground arith

-- A status that counts for no more than the one before keeps the bound.
set_osd-Waiting :
    (n : ℕ) (pair : HostOsdPair) (s : RemoveStatus) (p : Pass)
    → weight waiting_rebalance (some s.status)
      ≤ weight waiting_rebalance (phase_of (osd_of pair p.info))
    → Waiting n p
    → Waiting n (on_info (update pair (set_osd s)) p)
set_osd-Waiting n pair s p h w =
    omega (arith, count-update-le waiting_rebalance (set_osd s) pair p.info 0 (omega arith))

module _ (env : Env) (c : TaskConfig) (n : ℕ) where
  stray_one-Waiting :
      (pair : HostOsdPair) (p : Pass) (log : Log)
      → Waiting n p
      → Waiting n (stray_one env c pair p log).0
  unfolding stray_one
  stray_one-Waiting pair p log w =
      set_osd-Waiting n pair _ p
        (omega (arith, weight-IsSettled _ (remove_stray-IsSettled env _ _ log))) w

  remove_one-Waiting :
      (pair : HostOsdPair) (p : Pass) (log : Log)
      → Waiting n p
      → Waiting n (remove_one env c pair p log).0
  unfolding remove_one
  remove_one-Waiting pair p log w =
      set_osd-Waiting n pair _ p
        (omega (arith, weight-IsSettled _ (remove_from_crush-IsSettled env _ _ log))) w

  rebalance_one-Waiting :
      (pair : HostOsdPair) (p : Pass) (log : Log)
      → Waiting n p
      → Waiting n (rebalance_one env c pair p log).0
  unfolding rebalance_one
  rebalance_one-Waiting pair p log w =
      set_osd-Waiting n pair _ p
        (weight-Rebalances (osd_of pair p.info) _
          (check_rebalance-Rebalances env c.lcm_config _ _ log))
        w

  finish_one-Waiting :
      (reqs : Requests) (pair : HostOsdPair) (p : Pass) (log : Log)
      → Waiting n p
      → Waiting n (finish_one env c reqs pair p log).0
  finish_one-Waiting reqs pair p log w =
      omega (arith, (finish_one-Follows env c reqs pair p log).same_counts waiting_rebalance)

  pub advance-Waiting :
      (reqs : Requests) (p : Pass) (log : Log)
      → Waiting n p
      → Waiting n (advance env c reqs p log).0
  unfolding advance sort_issues
  advance-Waiting reqs p log w =
      each-keeps (Waiting n) (rebalance_one env c) rebalance_one-Waiting
        (bucket waiting_rebalance reqs) _ _
        (each-keeps (Waiting n) (remove_one env c) remove_one-Waiting (bucket in_progress reqs) _ _
          (each-keeps (Waiting n) (stray_one env c) stray_one-Waiting (bucket stray reqs) _ _ (
            each-keeps (Waiting n) (finish_one env c reqs) (finish_one-Waiting reqs)
              (bucket finished reqs) p log w)))

-- `forget_waits` leaves the phases alone.
forget_start-weight :
    (q : RemovePhase) (m : OsdMapping)
    → weight q (phase_of (on_result forget_start m)) ≤ 0 + weight q (phase_of m)
forget_start-weight q m = ground arith

forget_waits-count :
    (q : RemovePhase) (waiting : Assoc String) (info : TaskRemoveInfo)
    → count_in q (forget_waits waiting info) ≤ count_in q info
unfolding forget_waits
forget_waits-count q [] info = omega arith
forget_waits-count q ((osd, host) ∷ waiting) info =
    let pair : HostOsdPair = record { host = host; osd_id = osd } in
    omega (
      arith,
      count-update-le q forget_start pair info 0 (forget_start-weight q (osd_of pair info)),
      forget_waits-count q waiting (update pair forget_start info),
    )

weight-pending :
    (p : RemovePhase) → same_phase p pending ≡ true → weight waiting_rebalance (some p) ≡ 0
weight-pending p h = ground arith

weight-le-one : (q p : RemovePhase) → weight q (some p) ≤ 1
weight-le-one q p = if_ind (λ n. n ≤ 1) (same_phase p q) (omega arith) (omega arith)

module _ (env : Env) (c : TaskConfig) where
  pending_turn-Waiting :
      (pair : HostOsdPair) (next : Assoc String → Pass → M (Pass × Assoc String))
      → ((waiting : Assoc String) (p : Pass) (log : Log)
          → Waiting 0 p
          → Waiting 1 (next waiting p log).0.0)
      → (waiting : Assoc String) (s : RemoveStatus) (p : Pass) (log : Log) → Waiting 0 p
      → Waiting 1 (pending_turn env c pair next waiting s p log).0.0
  unfolding pending_turn
  pending_turn-Waiting pair next keeps waiting s p log w =
      elim (Bool-cases (same_phase s.status pending)) [
        | inl e ↦ rw e (
            keeps _ _ log (set_osd-Waiting 0 pair s p (omega (arith, weight-pending s.status e)) w))
        | inr e ↦ rw e (
            omega (
              arith,
              forget_waits-count waiting_rebalance waiting (update pair (set_osd s) p.info),
              count-update-le waiting_rebalance (set_osd s) pair p.info 1
                  (omega (arith, weight-le-one waiting_rebalance s.status)),
            ))
      ]

  -- With none waiting before, the loop over the pending OSDs leaves at most one.
  pub pending_loop-Waiting :
      (pairs : List HostOsdPair) (waiting : Assoc String) (p : Pass) (log : Log)
      → Waiting 0 p
      → Waiting 1 (pending_loop env c pairs waiting p log).0.0
  unfolding pending_loop
  pending_loop-Waiting [] waiting p log w = omega arith
  pending_loop-Waiting (pair ∷ pairs) waiting p log w =
      pending_turn-Waiting pair (pending_loop env c pairs) (pending_loop-Waiting pairs) waiting _ p
        _ w
