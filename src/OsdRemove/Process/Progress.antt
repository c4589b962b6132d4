-- ===== src/OsdRemove/Process/Progress.antt =====
-- The loops of a pass count the OSDs that still have to be removed.
use pelagia.Prelude.{
  suc, ◌+◌, ◌≤◌, ◌≡◌, refl, ap, ◌∙◌, inl, inr, String, true, false≢true, List, [], ◌∷◌, arith,
  Bool-cases, if_ind, is_empty, length, Assoc,
}
use pelagia.Task.{
  pending, waiting_rebalance, in_progress, stray, finished, RemoveStatus, same_phase,
}
use pelagia.Common.World.{Env, Log, M}
use pelagia.OsdRemove.Config.{TaskConfig}
use pelagia.OsdRemove.Rebalance.{try_to_move_osd_out}
use pelagia.OsdRemove.Process.Collect.{HostOsdPair, Requests, bucket, osd_of}
use pelagia.OsdRemove.Process.Finished.{Pass, each, finish_one}
use pelagia.OsdRemove.Process.Pass.{
  stray_one, remove_one, rebalance_one, osd_status, pending_turn, pending_loop, conclude_pass,
  take_out, sort_issues, advance,
}

-- A loop whose body counts each turn.
each-counts {ℓ} :
    {A : Type ℓ} (body : A → Pass → M Pass)
    → ((a : A) (p : Pass) (log : Log) → (body a p log).0.not_completed ≡ suc p.not_completed)
    → (xs : List A) (p : Pass) (log : Log)
    → (each body xs p log).0.not_completed ≡ length xs + p.not_completed
unfolding each
each-counts body one [] p log = omega arith
each-counts body one (x ∷ xs) p log =
    omega (arith, one x p log, each-counts body one xs (body x p log).0 (body x p log).1)

-- With nothing counted the loop had no turn.
each_idle {ℓ} :
    {A : Type ℓ} (body : A → Pass → M Pass)
    → ((a : A) (p : Pass) (log : Log) → (body a p log).0.not_completed ≡ suc p.not_completed)
    → (xs : List A) (p : Pass) (log : Log) → (each body xs p log).0.not_completed ≡ 0
    → (length xs ≡ 0) × (p.not_completed ≡ 0) × ((each body xs p log).0 ≡ p)
unfolding each
each_idle body one [] p log e = (refl, e, refl)
each_idle body one (x ∷ xs) p log e =
    absurd (omega (arith, one x p log, each-counts body one xs (body x p log).0 (body x p log).1))

module _ (env : Env) (c : TaskConfig) where
  stray_one-counts :
      (pair : HostOsdPair) (p : Pass) (log : Log)
      → (stray_one env c pair p log).0.not_completed ≡ suc p.not_completed
  unfolding stray_one
  stray_one-counts pair p log = refl

  remove_one-counts :
      (pair : HostOsdPair) (p : Pass) (log : Log)
      → (remove_one env c pair p log).0.not_completed ≡ suc p.not_completed
  unfolding remove_one
  remove_one-counts pair p log = refl

  rebalance_one-counts :
      (pair : HostOsdPair) (p : Pass) (log : Log)
      → (rebalance_one env c pair p log).0.not_completed ≡ suc p.not_completed
  unfolding rebalance_one
  rebalance_one-counts pair p log = refl

  pending_turn-counts :
      (pair : HostOsdPair) (next : Assoc String → Pass → M (Pass × Assoc String))
      → ((waiting : Assoc String) (p : Pass) (log : Log)
          → p.not_completed ≤ (next waiting p log).0.0.not_completed)
      → (waiting : Assoc String) (s : RemoveStatus) (p : Pass) (log : Log)
      → suc p.not_completed ≤ (pending_turn env c pair next waiting s p log).0.0.not_completed
  unfolding pending_turn
  pending_turn-counts pair next grows waiting s p log =
      if_ind (λ (k : M (Pass × Assoc String)). suc p.not_completed ≤ (k log).0.0.not_completed)
        (same_phase s.status pending) (grows _ _ log) (omega arith)

  pending_loop-counts :
      (pairs : List HostOsdPair) (waiting : Assoc String) (p : Pass) (log : Log)
      → p.not_completed ≤ (pending_loop env c pairs waiting p log).0.0.not_completed
  unfolding pending_loop
  pending_loop-counts [] waiting p log = omega arith
  pending_loop-counts (pair ∷ pairs) waiting p log = omega (
    arith,
    pending_turn-counts pair (pending_loop env c pairs) (pending_loop-counts pairs) waiting
        (try_to_move_osd_out env c.lcm_config pair.osd_id (osd_status (osd_of pair p.info)) log).0 p
        (try_to_move_osd_out env c.lcm_config pair.osd_id (osd_status (osd_of pair p.info)) log).1,
  )

  -- The task is finished: nothing was pending, and nothing was counted before.
  conclude_pending :
      (pairs : List HostOsdPair) (p : Pass) (log : Log)
      → (conclude_pass
          (pending_loop env c pairs [] p log).0.0
          (pending_loop env c pairs [] p log).0.1).0
        ≡ true
      → (length pairs ≡ 0)
        × (p.not_completed ≡ 0)
        × ((conclude_pass
              (pending_loop env c pairs [] p log).0.0
              (pending_loop env c pairs [] p log).0.1).1
            ≡ p.info)
  unfolding pending_loop
  conclude_pending [] p log e = ground arith
  conclude_pending (pair ∷ pairs) p log e = absurd (
      ground (
        arith,
        pending_turn-counts pair (pending_loop env c pairs) (pending_loop-counts pairs) []
            (try_to_move_osd_out env c.lcm_config pair.osd_id (osd_status (osd_of pair p.info))
              log).0
            p
            (try_to_move_osd_out env c.lcm_config pair.osd_id (osd_status (osd_of pair p.info))
              log).1,
      ))

  -- The same for the part of the call that follows the other loops.
  pub take_out-finished :
      (reqs : Requests) (p : Pass) (log : Log)
      → (take_out env c reqs p log).0.0 ≡ true
      → (length (bucket pending reqs) ≡ 0)
        × (p.not_completed ≡ 0)
        × ((take_out env c reqs p log).0.1 ≡ p.info)
  unfolding take_out
  take_out-finished reqs p log e = elim (Bool-cases (is_empty (bucket waiting_rebalance reqs))) [
    | inl idle ↦ rw idle (conclude_pending (bucket pending reqs) p log (rw idle at e))
    | inr busy ↦ absurd (false≢true (rw busy at e))
  ]

  -- After `advance` nothing was counted: only the removed OSDs had their turn.
  pub advance-finished :
      (reqs : Requests) (p : Pass) (log : Log)
      → (advance env c reqs p log).0.not_completed ≡ 0
      → (length (bucket stray reqs) ≡ 0)
        × (length (bucket in_progress reqs) ≡ 0)
        × (length (bucket waiting_rebalance reqs) ≡ 0)
        × ((advance env c reqs p log).0.info
            ≡ (sort_issues (each (finish_one env c reqs) (bucket finished reqs) p log).0).info)
  unfolding advance
  advance-finished reqs p log e =
      let (p1, l1) = each (finish_one env c reqs) (bucket finished reqs) p log in
      let (p2, l2) = each (stray_one env c) (bucket stray reqs) (sort_issues p1) l1 in
      let (p3, l3) = each (remove_one env c) (bucket in_progress reqs) p2 l2 in
      let rebalanced =
        each_idle (rebalance_one env c) rebalance_one-counts (bucket waiting_rebalance reqs) p3 l3
          e in
      let removed =
        each_idle (remove_one env c) remove_one-counts (bucket in_progress reqs) p2 l2
          rebalanced.1 in
      let strays =
        each_idle (stray_one env c) stray_one-counts (bucket stray reqs) (sort_issues p1) l1
          removed.1 in
      (strays.0, removed.0, rebalanced.0, ap (λ p'. p'.info) (rebalanced.2 ∙ removed.2 ∙ strays.2))
