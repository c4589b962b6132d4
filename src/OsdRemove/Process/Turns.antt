-- ===== src/OsdRemove/Process/Turns.antt =====
-- What the loop bodies do to the numbers of OSDs in each phase, and to the number of OSDs that are
-- not completed.
use pelagia.Prelude.{
  ◌≤◌, ◌≡◌, refl, ◌∙◌, String, not, ◌&&◌, ◌||◌, Option, none, some, List, [], ◌∷◌, arith, ap,
  if_ind, true, contains, contains-append_left,
}
use pelagia.Task.{
  RemovePhase, completed, failed, skipped, RemoveStatus, OsdMapping, HostMapping, same_phase,
}
use pelagia.Common.World.{Env, Log, M}
use pelagia.OsdRemove.Config.{TaskConfig}
use pelagia.OsdRemove.Jobs.Run.{job_of}
use pelagia.OsdRemove.Process.Collect.{HostOsdPair, Requests, update, set_job, set_deployment}
use pelagia.OsdRemove.Process.Finished.{
  Pass, each, on_info, add_issue, deploy_turn, job_waits, job_ran, job_failed, job_unexpected,
  job_ended, finish_turn, finish_one, is_finished, needs_job, skips_job,
}
use pelagia.OsdRemove.Process.Plan.{planned, erase_hosts, planned-update}
use pelagia.OsdRemove.Process.Reported.{host_phases, host_phases-update}
use pelagia.OsdRemove.Process.Count.{count_in, count_hosts, count-update-eq}

-- A loop keeps what its body keeps.
pub each-keeps {ℓ κ μ} :
    {A : Type ℓ} {S : Type κ} (P : S → Type μ) (body : A → S → M S)
    → ((a : A) (s : S) (log : Log) → P s → P (body a s log).0)
    → (xs : List A) (s : S) (log : Log) → P s
    → P (each body xs s log).0
unfolding each
each-keeps P body keep [] s log p = p
each-keeps P body keep (x ∷ xs) s log p =
    each-keeps P body keep xs (body x s log).0 (body x s log).1 (keep x s log p)

module _ (q : RemovePhase) (pair : HostOsdPair) (p : Pass) (s : RemoveStatus) where
  count-set_job : count_in q (update pair (set_job s) p.info) ≡ count_in q p.info
  count-set_job = count-update-eq q (set_job s) (λ r. refl) pair p.info

  count-set_deployment : count_in q (update pair (set_deployment s) p.info) ≡ count_in q p.info
  count-set_deployment = count-update-eq q (set_deployment s) (λ r. refl) pair p.info

-- `p'` has the plan of `p`, its phases of the OSDs, its issues and maybe more, and no fewer OSDs that
-- are not completed.
pub record Follows (p p' : Pass) : Type 0 where
  pub same_plan : planned p'.info ≡ planned p.info
  pub same_counts : (q : RemovePhase) → count_in q p'.info ≡ count_in q p.info
  pub not_less : p.not_completed ≤ p'.not_completed
  pub same_phases : host_phases p'.info.cleanup_map ≡ host_phases p.info.cleanup_map
  pub issues_kept : (s : String) → contains p.issues s ≡ true → contains p'.issues s ≡ true

pub Follows-refl : (p : Pass) → Follows p p
Follows-refl p = record {
  same_plan = refl;
  same_counts = λ q. refl;
  not_less = omega arith;
  same_phases = refl;
  issues_kept = λ s h. h;
}

pub Follows-trans : {a b c : Pass} → Follows a b → Follows b c → Follows a c
Follows-trans f g = record {
  same_plan = g.same_plan ∙ f.same_plan;
  same_counts = λ q. g.same_counts q ∙ f.same_counts q;
  not_less = omega arith;
  same_phases = g.same_phases ∙ f.same_phases;
  issues_kept = λ s h. g.issues_kept s (f.issues_kept s h);
}

Follows-keep :
    (p p' : Pass)
    → p'.info.cleanup_map ≡ p.info.cleanup_map
    → p.not_completed ≤ p'.not_completed
    → ((s : String) → contains p.issues s ≡ true → contains p'.issues s ≡ true)
    → Follows p p'
Follows-keep p p' e h k = record {
  same_plan = ap erase_hosts e;
  same_counts = λ q. ap (count_hosts q) e;
  not_less = h;
  same_phases = ap host_phases e;
  issues_kept = k;
}

add_issue-Follows : (text : String) (p : Pass) → Follows p (add_issue text p)
add_issue-Follows text p =
    Follows-keep p _ refl (omega arith) (λ s h. contains-append_left p.issues (text ∷ []) s h)

module _ (env : Env) (c : TaskConfig) (reqs : Requests) (pair : HostOsdPair) where
  deploy_turn-Follows :
      (m : OsdMapping) (d : Option RemoveStatus) (p : Pass) (log : Log)
      → Follows p (deploy_turn env c reqs pair m d p log).0
  unfolding deploy_turn
  deploy_turn-Follows m none p log =
      if_ind (λ (k : M Pass). Follows p (k log).0) (is_finished m && not m.skip_device_cleanup_job)
        (record {
          same_plan = planned-update pair (set_deployment _) p.info;
          same_counts = λ q. count-set_deployment q pair p _;
          not_less = omega arith;
          same_phases = host_phases-update (set_deployment _) (λ r. refl) pair p.info;
          issues_kept = λ t h. h;
        })
        (record {
          same_plan = planned-update pair (set_deployment _) p.info;
          same_counts = λ q. count-set_deployment q pair p _;
          not_less = omega arith;
          same_phases = host_phases-update (set_deployment _) (λ r. refl) pair p.info;
          issues_kept = λ t h. h;
        })
  deploy_turn-Follows m (some s) p log =
      if_ind (Follows p) (same_phase s.status failed) (add_issue-Follows _ p)
        (Follows-keep p p refl (omega arith) (λ t h. h))

  set_job-Follows : (s : RemoveStatus) (p : Pass) → Follows p (on_info (update pair (set_job s)) p)
  set_job-Follows s p = record {
    same_plan = planned-update pair (set_job s) p.info;
    same_counts = λ q. count-set_job q pair p s;
    not_less = omega arith;
    same_phases = host_phases-update (set_job s) (λ r. refl) pair p.info;
    issues_kept = λ t h. h;
  }

  job_ran-Follows :
      (m : OsdMapping) (s : RemoveStatus) (p : Pass) (log : Log)
      → Follows p (job_ran env c reqs pair m s p log).0
  unfolding job_ran job_waits
  job_ran-Follows m s p log =
      if_ind (λ (k : M Pass). Follows p (k log).0) (same_phase s.status completed)
        (Follows-trans (set_job-Follows s p) (deploy_turn-Follows m _ _ log))
        (Follows-trans (set_job-Follows s p) (Follows-keep _ _ refl (omega arith) (λ t h. h)))

  job_ended-Follows :
      (m : OsdMapping) (d : Option RemoveStatus) (p : Pass) (log : Log)
      → Follows p (job_ended env c reqs pair m d p log).0
  unfolding job_ended job_failed job_unexpected
  job_ended-Follows m none p log = Follows-keep p p refl (omega arith) (λ t h. h)
  job_ended-Follows m (some s) p log =
      if_ind (λ (k : M Pass). Follows p (k log).0) (same_phase s.status failed)
        (Follows-trans (add_issue-Follows _ p) (add_issue-Follows _ _))
        (if_ind (λ (k : M Pass). Follows p (k log).0)
          (same_phase s.status completed || same_phase s.status skipped)
          (deploy_turn-Follows m _ p log) (Follows-keep p _ refl (omega arith) (λ t h. h)))

  finish_turn-Follows :
      (h : HostMapping) (m : OsdMapping) (p : Pass) (log : Log)
      → Follows p (finish_turn env c reqs pair h m p log).0
  unfolding finish_turn
  finish_turn-Follows h m p log =
      if_ind (λ (k : M Pass). Follows p (k log).0) (needs_job (job_of m))
        (if_ind (λ (k : M Pass). Follows p (k log).0) (skips_job h m (job_of m))
          (Follows-trans (set_job-Follows _ p) (deploy_turn-Follows m _ _ log))
          (job_ran-Follows m _ p _))
        (job_ended-Follows m _ p log)

  pub finish_one-Follows : (p : Pass) (log : Log) → Follows p (finish_one env c reqs pair p log).0
  unfolding finish_one
  finish_one-Follows p log = finish_turn-Follows _ _ p log
