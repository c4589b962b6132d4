-- ===== src/OsdRemove/Processer/Approval.antt =====
-- No OSD is removed before the user has approved the task.
use pelagia.OsdRemove.Phase.{move_task_phase, prepare_abort_status}
use pelagia.Prelude.{
  some, get_last?, get_last?-snoc, false≢true, ◌≡◌, refl, ap, subst, ◌⊎◌, inl, inr, Bool, true,
  false, ◌||◌,
}
use pelagia.Task.{
  TaskPhase, completed_with_warnings, failed, pending, waiting_operator, processing,
  approve_waiting, TaskCondition, TaskStatus,
}
use pelagia.Common.World.{Env, Log}
use pelagia.OsdRemove.Config.{TaskConfig}
use pelagia.OsdRemove.Processer.{
  with_latest, dispatch, on_approve_waiting, move, handle_task, is_approved,
}
use pelagia.OsdRemove.Processer.Written.{cleared, Written, noted, aborted}
use pelagia.OsdRemove.Processer.Changes.{IsUnchanged}
use pelagia.OsdRemove.Processer.Moves.{
  Allowed, IsApproved, begin, nothing_to_remove, invalid, ask, approved_before, approved,
  revalidate, spec_changed, operator_stopped, removed, removed_with_warnings, not_removed, Moves,
  keeps, moves, lost, handle_task-Moves,
}

-- The phases behind the approval; a task that is completed may have had nothing to remove.
abbrev pub is_past_approval : TaskPhase → Bool
is_past_approval waiting_operator = true
is_past_approval processing = true
is_past_approval completed_with_warnings = true
is_past_approval failed = true
is_past_approval _ = false

-- A status that calls of Reconcile can store from that of a new task on, under any environment, with
-- the spec, the cluster and the parameters as they happen to be at each call. A call writes the
-- stored status with a note or as aborted, or it runs handleTask on the stored status without its
-- note; the flag tells whether the task was approved when handleTask ran.
pub data Reaches : Bool → TaskStatus → Type 0 where
  new : {s : TaskStatus} → s.phase ≡ pending → Reaches false s
  written :
      {was_approved : Bool} {s t : TaskStatus}
      → Reaches was_approved s
      → Written s t
      → Reaches was_approved t
  pass :
      {was_approved : Bool} {s : TaskStatus} (env : Env) (c : TaskConfig) (log : Log)
      → Reaches was_approved s
      → c.status ≡ cleared s
      → Reaches (was_approved || is_approved c.task.spec) (handle_task env c log).0.0

enters :
    {env : Env} {c : TaskConfig} {from to : TaskPhase}
    → Allowed env c from to
    → is_past_approval to ≡ true
    → (is_past_approval from ≡ true) ⊎ IsApproved c
enters begin h = absurd (false≢true h)
enters (nothing_to_remove r) h = absurd (false≢true h)
enters (invalid r) h = absurd (false≢true h)
enters (ask r n) h = absurd (false≢true h)
enters (approved_before r a) h = inr a
enters (approved a) h = inr a
enters (revalidate latest n l u) h = absurd (false≢true h)
enters (spec_changed latest l u) h = absurd (false≢true h)
enters (operator_stopped latest log l u stopped) h = inl refl
enters removed h = absurd (false≢true h)
enters removed_with_warnings h = inl refl
enters not_removed h = inl refl

Moves-past_approval :
    {env : Env} {c : TaskConfig} {old new : TaskStatus}
    → Moves env c old new
    → is_past_approval new.phase ≡ true
    → (is_past_approval old.phase ≡ true) ⊎ IsApproved c
Moves-past_approval (keeps p h) past = inl (subst (λ x. is_past_approval x ≡ true) p past)
Moves-past_approval (moves condition a p h) past = enters a past
Moves-past_approval (lost condition e p q h) past =
    absurd (false≢true (subst (λ x. is_past_approval x ≡ true) p past))

Written-past_approval :
    {s t : TaskStatus}
    → Written s t
    → is_past_approval t.phase ≡ true
    → is_past_approval s.phase ≡ true
unfolding prepare_abort_status
Written-past_approval (noted text) past = past
Written-past_approval (aborted env reason log) past = absurd (false≢true past)

-- Whatever sequence of calls of Reconcile a new task sees, in whatever environments, with notes,
-- aborts and passes of handleTask, its status gets past the approval only if its spec was approved
-- at one of the passes of handleTask.
pub is_past_approval-Reaches :
    {was_approved : Bool} {s : TaskStatus}
    → Reaches was_approved s
    → is_past_approval s.phase ≡ true
    → was_approved ≡ true
is_past_approval-Reaches (new p) past =
    absurd (false≢true (subst (λ x. is_past_approval x ≡ true) p past))
is_past_approval-Reaches (written r w) past =
    is_past_approval-Reaches r (Written-past_approval w past)
is_past_approval-Reaches (pass {was_approved} env c log r e) past =
    elim (Moves-past_approval (handle_task-Moves env c log) past) [
      | inl before ↦
          ap (λ b. b || is_approved c.task.spec)
            (is_past_approval-Reaches r (subst (λ s. is_past_approval s.phase ≡ true) e before))
      | inr now ↦ or-true was_approved (is_approved c.task.spec) now
    ]
  where
    or-true : (a b : Bool) → b ≡ true → (a || b) ≡ true
    or-true true b e = refl
    or-true false b e = e

-- When the approval comes, the cleanup map is kept as it was validated, and the new condition
-- has the nodes and the generation of this pass: whatever the spec had been changed to meanwhile
-- counts as unchanged from then on.
pub handle_task-approved :
    (env : Env) (c : TaskConfig) (latest : TaskCondition) (log : Log)
    → c.status.phase ≡ approve_waiting
    → get_last? c.status.conditions ≡ some latest
    → IsApproved c
    → (last : TaskCondition) × (get_last? (handle_task env c log).0.0.conditions ≡ some last)
      × IsUnchanged c last
      × ((handle_task env c log).0.0.phase ≡ waiting_operator)
      × ((handle_task env c log).0.0.remove_info ≡ c.status.remove_info)
unfolding handle_task with_latest dispatch on_approve_waiting move move_task_phase
handle_task-approved env c latest log waiting is_latest is_ok =
    rw (is_latest, waiting, is_ok)
      (
        _,
        get_last?-snoc c.status.conditions _,
        record { same_nodes = refl; same_generation = refl },
        refl,
        refl,
      )
