-- ===== src/OsdRemove/Processer/Moves.antt =====
-- The moves of a task between its phases.
use pelagia.OsdRemove.Processer.Changes.{
  IsUnchanged, IsReady, spec_changes-IsUnchanged, spec_changes-not-IsUnchanged, held-IsReady,
}
use pelagia.Prelude.{
  ◌≡◌, refl, sym, ap, subst, inl, inr, String, Bool, true, false, not, ◌&&◌, Option, none, some,
  List, [], ◌∷◌, ◌++◌, Option-cases, is_empty, get_last?, nat_eq, if◌then◌else◌,
}
use pelagia.Task.{
  TaskPhase, approve_waiting, aborted, completed, completed_with_warnings, failed, pending,
  waiting_operator, processing, validating, validation_failed, TaskRemoveInfo, TaskCondition,
  TaskStatus,
}
use pelagia.Common.World.{Env, Log, M}
use pelagia.OsdRemove.Config.{TaskConfig}
use pelagia.OsdRemove.Phase.{move_task_phase, prepare_abort_status}
use pelagia.OsdRemove.Process.Pass.{Processed}
use pelagia.OsdRemove.Processer.{
  Handled, move, validated, on_validating, on_approve_waiting, on_waiting_operator, processed,
  on_processing, dispatch, with_latest, handle_task, spec_changes, check_operator_stopped, is_held,
  is_approved,
}

abbrev pub IsApproved : TaskConfig → Type 0
IsApproved c = is_approved c.task.spec ≡ true

-- The moves between phases and when each of them may be made.
pub data Allowed (env : Env) (c : TaskConfig) : TaskPhase → TaskPhase → Type 0 where
  begin : Allowed env c pending validating
  nothing_to_remove : IsReady c → Allowed env c validating completed
  invalid : IsReady c → Allowed env c validating validation_failed
  ask : IsReady c → ¬ IsApproved c → Allowed env c validating approve_waiting
  approved_before : IsReady c → IsApproved c → Allowed env c validating waiting_operator
  approved : IsApproved c → Allowed env c approve_waiting waiting_operator
  revalidate :
      (latest : TaskCondition)
      → ¬ IsApproved c
      → get_last? c.status.conditions ≡ some latest
      → ¬ IsUnchanged c latest
      → Allowed env c approve_waiting validating
  spec_changed :
      (latest : TaskCondition)
      → get_last? c.status.conditions ≡ some latest
      → ¬ IsUnchanged c latest
      → Allowed env c waiting_operator aborted
  operator_stopped :
      (latest : TaskCondition) (log : Log)
      → get_last? c.status.conditions ≡ some latest
      → IsUnchanged c latest
      → (check_operator_stopped env c log).0 ≡ true
      → Allowed env c waiting_operator processing
  removed : Allowed env c processing completed
  removed_with_warnings : Allowed env c processing completed_with_warnings
  not_removed : Allowed env c processing failed

-- A new status keeps the phase and its history, or makes an allowed move and records it, or aborts
-- a task whose history is lost.
pub data Moves (env : Env) (c : TaskConfig) (old : TaskStatus) : TaskStatus → Type 0 where
  keeps :
      {new : TaskStatus}
      → new.phase ≡ old.phase
      → new.conditions ≡ old.conditions
      → Moves env c old new
  moves :
      {new : TaskStatus} (condition : TaskCondition)
      → Allowed env c old.phase new.phase
      → condition.phase ≡ new.phase
      → new.conditions ≡ old.conditions ++ condition ∷ []
      → Moves env c old new
  lost :
      {new : TaskStatus} (condition : TaskCondition)
      → old.conditions ≡ []
      → new.phase ≡ aborted
      → condition.phase ≡ aborted
      → new.conditions ≡ old.conditions ++ condition ∷ []
      → Moves env c old new

get_last?-none {ℓ} : {A : Type ℓ} (xs : List A) → get_last? xs ≡ none → xs ≡ []
get_last?-none [] e = refl
get_last?-none (x ∷ []) e = cc
get_last?-none (x ∷ y ∷ xs) e = cc (get_last?-none (y ∷ xs) e)

not-IsApproved : (c : TaskConfig) → is_approved c.task.spec ≡ false → ¬ IsApproved c
not-IsApproved c e a = cc

module _ (env : Env) (c : TaskConfig) where
  abbrev Does : M Handled → Type 0
  Does m = (log : Log) → Moves env c c.status (m log).0.0

  move-Moves :
      (phase : TaskPhase) (reason : String) (info : Option TaskRemoveInfo) (requeue : Bool)
      → Allowed env c c.status.phase phase
      → Does (move env c phase reason info requeue)
  unfolding move move_task_phase
  move-Moves phase reason info requeue a log = moves _ a refl refl

  stay-Moves : {new : TaskStatus} → new ≡ c.status → Moves env c c.status new
  stay-Moves e = keeps (ap (λ s. s.phase) e) (ap (λ s. s.conditions) e)

  -- `Moves` of a conditional, from those of its branches.
  either :
      (b : Bool) (m n : M Handled)
      → (b ≡ true → Does m)
      → (b ≡ false → Does n)
      → Does (if b then m else n)
  either true m n x y = x refl
  either false m n x y = y refl

  module _ (from : TaskPhase) (at : c.status.phase ≡ from) where
    go :
        (to : TaskPhase) (reason : String) (info : Option TaskRemoveInfo) (requeue : Bool)
        → Allowed env c from to
        → Does (move env c to reason info requeue)
    go to reason info requeue a =
        move-Moves to reason info requeue (subst (λ x. Allowed env c x to) (sym at) a)

  validated-Moves :
      (info : TaskRemoveInfo)
      → c.status.phase ≡ validating
      → IsReady c
      → Does (validated env c info)
  unfolding validated
  validated-Moves info e r =
      either (is_empty info.issues) _ _
        (λ _.
          either (is_empty info.cleanup_map) _ _
            (λ _. go validating e _ _ _ _ (nothing_to_remove r))
            (λ _.
              either (is_approved c.task.spec) _ _
                (λ yes_approved. go validating e _ _ _ _ (approved_before r yes_approved))
                (λ not_yet. go validating e _ _ _ _ (ask r (not-IsApproved c not_yet)))))
        (λ _. go validating e _ _ _ _ (invalid r))

  on_validating-Moves : c.status.phase ≡ validating → Does (on_validating env c)
  unfolding on_validating
  on_validating-Moves e =
      either
        (is_held c.ceph_deployment_phase && nat_eq c.validated_generation c.ceph_cluster.generation)
        _ _ (λ h log. validated-Moves _ e (held-IsReady c h) _) (λ _ log. stay-Moves refl)

  module _ (latest : TaskCondition) (is_latest : get_last? c.status.conditions ≡ some latest) where
    on_approve_waiting-Moves :
        c.status.phase ≡ approve_waiting → Does (on_approve_waiting env c latest)
    unfolding on_approve_waiting
    on_approve_waiting-Moves e =
        either (is_approved c.task.spec) _ _ (λ a. go approve_waiting e _ _ _ _ (approved a))
          (λ not_yet.
            either (is_empty (spec_changes c latest)) _ _ (λ _ log. stay-Moves refl)
              (λ changed. go approve_waiting e _ _ _ _ (
                revalidate latest (not-IsApproved c not_yet) is_latest
                  (spec_changes-not-IsUnchanged c latest changed))))

    on_waiting_operator-Moves :
        c.status.phase ≡ waiting_operator → Does (on_waiting_operator env c latest)
    unfolding on_waiting_operator
    on_waiting_operator-Moves e =
        either (is_empty (spec_changes c latest)) _ _
          (λ same log.
            either (check_operator_stopped env c log).0 _ _
              (λ stopped. go waiting_operator e _ _ _ _ (
                operator_stopped latest log is_latest (spec_changes-IsUnchanged c latest same)
                  stopped))
              (λ _ l. stay-Moves refl) _)
          (λ changed.
            go waiting_operator e _ _ _ _
              (spec_changed latest is_latest (spec_changes-not-IsUnchanged c latest changed)))

  processed-Moves : (r : Processed) → c.status.phase ≡ processing → Does (processed env c r)
  unfolding processed
  processed-Moves (done, info, requeue) e =
      either (not done) _ _ (λ _ log. keeps refl refl)
        (λ _.
          either (is_empty info.issues) _ _ (λ _. with_warnings (is_empty info.warnings))
            (λ _. go processing e _ _ _ _ not_removed))
    where
      with_warnings :
          (b : Bool)
          → Does (
              move env c
                (if b then completed else completed_with_warnings)
                "osd remove completed"
                (some info)
                requeue)
      with_warnings true = go processing e _ _ _ _ removed
      with_warnings false = go processing e _ _ _ _ removed_with_warnings

  dispatch-Moves :
      (phase : TaskPhase) (latest : TaskCondition)
      → get_last? c.status.conditions ≡ some latest
      → c.status.phase ≡ phase
      → Does (dispatch env c phase latest)
  unfolding dispatch on_processing
  dispatch-Moves pending latest l e = go pending e _ _ _ _ begin
  dispatch-Moves validating latest l e = on_validating-Moves e
  dispatch-Moves approve_waiting latest l e = on_approve_waiting-Moves latest l e
  dispatch-Moves waiting_operator latest l e = on_waiting_operator-Moves latest l e
  dispatch-Moves processing latest l e = λ log. processed-Moves _ e _
  dispatch-Moves _ latest l e = λ log. stay-Moves refl

  -- Every pass keeps the phase and the history of the task, or makes an allowed move and appends
  -- one condition with the new phase, or aborts a task that has no history.
  pub handle_task-Moves : (log : Log) → Moves env c c.status (handle_task env c log).0.0
  unfolding handle_task with_latest prepare_abort_status
  handle_task-Moves log = elim (Option-cases (get_last? c.status.conditions)) [
    | inl e ↦ rw e (lost _ (get_last?-none c.status.conditions e) refl refl refl)
    | inr (latest, e) ↦ rw e (dispatch-Moves c.status.phase latest e refl log)
  ]
