-- ===== src/OsdRemove/Controller.antt =====
-- `Reconcile` of controller.go.
pub mod Oldest
pub mod Turn
use pelagia.Prelude.{
  Assoc, ℕ, String, Bool, true, false, not, ◌||◌, Option, none, some, List, [], ◌∷◌, sprint, ltb,
  ◌==◌, if◌then◌else◌, String_discrete,
}
use mathlib.Core.Bool.{decide}
use pelagia.Task.{
  TaskPhase, completed, completed_with_warnings, failed, validation_failed, aborted, TaskStatus,
  OsdRemoveTask, TaskStatus-discrete,
}
use pelagia.Common.Objects.{CephCluster, DeploymentPhase, DeploymentHealth, AnalysisStatus}
use pelagia.Common.World.{
  Error, Result, ok, err, map_ok, Env, M, ◌>>=◌, pure, and_then, fetch_task, fetch_tasks,
  fetch_healths, fetch_cluster, fetch_ceph_deployment, drop_task, write_owners,
  fetch_task_for_update, write_status,
}
use pelagia.OsdRemove.Config.{LcmConfig, TaskConfig}
use pelagia.OsdRemove.Phase.{phase_text, prepare_abort_status, prepare_init_status}
use pelagia.OsdRemove.Processer.{handle_task}

abbrev pub is_closed : TaskPhase → Bool
is_closed completed = true
is_closed completed_with_warnings = true
is_closed failed = true
is_closed validation_failed = true
is_closed aborted = true
is_closed _ = false

-- `checkTaskActive`
unfoldable pub check_task_active : Option TaskStatus → Bool
check_task_active none = true
check_task_active (some s) = not (is_closed s.phase)

abbrev pub older : Option OsdRemoveTask → OsdRemoveTask → Option OsdRemoveTask
older none t = some t
older (some b) t = if ltb t.created b.created then some t else some b

-- The body of the loop: tasks that are not active are passed over.
unfoldable pub choose : Option OsdRemoveTask → OsdRemoveTask → Option OsdRemoveTask
choose best t = if check_task_active t.status then older best t else best

-- The loop of `getOldestCephOsdRemoveTaskName`, with the candidate so far.
unfoldable pub oldest_from : Option OsdRemoveTask → List OsdRemoveTask → Option OsdRemoveTask
oldest_from best [] = best
oldest_from best (t ∷ ts) = oldest_from (choose best t) ts

abbrev pub name_of : Option OsdRemoveTask → String
name_of none = ""
name_of (some t) = t.name

-- `getOldestCephOsdRemoveTaskName`
unfoldable pub oldest_task_name : List OsdRemoveTask → String
oldest_task_name tasks = name_of (oldest_from none tasks)

-- `reconcile.Result`: no requeue, at once, or after the interval.
pub data Requeue : Type 0 where
  done immediately after_interval : Requeue

abbrev pub Outcome : Type 0
Outcome = Requeue × Option Error

-- `if err != nil { return Result{RequeueAfter: requeueAfterInterval}, nil }`
abbrev pub or_later {ℓ} : {A : Type ℓ} → Result A → (A → M Outcome) → M Outcome
or_later (err e) k = pure (after_interval, none)
or_later (ok a) k = k a

abbrev pub finish : Requeue → M Outcome
finish r = pure (r, none)

-- `err == nil` and the deployment's phase, none if there is no such resource.
abbrev pub deployment_phase : Result DeploymentPhase → Result (Option DeploymentPhase)
deployment_phase (ok phase) = ok (some phase)
deployment_phase (err e) = if e.not_found || e.no_match then ok none else err e

abbrev pub has_fsid : Option String → Bool
has_fsid none = false
has_fsid (some fsid) = not (fsid == "")

module _ (env : Env) (config : LcmConfig) (name : String) where
  -- `updateCephOsdRemoveTaskStatus`
  unfoldable pub update_task_status : TaskStatus → M (Result (Unit {0}))
  update_task_status status = do
    found ← fetch_task_for_update env
    and_then found (λ _. write_status env status)

  -- The status is written with a note on what the task waits for.
  unfoldable pub note : TaskStatus → String → M Outcome
  note status text = do
    _ ← update_task_status (record status { phase_info = text })
    finish after_interval

  unfoldable pub abort : TaskStatus → String → M Outcome
  abort status reason = do
    s ← prepare_abort_status env status reason
    r ← update_task_status s
    or_later r (λ _. finish done)

  -- From `newStatus := removeConfig.handleTask()` on.
  unfoldable pub handled : TaskStatus → TaskStatus × Bool → M Outcome
  handled old (new, requeue) =
      let requeued = if requeue then immediately else after_interval in
      if decide (TaskStatus-discrete new old) then finish requeued else do
        r ← update_task_status new
        or_later r (λ _. finish (if check_task_active (some new) then requeued else done))

  unfoldable pub with_deployment :
      OsdRemoveTask
      → TaskStatus
      → CephCluster
      → Assoc AnalysisStatus
      → ℕ
      → Option DeploymentPhase
      → M Outcome
  with_deployment task status cluster analysis generation phase = do
    r ← handle_task env (record {
      task = task;
      status = status;
      ceph_cluster = cluster;
      validated_generation = generation;
      spec_analysis = analysis;
      ceph_deployment_phase = phase;
      lcm_config = config;
    })
    handled status r

  -- Only the oldest active task is handled.
  unfoldable pub in_turn :
      OsdRemoveTask
      → TaskStatus
      → CephCluster
      → DeploymentHealth
      → ℕ
      → List OsdRemoveTask
      → M Outcome
  in_turn task status cluster health generation tasks =
      if oldest_task_name tasks == name
      then (do
        d ← fetch_ceph_deployment env health.name
        or_later (deployment_phase d)
            (with_deployment task status cluster health.spec_analysis generation))
      else note status "waiting for older CephOsdRemoveTask completion"

  unfoldable pub with_analysis :
      OsdRemoveTask → TaskStatus → CephCluster → DeploymentHealth → Option ℕ → M Outcome
  with_analysis task status cluster health none =
      note status "related CephDeploymentHealth has no CephCluster osd storage analysis yet"
  with_analysis task status cluster health (some generation) = do
    tasks ← fetch_tasks env
    or_later tasks (in_turn task status cluster health generation)

  unfoldable pub with_cluster :
      OsdRemoveTask → TaskStatus → DeploymentHealth → CephCluster → M Outcome
  with_cluster task status health cluster =
      if cluster.external
      then abort status "detected external CephCluster configuration"
      else if not (has_fsid cluster.fsid)
      then note status "CephCluster is not deployed yet, no fsid provided"
      else if not health.has_cluster_status
      then note status "related CephDeploymentHealth has no CephCluster status yet"
      else with_analysis task status cluster health health.validated_generation

  abbrev same_owners : List String → List String → Bool
  same_owners [] [] = true
  same_owners (r ∷ refs) (o ∷ owners) = if r == o then same_owners refs owners else false
  same_owners _ _ = false

  unfoldable pub with_owners :
      OsdRemoveTask → TaskStatus → DeploymentHealth → List String → M Outcome
  with_owners task status health refs =
      if same_owners refs task.owner_references
      then (do
        cluster ← fetch_cluster env health.name
        or_later cluster (with_cluster task status health))
      else do r ← write_owners env refs; or_later r (λ _. finish immediately)

  -- There should be one CephDeploymentHealth in the namespace.
  unfoldable pub with_healths : OsdRemoveTask → TaskStatus → List DeploymentHealth → M Outcome
  with_healths task status [] = do r ← drop_task env; or_later r (λ _. finish done)
  with_healths task status (h ∷ []) = or_later (env.owner_refs h) (with_owners task status h)
  with_healths task status (h ∷ h' ∷ hs) =
      if check_task_active (some status)
      then abort status "multiple CephDeploymentHealth objects found in namespace"
      else finish done

  unfoldable pub with_task_status : OsdRemoveTask → Option TaskStatus → M Outcome
  with_task_status task none = do
    s ← prepare_init_status env task
    r ← update_task_status s
    or_later r (λ _. finish immediately)
  with_task_status task (some old) = do
    let status = record old { phase_info = "" }
    healths ← fetch_healths env
    or_later healths (with_healths task status)

  unfoldable pub with_task : Result OsdRemoveTask → M Outcome
  with_task (ok task) = with_task_status task task.status
  with_task (err e) = if e.not_found then finish done else pure (after_interval, some e)

  -- `Reconcile`
  unfoldable pub reconcile : M Outcome
  reconcile = do task ← fetch_task env; with_task task
