-- ===== src/OsdRemove/Processer.antt =====
-- processer.go, with the requests of utils.go that it makes.
pub mod Changes
pub mod Written
pub mod Moves
pub mod Approval
pub mod History
pub mod Reads
use pelagia.Prelude.{
  ℕ, String, Bool, true, false, not, ◌&&◌, ◌++◌, Option, none, some, List, [], ◌∷◌, sprint,
  is_empty, get_last?, insert, Assoc, nat_eq, ◌==◌, if◌then◌else◌,
}
use mathlib.Core.Bool.{decide}
use pelagia.Task.{
  TaskPhase, approve_waiting, aborted, completed, completed_with_warnings, failed, pending,
  waiting_operator, processing, validating, validation_failed, Nodes, TaskSpec, TaskRemoveInfo,
  TaskCondition, TaskStatus, CephClusterSpecVersion, Nodes-discrete,
}
use pelagia.Common.Objects.{
  OsdInfo, OsdMetadataInfo, TreeNode, Node, DeploymentStatus, DeploymentPhase, on_hold,
}
use pelagia.Common.World.{
  Error, Result, ok, err, map_ok, Env, M, ◌>>=◌, pure, fetch_deployment, fetch_nodes, run_and_parse,
}
use pelagia.OsdRemove.Config.{TaskConfig}
use pelagia.OsdRemove.Spec.Plan.{get_osds_for_cleanup}
use pelagia.OsdRemove.Phase.{prepare_abort_status, move_task_phase, spec_nodes}
use pelagia.OsdRemove.Process.Pass.{Processed, process_osd_remove_task}

unfoldable pub collect_hosts : List TreeNode → Assoc (List ℕ) → Assoc (List ℕ)
collect_hosts [] hosts = hosts
collect_hosts (n ∷ ns) hosts =
    collect_hosts ns (if n.type == "host" then insert n.name n.children hosts else hosts)

-- `getOsdHostsFromCluster`: the OSDs of each host of the tree.
unfoldable pub osd_hosts : List TreeNode → Assoc (List ℕ)
osd_hosts nodes = collect_hosts nodes []

abbrev pub only_issue : String → TaskRemoveInfo
only_issue text = record { cleanup_map = []; issues = text ∷ []; warnings = [] }

-- The generation of the CephCluster that a condition was written for.
abbrev pub generation_of : Option CephClusterSpecVersion → Option ℕ
generation_of none = none
generation_of (some v) = some v.generation

abbrev pub is_generation : ℕ → Option ℕ → Bool
is_generation n none = false
is_generation n (some m) = nat_eq m n

abbrev pub unless : Bool → String → List String
unless true text = []
unless false text = text ∷ []

-- `specChanges`
unfoldable pub spec_changes : TaskConfig → TaskCondition → List String
spec_changes c latest =
    unless
      (is_generation c.ceph_cluster.generation (generation_of latest.ceph_cluster_spec_version))
      "CephCluster has a new generation version"
    ++ unless (decide (Nodes-discrete latest.nodes (spec_nodes c.task.spec)))
        "task has changed nodes section"

-- `task.Spec != nil && task.Spec.Approve`
abbrev pub is_approved : Option TaskSpec → Bool
is_approved none = false
is_approved (some spec) = spec.approve

-- The CephDeployment, if there is one, lets the task proceed.
abbrev pub is_held : Option DeploymentPhase → Bool
is_held none = true
is_held (some on_hold) = true
is_held (some _) = false

-- A new status and `requeueNow`.
abbrev pub Handled : Type 0
Handled = TaskStatus × Bool

module _ (env : Env) (c : TaskConfig) where
  -- `checkOperatorStopped`
  abbrev no_replicas : Result DeploymentStatus → Bool
  no_replicas (err e) = false
  no_replicas (ok s) =
      nat_eq s.replicas 0 && nat_eq s.ready_replicas 0 && nat_eq s.available_replicas 0

  unfoldable pub check_operator_stopped : M Bool
  check_operator_stopped = do r ← fetch_deployment env "rook-ceph-operator"; pure (no_replicas r)

  abbrev or_issue {ℓ} : {A : Type ℓ} → String → Result A → (A → M TaskRemoveInfo) → M TaskRemoveInfo
  or_issue text (ok a) k = k a
  or_issue text (err e) k = pure (only_issue (sprint (text ∷ e.text ∷ [])))

  -- `validateTask`
  unfoldable pub validate_task : M TaskRemoveInfo
  validate_task = do
    tree ← run_and_parse env env.unmarshal_osd_tree "ceph osd tree -f json"
    or_issue "failed to get ceph cluster nodes list: " tree λ hosts. do
      metadata ← run_and_parse env env.unmarshal_osd_metadata "ceph osd metadata -f json"
      or_issue "failed to get ceph osd metadata info: " metadata λ infos. do
        nodes ← fetch_nodes env
        or_issue "failed to get k8s nodes list: " nodes λ ns. do
          osds ← run_and_parse env env.unmarshal_osds_info "ceph osd info -f json"
          or_issue "failed to get osds info: " osds
              λ os. get_osds_for_cleanup env c (osd_hosts hosts) infos os ns

  -- `processTask`
  unfoldable pub process_task : Option TaskRemoveInfo → M Processed
  process_task none = pure (true, only_issue "empty remove info, aborting", false)
  process_task (some info) = process_osd_remove_task env c info

  unfoldable pub move : TaskPhase → String → Option TaskRemoveInfo → Bool → M Handled
  move phase reason info requeue = do s ← move_task_phase env c phase reason info; pure (s, requeue)

  -- `return c.taskConfig.task.Status`
  abbrev pub stay : M Handled
  stay = pure (c.status, false)

  unfoldable pub validated : TaskRemoveInfo → M Handled
  validated info =
      if is_empty info.issues
      then (if is_empty info.cleanup_map
          then move completed "validation completed, nothing to remove" (some info) false
          else if is_approved c.task.spec
          then move waiting_operator "validation completed, approve pre-set" (some info) true
          else move approve_waiting "validation completed, waiting approve" (some info) false)
      else move validation_failed "validation failed" (some info) false

  unfoldable pub on_validating : M Handled
  on_validating =
      if is_held c.ceph_deployment_phase && nat_eq c.validated_generation c.ceph_cluster.generation
      then (do info ← validate_task; validated info)
      else stay

  unfoldable pub on_approve_waiting : TaskCondition → M Handled
  on_approve_waiting latest =
      if is_approved c.task.spec
      then move waiting_operator "approve received, wait rook-operator stop" c.status.remove_info
          true
      else if is_empty (spec_changes c latest)
      then stay
      else move validating "revalidation triggered" none true

  unfoldable pub on_waiting_operator : TaskCondition → M Handled
  on_waiting_operator latest =
      if is_empty (spec_changes c latest)
      then (do
        stopped ← check_operator_stopped
        if stopped then move processing "processing" c.status.remove_info true else stay)
      else move aborted "detected inappropriate spec changes after receiving approval" none false

  unfoldable pub processed : Processed → M Handled
  processed (finished, info, requeue) =
      if not finished
      then pure (record (c.status) { remove_info = some info }, requeue)
      else if is_empty info.issues
      then move (if is_empty info.warnings then completed else completed_with_warnings)
          "osd remove completed" (some info) requeue
      else move failed "osd remove failed" (some info) requeue

  unfoldable pub on_processing : M Handled
  on_processing = do r ← process_task c.status.remove_info; processed r

  -- The `switch` of `handleTask`.
  unfoldable pub dispatch : TaskPhase → TaskCondition → M Handled
  dispatch pending latest = move validating "validation" none true
  dispatch validating latest = on_validating
  dispatch approve_waiting latest = on_approve_waiting latest
  dispatch waiting_operator latest = on_waiting_operator latest
  dispatch processing latest = on_processing
  dispatch _ latest = stay

  unfoldable pub with_latest : Option TaskCondition → M Handled
  with_latest none = do
    s ←
        prepare_abort_status env c.status
          "status conditions section unexpectedly missed, task should be re-created"
    pure (s, false)
  with_latest (some latest) = dispatch c.status.phase latest

  -- `handleTask`
  unfoldable pub handle_task : M Handled
  handle_task = with_latest (get_last? c.status.conditions)
