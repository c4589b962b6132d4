-- ===== src/OsdRemove/Phase.antt =====
-- phase.go: the statuses that the controller writes.
use pelagia.Prelude.{String, Option, none, some, [], ◌∷◌, ◌++◌, sprint}
use pelagia.Task.{
  TaskPhase, aborted, approve_waiting, completed, completed_with_warnings, failed, pending,
  waiting_operator, processing, validating, validation_failed, Nodes, TaskSpec, TaskRemoveInfo,
  TaskCondition, TaskStatus, OsdRemoveTask,
}
use pelagia.Common.World.{Env, M, ◌>>=◌, pure, current_time_string}
use pelagia.OsdRemove.Config.{TaskConfig}

abbrev pub phase_text : TaskPhase → String
phase_text approve_waiting = "ApproveWaiting"
phase_text aborted = "Aborted"
phase_text completed = "Completed"
phase_text completed_with_warnings = "CompletedWithWarnings"
phase_text failed = "Failed"
phase_text pending = "Pending"
phase_text waiting_operator = "WaitingOperator"
phase_text processing = "Processing"
phase_text validating = "Validating"
phase_text validation_failed = "ValidationFailed"

-- `task.Spec.Nodes`, nil if there is no spec.
abbrev pub spec_nodes : Option TaskSpec → Nodes
spec_nodes none = none
spec_nodes (some spec) = spec.nodes

-- The nodes if the map is not empty.
abbrev pub some_nodes : Nodes → Nodes
some_nodes none = none
some_nodes (some []) = none
some_nodes (some (n ∷ ns)) = some (n ∷ ns)

module _ (env : Env) where
  unfoldable pub prepare_abort_status : TaskStatus → String → M TaskStatus
  unfolding current_time_string
  prepare_abort_status status reason = do
    t ← current_time_string env
    let condition : TaskCondition = record {
      timestamp = t;
      phase = aborted;
      nodes = none;
      ceph_cluster_spec_version = none;
    }
    pure (record status {
      phase = aborted;
      phase_info = reason;
      messages = status.messages ++ reason ∷ [];
      conditions = status.conditions ++ condition ∷ [];
    })

  unfoldable pub prepare_init_status : OsdRemoveTask → M TaskStatus
  unfolding current_time_string
  prepare_init_status task = do
    t ← current_time_string env
    let condition : TaskCondition = record {
      timestamp = t;
      phase = pending;
      nodes = some_nodes (spec_nodes task.spec);
      ceph_cluster_spec_version = none;
    }
    pure (record {
      phase = pending;
      phase_info = "initializing";
      remove_info = none;
      messages = "initiated" ∷ [];
      conditions = condition ∷ [];
    })

  unfoldable pub move_task_phase :
      TaskConfig → TaskPhase → String → Option TaskRemoveInfo → M TaskStatus
  unfolding current_time_string sprint
  move_task_phase c new_phase reason remove_info = do
    t ← current_time_string env
    let condition : TaskCondition = record {
      timestamp = t;
      phase = new_phase;
      nodes = spec_nodes c.task.spec;
      ceph_cluster_spec_version = some (record {
        resource_version = c.ceph_cluster.resource_version;
        generation = c.ceph_cluster.generation;
      });
    }
    let message =
        sprint ("cephosdremovetask moved to '" ∷ phase_text new_phase ∷ "' phase: " ∷ reason ∷ [])
    pure (record (c.status) {
      phase = new_phase;
      phase_info = reason;
      messages = c.status.messages ++ message ∷ [];
      remove_info = remove_info;
      conditions = c.status.conditions ++ condition ∷ [];
    })
