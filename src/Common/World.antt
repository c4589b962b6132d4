-- ===== src/Common/World.antt =====
-- What the controllers see of Kubernetes and Ceph. Every request is an entry of a log, newest
-- first, and the reply may depend on all that was requested before: an `Env` is an arbitrary
-- environment. The requests are those of pkg/common/cli_utils.go, pkg/common/k8s_utils.go and of
-- the client calls in pkg/controller/osdremove-task.
use pelagia.Prelude.Numbers.{ℤ}
use pelagia.Prelude.{ℕ, String, Bool, List, [], ◌∷◌, sprint, Option, ◌≡◌, refl, ◌⊎◌, inl, inr}
use pelagia.Task.{OsdRemoveTask, TaskStatus}
use pelagia.Common.Disks.{DiskDaemonReport}
use pelagia.Task.Job.{CleanupJob}
use pelagia.Common.Objects.{
  OsdInfo, OsdMetadataInfo, TreeNode, DeploymentStatus, JobStatus, Node, CephCluster,
  DaemonSetStatus, DeploymentPhase, DeploymentHealth,
}

-- A Go `error`: its text, and whether `apierrors.IsNotFound` holds of it.
pub record Error : Type 0 where
  pub text : String
  pub not_found : Bool
  -- `meta.IsNoMatchError` or `runtime.IsNotRegisteredError`
  pub no_match : Bool

pub data Result {ℓ} (A : Type ℓ) : Type ℓ where
  ok : A → Result A
  err : Error → Result A

pub Result-cases {ℓ} :
    {A : Type ℓ} (r : Result A) → ((a : A) × (r ≡ ok a)) ⊎ ((e : Error) × (r ≡ err e))
Result-cases (ok a) = inl (a, refl)
Result-cases (err e) = inr (e, refl)

abbrev pub map_ok {ℓ κ} : {A : Type ℓ} {B : Type κ} → (A → B) → Result A → Result B
map_ok f (ok a) = ok (f a)
map_ok f (err e) = err e

-- The error of an output that does not parse.
abbrev pub parsed {ℓ} : {A : Type ℓ} → String → Result A → Result A
parsed command (ok a) = ok a
parsed command (err e) = err (record e {
  text = sprint ("failed to parse output for command '" ∷ command ∷ "': " ∷ e.text ∷ []);
})

abbrev pub bind_ok {ℓ κ} : {A : Type ℓ} {B : Type κ} → Result A → (A → Result B) → Result B
bind_ok (ok a) f = f a
bind_ok (err e) f = err e

pub data Call : Type 0 where
  ceph : String → Call
  disk_daemon : (host command : String) → Call
  scale : (deployment : String) (replicas : ℕ) → Call
  get_deployment delete_deployment get_job delete_job : String → Call
  create_job : CleanupJob → Call
  list_nodes : Call
  get_node : String → Call
  get_daemon_set : (namespace name : String) → Call
  -- The resources of the task controller.
  get_task list_tasks list_healths delete_task get_task_for_update : Call
  get_cluster get_ceph_deployment : String → Call
  update_owners : List String → Call
  update_status : TaskStatus → Call
  read_clock sleep : Call

abbrev pub Log : Type 0
Log = List Call

pub record Env : Type 0 where
  pub ceph_reply : Log → String → Result String
  pub disk_daemon_reply : Log → (host command : String) → Result String
  pub scale_reply : Log → String → ℕ → Result (Unit {0})
  pub deployment_reply : Log → String → Result DeploymentStatus
  pub delete_deployment_reply : Log → String → Result (Unit {0})
  pub job_reply : Log → String → Result JobStatus
  pub delete_job_reply : Log → String → Result (Unit {0})
  pub create_job_reply : Log → CleanupJob → Result (Unit {0})
  pub nodes_reply : Log → Result (List Node)
  pub node_reply : Log → String → Result Node
  pub daemon_set_reply : Log → (namespace name : String) → Result DaemonSetStatus
  pub task_reply : Log → Result OsdRemoveTask
  pub tasks_reply : Log → Result (List OsdRemoveTask)
  pub healths_reply : Log → Result (List DeploymentHealth)
  pub delete_task_reply : Log → Result (Unit {0})
  pub task_for_update_reply : Log → Result (Unit {0})
  pub cluster_reply : Log → String → Result CephCluster
  pub ceph_deployment_reply : Log → String → Result DeploymentPhase
  pub update_owners_reply : Log → List String → Result (Unit {0})
  pub update_status_reply : Log → TaskStatus → Result (Unit {0})
  -- `GetObjectOwnerRef` of a CephDeploymentHealth: the uids of the references.
  pub owner_refs : DeploymentHealth → Result (List String)
  -- `time.Now` in nanoseconds, and the RFC 3339 texts of it.
  pub clock : Log → ℕ
  pub format_time : ℕ → String
  pub parse_time : String → Result ℕ
  -- `%v` of a `time.Duration`.
  pub show_duration : ℤ → String
  -- `regexp.MatchString` and the label selectors of Kubernetes.
  pub regex_matches : (pattern text : String) → Bool
  pub selector_matches : String → List (String × String) → Bool
  -- `k8sutil.TruncateNodeName` of Rook.
  pub truncate_node_name : (format node : String) → String
  -- `json.Unmarshal` into the type that the caller wants.
  pub unmarshal_osd_info : String → Result OsdInfo
  pub unmarshal_osds_info : String → Result (List OsdInfo)
  pub unmarshal_osd_metadata : String → Result (List OsdMetadataInfo)
  pub unmarshal_osd_tree : String → Result (List TreeNode)
  -- Into the report that the disk daemon prints.
  pub unmarshal_disk_report : String → Result DiskDaemonReport
  -- The number of entries of `pg_stats`, none if the key is missing.
  pub unmarshal_pgs : String → Result (Option ℕ)

-- A computation that makes requests.
abbrev pub M {ℓ} : Type ℓ → Type ℓ
M A = Log → A × Log

infixl 5 ◌>>=◌ ◌>>◌
abbrev pub ◌>>=◌ {ℓ κ} : {A : Type ℓ} {B : Type κ} → M A → (A → M B) → M B
m >>= f = λ log. let (a, log') = m log in f a log'

abbrev pub ◌>>◌ {ℓ κ} : {A : Type ℓ} {B : Type κ} → M A → M B → M B
m >> k = m >>= λ _. k

abbrev pub pure {ℓ} : {A : Type ℓ} → A → M A
pure a log = (a, log)

-- Go's `if err == nil { … }` around the next request.
abbrev pub and_then {ℓ κ} : {A : Type ℓ} {B : Type κ} → Result A → (A → M (Result B)) → M (Result B)
and_then (ok a) f = f a
and_then (err e) f = pure (err e)

module _ (env : Env) where
  -- `RunCephToolboxCLI`
  unfoldable pub run_ceph : String → M (Result String)
  run_ceph command log = (env.ceph_reply log command, ceph command ∷ log)

  -- `RunAndParseDiskDaemonCLI`, for the report.
  unfoldable pub run_disk_daemon : (host command : String) → M (Result DiskDaemonReport)
  run_disk_daemon host command log = (
    bind_ok (env.disk_daemon_reply log host command)
        (λ text. parsed command (env.unmarshal_disk_report text)),
    disk_daemon host command ∷ log,
  )

  -- `ScaleDeployment`
  unfoldable pub scale_deployment : String → ℕ → M (Result (Unit {0}))
  scale_deployment name replicas log =
      (env.scale_reply log name replicas, scale name replicas ∷ log)

  unfoldable pub fetch_deployment : String → M (Result DeploymentStatus)
  fetch_deployment name log = (env.deployment_reply log name, get_deployment name ∷ log)

  unfoldable pub drop_deployment : String → M (Result (Unit {0}))
  drop_deployment name log = (env.delete_deployment_reply log name, delete_deployment name ∷ log)

  unfoldable pub fetch_job : String → M (Result JobStatus)
  fetch_job name log = (env.job_reply log name, get_job name ∷ log)

  unfoldable pub drop_job : String → M (Result (Unit {0}))
  drop_job name log = (env.delete_job_reply log name, delete_job name ∷ log)

  unfoldable pub make_job : CleanupJob → M (Result (Unit {0}))
  make_job job log = (env.create_job_reply log job, create_job job ∷ log)

  -- `GetNodeList`
  unfoldable pub fetch_nodes : M (Result (List Node))
  fetch_nodes log = (env.nodes_reply log, list_nodes ∷ log)

  -- `GetNode`
  unfoldable pub fetch_node : String → M (Result Node)
  fetch_node name log = (env.node_reply log name, get_node name ∷ log)

  unfoldable pub fetch_daemon_set : (namespace name : String) → M (Result DaemonSetStatus)
  fetch_daemon_set namespace name log =
      (env.daemon_set_reply log namespace name, get_daemon_set namespace name ∷ log)

  unfoldable pub fetch_task : M (Result OsdRemoveTask)
  fetch_task log = (env.task_reply log, get_task ∷ log)

  unfoldable pub fetch_tasks : M (Result (List OsdRemoveTask))
  fetch_tasks log = (env.tasks_reply log, list_tasks ∷ log)

  unfoldable pub fetch_healths : M (Result (List DeploymentHealth))
  fetch_healths log = (env.healths_reply log, list_healths ∷ log)

  unfoldable pub fetch_cluster : String → M (Result CephCluster)
  fetch_cluster name log = (env.cluster_reply log name, get_cluster name ∷ log)

  unfoldable pub fetch_ceph_deployment : String → M (Result DeploymentPhase)
  fetch_ceph_deployment name log =
      (env.ceph_deployment_reply log name, get_ceph_deployment name ∷ log)

  unfoldable pub drop_task : M (Result (Unit {0}))
  drop_task log = (env.delete_task_reply log, delete_task ∷ log)

  unfoldable pub write_owners : List String → M (Result (Unit {0}))
  write_owners refs log = (env.update_owners_reply log refs, update_owners refs ∷ log)

  unfoldable pub fetch_task_for_update : M (Result (Unit {0}))
  fetch_task_for_update log = (env.task_for_update_reply log, get_task_for_update ∷ log)

  unfoldable pub write_status : TaskStatus → M (Result (Unit {0}))
  write_status status log = (env.update_status_reply log status, update_status status ∷ log)

  unfoldable pub now : M ℕ
  now log = (env.clock log, read_clock ∷ log)

  -- `GetCurrentTimeString`
  unfoldable pub current_time_string : M String
  unfolding now
  current_time_string = do t ← now; pure (env.format_time t)

  -- `RunAndParseCephToolboxCLI`
  unfoldable pub run_and_parse {ℓ} : {A : Type ℓ} → (String → Result A) → String → M (Result A)
  unfolding run_ceph
  run_and_parse unmarshal command = do
    output ← run_ceph command
    and_then output (λ text. pure (parsed command (unmarshal text)))
