-- ===== src/OsdRemove/Config.antt =====
-- task_types.go: what a pass of the controller knows, and the small helpers of helpers.go.
use pelagia.Prelude.Numbers.{ℤ}
use pelagia.Prelude.{
  Assoc, ℕ, String, Bool, Option, sprint, before_char, ends_with, if◌then◌else◌, [], ◌∷◌,
}
use pelagia.Task.{TaskStatus, OsdRemoveTask}
use pelagia.Common.Objects.{CephCluster, DeploymentPhase, AnalysisStatus}

-- `LcmConfig`: the parameters that the task controller uses. The timeout is in nanoseconds.
pub record LcmConfig : Type 0 where
  pub osd_pg_rebalance_timeout : ℤ
  pub allow_to_remove_manually_created_lvm : Bool
  pub disk_daemon_port : ℕ
  pub disk_daemon_placement_label : String

-- `taskConfig`, less `requeueNow`, which the operations return. The status is the task's own,
-- which `Reconcile` has found to be there; so is the validated generation.
pub record TaskConfig : Type 0 where
  pub task : OsdRemoveTask
  pub status : TaskStatus
  pub ceph_cluster : CephCluster
  -- `cephHealthOsdAnalysis`: the generation that is validated and the state of each node.
  pub validated_generation : ℕ
  pub spec_analysis : Assoc AnalysisStatus
  pub ceph_deployment_phase : Option DeploymentPhase
  pub lcm_config : LcmConfig

abbrev pub stray_osd_node_marker : String
stray_osd_node_marker = "__stray"

-- `isStrayOsdID`
unfoldable pub is_stray_osd_id : String → Bool
unfolding ends_with
is_stray_osd_id id = ends_with id stray_osd_node_marker

-- `strings.Split(osdID, ".")[0]`
unfoldable pub osd_number : String → String
unfolding before_char
osd_number id = before_char b'.' id

-- The id without the stray suffix, if it has one.
unfoldable pub plain_osd_id : String → String
unfolding is_stray_osd_id osd_number
plain_osd_id id = if is_stray_osd_id id then osd_number id else id

unfoldable pub deploy_name : String → String
unfolding sprint
deploy_name id = sprint ("rook-ceph-osd-" ∷ id ∷ [])
