-- ===== src/Task.antt =====
-- pkg/apis/ceph.pelagia.lcm/v1alpha1/task_types.go: the CephOsdRemoveTask resource.
-- A pointer that may be nil is an `Option`; a map is an association list.
pub mod Job
use pelagia.Prelude.{
  ℕ, String, Bool, false, [], List, Option, none, Assoc, String_discrete, ℕ_discrete, nat_eq,
}

pub data TaskPhase : Type 0 where
  approve_waiting aborted completed completed_with_warnings failed pending waiting_operator :
      TaskPhase
  processing validating validation_failed : TaskPhase

pub data RemovePhase : Type 0 where
  pending waiting_rebalance in_progress stray completed finished failed skipped : RemovePhase

abbrev phase_number : RemovePhase → ℕ
phase_number pending = 0
phase_number waiting_rebalance = 1
phase_number in_progress = 2
phase_number stray = 3
phase_number completed = 4
phase_number finished = 5
phase_number failed = 6
phase_number skipped = 7

abbrev pub remove_phase_text : RemovePhase → String
remove_phase_text pending = "Pending"
remove_phase_text waiting_rebalance = "Rebalancing"
remove_phase_text in_progress = "Removing"
remove_phase_text stray = "RemovingStray"
remove_phase_text completed = "Completed"
remove_phase_text finished = "Removed"
remove_phase_text failed = "Failed"
remove_phase_text skipped = "Skipped"

-- `==` on remove phases.
abbrev pub same_phase : RemovePhase → RemovePhase → Bool
same_phase p q = nat_eq (phase_number p) (phase_number q)

pub record DeviceCleanupSpec : Type 0 where
  pub device : String
  pub skip_device_cleanup : Bool

pub record OsdCleanupSpec : Type 0 where
  pub id : ℕ
  pub skip_device_cleanup : Bool

pub record NodeCleanUpSpec : Type 0 where
  pub complete_cleanup : Bool
  pub drop_from_crush : Bool
  pub cleanup_stray_partitions : Bool
  pub cleanup_by_device : List DeviceCleanupSpec
  pub cleanup_by_osd : List OsdCleanupSpec

-- The nodes section; a nil map is `none`.
abbrev pub Nodes : Type 0
Nodes = Option (Assoc NodeCleanUpSpec)

pub record TaskSpec : Type 0 where
  pub nodes : Nodes
  pub approve : Bool
  pub resolved : Bool

pub record RemoveStatus : Type 0 where
  pub status : RemovePhase
  pub name : String
  pub error : String
  pub started_at : String
  pub finished_at : String

-- `&RemoveStatus{Status: s}`
abbrev pub with_status : RemovePhase → RemoveStatus
with_status s = record { status = s; name = ""; error = ""; started_at = ""; finished_at = "" }

pub record RemoveResult : Type 0 where
  pub osd_remove_status : Option RemoveStatus
  pub deploy_remove_status : Option RemoveStatus
  pub device_cleanup_job : Option RemoveStatus

pub record DeviceInfo : Type 0 where
  pub rotational : Bool
  pub path : String
  pub id : String
  pub partition : String
  pub parted_by : String
  pub type : String
  pub zap : Bool
  pub alive : Bool
  pub raw : Bool

pub record OsdMapping : Type 0 where
  pub uuid : String
  pub cluster_fsid : String
  pub host_directory : String
  pub in_crush_map : Bool
  pub device_mapping : Assoc DeviceInfo
  pub skip_device_cleanup_job : Bool
  pub remove_status : Option RemoveResult

pub record HostMapping : Type 0 where
  pub complete_cleanup : Bool
  pub drop_from_crush : Bool
  pub osd_mapping : Assoc OsdMapping
  pub node_is_down : Bool
  pub volumes_info_missed : Bool
  pub host_remove_status : Option RemoveStatus

pub record TaskRemoveInfo : Type 0 where
  pub cleanup_map : Assoc HostMapping
  pub issues : List String
  pub warnings : List String

pub record CephClusterSpecVersion : Type 0 where
  pub resource_version : String
  pub generation : ℕ

pub record TaskCondition : Type 0 where
  pub timestamp : String
  pub phase : TaskPhase
  pub nodes : Nodes
  pub ceph_cluster_spec_version : Option CephClusterSpecVersion

pub record TaskStatus : Type 0 where
  pub phase : TaskPhase
  pub phase_info : String
  pub remove_info : Option TaskRemoveInfo
  pub messages : List String
  pub conditions : List TaskCondition

pub record OsdRemoveTask : Type 0 where
  pub name : String
  pub namespace : String
  -- `metadata.creationTimestamp` in seconds.
  pub created : ℕ
  -- The uids of the owner references.
  pub owner_references : List String
  pub spec : Option TaskSpec
  pub status : Option TaskStatus

-- `reflect.DeepEqual`. The controller never reorders a map, and the API server returns maps in the
-- order of their keys, so maps are compared as lists.
pub Nodes-discrete : Discrete Nodes
Nodes-discrete = hlevel (String_discrete, ℕ_discrete)

pub TaskStatus-discrete : Discrete TaskStatus
TaskStatus-discrete = hlevel (String_discrete, ℕ_discrete)

-- The zero values that Go's map index yields for a missing key.
abbrev pub no_result : RemoveResult
no_result = record {
  osd_remove_status = none;
  deploy_remove_status = none;
  device_cleanup_job = none;
}

abbrev pub no_osd : OsdMapping
no_osd = record {
  uuid = "";
  cluster_fsid = "";
  host_directory = "";
  in_crush_map = false;
  device_mapping = [];
  skip_device_cleanup_job = false;
  remove_status = none;
}

abbrev pub no_host : HostMapping
no_host = record {
  complete_cleanup = false;
  drop_from_crush = false;
  osd_mapping = [];
  node_is_down = false;
  volumes_info_missed = false;
  host_remove_status = none;
}
