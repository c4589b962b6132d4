-- ===== src/Common/Objects.antt =====
-- What the controllers read of Ceph's answers (pkg/common/ceph_types.go) and of other resources.
use pelagia.Prelude.{ℕ, String, Bool, List, Option, Assoc}

pub record OsdInfo : Type 0 where
  pub osd_id : ℕ
  pub uuid : String
  pub up : ℕ
  pub in_cluster : ℕ

-- An entry of `ceph osd tree`: what the source reads of it.
pub record TreeNode : Type 0 where
  pub name : String
  pub type : String
  pub children : List ℕ

-- The replica counts of a Kubernetes deployment's status.
pub record DeploymentStatus : Type 0 where
  pub replicas : ℕ
  pub ready_replicas : ℕ
  pub available_replicas : ℕ

pub record JobStatus : Type 0 where
  pub active : ℕ
  pub succeeded : ℕ
  pub failed : ℕ
  pub conditions : List String

pub record OsdMetadataInfo : Type 0 where
  pub device_pathes : String
  pub device_ids : String
  pub hostname : String
  pub bluestore_devices : String
  pub bluestore_device_type : String
  pub bluestore_partition : String
  pub metadata_disk_used : String
  pub metadata_devices : String
  pub metadata_device_type : String
  pub metadata_partition : String
  pub osd_id : ℕ

-- A Kubernetes node: its name, its labels and the keys of its taints.
pub record Node : Type 0 where
  pub name : String
  pub labels : List (String × String)
  pub taints : List String

-- A device of a node in the storage section of a CephCluster, in Rook's API.
pub record StorageDevice : Type 0 where
  pub name : String
  pub full_path : String
  pub config : Assoc String

-- A node of the storage section.
pub record StorageNode : Type 0 where
  pub name : String
  pub config : Assoc String
  pub device_filter : String
  pub device_path_filter : String
  pub devices : List StorageDevice
  -- `UseAllDevices` is set and true.
  pub use_all_devices : Bool
  -- Whether the node has `VolumeClaimTemplates`.
  pub has_claim_templates : Bool

-- What the controller reads of a Rook CephCluster.
pub record CephCluster : Type 0 where
  pub name : String
  pub namespace : String
  pub generation : ℕ
  pub resource_version : String
  pub external : Bool
  -- `Status.CephStatus.FSID`, none if there is no `CephStatus`.
  pub fsid : Option String
  -- `Status.CephVersion.Image`, none if there is no `CephVersion`.
  pub image : Option String
  pub data_dir_host_path : String
  -- `Spec.Storage.Nodes`
  pub storage_nodes : List StorageNode

pub data DeploymentPhase : Type 0 where
  creating deploying validation ready on_hold maintenance deleting failed : DeploymentPhase

-- `DaemonState` and `DaemonStatus` of the API: the state of a node in the analysis.
pub data DaemonState : Type 0 where
  ok failed skipped : DaemonState

pub record AnalysisStatus : Type 0 where
  pub status : DaemonState
  pub issues : List String
  pub messages : List String

-- The counts of a Kubernetes daemon set's status.
pub record DaemonSetStatus : Type 0 where
  pub number_ready : ℕ
  pub current_scheduled : ℕ
  pub desired_scheduled : ℕ
  pub number_available : ℕ
  pub updated_scheduled : ℕ

-- A CephDeploymentHealth: whether its report has a status of the CephCluster, and the generation
-- of the CephCluster's spec that its OSD analysis is about.
pub record DeploymentHealth : Type 0 where
  pub name : String
  pub has_cluster_status : Bool
  pub validated_generation : Option ℕ
  pub spec_analysis : Assoc AnalysisStatus
