-- ===== src/OsdRemove/Samples.antt =====
-- Concrete environments, tasks and OSDs, for runs of the operations.
pub mod Passes
pub mod Tasks
pub mod Steps
pub mod Plans
use pelagia.Prelude.Numbers.{pos}
use pelagia.Prelude.{
  ℕ, String, Bool, true, false, Option, none, some, List, [], ◌∷◌, Assoc, ends_with, has_prefix,
  if◌then◌else◌,
}
use pelagia.Task.{
  TaskPhase, RemovePhase, pending, waiting_rebalance, in_progress, completed, finished,
  RemoveStatus, with_status, RemoveResult, DeviceInfo, OsdMapping, HostMapping, TaskRemoveInfo,
  TaskStatus, TaskSpec, TaskCondition, OsdRemoveTask,
}
use pelagia.Common.Objects.{
  OsdInfo, OsdMetadataInfo, CephCluster, DeploymentHealth, DeploymentPhase, on_hold,
}
use pelagia.Common.World.{Error, Result, ok, err, Env, Log, M, pure}
use pelagia.Common.Disks.{DiskDaemonReport, DiskDaemonState}
use pelagia.OsdRemove.Config.{LcmConfig, TaskConfig}

abbrev pub refusal : Error
refusal = record { text = "osd is not safe to stop"; not_found = false; no_match = false }

abbrev pub cluster : CephCluster
cluster = record {
  name = "rook-ceph";
  namespace = "rook-ceph";
  generation = 4;
  resource_version = "100";
  external = false;
  fsid = some "8668f062";
  image = some "ceph:v19.2.3";
  data_dir_host_path = "";
  storage_nodes = [];
}

-- The report of a node with no OSD on it.
abbrev pub report : DiskDaemonReport
report = record {
  state = DiskDaemonState.ok;
  last_run = "t";
  issues = [];
  disks_report = none;
  osds_report = some (record { warnings = []; osds = [] });
}

abbrev pub lcm_config : LcmConfig
lcm_config = record {
  osd_pg_rebalance_timeout = pos 30;
  allow_to_remove_manually_created_lvm = false;
  disk_daemon_port = 9999;
  disk_daemon_placement_label = "role=osd";
}

-- A status with one condition for the phase.
abbrev pub status_in : TaskPhase → TaskStatus
status_in phase = record {
  phase = phase;
  phase_info = "";
  remove_info = none;
  messages = [];
  conditions =
      record { timestamp = "t"; phase = phase; nodes = none; ceph_cluster_spec_version = none }
      ∷ [];
}

abbrev pub task_named : String → ℕ → Option TaskStatus → OsdRemoveTask
task_named name created status = record {
  name = name;
  namespace = "rook-ceph";
  created = created;
  owner_references = [];
  spec = some (record { nodes = none; approve = true; resolved = false });
  status = status;
}

abbrev pub tasks : List OsdRemoveTask
tasks =
    task_named "young" 9 none
    ∷ task_named "closed" 1 (some (status_in TaskPhase.completed))
    ∷ task_named "old" 3 (some (status_in TaskPhase.processing))
    ∷ []

-- OSD 0 on `/dev/vdb` of node-1.
abbrev pub osd_metadata : OsdMetadataInfo
osd_metadata = record {
  device_pathes = "vdb=/dev/disk/by-path/1";
  device_ids = "vdb=1";
  hostname = "node-1";
  bluestore_devices = "vdb";
  bluestore_device_type = "hdd";
  bluestore_partition = "/dev/vg/osd-block-1";
  metadata_disk_used = "0";
  metadata_devices = "";
  metadata_device_type = "";
  metadata_partition = "";
  osd_id = 0;
}

-- An environment that answers commands as told and knows the rest of the samples; every OSD is up
-- and in, and has placement groups.
abbrev pub env_with : (String → Result String) → Result (Unit {0}) → Env
env_with answer scaled = record {
  ceph_reply = λ _ command. answer command;
  disk_daemon_reply = λ _ _ _. ok "";
  scale_reply = λ _ _ _. scaled;
  deployment_reply =
      λ _ _. ok (record { replicas = 0; ready_replicas = 0; available_replicas = 0 });
  delete_deployment_reply = λ _ _. ok tt;
  job_reply = λ _ _. ok (record { active = 0; succeeded = 1; failed = 0; conditions = [] });
  delete_job_reply = λ _ _. ok tt;
  create_job_reply = λ _ _. ok tt;
  nodes_reply = λ _. ok [];
  node_reply = λ _ name. ok (record { name = name; labels = ("a", "b") ∷ []; taints = [] });
  daemon_set_reply = λ _ _ _. ok (record {
    number_ready = 1;
    current_scheduled = 1;
    desired_scheduled = 1;
    number_available = 1;
    updated_scheduled = 1;
  });
  task_reply = λ _. ok (task_named "old" 3 (some (status_in TaskPhase.processing)));
  tasks_reply = λ _. ok tasks;
  healths_reply = λ _. ok (
      record {
        name = "rook-ceph";
        has_cluster_status = true;
        validated_generation = some 4;
        spec_analysis = [];
      }
      ∷ []);
  delete_task_reply = λ _. ok tt;
  task_for_update_reply = λ _. ok tt;
  cluster_reply = λ _ _. ok cluster;
  ceph_deployment_reply = λ _ _. ok on_hold;
  update_owners_reply = λ _ _. ok tt;
  update_status_reply = λ _ _. ok tt;
  owner_refs = λ _. ok [];
  clock = λ _. 7;
  format_time = λ _. "t";
  parse_time = λ _. ok 5;
  show_duration = λ _. "30m";
  regex_matches = λ _ _. false;
  selector_matches = λ _ _. true;
  truncate_node_name = λ _ node. node;
  unmarshal_osd_info = λ _. ok (record { osd_id = 0; uuid = "u"; up = 1; in_cluster = 1 });
  unmarshal_osds_info = λ _. ok [];
  unmarshal_osd_metadata = λ _. ok (osd_metadata ∷ []);
  unmarshal_osd_tree = λ _. ok (record { name = "node-1"; type = "host"; children = 0 ∷ [] } ∷ []);
  unmarshal_disk_report = λ _. ok report;
  unmarshal_pgs = λ _. ok (some 12);
}

abbrev pub env : Env
env = env_with (λ _. ok "") (ok tt)

-- Commands and scalings are refused.
abbrev pub refusing_env : Env
refusing_env = env_with (λ _. err refusal) (err refusal)

abbrev pub device : Bool → DeviceInfo
device zap = record {
  rotational = true;
  path = "/dev/disk/by-path/1";
  id = "1";
  partition = "/dev/vg/osd-block-1";
  parted_by = "";
  type = "block";
  zap = zap;
  alive = true;
  raw = false;
}

abbrev pub osd_with : Option RemoveResult → OsdMapping
osd_with result = record {
  uuid = "u";
  cluster_fsid = "8668f062";
  host_directory = "";
  in_crush_map = true;
  device_mapping = ("/dev/vdb", device true) ∷ [];
  skip_device_cleanup_job = false;
  remove_status = result;
}

abbrev pub osd_in : RemovePhase → OsdMapping
osd_in phase = osd_with (
    some (record {
      osd_remove_status = some (with_status phase);
      deploy_remove_status = none;
      device_cleanup_job = none;
    }))

-- The OSD, its disks and its deployment are removed.
abbrev pub removed_osd : OsdMapping
removed_osd = osd_with (
    some (record {
      osd_remove_status = some (with_status finished);
      deploy_remove_status = some (with_status finished);
      device_cleanup_job = some (with_status completed);
    }))

abbrev pub host_with : Assoc OsdMapping → HostMapping
host_with osds = record {
  complete_cleanup = false;
  drop_from_crush = false;
  osd_mapping = osds;
  node_is_down = false;
  volumes_info_missed = false;
  host_remove_status = none;
}

abbrev pub info_with : Assoc OsdMapping → TaskRemoveInfo
info_with osds = record {
  cleanup_map = ("node-1", host_with osds) ∷ [];
  issues = [];
  warnings = [];
}

-- A pass over an approved task in a phase.
abbrev pub config_in : TaskStatus → TaskConfig
config_in status = record {
  task = task_named "old" 3 none;
  status = status;
  ceph_cluster = cluster;
  validated_generation = 4;
  spec_analysis = [];
  ceph_deployment_phase = some on_hold;
  lcm_config = lcm_config;
}
