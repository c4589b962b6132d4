-- ===== src/Health/Samples.antt =====
-- A node with one disk, an OSD on it, and runs of the analysis of two nodes.
use pelagia.Prelude.Numbers.{pos}
use pelagia.Prelude.{
  ◌≡◌, ◌≢◌, ◌≤◌, ◌*◌, ◌+◌, false≢true, refl, String, Bool, true, false, none, some, ◌||◌, List, [],
  ◌∷◌, ◌++◌, All, any, length, lookup, insert, sprint, sort_strings, eq_iff, ◌==◌, if◌then◌else◌,
}
use pelagia.Common.Objects.{OsdInfo, StorageNode, DaemonState, AnalysisStatus}
use pelagia.Common.Disks.{
  BlockDeviceInfo, DisksReport, OsdsReport, OsdDaemonInfo, path_dev_prepended,
}
use pelagia.Common.Tree.{find_disk_name, disk_step, block_of}
use pelagia.Task.{NodeCleanUpSpec, TaskPhase}
use pelagia.OsdRemove.Config.{LcmConfig, TaskConfig}
use pelagia.OsdRemove.Spec.Hosts.{OsdHostInfo, no_host_info}
use pelagia.OsdRemove.Spec.Metadata.{ClusterOsds}
use pelagia.OsdRemove.Spec.Volumes.{Search, add_issues}
use pelagia.OsdRemove.Spec.Verify.{verify_host}
use pelagia.OsdRemove.Samples.{env, config_in, status_in}
use pelagia.Health.Osds.{OsdDetails, NodeDetails, find_info, osd_info_of}
use pelagia.Health.Osds.Index.{osd_info_of-find_info}
use pelagia.Health.Analysis.Devices.{devices_of, alias_of}
use pelagia.Health.Analysis.Devices.Sound.{AreDistinct, IsFound, devices_of-IsSound}
use pelagia.Health.Analysis.Run.{Analysis, run_spec_analysis}
use pelagia.Health.Analysis.Usage.Foreign.{IsClear, run_spec_analysis-IsClear}
use pelagia.Health.Analysis.Extra.{Extras, extra_osds}
use pelagia.Health.Analysis.Extra.Found.{is_extra, extra_osds-found}
use pelagia.Health.Node.{NodeResult, get_node_analyse_status}
use pelagia.Health.Node.Verdict.{Judged, asks, get_node_analyse_status-IsFine}
use pelagia.Health.Threads.{
  max_parallel_threads, Worker, System, Move, spawn, act, initial, run, IsDone, extra_issue,
}
use pelagia.Health.Threads.Bounds.{run-bounded}
use pelagia.Health.Threads.Ends.{run-can_end}
use pelagia.Health.Threads.Statuses.{named, run-status}
use pelagia.Health.Threads.Lost.{run-loses}
use pelagia.Health.Refusal.{failed_text, verify_host-refused}

abbrev first_info : OsdInfo
first_info = record { osd_id = 0; uuid = "u0"; up = 1; in_cluster = 1 }

abbrev second_info : OsdInfo
second_info = record { osd_id = 3; uuid = "u3"; up = 1; in_cluster = 0 }

osd_info_of-find_info_example :
    osd_info_of 2 1 3 (first_info ∷ second_info ∷ []) ≡ find_info 3 (first_info ∷ second_info ∷ [])
unfolding find_info
osd_info_of-find_info_example =
    osd_info_of-find_info 2 1 3 (first_info ∷ second_info ∷ []) (refl, (refl, tt))

abbrev sample_block : BlockDeviceInfo
sample_block = record {
  kname = "/dev/sda";
  serial = "";
  type = "disk";
  fstype = "";
  rotational = true;
  maj_min = "8:0";
  symlinks = [];
  parent = [];
  childrens = [];
}

abbrev disks : DisksReport
disks = record {
  block_info = ("/dev/sda", sample_block) ∷ [];
  aliases = ("/dev/sda", "/dev/sda") ∷ [];
  disk_to_osd = ("/dev/sda", "0" ∷ []) ∷ [];
}

abbrev node_named : String → StorageNode
node_named name = record {
  name = name;
  config = [];
  device_filter = "";
  device_path_filter = "";
  devices = record { name = "sda"; full_path = ""; config = [] } ∷ [];
  use_all_devices = false;
  has_claim_templates = false;
}

abbrev volume : OsdDaemonInfo
volume = record {
  osd_uuid = "u0";
  cluster_fsid = "f";
  devices =
      record {
        name = "/dev/sda";
        device_id = "";
        device_symlinks = [];
        rotational = true;
        related_partition = "/dev/vg/0";
        parted_by = "";
        raw = false;
      }
      ∷ [];
  partitions =
      record {
        partition = "/dev/vg/0";
        partition_symlinks = [];
        type = "block";
        exists = true;
        lvm = true;
      }
      ∷ [];
}

abbrev osds : OsdsReport
osds = record { warnings = []; osds = ("0", volume ∷ []) ∷ [] }

abbrev details : OsdDetails
details = record {
  cluster_fsid = "f";
  device_name = "sda";
  device_by_id = "";
  device_by_path = "";
  block_partition = "";
  meta_device_name = "";
  meta_device_by_id = "";
  meta_device_by_path = "";
  meta_partition = "";
  uuid = "u0";
  up = true;
  in_cluster = true;
}

abbrev cluster_osds_known : NodeDetails
cluster_osds_known = ("osd.0", details) ∷ []

abbrev never_matches : String → String → Bool
never_matches pattern text = false

devices_of-IsSound_example :
    AreDistinct disks (devices_of never_matches disks (node_named "node-1") 2).devices
    × All (IsFound disks) (devices_of never_matches disks (node_named "node-1") 2).devices
devices_of-IsSound_example = devices_of-IsSound never_matches disks (node_named "node-1") 2 refl

abbrev clean : Analysis
clean = record { issues = []; warnings = []; extra_found = false }

analysed_node :
    run_spec_analysis never_matches (node_named "node-1") disks osds cluster_osds_known 2
    ≡ some clean
unfolding run_spec_analysis find_disk_name disk_step lookup path_dev_prepended sprint block_of
    alias_of sort_strings insert
analysed_node = refl

run_spec_analysis-IsClear_example :
    All
      (IsClear never_matches disks osds cluster_osds_known)
      (devices_of never_matches disks (node_named "node-1") 2).devices
run_spec_analysis-IsClear_example =
    run_spec_analysis-IsClear never_matches disks osds cluster_osds_known (node_named "node-1") 2
      {a = clean} analysed_node refl

abbrev no_extras : Extras
no_extras = record { warnings = []; extra_found = false }

extra_osds-found_example :
    (extra_osds cluster_osds_known [] osds.osds no_extras).extra_found
    ≡ false || any (λ entry. any (is_extra cluster_osds_known [] entry.0) entry.1) osds.osds
extra_osds-found_example = extra_osds-found cluster_osds_known [] osds.osds no_extras

abbrev health_config : LcmConfig
health_config = record {
  osd_pg_rebalance_timeout = pos 1;
  allow_to_remove_manually_created_lvm = false;
  disk_daemon_port = 9999;
  disk_daemon_placement_label = "pelagia-disk-daemon=true";
}

get_node_analyse_status-IsFine_example :
    Judged
      (get_node_analyse_status env health_config 2 (node_named "node-1") cluster_osds_known []).0
    × (asks
          (get_node_analyse_status env health_config 2
            (node_named "node-1")
            cluster_osds_known
            []).1
        ≤ 4 + asks [])
get_node_analyse_status-IsFine_example =
    get_node_analyse_status-IsFine env health_config 2 (node_named "node-1") cluster_osds_known []

-- The first node fails, and the second one has OSDs that its spec does not describe.
abbrev failed_status : AnalysisStatus
failed_status = record { status = DaemonState.failed; issues = "no disk" ∷ []; messages = [] }

abbrev ok_status : AnalysisStatus
ok_status = record { status = DaemonState.ok; issues = []; messages = [] }

abbrev outcome : StorageNode → NodeResult
outcome node = if node.name == "node-1" then (failed_status, false) else (ok_status, true)

abbrev two_nodes : List StorageNode
two_nodes = node_named "node-1" ∷ node_named "node-2" ∷ []

abbrev half : List Move
half = spawn ∷ spawn ∷ act 1 ∷ act 0 ∷ act 0 ∷ []

abbrev half_way : System
half_way = record {
  waiting = [];
  count = 2;
  statuses = ("node-1", failed_status) ∷ [];
  thread_issues = "node 'node-1' has failed spec analyse" ∷ [];
  issues = [];
  workers = Worker.leaving ∷ Worker.appending (node_named "node-2") ∷ [];
}

ran_half : run outcome half (initial two_nodes) ≡ some half_way
unfolding run insert sprint
ran_half = refl

run-bounded_example :
    (half_way.count ≡ length half_way.workers)
    × (half_way.count ≤ max_parallel_threads)
    × (length half ≤ 6 * length two_nodes)
run-bounded_example = run-bounded outcome half two_nodes {s = half_way} ran_half

run-can_end_example :
    (more : List Move) × (last : System) × (run outcome more half_way ≡ some last) × IsDone last
run-can_end_example = run-can_end outcome half two_nodes {s = half_way} ran_half

abbrev whole : List Move
whole = half ++ act 0 ∷ act 0 ∷ act 0 ∷ act 0 ∷ act 0 ∷ []

abbrev at_end : System
at_end = record {
  waiting = [];
  count = 0;
  statuses = ("node-1", failed_status) ∷ ("node-2", ok_status) ∷ [];
  thread_issues = "node 'node-1' has failed spec analyse" ∷ [];
  issues = "node 'node-2' has running osd(s), not described in spec" ∷ [];
  workers = [];
}

ran_whole : run outcome whole (initial two_nodes) ≡ some at_end
unfolding run insert sprint
ran_whole = refl

node_1-ne-empty : ◌≢◌ {A = String} "node-1" ""
node_1-ne-empty e = false≢true ((eq_iff "node-1" "").1 e)

node_2-ne-empty : ◌≢◌ {A = String} "node-2" ""
node_2-ne-empty e = false≢true ((eq_iff "node-2" "").1 e)

node_2-ne-node_1 : ◌≢◌ {A = String} "node-2" "node-1"
node_2-ne-node_1 e = false≢true ((eq_iff "node-2" "node-1").1 e)

run-status_example :
    lookup "node-1" at_end.statuses
    ≡ (if any (named "node-1") two_nodes then some failed_status else none)
run-status_example =
    run-status outcome "node-1" failed_status whole two_nodes {s = at_end} node_1-ne-empty
      (λ _. refl, (λ e. absurd (node_2-ne-node_1 e), tt)) ran_whole (refl, refl)

-- Both nodes have OSDs that the spec does not describe.
abbrev extra_everywhere : StorageNode → NodeResult
extra_everywhere node = (ok_status, true)

run-loses_example :
    (ms : List Move) × (s : System) × (run extra_everywhere ms (initial two_nodes) ≡ some s)
    × IsDone s
    × (s.issues ≡ extra_issue (node_named "node-2") ∷ [])
run-loses_example =
    run-loses extra_everywhere (node_named "node-1") (node_named "node-2") node_1-ne-empty
      node_2-ne-empty refl refl

abbrev analysed_task : TaskConfig
analysed_task = record (config_in (status_in TaskPhase.validating)) {
  spec_analysis = at_end.statuses;
}

abbrev no_cluster_osds : ClusterOsds
no_cluster_osds = record {
  metadata = [];
  uuids = [];
  fsid = "f";
  namespace = "rook-ceph";
  host_dir = "";
}

abbrev host_in_spec : OsdHostInfo
host_in_spec = record no_host_info { in_spec = true; labeled = true; available = true }

abbrev whole_host : NodeCleanUpSpec
whole_host = record {
  complete_cleanup = true;
  drop_from_crush = false;
  cleanup_stray_partitions = false;
  cleanup_by_device = [];
  cleanup_by_osd = [];
}

abbrev nothing_planned : Search
nothing_planned = record {
  info = record { cleanup_map = []; issues = []; warnings = [] };
  strays = [];
}

verify_host-refused_example :
    verify_host env analysed_task no_cluster_osds
      (("node-1", host_in_spec) ∷ [])
      "node-1"
      whole_host
      nothing_planned
      []
    ≡ (add_issues (failed_text "node-1" ∷ []) nothing_planned, [])
unfolding lookup
verify_host-refused_example =
    verify_host-refused env analysed_task no_cluster_osds (("node-1", host_in_spec) ∷ []) "node-1"
      whole_host nothing_planned [] outcome failed_status whole two_nodes {last = at_end}
      node_1-ne-empty refl refl ran_whole (refl, refl) refl refl
      (λ _. refl, (λ e. absurd (node_2-ne-node_1 e), tt)) refl
