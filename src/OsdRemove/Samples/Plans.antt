-- ===== src/OsdRemove/Samples/Plans.antt =====
-- Runs of the spec handler at concrete tasks.
use pelagia.Prelude.{
  remove_key, ends_with, ◌≡◌, ◌⊎◌, ◌↔◌, refl, true, false, none, some, [], ◌∷◌, lookup, insert,
  sprint, split, adjust, decimal, digit, show_nat, arith, eq_iff, contains, ◌||◌,
}
use pelagia.Task.{TaskPhase, NodeCleanUpSpec, TaskRemoveInfo, HostMapping, OsdMapping, DeviceInfo}
use pelagia.Common.Objects.{StorageNode}
use pelagia.Common.Disks.{path_dev_prepended, OsdDaemonInfo}
use pelagia.Common.Retry.Quiet.{count_calls}
use pelagia.OsdRemove.Config.{TaskConfig, stray_osd_node_marker, is_stray_osd_id, plain_osd_id}
use pelagia.OsdRemove.Jobs.Build.{is_lvm_rook_made}
use pelagia.OsdRemove.Processer.{handle_task}
use pelagia.OsdRemove.Processer.Reads.{handle_task-Reads}
use pelagia.OsdRemove.Spec.Metadata.{
  ClusterOsds, uuid_map, fill_osd_mapping_from_osd_meta, fill_from_meta, find_metadata,
  crush_mapping, uuid_of, osd_directory, meta_devices, fill_devices_info_from_metadata,
  fill_device_path_or_id, with_db_device, block_device,
}
use pelagia.OsdRemove.Spec.Context.{cluster_osds, start_search}
use pelagia.OsdRemove.Spec.Discovery.{sorted_info}
use pelagia.OsdRemove.Spec.Verify.{
  verify_osds_for_clean_up, verify_hosts, verify_host, ask_host, host_refusal, asked_unreported,
  unasked_refusal, plan_asked, asked_host, verify_strays,
}
use pelagia.OsdRemove.Spec.Devices.{
  device_in_spec, collect_names, add_raw, found_in, found_for, first_present, first_typed,
  UsedDevices,
}
use pelagia.OsdRemove.Spec.Zap.{check_device_zapping}
use pelagia.OsdRemove.Spec.Zap.Conditions.{check_device_zapping-zaps}
use pelagia.OsdRemove.Spec.Hosts.{
  OsdHostInfo, hosts_of, add_crush_hosts, add_spec_hosts, add_k8s_hosts, pick_host,
}
use pelagia.OsdRemove.Spec.Volumes.{check_from_crush, strays_no_host, empty_scan, stray_key}
use pelagia.OsdRemove.Spec.Volumes.Key.{plain_osd_id-stray_key}
use pelagia.OsdRemove.Spec.Find.{find_osd}
use pelagia.OsdRemove.Spec.Find.Spared.{find_osd-spared}
use pelagia.OsdRemove.Spec.ByOsd.{clean_osd}
use pelagia.OsdRemove.Spec.ByOsd.Denied.{clean_osd-denied}
use pelagia.OsdRemove.Spec.Plan.{task_hosts, get_osds_for_cleanup}
use pelagia.OsdRemove.Spec.Plan.Kept.{IsPartial, get_osds_for_cleanup-IsPartial}
use pelagia.OsdRemove.Spec.Plan.Asked.{IsAsked, get_osds_for_cleanup-IsAsked}
use pelagia.OsdRemove.Spec.Plan.Reads.{is_change}
use pelagia.OsdRemove.Samples.{
  env, cluster, config_in, status_in, osd_metadata, task_named, osd_with, device,
}

-- Node-1 is in the storage section, and a task asks for its OSD 0.
abbrev stored_node : StorageNode
stored_node = record {
  name = "node-1";
  config = [];
  device_filter = "";
  device_path_filter = "";
  devices = record { name = "vdb"; full_path = ""; config = [] } ∷ [];
  use_all_devices = false;
  has_claim_templates = false;
}

abbrev by_osd : NodeCleanUpSpec
by_osd = record {
  complete_cleanup = false;
  drop_from_crush = false;
  cleanup_stray_partitions = false;
  cleanup_by_device = [];
  cleanup_by_osd = record { id = 0; skip_device_cleanup = false } ∷ [];
}

abbrev asking : TaskConfig
asking = record (config_in (status_in TaskPhase.validating)) {
  task = record (task_named "old" 3 none) {
    spec =
        some (record { nodes = some (("node-1", by_osd) ∷ []); approve = true; resolved = false });
  };
  ceph_cluster = record cluster { storage_nodes = stored_node ∷ [] };
}

abbrev plan : TaskRemoveInfo
plan = (get_osds_for_cleanup env asking (("node-1", 0 ∷ []) ∷ []) (osd_metadata ∷ []) [] [] []).0

abbrev planned_disk : DeviceInfo
planned_disk = record (device false) { alive = false }

abbrev planned : HostMapping
planned = record {
  complete_cleanup = false;
  drop_from_crush = false;
  osd_mapping =
      (
        "0",
        record (osd_with none) {
          uuid = "";
          host_directory = "/var/lib/rook/rook-ceph/8668f062_";
          device_mapping = ("/dev/vdb", planned_disk) ∷ [];
        },
      )
      ∷ [];
  node_is_down = true;
  volumes_info_missed = false;
  host_remove_status = none;
}

is_planned : lookup "node-1" plan.cleanup_map ≡ some planned
unfolding get_osds_for_cleanup task_hosts hosts_of add_crush_hosts add_spec_hosts add_k8s_hosts
    pick_host insert lookup verify_osds_for_clean_up cluster_osds uuid_map start_search
    strays_no_host verify_hosts verify_host ask_host host_refusal asked_unreported unasked_refusal
    fill_osd_mapping_from_osd_meta fill_from_meta find_metadata crush_mapping uuid_of osd_directory
    sprint show_nat decimal digit meta_devices fill_devices_info_from_metadata
    fill_device_path_or_id with_db_device block_device path_dev_prepended split adjust plan_asked
    asked_host verify_strays sorted_info
is_planned = refl

get_osds_for_cleanup-IsPartial_example : IsPartial planned
get_osds_for_cleanup-IsPartial_example =
    get_osds_for_cleanup-IsPartial env asking (("node-1", 0 ∷ []) ∷ []) (osd_metadata ∷ []) [] [] []
      "node-1" planned is_planned (ground (arith, eq_iff "node-1" "")) refl

get_osds_for_cleanup-IsAsked_example :
    ("node-1" ≡ stray_osd_node_marker)
    ⊎ IsAsked
        (("node-1", by_osd) ∷ [])
        (task_hosts env asking (("node-1", 0 ∷ []) ∷ []) [])
        "node-1"
        planned
unfolding lookup
get_osds_for_cleanup-IsAsked_example =
    get_osds_for_cleanup-IsAsked env asking (("node-1", 0 ∷ []) ∷ []) (osd_metadata ∷ []) [] [] []
      "node-1" planned (refl, tt) refl is_planned

handle_task-Reads_example : count_calls is_change (handle_task env asking []).1 ≡ 0
handle_task-Reads_example = handle_task-Reads env asking [] (ground arith)

plain_osd_id-stray_key_example :
    (is_stray_osd_id (stray_key "12" "u") ≡ true) × (plain_osd_id (stray_key "12" "u") ≡ "12")
plain_osd_id-stray_key_example = plain_osd_id-stray_key "12" "u" refl

-- A disk made by Rook that no other volume needs.
check_device_zapping-zaps_example :
    (m' : OsdMapping) × (lookup "0"
        (check_device_zapping "node-1" (("0", osd_with none) ∷ []) [] false).0
      ≡ some m')
    × (info' : DeviceInfo) × (lookup "/dev/vdb" m'.device_mapping ≡ some info')
    × ((info'.zap ≡ true) ↔ (
        ((device true).parted_by ≡ "")
        × (contains [] "/dev/vdb" ≡ false)
        × (is_lvm_rook_made (device true).partition || false ≡ true)))
unfolding lookup
check_device_zapping-zaps_example =
    check_device_zapping-zaps "node-1" (("0", osd_with none) ∷ []) [] false "0" (osd_with none)
      "/dev/vdb" (device true) refl refl refl refl refl

-- A raw OSD on a device that the spec lists.
abbrev raw_volume : OsdDaemonInfo
raw_volume = record {
  osd_uuid = "u";
  cluster_fsid = "8668f062";
  devices =
      record {
        name = "/dev/vdb";
        device_id = "1";
        device_symlinks = [];
        rotational = true;
        related_partition = "";
        parted_by = "";
        raw = true;
      }
      ∷ [];
  partitions = [];
}

abbrev known_cluster : ClusterOsds
known_cluster = record {
  metadata = osd_metadata ∷ [];
  uuids = ("0", "u") ∷ [];
  fsid = "8668f062";
  namespace = "rook-ceph";
  host_dir = "/var/lib/rook";
}

abbrev stored_host : OsdHostInfo
stored_host = record {
  in_spec = true;
  spec_idx = 0;
  in_crush = true;
  crush_osds = 0 ∷ [];
  labeled = true;
  available = true;
}

abbrev stored_devices : UsedDevices
stored_devices = record {
  device_filter = "";
  device_path_filter = "";
  devices = ("/dev/vdb", "block") ∷ [];
}

clean_osd-denied_example :
    (clean_osd env known_cluster "node-1" stored_host stored_devices
      (("0", 0) ∷ [])
      by_osd.cleanup_by_osd
      (("0", raw_volume ∷ []) ∷ [])
      (record { id = 0; skip_device_cleanup = false })
      (empty_scan [])).osds
    ≡ []
unfolding lookup show_nat decimal digit device_in_spec collect_names add_raw insert found_in
    found_for first_present first_typed check_from_crush uuid_of path_dev_prepended
clean_osd-denied_example =
    clean_osd-denied env known_cluster "node-1" stored_host stored_devices (("0", 0) ∷ [])
      by_osd.cleanup_by_osd (("0", raw_volume ∷ []) ∷ [])
      (record { id = 0; skip_device_cleanup = false }) (empty_scan []) (raw_volume ∷ []) refl refl

-- The same OSD, when the task names no host.
find_osd-spared_example :
    (lookup "0"
        (find_osd env known_cluster "node-1" stored_host stored_devices "0"
          (raw_volume ∷ [])
          (empty_scan [], ("0", 0) ∷ [])).0.osds
      ≡ none)
    × ((find_osd env known_cluster "node-1" stored_host stored_devices "0"
          (raw_volume ∷ [])
          (empty_scan [], ("0", 0) ∷ [])).1
        ≡ [])
unfolding lookup remove_key ends_with is_stray_osd_id device_in_spec collect_names add_raw insert
    found_in found_for first_present first_typed check_from_crush uuid_of path_dev_prepended
find_osd-spared_example =
    find_osd-spared env known_cluster "node-1" stored_host stored_devices (("0", 0) ∷ []) "0" refl
      refl refl (raw_volume ∷ []) (empty_scan []) 0 refl refl refl
