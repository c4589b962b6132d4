-- ===== src/OsdRemove/Spec/Plan.antt =====
-- getOsdsForCleanup of spec_handler.go.
pub mod Planned
pub mod Kept
pub mod Asked
pub mod Reads
use pelagia.Prelude.{ℕ, List, Assoc, is_empty, if◌then◌else◌}
use pelagia.Task.{TaskRemoveInfo}
use pelagia.Common.Objects.{OsdInfo, OsdMetadataInfo, Node}
use pelagia.Common.World.{Env, M}
use pelagia.OsdRemove.Config.{TaskConfig}
use pelagia.OsdRemove.Spec.Hosts.{OsdHostInfo, nodes_from_task, hosts_of}
use pelagia.OsdRemove.Spec.Discovery.{find_osds_for_clean_up}
use pelagia.OsdRemove.Spec.Verify.{verify_osds_for_clean_up}

-- `osdsHosts` of a task.
unfoldable pub task_hosts : Env → TaskConfig → Assoc (List ℕ) → List Node → Assoc OsdHostInfo
task_hosts env c crush k8s =
    hosts_of (nodes_from_task c.task.spec) env.selector_matches
      c.lcm_config.disk_daemon_placement_label crush c.ceph_cluster.storage_nodes k8s

-- `getOsdsForCleanup`
unfoldable pub get_osds_for_cleanup :
    Env
    → TaskConfig
    → Assoc (List ℕ)
    → List OsdMetadataInfo
    → List OsdInfo
    → List Node
    → M TaskRemoveInfo
get_osds_for_cleanup env c crush metadata infos k8s =
    let nodes = nodes_from_task c.task.spec in
    let hosts = task_hosts env c crush k8s in
    if is_empty nodes
    then find_osds_for_clean_up env c hosts metadata infos
    else verify_osds_for_clean_up env c nodes hosts metadata infos
