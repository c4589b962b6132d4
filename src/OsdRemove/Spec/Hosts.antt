-- ===== src/OsdRemove/Spec/Hosts.antt =====
-- getOsdsForCleanup of spec_handler.go: the hosts that a task is about.
pub mod Stored
use pelagia.Prelude.{
  ℕ, suc, String, Bool, true, false, not, ◌&&◌, ◌||◌, Option, none, some, List, [], ◌∷◌, Assoc,
  insert, lookup_or, has_key, is_empty, ◌==◌, if◌then◌else◌,
}
use pelagia.Task.{NodeCleanUpSpec, TaskSpec}
use pelagia.Common.Objects.{StorageNode, Node}
use pelagia.Common.Disks.{is_node_available, is_node_with_disk_daemon}

-- `osdHostInfo`
pub record OsdHostInfo : Type 0 where
  pub in_spec : Bool
  pub spec_idx : ℕ
  pub in_crush : Bool
  pub crush_osds : List ℕ
  pub labeled : Bool
  pub available : Bool

abbrev pub no_host_info : OsdHostInfo
no_host_info = record {
  in_spec = false;
  spec_idx = 0;
  in_crush = false;
  crush_osds = [];
  labeled = false;
  available = false;
}

-- `nodesFromTaskSpec`; a nil map and an empty one are treated alike.
abbrev pub nodes_from_task : Option TaskSpec → Assoc NodeCleanUpSpec
nodes_from_task none = []
nodes_from_task (some spec) = elim spec.nodes [ none ↦ [] | some nodes ↦ nodes ]

module _ (nodes : Assoc NodeCleanUpSpec) where
  -- `pickHost`
  unfoldable pub pick_host : String → Bool
  pick_host name = not (name == "") && (is_empty nodes || has_key name nodes)

  unfoldable pub add_crush_hosts : Assoc (List ℕ) → Assoc OsdHostInfo → Assoc OsdHostInfo
  add_crush_hosts [] hosts = hosts
  add_crush_hosts ((name, osds) ∷ more) hosts = add_crush_hosts more (
      if pick_host name
      then insert name (record no_host_info { in_crush = true; crush_osds = osds }) hosts
      else hosts)

  unfoldable pub add_spec_hosts : ℕ → List StorageNode → Assoc OsdHostInfo → Assoc OsdHostInfo
  add_spec_hosts idx [] hosts = hosts
  add_spec_hosts idx (node ∷ more) hosts = add_spec_hosts (suc idx) more (
      if pick_host node.name
      then insert node.name
          (record (lookup_or no_host_info node.name hosts) { in_spec = true; spec_idx = idx }) hosts
      else hosts)

  module _ (matches : String → List (String × String) → Bool) (label : String) where
    abbrev has_daemon : Node → Bool
    has_daemon node = is_node_with_disk_daemon matches label node

    unfoldable pub add_k8s_hosts : List Node → Assoc OsdHostInfo → Assoc OsdHostInfo
    add_k8s_hosts [] hosts = hosts
    add_k8s_hosts (node ∷ more) hosts = add_k8s_hosts more (
        if pick_host node.name && (has_key node.name hosts || has_daemon node)
        then insert node.name
            (record (lookup_or no_host_info node.name hosts) {
              labeled = has_daemon node;
              available = is_node_available node;
            })
            hosts
        else hosts)

    -- `osdsHosts`: the hosts of the crush map, of the CephCluster and of Kubernetes.
    unfoldable pub hosts_of : Assoc (List ℕ) → List StorageNode → List Node → Assoc OsdHostInfo
    hosts_of crush storage k8s =
        add_k8s_hosts k8s (add_spec_hosts 0 storage (add_crush_hosts crush []))
