-- ===== src/OsdRemove/Spec/Plan/Kept.antt =====
-- spec_handler.go: hosts that the CephCluster names are not removed as a whole, and a task that
-- names hosts is about no others.
use pelagia.Prelude.{
  ◌≡◌, ◌≢◌, refl, sym, subst, ◌∙◌, ℕ, String, true, false, false≢true, not, none, some, List, [],
  ◌∷◌, All, Assoc, lookup, has_key, is_empty, IsMap, lookup_or-some, if_cases, IsMap-All, keys-All,
  ap, eq_iff, arith,
}
use pelagia.Task.{HostMapping, TaskRemoveInfo, NodeCleanUpSpec}
use pelagia.Common.Objects.{OsdInfo, OsdMetadataInfo, Node}
use pelagia.Common.World.{Env, Log, M}
use pelagia.OsdRemove.Config.{TaskConfig}
use pelagia.OsdRemove.Spec.Hosts.{no_host_info, OsdHostInfo, nodes_from_task, pick_host}
use pelagia.OsdRemove.Spec.Hosts.Stored.{is_stored, info_of, hosts_of-IsMap, hosts_of-stored}
use pelagia.OsdRemove.Spec.Discovery.{found_host}
use pelagia.OsdRemove.Spec.Verify.{asked_host, host_refusal}
use pelagia.OsdRemove.Spec.Plan.{task_hosts, get_osds_for_cleanup}
use pelagia.OsdRemove.Spec.Plan.Planned.{
  Finds, Asks, Holds, find_osds_for_clean_up-Holds, verify_osds_for_clean_up-Holds,
}

-- The host stays in the crush map.
abbrev pub IsPartial : HostMapping → Type 0
IsPartial m = (m.complete_cleanup ≡ false) × (m.drop_from_crush ≡ false)

-- What is planned for a host in a storage list.
abbrev pub Keeps : TaskConfig → String → HostMapping → Type 0
Keeps c host m = (host ≢ "") × (is_stored host c.ceph_cluster.storage_nodes ≡ true) → IsPartial m

asked-IsPartial :
    (host : String) (h : OsdHostInfo) (n : NodeCleanUpSpec)
    → h.in_spec ≡ true
    → host_refusal host h n ≡ none
    → (n.complete_cleanup ≡ false) × (n.drop_from_crush ≡ false)
unfolding host_refusal
asked-IsPartial host h n marked allowed = ground arith

-- A task with no nodes section picks every host that has a name.
picks_all : (host : String) → host ≢ "" → pick_host [] host ≡ true
unfolding pick_host
picks_all host n = ground (arith, eq_iff host "")

picks_named :
    (nodes : Assoc NodeCleanUpSpec) (host : String)
    → host ≢ ""
    → has_key host nodes ≡ true
    → pick_host nodes host ≡ true
unfolding pick_host
picks_named nodes host n named = ground (arith, eq_iff host "")

module _ (env : Env) (c : TaskConfig) (crush : Assoc (List ℕ)) (k8s : List Node) where
  marked :
      (host : String)
      → pick_host (nodes_from_task c.task.spec) host ≡ true
      → is_stored host c.ceph_cluster.storage_nodes ≡ true
      → (info_of host (task_hosts env c crush k8s)).in_spec ≡ true
  unfolding task_hosts
  marked host = hosts_of-stored (nodes_from_task c.task.spec) _ _ host crush _ k8s

  is_map : IsMap (task_hosts env c crush k8s)
  unfolding task_hosts
  is_map = hosts_of-IsMap (nodes_from_task c.task.spec) _ _ crush _ k8s

  finds :
      nodes_from_task c.task.spec ≡ []
      → All (λ e. Finds (Keeps c) e.0 e.1) (task_hosts env c crush k8s)
  unfolding found_host
  finds unnamed =
      IsMap-All (task_hosts env c crush k8s) is_map (λ host h e osds missed (name, stored). (
        ap not (
            ap (λ (i : OsdHostInfo). i.in_spec) (sym (lookup_or-some no_host_info host _ e))
            ∙ marked host (all host name) stored),
        refl,
      ))
    where
      all : (host : String) → host ≢ "" → pick_host (nodes_from_task c.task.spec) host ≡ true
      all host name =
          subst (λ nodes. pick_host nodes host ≡ true) (sym unnamed) (picks_all host name)

  asks :
      All
        (λ e. Asks (Keeps c) e.0 (info_of e.0 (task_hosts env c crush k8s)) e.1)
        (nodes_from_task c.task.spec)
  unfolding asked_host
  asks = keys-All (nodes_from_task c.task.spec) (λ host n named allowed osds missed (name, stored).
      asked-IsPartial host _ n
        (marked host (picks_named (nodes_from_task c.task.spec) host name named) stored) allowed)

-- Whatever the task asks for and whatever Ceph, Kubernetes and the disk daemons answer, a host
-- that has a name and that the storage section of the CephCluster lists is planned neither for a
-- complete cleanup nor to be dropped from the crush map.
pub get_osds_for_cleanup-IsPartial :
    (env : Env) (c : TaskConfig) (crush : Assoc (List ℕ)) (metadata : List OsdMetadataInfo)
    (infos : List OsdInfo) (k8s : List Node) (log : Log) (host : String) (m : HostMapping)
    → lookup host (get_osds_for_cleanup env c crush metadata infos k8s log).0.cleanup_map ≡ some m
    → host ≢ ""
    → is_stored host c.ceph_cluster.storage_nodes ≡ true
    → IsPartial m
unfolding get_osds_for_cleanup
get_osds_for_cleanup-IsPartial env c crush metadata infos k8s log host m e name stored =
    if_cases (λ (r : M TaskRemoveInfo). Holds (Keeps c) (r log).0.cleanup_map)
      (is_empty (nodes_from_task c.task.spec))
      (λ unnamed.
        find_osds_for_clean_up-Holds (Keeps c) env c metadata infos (λ osds n. (refl, refl)) _ log
          (finds env c crush k8s (empty (nodes_from_task c.task.spec) unnamed)))
      (λ named.
        verify_osds_for_clean_up-Holds (Keeps c) env c metadata infos (λ osds n. (refl, refl)) _ _
          log (asks env c crush k8s))
      host m e (name, stored)
  where
    empty : (nodes : Assoc NodeCleanUpSpec) → is_empty nodes ≡ true → nodes ≡ []
    empty [] e = refl
    empty (n ∷ nodes) e = absurd (false≢true e)
