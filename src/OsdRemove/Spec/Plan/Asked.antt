-- ===== src/OsdRemove/Spec/Plan/Asked.antt =====
-- verifyOsdsForCleanUp of spec_handler.go: what is planned is what the task asks for.
use pelagia.Prelude.{
  ◌≡◌, refl, ◌⊎◌, inl, inr, ℕ, String, true, false, not, ◌&&◌, none, some, List, Assoc, lookup,
  is_empty, IsMap, IsMap-All, if_cases, false≢true, sym, ◌∙◌, arith,
}
use pelagia.Task.{HostMapping, NodeCleanUpSpec, TaskRemoveInfo}
use pelagia.Common.Objects.{OsdInfo, OsdMetadataInfo, Node}
use pelagia.Common.World.{Env, Log, M}
use pelagia.OsdRemove.Config.{TaskConfig, stray_osd_node_marker}
use pelagia.OsdRemove.Spec.Hosts.{OsdHostInfo, nodes_from_task}
use pelagia.OsdRemove.Spec.Hosts.Stored.{info_of}
use pelagia.OsdRemove.Spec.Verify.{asked_host, host_refusal, is_whole}
use pelagia.OsdRemove.Spec.Plan.{task_hosts, get_osds_for_cleanup}
use pelagia.OsdRemove.Spec.Plan.Planned.{Holds, verify_osds_for_clean_up-Holds}

-- The mapping of a host is that of its entry `n` in the task, and the host is fit for it.
pub record IsFit (h : OsdHostInfo) (n : NodeCleanUpSpec) (m : HostMapping) : Type 0 where
  pub same_complete : m.complete_cleanup ≡ n.complete_cleanup
  pub same_drop : m.drop_from_crush ≡ n.drop_from_crush
  pub is_down : m.node_is_down ≡ not h.available
  -- The stray partitions of a host are cleaned up only with its disk daemon running.
  pub strays_seen : n.cleanup_stray_partitions ≡ true → h.available && h.labeled ≡ true
  -- Any other cleanup is of a host that Ceph knows.
  pub known_host : n.cleanup_stray_partitions ≡ false → h.in_crush ≡ true
  pub whole_unstored : is_whole n ≡ true → h.in_spec ≡ false

abbrev pub IsAsked : Assoc NodeCleanUpSpec → Assoc OsdHostInfo → String → HostMapping → Type 0
IsAsked nodes hosts host m =
    (n : NodeCleanUpSpec) × (lookup host nodes ≡ some n) × IsFit (info_of host hosts) n m

allowed-IsFit :
    (host : String) (h : OsdHostInfo) (n : NodeCleanUpSpec) (m : HostMapping)
    → m.complete_cleanup ≡ n.complete_cleanup
    → m.drop_from_crush ≡ n.drop_from_crush
    → m.node_is_down ≡ not h.available
    → host_refusal host h n ≡ none
    → IsFit h n m
unfolding host_refusal
allowed-IsFit host h n m complete drop down allowed = record {
  same_complete = complete;
  same_drop = drop;
  is_down = down;
  strays_seen = λ s. ground arith;
  known_host = λ s. ground arith;
  whole_unstored = λ s. ground arith;
}

-- In the plan for a task that names hosts, each host but the entry for strays is named by the task,
-- its flags are those of the task, and it is fit for what is asked.
pub get_osds_for_cleanup-IsAsked :
    (env : Env) (c : TaskConfig) (crush : Assoc (List ℕ)) (metadata : List OsdMetadataInfo)
    (infos : List OsdInfo) (k8s : List Node) (log : Log) (host : String) (m : HostMapping)
    → IsMap (nodes_from_task c.task.spec)
    → is_empty (nodes_from_task c.task.spec) ≡ false
    → lookup host (get_osds_for_cleanup env c crush metadata infos k8s log).0.cleanup_map ≡ some m
    → (host ≡ stray_osd_node_marker)
      ⊎ IsAsked (nodes_from_task c.task.spec) (task_hosts env c crush k8s) host m
unfolding get_osds_for_cleanup asked_host
get_osds_for_cleanup-IsAsked env c crush metadata infos k8s log host m is_map named =
    if_cases (λ (r : M TaskRemoveInfo). Holds AskedOrStray (r log).0.cleanup_map) (is_empty nodes)
      (λ unnamed. absurd (false≢true (sym named ∙ unnamed)))
      (λ _.
        verify_osds_for_clean_up-Holds AskedOrStray env c metadata infos (λ osds. inl refl) _ hosts
          log
          (IsMap-All nodes is_map (λ name n e allowed osds missed.
            inr (n, e, allowed-IsFit name (info_of name hosts) n _ refl refl refl allowed))))
      host m
  where
    nodes : Assoc NodeCleanUpSpec
    nodes = nodes_from_task c.task.spec

    hosts : Assoc OsdHostInfo
    hosts = task_hosts env c crush k8s

    AskedOrStray : String → HostMapping → Type 0
    AskedOrStray name mapping = (name ≡ stray_osd_node_marker) ⊎ IsAsked nodes hosts name mapping
