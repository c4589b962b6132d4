-- ===== src/OsdRemove/Spec/Plan/Reads.antt =====
-- What the planning requests: it only reads.
use pelagia.Prelude.{
  ◌≡◌, refl, ◌∙◌, inl, inr, ℕ, String, Bool, true, false, not, List, [], ◌∷◌, Assoc, lookup_or,
  contains, ◌&&◌, is_empty, ◌==◌, Option-cases, if◌then◌else◌,
}
use pelagia.Task.{NodeCleanUpSpec}
use pelagia.Common.Objects.{OsdInfo, OsdMetadataInfo, Node}
use pelagia.Common.World.{
  Result, Env, Call, ceph, disk_daemon, get_deployment, get_job, list_nodes, get_task, list_tasks,
  list_healths, get_task_for_update, get_cluster, get_ceph_deployment, read_clock, sleep, M, ◌>>=◌,
  pure, run_and_parse, Result-cases, run_ceph, run_disk_daemon,
}
use pelagia.Common.Retry.Quiet.{Quiet, branch-Quiet, run_with_retry-Quiet}
use pelagia.OsdRemove.Config.{TaskConfig, stray_osd_node_marker}
use pelagia.OsdRemove.Spec.Metadata.{ClusterOsds}
use pelagia.OsdRemove.Spec.Hosts.{nodes_from_task, OsdHostInfo, no_host_info}
use pelagia.OsdRemove.Spec.Volumes.{Search}
use pelagia.OsdRemove.Spec.Context.{
  cluster_osds, start_search, Gate, analysis_gate, go, refused, skip, gated,
}
use pelagia.OsdRemove.Spec.Report.{
  ask_report, get_node_report, try_to_get_node_osds_report_or_issues,
}
use pelagia.OsdRemove.Spec.Discovery.{found_report, find_host, find_hosts, find_osds_for_clean_up}
use pelagia.OsdRemove.Spec.Verify.{
  ask_host, verify_host, verify_hosts, verify_osds_for_clean_up, host_refusal,
}
use pelagia.OsdRemove.Spec.Plan.{task_hosts, get_osds_for_cleanup}

-- The toolbox commands that only ask.
abbrev pub queries : List String
queries = "ceph osd tree -f json" ∷ "ceph osd metadata -f json" ∷ "ceph osd info -f json" ∷ []

-- The requests that may change something: every one but those that are known to read.
abbrev pub is_change : Call → Bool
is_change (ceph command) = not (contains queries command)
is_change (disk_daemon host command) = false
is_change (get_deployment name) = false
is_change (get_job name) = false
is_change list_nodes = false
is_change get_task = false
is_change list_tasks = false
is_change list_healths = false
is_change get_task_for_update = false
is_change (get_cluster name) = false
is_change (get_ceph_deployment name) = false
is_change read_clock = false
is_change sleep = false
is_change _ = true

abbrev pub Reads {ℓ} : {A : Type ℓ} → M A → Type 0
Reads m = Quiet is_change m

module _ (env : Env) where
  pub run_and_parse-Reads {ℓ} :
      {A : Type ℓ} (unmarshal : String → Result A) (command : String)
      → contains queries command ≡ true
      → Reads (run_and_parse env unmarshal command)
  unfolding run_and_parse run_ceph
  run_and_parse-Reads unmarshal command e log = elim (Result-cases (env.ceph_reply log command)) [
    | inl (text, r) ↦ rw (r, e) refl
    | inr (x, r) ↦ rw (r, e) refl
  ]

  gated-Reads : (gate : Gate) (s : Search) (run : M Search) → Reads run → Reads (gated gate s run)
  gated-Reads go s run r log = r log
  gated-Reads (refused text) s run r log = refl
  gated-Reads (skip text) s run r log = refl

  module _ (c : TaskConfig) (k : ClusterOsds) where
    report-Reads :
        (host : String) → Reads (try_to_get_node_osds_report_or_issues env c.lcm_config host)
    unfolding try_to_get_node_osds_report_or_issues get_node_report ask_report run_disk_daemon
    report-Reads host log = run_with_retry-Quiet is_change refl _ (λ l. refl) _ log

    find_host-Reads :
        (host : String) (h : OsdHostInfo) (s : Search) → Reads (find_host env c k host h s)
    unfolding find_host
    find_host-Reads host h s =
        branch-Quiet is_change (h.available && h.labeled) _ _
          (gated-Reads (if h.in_spec then analysis_gate c.spec_analysis host else go) s
            (try_to_get_node_osds_report_or_issues env c.lcm_config host >>= λ r.
              pure (found_report env c k host h r s))
            (report-Reads host))
          (λ log. refl)

    find_hosts-Reads : (hosts : Assoc OsdHostInfo) (s : Search) → Reads (find_hosts env c k hosts s)
    unfolding find_hosts
    find_hosts-Reads [] s log = refl
    find_hosts-Reads ((host, h) ∷ more) s log =
        find_hosts-Reads more _ _ ∙ find_host-Reads host h s log

    ask_host-Reads :
        (host : String) (h : OsdHostInfo) (n : NodeCleanUpSpec) (s : Search)
        → Reads (ask_host env c k host h n s)
    unfolding ask_host
    ask_host-Reads host h n s log = elim (Option-cases (host_refusal host h n)) [
      | inl e ↦
          rw (ask_host, e)
            (branch-Quiet is_change (h.available && h.labeled) _ _ (report-Reads host) (λ l. refl)
              log)
      | inr (w, e) ↦ rw (ask_host, e) refl
    ]

    verify_hosts-Reads :
        (hosts : Assoc OsdHostInfo) (nodes : Assoc NodeCleanUpSpec) (s : Search)
        → Reads (verify_hosts env c k hosts nodes s)
    unfolding verify_hosts verify_host
    verify_hosts-Reads hosts [] s log = refl
    verify_hosts-Reads hosts ((host, n) ∷ more) s log =
        let h = lookup_or no_host_info host hosts in
        verify_hosts-Reads hosts more _ _
        ∙ branch-Quiet is_change (host == stray_osd_node_marker) _ _ (λ l. refl)
            (gated-Reads
              (if h.in_spec && h.labeled && h.available
                then analysis_gate c.spec_analysis host
                else go)
              s (ask_host env c k host h n s) (ask_host-Reads host h n s))
            log

  module _ (c : TaskConfig) where
    found-Reads :
        (hosts : Assoc OsdHostInfo) (metadata : List OsdMetadataInfo) (infos : List OsdInfo)
        → Reads (find_osds_for_clean_up env c hosts metadata infos)
    unfolding find_osds_for_clean_up
    found-Reads hosts metadata infos log =
        find_hosts-Reads c (cluster_osds c.ceph_cluster metadata infos) hosts
          (start_search metadata) log

    verified-Reads :
        (nodes : Assoc NodeCleanUpSpec) (hosts : Assoc OsdHostInfo)
        (metadata : List OsdMetadataInfo) (infos : List OsdInfo)
        → Reads (verify_osds_for_clean_up env c nodes hosts metadata infos)
    unfolding verify_osds_for_clean_up
    verified-Reads nodes hosts metadata infos log =
        verify_hosts-Reads c (cluster_osds c.ceph_cluster metadata infos) hosts nodes
          (start_search metadata) log

    pub plan-Reads :
        (crush : Assoc (List ℕ)) (metadata : List OsdMetadataInfo) (infos : List OsdInfo)
        (k8s : List Node)
        → Reads (get_osds_for_cleanup env c crush metadata infos k8s)
    unfolding get_osds_for_cleanup
    plan-Reads crush metadata infos k8s =
        let nodes = nodes_from_task c.task.spec in
        let hosts = task_hosts env c crush k8s in
        branch-Quiet is_change (is_empty nodes) (find_osds_for_clean_up env c hosts metadata infos)
          (verify_osds_for_clean_up env c nodes hosts metadata infos)
          (found-Reads hosts metadata infos) (verified-Reads nodes hosts metadata infos)
