-- ===== src/OsdRemove/Spec/Verify.antt =====
-- verifyOsdsForCleanUp of spec_handler.go: a task that names the nodes.
use pelagia.Prelude.{
  ℕ, String, Bool, true, false, not, ◌&&◌, ◌||◌, ◌++◌, Option, none, some, List, [], ◌∷◌, map,
  Assoc, lookup, lookup_or, insert, is_empty, show_nat, sprint, ◌==◌, if◌then◌else◌,
}
use pelagia.Task.{OsdMapping, HostMapping, TaskRemoveInfo, NodeCleanUpSpec, OsdCleanupSpec, no_host}
use pelagia.Common.Objects.{OsdInfo, OsdMetadataInfo}
use pelagia.Common.Disks.{OsdsReport}
use pelagia.Common.World.{Env, M, ◌>>=◌, pure}
use pelagia.OsdRemove.Config.{TaskConfig, stray_osd_node_marker}
use pelagia.OsdRemove.Spec.Metadata.{
  ClusterOsds, MappingConfig, on_node, fill_osd_mapping_from_osd_meta,
  get_report_warnings_in_node_format,
}
use pelagia.OsdRemove.Spec.Zap.{check_device_zapping}
use pelagia.OsdRemove.Spec.Hosts.{OsdHostInfo, no_host_info}
use pelagia.OsdRemove.Spec.Report.{ReportOrIssues, try_to_get_node_osds_report_or_issues}
use pelagia.OsdRemove.Spec.Volumes.{
  known_osds, stray_mapping, Scan, empty_scan, Search, add_issues, add_warnings, add_host,
}
use pelagia.OsdRemove.Spec.Context.{cluster_osds, start_search, go, analysis_gate, gated}
use pelagia.OsdRemove.Spec.Discovery.{host_devices, sorted_info}
use pelagia.OsdRemove.Spec.Complete.{clean_completely}
use pelagia.OsdRemove.Spec.ByOsd.{clean_by_osd}
use pelagia.OsdRemove.Spec.ByDevice.{clean_by_device}

-- `CompleteCleanup || DropFromCrush`
abbrev pub is_whole : NodeCleanUpSpec → Bool
is_whole n = n.complete_cleanup || n.drop_from_crush

-- `hostMapping` for a host that passes the checks.
unfoldable pub asked_host : OsdHostInfo → NodeCleanUpSpec → HostMapping
asked_host h n = record no_host {
  complete_cleanup = n.complete_cleanup;
  drop_from_crush = n.drop_from_crush;
  node_is_down = not h.available;
}

-- Why the host is skipped, if it is: the checks before its OSDs are looked at.
unfoldable pub host_refusal : String → OsdHostInfo → NodeCleanUpSpec → Option String
host_refusal host h n =
    if n.cleanup_stray_partitions && not h.available
    then some (
        on_node host
          ("node is not available, cleanup stray paritions is not possible, skipping" ∷ []))
    else if n.cleanup_stray_partitions && not h.labeled
    then some (
        on_node host (
          "node is available, but has no disk daemon running, cleanup stray paritions is not possible, use by id or complete remove, skipping"
          ∷ []))
    else if not h.in_crush && not n.cleanup_stray_partitions
    then some (on_node host ("node is not present in Ceph cluster crush map, skipping" ∷ []))
    else if h.in_spec && is_whole n
    then some (
        on_node host (
          "node is present in spec, complete host remove from crush map is not possible, skipping"
          ∷ []))
    else none

-- The same for a host with no disk daemon to ask.
unfoldable pub unasked_refusal : String → OsdHostInfo → NodeCleanUpSpec → Option String
unasked_refusal host h n =
    if h.available && h.in_spec
    then some (
        on_node host
          ("node is available, but present in spec, has no disk daemon running, skipping" ∷ []))
    else if is_empty n.cleanup_by_device
    then none
    else if h.available
    then some (
        on_node host (
          "node is available, but has no disk daemon running, cleanup by device is not possible, use by id or complete remove, skipping"
          ∷ []))
    else some
        (on_node host ("node is not available, cleanup by device is not possible, skipping" ∷ []))

abbrev pub osd_ids : List OsdCleanupSpec → List ℕ
osd_ids items = map (λ (item : OsdCleanupSpec). item.id) items

abbrev mapping_config : String → OsdHostInfo → NodeCleanUpSpec → MappingConfig
mapping_config host h n = record {
  node_in_spec = if is_whole n then false else h.in_spec;
  node_available = h.available;
  host = host;
  osds_to_clean = if is_whole n then h.crush_osds else osd_ids n.cleanup_by_osd;
}

-- A host with OSDs to remove, or to be removed as a whole, is planned.
unfoldable pub plan_asked : String → NodeCleanUpSpec → HostMapping → Search → Search
plan_asked host n m s = if not (is_empty m.osd_mapping) || is_whole n then add_host host m s else s

unfoldable pub asked_unreported :
    ClusterOsds → String → OsdHostInfo → NodeCleanUpSpec → Search → Search
asked_unreported k host h n s = elim (unasked_refusal host h n) [
  | some warning ↦ add_warnings (warning ∷ []) s
  | none ↦
      let (osds, warnings) = fill_osd_mapping_from_osd_meta k (mapping_config host h n) in
      add_warnings warnings (
        plan_asked host n
          (record (asked_host h n) { osd_mapping = osds; volumes_info_missed = h.available }) s)
]

module _ (env : Env) (c : TaskConfig) (k : ClusterOsds) where
  -- The cleanup that the task asks for, of the volumes in the report.
  unfoldable pub clean_host :
      String → OsdHostInfo → NodeCleanUpSpec → OsdsReport → Assoc Bool → Scan
  clean_host host h n report strays =
      let used = host_devices env c k h in
      let known = known_osds h.crush_osds [] in
      let s = empty_scan strays in
      if is_whole n || n.cleanup_stray_partitions
      then clean_completely k host env h used n.cleanup_stray_partitions known report.osds s
      else if not (is_empty n.cleanup_by_osd)
      then clean_by_osd env k host h used known n.cleanup_by_osd report.osds s
      else clean_by_device env k host h used known n.cleanup_by_device report.osds s

  -- The checks behind it; the disks of a host that only leaves the crush map are not zapped.
  unfoldable pub conclude_clean :
      String → OsdHostInfo → NodeCleanUpSpec → OsdsReport → Scan → Search → Search
  conclude_clean host h n report scan s =
      let found = add_warnings scan.warnings (record s { strays = scan.strays }) in
      let (osds, zapping) =
        if n.drop_from_crush
        then (scan.osds, [])
        else check_device_zapping host scan.osds scan.locked
            c.lcm_config.allow_to_remove_manually_created_lvm in
      let m = record (asked_host h n) { osd_mapping = osds } in
      if is_empty osds && not (is_whole n)
      then found
      else add_host host m (
          add_warnings (get_report_warnings_in_node_format m host report.warnings)
            (add_warnings zapping found))

  unfoldable pub asked_report :
      String → OsdHostInfo → NodeCleanUpSpec → ReportOrIssues → Search → Search
  asked_report host h n (none, issues) s = add_issues issues s
  asked_report host h n (some report, _) s =
      conclude_clean host h n report (clean_host host h n report s.strays) s

  unfoldable pub ask_host : String → OsdHostInfo → NodeCleanUpSpec → Search → M Search
  ask_host host h n s = elim (host_refusal host h n) [
    | some warning ↦ pure (add_warnings (warning ∷ []) s)
    | none ↦
        if h.available && h.labeled
        then (do
          r ← try_to_get_node_osds_report_or_issues env c.lcm_config host
          pure (asked_report host h n r s))
        else pure (asked_unreported k host h n s)
  ]

  -- A host of the task; the entry for stray OSDs comes last.
  unfoldable pub verify_host : Assoc OsdHostInfo → String → NodeCleanUpSpec → Search → M Search
  verify_host hosts host n s =
      let h = lookup_or no_host_info host hosts in
      if host == stray_osd_node_marker
      then pure s
      else gated
          (if h.in_spec && h.labeled && h.available then analysis_gate c.spec_analysis host else go)
          s (ask_host host h n s)

  unfoldable pub verify_hosts : Assoc OsdHostInfo → Assoc NodeCleanUpSpec → Search → M Search
  verify_hosts hosts [] s = pure s
  verify_hosts hosts ((host, n) ∷ more) s = do
    s' ← verify_host hosts host n s
    verify_hosts hosts more s'

-- The stray OSDs to remove by id: those that no host's volumes have settled.
abbrev no_stray_warning : String → String
no_stray_warning osd = sprint (
    "[" ∷ stray_osd_node_marker ∷ "] stray osd with id '" ∷ osd ∷ "' is not found in crush map"
    ∷ [])

unfoldable pub pick_strays :
    ClusterOsds
    → Assoc Bool
    → List OsdCleanupSpec
    → Assoc OsdMapping × List String
    → Assoc OsdMapping × List String
pick_strays k strays [] r = r
pick_strays k strays (item ∷ items) (osds, warnings) =
    let osd = show_nat item.id in
    pick_strays k strays items (elim (lookup osd strays) [
      | none ↦ (osds, warnings ++ no_stray_warning osd ∷ [])
      | some true ↦ (insert osd (stray_mapping k osd) osds, warnings)
      | some false ↦ (osds, warnings)
    ])

unfoldable pub verify_strays : ClusterOsds → Option NodeCleanUpSpec → Search → Search
verify_strays k none s = s
verify_strays k (some n) s =
    if is_empty n.cleanup_by_osd
    then add_warnings
        (sprint (
            "[" ∷ stray_osd_node_marker
            ∷ "] stray which are present in crush map is possible to remove only be osd id" ∷ [])
          ∷ [])
        s
    else (let (osds, warnings) = pick_strays k s.strays n.cleanup_by_osd ([], []) in
        let warned = add_warnings warnings s in
        if is_empty osds
        then warned
        else add_host stray_osd_node_marker (record no_host { osd_mapping = osds }) warned)

-- `verifyOsdsForCleanUp`
unfoldable pub verify_osds_for_clean_up :
    Env
    → TaskConfig
    → Assoc NodeCleanUpSpec
    → Assoc OsdHostInfo
    → List OsdMetadataInfo
    → List OsdInfo
    → M TaskRemoveInfo
verify_osds_for_clean_up env c nodes hosts metadata infos = do
  let k = cluster_osds c.ceph_cluster metadata infos
  s ← verify_hosts env c k hosts nodes (start_search metadata)
  pure (sorted_info (verify_strays k (lookup stray_osd_node_marker nodes) s).info)
