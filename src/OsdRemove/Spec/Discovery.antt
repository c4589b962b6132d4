-- ===== src/OsdRemove/Spec/Discovery.antt =====
-- findOsdsForCleanUp of spec_handler.go: the loop over the hosts and the strays that are left.
use pelagia.Prelude.{
  String, Bool, not, ◌&&◌, ◌||◌, none, some, List, [], ◌∷◌, Assoc, is_empty, sort_strings,
  if◌then◌else◌,
}
use pelagia.Task.{OsdMapping, HostMapping, TaskRemoveInfo, no_host}
use pelagia.Common.Objects.{OsdInfo, OsdMetadataInfo}
use pelagia.Common.Disks.{OsdsReport}
use pelagia.Common.World.{Env, M, ◌>>=◌, pure}
use pelagia.OsdRemove.Config.{TaskConfig, stray_osd_node_marker}
use pelagia.OsdRemove.Spec.Metadata.{
  ClusterOsds, on_node, fill_osd_mapping_from_osd_meta, get_report_warnings_in_node_format,
}
use pelagia.OsdRemove.Spec.Devices.{UsedDevices, no_devices}
use pelagia.OsdRemove.Spec.Zap.{check_device_zapping}
use pelagia.OsdRemove.Spec.Hosts.{OsdHostInfo}
use pelagia.OsdRemove.Spec.Report.{ReportOrIssues, try_to_get_node_osds_report_or_issues}
use pelagia.OsdRemove.Spec.Volumes.{stray_mapping, Scan, Search, add_issues, add_warnings, add_host}
use pelagia.OsdRemove.Spec.Context.{
  cluster_osds, start_search, used_devices, go, analysis_gate, gated,
}
use pelagia.OsdRemove.Spec.Find.{scan_host}

-- `hostMapping` at the start of the loop.
unfoldable pub found_host : OsdHostInfo → HostMapping
found_host h = record no_host { complete_cleanup = not h.in_spec; node_is_down = not h.available }

-- A host is planned with its OSDs, or with none to take it out of the crush map.
unfoldable pub plan_host : String → OsdHostInfo → HostMapping → Search → Search
plan_host host h m s =
    if not (is_empty m.osd_mapping) || h.in_crush && m.complete_cleanup
    then add_host host m s
    else s

unfoldable pub stray_osds : ClusterOsds → Assoc Bool → Assoc OsdMapping
stray_osds k [] = []
stray_osds k ((osd, _) ∷ more) = (osd, stray_mapping k osd) ∷ stray_osds k more

abbrev strays_warning : String
strays_warning =
    "[stray] detected stray osds, but impossible to determine related host/device (probably disk(s) removed or host(s) down), device cleanup jobs will be skipped"

unfoldable pub plan_strays : ClusterOsds → Search → Search
plan_strays k s =
    if is_empty s.strays
    then s
    else add_host stray_osd_node_marker (record no_host { osd_mapping = stray_osds k s.strays })
        (add_warnings (strays_warning ∷ []) s)

unfoldable pub sorted_info : TaskRemoveInfo → TaskRemoveInfo
sorted_info info = record info {
  issues = sort_strings info.issues;
  warnings = sort_strings info.warnings;
}

module _ (env : Env) (c : TaskConfig) (k : ClusterOsds) where
  abbrev pub host_devices : OsdHostInfo → UsedDevices
  host_devices h =
      if h.in_spec then used_devices c.ceph_cluster.storage_nodes h.spec_idx else no_devices

  -- The checks behind the scan of a host.
  unfoldable pub conclude_scan : String → OsdHostInfo → OsdsReport → Scan → Search → Search
  conclude_scan host h report scan s =
      let (osds, zapping) =
        check_device_zapping host scan.osds scan.locked
          c.lcm_config.allow_to_remove_manually_created_lvm in
      let m = record (found_host h) { osd_mapping = osds } in
      let daemon =
        if is_empty osds then [] else get_report_warnings_in_node_format m host report.warnings in
      plan_host host h m (
        add_warnings daemon
          (add_warnings zapping (add_warnings scan.warnings (record s { strays = scan.strays }))))

  unfoldable pub found_report : String → OsdHostInfo → ReportOrIssues → Search → Search
  found_report host h (none, issues) s = add_issues issues s
  found_report host h (some report, _) s =
      conclude_scan host h report (scan_host env k host h (host_devices h) report s.strays) s

  -- A host with no disk daemon to ask: Ceph's metadata have to do.
  unfoldable pub found_unasked : String → OsdHostInfo → Search → Search
  found_unasked host h s =
      if h.in_spec
      then add_warnings
          (on_node host (
              if h.available
              then "node is available and present in spec, but has no disk daemon running, unable to run auto cleanup, skipping"
                ∷ []
              else "node is present in spec, but is not available, unable to auto detect osds to remove, please specify manually"
                ∷ [])
            ∷ [])
          s
      else if h.in_crush
      then (let (osds, warnings) = fill_osd_mapping_from_osd_meta k (record {
        node_in_spec = h.in_spec;
        node_available = h.available;
        host = host;
        osds_to_clean = h.crush_osds;
      }) in
          plan_host host h
            (record (found_host h) { volumes_info_missed = h.available; osd_mapping = osds })
            (add_warnings warnings s))
      else plan_host host h (found_host h) s

  unfoldable pub find_host : String → OsdHostInfo → Search → M Search
  find_host host h s =
      if h.available && h.labeled
      then gated (if h.in_spec then analysis_gate c.spec_analysis host else go) s (do
        r ← try_to_get_node_osds_report_or_issues env c.lcm_config host
        pure (found_report host h r s))
      else pure (found_unasked host h s)

  unfoldable pub find_hosts : Assoc OsdHostInfo → Search → M Search
  find_hosts [] s = pure s
  find_hosts ((host, h) ∷ more) s = do s' ← find_host host h s; find_hosts more s'

-- `findOsdsForCleanUp`
unfoldable pub find_osds_for_clean_up :
    Env → TaskConfig → Assoc OsdHostInfo → List OsdMetadataInfo → List OsdInfo → M TaskRemoveInfo
find_osds_for_clean_up env c hosts metadata infos = do
  let k = cluster_osds c.ceph_cluster metadata infos
  s ← find_hosts env c k hosts (start_search metadata)
  pure (sorted_info (plan_strays k s).info)
