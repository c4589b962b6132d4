-- ===== src/OsdRemove/Spec/Context.antt =====
-- What both handlers of spec_handler.go know before they look at a host.
use pelagia.Prelude.{
  ℕ, String, Bool, true, false, none, some, List, [], ◌∷◌, Assoc, lookup, get_elem?, is_empty, ◌==◌,
  if◌then◌else◌,
}
use pelagia.Common.Objects.{
  OsdInfo, OsdMetadataInfo, CephCluster, StorageNode, AnalysisStatus, DaemonState, skipped,
}
use pelagia.Common.World.{M, pure}
use pelagia.OsdRemove.Jobs.Build.{default_data_dir_host_path, text_or}
use pelagia.OsdRemove.Spec.Metadata.{ClusterOsds, uuid_map, on_node}
use pelagia.OsdRemove.Spec.Devices.{UsedDevices, no_devices, get_list_used_devices}
use pelagia.OsdRemove.Spec.Volumes.{Search, strays_no_host, add_issues, add_warnings}

unfoldable pub cluster_osds : CephCluster → List OsdMetadataInfo → List OsdInfo → ClusterOsds
cluster_osds cluster metadata infos = record {
  metadata = metadata;
  uuids = uuid_map infos [];
  fsid = text_or "" cluster.fsid;
  namespace = cluster.namespace;
  host_dir =
      if cluster.data_dir_host_path == ""
      then default_data_dir_host_path
      else cluster.data_dir_host_path;
}

-- `newResult` and `strayOsdsNoHost` at the start.
unfoldable pub start_search : List OsdMetadataInfo → Search
start_search metadata = record {
  info = record { cleanup_map = []; issues = []; warnings = [] };
  strays = strays_no_host metadata [];
}

-- The storage node of an index.
unfoldable pub used_devices : List StorageNode → ℕ → UsedDevices
used_devices nodes idx = elim (get_elem? nodes idx) [
  | none ↦ no_devices
  | some node ↦ get_list_used_devices node
]

-- What the analysis of a host's spec allows.
pub data Gate : Type 0 where
  go : Gate
  refused skip : String → Gate

abbrev is_skipped : DaemonState → Bool
is_skipped skipped = true
is_skipped _ = false

abbrev state_gate : String → AnalysisStatus → Gate
state_gate host state =
    if is_empty state.issues
    then (if is_skipped state.status
        then skip (on_node host ("spec analyse status skipped, skipping lcm actions" ∷ []))
        else go)
    else refused (on_node host ("spec analyse status has failed, resolve it first" ∷ []))

-- The check of `SpecAnalysis`.
unfoldable pub analysis_gate : Assoc AnalysisStatus → String → Gate
analysis_gate analysis host = elim (lookup host analysis) [
  | none ↦ refused (on_node host ("spec analyse status is not available yet" ∷ []))
  | some state ↦ state_gate host state
]

abbrev pub gated : Gate → Search → M Search → M Search
gated go s run = run
gated (refused text) s run = pure (add_issues (text ∷ []) s)
gated (skip text) s run = pure (add_warnings (text ∷ []) s)
