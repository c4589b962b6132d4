-- ===== src/Health/Analysis/Run.antt =====
-- runSpecAnalysis as a whole.
use pelagia.Prelude.{
  ℕ, String, Bool, false, not, ◌&&◌, ◌||◌, any, lookup_or, ◌==◌, Option, none, some, List, [],
  is_empty, sort_strings, if◌then◌else◌,
}
use pelagia.Common.Objects.{StorageNode}
use pelagia.Common.Disks.{DisksReport, OsdsReport}
use pelagia.Health.Osds.{NodeDetails}
use pelagia.Health.Analysis.Devices.{Checked, devices_of}
use pelagia.Health.Analysis.Usage.{Tally, analyse_devices}
use pelagia.Health.Analysis.Extra.{Extras, extra_osds}

-- The three results.
pub record Analysis : Type 0 where
  pub issues : List String
  pub warnings : List String
  pub extra_found : Bool

abbrev pub with_issues : List String → Analysis
with_issues issues = record { issues = sort_strings issues; warnings = []; extra_found = false }

abbrev with_extras : Extras → Analysis
with_extras e = record {
  issues = [];
  warnings = sort_strings e.warnings;
  extra_found = e.extra_found;
}

module _ (matches : (pattern text : String) → Bool) (node : StorageNode) (disks : DisksReport)
    (osds : OsdsReport) (cluster : NodeDetails) where
  unfoldable pub extras_or : Tally → Analysis
  unfolding extra_osds
  extras_or t =
      if is_empty t.issues
      then with_extras
          (extra_osds cluster t.reflected osds.osds (record { warnings = []; extra_found = false }))
      else with_issues t.issues

  unfoldable pub analysis_of : Checked → Analysis
  unfolding analyse_devices extras_or
  analysis_of st =
      if is_empty st.issues
      then extras_or (
          analyse_devices matches disks osds cluster st.devices
            (record { issues = []; count = 0; reflected = [] }))
      else with_issues st.issues

  -- `runSpecAnalysis`, none if a search for a disk does not end within the fuel.
  unfoldable pub run_spec_analysis : ℕ → Option Analysis
  unfolding devices_of analysis_of
  run_spec_analysis fuel =
      let st = devices_of matches disks node fuel in
      if st.ended then some (analysis_of st) else none

abbrev pub no_disks : DisksReport
no_disks = record { block_info = []; aliases = []; disk_to_osd = [] }

abbrev pub no_osds_report : OsdsReport
no_osds_report = record { warnings = []; osds = [] }

-- A report without its part on disks is read where the spec has a device or a filter.
abbrev pub reads_disks : StorageNode → Bool
reads_disks node =
    not (is_empty node.devices)
    || not (node.device_filter == "")
    || not (node.device_path_filter == "")

module _ (matches : (pattern text : String) → Bool) (node : StorageNode) (cluster : NodeDetails)
    (fuel : ℕ) where
  -- The part on OSDs is read for an OSD of a device that is analysed, and if there are no issues.
  abbrev pub reads_osds : DisksReport → Analysis → Bool
  reads_osds disks a =
      let st = devices_of matches disks node fuel in
      is_empty a.issues
      || (is_empty st.issues
          && any (λ d. not (is_empty (lookup_or [] d.dev disks.disk_to_osd))) st.devices)

  unfoldable pub run_on_osds : DisksReport → Option OsdsReport → Option Analysis
  unfolding run_spec_analysis
  run_on_osds disks (some osds) = run_spec_analysis matches node disks osds cluster fuel
  run_on_osds disks none = elim (run_spec_analysis matches node disks no_osds_report cluster fuel) [
    | none ↦ none
    | some a ↦ if reads_osds disks a then none else some a
  ]

  -- `runSpecAnalysis` of a report whose parts may be nil: none if a nil pointer is read, or if a
  -- search for a disk does not end.
  unfoldable pub run_on_report : Option DisksReport → Option OsdsReport → Option Analysis
  unfolding run_on_osds
  run_on_report (some disks) osds = run_on_osds disks osds
  run_on_report none osds = if reads_disks node then none else run_on_osds no_disks osds
