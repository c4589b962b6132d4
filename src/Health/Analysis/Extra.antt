-- ===== src/Health/Analysis/Extra.antt =====
-- runSpecAnalysis, its last part: the volumes on the node that the spec does not describe.
pub mod Found
use pelagia.Prelude.{
  String, Bool, true, false, ◌&&◌, ◌++◌, none, some, List, [], ◌∷◌, Assoc, lookup, lookup_or,
  sprint, ◌==◌, if◌then◌else◌,
}
use pelagia.Common.Disks.{OsdDaemonInfo, OsdDevice, OsdPartition}
use pelagia.Health.Osds.{NodeDetails}
use pelagia.Health.Analysis.Usage.{cluster_name}

-- The warnings, and whether an OSD of the cluster is among them.
pub record Extras : Type 0 where
  pub warnings : List String
  pub extra_found : Bool

module _ (cluster : NodeDetails) (reflected : Assoc Bool) (osd : String) where
  abbrev pub is_reflected : Bool
  is_reflected = lookup_or false osd reflected

  -- The volume is that of the cluster's OSD.
  unfoldable pub is_known : OsdDaemonInfo → Bool
  is_known volume = elim (lookup (cluster_name osd) cluster) [
    | none ↦ false
    | some info ↦ info.uuid == volume.osd_uuid
  ]

  abbrev with_fsid : OsdDaemonInfo → String → String
  with_fsid volume text =
      if volume.osd_uuid == ""
      then text
      else sprint (text ∷ " (osd fsid '" ∷ volume.osd_uuid ∷ "')" ∷ [])

  unfoldable pub warn : OsdDaemonInfo → String → Extras → Extras
  warn volume text e =
      if is_known volume
      then record {
        warnings = e.warnings ++ sprint (text ∷ ", which is not reflected in spec" ∷ []) ∷ [];
        extra_found = true;
      }
      else record e {
        warnings =
            e.warnings ++ sprint (text ∷ ", which seems to be stray, can be cleaned up" ∷ []) ∷ [];
      }

  abbrev part_text : OsdDaemonInfo → OsdDevice → OsdPartition → String
  part_text volume dev part = sprint (
      with_fsid volume (
        sprint (
          "found ceph " ∷ part.type ∷ " partition '" ∷ part.partition ∷ "', belongs to osd '" ∷ osd
          ∷ "'" ∷ []))
      ∷ ", placed on '"
      ∷ dev.name
      ∷ "' device"
      ∷ [])

  -- The first partition that is related to the device.
  unfoldable pub extra_parts : OsdDaemonInfo → OsdDevice → List OsdPartition → Extras → Extras
  unfolding warn
  extra_parts volume dev [] e = e
  extra_parts volume dev (part ∷ parts) e =
      let rest = extra_parts volume dev parts e in
      if dev.related_partition == part.partition
      then warn volume (part_text volume dev part) e
      else rest

  unfoldable pub extra_device : OsdDaemonInfo → OsdDevice → Extras → Extras
  unfolding extra_parts warn
  extra_device volume dev e =
      if dev.raw
      then warn volume
          (with_fsid volume (
            sprint (
              "found formatted ceph raw device '" ∷ dev.name ∷ "', belongs to osd '" ∷ osd ∷ "'"
              ∷ [])))
          e
      else extra_parts volume dev volume.partitions e

  unfoldable pub extra_devices : OsdDaemonInfo → List OsdDevice → Extras → Extras
  unfolding extra_device
  extra_devices volume [] e = e
  extra_devices volume (dev ∷ devs) e = extra_devices volume devs (extra_device volume dev e)

  -- A volume that is the cluster's and in the spec is passed over.
  unfoldable pub extra_volumes : List OsdDaemonInfo → Extras → Extras
  unfolding is_known extra_devices
  extra_volumes [] e = e
  extra_volumes (volume ∷ volumes) e =
      extra_volumes volumes
        (if is_known volume && is_reflected then e else extra_devices volume volume.devices e)

unfoldable pub extra_osds : NodeDetails → Assoc Bool → Assoc (List OsdDaemonInfo) → Extras → Extras
unfolding extra_volumes
extra_osds cluster reflected [] e = e
extra_osds cluster reflected ((osd, volumes) ∷ osds) e =
    extra_osds cluster reflected osds (extra_volumes cluster reflected osd volumes e)
