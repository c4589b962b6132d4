-- ===== src/Health/Analysis/Usage.antt =====
-- runSpecAnalysis, its second part: the OSDs that are on the devices of the spec. The source's
-- `checkedParts` is only written, and left out.
pub mod Growth
pub mod Foreign
use pelagia.Prelude.{
  ℕ, suc, ◌+◌, String, Bool, true, false, not, ◌&&◌, ◌||◌, ◌++◌, any, none, some, List, [], ◌∷◌,
  Assoc, insert, lookup, lookup_or, sprint, show_nat, ◌==◌, if◌then◌else◌,
}
use pelagia.Prelude.Numbers.{ℤ, pos, negsuc, eq_ℤ}
use pelagia.Common.Disks.{
  DisksReport, OsdsReport, OsdDaemonInfo, OsdDevice, OsdPartition, path_dev_prepended,
}
use pelagia.Health.Osds.{OsdDetails, NodeDetails}
use pelagia.Health.Analysis.Devices.{DevForAnalysis, alias_of}

-- The issues, the OSDs on the device, and `osdsReflectedBySpec`.
pub record Tally : Type 0 where
  pub issues : List String
  pub count : ℕ
  pub reflected : Assoc Bool

abbrev pub blame : List String → Tally → Tally
blame texts t = record t { issues = t.issues ++ sprint texts ∷ [] }

abbrev pub one_osd_more : Tally → Tally
one_osd_more t = record t { count = t.count + 1 }

abbrev pub reflect : String → Tally → Tally
reflect osd t = record t { reflected = insert osd true t.reflected }

-- What the loop over the devices of a volume has found.
pub record VolumeFound : Type 0 where
  pub tally : Tally
  pub meta : Bool
  pub raw : Bool

abbrev on_tally : (Tally → Tally) → VolumeFound → VolumeFound
on_tally f s = record s { tally = f s.tally }

abbrev pub cluster_name : String → String
cluster_name osd = sprint ("osd." ∷ osd ∷ [])

-- `%d`
abbrev pub show_ℤ : ℤ → String
show_ℤ (pos n) = show_nat n
show_ℤ (negsuc n) = sprint ("-" ∷ show_nat (suc n) ∷ [])

unfoldable pub used_as : DevForAnalysis → String
used_as d =
    if d.filtered
    then sprint ("device '" ∷ d.dev ∷ "' filtered by '" ∷ d.specified_as ∷ "'" ∷ [])
    else sprint ("device '" ∷ d.specified_as ∷ "'" ∷ [])

-- The volume is that of the cluster's OSD.
abbrev pub is_same : OsdDaemonInfo → OsdDetails → Bool
is_same volume details =
    volume.cluster_fsid == details.cluster_fsid && volume.osd_uuid == details.uuid

module _ (matches : (pattern text : String) → Bool) (disks : DisksReport) (d : DevForAnalysis)
    (osd : String) where
  abbrev wants_meta : Bool
  wants_meta = not (d.metadata_device == "")

  -- A device of the spec that is not a whole disk has the partition itself.
  unfoldable pub is_specified_part : OsdPartition → Bool
  is_specified_part part =
      if d.full_disk_usage
      then true
      else if d.filtered
      then matches d.specified_as part.partition
        && any (matches d.specified_as) part.partition_symlinks
      else alias_of disks part.partition == alias_of disks d.specified_as

  abbrev is_meta_part : OsdDevice → OsdPartition → Bool
  is_meta_part dev part =
      let meta = alias_of disks (path_dev_prepended d.metadata_device) in
      meta == alias_of disks (path_dev_prepended part.partition)
      || meta == alias_of disks (path_dev_prepended dev.name)

  abbrev on_block : Bool → VolumeFound → VolumeFound
  on_block here s = if here then on_tally (λ t. reflect osd (one_osd_more t)) s else s

  unfoldable pub on_db : Bool → OsdDevice → OsdPartition → VolumeFound → VolumeFound
  on_db here dev part s =
      if here
      then on_tally
          (blame (
            used_as d
            ∷ " is specified as block device, but contains db partition '"
            ∷ part.partition
            ∷ "'"
            ∷ []))
          s
      else if wants_meta
      then (if is_meta_part dev part
          then record s { meta = true }
          else on_tally
              (blame (
                used_as d
                ∷ " has unknown db partition '"
                ∷ part.partition
                ∷ "', while expected '"
                ∷ d.metadata_device
                ∷ "' (osd "
                ∷ osd
                ∷ ")"
                ∷ []))
              s)
      else on_tally
          (blame (
            used_as d
            ∷ " has no specified metadata device, but found related db partition '"
            ∷ part.partition
            ∷ "' (osd "
            ∷ osd
            ∷ ")"
            ∷ []))
          s

  unfoldable pub on_part : OsdDevice → OsdPartition → VolumeFound → VolumeFound
  unfolding on_db
  on_part dev part s =
      if part.type == "block"
      then on_block (dev.name == d.dev) s
      else if part.type == "db"
      then on_db (dev.name == d.dev) dev part s
      else s

  -- The loop over the partitions ends behind the first one that fits, unless the disk is whole.
  unfoldable pub on_parts : OsdDevice → List OsdPartition → VolumeFound → VolumeFound
  unfolding is_specified_part on_part
  on_parts dev [] s = s
  on_parts dev (part ∷ parts) s =
      let fits = dev.related_partition == part.partition && is_specified_part part in
      let next = if fits then on_part dev part s else s in
      let rest = on_parts dev parts next in if fits && not d.full_disk_usage then next else rest

  abbrev raw_issues : Tally → Tally
  raw_issues t =
      let t₁ =
        if wants_meta
        then blame
            (used_as d
              ∷ " is specified with metadata device, but currently used as raw device (no metadata supported)"
              ∷ [])
            t
        else t in
      if eq_ℤ d.osds_per_device (pos 1)
      then t₁
      else blame
          (used_as d
            ∷ " is specified with multiple osds per device, but currently used as raw device (only single osd supported)"
            ∷ [])
          t₁

  unfoldable pub on_raw : VolumeFound → VolumeFound
  on_raw s = record s { raw = true; tally = reflect osd (one_osd_more (raw_issues s.tally)) }

  unfoldable pub on_osd_device : List OsdPartition → OsdDevice → VolumeFound → VolumeFound
  unfolding on_raw on_parts
  on_osd_device parts dev s =
      if dev.raw then (if dev.name == d.dev then on_raw s else s) else on_parts dev parts s

  unfoldable pub on_devices : List OsdPartition → List OsdDevice → VolumeFound → VolumeFound
  unfolding on_osd_device
  on_devices parts [] s = s
  on_devices parts (dev ∷ devs) s = on_devices parts devs (on_osd_device parts dev s)

  abbrev meta_checked : VolumeFound → Tally
  meta_checked s =
      if wants_meta && not s.meta && not s.raw
      then blame
          ("metadata device '"
            ∷ d.metadata_device
            ∷ "' is not found for osd '"
            ∷ osd
            ∷ "' for "
            ∷ used_as d
            ∷ [])
          s.tally
      else s.tally

  -- A volume of the cluster's OSD.
  unfoldable pub on_own : OsdDaemonInfo → Tally → Tally
  unfolding on_devices
  on_own volume t = meta_checked (
      on_devices volume.partitions volume.devices (record { tally = t; meta = false; raw = false }))

  abbrev unknown_part : OsdPartition → Tally → Tally
  unknown_part part t =
      blame
        ("unknown osd '"
          ∷ osd
          ∷ "' "
          ∷ part.type
          ∷ " partition '"
          ∷ part.partition
          ∷ "' is found on "
          ∷ used_as d
          ∷ [])
        (if part.type == "block" then one_osd_more t else t)

  unfoldable pub unknown_parts : List OsdPartition → Tally → Tally
  unknown_parts [] t = t
  unknown_parts (part ∷ parts) t =
      unknown_parts parts (if d.full_disk_usage then unknown_part part t else t)

  unfoldable pub unknown_device : List OsdPartition → OsdDevice → Tally → Tally
  unfolding unknown_parts
  unknown_device parts dev t =
      if dev.name == d.dev
      then (if dev.raw
          then blame ("unknown osd '" ∷ osd ∷ "' (raw formatted) is found on " ∷ used_as d ∷ [])
              (one_osd_more t)
          else unknown_parts parts t)
      else t

  -- A volume with the id of the cluster's OSD that is another's.
  unfoldable pub on_unknown : List OsdPartition → List OsdDevice → Tally → Tally
  unfolding unknown_device
  on_unknown parts [] t = t
  on_unknown parts (dev ∷ devs) t = on_unknown parts devs (unknown_device parts dev t)

  unfoldable pub on_volume : NodeDetails → OsdDaemonInfo → Tally → Tally
  unfolding on_own on_unknown
  on_volume cluster volume t = elim (lookup (cluster_name osd) cluster) [
    | none ↦ t
    | some details ↦
        if is_same volume details
        then on_own volume t
        else on_unknown volume.partitions volume.devices t
  ]

  unfoldable pub on_volumes : NodeDetails → List OsdDaemonInfo → Tally → Tally
  unfolding on_volume
  on_volumes cluster [] t = t
  on_volumes cluster (volume ∷ volumes) t = on_volumes cluster volumes (on_volume cluster volume t)

module _ (matches : (pattern text : String) → Bool) (disks : DisksReport) (osds : OsdsReport)
    (cluster : NodeDetails) where
  unfoldable pub on_osds : DevForAnalysis → List String → Tally → Tally
  unfolding on_volumes
  on_osds d [] t = t
  on_osds d (osd ∷ names) t =
      on_osds d names (on_volumes matches disks d osd cluster (lookup_or [] osd osds.osds) t)

  abbrev count_checked : DevForAnalysis → Tally → Tally
  count_checked d t =
      if eq_ℤ (pos t.count) d.osds_per_device
      then t
      else blame
          (used_as d
            ∷ " should have "
            ∷ show_ℤ d.osds_per_device
            ∷ " osd(s), but actually found "
            ∷ show_nat t.count
            ∷ [])
          t

  -- One round of the loop over the devices.
  unfoldable pub analyse_device : DevForAnalysis → Tally → Tally
  unfolding on_osds
  analyse_device d t =
      count_checked d (on_osds d (lookup_or [] d.dev disks.disk_to_osd) (record t { count = 0 }))

  unfoldable pub analyse_devices : List DevForAnalysis → Tally → Tally
  unfolding analyse_device
  analyse_devices [] t = t
  analyse_devices (d ∷ ds) t = analyse_devices ds (analyse_device d t)
