-- ===== src/Health/Analysis/Extra/Found.antt =====
-- When runSpecAnalysis finds extra OSDs.
use pelagia.Prelude.{◌≡◌, String, Bool, not, ◌&&◌, ◌||◌, any, List, [], ◌∷◌, Assoc, ◌==◌, arith}
use pelagia.Common.Disks.{OsdDaemonInfo, OsdDevice, OsdPartition}
use pelagia.Health.Osds.{NodeDetails}
use pelagia.Health.Analysis.Extra.{
  Extras, is_reflected, is_known, warn, extra_parts, extra_device, extra_devices, extra_volumes,
  extra_osds,
}

-- The device is formatted as a whole, or has a partition of the volume.
abbrev pub is_in_use : List OsdPartition → OsdDevice → Bool
is_in_use parts dev = dev.raw || any (λ part. dev.related_partition == part.partition) parts

-- A volume in use of an OSD of the cluster that the spec does not describe.
abbrev pub is_extra : NodeDetails → Assoc Bool → String → OsdDaemonInfo → Bool
is_extra cluster reflected osd volume =
    is_known cluster reflected osd volume
    && not (is_reflected cluster reflected osd)
    && any (is_in_use volume.partitions) volume.devices

module _ (cluster : NodeDetails) (reflected : Assoc Bool) (osd : String) where
  abbrev known : OsdDaemonInfo → Bool
  known volume = is_known cluster reflected osd volume

  warn-found :
      (volume : OsdDaemonInfo) (text : String) (e : Extras)
      → (warn cluster reflected osd volume text e).extra_found ≡ e.extra_found || known volume
  unfolding warn
  warn-found volume text e = ground arith

  extra_parts-found :
      (volume : OsdDaemonInfo) (dev : OsdDevice) (parts : List OsdPartition) (e : Extras)
      → (extra_parts cluster reflected osd volume dev parts e).extra_found
        ≡ e.extra_found
          || (known volume && any (λ part. dev.related_partition == part.partition) parts)
  unfolding extra_parts warn
  extra_parts-found volume dev [] e = ground arith
  extra_parts-found volume dev (part ∷ parts) e =
      ground (arith, extra_parts-found volume dev parts e)

  extra_device-found :
      (volume : OsdDaemonInfo) (dev : OsdDevice) (e : Extras)
      → (extra_device cluster reflected osd volume dev e).extra_found
        ≡ e.extra_found || (known volume && is_in_use volume.partitions dev)
  unfolding extra_device warn
  extra_device-found volume dev e = ground (arith, extra_parts-found volume dev volume.partitions e)

  extra_devices-found :
      (volume : OsdDaemonInfo) (devs : List OsdDevice) (e : Extras)
      → (extra_devices cluster reflected osd volume devs e).extra_found
        ≡ e.extra_found || (known volume && any (is_in_use volume.partitions) devs)
  unfolding extra_devices
  extra_devices-found volume [] e = ground arith
  extra_devices-found volume (dev ∷ devs) e = ground (
    arith,
    extra_device-found volume dev e,
    extra_devices-found volume devs (extra_device cluster reflected osd volume dev e),
  )

  extra_volumes-found :
      (volumes : List OsdDaemonInfo) (e : Extras)
      → (extra_volumes cluster reflected osd volumes e).extra_found
        ≡ e.extra_found || any (is_extra cluster reflected osd) volumes
  unfolding extra_volumes
  extra_volumes-found [] e = ground arith
  extra_volumes-found (volume ∷ volumes) e = ground (
    arith,
    extra_devices-found volume volume.devices e,
    extra_volumes-found volumes e,
    extra_volumes-found volumes (extra_devices cluster reflected osd volume volume.devices e),
  )

-- Extra OSDs are found exactly if they were before or the report has a volume in use of an OSD of
-- the cluster that the spec does not reflect.
pub extra_osds-found :
    (cluster : NodeDetails) (reflected : Assoc Bool) (osds : Assoc (List OsdDaemonInfo))
    (e : Extras)
    → (extra_osds cluster reflected osds e).extra_found
      ≡ e.extra_found || any (λ entry. any (is_extra cluster reflected entry.0) entry.1) osds
unfolding extra_osds
extra_osds-found cluster reflected [] e = ground arith
extra_osds-found cluster reflected ((osd, volumes) ∷ osds) e = ground (
  arith,
  extra_volumes-found cluster reflected osd volumes e,
  extra_osds-found cluster reflected osds (extra_volumes cluster reflected osd volumes e),
)
