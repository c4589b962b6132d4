-- ===== src/Health/Analysis/Usage/Growth.antt =====
-- The issues of runSpecAnalysis only get more.
use pelagia.Prelude.{
  ℕ, ◌+◌, ◌≤◌, ◌≡◌, String, Bool, false, not, ◌++◌, inl, inr, List, [], ◌∷◌, lookup, lookup_or,
  length, length-append, Option-cases, if_ind, sprint, ◌==◌, if◌then◌else◌, arith,
}
use pelagia.Prelude.Numbers.{pos, eq_ℤ}
use pelagia.Common.Disks.{DisksReport, OsdsReport, OsdDaemonInfo, OsdDevice, OsdPartition}
use pelagia.Health.Osds.{NodeDetails}
use pelagia.Health.Analysis.Devices.{DevForAnalysis}
use pelagia.Health.Analysis.Usage.{
  Tally, blame, VolumeFound, on_db, on_part, on_parts, on_raw, raw_issues, on_osd_device,
  on_devices, on_own, unknown_part, unknown_parts, unknown_device, on_unknown, on_volume,
  on_volumes, on_osds, count_checked, analyse_device, analyse_devices, cluster_name,
}

-- The number of issues.
abbrev pub blames : Tally → ℕ
blames t = length t.issues

pub blames-blame : (texts : List String) (t : Tally) → blames (blame texts t) ≡ blames t + 1
blames-blame texts t = omega (arith, length-append t.issues (sprint texts ∷ []))

blame-le : (issues : List String) (text : String) → length issues ≤ length (issues ++ text ∷ [])
blame-le issues text = omega (arith, length-append issues (text ∷ []))

blame_trans :
    (before issues : List String) (text : String)
    → length before ≤ length issues
    → length before ≤ length (issues ++ text ∷ [])
blame_trans before issues text le = omega (arith, length-append issues (text ∷ []))

same : (issues : List String) → length issues ≤ length issues
same issues = omega arith

module _ (matches : (pattern text : String) → Bool) (disks : DisksReport) (d : DevForAnalysis)
    (osd : String) where
  abbrev Later : VolumeFound → VolumeFound → Type 0
  Later s t = blames s.tally ≤ blames t.tally

  on_db-le :
      (here : Bool) (dev : OsdDevice) (part : OsdPartition) (s : VolumeFound)
      → blames s.tally ≤ blames (on_db matches disks d osd here dev part s).tally
  unfolding on_db
  on_db-le here dev part s = if_ind (Later s) here (blame-le _ _) (
      if_ind (Later s) (not (d.metadata_device == "")) (if_ind (Later s) _ (same _) (blame-le _ _))
        (blame-le _ _))

  on_part-le :
      (dev : OsdDevice) (part : OsdPartition) (s : VolumeFound)
      → blames s.tally ≤ blames (on_part matches disks d osd dev part s).tally
  unfolding on_part
  on_part-le dev part s = ground (arith, on_db-le (dev.name == d.dev) dev part s)

  on_parts-le :
      (dev : OsdDevice) (parts : List OsdPartition) (s : VolumeFound)
      → blames s.tally ≤ blames (on_parts matches disks d osd dev parts s).tally
  unfolding on_parts
  on_parts-le dev [] s = omega arith
  on_parts-le dev (part ∷ parts) s = ground (
    arith,
    on_part-le dev part s,
    on_parts-le dev parts s,
    on_parts-le dev parts (on_part matches disks d osd dev part s),
  )

  raw_issues-le : (t : Tally) → blames t ≤ blames (raw_issues matches disks d osd t)
  raw_issues-le t =
      let first =
        if_ind (λ u. blames t ≤ blames u) (not (d.metadata_device == "")) (blame-le _ _) (same _) in
      if_ind (λ u. blames t ≤ blames u) (eq_ℤ d.osds_per_device (pos 1)) first
        (blame_trans _ _ _ first)

  on_osd_device-le :
      (parts : List OsdPartition) (dev : OsdDevice) (s : VolumeFound)
      → Later s (on_osd_device matches disks d osd parts dev s)
  unfolding on_osd_device on_raw
  on_osd_device-le parts dev s =
      if_ind (Later s) dev.raw
        (if_ind (Later s) (dev.name == d.dev) (raw_issues-le s.tally) (same _))
        (on_parts-le dev parts s)

  on_devices-le :
      (parts : List OsdPartition) (devs : List OsdDevice) (s : VolumeFound)
      → Later s (on_devices matches disks d osd parts devs s)
  unfolding on_devices
  on_devices-le parts [] s = omega arith
  on_devices-le parts (dev ∷ devs) s = omega (
    arith,
    on_osd_device-le parts dev s,
    on_devices-le parts devs (on_osd_device matches disks d osd parts dev s),
  )

  on_own-le :
      (volume : OsdDaemonInfo) (t : Tally) → blames t ≤ blames (on_own matches disks d osd volume t)
  unfolding on_own
  on_own-le volume t =
      let le =
        on_devices-le volume.partitions volume.devices
          (record { tally = t; meta = false; raw = false }) in
      if_ind (λ u. blames t ≤ blames u) _ (blame_trans _ _ _ le) le

  pub unknown_parts-le :
      (parts : List OsdPartition) (t : Tally)
      → blames t ≤ blames (unknown_parts matches disks d osd parts t)
  unfolding unknown_parts
  unknown_parts-le [] t = omega arith
  unknown_parts-le (part ∷ parts) t =
      let next = if d.full_disk_usage then unknown_part matches disks d osd part t else t in
      let le : blames t ≤ blames next =
        if_ind (λ u. blames t ≤ blames u) d.full_disk_usage
          (blame_trans _ _ _
            (if_ind (λ u. blames t ≤ blames u) (part.type == "block") (same _) (same _)))
          (same _) in
      omega (arith, le, unknown_parts-le parts next)

  pub unknown_device-le :
      (parts : List OsdPartition) (dev : OsdDevice) (t : Tally)
      → blames t ≤ blames (unknown_device matches disks d osd parts dev t)
  unfolding unknown_device
  unknown_device-le parts dev t =
      if_ind (λ u. blames t ≤ blames u) (dev.name == d.dev)
        (if_ind (λ u. blames t ≤ blames u) dev.raw (blame-le _ _) (unknown_parts-le parts t))
        (same _)

  pub on_unknown-le :
      (parts : List OsdPartition) (devs : List OsdDevice) (t : Tally)
      → blames t ≤ blames (on_unknown matches disks d osd parts devs t)
  unfolding on_unknown
  on_unknown-le parts [] t = omega arith
  on_unknown-le parts (dev ∷ devs) t = omega (
    arith,
    unknown_device-le parts dev t,
    on_unknown-le parts devs (unknown_device matches disks d osd parts dev t),
  )

  module _ (cluster : NodeDetails) where
    pub on_volume-le :
        (volume : OsdDaemonInfo) (t : Tally)
        → blames t ≤ blames (on_volume matches disks d osd cluster volume t)
    unfolding on_volume
    on_volume-le volume t = elim (Option-cases (lookup (cluster_name osd) cluster)) [
      | inl e ↦ rw (e, on_volume) (omega arith)
      | inr (details, e) ↦
          rw (e, on_volume)
            (if_ind (λ u. blames t ≤ blames u) _ (on_own-le volume t)
              (on_unknown-le volume.partitions volume.devices t))
    ]

    pub on_volumes-le :
        (volumes : List OsdDaemonInfo) (t : Tally)
        → blames t ≤ blames (on_volumes matches disks d osd cluster volumes t)
    unfolding on_volumes
    on_volumes-le [] t = omega arith
    on_volumes-le (volume ∷ volumes) t = omega (
      arith,
      on_volume-le volume t,
      on_volumes-le volumes (on_volume matches disks d osd cluster volume t),
    )

module _ (matches : (pattern text : String) → Bool) (disks : DisksReport) (osds : OsdsReport)
    (cluster : NodeDetails) where
  pub on_osds-le :
      (d : DevForAnalysis) (names : List String) (t : Tally)
      → blames t ≤ blames (on_osds matches disks osds cluster d names t)
  unfolding on_osds
  on_osds-le d [] t = omega arith
  on_osds-le d (osd ∷ names) t = omega (
    arith,
    on_volumes-le matches disks d osd cluster (lookup_or [] osd osds.osds) t,
    on_osds-le d names (on_volumes matches disks d osd cluster (lookup_or [] osd osds.osds) t),
  )

  pub count_checked-le :
      (d : DevForAnalysis) (t : Tally)
      → blames t ≤ blames (count_checked matches disks osds cluster d t)
  count_checked-le d t = if_ind (λ u. blames t ≤ blames u) _ (same _) (blame-le _ _)

  pub analyse_device-le :
      (d : DevForAnalysis) (t : Tally)
      → blames t ≤ blames (analyse_device matches disks osds cluster d t)
  unfolding analyse_device
  analyse_device-le d t =
      let le = on_osds-le d (lookup_or [] d.dev disks.disk_to_osd) (record t { count = 0 }) in
      omega (
        arith,
        le,
        count_checked-le d (
            on_osds matches disks osds cluster d (lookup_or [] d.dev disks.disk_to_osd)
              (record t { count = 0 })),
      )

  pub analyse_devices-le :
      (ds : List DevForAnalysis) (t : Tally)
      → blames t ≤ blames (analyse_devices matches disks osds cluster ds t)
  unfolding analyse_devices
  analyse_devices-le [] t = omega arith
  analyse_devices-le (d ∷ ds) t = omega (
    arith,
    analyse_device-le d t,
    analyse_devices-le ds (analyse_device matches disks osds cluster d t),
  )
