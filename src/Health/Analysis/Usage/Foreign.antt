-- ===== src/Health/Analysis/Usage/Foreign.antt =====
-- What an analysis without issues says of other OSDs on the devices of the spec.
use pelagia.Prelude.{
  ℕ, ◌+◌, ◌≤◌, subst, ◌≡◌, ◌≢◌, refl, ap, ◌∙◌, String, Bool, true, false, some, inl, inr, List, [],
  ◌∷◌, All, lookup, lookup_or, length, length-append, sort_strings, insert_sorted, Bool-cases,
  eq_iff, ◌==◌, if◌then◌else◌, arith,
}
use pelagia.Common.Objects.{StorageNode}
use pelagia.Common.Disks.{DisksReport, OsdsReport, OsdDaemonInfo, OsdDevice, OsdPartition}
use pelagia.Health.Osds.{OsdDetails, NodeDetails}
use pelagia.Health.Analysis.Devices.{Checked, DevForAnalysis, devices_of}
use pelagia.Health.Analysis.Usage.{
  Tally, one_osd_more, unknown_part, unknown_parts, unknown_device, on_unknown, is_same, on_volume,
  on_volumes, on_osds, analyse_device, analyse_devices, cluster_name,
}
use pelagia.Health.Analysis.Usage.Growth.{
  blames, unknown_parts-le, unknown_device-le, on_unknown-le, on_volume-le, on_volumes-le,
  on_osds-le, count_checked-le, analyse_device-le, analyse_devices-le,
}
use pelagia.Health.Analysis.Run.{Analysis, extras_or, analysis_of, run_spec_analysis}

-- A disk of another's volume that is the device of the spec is not formatted as a whole, and if the
-- device is a whole disk the volume has no partition.
abbrev pub IsHarmless : DevForAnalysis → List OsdPartition → OsdDevice → Type 0
IsHarmless d parts dev =
    dev.name ≡ d.dev → (dev.raw ≡ false) × (d.full_disk_usage ≡ true → parts ≡ [])

-- So for the disks of a volume that has the id of a cluster's OSD and is not its own.
abbrev pub IsNotForeign : NodeDetails → DevForAnalysis → String → OsdDaemonInfo → Type 0
IsNotForeign cluster d osd volume =
    (details : OsdDetails)
    → lookup (cluster_name osd) cluster ≡ some details
    → is_same volume details ≡ false
    → All (IsHarmless d volume.partitions) volume.devices

abbrev nothing_counted : Tally
nothing_counted = record { issues = []; count = 0; reflected = [] }

one_osd_more-issues : (b : Bool) (t : Tally) → (if b then one_osd_more t else t).issues ≡ t.issues
one_osd_more-issues true t = refl
one_osd_more-issues false t = refl

module _ (matches : (pattern text : String) → Bool) (disks : DisksReport) (d : DevForAnalysis)
    (osd : String) where
  unknown_part-blames :
      (part : OsdPartition) (t : Tally)
      → blames (unknown_part matches disks d osd part t) ≡ blames t + 1
  unknown_part-blames part t =
      length-append _ (_ ∷ [])
      ∙ ap (λ is. length is + 1) (one_osd_more-issues (part.type == "block") t)

  unknown_parts-silent :
      (parts : List OsdPartition) (t : Tally)
      → blames (unknown_parts matches disks d osd parts t) ≤ blames t
      → d.full_disk_usage ≡ true
      → parts ≡ []
  unfolding unknown_parts
  unknown_parts-silent [] t le e = refl
  unknown_parts-silent (part ∷ parts) t le e =
      let next = unknown_part matches disks d osd part t in
      let more : blames (unknown_parts matches disks d osd parts next) ≤ blames t =
        subst
          (λ b. blames (unknown_parts matches disks d osd parts (if b then next else t)) ≤ blames t)
          e le in
      absurd (
        omega (
          arith,
          more,
          unknown_part-blames part t,
          unknown_parts-le matches disks d osd parts next,
        ))

  unknown_device-raw :
      (parts : List OsdPartition) (dev : OsdDevice) (t : Tally)
      → (dev.name == d.dev) ≡ true
      → dev.raw ≡ true
      → blames (unknown_device matches disks d osd parts dev t) ≡ blames t + 1
  unfolding unknown_device
  unknown_device-raw parts dev t here raw =
      rw (here, raw, unknown_device) (length-append t.issues (_ ∷ []))

  unknown_device-parted :
      (parts : List OsdPartition) (dev : OsdDevice) (t : Tally)
      → (dev.name == d.dev) ≡ true
      → dev.raw ≡ false
      → unknown_device matches disks d osd parts dev t ≡ unknown_parts matches disks d osd parts t
  unfolding unknown_device
  unknown_device-parted parts dev t here parted = rw (here, parted, unknown_device) refl

  unknown_device-silent :
      (parts : List OsdPartition) (dev : OsdDevice) (t : Tally)
      → blames (unknown_device matches disks d osd parts dev t) ≤ blames t
      → IsHarmless d parts dev
  unknown_device-silent parts dev t le e =
      let here : (dev.name == d.dev) ≡ true = (eq_iff dev.name d.dev).1 e in
      elim (Bool-cases dev.raw) [
        | inl raw ↦ absurd (omega (arith, unknown_device-raw parts dev t here raw))
        | inr parted ↦ (
          parted,
          unknown_parts-silent parts t
              (subst (λ u. blames u ≤ blames t) (unknown_device-parted parts dev t here parted) le),
        )
      ]

  on_unknown-silent :
      (parts : List OsdPartition) (devs : List OsdDevice) (t : Tally)
      → blames (on_unknown matches disks d osd parts devs t) ≤ blames t
      → All (IsHarmless d parts) devs
  unfolding on_unknown
  on_unknown-silent parts [] t le = tt
  on_unknown-silent parts (dev ∷ devs) t le =
      let next = unknown_device matches disks d osd parts dev t in
      let one = unknown_device-le matches disks d osd parts dev t in
      let rest = on_unknown-le matches disks d osd parts devs next in
      (
        unknown_device-silent parts dev t (omega (arith, one, rest)),
        on_unknown-silent parts devs next (omega (arith, one, rest)),
      )

  module _ (cluster : NodeDetails) where
    on_volume-silent :
        (volume : OsdDaemonInfo) (t : Tally)
        → blames (on_volume matches disks d osd cluster volume t) ≤ blames t
        → IsNotForeign cluster d osd volume
    on_volume-silent volume t le details found other =
        on_unknown-silent volume.partitions volume.devices t
          (subst (λ u. blames u ≤ blames t) (foreign details found other) le)
      where
        foreign :
            (details : OsdDetails)
            → lookup (cluster_name osd) cluster ≡ some details
            → is_same volume details ≡ false
            → on_volume matches disks d osd cluster volume t
              ≡ on_unknown matches disks d osd volume.partitions volume.devices t
        foreign details found other = unfold on_volume in rw (found, other, on_volume) refl

    on_volumes-silent :
        (volumes : List OsdDaemonInfo) (t : Tally)
        → blames (on_volumes matches disks d osd cluster volumes t) ≤ blames t
        → All (IsNotForeign cluster d osd) volumes
    unfolding on_volumes
    on_volumes-silent [] t le = tt
    on_volumes-silent (volume ∷ volumes) t le =
        let next = on_volume matches disks d osd cluster volume t in
        let one = on_volume-le matches disks d osd cluster volume t in
        let rest = on_volumes-le matches disks d osd cluster volumes next in
        (
          on_volume-silent volume t (omega (arith, one, rest)),
          on_volumes-silent volumes next (omega (arith, one, rest)),
        )

insert_sorted-ne : (s : String) (ss : List String) → insert_sorted s ss ≢ []
unfolding insert_sorted
insert_sorted-ne s [] e = cc
insert_sorted-ne s (t ∷ ts) e = ground arith

-- A list without entries is sorted from none.
sort_strings-empty : (ss : List String) → sort_strings ss ≡ [] → ss ≡ []
unfolding sort_strings
sort_strings-empty [] e = refl
sort_strings-empty (s ∷ ss) e = absurd (insert_sorted-ne s (sort_strings ss) e)

module _ (matches : (pattern text : String) → Bool) (disks : DisksReport) (osds : OsdsReport)
    (cluster : NodeDetails) where
  -- All volumes on the device of the spec.
  abbrev pub IsClear : DevForAnalysis → Type 0
  IsClear d =
      All (λ osd. All (IsNotForeign cluster d osd) (lookup_or [] osd osds.osds))
        (lookup_or [] d.dev disks.disk_to_osd)

  on_osds-silent :
      (d : DevForAnalysis) (names : List String) (t : Tally)
      → blames (on_osds matches disks osds cluster d names t) ≤ blames t
      → All (λ osd. All (IsNotForeign cluster d osd) (lookup_or [] osd osds.osds)) names
  unfolding on_osds
  on_osds-silent d [] t le = tt
  on_osds-silent d (osd ∷ names) t le =
      let volumes = lookup_or [] osd osds.osds in
      let next = on_volumes matches disks d osd cluster volumes t in
      let one = on_volumes-le matches disks d osd cluster volumes t in
      let rest = on_osds-le matches disks osds cluster d names next in
      (
        on_volumes-silent matches disks d osd cluster volumes t (omega (arith, one, rest)),
        on_osds-silent d names next (omega (arith, one, rest)),
      )

  analyse_device-silent :
      (d : DevForAnalysis) (t : Tally)
      → blames (analyse_device matches disks osds cluster d t) ≤ blames t
      → IsClear d
  unfolding analyse_device
  analyse_device-silent d t le =
      let names = lookup_or [] d.dev disks.disk_to_osd in
      let fresh : Tally = record t { count = 0 } in
      on_osds-silent d names fresh (
        omega (
          arith,
          le,
          count_checked-le matches disks osds cluster d
              (on_osds matches disks osds cluster d names fresh),
        ))

  analyse_devices-silent :
      (ds : List DevForAnalysis) (t : Tally)
      → blames (analyse_devices matches disks osds cluster ds t) ≤ blames t
      → All IsClear ds
  unfolding analyse_devices
  analyse_devices-silent [] t le = tt
  analyse_devices-silent (d ∷ ds) t le =
      let next = analyse_device matches disks osds cluster d t in
      let one = analyse_device-le matches disks osds cluster d t in
      let rest = analyse_devices-le matches disks osds cluster ds next in
      (
        analyse_device-silent d t (omega (arith, one, rest)),
        analyse_devices-silent ds next (omega (arith, one, rest)),
      )

  -- The issues of the analysis are those of its parts.
  analysis_of-silent :
      (node : StorageNode) (st : Checked)
      → (analysis_of matches node disks osds cluster st).issues ≡ []
      → All IsClear st.devices
  unfolding analysis_of extras_or
  analysis_of-silent node st e =
      analyse_devices-silent st.devices nothing_counted
        (omega (arith, ap (λ (is : List String). length is) silent))
    where
      silent : (analyse_devices matches disks osds cluster st.devices nothing_counted).issues ≡ []
      silent = ground (
        arith,
        sort_strings-empty st.issues,
        sort_strings-empty
            (analyse_devices matches disks osds cluster st.devices nothing_counted).issues,
      )

  -- An analysis without issues has found no disk of another's volume, under the id of a cluster's
  -- OSD, on a device of the spec: none formatted as a whole, and none with partitions where the
  -- device is a whole disk.
  pub run_spec_analysis-IsClear :
      (node : StorageNode) (fuel : ℕ) {a : Analysis}
      → run_spec_analysis matches node disks osds cluster fuel ≡ some a
      → a.issues ≡ []
      → All IsClear (devices_of matches disks node fuel).devices
  unfolding run_spec_analysis
  run_spec_analysis-IsClear node fuel e none_found =
      elim (Bool-cases (devices_of matches disks node fuel).ended) [
        | inl ended ↦ analysis_of-silent node (devices_of matches disks node fuel) (ground arith)
        | inr endless ↦ ground arith
      ]
