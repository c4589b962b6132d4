-- ===== src/Health/Analysis/Devices/Sound.antt =====
-- What holds of the devices that runSpecAnalysis takes from a list of the spec.
use pelagia.Prelude.{
  ℕ, ◌≡◌, refl, ◌⊎◌, inl, inr, String, Bool, true, false, Option, none, some, List, [], ◌∷◌, ◌++◌,
  All, All-append, any, any-append, lookup, lookup-insert, has_key, is_empty, Option-cases,
  if_cases, if_ind, not, ◌&&◌, Assoc, eq_iff, ◌==◌, arith,
}
use pelagia.Common.Objects.{StorageDevice, StorageNode}
use pelagia.Common.Disks.{DisksReport, path_dev_prepended}
use pelagia.Common.Tree.{DiskSearch, disk, failed, running, block_of, find_disk_name}
use pelagia.Common.Tree.Ends.{find_disk_name-disk}
use pelagia.Health.Analysis.Devices.{
  DevForAnalysis, Checked, nothing_checked, blame_spec, accept, shared_meta, note_meta,
  missing_meta, meta_owner, alias_of, is_disk, device_with, check_meta, check_use, check_device,
  check_devices, check_metas, devices_of, specified,
}

module _ (disks : DisksReport) where
  -- The block device that a device of the spec is an alias of.
  abbrev pub block : DevForAnalysis → String
  block d = alias_of disks (path_dev_prepended d.specified_as)

  abbrev is_block_of : String → DevForAnalysis → Bool
  is_block_of name d = block d == name

  -- No two devices are one.
  abbrev pub AreDistinct : List DevForAnalysis → Type 0
  AreDistinct [] = Unit
  AreDistinct (d ∷ ds) = (any (is_block_of (block d)) ds ≡ false) × AreDistinct ds

  -- The device is on a disk, and its metadata device, if it has one, is known.
  abbrev pub IsFound : DevForAnalysis → Type 0
  IsFound d =
      (is_disk disks d.dev ≡ true)
      × ((d.metadata_device ≡ "")
          ⊎ (has_key (path_dev_prepended d.metadata_device) disks.aliases ≡ true))

  record Sound (ds : List DevForAnalysis) (blocks : Assoc String) : Type 0 where
    distinct : AreDistinct ds
    found : All IsFound ds
    used : (name : String) → lookup name blocks ≡ none → any (is_block_of name) ds ≡ false

  abbrev IsSound : Checked → Type 0
  IsSound st = Sound st.devices st.used

  AreDistinct-snoc :
      (ds : List DevForAnalysis) (d : DevForAnalysis)
      → AreDistinct ds
      → any (is_block_of (block d)) ds ≡ false
      → AreDistinct (ds ++ d ∷ [])
  AreDistinct-snoc [] d h e = (refl, tt)
  AreDistinct-snoc (x ∷ xs) d h e = ground (
    arith,
    any-append (is_block_of (block x)) xs (d ∷ []),
    eq_iff (block x) (block d),
    eq_iff (block d) (block x),
    AreDistinct-snoc xs d h.1,
  )

module _ (matches : (pattern text : String) → Bool) (disks : DisksReport) (node : StorageNode) where
  accept-IsSound :
      (d : DevForAnalysis) (st : Checked)
      → IsSound disks st
      → lookup (block disks d) st.used ≡ none
      → IsFound disks d
      → IsSound disks (accept matches disks node d st)
  accept-IsSound d st h fresh f = record {
    distinct = AreDistinct-snoc disks st.devices d h.distinct (h.used (block disks d) fresh);
    found = All-append (IsFound disks) st.devices (d ∷ []) h.found (f, tt);
    used = λ name none_used. ground (
      arith,
      any-append (is_block_of disks name) st.devices (d ∷ []),
      lookup-insert (block disks d) name d.specified_as st.used,
      h.used name,
      eq_iff (block disks d) name,
    );
  }

  check_meta-IsSound :
      (d : DevForAnalysis) (st : Checked)
      → IsSound disks st
      → lookup (block disks d) st.used ≡ none
      → is_disk disks d.dev ≡ true
      → IsSound disks (check_meta matches disks node d st)
  unfolding check_meta
  check_meta-IsSound d st h fresh on_disk =
      if_cases (IsSound disks) (d.metadata_device == "")
        (λ e. accept-IsSound d st h fresh (on_disk, inl ((eq_iff d.metadata_device "").0 e)))
        (λ _. with_meta (lookup (path_dev_prepended d.metadata_device) disks.aliases) refl)
    where
      with_meta :
          (o : Option String)
          → lookup (path_dev_prepended d.metadata_device) disks.aliases ≡ o
          → IsSound disks (elim o [
            | none ↦ blame_spec (missing_meta matches disks node d) st
            | some meta_dev ↦
                accept matches disks node d
                  (note_meta matches disks node d (shared_meta matches disks node meta_dev d st))
          ])
      with_meta none e = h
      with_meta (some meta_dev) e =
          if_ind
            (λ u. IsSound disks (accept matches disks node d (note_meta matches disks node d u)))
            (not (is_disk disks meta_dev) && not (meta_owner matches disks node d st == ""))
            (accept-IsSound d (note_meta matches disks node d (blame_spec [] st)) h fresh
              (on_disk, inr (ground arith)))
            (accept-IsSound d (note_meta matches disks node d st) h fresh
              (on_disk, inr (ground arith)))

  check_use-IsSound :
      (d : DevForAnalysis) (st : Checked)
      → IsSound disks st
      → is_disk disks d.dev ≡ true
      → IsSound disks (check_use matches disks node d st)
  unfolding check_use
  check_use-IsSound d st h on_disk = elim (Option-cases (lookup (block disks d) st.used)) [
    | inl e ↦ rw (e, check_use) (check_meta-IsSound d st h e on_disk)
    | inr (other, e) ↦ rw (e, check_use) h
  ]

  check_device-IsSound :
      (fuel : ℕ) (dev : StorageDevice) (st : Checked)
      → IsSound disks st
      → IsSound disks (check_device matches disks node fuel dev st)
  unfolding check_device device_with
  check_device-IsSound fuel dev st h =
      searched (find_disk_name fuel disks (specified matches disks node dev)) refl
    where
      searched :
          (r : DiskSearch)
          → find_disk_name fuel disks (specified matches disks node dev) ≡ r
          → IsSound disks (elim r [
            | disk name ↦ check_use matches disks node (device_with matches disks node dev name) st
            | failed text ↦
                blame_spec
                  ("failed to check device '"
                    ∷ specified matches disks node dev
                    ∷ "' specified in spec: "
                    ∷ text
                    ∷ [])
                  st
            | running ↦ record st { ended = false }
          ])
      searched (disk name) e = check_use-IsSound (device_with matches disks node dev name) st h (
          (eq_iff (block_of disks name).type "disk").1
            (find_disk_name-disk disks fuel (specified matches disks node dev) {device = name} e))
      searched (failed text) e = h
      searched running e = h

  check_devices-IsSound :
      (fuel : ℕ) (devs : List StorageDevice) (st : Checked)
      → IsSound disks st
      → IsSound disks (check_devices matches disks node fuel devs st)
  unfolding check_devices
  check_devices-IsSound fuel [] st h = h
  check_devices-IsSound fuel (dev ∷ devs) st h =
      check_devices-IsSound fuel devs (check_device matches disks node fuel dev st)
        (check_device-IsSound fuel dev st h)

  check_metas-IsSound :
      (metas : Assoc String) (st : Checked)
      → IsSound disks st
      → IsSound disks (check_metas matches disks node metas st)
  unfolding check_metas
  check_metas-IsSound [] st h = h
  check_metas-IsSound ((meta, used_for) ∷ metas) st h =
      elim (Option-cases (lookup (alias_of disks meta) st.used)) [
        | inl e ↦ rw (e, check_metas) (check_metas-IsSound metas st h)
        | inr (dev, e) ↦ rw (e, check_metas) (check_metas-IsSound metas (blame_spec _ st) h)
      ]

  -- The devices that are taken from a list of the spec, on whatever node, are different block
  -- devices, each on a disk and with a metadata device that the node knows, if it has one.
  pub devices_of-IsSound :
      (fuel : ℕ)
      → is_empty node.devices ≡ false
      → AreDistinct disks (devices_of matches disks node fuel).devices
        × All (IsFound disks) (devices_of matches disks node fuel).devices
  unfolding devices_of
  devices_of-IsSound fuel listed =
      let st = check_devices matches disks node fuel node.devices nothing_checked in
      let h = check_metas-IsSound st.metas st (
        check_devices-IsSound fuel node.devices nothing_checked
          (record { distinct = tt; found = tt; used = λ _ _. refl })) in
      rw (listed, devices_of) (h.distinct, h.found)
