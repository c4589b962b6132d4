-- ===== src/DiskDaemon/Report/Compact.antt =====
-- The check of the OSDs leaves the volumes as they are, if no volume repeats a device.
use pelagia.Prelude.{
  ℕ, ◌≡◌, Bool, true, false, refl, sym, ap, ◌∙◌, String, Option, none, some, List, [], ◌∷◌, ◌++◌,
  Assoc, All,
}
use mathlib.Core.List.{append-nil, append_assoc}
use pelagia.Common.Tree.{DiskSearch, disk, failed, running}
use pelagia.Common.Disks.{DisksReport}
use pelagia.DiskDaemon.Volumes.{LvmVolume, RawVolume, compact, compacted_array}
use pelagia.DiskDaemon.Osds.{
  OsdScan, go_on, break_off, unended, check_volume, check_volumes, keep_volume,
}
use pelagia.DiskDaemon.Report.{
  OsdsCheck, scan_from, place_raw, no_check, sorted_or_none, add_scan, check_lvm, check_raw_volume,
  check_raw, check_osds,
}

-- `slices.Compact` changes nothing in the array.
abbrev pub IsCompact : LvmVolume → Type 0
IsCompact v = compacted_array v.devices ≡ v.devices

abbrev pub AreCompact : Assoc (List LvmVolume) → Type 0
AreCompact m = All (λ e. All IsCompact e.1) m

KeepsVolumes : List LvmVolume → Option (OsdScan × List LvmVolume) → Type 0
KeepsVolumes vs none = Unit
KeepsVolumes vs (some (s, ws)) = ws ≡ vs

keep_volume-KeepsVolumes :
    (v : LvmVolume) (vs : List LvmVolume) (found : Option (OsdScan × List LvmVolume))
    → IsCompact v
    → KeepsVolumes vs found
    → KeepsVolumes (v ∷ vs) (keep_volume (record v { devices = compacted_array v.devices }) found)
unfolding KeepsVolumes
keep_volume-KeepsVolumes v vs none c h = tt
keep_volume-KeepsVolumes v vs (some (s, ws)) c h = cc (c, h)

module _ (fuel : ℕ) (report : DisksReport) (osd : String) where
  check_volumes-KeepsVolumes :
      (vs : List LvmVolume) (s : OsdScan)
      → All IsCompact vs
      → KeepsVolumes vs (check_volumes fuel report osd vs s)
  unfolding check_volumes KeepsVolumes
  check_volumes-KeepsVolumes [] s h = refl
  check_volumes-KeepsVolumes (v ∷ vs) s (c, h) =
      elim (check_volume fuel report osd (record v { devices = compact v.devices }) s)
        as (λ step. KeepsVolumes (v ∷ vs) (elim step [
          | go_on s₁ ↦
              keep_volume (record v { devices = compacted_array v.devices })
                (check_volumes fuel report osd vs s₁)
          | break_off s₁ ↦ some (s₁, record v { devices = compacted_array v.devices } ∷ vs)
          | unended ↦ none
        ])) [
          | go_on s₁ ↦
              keep_volume-KeepsVolumes v vs (check_volumes fuel report osd vs s₁) c
                (check_volumes-KeepsVolumes vs s₁ h)
          | break_off s₁ ↦ ap (λ w. w ∷ vs) (ap (λ ds. record v { devices = ds }) c)
          | unended ↦ tt
        ]

-- The check, if it ends, leaves these volumes.
abbrev pub Leaves : Assoc (List LvmVolume) → Option OsdsCheck → Type 0
Leaves volumes none = Unit
Leaves volumes (some c) = c.left ≡ volumes

sorted_or_none-Leaves :
    (volumes : Assoc (List LvmVolume)) (o : Option OsdsCheck)
    → Leaves volumes o
    → Leaves volumes (sorted_or_none o)
sorted_or_none-Leaves volumes none h = tt
sorted_or_none-Leaves volumes (some c) h = h

module _ (fuel : ℕ) (report : DisksReport) where
  check_lvm-Leaves :
      (m volumes : Assoc (List LvmVolume)) (c : OsdsCheck)
      → AreCompact m
      → c.left ++ m ≡ volumes
      → Leaves volumes (check_lvm fuel report m c)
  unfolding check_lvm add_scan KeepsVolumes
  check_lvm-Leaves [] volumes c h e = sym (append-nil c.left) ∙ e
  check_lvm-Leaves ((osd, vs) ∷ m) volumes c (k, h) e =
      elim (check_volumes fuel report osd vs (scan_from c))
          as (λ found.
            KeepsVolumes vs found
            → Leaves volumes (elim found [
              | none ↦ none
              | some (s, vs₁) ↦ check_lvm fuel report m (add_scan osd s vs₁ c)
            ])) [
              | none ↦ λ kept. tt
              | some (s, vs₁) ↦ λ kept. check_lvm-Leaves m volumes (add_scan osd s vs₁ c) h (
                  append_assoc c.left ((osd, vs₁) ∷ []) m
                  ∙ (ap (λ ws. c.left ++ (osd, ws) ∷ m) kept ∙ e))
            ]
        (check_volumes-KeepsVolumes fuel report osd vs (scan_from c) k)

  place_raw-Leaves :
      (volumes : Assoc (List LvmVolume)) (c : OsdsCheck) (v : RawVolume)
      → c.left ≡ volumes
      → (is_disk : Bool) (search : DiskSearch)
      → Leaves volumes (place_raw report v c is_disk search)
  unfolding place_raw
  place_raw-Leaves volumes c v e false search = e
  place_raw-Leaves volumes c v e true running = tt
  place_raw-Leaves volumes c v e true (failed text) = e
  place_raw-Leaves volumes c v e true (disk device) = e

  check_raw_volume-Leaves :
      (v : RawVolume) (volumes : Assoc (List LvmVolume)) (c : OsdsCheck)
      → c.left ≡ volumes
      → Leaves volumes (check_raw_volume fuel report v c)
  unfolding check_raw_volume
  check_raw_volume-Leaves v volumes c e = place_raw-Leaves volumes c v e _ _

  check_raw-Leaves :
      (m : Assoc RawVolume) (volumes : Assoc (List LvmVolume)) (c : OsdsCheck)
      → c.left ≡ volumes
      → Leaves volumes (check_raw fuel report m c)
  unfolding check_raw
  check_raw-Leaves [] volumes c e = e
  check_raw-Leaves ((k, v) ∷ m) volumes c e =
      elim (check_raw_volume fuel report v c)
          as (λ found.
            Leaves volumes found
            → Leaves volumes (elim found [ none ↦ none | some c₁ ↦ check_raw fuel report m c₁ ])) [
              | none ↦ λ h. tt
              | some c₁ ↦ λ h. check_raw-Leaves m volumes c₁ h
            ]
        (check_raw_volume-Leaves v volumes c e)

  pub check_osds-Leaves :
      (volumes : Assoc (List LvmVolume)) (raws : Assoc RawVolume)
      → AreCompact volumes
      → Leaves volumes (check_osds fuel report volumes raws)
  unfolding check_osds
  check_osds-Leaves volumes raws h =
      elim (check_lvm fuel report volumes no_check)
          as (λ found.
            Leaves volumes found
            → Leaves volumes (elim found [
              | none ↦ none
              | some c ↦ sorted_or_none (check_raw fuel report raws c)
            ])) [
              | none ↦ λ k. tt
              | some c ↦ λ k. sorted_or_none-Leaves volumes _ (check_raw-Leaves raws volumes c k)
            ]
        (check_lvm-Leaves volumes volumes no_check h refl)
