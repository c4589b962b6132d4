-- ===== src/OsdRemove/Spec/Zap/Conditions.antt =====
-- checkDeviceZapping of spec_handler.go: which disks a planned cleanup wipes.
use mathlib.Core.Option
use pelagia.Prelude.{
  ◌≡◌, ◌↔◌, refl, ap, ◌∙◌, inl, inr, String, Bool, true, false, ◌||◌, some, List, [], ◌∷◌, Assoc,
  lookup, contains, Bool-cases, if_ind, if_cases, eq_iff, arith, ◌==◌, if◌then◌else◌,
}
use pelagia.Task.{DeviceInfo, OsdMapping}
use pelagia.OsdRemove.Jobs.Build.{is_lvm_rook_made}
use pelagia.OsdRemove.Spec.Zap.{zap_device, zap_devices, check_device_zapping}

lookup-zap_devices :
    (host osd : String) (locked : List String) (allow : Bool) (device : String)
    (devices : Assoc DeviceInfo)
    → lookup device (zap_devices host osd locked allow devices)
      ≡ Option.map (zap_device host osd locked allow device) (lookup device devices)
unfolding lookup zap_devices
lookup-zap_devices host osd locked allow device [] = refl
lookup-zap_devices host osd locked allow device ((name, info) ∷ devices) =
    elim (Bool-cases (name == device)) [
      | inl e ↦ rw (e, (eq_iff name device).0 e) refl
      | inr e ↦ rw e (lookup-zap_devices host osd locked allow device devices)
    ]

-- An OSD whose disks are to be cleaned.
abbrev zapped : String → List String → Bool → String → OsdMapping → OsdMapping
zapped host locked allow osd m =
    if m.skip_device_cleanup_job
    then m
    else record m { device_mapping = zap_devices host osd locked allow m.device_mapping }

lookup-check_device_zapping :
    (host : String) (osds : Assoc OsdMapping) (locked : List String) (allow : Bool) (osd : String)
    → lookup osd (check_device_zapping host osds locked allow).0
      ≡ Option.map (zapped host locked allow osd) (lookup osd osds)
unfolding lookup check_device_zapping
lookup-check_device_zapping host [] locked allow osd = refl
lookup-check_device_zapping host ((name, m) ∷ osds) locked allow osd =
    elim (Bool-cases (name == osd)) [
      | inl e ↦
          rw (e, (eq_iff name osd).0 e)
            (if_cases
              (λ (r : Assoc OsdMapping × List String).
                lookup osd r.0 ≡ some (zapped host locked allow osd m))
              m.skip_device_cleanup_job (λ s. rw ((eq_iff osd osd).1 refl, s) refl)
              (λ s. rw ((eq_iff osd osd).1 refl, s) refl))
      | inr e ↦
          if_ind
            (λ (r : Assoc OsdMapping × List String).
              lookup osd r.0
              ≡ Option.map (zapped host locked allow osd)
                  (if name == osd then some m else lookup osd osds))
            m.skip_device_cleanup_job
            (rw e (lookup-check_device_zapping host osds locked allow osd))
            (rw e (lookup-check_device_zapping host osds locked allow osd))
    ]

-- The conditions under which a disk that is there and holds no OSD of its own is wiped.
zap_device_iff :
    (host osd : String) (locked : List String) (allow : Bool) (device : String) (info : DeviceInfo)
    → info.alive ≡ true
    → info.raw ≡ false
    → ((zap_device host osd locked allow device info).zap ≡ true) ↔ (
        (info.parted_by ≡ "")
        × (contains locked device ≡ false)
        × (is_lvm_rook_made info.partition || allow ≡ true))
unfolding zap_device
zap_device_iff host osd locked allow device info there whole =
    ground (arith, eq_iff info.parted_by "")

-- A disk of a planned OSD that is there, with the cleanup not skipped and not given to the OSD as a
-- whole, is wiped if and only if it is not below another partition, is not kept for the spec, and
-- either its volume was made by Rook or volumes that were made by hand may be removed.
pub check_device_zapping-zaps :
    (host : String) (osds : Assoc OsdMapping) (locked : List String) (allow : Bool) (osd : String)
    (m : OsdMapping) (device : String) (info : DeviceInfo)
    → lookup osd osds ≡ some m
    → m.skip_device_cleanup_job ≡ false
    → lookup device m.device_mapping ≡ some info
    → info.alive ≡ true
    → info.raw ≡ false
    → (m' : OsdMapping) × (lookup osd (check_device_zapping host osds locked allow).0 ≡ some m')
      × (info' : DeviceInfo) × (lookup device m'.device_mapping ≡ some info')
      × ((info'.zap ≡ true) ↔ (
          (info.parted_by ≡ "")
          × (contains locked device ≡ false)
          × (is_lvm_rook_made info.partition || allow ≡ true)))
check_device_zapping-zaps host osds locked allow osd m device info planned wanted found there
      whole =
    (
      record m { device_mapping = zap_devices host osd locked allow m.device_mapping },
      lookup-check_device_zapping host osds locked allow osd
          ∙ ap (Option.map (zapped host locked allow osd)) planned
          ∙ ap some (cleaned wanted),
      zap_device host osd locked allow device info,
      lookup-zap_devices host osd locked allow device m.device_mapping
          ∙ ap (Option.map (zap_device host osd locked allow device)) found,
      zap_device_iff host osd locked allow device info there whole,
    )
  where
    cleaned :
        m.skip_device_cleanup_job ≡ false
        → zapped host locked allow osd m
          ≡ record m { device_mapping = zap_devices host osd locked allow m.device_mapping }
    cleaned e =
        ap
          (λ b.
            if b
            then m
            else record m { device_mapping = zap_devices host osd locked allow m.device_mapping })
          e
