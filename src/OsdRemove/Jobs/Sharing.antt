-- ===== src/OsdRemove/Jobs/Sharing.antt =====
-- `getJobData` of executor.go: which disks a cleanup job may zap.
use mathlib.Core.Option
use pelagia.Prelude.{
  inl, inr, ◌≡◌, refl, ◌∙◌, sym, String, Bool, true, false, not, ◌&&◌, ◌||◌, Option, none, some, [],
  ◌∷◌, any, arith, Assoc, lookup, lookup-adjust, adjust, Bool-cases, ◌==◌, if◌then◌else◌,
  false≢true,
}
use pelagia.Task.{in_progress, DeviceInfo, OsdMapping}
use pelagia.OsdRemove.Jobs.Run.{
  job_of, job_is, is_done_with_devices, keep_disk, keep_shared, job_data_from, osd_at, get_job_data,
}

abbrev pub is_zapped : Option DeviceInfo → Bool
is_zapped none = false
is_zapped (some info) = info.zap

-- The job data say that the disk is to be zapped.
abbrev pub zaps : String → Assoc DeviceInfo → Bool
zaps device devices = is_zapped (lookup device devices)

abbrev pub has_disk : String → Assoc DeviceInfo → Bool
has_disk device [] = false
has_disk device ((d, _) ∷ devices) = d == device || has_disk device devices

-- An OSD other than `cur` whose cleanup job is running.
abbrev pub is_cleaned : String → String × OsdMapping → Bool
is_cleaned cur (id, m) = not (id == cur) && job_is in_progress (job_of m)

-- An OSD other than `cur` that is not done with the disk.
abbrev pub uses_disk : String → String → String × OsdMapping → Bool
uses_disk cur device (id, m) =
    not (id == cur) && (not (is_done_with_devices m) && has_disk device m.device_mapping)

is_zapped-keep : (o : Option DeviceInfo) → is_zapped (Option.map keep_disk o) ≡ false
is_zapped-keep none = refl
is_zapped-keep (some info) = refl

zaps-adjust :
    (device d : String) (devices : Assoc DeviceInfo)
    → zaps device (adjust d keep_disk devices) ≡ (not (d == device) && zaps device devices)
zaps-adjust device d devices =
    ground (arith, lookup-adjust d device keep_disk devices, is_zapped-keep (lookup device devices))

zaps-keep_shared :
    (device : String) (used devices : Assoc DeviceInfo)
    → zaps device (keep_shared used devices) ≡ (not (has_disk device used) && zaps device devices)
unfolding keep_shared
zaps-keep_shared device [] devices = refl
zaps-keep_shared device ((d, info) ∷ used) devices =
    zaps-keep_shared device used (adjust d keep_disk devices)
    ∙ ground (arith, zaps-adjust device d devices)

branches {ℓ} :
    {A : Type ℓ} (x y z : A) (b c : Bool)
    → elim b as (λ _. A) [ true ↦ x | false ↦ elim c as (λ _. A) [ true ↦ y | false ↦ z ] ]
      ≡ (if b then x else if c then y else z)
branches x y z true c = refl
branches x y z false true = refl
branches x y z false false = refl

first_idle : {b c r : Bool} → b ≡ false → c ≡ false → ((not b && c) || r) ≡ false → r ≡ false
first_idle {b = true} p q e = absurd (false≢true (sym p))
first_idle {b = false} {c = true} p q e = absurd (false≢true (sym q))
first_idle {b = false} {c = false} p q e = e

job_data_from-cons :
    (cur id : String) (m : OsdMapping) (osds : Assoc OsdMapping) (devices : Assoc DeviceInfo)
    → job_data_from cur ((id, m) ∷ osds) devices ≡ (
        if id == cur
        then job_data_from cur osds devices
        else if job_is in_progress (job_of m)
        then (true, devices)
        else job_data_from cur osds
            (if is_done_with_devices m then devices else keep_shared m.device_mapping devices))
unfolding job_data_from
job_data_from-cons cur id m osds devices =
    branches _ _ _ (id == cur) (job_is in_progress (job_of m))

job_data_from-any :
    (cur : String) (osds : Assoc OsdMapping) (devices : Assoc DeviceInfo)
    → (job_data_from cur osds devices).0 ≡ any (is_cleaned cur) osds
unfolding job_data_from
job_data_from-any cur [] devices = refl
job_data_from-any cur ((id, m) ∷ osds) devices = elim (Bool-cases (id == cur)) [
  | inl same ↦
      rw (job_data_from-cons cur id m osds devices, same) (job_data_from-any cur osds devices)
  | inr other ↦ elim (Bool-cases (job_is in_progress (job_of m))) [
    | inl running ↦ rw (job_data_from-cons cur id m osds devices, other, running)
    | inr idle ↦
        rw (job_data_from-cons cur id m osds devices, other, idle) (job_data_from-any cur osds _)
  ]
]

zaps-job_data_from :
    (cur device : String) (osds : Assoc OsdMapping) (devices : Assoc DeviceInfo)
    → any (is_cleaned cur) osds ≡ false
    → zaps device (job_data_from cur osds devices).1
      ≡ (zaps device devices && not (any (uses_disk cur device) osds))
unfolding job_data_from
zaps-job_data_from cur device [] devices none_runs = ground arith
zaps-job_data_from cur device ((id, m) ∷ osds) devices none_runs = elim (Bool-cases (id == cur)) [
  | inl same ↦
      rw (job_data_from-cons cur id m osds devices, same)
        (zaps-job_data_from cur device osds devices (ground (arith, none_runs, same)))
  | inr other ↦ elim (Bool-cases (job_is in_progress (job_of m))) [
    | inl running ↦ absurd (false≢true (sym none_runs ∙ rw (other, running)))
    | inr idle ↦ elim (Bool-cases (is_done_with_devices m)) [
      | inl done ↦
          rw (job_data_from-cons cur id m osds devices, other, idle, done)
            (zaps-job_data_from cur device osds devices (first_idle other idle none_runs))
      | inr using ↦
          rw (job_data_from-cons cur id m osds devices, other, idle, using)
            (zaps-job_data_from cur device osds (keep_shared m.device_mapping devices)
                (first_idle other idle none_runs)
              ∙ ground (arith, zaps-keep_shared device m.device_mapping devices))
    ]
  ]
]

-- `getJobData` reports a parallel job exactly when the cleanup job of another OSD of the host is
-- running.
pub get_job_data-any :
    (cur : String) (osds : Assoc OsdMapping) → (get_job_data cur osds).0 ≡ any (is_cleaned cur) osds
unfolding get_job_data
get_job_data-any cur osds = job_data_from-any cur osds _

-- When no cleanup job of another OSD of the host is running, `getJobData` reports none, and has a
-- disk zapped exactly when the OSD's own mapping asks for it and every other OSD of the host that
-- has the disk is done with its devices.
pub get_job_data-shared :
    (cur device : String) (osds : Assoc OsdMapping)
    → any (is_cleaned cur) osds ≡ false
    → ((get_job_data cur osds).0 ≡ false)
      × (zaps device (get_job_data cur osds).1
          ≡ (zaps device (osd_at cur osds).device_mapping && not (any (uses_disk cur device) osds)))
unfolding get_job_data
get_job_data-shared cur device osds none_runs =
    (job_data_from-any cur osds _ ∙ none_runs, zaps-job_data_from cur device osds _ none_runs)
