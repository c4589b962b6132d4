-- ===== src/OsdRemove/Jobs/Zapping.antt =====
-- From `getJobData` to the scripts of the containers: which disks a cleanup job wipes.
use pelagia.Prelude.{
  ℕ, suc, ◌≡◌, refl, ◌∙◌, sym, ap, inl, inr, String, Bool, true, false, not, ◌&&◌, ◌||◌, List, [],
  ◌∷◌, any, All, Assoc, lookup, Option-cases, ◌==◌, if◌then◌else◌, false≢true,
}
use pelagia.Task.{DeviceInfo, OsdMapping}
use pelagia.Task.Job.{Script, disk_clean, Container}
use pelagia.Common.World.{Env}
use pelagia.OsdRemove.Config.{LcmConfig, TaskConfig}
use pelagia.OsdRemove.Jobs.Build.{
  device_script, is_lvm_rook_made, container_for, containers_from, cleanup_job,
}
use pelagia.OsdRemove.Jobs.Run.{get_job_data}
use pelagia.OsdRemove.Jobs.Sharing.{is_zapped, zaps, is_cleaned, uses_disk, get_job_data-shared}

-- The script wipes the whole disk below a logical volume or a partition.
abbrev pub wipes_disk : Script → Bool
wipes_disk (disk_clean _ _ _ _ _) = true
wipes_disk _ = false

choose_script :
    (alive raw zap destroy whole : Bool) (a b r w k : Script)
    → wipes_disk a ≡ false
    → wipes_disk b ≡ false
    → wipes_disk r ≡ false
    → wipes_disk k ≡ false
    → wipes_disk (
        if not alive
        then (if whole then a else b)
        else if raw
        then r
        else if zap && destroy
        then w
        else k)
      ≡ true
    → (zap ≡ true) × (destroy ≡ true)
choose_script false raw zap destroy true a b r w k na nb nr nk e = absurd (false≢true (sym na ∙ e))
choose_script false raw zap destroy false a b r w k na nb nr nk e = absurd (false≢true (sym nb ∙ e))
choose_script true true zap destroy whole a b r w k na nb nr nk e = absurd (false≢true (sym nr ∙ e))
choose_script true false true true whole a b r w k na nb nr nk e = (refl, refl)
choose_script true false true false whole a b r w k na nb nr nk e = absurd (false≢true (sym nk ∙ e))
choose_script true false false destroy whole a b r w k na nb nr nk e =
    absurd (false≢true (sym nk ∙ e))

wipes_disk-device_script :
    (config : LcmConfig) (directory device : String) (info : DeviceInfo)
    → wipes_disk (device_script config directory device info) ≡ true
    → (info.zap ≡ true)
      × ((is_lvm_rook_made info.partition || config.allow_to_remove_manually_created_lvm) ≡ true)
unfolding device_script
wipes_disk-device_script config directory device info e =
    choose_script info.alive info.raw info.zap
      (is_lvm_rook_made info.partition || config.allow_to_remove_manually_created_lvm)
      (device == info.partition) _ _ _ _ _ refl refl refl refl e

-- The container wipes a disk only if the device is to be zapped.
abbrev pub IsCareful : Assoc DeviceInfo → Container → Type 0
IsCareful devices k = wipes_disk k.script ≡ true → zaps k.device devices ≡ true

containers_from-IsCareful :
    (config : LcmConfig) (image directory : String) (devices : Assoc DeviceInfo) (idx : ℕ)
    (ds : List String)
    → All (IsCareful devices) (containers_from config image directory devices idx ds)
unfolding containers_from container_for
containers_from-IsCareful config image directory devices idx [] = tt
containers_from-IsCareful config image directory devices idx (d ∷ ds) =
    let rest = containers_from-IsCareful config image directory devices (suc idx) ds in
    elim (Option-cases (lookup d devices)) [
      | inl e ↦ rw (All, e) rest
      | inr (info, e) ↦
          rw (All, e)
            (
              λ wipes. ap is_zapped e ∙ (wipes_disk-device_script config directory d info wipes).0,
              rest,
            )
    ]

All-map {κ κ'} :
    {P : Container → Type κ} {Q : Container → Type κ'}
    → ((k : Container) → P k → Q k)
    → (ks : List Container) → All P ks
    → All Q ks
All-map f [] _ = tt
All-map f (k ∷ ks) (p, ps) = (f k p, All-map f ks ps)

spared :
    (wipes used zap own : Bool)
    → zap ≡ (own && not used)
    → (wipes ≡ true → zap ≡ true)
    → (wipes && used) ≡ false
spared false used zap own e careful = refl
spared true false zap own e careful = refl
spared true true zap true e careful = absurd (false≢true (sym e ∙ careful refl))
spared true true zap false e careful = absurd (false≢true (sym e ∙ careful refl))

-- When no cleanup job of another OSD of the host is running, the job that is built from the job
-- data of an OSD has no container that wipes the disk below a partition or volume, if another OSD
-- of the host has that disk and is not done with it.
pub cleanup_job-spares :
    (env : Env) (c : TaskConfig) (image host id directory : String) (osds : Assoc OsdMapping)
    → any (is_cleaned id) osds ≡ false
    → All
        (λ k. (wipes_disk k.script && any (uses_disk id k.device) osds) ≡ false)
        (cleanup_job env c image host id directory (get_job_data id osds).1).containers
unfolding cleanup_job
cleanup_job-spares env c image host id directory osds none_runs =
    All-map (λ k careful. spared _ _ _ _ (get_job_data-shared id k.device osds none_runs).1 careful)
      _ (containers_from-IsCareful c.lcm_config image directory (get_job_data id osds).1 1 _)
