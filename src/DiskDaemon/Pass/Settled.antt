-- ===== src/DiskDaemon/Pass/Settled.antt =====
-- After `checkDisks` has succeeded, the data agrees with what was answered, and a second call to which
-- the same is answered finds no change.
use pelagia.Prelude.{
  ◌≡◌, refl, Bool, true, false, Option, none, some, List, Assoc, IsMap, if◌then◌else◌,
}
use pelagia.Common.Disks.{DisksReport}
use pelagia.Common.World.{Error, Result, ok, err}
use pelagia.DiskDaemon.Equal.{
  text_equal, list_equal, list_equal_refl, map_equal, map_equal_refl, block_equal, block_equal_refl,
}
use pelagia.DiskDaemon.Devices.{Scanned}
use pelagia.DiskDaemon.Devices.Maps.{HasBlocks}
use pelagia.DiskDaemon.Volumes.{
  LvmVolume, RawVolume, lvm_equal, lvm_equal_refl, raw_equal, raw_equal_refl,
}
use pelagia.DiskDaemon.Report.Compact.{AreCompact}
use pelagia.DiskDaemon.Pass.{
  Answers, Runtime, CheckResult, checked, broken, then_check, same_blocks, with_blocks, after_cache,
  check_lvm_cached, check_scanned, take_disks, take_lvm, take_raw, take_volumes,
}

-- What is related_parts, if anything, has each key once.
abbrev pub IsListed {ℓ} : {A : Type ℓ} → Result (Assoc A) → Type ℓ
IsListed (ok m) = IsMap m
IsListed (err e) = Unit

abbrev pub ListsCompact : Result (Assoc (List LvmVolume)) → Type 0
ListsCompact (ok m) = AreCompact m
ListsCompact (err e) = Unit

abbrev pub SeesDisks : Result Scanned → Option DisksReport → Type 0
SeesDisks (ok s) report = same_blocks report s ≡ true
SeesDisks (err e) report = ⊥

abbrev pub SeesLvm : Result (Assoc (List LvmVolume)) → Assoc (List LvmVolume) → Type 0
SeesLvm (ok m) volumes = map_equal (list_equal lvm_equal) volumes m ≡ true
SeesLvm (err e) volumes = ⊥

abbrev pub SeesRaw : Bool → Result (Assoc RawVolume) → Assoc RawVolume → Type 0
SeesRaw true _ volumes = Unit
SeesRaw false (ok m) volumes = map_equal raw_equal volumes m ≡ true
SeesRaw false (err e) volumes = ⊥

module _ {ℓ} (P : Runtime → Type ℓ) where
  abbrev pub Ensures : CheckResult → Type ℓ
  Ensures (checked changed rt) = P rt
  Ensures (broken e rt) = Unit

  if-Ensures :
      (b : Bool) (x y : CheckResult)
      → (b ≡ true → Ensures x)
      → Ensures y
      → Ensures (if b then x else y)
  if-Ensures true x y h k = h refl
  if-Ensures false x y h k = k

then_check-Ensures {ℓ κ} :
    (P : Runtime → Type ℓ) (Q : Runtime → Type κ) (x : CheckResult)
    (f : Bool → Runtime → CheckResult)
    → Ensures P x
    → ((changed : Bool) (rt : Runtime) → P rt → Ensures Q (f changed rt))
    → Ensures Q (then_check x f)
then_check-Ensures P Q (checked changed rt) f p h = h changed rt p
then_check-Ensures P Q (broken e rt) f p h = tt

same_blocks-with_blocks :
    (r : Option DisksReport) (s : Scanned)
    → IsMap s.block_info
    → same_blocks (some (with_blocks r s)) s ≡ true
unfolding same_blocks
same_blocks-with_blocks none s h = map_equal_refl block_equal block_equal_refl s.block_info h
same_blocks-with_blocks (some r) s h = map_equal_refl block_equal block_equal_refl s.block_info h

take_disks-sees :
    (a : Answers) (s : Scanned) (rt : Runtime)
    → IsMap s.block_info
    → AreCompact rt.volumes_lvm
    → Ensures
        (λ rt₁. (same_blocks rt₁.disks_report s ≡ true) × AreCompact rt₁.volumes_lvm)
        (take_disks a s rt)
unfolding take_disks
take_disks-sees a s rt h c =
    if-Ensures _ (same_blocks rt.disks_report s) (checked false rt) _ (λ e. (e, c))
      (if-Ensures _ (map_equal (list_equal text_equal) rt.known_lvms s.lvms)
        (checked true (record rt { disks_report = some (with_blocks rt.disks_report s) })) _
        (λ _. (same_blocks-with_blocks rt.disks_report s h, c))
        (after_cache-sees (check_lvm_cached a s.lvms)))
  where
    after_cache-sees :
        (o : Option Error)
        → Ensures
            (λ rt₁. (same_blocks rt₁.disks_report s ≡ true) × AreCompact rt₁.volumes_lvm)
            (after_cache s rt o)
    after_cache-sees none = (same_blocks-with_blocks rt.disks_report s h, c)
    after_cache-sees (some e) = tt

module _ (scan : Result Scanned) (raw_disabled : Bool) (raws : Result (Assoc RawVolume)) where
  abbrev pub AfterDisks : Runtime → Type 0
  AfterDisks rt = SeesDisks scan rt.disks_report × AreCompact rt.volumes_lvm

  abbrev pub AfterRaw : Runtime → Type 0
  AfterRaw rt = AfterDisks rt × SeesRaw raw_disabled raws rt.volumes_raw

module _ (scan : Result Scanned) where
  take_raw-sees :
      (raw_disabled : Bool) (raws : Result (Assoc RawVolume)) (changed : Bool) (rt : Runtime)
      → IsListed raws
      → AfterDisks scan raw_disabled raws rt
      → Ensures (AfterRaw scan raw_disabled raws) (take_raw raw_disabled raws changed rt)
  unfolding take_raw
  take_raw-sees true raws changed rt h p = (p, tt)
  take_raw-sees false (err e) changed rt h p = tt
  take_raw-sees false (ok m) changed rt h p =
      if-Ensures _ (map_equal raw_equal rt.volumes_raw m) (checked changed rt)
        (checked true (record rt { volumes_raw = m })) (λ e. (p, e))
        (p, map_equal_refl raw_equal raw_equal_refl m h)

  module _ (raw_disabled : Bool) (raws : Result (Assoc RawVolume)) where
    abbrev pub AfterLvm : Result (Assoc (List LvmVolume)) → Runtime → Type 0
    AfterLvm lvm rt = AfterRaw scan raw_disabled raws rt × SeesLvm lvm rt.volumes_lvm

    take_lvm-sees :
        (m : Assoc (List LvmVolume)) (changed : Bool) (rt : Runtime)
        → IsMap m
        → AreCompact m
        → AfterRaw scan raw_disabled raws rt
        → Ensures (AfterLvm (ok m)) (take_lvm m changed rt)
    unfolding take_lvm
    take_lvm-sees m changed rt h c ((s, k), r) =
        if-Ensures _ (map_equal (list_equal lvm_equal) rt.volumes_lvm m) (checked changed rt)
          (checked true (record rt { volumes_lvm = m })) (λ e. (((s, k), r), e))
          (
            ((s, c), r),
            map_equal_refl (list_equal lvm_equal) (list_equal_refl lvm_equal lvm_equal_refl) m h,
          )

    take_volumes-sees :
        (lvm : Result (Assoc (List LvmVolume))) (changed : Bool) (rt : Runtime)
        → IsListed lvm
        → ListsCompact lvm
        → IsListed raws
        → AfterDisks scan raw_disabled raws rt
        → Ensures (AfterLvm lvm) (take_volumes raw_disabled lvm raws changed rt)
    unfolding take_volumes
    take_volumes-sees (err e) changed rt h c k p = tt
    take_volumes-sees (ok m) changed rt h c k p =
        then_check-Ensures (AfterRaw scan raw_disabled raws) (AfterLvm (ok m))
          (take_raw raw_disabled raws changed rt) (take_lvm m)
          (take_raw-sees raw_disabled raws changed rt k p)
          (λ changed₁ rt₁ q. take_lvm-sees m changed₁ rt₁ h c q)

module _ (raw_disabled : Bool) (a : Answers) where
  pub check_scanned-sees :
      (scan : Result Scanned) (rt : Runtime)
      → HasBlocks scan
      → IsListed a.lvm_list
      → ListsCompact a.lvm_list
      → IsListed a.raw_list
      → AreCompact rt.volumes_lvm
      → Ensures
          (AfterLvm scan raw_disabled a.raw_list a.lvm_list)
          (check_scanned raw_disabled a rt scan)
  unfolding check_scanned
  check_scanned-sees (err e) rt b h c k p = tt
  check_scanned-sees (ok s) rt b h c k p =
      then_check-Ensures (AfterDisks (ok s) raw_disabled a.raw_list)
        (AfterLvm (ok s) raw_disabled a.raw_list a.lvm_list) (take_disks a s rt)
        (take_volumes raw_disabled a.lvm_list a.raw_list) (take_disks-sees a s rt b p)
        (λ changed rt₁ q.
          take_volumes-sees (ok s) raw_disabled a.raw_list a.lvm_list changed rt₁ h c k q)

sees-take_raw :
    (raw_disabled : Bool) (raws : Result (Assoc RawVolume)) (changed : Bool) (rt : Runtime)
    → SeesRaw raw_disabled raws rt.volumes_raw
    → take_raw raw_disabled raws changed rt ≡ checked changed rt
unfolding take_raw
sees-take_raw true raws changed rt r = refl
sees-take_raw false (ok m) changed rt r = rw r refl
sees-take_raw false (err e) changed rt r = absurd r

sees-take_volumes :
    (raw_disabled : Bool) (lvm : Result (Assoc (List LvmVolume))) (raws : Result (Assoc RawVolume))
    → (changed : Bool) (rt : Runtime) → SeesRaw raw_disabled raws rt.volumes_raw
    → SeesLvm lvm rt.volumes_lvm
    → take_volumes raw_disabled lvm raws changed rt ≡ checked changed rt
unfolding take_volumes
sees-take_volumes raw_disabled (ok m) raws changed rt r l =
    rw (sees-take_raw raw_disabled raws changed rt r) (rw l refl)
sees-take_volumes raw_disabled (err e) raws changed rt r l = absurd l

-- A call to which the same is answered finds no change in data that agrees with it.
pub sees-check_scanned :
    (raw_disabled : Bool) (a : Answers) (scan : Result Scanned) (rt : Runtime)
    → SeesDisks scan rt.disks_report
    → SeesRaw raw_disabled a.raw_list rt.volumes_raw
    → SeesLvm a.lvm_list rt.volumes_lvm
    → check_scanned raw_disabled a rt scan ≡ checked false rt
unfolding check_scanned
sees-check_scanned raw_disabled a (err e) rt d r l = absurd d
sees-check_scanned raw_disabled a (ok s) rt d r l =
    rw d (sees-take_volumes raw_disabled a.lvm_list a.raw_list false rt r l)
