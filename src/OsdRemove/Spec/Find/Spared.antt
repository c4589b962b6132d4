-- ===== src/OsdRemove/Spec/Find/Spared.antt =====
-- findOsdsForCleanUp of spec_handler.go: an OSD on a block device of the spec is not planned.
use pelagia.Prelude.{
  ◌≡◌, refl, sym, ap, subst, ◌∙◌, inl, inr, ℕ, String, Bool, true, false, false≢true, not, ◌&&◌,
  ◌||◌, any, Option, none, some, List, [], ◌∷◌, Assoc, lookup, insert, adjust, lookup-insert,
  remove_key, keys, is_empty, split, Bool-cases, Option-cases, if_ind, if_cases, and_true, eq_iff,
  arith, ◌==◌,
}
use pelagia.Task.{DeviceInfo, OsdMapping}
use pelagia.Common.Objects.{OsdMetadataInfo}
use pelagia.Common.Disks.{OsdDaemonInfo}
use pelagia.Common.World.{Env}
use pelagia.OsdRemove.Config.{is_stray_osd_id}
use pelagia.OsdRemove.Spec.Metadata.{
  ClusterOsds, fill_one, fill_device_path_or_id, block_device, with_db_device,
  fill_devices_info_from_metadata,
}
use pelagia.OsdRemove.Spec.Devices.{UsedDevices, InSpec, device_in_spec}
use pelagia.OsdRemove.Spec.Hosts.{OsdHostInfo}
use pelagia.OsdRemove.Spec.Volumes.{
  meta_of, check_from_crush, is_stray_in_crush, stray_key, add_volume, Scan,
}
use pelagia.OsdRemove.Spec.Volumes.Key.{is_free, plain_osd_id-stray_key}
use pelagia.OsdRemove.Spec.ByOsd.Denied.{is_block_use, is_blocked}
use pelagia.OsdRemove.Spec.Find.{
  Walk, lock_used, join_devices, spec_volume, other_volume, find_volume, find_volumes,
  expected_devices, planned_osd, settle_osd, find_osd,
}

stray_key-differs :
    (osd uuid : String)
    → is_free b'.' osd ≡ true
    → is_stray_osd_id osd ≡ false
    → (stray_key osd uuid == osd) ≡ false
stray_key-differs osd uuid free plain = elim (Bool-cases (stray_key osd uuid == osd)) [
  | inl e ↦ absurd (
      false≢true (
        sym plain
        ∙ ap is_stray_osd_id (sym ((eq_iff (stray_key osd uuid) osd).0 e))
        ∙ (plain_osd_id-stray_key osd uuid free).0))
  | inr e ↦ e
]

lookup-add_volume :
    (key osd : String) (devices : Assoc DeviceInfo) (new : OsdMapping) (osds : Assoc OsdMapping)
    → (key == osd) ≡ false
    → lookup osd (add_volume key devices new osds) ≡ lookup osd osds
unfolding add_volume
lookup-add_volume key osd devices new osds other = elim (Option-cases (lookup key osds)) [
  | inl e ↦ rw (add_volume, e, lookup-insert key osd new osds, other) refl
  | inr (m, e) ↦ rw (add_volume, e, lookup-insert key osd _ osds, other) refl
]

-- Ceph's metadata of an OSD list at least one device.
abbrev has_entry : Assoc DeviceInfo → Bool
has_entry devices = not (is_empty (keys devices))

adjust-entry :
    (key : String) (f : DeviceInfo → DeviceInfo) (m : Assoc DeviceInfo)
    → has_entry m ≡ true
    → has_entry (adjust key f m) ≡ true
unfolding adjust
adjust-entry key f [] h = h
adjust-entry key f ((j, w) ∷ m) h = if_ind (λ r. has_entry r ≡ true) (j == key) refl refl

insert-entry :
    (key : String) (info : DeviceInfo) (m : Assoc DeviceInfo) → has_entry (insert key info m) ≡ true
unfolding insert
insert-entry key info [] = refl
insert-entry key info ((j, w) ∷ m) = if_ind (λ r. has_entry r ≡ true) (j == key) refl refl

fill_one-entry :
    (by_id : Bool) (names : List String) (m : Assoc DeviceInfo)
    → has_entry m ≡ true
    → has_entry (fill_one by_id names m) ≡ true
fill_one-entry by_id [] m h = h
fill_one-entry by_id (a ∷ []) m h = h
fill_one-entry by_id (a ∷ b ∷ []) m h = adjust-entry _ _ m h
fill_one-entry by_id (a ∷ b ∷ c ∷ names) m h = h

fill-entry :
    (by_id : Bool) (devs : List String) (m : Assoc DeviceInfo)
    → has_entry m ≡ true
    → has_entry (fill_device_path_or_id by_id devs m) ≡ true
unfolding fill_device_path_or_id
fill-entry by_id [] m h = h
fill-entry by_id (dev ∷ devs) m h =
    fill-entry by_id devs _ (fill_one-entry by_id (split b'=' dev) m h)

meta-entry : (meta : OsdMetadataInfo) → has_entry (fill_devices_info_from_metadata meta) ≡ true
unfolding fill_devices_info_from_metadata with_db_device block_device
meta-entry meta = fill-entry true _ _ (
    fill-entry false _ _ (
      if_ind (λ r. has_entry r ≡ true) (meta.metadata_disk_used == "1")
        (insert-entry _ _ (block_device meta)) refl))

module _ (env : Env) (k : ClusterOsds) (host : String) (h : OsdHostInfo) (used : UsedDevices)
    (known : Assoc ℕ) (osd : String) (free : is_free b'.' osd ≡ true)
    (plain : is_stray_osd_id osd ≡ false) (stored : h.in_spec ≡ true) where
  -- What is planned for the OSD stays as it is in `osds`, and so does a denial.
  record Stays (osds : Assoc OsdMapping) (w w' : Walk) : Type 0 where
    same : lookup osd w'.scan.osds ≡ lookup osd osds
    denied : w.allow ≡ false → w'.allow ≡ false

  lock-allow :
      (found : InSpec) (vol : OsdDaemonInfo) (w : Walk)
      → (w.allow ≡ false → (lock_used found vol w).allow ≡ false)
        × (is_block_use found ≡ true → (lock_used found vol w).allow ≡ false)
        × ((lock_used found vol w).scan.osds ≡ w.scan.osds)
  lock-allow none vol w = (λ d. d, λ b. absurd (false≢true b), refl)
  lock-allow (some (name, type)) vol w =
      (λ d. if_ind (λ b. b ≡ false) (type == "block") refl d, λ b. rw b refl, refl)

  join-same :
      (vol : OsdDaemonInfo) (w : Walk)
      → ((join_devices vol w).allow ≡ w.allow) × ((join_devices vol w).scan.osds ≡ w.scan.osds)
  join-same vol w =
      if_ind (λ (r : Walk). (r.allow ≡ w.allow) × (r.scan.osds ≡ w.scan.osds)) w.allow (refl, refl)
        (refl, refl)

  volume-Stays :
      (vol : OsdDaemonInfo) (w : Walk)
      → Stays w.scan.osds w (find_volume env k host h used known osd vol w)
  unfolding find_volume spec_volume other_volume
  volume-Stays vol w =
      if_cases (λ (r : Walk). Stays w.scan.osds w r) (check_from_crush k known osd vol && h.in_spec)
        (λ _. record {
          same =
              ap (lookup osd)
                ((join-same vol _).1 ∙ (lock-allow (device_in_spec env vol used "") vol w).2);
          denied =
              λ d. (join-same vol _).0 ∙ (lock-allow (device_in_spec env vol used "") vol w).0 d;
        })
        (λ foreign. record {
          same = lookup-add_volume _ osd _ _ w.scan.osds (
              if_cases (λ key. (key == osd) ≡ false)
                (is_stray_in_crush k w.scan.strays osd vol
                  || not (check_from_crush k known osd vol))
                (λ _. stray_key-differs osd _ free plain)
                (λ found. absurd (is_found (check_from_crush k known osd vol) _ foreign found)));
          denied = λ d. d;
        })
    where
      is_found : (from stray : Bool) → from && h.in_spec ≡ false → (stray || not from) ≡ false → ⊥
      is_found from stray foreign found = ground arith

  volume-denies :
      (vol : OsdDaemonInfo) (w : Walk)
      → is_blocked env k host h used known [] osd vol ≡ true
      → (find_volume env k host h used known osd vol w).allow ≡ false
  unfolding find_volume spec_volume
  volume-denies vol w b =
      let (both, blocks) = and_true (h.in_spec && check_from_crush k known osd vol) _ b in
      let (_, own) = and_true h.in_spec (check_from_crush k known osd vol) both in
      if_cases (λ (r : Walk). r.allow ≡ false) (check_from_crush k known osd vol && h.in_spec)
        (λ _.
          (join-same vol (lock_used (device_in_spec env vol used "") vol w)).0
          ∙ (lock-allow (device_in_spec env vol used "") vol w).1 blocks)
        (λ foreign. absurd (false≢true (sym foreign ∙ ground arith)))

  volumes-Stays :
      (vols : List OsdDaemonInfo) (w : Walk)
      → Stays w.scan.osds w (find_volumes env k host h used known osd vols w)
  unfolding find_volumes
  volumes-Stays [] w = record { same = refl; denied = λ d. d }
  volumes-Stays (vol ∷ vols) w =
      let first = volume-Stays vol w in
      let rest = volumes-Stays vols (find_volume env k host h used known osd vol w) in
      record { same = rest.same ∙ first.same; denied = λ d. rest.denied (first.denied d) }

  volumes-denies :
      (vols : List OsdDaemonInfo) (w : Walk)
      → any (is_blocked env k host h used known [] osd) vols ≡ true
      → (find_volumes env k host h used known osd vols w).allow ≡ false
  unfolding find_volumes
  volumes-denies [] w b = absurd (false≢true b)
  volumes-denies (vol ∷ vols) w b =
      elim (Bool-cases (is_blocked env k host h used known [] osd vol)) [
        | inl e ↦ (volumes-Stays vols _).denied (volume-denies vol w e)
        | inr e ↦
            volumes-denies vols _
              (subst (λ x. (x || any (is_blocked env k host h used known [] osd) vols) ≡ true) e b)
      ]

  settled :
      (expected : List String) (w : Walk)
      → is_empty expected ≡ false
      → w.allow ≡ false
      → (lookup osd (settle_osd env k host h used expected osd w known).0.osds
          ≡ lookup osd w.scan.osds)
        × ((settle_osd env k host h used expected osd w known).1 ≡ remove_key osd known)
  unfolding settle_osd planned_osd
  settled expected w there denied =
      if_cases
        (λ (r : Scan × Assoc ℕ).
          (lookup osd r.0.osds ≡ lookup osd w.scan.osds) × (r.1 ≡ remove_key osd known))
        (is_empty expected) (λ e. absurd (false≢true (sym there ∙ e)))
        (λ _.
          if_cases
            (λ (r : Scan × Assoc ℕ).
              (lookup osd r.0.osds ≡ lookup osd w.scan.osds) × (r.1 ≡ remove_key osd known))
            (not w.allow)
            (λ _. (
              if_cases (λ osds. lookup osd osds ≡ lookup osd w.scan.osds) (h.in_spec && w.allow)
                  (λ both. absurd (false≢true (sym denied ∙ (and_true h.in_spec w.allow both).1)))
                  (λ _. refl),
              refl,
            ))
            (λ allowed. absurd (false≢true (sym allowed ∙ ap not denied))))

  -- On a host of the crush map and of the spec, an OSD of the host, with a volume in the report that
  -- belongs to it and whose block device is in the spec, is dealt with and not planned: what is
  -- planned under its id stays as it was, and it does not count as lost.
  pub find_osd-spared :
      (vols : List OsdDaemonInfo) (scan : Scan) (id : ℕ)
      → h.in_crush ≡ true
      → lookup osd known ≡ some id
      → any (is_blocked env k host h used known [] osd) vols ≡ true
      → (lookup osd (find_osd env k host h used osd vols (scan, known)).0.osds
          ≡ lookup osd scan.osds)
        × ((find_osd env k host h used osd vols (scan, known)).1 ≡ remove_key osd known)
  unfolding find_osd
  find_osd-spared vols scan id crush owned b =
      let (same, gone) =
        settled (keys expected) (find_volumes env k host h used known osd vols start) there
          (volumes-denies vols start b) in
      (same ∙ (volumes-Stays vols start).same, gone)
    where
      expected : Assoc DeviceInfo
      expected = expected_devices env k host h used known osd

      start : Walk
      start = record { scan = scan; meta = expected; allow = not (is_empty expected) }

      empty : (b : Bool) → not b ≡ true → b ≡ false
      empty b e = ground arith

      listed : Option ℕ → Assoc DeviceInfo
      listed o = elim o [ none ↦ [] | some i ↦ meta_of k i ]

      there : is_empty (keys expected) ≡ false
      there =
          if_cases (λ (devices : Assoc DeviceInfo). is_empty (keys devices) ≡ false) h.in_crush
            (λ _.
              subst (λ (o : Option ℕ). is_empty (keys (listed o)) ≡ false) (sym owned)
                (empty _ (meta-entry _)))
            (λ other. absurd (false≢true (sym other ∙ crush)))
