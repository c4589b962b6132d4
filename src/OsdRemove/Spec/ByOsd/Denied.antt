-- ===== src/OsdRemove/Spec/ByOsd/Denied.antt =====
-- verifyOsdsForCleanUp of spec_handler.go: an OSD on a block device of the spec is not planned.
use pelagia.Prelude.{
  ◌≡◌, refl, sym, ap, subst, ◌∙◌, inl, inr, ℕ, String, ◌&&◌, ◌||◌, and_true, Bool, true, false,
  false≢true, any, none, some, List, [], ◌∷◌, Assoc, lookup, show_nat, has_key, Bool-cases, if_ind,
  if_cases, eq_iff, arith, ◌==◌, if◌then◌else◌,
}
use pelagia.Task.{OsdCleanupSpec}
use pelagia.Common.Disks.{OsdDaemonInfo}
use pelagia.Common.World.{Env}
use pelagia.OsdRemove.Spec.Metadata.{ClusterOsds}
use pelagia.OsdRemove.Spec.Devices.{UsedDevices, InSpec, device_in_spec}
use pelagia.OsdRemove.Spec.Hosts.{OsdHostInfo}
use pelagia.OsdRemove.Spec.Volumes.{check_from_crush, Scan}
use pelagia.OsdRemove.Spec.ByOsd.{
  Pick, pick_own, pick_locked, is_item, pick_volume, pick_volumes, pick_osds, plan_picked,
  clean_osd,
}

abbrev pub is_block_use : InSpec → Bool
is_block_use none = false
is_block_use (some (_, type)) = type == "block"

module _ (env : Env) (k : ClusterOsds) (host : String) (h : OsdHostInfo) (used : UsedDevices)
    (known : Assoc ℕ) (items : List OsdCleanupSpec) where
  -- The volume is that of the OSD, and its block device is in the spec.
  abbrev pub is_blocked : String → OsdDaemonInfo → Bool
  is_blocked osd vol =
      h.in_spec && check_from_crush k known osd vol && is_block_use (device_in_spec env vol used "")

  -- The picking plans nothing itself, and a denial stays.
  own-allow :
      (osd : String) (found : InSpec) (vol : OsdDaemonInfo) (p : Pick)
      → p.allow ≡ false
      → (pick_own env k host h used osd found vol p).allow ≡ false
  unfolding pick_own
  own-allow osd none vol p d = d
  own-allow osd (some (name, type)) vol p d =
      if_ind (λ (r : Pick). r.allow ≡ false) (type == "block") refl d

  own-osds :
      (osd : String) (found : InSpec) (vol : OsdDaemonInfo) (p : Pick)
      → (pick_own env k host h used osd found vol p).scan.osds ≡ p.scan.osds
  unfolding pick_own
  own-osds osd none vol p = refl
  own-osds osd (some (name, type)) vol p =
      if_ind (λ (r : Pick). r.scan.osds ≡ p.scan.osds) (type == "block") refl refl

  module _ (Q : Pick → Type 0)
      (own : (osd : String) (found : InSpec) (vol : OsdDaemonInfo) (p : Pick)
        → Q p
        → Q (pick_own env k host h used osd found vol p))
      (lock : (p : Pick) (devs : List String) → Q p → Q (pick_locked devs p)) where
    volume-keeps :
        (wanted osd : String) (vol : OsdDaemonInfo) (p : Pick)
        → Q p
        → Q (pick_volume env k host h used known items wanted osd vol p)
    unfolding pick_volume
    volume-keeps wanted osd vol p q =
        if_ind Q (wanted == osd) (if_ind Q _ (own wanted _ vol p q) (lock p _ q))
          (if_ind Q (any (is_item osd) items) q (lock p _ q))

    volumes-keeps :
        (wanted osd : String) (vols : List OsdDaemonInfo) (p : Pick)
        → Q p
        → Q (pick_volumes env k host h used known items wanted osd vols p)
    unfolding pick_volumes
    volumes-keeps wanted osd [] p q = q
    volumes-keeps wanted osd (vol ∷ vols) p q =
        volumes-keeps wanted osd vols _ (volume-keeps wanted osd vol p q)

    osds-keeps :
        (wanted : String) (report : Assoc (List OsdDaemonInfo)) (p : Pick)
        → Q p
        → Q (pick_osds env k host h used known items wanted report p)
    unfolding pick_osds
    osds-keeps wanted [] p q = q
    osds-keeps wanted ((osd, vols) ∷ more) p q =
        osds-keeps wanted more _ (volumes-keeps wanted osd vols p q)

  -- The denial by a blocked volume.
  own-denies :
      (osd : String) (found : InSpec) (vol : OsdDaemonInfo) (p : Pick)
      → is_block_use found ≡ true
      → (pick_own env k host h used osd found vol p).allow ≡ false
  unfolding pick_own
  own-denies osd none vol p b = absurd (false≢true b)
  own-denies osd (some (name, type)) vol p b = rw b refl

  volume-denies :
      (osd : String) (vol : OsdDaemonInfo) (p : Pick)
      → is_blocked osd vol ≡ true
      → (pick_volume env k host h used known items osd osd vol p).allow ≡ false
  unfolding pick_volume
  volume-denies osd vol p b =
      let (both, blocks) = and_true (h.in_spec && check_from_crush k known osd vol) _ b in
      let (stored, own) = and_true h.in_spec (check_from_crush k known osd vol) both in
      rw ((eq_iff osd osd).1 refl, own)
        (own-denies osd _ vol p (
          if_cases (λ found. is_block_use found ≡ true) h.in_spec (λ _. blocks)
            (λ other. absurd (false≢true (sym other ∙ stored)))))

  -- What a denial looks like when the loops are done.
  abbrev IsDenied : Pick → Type 0
  IsDenied p = p.allow ≡ false

  volumes-denies :
      (osd : String) (vols : List OsdDaemonInfo) (p : Pick)
      → any (is_blocked osd) vols ≡ true
      → IsDenied (pick_volumes env k host h used known items osd osd vols p)
  unfolding pick_volumes
  volumes-denies osd [] p b = absurd (false≢true b)
  volumes-denies osd (vol ∷ vols) p b = elim (Bool-cases (is_blocked osd vol)) [
    | inl e ↦
        volumes-keeps IsDenied own-allow (λ q devs d. d) osd osd vols _ (volume-denies osd vol p e)
    | inr e ↦ volumes-denies osd vols _ (rest e)
  ]
    where
      rest : is_blocked osd vol ≡ false → any (is_blocked osd) vols ≡ true
      rest e = subst (λ x. x || any (is_blocked osd) vols ≡ true) e b

  osds-denies :
      (osd : String) (report : Assoc (List OsdDaemonInfo)) (p : Pick) (vols : List OsdDaemonInfo)
      → lookup osd report ≡ some vols
      → any (is_blocked osd) vols ≡ true
      → IsDenied (pick_osds env k host h used known items osd report p)
  unfolding pick_osds lookup
  osds-denies osd [] p vols e b =
      absurd (false≢true (ap (λ o. elim o [ none ↦ false | some _ ↦ true ]) e))
  osds-denies osd ((name, found) ∷ more) p vols e b = elim (Bool-cases (name == osd)) [
    | inl same ↦ osds-keeps IsDenied own-allow (λ q devs d. d) osd more _ (first same)
    | inr other ↦ osds-denies osd more _ vols (later other) b
  ]
    where
      later : (name == osd) ≡ false → lookup osd more ≡ some vols
      later other = ground arith

      held : (name == osd) ≡ true → found ≡ vols
      held same =
          ap (λ o. elim o [ none ↦ found | some vs ↦ vs ])
            (ap (λ x. if x then some found else lookup osd more) (sym same) ∙ e)

      first :
          (name == osd) ≡ true
          → IsDenied (pick_volumes env k host h used known items osd name found p)
      first same =
          subst (λ n. IsDenied (pick_volumes env k host h used known items osd n found p))
            (sym ((eq_iff name osd).0 same))
            (volumes-denies osd found p
              (subst (λ vs. any (is_blocked osd) vs ≡ true) (sym (held same)) b))

  -- An OSD to remove by its id is not planned, if a volume of it on the host has its block device
  -- in the spec: what is planned stays as it was.
  pub clean_osd-denied :
      (report : Assoc (List OsdDaemonInfo)) (item : OsdCleanupSpec) (s : Scan)
      (vols : List OsdDaemonInfo)
      → lookup (show_nat item.id) report ≡ some vols
      → any (is_blocked (show_nat item.id)) vols ≡ true
      → (clean_osd env k host h used known items report item s).osds ≡ s.osds
  unfolding clean_osd plan_picked
  clean_osd-denied report item s vols e b =
      if_ind (λ (r : Scan). r.osds ≡ s.osds) (has_key (show_nat item.id) known)
        (rw (osds-denies (show_nat item.id) report _ vols e b) (
          osds-keeps (λ p. p.scan.osds ≡ s.osds) (λ osd found vol p q. own-osds osd found vol p ∙ q)
            (λ p devs q. q) (show_nat item.id) report _ refl))
        refl
