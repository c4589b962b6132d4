-- ===== src/OsdRemove/Process/Count.antt =====
-- How many OSDs of a cleanup map are in a phase, and how a write to one OSD changes the number.
use pelagia.Prelude.{
  ℕ, ◌+◌, ◌≤◌, ◌≡◌, refl, subst, ap, String, true, false, Option, none, some, [], ◌∷◌, arith,
  lookup, adjust, Assoc, ◌==◌, Bool-cases, inl, inr, if◌then◌else◌,
}
use pelagia.Task.{RemovePhase, RemoveResult, OsdMapping, HostMapping, TaskRemoveInfo, same_phase}
use pelagia.OsdRemove.Jobs.Run.{osd_at, result_of}
use pelagia.OsdRemove.Process.Collect.{
  HostOsdPair, phase_of, on_result, on_osd, update, osd_of, host_in, host_at,
}

-- One if the OSD is in the phase.
abbrev pub weight : RemovePhase → Option RemovePhase → ℕ
weight q none = 0
weight q (some p) = if same_phase p q then 1 else 0

unfoldable pub count_osds : RemovePhase → Assoc OsdMapping → ℕ
count_osds q [] = 0
count_osds q ((id, m) ∷ osds) = weight q (phase_of m) + count_osds q osds

unfoldable pub count_hosts : RemovePhase → Assoc HostMapping → ℕ
unfolding count_osds
count_hosts q [] = 0
count_hosts q ((host, h) ∷ hosts) = count_osds q h.osd_mapping + count_hosts q hosts

abbrev pub count_in : RemovePhase → TaskRemoveInfo → ℕ
count_in q info = count_hosts q info.cleanup_map

module _ (id j : String) (m : OsdMapping) (osds : Assoc OsdMapping) where
  osd_at_hit : (j == id) ≡ true → osd_at id ((j, m) ∷ osds) ≡ m
  unfolding lookup
  osd_at_hit e = ground arith

  osd_at_miss : (j == id) ≡ false → osd_at id ((j, m) ∷ osds) ≡ osd_at id osds
  unfolding lookup
  osd_at_miss e = ground arith

module _ (host j : String) (h : HostMapping) (hosts : Assoc HostMapping) where
  host_in_hit : (j == host) ≡ true → host_in host ((j, h) ∷ hosts) ≡ h
  unfolding lookup
  host_in_hit e = ground arith

  host_in_miss : (j == host) ≡ false → host_in host ((j, h) ∷ hosts) ≡ host_in host hosts
  unfolding lookup
  host_in_miss e = ground arith

module _ (q : RemovePhase) (f : RemoveResult → RemoveResult) where
  -- The weight of an OSD after the write.
  abbrev pub new_weight : OsdMapping → ℕ
  new_weight m = weight q (phase_of (on_result f m))

  -- The write adds at most `n` to what the OSD counts for.
  abbrev Rises : ℕ → OsdMapping → Type 0
  Rises n m = new_weight m ≤ n + weight q (phase_of m)

  count_osds-adjust-le :
      (id : String) (osds : Assoc OsdMapping) (n : ℕ)
      → Rises n (osd_at id osds)
      → count_osds q (adjust id (on_result f) osds) ≤ n + count_osds q osds
  unfolding count_osds adjust lookup
  count_osds-adjust-le id [] n h = omega arith
  count_osds-adjust-le id ((j, m) ∷ osds) n h = elim (Bool-cases (j == id)) [
    | inl hit ↦ rw hit (omega (arith, subst (Rises n) (osd_at_hit id j m osds hit) h))
    | inr miss ↦ rw miss (
        omega (
          arith,
          count_osds-adjust-le id osds n (subst (Rises n) (osd_at_miss id j m osds miss) h),
        ))
  ]

  count_hosts-adjust-le :
      (host id : String) (hosts : Assoc HostMapping) (n : ℕ)
      → Rises n (osd_at id (host_in host hosts).osd_mapping)
      → count_hosts q (adjust host (on_osd id f) hosts) ≤ n + count_hosts q hosts
  unfolding count_hosts adjust lookup
  count_hosts-adjust-le host id [] n r = omega arith
  count_hosts-adjust-le host id ((j, h) ∷ hosts) n r = elim (Bool-cases (j == host)) [
    | inl hit ↦ rw hit (
        omega (
          arith,
          count_osds-adjust-le id h.osd_mapping n
              (subst (λ x. Rises n (osd_at id x.osd_mapping)) (host_in_hit host j h hosts hit) r),
        ))
    | inr miss ↦ rw miss (
        omega (
          arith,
          count_hosts-adjust-le host id hosts n
              (subst (λ x. Rises n (osd_at id x.osd_mapping)) (host_in_miss host j h hosts miss) r),
        ))
  ]

  -- A write adds at most what its OSD counts for more than before.
  pub count-update-le :
      (pair : HostOsdPair) (info : TaskRemoveInfo) (n : ℕ)
      → Rises n (osd_of pair info)
      → count_in q (update pair f info) ≤ n + count_in q info
  unfolding update osd_of host_at
  count-update-le pair info n r = count_hosts-adjust-le pair.host pair.osd_id info.cleanup_map n r

module _ (q : RemovePhase) (f : RemoveResult → RemoveResult)
    (same : (r : RemoveResult) → (f r).osd_remove_status ≡ r.osd_remove_status) where
  phase_of-on_result : (m : OsdMapping) → phase_of (on_result f m) ≡ phase_of m
  phase_of-on_result m = rw (same (result_of m))

  count_osds-adjust-eq :
      (id : String) (osds : Assoc OsdMapping)
      → count_osds q (adjust id (on_result f) osds) ≡ count_osds q osds
  unfolding count_osds adjust
  count_osds-adjust-eq id [] = refl
  count_osds-adjust-eq id ((j, m) ∷ osds) = elim (Bool-cases (j == id)) [
    | inl hit ↦ rw hit (ap (λ p. weight q p + count_osds q osds) (phase_of-on_result m))
    | inr miss ↦ rw miss (ap (λ n. weight q (phase_of m) + n) (count_osds-adjust-eq id osds))
  ]

  count_hosts-adjust-eq :
      (host id : String) (hosts : Assoc HostMapping)
      → count_hosts q (adjust host (on_osd id f) hosts) ≡ count_hosts q hosts
  unfolding count_hosts adjust
  count_hosts-adjust-eq host id [] = refl
  count_hosts-adjust-eq host id ((j, h) ∷ hosts) = elim (Bool-cases (j == host)) [
    | inl hit ↦ rw hit (ap (λ n. n + count_hosts q hosts) (count_osds-adjust-eq id h.osd_mapping))
    | inr miss ↦
        rw miss (ap (λ n. count_osds q h.osd_mapping + n) (count_hosts-adjust-eq host id hosts))
  ]

  -- A write that leaves the remove status of the OSD alone changes no number.
  pub count-update-eq :
      (pair : HostOsdPair) (info : TaskRemoveInfo)
      → count_in q (update pair f info) ≡ count_in q info
  unfolding update
  count-update-eq pair info = count_hosts-adjust-eq pair.host pair.osd_id info.cleanup_map
