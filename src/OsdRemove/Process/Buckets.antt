-- ===== src/OsdRemove/Process/Buckets.antt =====
-- The buckets of `reqMap` against the numbers of OSDs in each phase.
use pelagia.Prelude.{
  ◌+◌, ◌≡◌, refl, ap, inl, inr, String, true, false, not, ◌&&◌, Option, none, some, [], ◌∷◌, ◌++◌,
  arith, Bool-cases, if_ind, is_empty, length, Assoc, if◌then◌else◌,
}
use pelagia.Task.{
  RemovePhase, pending, waiting_rebalance, failed, OsdMapping, HostMapping, same_phase,
}
use pelagia.OsdRemove.Process.Collect.{
  Requests, bucket, bucket_phase, request, phase_of, classify, classify_osds, classify_hosts,
  host_requests, requests, first_phase,
}
use pelagia.OsdRemove.Process.Pass.{admit, without_pending}
use pelagia.OsdRemove.Process.Count.{count_osds, count_hosts, weight}

-- The phases that have a bucket of their own.
abbrev pub IsPlain : RemovePhase → Type 0
IsPlain q = (p : RemovePhase) → same_phase (bucket_phase p) q ≡ same_phase p q

length-bucket-append :
    (q : RemovePhase) (xs ys : Requests)
    → length (bucket q (xs ++ ys)) ≡ length (bucket q xs) + length (bucket q ys)
unfolding bucket
length-bucket-append q [] ys = omega arith
length-bucket-append q ((p, pair) ∷ xs) ys = elim (Bool-cases (same_phase p q)) [
  | inl e ↦ rw e (omega (arith, length-bucket-append q xs ys))
  | inr e ↦ rw e (length-bucket-append q xs ys)
]

module _ (q : RemovePhase) (plain : IsPlain q) where
  length-bucket-request :
      (host id : String) (p : Option RemovePhase)
      → length (bucket q (request host id p)) ≡ weight q p
  unfolding bucket
  length-bucket-request host id none = refl
  length-bucket-request host id (some p) = elim (Bool-cases (same_phase p q)) [
    | inl e ↦ rw (plain p, e) refl
    | inr e ↦ rw (plain p, e) refl
  ]

  length-bucket-host_requests :
      (host : String) (osds : Assoc OsdMapping)
      → length (bucket q (host_requests host osds)) ≡ count_osds q (classify_osds host osds)
  unfolding host_requests classify_osds count_osds bucket
  length-bucket-host_requests host [] = refl
  length-bucket-host_requests host ((id, m) ∷ osds) = omega (
    arith,
    length-bucket-append q (request host id (phase_of (classify host id m)))
        (host_requests host osds),
    length-bucket-request host id (phase_of (classify host id m)),
    length-bucket-host_requests host osds,
  )

  -- A bucket holds as many requests as OSDs are in its phase.
  pub length-bucket-requests :
      (hosts : Assoc HostMapping)
      → length (bucket q (requests hosts)) ≡ count_hosts q (classify_hosts hosts)
  unfolding requests classify_hosts count_hosts bucket
  length-bucket-requests [] = refl
  length-bucket-requests ((host, h) ∷ hosts) = omega (
    arith,
    length-bucket-append q (host_requests host h.osd_mapping) (requests hosts),
    length-bucket-host_requests host h.osd_mapping,
    length-bucket-requests hosts,
  )

-- An OSD never starts in the phase of the rebalance.
classify-weight :
    (host id : String) (m : OsdMapping)
    → weight waiting_rebalance (phase_of (classify host id m))
      ≡ weight waiting_rebalance (phase_of m)
unfolding classify first_phase
classify-weight host id m = ground arith

count_osds-classify :
    (host : String) (osds : Assoc OsdMapping)
    → count_osds waiting_rebalance (classify_osds host osds) ≡ count_osds waiting_rebalance osds
unfolding classify_osds count_osds
count_osds-classify host [] = refl
count_osds-classify host ((id, m) ∷ osds) =
    omega (arith, classify-weight host id m, count_osds-classify host osds)

pub count_hosts-classify :
    (hosts : Assoc HostMapping)
    → count_hosts waiting_rebalance (classify_hosts hosts) ≡ count_hosts waiting_rebalance hosts
unfolding classify_hosts count_hosts
count_hosts-classify [] = refl
count_hosts-classify ((host, h) ∷ hosts) =
    omega (arith, count_osds-classify host h.osd_mapping, count_hosts-classify hosts)

same_phase-pending : (p : RemovePhase) → same_phase p pending ≡ true → p ≡ pending
same_phase-pending p h = ground arith

bucket-without_pending :
    (q : RemovePhase) (reqs : Requests)
    → same_phase pending q ≡ false
    → bucket q (without_pending reqs) ≡ bucket q reqs
unfolding bucket without_pending
bucket-without_pending q [] other = refl
bucket-without_pending q ((p, pair) ∷ reqs) other = elim (Bool-cases (same_phase p pending)) [
  | inl e ↦ rw (e, same_phase-pending p e, other) (bucket-without_pending q reqs other)
  | inr e ↦
      rw e (ap (λ b. if same_phase p q then pair ∷ b else b) (bucket-without_pending q reqs other))
]

-- Only the pending OSDs are ever dropped,
pub bucket-admit :
    (q : RemovePhase) (reqs : Requests)
    → same_phase pending q ≡ false
    → bucket q (admit reqs) ≡ bucket q reqs
unfolding admit
bucket-admit q reqs other =
    if_ind (λ rs. bucket q rs ≡ bucket q reqs)
      (not (is_empty (bucket failed reqs)) && not (is_empty (bucket pending reqs)))
      (bucket-without_pending q reqs other) refl

-- and only if an OSD has failed.
pub bucket-admit-pending :
    (reqs : Requests) → bucket failed reqs ≡ [] → bucket pending (admit reqs) ≡ bucket pending reqs
unfolding admit
bucket-admit-pending reqs e = rw e
