-- ===== src/OsdRemove/Process/Reported.antt =====
-- The phases of the OSDs of a cleanup map, and the issues that name the failed ones.
use pelagia.Prelude.{
  ◌≡◌, refl, ap, subst, String, true, Option, none, some, List, [], ◌∷◌, ◌++◌, All, Assoc, adjust,
  Bool-cases, inl, inr, ◌==◌, contains, sprint, eq_iff, arith,
}
use pelagia.Task.{
  RemovePhase, failed, RemoveResult, OsdMapping, HostMapping, TaskRemoveInfo, same_phase,
}
use pelagia.OsdRemove.Process.Collect.{
  HostOsdPair, Requests, bucket, request, phase_of, classify, classify_osds, classify_hosts,
  host_requests, requests, on_result, on_osd, update,
}
use pelagia.OsdRemove.Jobs.Run.{result_of}
use pelagia.OsdRemove.Process.Finished.{node_text}
use pelagia.OsdRemove.Process.Pass.{failed_issue, failed_issues}

abbrev pub osd_phases : Assoc OsdMapping → Assoc (Option RemovePhase)
osd_phases [] = []
osd_phases ((id, m) ∷ osds) = (id, phase_of m) ∷ osd_phases osds

abbrev pub host_phases : Assoc HostMapping → Assoc (Assoc (Option RemovePhase))
host_phases [] = []
host_phases ((host, h) ∷ hosts) = (host, osd_phases h.osd_mapping) ∷ host_phases hosts

-- The issue for an OSD that has failed.
abbrev pub IsNamed : List String → (host id : String) → Option RemovePhase → Type 0
IsNamed issues host id (some failed) =
    contains issues (sprint ("[node '" ∷ host ∷ "'] " ∷ "failed to remove osd '" ∷ id ∷ "'" ∷ []))
    ≡ true
IsNamed issues host id _ = Unit

-- Each failed OSD of each host has an issue with its id and its host.
abbrev pub FailuresNamed : List String → Assoc (Assoc (Option RemovePhase)) → Type 0
FailuresNamed issues hosts = All (λ h. All (λ o. IsNamed issues h.0 o.0 o.1) h.1) hosts

module _ (f : RemoveResult → RemoveResult)
    (same : (r : RemoveResult) → (f r).osd_remove_status ≡ r.osd_remove_status) where
  osd_phases-adjust :
      (id : String) (osds : Assoc OsdMapping)
      → osd_phases (adjust id (on_result f) osds) ≡ osd_phases osds
  unfolding adjust
  osd_phases-adjust id [] = refl
  osd_phases-adjust id ((j, m) ∷ osds) = elim (Bool-cases (j == id)) [
    | inl hit ↦ rw (hit, same (result_of m)) refl
    | inr miss ↦ rw miss (ap (λ rest. (j, phase_of m) ∷ rest) (osd_phases-adjust id osds))
  ]

  host_phases-adjust :
      (host id : String) (hosts : Assoc HostMapping)
      → host_phases (adjust host (on_osd id f) hosts) ≡ host_phases hosts
  unfolding adjust
  host_phases-adjust host id [] = refl
  host_phases-adjust host id ((j, h) ∷ hosts) = elim (Bool-cases (j == host)) [
    | inl hit ↦ rw hit (ap (λ ps. (j, ps) ∷ host_phases hosts) (osd_phases-adjust id h.osd_mapping))
    | inr miss ↦
        rw miss
          (ap (λ rest. (j, osd_phases h.osd_mapping) ∷ rest) (host_phases-adjust host id hosts))
  ]

  -- A write that leaves the remove status of the OSD alone changes no phase.
  pub host_phases-update :
      (pair : HostOsdPair) (info : TaskRemoveInfo)
      → host_phases (update pair f info).cleanup_map ≡ host_phases info.cleanup_map
  unfolding update
  host_phases-update pair info = host_phases-adjust pair.host pair.osd_id info.cleanup_map

bucket-append :
    (q : RemovePhase) (xs ys : Requests) → bucket q (xs ++ ys) ≡ bucket q xs ++ bucket q ys
unfolding bucket
bucket-append q [] ys = refl
bucket-append q ((p, pair) ∷ xs) ys = elim (Bool-cases (same_phase p q)) [
  | inl e ↦ rw e (ap (λ rest. pair ∷ rest) (bucket-append q xs ys))
  | inr e ↦ rw e (bucket-append q xs ys)
]

module _ (issues : List String) where
  abbrev Holds : HostOsdPair → Type 0
  Holds pair = contains issues (failed_issue pair) ≡ true

  split_all : (xs ys : List HostOsdPair) → All Holds (xs ++ ys) → All Holds xs × All Holds ys
  split_all [] ys h = (tt, h)
  split_all (x ∷ xs) ys (p, h) = let (a, b) = split_all xs ys h in ((p, a), b)

  request-IsNamed :
      (host id : String) (o : Option RemovePhase)
      → All Holds (bucket failed (request host id o))
      → IsNamed issues host id o
  unfolding bucket failed_issue node_text
  request-IsNamed host id none h = tt
  request-IsNamed host id (some failed) h = h.0
  request-IsNamed host id (some _) h = tt

  osds-IsNamed :
      (host : String) (osds : Assoc OsdMapping)
      → All Holds (bucket failed (host_requests host osds))
      → All (λ o. IsNamed issues host o.0 o.1) (osd_phases (classify_osds host osds))
  unfolding host_requests classify_osds
  osds-IsNamed host [] h = tt
  osds-IsNamed host ((id, m) ∷ osds) h =
      let (a, b) =
        split_all (bucket failed (request host id (phase_of (classify host id m))))
          (bucket failed (host_requests host osds))
          (subst (All Holds)
            (bucket-append failed (request host id (phase_of (classify host id m)))
              (host_requests host osds))
            h) in
      (request-IsNamed host id (phase_of (classify host id m)) a, osds-IsNamed host osds b)

  pub hosts-FailuresNamed :
      (hosts : Assoc HostMapping)
      → All Holds (bucket failed (requests hosts))
      → FailuresNamed issues (host_phases (classify_hosts hosts))
  unfolding requests classify_hosts
  hosts-FailuresNamed [] h = tt
  hosts-FailuresNamed ((host, hm) ∷ hosts) h =
      let (a, b) =
        split_all (bucket failed (host_requests host hm.osd_mapping))
          (bucket failed (requests hosts))
          (subst (All Holds)
            (bucket-append failed (host_requests host hm.osd_mapping) (requests hosts)) h) in
      (osds-IsNamed host hm.osd_mapping a, hosts-FailuresNamed hosts b)

  -- The issues of the failed OSDs are among those that follow.
  pub failed_issues-All :
      (pairs : List HostOsdPair)
      → ((s : String) → contains (failed_issues pairs) s ≡ true → contains issues s ≡ true)
      → All Holds pairs
  unfolding failed_issues contains
  failed_issues-All [] h = tt
  failed_issues-All (pair ∷ pairs) h = (
    h (failed_issue pair) (rw ((eq_iff (failed_issue pair) (failed_issue pair)).1 refl) refl),
    failed_issues-All pairs (λ s e. h s (ground (arith, e))),
  )
