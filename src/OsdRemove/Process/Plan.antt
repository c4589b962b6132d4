-- ===== src/OsdRemove/Process/Plan.antt =====
-- The cleanup map without the statuses: what the validation has planned.
use pelagia.Prelude.{
  ◌≡◌, refl, ap, String, none, [], ◌∷◌, Assoc, adjust, Bool-cases, inl, inr, ◌==◌,
}
use pelagia.Task.{RemoveResult, OsdMapping, HostMapping, TaskRemoveInfo}
use pelagia.OsdRemove.Process.Collect.{
  HostOsdPair, classify, classify_osds, classify_hosts, on_result, on_osd, update,
}

abbrev pub erase_osd : OsdMapping → OsdMapping
erase_osd m = record m { remove_status = none }

abbrev pub erase_osds : Assoc OsdMapping → Assoc OsdMapping
erase_osds [] = []
erase_osds ((id, m) ∷ osds) = (id, erase_osd m) ∷ erase_osds osds

abbrev pub erase_host : HostMapping → HostMapping
erase_host h = record h { osd_mapping = erase_osds h.osd_mapping; host_remove_status = none }

abbrev pub erase_hosts : Assoc HostMapping → Assoc HostMapping
erase_hosts [] = []
erase_hosts ((host, h) ∷ hosts) = (host, erase_host h) ∷ erase_hosts hosts

-- What is planned: the cleanup map with no status.
abbrev pub planned : TaskRemoveInfo → Assoc HostMapping
planned info = erase_hosts info.cleanup_map

erase_osds-adjust :
    (id : String) (f : RemoveResult → RemoveResult) (osds : Assoc OsdMapping)
    → erase_osds (adjust id (on_result f) osds) ≡ erase_osds osds
unfolding adjust
erase_osds-adjust id f [] = refl
erase_osds-adjust id f ((j, m) ∷ osds) = elim (Bool-cases (j == id)) [
  | inl hit ↦ rw hit refl
  | inr miss ↦ rw miss (ap (λ rest. (j, erase_osd m) ∷ rest) (erase_osds-adjust id f osds))
]

pub erase_hosts-adjust :
    (host : String) (g : HostMapping → HostMapping)
    → ((h : HostMapping) → erase_host (g h) ≡ erase_host h)
    → (hosts : Assoc HostMapping) → erase_hosts (adjust host g hosts) ≡ erase_hosts hosts
unfolding adjust
erase_hosts-adjust host g same [] = refl
erase_hosts-adjust host g same ((j, h) ∷ hosts) = elim (Bool-cases (j == host)) [
  | inl hit ↦ rw hit (ap (λ x. (j, x) ∷ erase_hosts hosts) (same h))
  | inr miss ↦
      rw miss (ap (λ rest. (j, erase_host h) ∷ rest) (erase_hosts-adjust host g same hosts))
]

-- A write of a status changes nothing of the plan.
pub planned-update :
    (pair : HostOsdPair) (f : RemoveResult → RemoveResult) (info : TaskRemoveInfo)
    → planned (update pair f info) ≡ planned info
unfolding update
planned-update pair f info =
    erase_hosts-adjust pair.host (on_osd pair.osd_id f)
      (λ h.
        ap (λ osds. record h { osd_mapping = osds; host_remove_status = none })
          (erase_osds-adjust pair.osd_id f h.osd_mapping))
      info.cleanup_map

erase_osds-classify :
    (host : String) (osds : Assoc OsdMapping)
    → erase_osds (classify_osds host osds) ≡ erase_osds osds
unfolding classify_osds classify
erase_osds-classify host [] = refl
erase_osds-classify host ((id, m) ∷ osds) =
    ap (λ rest. (id, erase_osd m) ∷ rest) (erase_osds-classify host osds)

pub erase_hosts-classify :
    (hosts : Assoc HostMapping) → erase_hosts (classify_hosts hosts) ≡ erase_hosts hosts
unfolding classify_hosts
erase_hosts-classify [] = refl
erase_hosts-classify ((host, h) ∷ hosts) =
    rw (erase_osds-classify host h.osd_mapping)
      (ap (λ rest. (host, erase_host h) ∷ rest) (erase_hosts-classify hosts))
