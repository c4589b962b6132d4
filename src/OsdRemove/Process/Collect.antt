-- ===== src/OsdRemove/Process/Collect.antt =====
-- The first loop of `processOsdRemoveTask`: the requests by phase, and the hosts to remove.
use pelagia.Prelude.{
  ℕ, suc, String, Bool, true, false, ◌&&◌, ◌||◌, ◌++◌, Option, none, some, List, [], ◌∷◌, ◌==◌,
  lookup, adjust, Assoc, nat_eq, if◌then◌else◌,
}
use pelagia.Task.{
  RemovePhase, pending, in_progress, stray, finished, skipped, RemoveStatus, RemoveResult,
  OsdMapping, HostMapping, TaskRemoveInfo, with_status, same_phase, no_result, no_host,
}
use pelagia.OsdRemove.Config.{is_stray_osd_id, stray_osd_node_marker}
use pelagia.OsdRemove.Jobs.Run.{osd_at, result_of}

-- `hostOsdPair`
pub record HostOsdPair : Type 0 where
  pub host : String
  pub osd_id : String

-- `reqMap`: its entries in the order in which they are appended.
abbrev pub Requests : Type 0
Requests = List (RemovePhase × HostOsdPair)

-- `reqMap[phase]`
unfoldable pub bucket : RemovePhase → Requests → List HostOsdPair
bucket phase [] = []
bucket phase ((p, pair) ∷ reqs) =
    if same_phase p phase then pair ∷ bucket phase reqs else bucket phase reqs

-- The phase that an OSD without a remove status starts in.
unfoldable pub first_phase : String → String → OsdMapping → RemovePhase
first_phase host id m =
    if is_stray_osd_id id || host == stray_osd_node_marker
    then (if m.in_crush_map then in_progress else stray)
    else pending

abbrev pub start_result : RemovePhase → RemoveResult
start_result phase = record no_result { osd_remove_status = some (with_status phase) }

-- The mapping with a first status, if it had none.
abbrev pub classify_status : RemovePhase → Option RemoveResult → RemoveResult
classify_status first none = start_result first
classify_status first (some r) = r

unfoldable pub classify : String → String → OsdMapping → OsdMapping
classify host id m = record m {
  remove_status = some (classify_status (first_phase host id m) m.remove_status);
}

-- A skipped OSD waits in the bucket of the finished ones.
abbrev pub bucket_phase : RemovePhase → RemovePhase
bucket_phase skipped = finished
bucket_phase p = p

abbrev pub phase_of : OsdMapping → Option RemovePhase
phase_of m = elim (result_of m).osd_remove_status [ none ↦ none | some s ↦ some s.status ]

-- The request of an OSD that has its status.
abbrev pub request : String → String → Option RemovePhase → Requests
request host id none = []
request host id (some p) = (bucket_phase p, record { host = host; osd_id = id }) ∷ []

unfoldable pub classify_osds : String → Assoc OsdMapping → Assoc OsdMapping
classify_osds host [] = []
classify_osds host ((id, m) ∷ osds) = (id, classify host id m) ∷ classify_osds host osds

unfoldable pub host_requests : String → Assoc OsdMapping → Requests
host_requests host [] = []
host_requests host ((id, m) ∷ osds) =
    request host id (phase_of (classify host id m)) ++ host_requests host osds

-- The OSD was removed, or needed no removal, in an earlier pass.
abbrev pub is_removed : OsdMapping → Bool
is_removed m = elim (phase_of m) [
  | none ↦ false
  | some p ↦ same_phase p finished || same_phase p skipped
]

-- `osdsNotCompleted`
unfoldable pub count_not_completed : Assoc OsdMapping → ℕ
count_not_completed [] = 0
count_not_completed ((id, m) ∷ osds) =
    if is_removed m then count_not_completed osds else suc (count_not_completed osds)

abbrev pub is_unset : Option RemoveStatus → Bool
is_unset none = true
is_unset (some _) = false

-- The host is marked for removal and all of its OSDs were removed.
unfoldable pub is_host_to_remove : HostMapping → Bool
is_host_to_remove h =
    (h.complete_cleanup || h.drop_from_crush)
    && nat_eq (count_not_completed h.osd_mapping) 0
    && is_unset h.host_remove_status

unfoldable pub classify_hosts : Assoc HostMapping → Assoc HostMapping
classify_hosts [] = []
classify_hosts ((host, h) ∷ hosts) =
    (host, record h { osd_mapping = classify_osds host h.osd_mapping }) ∷ classify_hosts hosts

unfoldable pub requests : Assoc HostMapping → Requests
requests [] = []
requests ((host, h) ∷ hosts) = host_requests host h.osd_mapping ++ requests hosts

-- `hostsToRemove`
unfoldable pub hosts_to_remove : Assoc HostMapping → List String
hosts_to_remove [] = []
hosts_to_remove ((host, h) ∷ hosts) =
    if is_host_to_remove h then host ∷ hosts_to_remove hosts else hosts_to_remove hosts

-- `newRemoveInfo.CleanupMap[host]`
abbrev pub host_in : String → Assoc HostMapping → HostMapping
host_in host hosts = elim (lookup host hosts) [ none ↦ no_host | some h ↦ h ]

unfoldable pub host_at : String → TaskRemoveInfo → HostMapping
host_at host info = host_in host info.cleanup_map

-- `newRemoveInfo.CleanupMap[pair.Host].OsdMapping[pair.OsdID]`
unfoldable pub osd_of : HostOsdPair → TaskRemoveInfo → OsdMapping
osd_of pair info = osd_at pair.osd_id (host_at pair.host info).osd_mapping

-- A write through the remove status of an OSD.
abbrev pub on_result : (RemoveResult → RemoveResult) → OsdMapping → OsdMapping
on_result f m = record m { remove_status = some (f (result_of m)) }

abbrev pub on_osd : String → (RemoveResult → RemoveResult) → HostMapping → HostMapping
on_osd id f h = record h { osd_mapping = adjust id (on_result f) h.osd_mapping }

unfoldable pub update :
    HostOsdPair → (RemoveResult → RemoveResult) → TaskRemoveInfo → TaskRemoveInfo
update pair f info = record info {
  cleanup_map = adjust pair.host (on_osd pair.osd_id f) info.cleanup_map;
}

abbrev pub set_osd : RemoveStatus → RemoveResult → RemoveResult
set_osd s r = record r { osd_remove_status = some s }

abbrev pub set_job : RemoveStatus → RemoveResult → RemoveResult
set_job s r = record r { device_cleanup_job = some s }

abbrev pub set_deployment : RemoveStatus → RemoveResult → RemoveResult
set_deployment s r = record r { deploy_remove_status = some s }
