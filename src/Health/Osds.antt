-- ===== src/Health/Osds.antt =====
-- getOsdClusterDetails of pkg/controller/health/spec_osd_verification.go: what Ceph knows of the
-- OSDs, by host.
pub mod Index
use pelagia.Prelude.{
  ℕ, suc, String, Bool, false, not, Option, none, some, List, [], ◌∷◌, Assoc, insert, lookup_or,
  length, get_elem?, get_last?, split, sprint, show_nat, has_prefix, nat_eq, ◌==◌, if◌then◌else◌,
}
use pelagia.Common.Objects.{OsdInfo, OsdMetadataInfo}
use pelagia.OsdRemove.Config.{stray_osd_node_marker}
use pelagia.Common.World.{Env, M, Result, ok, ◌>>=◌, pure, and_then, run_and_parse}

-- `osdDetails`
pub record OsdDetails : Type 0 where
  pub cluster_fsid : String
  pub device_name : String
  pub device_by_id : String
  pub device_by_path : String
  pub block_partition : String
  pub meta_device_name : String
  pub meta_device_by_id : String
  pub meta_device_by_path : String
  pub meta_partition : String
  pub uuid : String
  pub up : Bool
  pub in_cluster : Bool

-- `nodeDetails`
abbrev pub NodeDetails : Type 0
NodeDetails = Assoc OsdDetails

-- The search of the list for the id.
unfoldable pub find_info : ℕ → List OsdInfo → Option OsdInfo
find_info id [] = none
find_info id (info ∷ infos) = if nat_eq id info.osd_id then some info else find_info id infos

-- The entry at the index of the metadata, if it has the id of the OSD.
unfoldable pub info_at : ℕ → ℕ → List OsdInfo → Option OsdInfo
info_at idx id infos = elim (get_elem? infos idx) [
  | none ↦ none
  | some info ↦ if nat_eq id info.osd_id then some info else none
]

-- The state of an OSD: by the index where both lists have one length, or else by the search.
unfoldable pub osd_info_of : (count idx id : ℕ) → List OsdInfo → Option OsdInfo
osd_info_of count idx id infos =
    if nat_eq count (length infos)
    then elim (info_at idx id infos) [ none ↦ find_info id infos | some info ↦ some info ]
    else find_info id infos

-- `strings.Split(s, ",")[0]`
abbrev first_of : String → String
first_of s = elim (split b',' s) [ [] ↦ "" | x ∷ _ ↦ x ]

-- What stands behind the last `=`.
abbrev last_of : String → String
last_of s = elim (get_last? (split b'=' s)) [ none ↦ "" | some x ↦ x ]

-- The entries for the device and for the metadata device.
unfoldable pub pick_links : (device meta : String) → List String → String × String → String × String
pick_links device meta [] found = found
pick_links device meta (entry ∷ entries) (own, other) = pick_links device meta entries (
    if has_prefix entry device
    then (last_of entry, other)
    else if has_prefix entry meta
    then (own, last_of entry)
    else (own, other))

abbrev is_set : ℕ → Bool
is_set n = not (nat_eq n 0)

unfoldable pub details_of : String → OsdMetadataInfo → Option OsdInfo → OsdDetails
details_of fsid m info =
    let device = first_of m.bluestore_devices in
    let meta = first_of m.metadata_devices in
    let ids = pick_links device meta (split b',' m.device_ids) ("", "") in
    let paths = pick_links device meta (split b',' m.device_pathes) ("", "") in
    record {
      cluster_fsid = fsid;
      device_name = device;
      device_by_id = ids.0;
      device_by_path = paths.0;
      block_partition = m.bluestore_partition;
      meta_device_name = meta;
      meta_device_by_id = ids.1;
      meta_device_by_path = paths.1;
      meta_partition = m.metadata_partition;
      uuid = elim info [ none ↦ "" | some i ↦ i.uuid ];
      up = elim info [ none ↦ false | some i ↦ is_set i.up ];
      in_cluster = elim info [ none ↦ false | some i ↦ is_set i.in_cluster ];
    }

abbrev pub host_of : OsdMetadataInfo → String
host_of m = if m.hostname == "" then stray_osd_node_marker else m.hostname

unfoldable pub osd_name : ℕ → String
osd_name id = sprint ("osd." ∷ show_nat id ∷ [])

abbrev no_osds : NodeDetails
no_osds = []

-- The loop over the metadata, from an index on.
unfoldable pub collect_details :
    String → ℕ → List OsdInfo → ℕ → List OsdMetadataInfo → Assoc NodeDetails → Assoc NodeDetails
unfolding osd_info_of details_of osd_name
collect_details fsid count infos idx [] hosts = hosts
collect_details fsid count infos idx (m ∷ metas) hosts =
    collect_details fsid count infos (suc idx) metas (
      insert (host_of m)
        (insert (osd_name m.osd_id) (details_of fsid m (osd_info_of count idx m.osd_id infos))
          (lookup_or no_osds (host_of m) hosts))
        hosts)

-- `getOsdClusterDetails`
module _ (env : Env) (fsid : String) where
  unfoldable pub get_osd_cluster_details : M (Result (Assoc NodeDetails))
  unfolding collect_details run_and_parse
  get_osd_cluster_details = do
    metas ← run_and_parse env env.unmarshal_osd_metadata "ceph osd metadata -f json"
    and_then metas λ ms. do
      infos ← run_and_parse env env.unmarshal_osds_info "ceph osd info -f json"
      and_then infos (λ is. pure (ok (collect_details fsid (length ms) is 0 ms [])))
