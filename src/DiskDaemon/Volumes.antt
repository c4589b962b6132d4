-- ===== src/DiskDaemon/Volumes.antt =====
-- The volumes that ceph-volume lists (pkg/disk-daemon/utils.go), and `reflect.DeepEqual` of them.
use pelagia.Prelude.{
  ◌≡◌, ℕ, String, Bool, true, ◌&&◌, ◌-◌, List, [], ◌∷◌, ◌++◌, length, nat_eq, ◌==◌, if◌then◌else◌,
  arith,
}
use pelagia.DiskDaemon.Equal.{text_equal, text_equal_refl, list_equal, list_equal_refl}

-- `OsdVolumeLvmTags`
pub record LvmTags : Type 0 where
  pub block_dev : String
  pub db_device : String
  pub cluster_fsid : String
  pub osd_fsid : String

-- `OsdVolumeLvmInfo`
pub record LvmVolume : Type 0 where
  pub devices : List String
  pub lv_path : String
  pub path : String
  pub tags : LvmTags
  pub type : String

-- `OsdVolumeRawInfo`. The id of an OSD is not negative.
pub record RawVolume : Type 0 where
  pub cluster_fsid : String
  pub device : String
  pub osd_id : ℕ
  pub osd_fsid : String

unfoldable pub tags_equal : LvmTags → LvmTags → Bool
tags_equal a b =
    a.block_dev == b.block_dev
    && a.db_device == b.db_device
    && a.cluster_fsid == b.cluster_fsid
    && a.osd_fsid == b.osd_fsid

unfoldable pub lvm_equal : LvmVolume → LvmVolume → Bool
lvm_equal a b =
    list_equal text_equal a.devices b.devices
    && a.lv_path == b.lv_path
    && a.path == b.path
    && tags_equal a.tags b.tags
    && a.type == b.type

unfoldable pub raw_equal : RawVolume → RawVolume → Bool
raw_equal a b =
    a.cluster_fsid == b.cluster_fsid
    && a.device == b.device
    && nat_eq a.osd_id b.osd_id
    && a.osd_fsid == b.osd_fsid

tags_equal_refl : (t : LvmTags) → tags_equal t t ≡ true
unfolding tags_equal
tags_equal_refl t = ground (
  arith,
  text_equal_refl t.block_dev,
  text_equal_refl t.db_device,
  text_equal_refl t.cluster_fsid,
  text_equal_refl t.osd_fsid,
)

pub lvm_equal_refl : (v : LvmVolume) → lvm_equal v v ≡ true
unfolding lvm_equal
lvm_equal_refl v = ground (
  arith,
  list_equal_refl text_equal text_equal_refl v.devices,
  text_equal_refl v.lv_path,
  text_equal_refl v.path,
  tags_equal_refl v.tags,
  text_equal_refl v.type,
)

pub raw_equal_refl : (v : RawVolume) → raw_equal v v ≡ true
unfolding raw_equal
raw_equal_refl v =
    ground
      (arith, text_equal_refl v.cluster_fsid, text_equal_refl v.device, text_equal_refl v.osd_fsid)

-- `slices.Compact`
unfoldable pub compact : List String → List String
compact [] = []
compact (s ∷ []) = s ∷ []
compact (s ∷ t ∷ ss) = let rest = compact (t ∷ ss) in if s == t then rest else s ∷ rest

abbrev pub blanks : ℕ → List String
blanks ℕ.zero = []
blanks (ℕ.suc n) = "" ∷ blanks n

-- What `slices.Compact` leaves in the array of the slice that it is given.
unfoldable pub compacted_array : List String → List String
unfolding compact
compacted_array ss = compact ss ++ blanks (length ss - length (compact ss))
