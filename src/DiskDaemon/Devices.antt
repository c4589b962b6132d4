-- ===== src/DiskDaemon/Devices.antt =====
-- The block devices of pkg/disk-daemon/disk_reporter.go: processLsblkInfo, findDisks and
-- diskToOsdMap. A child of a device has it as the parent that lsblk gives; the order of sort.Strings
-- is that of texts.
pub mod Maps
use Prim.Native.String
use Prim.Native.String.{String}
use pelagia.Prelude.{
  ℕ, zero, suc, Bool, true, false, Option, none, some, List, [], ◌∷◌, ◌++◌, Assoc, lookup,
  lookup_or, insert, is_empty, contains, split, sprint, show_nat, drop_prefix, sort_strings, keys,
  ◌==◌, if◌then◌else◌,
}
use pelagia.Common.Disks.{BlockDeviceInfo, DisksReport}
use pelagia.Common.World.{Error, Result, ok, err}
use pelagia.Config.Values.{trim_newline}

-- `DeviceLsblk`, less its children.
pub record LsblkDevice : Type 0 where
  pub name : String
  pub kname : String
  pub serial : String
  pub maj_min : String
  pub rotational : Bool
  pub type : String
  pub parent : String
  pub fstype : String

-- A list of devices with their children: the first one, its children, and the rest.
pub data Devices : Type 0 where
  no_more : Devices
  device : LsblkDevice → (children rest : Devices) → Devices

abbrev pub names_of : Devices → List String
names_of no_more = []
names_of (device d children rest) = d.name ∷ names_of rest

-- `strings.ReplaceAll` for a text that is not empty, with as many rounds as `s` has characters.
unfoldable pub replace_from : ℕ → (old new s : String) → String
unfolding drop_prefix
replace_from zero old new s = s
replace_from (suc fuel) old new String.[] = ""
replace_from (suc fuel) old new (String.◌∷◌ c s) = elim (drop_prefix old (String.◌∷◌ c s)) [
  | none ↦ String.◌∷◌ c (replace_from fuel old new s)
  | some rest ↦ sprint (new ∷ replace_from fuel old new rest ∷ [])
]

abbrev replace_all : (old new s : String) → String
replace_all old new s = replace_from (String.count s) old new s

-- The path of a logical volume without `/dev/mapper/`.
unfoldable pub mapper_link : String → String
unfolding replace_from
mapper_link name = replace_all "//" "-" (replace_all "-" "/" (replace_all "/mapper/" "/" name))

-- The report, and `foundLvms`.
pub record Scanned : Type 0 where
  pub block_info : Assoc BlockDeviceInfo
  pub aliases : Assoc String
  pub lvms : Assoc (List String)

unfoldable pub link_all : String → List String → Assoc String → Assoc String
link_all name [] aliases = aliases
link_all name (link ∷ links) aliases = link_all name links (insert link name aliases)

abbrev add_text : List String → String → List String
add_text texts t = if contains texts t then texts else texts ++ t ∷ []

abbrev pub with_lvm : Bool → LsblkDevice → Scanned → Scanned
with_lvm true d s = record s {
  aliases = insert (mapper_link d.name) d.name s.aliases;
  lvms = insert d.name (add_text (lookup_or [] d.name s.lvms) d.parent) s.lvms;
}
with_lvm false d s = s

abbrev block_for :
    LsblkDevice → List String → List String → Option BlockDeviceInfo → BlockDeviceInfo
block_for d symlinks children (some b) = record b { parent = add_text b.parent d.parent }
block_for d symlinks children none = record {
  kname = d.kname;
  serial = d.serial;
  type = d.type;
  fstype = d.fstype;
  rotational = d.rotational;
  maj_min = d.maj_min;
  symlinks = symlinks;
  parent = d.parent ∷ [];
  childrens = children;
}

unfoldable pub scan_device : LsblkDevice → List String → List String → Scanned → Scanned
unfolding link_all mapper_link
scan_device d links children s =
    let s₁ = with_lvm (d.type == "lvm") d (record s {
      aliases = insert d.name d.name (insert d.kname d.name (link_all d.name links s.aliases));
    }) in
    record s₁ {
      block_info =
          insert d.name (block_for d (sort_strings links) children (lookup d.name s₁.block_info))
            s₁.block_info;
    }

abbrev pub wrapped : List String → Error → Error
wrapped texts e = record e { text = sprint (sprint texts ∷ ": " ∷ e.text ∷ []) }

-- `errors.Wrap`
abbrev pub wrap_error {ℓ} : {A : Type ℓ} → List String → Result A → Result A
wrap_error texts (ok a) = ok a
wrap_error texts (err e) = err (wrapped texts e)

abbrev pub bind_result {ℓ κ} : {A : Type ℓ} {B : Type κ} → Result A → (A → Result B) → Result B
bind_result (ok a) f = f a
bind_result (err e) f = err e

module _ (udevadm : String → Result String) where
  unfoldable pub scan_links : LsblkDevice → List String → Result String → Scanned → Result Scanned
  unfolding scan_device
  scan_links d children (ok text) s = ok (scan_device d (split b' ' (trim_newline text)) children s)
  scan_links d children (err e) s =
      err (wrapped ("failed to get udevadm info for device '" ∷ d.name ∷ "'" ∷ []) e)

  -- `loopOverDevices`
  unfoldable pub loop_over_devices : Devices → Scanned → Result Scanned
  unfolding scan_links
  loop_over_devices no_more s = ok s
  loop_over_devices (device d children rest) s = elim (d.type == "loop") [
    | true ↦ loop_over_devices rest s
    | false ↦ bind_result (loop_over_devices children s) (λ s₁.
        bind_result (scan_links d (names_of children) (udevadm d.name) s₁)
          (λ s₂. loop_over_devices rest s₂))
  ]

  abbrev plain_error : String → Error
  plain_error text = record { text = text; not_found = false; no_match = false }

  unfoldable pub scan_lsblk : Devices → Result Scanned
  unfolding loop_over_devices
  scan_lsblk no_more = err (plain_error "no blockdevices found for 'lsblk' output")
  scan_lsblk (device d children rest) = wrap_error ("failed to prepare block info" ∷ []) (
      loop_over_devices (device d children rest)
        (record { block_info = []; aliases = []; lvms = [] }))

  -- `processLsblkInfo`, of what lsblk prints.
  unfoldable pub process_lsblk_info : Result Devices → Result Scanned
  unfolding scan_lsblk
  process_lsblk_info (ok devices) = scan_lsblk devices
  process_lsblk_info (err e) = err (wrapped ("failed to get lsblk info" ∷ []) e)
