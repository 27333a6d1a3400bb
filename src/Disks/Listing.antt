-- ===== src/Disks/Listing.antt =====
-- The list of the disks of a host, with its filters: the command of
-- cli/pkg/cmd/nixos/hardware/disks/nixosHardwareDisks.go up to the output format. The configured disks are a
-- map, in the order in which Go happens to give its entries.
use becloudless.Prelude.{
  ℕ, String, Bool, false, not, ◌&&◌, ◌||◌, Option, none, some, List, [], ◌∷◌, ◌++◌, ◌==◌, ◌&◌,
  if◌then◌else◌, Outcome, ok, or_fail, ◌>>=◌, contains, Dict, lookup, split_on, trim_space,
  has_prefix,
}
use becloudless.Disks.{LsblkNode}
use becloudless.Disks.Devices.{
  Answer, BlockDevice, BlockDevices, canonical_device, find, related_chain, physical_device_names,
}

-- `bcl.DeviceConfig`
pub record DeviceConfig : Type 0 where
  pub path : String
  pub location : String

-- `deviceInfo`
pub record DeviceInfo : Type 0 where
  pub paths : List String
  pub size : String
  pub location : String

-- `diskInfo`
pub record DiskInfo : Type 0 where
  pub name : String
  pub status : String
  pub path : String
  pub devices : List DeviceInfo

pub data DisksError : Type 0 where
  invalid_status : String → DisksError
  no_devices : DisksError
  no_mount_point : String → DisksError
  no_source : String → DisksError
  -- a loop of `relatedChain` that has not ended
  endless : DisksError

abbrev pub Disks : Type 0
Disks = Dict (List DeviceConfig)

-- `mergePaths`
unfoldable pub merge_paths : List String → List String → List String
unfolding contains
merge_paths seen [] = []
merge_paths seen (p ∷ paths) =
    let skip = merge_paths seen paths in
    let keep = merge_paths (p ∷ seen) paths in if p == "" || contains seen p then skip else p ∷ keep

abbrev pub first_with_prefix : String → List String → Option String
first_with_prefix prefix [] = none
first_with_prefix prefix (link ∷ links) =
    if has_prefix link prefix then some link else first_with_prefix prefix links

abbrev pub or_link : Option String → Option String → Option String
or_link none more = more
or_link (some link) more = some link

abbrev pub first_link : List String → Option String
first_link [] = none
first_link (link ∷ links) = some link

-- the link that is preferred: by the prefixes in their order, then the first one
unfoldable pub preferred_link : List String → Option String
unfolding has_prefix
preferred_link links = or_link (first_with_prefix "ata-" links) (
    or_link (first_with_prefix "nvme-" links)
      (or_link (first_with_prefix "scsi-" links) (first_link links)))

abbrev pub link_path : Option String → String → String
link_path none device_name = device_name
link_path (some link) device_name = "/dev/disk/by-id/" & link

module _ (run : Answer) where
  -- the links that point to the device
  unfoldable pub links_to : String → List String → List String
  unfolding canonical_device
  links_to target [] = []
  links_to target (name ∷ names) =
      let rest = links_to target names in
      if not (name == "") && canonical_device run ("/dev/disk/by-id/" & name) == target
      then name ∷ rest
      else rest

  -- `byIDPath`
  unfoldable pub by_id_path : String → String
  unfolding links_to preferred_link split_on trim_space canonical_device
  by_id_path device_name = elim (run ("ls" ∷ "-1" ∷ "/dev/disk/by-id" ∷ [])) [
    | none ↦ device_name
    | some out ↦
        link_path
          (preferred_link
            (links_to (canonical_device run device_name) (split_on "\n" (trim_space out))))
          device_name
  ]

  -- `deviceSize`
  unfoldable pub device_size : String → String
  unfolding trim_space
  device_size device_name = elim (run ("lsblk" ∷ "-dno" ∷ "SIZE" ∷ device_name ∷ [])) [
    | none ↦ ""
    | some out ↦ trim_space out
  ]

  -- `deviceInfoForPhysicalName`
  unfoldable pub device_info_for_physical_name : List DeviceConfig → String → DeviceInfo
  unfolding by_id_path device_size merge_paths canonical_device
  device_info_for_physical_name [] device_name = record {
    paths = merge_paths [] (by_id_path device_name ∷ device_name ∷ []);
    size = device_size device_name;
    location = "";
  }
  device_info_for_physical_name (device ∷ devices) device_name =
      if canonical_device run device.path == device_name
      then record {
        paths = merge_paths [] (device.path ∷ device_name ∷ []);
        size = device_size device_name;
        location = device.location;
      }
      else device_info_for_physical_name devices device_name

  -- `deviceInfoFromConfig`
  unfoldable pub device_info_from_config : DeviceConfig → DeviceInfo
  unfolding device_size merge_paths canonical_device
  device_info_from_config device = record {
    paths = merge_paths [] (device.path ∷ canonical_device run device.path ∷ []);
    size = device_size device.path;
    location = device.location;
  }

  abbrev pub any_device : List String → List DeviceConfig → Bool
  any_device names [] = false
  any_device names (device ∷ devices) =
      contains names (canonical_device run device.path) || any_device names devices

  -- `findDiskByChain`
  unfoldable pub find_disk_by_chain : Disks → List String → Option String
  unfolding contains canonical_device
  find_disk_by_chain [] names = none
  find_disk_by_chain ((name, devices) ∷ disks) names =
      let rest = find_disk_by_chain disks names in
      if any_device names devices then some name else rest

abbrev pub chain_names : List BlockDevice → List String
chain_names [] = []
chain_names (d ∷ chain) = d.name ∷ chain_names chain

abbrev pub before_bracket : List String → String
before_bracket [] = ""
before_bracket (s ∷ list) = s

module _ (run : Answer) (steps : ℕ) where
  abbrev pub chain_of : BlockDevices → String → Outcome DisksError (List BlockDevice)
  chain_of g name = or_fail endless (related_chain g.graph steps name)

  abbrev pub physical_names : BlockDevices → Option LsblkNode → Outcome DisksError (List String)
  physical_names g none = ok []
  physical_names g (some node) = chain_of g node.name >>= λ chain. ok (physical_device_names chain)

  -- the devices of a configured disk
  unfoldable pub names_of_devices :
      BlockDevices → List DeviceConfig → Outcome DisksError (List String)
  unfolding find related_chain physical_device_names
  names_of_devices g [] = ok []
  names_of_devices g (device ∷ devices) = physical_names g (find run g device.path) >>= λ names.
      names_of_devices g devices >>= λ rest. ok (names ++ rest)

  -- the source of a mount point, without the part in brackets
  unfoldable pub mount_filter : BlockDevices → String → Outcome DisksError (String × List String)
  unfolding find trim_space split_on related_chain physical_device_names
  mount_filter g arg =
      or_fail (no_mount_point arg)
        (run ("findmnt" ∷ "-n" ∷ "-o" ∷ "TARGET" ∷ "--target" ∷ arg ∷ []))
      >>= λ out.
          or_fail (no_source (trim_space out))
            (run ("findmnt" ∷ "-n" ∷ "-o" ∷ "SOURCE" ∷ "--target" ∷ trim_space out ∷ []))
          >>= λ source.
              physical_names g (find run g (before_bracket (split_on "[" (trim_space source))))
              >>= λ names. ok ("", names)

  abbrev pub device_filter :
      BlockDevices → String → Option LsblkNode → Outcome DisksError (String × List String)
  device_filter g arg none = mount_filter g arg
  device_filter g arg (some node) = physical_names g (some node) >>= λ names. ok ("", names)

  -- `resolveArgFilter`
  unfoldable pub resolve_arg_filter :
      Disks → BlockDevices → String → Outcome DisksError (String × List String)
  unfolding names_of_devices mount_filter find lookup
  resolve_arg_filter disks g arg = elim (lookup arg disks) [
    | some devices ↦ names_of_devices g devices >>= λ names. ok (arg, names)
    | none ↦ device_filter g arg (find run g arg)
  ]

  -- the loop over the arguments: the names of disks and of physical devices
  unfoldable pub filters_of :
      Disks → BlockDevices → List String → Outcome DisksError (List String × List String)
  unfolding resolve_arg_filter
  filters_of disks g [] = ok ([], [])
  filters_of disks g (arg ∷ args) = resolve_arg_filter disks g arg >>= λ (disk_name, names).
      filters_of disks g args >>= λ (disk_names, physical).
      ok (if disk_name == "" then disk_names else disk_name ∷ disk_names, names ++ physical)
