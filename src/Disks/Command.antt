-- ===== src/Disks/Command.antt =====
-- The command that lists the disks: `NixosHardwareDisksCmd` of
-- cli/pkg/cmd/nixos/hardware/disks/nixosHardwareDisks.go. The output format only prints the list.
use becloudless.Prelude.{
  ℕ, String, Bool, true, not, ◌&&◌, ◌||◌, Option, none, some, List, [], ◌∷◌, ◌++◌, ◌==◌,
  if◌then◌else◌, Outcome, ok, err, or_fail, ◌>>=◌, contains, Dict, lookup, sort_strings, map,
}
use becloudless.Disks.{LsblkNode, descend_mount_point}
use becloudless.Disks.Devices.{Answer, BlockDevices, load_block_device_graph, related_chain}
use becloudless.Disks.Listing.{
  DeviceConfig, DiskInfo, DisksError, invalid_status, no_devices, Disks,
  device_info_for_physical_name, device_info_from_config, find_disk_by_chain, chain_names, chain_of,
  filters_of,
}

abbrev pub valid_disk_statuses : List String
valid_disk_statuses = "mounted" ∷ "not-mounted" ∷ "missing" ∷ []

-- the first status that is not valid
abbrev pub first_invalid : List String → Option String
first_invalid [] = none
first_invalid (status ∷ filter) =
    if contains valid_disk_statuses status then first_invalid filter else some status

-- a disk of the machine, but for what the network attaches
abbrev pub is_physical : LsblkNode → Bool
is_physical node = node.device_type == "disk" && not (node.tran == "iscsi")

unfoldable pub physical_nodes : Dict LsblkNode → List String
physical_nodes [] = []
physical_nodes ((name, node) ∷ by_name) =
    let rest = physical_nodes by_name in if is_physical node then name ∷ rest else rest

abbrev pub devices_or_none : Option (List DeviceConfig) → List DeviceConfig
devices_or_none none = []
devices_or_none (some devices) = devices

abbrev pub configured : Disks → Option String → List DeviceConfig
configured disks none = []
configured disks (some name) = devices_or_none (lookup name disks)

abbrev pub name_or_empty : Option String → String
name_or_empty none = ""
name_or_empty (some name) = name

abbrev pub names_of : Disks → List String
names_of [] = []
names_of ((name, devices) ∷ disks) = name ∷ names_of disks

-- the keys that are not in a list
unfoldable pub without : List String → List String → List String
without names [] = []
without names (name ∷ list) =
    let rest = without names list in if contains names name then rest else name ∷ rest

module _ (run : Answer) (steps : ℕ) (disks : Disks) (g : BlockDevices) where
  abbrev pub status_of : Option String → String
  status_of none = "not-mounted"
  status_of (some path) = "mounted"

  -- one physical disk, with the name of the configured one that it belongs to
  unfoldable pub physical_info : String → Option String → DiskInfo
  unfolding descend_mount_point device_info_for_physical_name lookup
  physical_info disk_name found =
      let mount_point = descend_mount_point g.graph disk_name in
      record {
        name = name_or_empty found;
        status = status_of mount_point;
        path = name_or_empty mount_point;
        devices = device_info_for_physical_name run (configured disks found) disk_name ∷ [];
      }

  abbrev pub matched_by : Option String → List String → List String
  matched_by none matched = matched
  matched_by (some name) matched = name ∷ matched

  -- whether the arguments ask for a disk
  abbrev pub is_wanted : List String → List String → List String → String → String → Bool
  is_wanted [] disk_names physical disk_name name = true
  is_wanted (arg ∷ args) disk_names physical disk_name name =
      contains physical disk_name || contains disk_names name

  -- the loop over the physical disks: the infos, and the configured disks that were found
  unfoldable pub physical_infos :
      List String
      → List String × List String
      → List String
      → Outcome DisksError (List DiskInfo × List String)
  unfolding physical_info find_disk_by_chain related_chain contains
  physical_infos args (disk_names, physical) [] = ok ([], [])
  physical_infos args (disk_names, physical) (disk_name ∷ list) =
      chain_of run steps g disk_name >>= λ chain.
      physical_infos args (disk_names, physical) list >>= λ (infos, matched). ok (
        if is_wanted args disk_names physical disk_name
              (name_or_empty (find_disk_by_chain run disks (chain_names chain)))
            then physical_info disk_name (find_disk_by_chain run disks (chain_names chain)) ∷ infos
            else infos,
        matched_by (find_disk_by_chain run disks (chain_names chain)) matched,
      )

  abbrev pub is_named : List String → List String → String → Bool
  is_named [] disk_names name = true
  is_named (arg ∷ args) disk_names name = contains disk_names name

  unfoldable pub missing_info : String → DiskInfo
  unfolding device_info_from_config lookup
  missing_info name = record {
    name = name;
    status = "missing";
    path = "";
    devices = map (device_info_from_config run) (devices_or_none (lookup name disks));
  }

  -- the loop over the configured disks that were not found
  unfoldable pub missing_infos : List String → List String → List String → List DiskInfo
  unfolding missing_info contains
  missing_infos args disk_names [] = []
  missing_infos args disk_names (name ∷ names) =
      let rest = missing_infos args disk_names names in
      if is_named args disk_names name then missing_info name ∷ rest else rest

abbrev pub has_status : List String → DiskInfo → Bool
has_status [] info = true
has_status (status ∷ filter) info = contains (status ∷ filter) info.status

unfoldable pub with_status : List String → List DiskInfo → List DiskInfo
unfolding contains
with_status filter [] = []
with_status filter (info ∷ infos) =
    let rest = with_status filter infos in if has_status filter info then info ∷ rest else rest

module _ (run : Answer) (steps : ℕ) (disks : Disks) where
  -- the body of the command, once the block devices are known
  unfoldable pub list_devices :
      List String → List String → BlockDevices → Outcome DisksError (List DiskInfo)
  unfolding filters_of physical_infos missing_infos physical_nodes without sort_strings with_status
  list_devices filter args g = filters_of run steps disks g args >>= λ (disk_names, physical).
      physical_infos run steps disks g args (disk_names, physical)
        (sort_strings (physical_nodes g.graph.by_name))
      >>= λ (infos, matched). ok (
          with_status filter (
            infos
            ++ missing_infos run steps disks g args disk_names
                (sort_strings (without matched (names_of disks)))))

  abbrev pub list_valid :
      List String → List String → Option String → Outcome DisksError (List DiskInfo)
  list_valid filter args (some status) = err (invalid_status status)
  list_valid filter args none =
      or_fail no_devices (load_block_device_graph run) >>= list_devices filter args

  -- `NixosHardwareDisksCmd`
  unfoldable pub list_disks : List String → List String → Outcome DisksError (List DiskInfo)
  unfolding list_devices load_block_device_graph contains
  list_disks filter args = list_valid filter args (first_invalid filter)
