-- ===== src/Disks.antt =====
-- Where a disk is mounted, through its partitions and mappers:
-- cli/pkg/cmd/nixos/hardware/disks/nixosHardwareDisks.go.
pub mod Mounts
pub mod Devices
pub mod Ended
pub mod Listing
pub mod Command
pub mod Listed
use becloudless.Prelude.{
  ℕ, zero, suc, ◌+◌, String, Bool, true, false, Option, none, some, List, [], ◌∷◌, ◌++◌, ◌==◌,
  if◌then◌else◌, contains, Dict, lookup, insert,
}

-- `lsblkNode`
pub record LsblkNode : Type 0 where
  pub name : String
  pub device_type : String
  pub mount_point : String
  pub pk_name : String
  pub tran : String

-- `blockDeviceGraph`, but for the indexes of its links and addresses
pub record BlockDeviceGraph : Type 0 where
  pub by_name : Dict LsblkNode
  pub children : Dict (List String)

abbrev pub names_or_none : Option (List String) → List String
names_or_none none = []
names_or_none (some l) = l

abbrev pub children_of : BlockDeviceGraph → String → List String
children_of g name = names_or_none (lookup name g.children)

-- one row of lsblk
unfoldable pub add_node : LsblkNode → BlockDeviceGraph → BlockDeviceGraph
add_node node g = record {
  by_name = insert node.name node g.by_name;
  children =
      if node.pk_name == ""
      then g.children
      else insert node.pk_name (children_of g node.pk_name ++ node.name ∷ []) g.children;
}

unfoldable pub load_nodes : List LsblkNode → BlockDeviceGraph → BlockDeviceGraph
unfolding add_node
load_nodes [] g = g
load_nodes (node ∷ rows) g = load_nodes rows (add_node node g)

abbrev pub mounted_at : Option LsblkNode → Option String
mounted_at none = none
mounted_at (some node) = if node.mount_point == "" then none else some node.mount_point

-- where a device itself is mounted
abbrev pub mount_of : BlockDeviceGraph → String → Option String
mount_of g name = mounted_at (lookup name g.by_name)

abbrev pub or_search : Option String → Option String → Option String
or_search (some path) more = some path
or_search none more = more

-- the loop over `queue`
unfoldable pub descend_fuel : BlockDeviceGraph → ℕ → List String → List String → Option String
descend_fuel g zero queue seen = none
descend_fuel g (suc fuel) [] seen = none
descend_fuel g (suc fuel) (cur ∷ queue) seen =
    let skip = descend_fuel g fuel queue seen in
    let more = descend_fuel g fuel (queue ++ children_of g cur) (cur ∷ seen) in
    if contains seen cur then skip else or_search (mount_of g cur) more

abbrev pub length : List String → ℕ
length [] = zero
length (s ∷ list) = suc (length list)

-- how many children there are
abbrev pub edges : Dict (List String) → ℕ
edges [] = zero
edges ((name, list) ∷ m) = length list + edges m

-- `descendMountPoint(name)`: one round for the device, one for each child, and the last
unfoldable pub descend_mount_point : BlockDeviceGraph → String → Option String
unfolding descend_fuel
descend_mount_point g name = descend_fuel g (suc (suc (edges g.children))) (name ∷ []) []
