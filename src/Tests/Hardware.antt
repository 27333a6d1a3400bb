-- ===== src/Tests/Hardware.antt =====
-- Runs and witnesses for cli/pkg/cmd/nixos/hardware/disks/nixosHardwareDisks.go.
use becloudless.Prelude.{◌≡◌, refl, String, none, some, [], ◌∷◌, contains, lookup, insert}
use becloudless.Disks.{LsblkNode, BlockDeviceGraph, load_nodes, mount_of, descend_mount_point}
use becloudless.Disks.Mounts.{
  IsUnder, itself, below, descend_mount_point-IsUnder, descend_mount_point-none,
}

abbrev row : String → String → String → String → LsblkNode
row name device_type mount_point pk_name = record {
  name = name;
  device_type = device_type;
  mount_point = mount_point;
  pk_name = pk_name;
  tran = "";
}

-- A disk with an encrypted partition that is mounted, and one that is not.
abbrev graph : BlockDeviceGraph
graph = record {
  by_name =
      ("/dev/sda", row "/dev/sda" "disk" "" "")
      ∷ ("/dev/sda1", row "/dev/sda1" "part" "" "/dev/sda")
      ∷ ("/dev/mapper/nix", row "/dev/mapper/nix" "crypt" "/nix" "/dev/sda1")
      ∷ ("/dev/sdb", row "/dev/sdb" "disk" "" "")
      ∷ ("/dev/sdb1", row "/dev/sdb1" "part" "" "/dev/sdb")
      ∷ [];
  children =
      ("/dev/sda", "/dev/sda1" ∷ [])
      ∷ ("/dev/sda1", "/dev/mapper/nix" ∷ [])
      ∷ ("/dev/sdb", "/dev/sdb1" ∷ [])
      ∷ [];
}

load_nodes_run :
    load_nodes
      (row "/dev/sda" "disk" "" ""
        ∷ row "/dev/sda1" "part" "" "/dev/sda"
        ∷ row "/dev/mapper/nix" "crypt" "/nix" "/dev/sda1"
        ∷ row "/dev/sdb" "disk" "" ""
        ∷ row "/dev/sdb1" "part" "" "/dev/sdb"
        ∷ [])
      (record { by_name = []; children = [] })
    ≡ graph
unfolding load_nodes lookup insert
load_nodes_run = refl

descend_mount_point-IsUnder_example :
    (name : String) × IsUnder graph "/dev/sda" name × (mount_of graph name ≡ some "/nix")
unfolding descend_mount_point lookup contains
descend_mount_point-IsUnder_example = descend_mount_point-IsUnder graph "/dev/sda" "/nix" refl

descend_mount_point-none_example : mount_of graph "/dev/sdb1" ≡ none
unfolding descend_mount_point lookup contains
descend_mount_point-none_example =
    descend_mount_point-none graph "/dev/sdb" "/dev/sdb1" refl (below itself refl)
