-- ===== src/Tests/Disks.antt =====
-- Runs and witnesses for the list of disks of
-- cli/pkg/cmd/nixos/hardware/disks/nixosHardwareDisks.go.
use becloudless.Prelude.{
  ℕ, ◌≤◌, String, ◌≡◌, refl, true, none, some, List, [], ◌∷◌, ◌==◌, if◌then◌else◌, contains, lookup,
  arith, ok, ◌||◌, ltb, all_in, Bool-cases, inl, inr,
}
use becloudless.Disks.{LsblkNode, BlockDeviceGraph, children_of}
use becloudless.Disks.Devices.{Answer, BlockDevice, BlockDevices, parent_of, related_chain}
use becloudless.Disks.Ended.{all_below, related_chain-ends}
use becloudless.Disks.Listing.{DiskInfo, Disks}
use becloudless.Disks.Command.{list_devices}
use becloudless.Disks.Listed.{names_in, list_devices-names}

abbrev sda : LsblkNode
sda = record {
  name = "/dev/sda";
  device_type = "disk";
  mount_point = "";
  pk_name = "";
  tran = "sata";
}

abbrev sda1 : LsblkNode
sda1 = record {
  name = "/dev/sda1";
  device_type = "part";
  mount_point = "/";
  pk_name = "/dev/sda";
  tran = "";
}

abbrev one_disk : BlockDeviceGraph
one_disk = record {
  by_name = ("/dev/sda", sda) ∷ ("/dev/sda1", sda1) ∷ [];
  children = ("/dev/sda", "/dev/sda1" ∷ []) ∷ [];
}

abbrev one_disk_devices : BlockDevices
one_disk_devices = record { graph = one_disk; by_canon = []; by_hctl = [] }

abbrev data_disk : Disks
data_disk = ("data", record { path = "/dev/sdb"; location = "bay 2" } ∷ []) ∷ []

-- no program answers
abbrev silent : Answer
silent args = none

abbrev listed : List DiskInfo
listed =
    record {
      name = "";
      status = "mounted";
      path = "/";
      devices = record { paths = "/dev/sda" ∷ []; size = ""; location = "" } ∷ [];
    }
    ∷ record {
      name = "data";
      status = "missing";
      path = "";
      devices = record { paths = "/dev/sdb" ∷ []; size = ""; location = "bay 2" } ∷ [];
    }
    ∷ []

test_listed : list_devices silent 9 data_disk [] [] one_disk_devices ≡ ok listed
unfolding list_devices contains lookup
test_listed = refl

abbrev height : String → ℕ
height x = if "/dev/sda" == x then 1 else 0

height_down : (x : String) → all_below height (height x) (children_of one_disk x) ≡ true
unfolding lookup
height_down x = elim (Bool-cases ("/dev/sda" == x)) [ inl e ↦ rw e refl | inr e ↦ rw e refl ]

height_up :
    (x : String)
    → (parent_of one_disk x == "" || ltb (height x) (height (parent_of one_disk x))) ≡ true
unfolding lookup
height_up x = elim (Bool-cases ("/dev/sda" == x)) [
  | inl e ↦ rw e refl
  | inr e ↦ elim (Bool-cases ("/dev/sda1" == x)) [ inl f ↦ rw (e, f) refl | inr f ↦ rw (e, f) refl ]
]

list_devices-names_example :
    (enough : ℕ) × ((steps : ℕ)
      → enough ≤ steps
      → (infos : List DiskInfo) × (list_devices silent steps data_disk [] [] one_disk_devices
          ≡ ok infos)
        × (all_in (names_in infos) ("data" ∷ []) ≡ true))
list_devices-names_example =
    list_devices-names silent data_disk one_disk_devices height 1 height_down height_up
      (λ x. ground arith)

related_chain-ends_example :
    (enough : ℕ) × ((steps : ℕ)
      → enough ≤ steps
      → (chain : List BlockDevice) × (related_chain one_disk steps "/dev/sda" ≡ some chain))
related_chain-ends_example =
    related_chain-ends one_disk height 1 height_down height_up (λ x. ground arith) "/dev/sda"
