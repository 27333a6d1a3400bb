-- ===== src/Disks/Devices.antt =====
-- The block devices of a host and their names: cli/pkg/cmd/nixos/hardware/disks/nixosHardwareDisks.go. What
-- a program answers is a parameter. The two loops of `relatedChain` have no bound of their own, so they
-- take the number of steps that they may make.
use Prim.Native.Char.{code}
use becloudless.Prelude.{
  ℕ, zero, suc, String, Bool, true, false, not, ◌&&◌, Option, none, some, List, [], ◌∷◌, ◌++◌, ◌==◌,
  ◌&◌, if◌then◌else◌, eqb, leb, contains, Dict, lookup, insert, split_on, trim_right, trim_space,
  has_prefix,
}
use becloudless.Disks.{LsblkNode, BlockDeviceGraph, children_of, add_node}

-- `ExecCmdGetStdout`: the output of a program that succeeds
abbrev pub Answer : Type 0
Answer = List String → Option String

-- `blockDevice`
pub record BlockDevice : Type 0 where
  pub name : String
  pub device_type : String

-- `blockDeviceGraph` with its indexes of links and addresses
pub record BlockDevices : Type 0 where
  pub graph : BlockDeviceGraph
  pub by_canon : Dict LsblkNode
  pub by_hctl : Dict LsblkNode

abbrev pub or_name : String → String → String
or_name target device = if target == "" then device else target

-- the lines of an output
unfoldable pub lines_of : String → List String
unfolding split_on trim_right
lines_of out = split_on "\n" (trim_right (λ c. eqb (code c) 10) out)

-- `strings.SplitN(s, " ", 5)` filled up to five fields: the last field is the rest of the line
abbrev pub join_rest : List String → String
join_rest [] = ""
join_rest (s ∷ []) = s
join_rest (s ∷ t ∷ list) = s & (" " & join_rest (t ∷ list))

abbrev pub node_of : List String → LsblkNode
node_of [] = record { name = ""; device_type = ""; mount_point = ""; pk_name = ""; tran = "" }
node_of (a ∷ []) = record { name = a; device_type = ""; mount_point = ""; pk_name = ""; tran = "" }
node_of (a ∷ b ∷ []) = record {
  name = a;
  device_type = b;
  mount_point = "";
  pk_name = "";
  tran = "";
}
node_of (a ∷ b ∷ c ∷ []) = record {
  name = a;
  device_type = b;
  mount_point = c;
  pk_name = "";
  tran = "";
}
node_of (a ∷ b ∷ c ∷ d ∷ rest) = record {
  name = a;
  device_type = b;
  mount_point = c;
  pk_name = d;
  tran = join_rest rest;
}

abbrev pub empty_graph : BlockDeviceGraph
empty_graph = record { by_name = []; children = [] }

abbrev pub all_digits : String → Bool
all_digits String.[] = true
all_digits (String.◌∷◌ c s) = (leb 48 (code c) && leb (code c) 57) && all_digits s

abbrev pub is_number : String → Bool
is_number s = not (s == "") && all_digits s

abbrev pub are_four_numbers : List String → Bool
are_four_numbers (a ∷ b ∷ c ∷ d ∷ []) = is_number a && is_number b && is_number c && is_number d
are_four_numbers _ = false

-- `hctlPattern.MatchString(arg)`
unfoldable pub is_hctl : String → Bool
unfolding split_on
is_hctl arg = are_four_numbers (split_on ":" arg)

abbrev pub or_node : Option LsblkNode → Option LsblkNode → Option LsblkNode
or_node none more = more
or_node (some node) more = some node

module _ (run : Answer) where
  -- `canonicalDevice`
  unfoldable pub canonical_device : String → String
  unfolding trim_space
  canonical_device device = elim (run ("readlink" ∷ "-f" ∷ device ∷ [])) [
    | none ↦ device
    | some out ↦ or_name (trim_space out) device
  ]

  -- the loop over the rows of lsblk
  unfoldable pub load_rows : List String → BlockDevices → BlockDevices
  unfolding canonical_device split_on add_node insert
  load_rows [] g = g
  load_rows (line ∷ lines) g =
      let node = node_of (split_on " " line) in
      load_rows lines (
        if line == "" then g else record g {
          graph = add_node node g.graph;
          by_canon = insert (canonical_device node.name) node g.by_canon;
        })

  abbrev pub add_address : List String → BlockDevices → BlockDevices
  add_address [] g = g
  add_address (name ∷ rest) g =
      if join_rest rest == "" then g else elim (lookup ("/dev/" & name) g.graph.by_name) [
        | none ↦ g
        | some node ↦ record g { by_hctl = insert (join_rest rest) node g.by_hctl }
      ]

  -- the loop over the rows of `lsblk -S`
  unfoldable pub load_addresses : List String → BlockDevices → BlockDevices
  unfolding split_on insert lookup
  load_addresses [] g = g
  load_addresses (line ∷ lines) g =
      load_addresses lines (if line == "" then g else add_address (split_on " " line) g)

  abbrev pub with_addresses : Option String → BlockDevices → BlockDevices
  with_addresses none g = g
  with_addresses (some out) g = load_addresses (lines_of out) g

  -- `loadBlockDeviceGraph`
  unfoldable pub load_block_device_graph : Option BlockDevices
  unfolding load_rows load_addresses lines_of
  load_block_device_graph =
      elim (run ("lsblk" ∷ "-rnpo" ∷ "NAME,TYPE,MOUNTPOINT,PKNAME,TRAN" ∷ [])) [
        | none ↦ none
        | some out ↦ some (
            with_addresses (run ("lsblk" ∷ "-Srno" ∷ "NAME,HCTL" ∷ [])) (
              load_rows (lines_of out)
                (record { graph = empty_graph; by_canon = []; by_hctl = [] })))
      ]

  -- `find`
  unfoldable pub find : BlockDevices → String → Option LsblkNode
  unfolding canonical_device is_hctl has_prefix lookup
  find g arg = or_node (lookup arg g.graph.by_name) (
      or_node (lookup (canonical_device arg) g.by_canon) (
        or_node (if has_prefix arg "/dev/" then none else lookup ("/dev/" & arg) g.graph.by_name)
          (if is_hctl arg then lookup arg g.by_hctl else none)))

-- what `add` has made: the names seen, the last one first, and the chain
abbrev pub Chain : Type 0
Chain = List String × List BlockDevice

abbrev pub add_found : Option LsblkNode → List BlockDevice → List BlockDevice
add_found none chain = chain
add_found (some node) chain =
    chain ++ record { name = node.name; device_type = node.device_type } ∷ []

-- `add`
unfoldable pub add_to_chain : BlockDeviceGraph → String → Chain → Chain
unfolding contains lookup
add_to_chain g n (seen, chain) =
    if contains seen n then (seen, chain) else (n ∷ seen, add_found (lookup n g.by_name) chain)

abbrev pub pk_name_of : Option LsblkNode → String
pk_name_of none = ""
pk_name_of (some node) = node.pk_name

-- the parent of a device: the empty text ends the walk
abbrev pub parent_of : BlockDeviceGraph → String → String
parent_of g cur = pk_name_of (lookup cur g.by_name)

-- the walk up
unfoldable pub ancestors : BlockDeviceGraph → ℕ → String → Chain → Option Chain
unfolding add_to_chain
ancestors g zero cur chain = none
ancestors g (suc steps) cur chain =
    let more = ancestors g steps (parent_of g cur) (add_to_chain g cur chain) in
    if cur == "" then some chain else more

-- the walk down, which visits a device as often as it is reached
unfoldable pub descendants : BlockDeviceGraph → ℕ → List String → Chain → Option Chain
unfolding add_to_chain
descendants g zero queue chain = none
descendants g (suc steps) [] chain = some chain
descendants g (suc steps) (cur ∷ queue) chain =
    descendants g steps (queue ++ children_of g cur) (add_to_chain g cur chain)

abbrev pub devices_of : Option Chain → Option (List BlockDevice)
devices_of none = none
devices_of (some (seen, devices)) = some devices

abbrev pub then_descendants : BlockDeviceGraph → ℕ → List String → Option Chain → Option Chain
then_descendants g steps queue none = none
then_descendants g steps queue (some chain) = descendants g steps queue chain

-- `relatedChain`, if its loops end within the steps
unfoldable pub related_chain : BlockDeviceGraph → ℕ → String → Option (List BlockDevice)
unfolding ancestors descendants
related_chain g steps name =
    devices_of (then_descendants g steps (children_of g name) (ancestors g steps name ([], [])))

-- `physicalDeviceNames`
unfoldable pub physical_device_names : List BlockDevice → List String
physical_device_names [] = []
physical_device_names (d ∷ chain) =
    let rest = physical_device_names chain in
    if d.device_type == "disk" then d.name ∷ rest else rest
