-- ===== src/Sata/Config.antt =====
-- `check_part_is_assigned` and the part of `post_init` of sataserver.c that sets the clients up.
pub mod Tables
pub mod Marks
pub mod SetUp
use camkes_vm.Common.{
  ◌^◌, ℕ, ◌+◌, ◌-◌, ◌%◌, not, ◌||◌, Option, none, some, List, [], ◌∷◌, ◌++◌, length, replicate,
  take, get_or, get_elem?, set, u32, ltb, leb, if◌then◌else◌, ◌==◌,
}
use camkes_vm.Sata.State.{
  Partition, Client, Server, max_partitions, virt_start_sector, cleared, blank_client,
}
use camkes_vm.Sata.Chs.{to_chs, sec_cyl}

-- Partitions count from 1. The place of a partition is a uint8_t: that of 0 is 255.
abbrev pub place : ℕ → ℕ
place partition = (partition + 255) % 256

-- The partitions that are assigned then, or none on failure.
unfoldable pub check_part_is_assigned : ℕ → List ℕ → Option (List ℕ)
check_part_is_assigned partition assigned =
    if leb max_partitions (place partition) || not (get_or assigned (place partition) 0 == 0)
    then none
    else some (set assigned (place partition) 1)

-- The loop over the partitions of a client.
unfoldable pub assign_all : List ℕ → List ℕ → Option (List ℕ)
assign_all [] assigned = some assigned
assign_all (p ∷ ps) assigned = elim (check_part_is_assigned p assigned) [
  | none ↦ none
  | some assigned' ↦ assign_all ps assigned'
]

-- The partitions that a client was given.
abbrev pub given : Client → List ℕ
given c = take c.num_partitions c.partitions

-- One client: at most four partitions, and none assigned yet.
unfoldable pub assign_client : Client → List ℕ → Option (List ℕ)
assign_client c assigned =
    if ltb max_partitions c.num_partitions then none else assign_all (given c) assigned

-- The loop over the clients; `none` is `invalid_config`.
unfoldable pub assign_clients : List Client → List ℕ → Option (List ℕ)
assign_clients [] assigned = some assigned
assign_clients (c ∷ cs) assigned = elim (assign_client c assigned) [
  | none ↦ none
  | some assigned' ↦ assign_clients cs assigned'
]

-- A virtual entry at sector `sectors`, for the partition `q` of the disk.
unfoldable pub virtual_entry : ℕ → Partition → Partition
virtual_entry sectors q =
    let (cyl, head, sec) = to_chs sectors in
    let (end_cyl, end_head, end_sec) = to_chs (u32 (sectors + q.num_sectors + (2 ^ 32 - 1))) in
    record {
      boot = q.boot;
      sys_id = q.sys_id;
      num_sectors = q.num_sectors;
      start_lba = sectors;
      head = head;
      sec_cyl = sec_cyl sec cyl;
      end_head = end_head;
      end_sec_cyl = sec_cyl end_sec end_cyl;
    }

-- The loop over the partitions of a client: the entries, and the sector after the last. `none`
-- means that the code reads past the table of the disk.
unfoldable pub virtual_tables : List Partition → ℕ → List ℕ → Option (List Partition × ℕ)
virtual_tables phys sectors [] = some ([], sectors)
virtual_tables phys sectors (p ∷ ps) = elim (get_elem? phys (place p)) [
  | none ↦ none
  | some q ↦ elim (virtual_tables phys (u32 (sectors + q.num_sectors)) ps) [
    | none ↦ none
    | some (ts, end) ↦ some (virtual_entry sectors q ∷ ts, end)
  ]
]

-- The entries that are not used are cleared.
unfoldable pub lay_out : List Partition → Client → Option Client
lay_out phys c = elim (virtual_tables phys virt_start_sector (given c)) [
  | none ↦ none
  | some (ts, end) ↦ some (record c {
    partition_tables = ts ++ replicate (max_partitions - length ts) cleared;
    capacity = end;
  })
]

unfoldable pub lay_out_all : List Partition → List Client → Option (List Client)
lay_out_all phys [] = some []
lay_out_all phys (c ∷ cs) = elim (lay_out phys c) [
  | none ↦ none
  | some c' ↦ elim (lay_out_all phys cs) [ none ↦ none | some cs' ↦ some (c' ∷ cs') ]
]

-- The clients that `post_init` filled in: those up to the first that is refused.
unfoldable pub filled : List Client → List ℕ → List Client
filled [] assigned = []
filled (c ∷ cs) assigned = c ∷ elim (assign_client c assigned) [
  | none ↦ replicate (length cs) blank_client
  | some assigned' ↦ filled cs assigned'
]

-- The part of `post_init` after the driver was set up, for the clients `config` as the template
-- gives them, with blank tables. The marks of a refused client are not read again.
unfoldable pub set_up_clients : List Client → Server → Option Server
set_up_clients config s = elim (assign_clients config s.assigned_parts) [
  | none ↦
      some
        (record s { invalid_config = 1; done_init = 1; clients = filled config s.assigned_parts })
  | some assigned ↦ elim (lay_out_all s.phys_partition_tables config) [
    | none ↦ none
    | some cs ↦ some (record s { assigned_parts = assigned; done_init = 1; clients = cs })
  ]
]
