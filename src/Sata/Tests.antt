-- ===== src/Sata/Tests.antt =====
-- Concrete disks and clients at which the theorems apply.
use camkes_vm.Common.{
  ℕ, zero, suc, ◌+◌, ◌≡◌, ◌≢◌, inl, inr, refl, arith, Option, none, some, [], ◌∷◌, List, u32,
}
use camkes_vm.Sata.State.{Partition, Client, Server, cleared, blank_client}
use camkes_vm.Sata.Config.{
  given, lay_out, assign_clients, assign_client, assign_all, check_part_is_assigned, virtual_tables,
  virtual_entry, set_up_clients,
}
use camkes_vm.Sata.Config.Tables.{disk_sector, size}
use camkes_vm.Sata.Config.SetUp.{IsSetUp, set_up_clients-IsSetUp}
use camkes_vm.Sata.Requests.{calulate_sector_offset, search_offset, offset_of}
use camkes_vm.Sata.Requests.Virtual.{
  Translated, Addressed, LaidOut, calulate_sector_offset-Translated,
}
use camkes_vm.Sata.Requests.Isolation.{Disjoint, calulate_sector_offset-distinct}

-- three partitions, and an entry that is not used
abbrev part : ℕ → ℕ → Partition
part start sectors = record cleared { start_lba = start; num_sectors = sectors; sys_id = 0x83 }

abbrev disk : List Partition
disk = part 2048 1000 ∷ part 3048 500 ∷ part 4000 800 ∷ cleared ∷ []

-- Client 7 has the partitions 1 and 3, client 8 has partition 2.
abbrev first_client : Client
first_client = record blank_client {
  client_id = 7;
  partitions = 1 ∷ 3 ∷ 0 ∷ 0 ∷ [];
  num_partitions = 2;
}

abbrev second_client : Client
second_client = record blank_client {
  client_id = 8;
  partitions = 2 ∷ 0 ∷ 0 ∷ 0 ∷ [];
  num_partitions = 1;
}

-- the clients as they are laid out
abbrev laid_out : Option Client → Client
laid_out none = blank_client
laid_out (some c) = c

abbrev first_laid_out : Client
first_laid_out = laid_out (lay_out disk first_client)

abbrev second_laid_out : Client
second_laid_out = laid_out (lay_out disk second_client)

first-LaidOut : LaidOut disk first_client first_laid_out
unfolding lay_out size virtual_tables
first-LaidOut = record { listed = omega arith; small = omega arith; made = refl }

second-LaidOut : LaidOut disk second_client second_laid_out
unfolding lay_out size virtual_tables
second-LaidOut = record { listed = omega arith; small = omega arith; made = refl }

disk-Addressed : Addressed disk
disk-Addressed zero q e = ground (arith, e)
disk-Addressed (suc zero) q e = ground (arith, e)
disk-Addressed (suc (suc zero)) q e = ground (arith, e)
disk-Addressed (suc (suc (suc zero))) q e = ground (arith, e)
disk-Addressed (suc (suc (suc (suc i)))) q e = absurd (ground (arith, e))

calulate_sector_offset-Translated_example :
    (first_laid_out.capacity ≡ 64 + size disk (given first_client))
    × ((v : ℕ)
        → Translated
            (disk_sector disk (given first_client) v)
            (64 + v)
            (calulate_sector_offset disk first_laid_out (64 + v)))
calulate_sector_offset-Translated_example =
    calulate_sector_offset-Translated disk first_client first_laid_out disk-Addressed first-LaidOut

abbrev server : Server
server = record {
  assigned_parts = 0 ∷ 0 ∷ 0 ∷ 0 ∷ [];
  phys_partition_tables = disk;
  done_init = 0;
  invalid_config = 0;
  clients = [];
  log = [];
}

abbrev ready : Server
ready = record server { done_init = 1; clients = first_laid_out ∷ second_laid_out ∷ [] }

set_up_clients-IsSetUp_example :
    (s' : Server) × (set_up_clients (first_client ∷ second_client ∷ []) server ≡ some s')
    × IsSetUp (first_client ∷ second_client ∷ []) server s'
set_up_clients-IsSetUp_example =
    set_up_clients-IsSetUp (first_client ∷ second_client ∷ []) server refl refl

-- two partitions side by side, one for each of two clients
abbrev pair : List Partition
pair = part 2048 1000 ∷ part 3048 500 ∷ []

abbrev only : ℕ → Client
only n = record blank_client { client_id = n; partitions = n ∷ 0 ∷ 0 ∷ 0 ∷ []; num_partitions = 1 }

pair-Addressed : Addressed pair
pair-Addressed zero q e = ground (arith, e)
pair-Addressed (suc zero) q e = ground (arith, e)
pair-Addressed (suc (suc i)) q e = absurd (ground (arith, e))

pair-Disjoint : Disjoint pair
pair-Disjoint zero zero q r h e f = absurd (h refl)
pair-Disjoint zero (suc zero) q r h e f = inl (ground (arith, e, f))
pair-Disjoint (suc zero) zero q r h e f = inr (ground (arith, e, f))
pair-Disjoint (suc zero) (suc zero) q r h e f = absurd (h refl)
pair-Disjoint zero (suc (suc j)) q r h e f = absurd (ground (arith, f))
pair-Disjoint (suc zero) (suc (suc j)) q r h e f = absurd (ground (arith, f))
pair-Disjoint (suc (suc i)) j q r h e f = absurd (ground (arith, e))

abbrev only_laid_out : ℕ → Client
only_laid_out n = laid_out (lay_out pair (only n))

only_1-LaidOut : LaidOut pair (only 1) (only_laid_out 1)
unfolding lay_out size virtual_tables
only_1-LaidOut = record { listed = omega arith; small = omega arith; made = refl }

only_2-LaidOut : LaidOut pair (only 2) (only_laid_out 2)
unfolding lay_out size virtual_tables
only_2-LaidOut = record { listed = omega arith; small = omega arith; made = refl }

calulate_sector_offset-distinct_example : u32 (64 + 999 + 1984) ≢ u32 (64 + 0 + 2984)
unfolding lay_out virtual_tables virtual_entry calulate_sector_offset search_offset offset_of
    assign_clients assign_client assign_all check_part_is_assigned
calulate_sector_offset-distinct_example =
    calulate_sector_offset-distinct pair (only 1 ∷ only 2 ∷ []) (0 ∷ 0 ∷ 0 ∷ 0 ∷ [])
      (1 ∷ 1 ∷ 0 ∷ 0 ∷ []) 0 1 (only 1) (only 2) (only_laid_out 1) (only_laid_out 2) 999 0 1984 2984
      pair-Addressed pair-Disjoint refl refl (omega arith) refl refl only_1-LaidOut only_2-LaidOut
      refl refl
