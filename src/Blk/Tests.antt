-- ===== src/Blk/Tests.antt =====
-- The virtual disk at a concrete input: a disk with one partition, which is the guest's.
use camkes_vm.Common.{
  ℕ, zero, suc, ◌+◌, ◌≡◌, refl, false, Option, none, some, List, [], ◌∷◌, replicate, arith,
}
use camkes_vm.Sata.State.{Partition, Client, cleared, blank_client}
use camkes_vm.Sata.Config.{given, lay_out, virtual_tables}
use camkes_vm.Sata.Config.Tables.{disk_sector, size}
use camkes_vm.Sata.Requests.{Packet, find_client}
use camkes_vm.Sata.Requests.Virtual.{Addressed, LaidOut}
use camkes_vm.Blk.{t_in, t_out, virtio_blk_emul_transfer}
use camkes_vm.Blk.Served.{Shared, sataserver, disk_in, disk_out, virtio_blk_emul_transfer-served}

abbrev disk : List Partition
disk =
    record cleared { start_lba = 2048; num_sectors = 1000; sys_id = 0x83 }
    ∷ cleared
    ∷ cleared
    ∷ cleared
    ∷ []

abbrev guest : Client
guest = record blank_client { client_id = 7; partitions = 1 ∷ 0 ∷ 0 ∷ 0 ∷ []; num_partitions = 1 }

abbrev laid_out : Option Client → Client
laid_out none = blank_client
laid_out (some c) = c

abbrev guest_laid_out : Client
guest_laid_out = laid_out (lay_out disk guest)

guest-LaidOut : LaidOut disk guest guest_laid_out
unfolding lay_out size virtual_tables
guest-LaidOut = record { listed = omega arith; small = omega arith; made = refl }

disk-Addressed : Addressed disk
disk-Addressed zero q e = ground (arith, e)
disk-Addressed (suc zero) q e = ground (arith, e)
disk-Addressed (suc (suc zero)) q e = ground (arith, e)
disk-Addressed (suc (suc (suc zero))) q e = ground (arith, e)
disk-Addressed (suc (suc (suc (suc i)))) q e = absurd (ground (arith, e))

abbrev shared : Shared
shared = record {
  server = record {
    assigned_parts = 1 ∷ 0 ∷ 0 ∷ 0 ∷ [];
    phys_partition_tables = disk;
    done_init = 1;
    invalid_config = 0;
    clients = guest_laid_out ∷ [];
    log = [];
  };
  page = replicate 4 0;
}

-- what a page is after a read
abbrev read_bytes : Packet → List ℕ → List ℕ
read_bytes p page = 1 ∷ 2 ∷ 3 ∷ 4 ∷ []

virtio_blk_emul_transfer-served_example :
    (virtio_blk_emul_transfer
        (sataserver 2 (λ l. false) read_bytes 7)
        t_in
        (64 + 10)
        4
        (replicate 4 9)
        shared
      ≡ some (
          disk_in 2
            (λ l. false)
            read_bytes
            7
            (disk_sector disk (given guest) 10)
            4
            (replicate 4 9)
            shared))
    × (virtio_blk_emul_transfer
          (sataserver 2 (λ l. false) read_bytes 7)
          t_out
          (64 + 10)
          4
          (replicate 4 9)
          shared
        ≡ some (
            disk_out 2
              (λ l. false)
              read_bytes
              7
              (disk_sector disk (given guest) 10)
              4
              (replicate 4 9)
              shared))
unfolding find_client lay_out virtual_tables
virtio_blk_emul_transfer-served_example =
    virtio_blk_emul_transfer-served 2 (λ l. false) read_bytes 7 guest guest_laid_out 10 4
      (replicate 4 9) shared disk-Addressed guest-LaidOut (λ e. absurd (omega (arith, e)))
      (λ e. absurd (omega (arith, e))) (omega arith) (omega arith) refl
