-- ===== src/Sata/Requests.antt =====
-- The requests of clients in sataserver.c. `none` means that an assertion fails or an array is read
-- past its end. The lock around each request belongs to another component.
pub mod Virtual
pub mod Isolation
pub mod Served
use camkes_vm.Common.{
  ℕ, zero, suc, ◌+◌, ◌-◌, ◌/◌, ◌^◌, Bool, true, false, not, ◌&&◌, ◌||◌, Option, none, some, List,
  [], ◌∷◌, get_elem?, u32, ltb, leb, if◌then◌else◌, ◌==◌,
}
use camkes_vm.Sata.State.{
  Partition, Client, DiskOp, read_sectors, write_sectors, Server, virt_start_sector, buf_size,
  start_sector,
}
use camkes_vm.Sata.Config.{place}

-- What the search for a sector finds: nothing, the difference to the sector of the disk, or the
-- end of an array.
pub data Lookup : Type 0 where
  missing : Lookup
  found : ℕ → Lookup
  past_end : Lookup

abbrev pub in_partition : ℕ → Partition → Bool
in_partition sector t = leb t.start_lba sector && ltb sector (u32 (t.start_lba + t.num_sectors))

-- The difference between the partition `p` of the disk and the virtual entry `t`.
unfoldable pub offset_of : List Partition → ℕ → Partition → Lookup
offset_of phys p t = elim (get_elem? phys (place p)) [
  | none ↦ past_end
  | some q ↦ found (u32 (q.start_lba + (2 ^ 32 - t.start_lba)))
]

-- The loop of `calulate_sector_offset`, with `n` rounds to go.
unfoldable pub search_offset : List Partition → ℕ → ℕ → List ℕ → List Partition → Lookup
search_offset phys sector zero ps ts = missing
search_offset phys sector (suc n) [] ts = past_end
search_offset phys sector (suc n) (p ∷ ps) [] = past_end
search_offset phys sector (suc n) (p ∷ ps) (t ∷ ts) = elim (in_partition sector t) [
  | true ↦ offset_of phys p t
  | false ↦ search_offset phys sector n ps ts
]

unfoldable pub calulate_sector_offset : List Partition → Client → ℕ → Lookup
calulate_sector_offset phys c sector =
    search_offset phys sector c.num_partitions c.partitions c.partition_tables

-- The last client with the id of the sender.
unfoldable pub find_client : ℕ → List Client → Option Client
find_client id [] = none
find_client id (c ∷ cs) = elim (find_client id cs) [
  | some d ↦ some d
  | none ↦ if c.client_id == id then some c else none
]

-- What a request puts in the page of the client: nothing, the first sector of the disk with the
-- entries in place, zeros, or so many sectors from the disk.
pub data Packet : Type 0 where
  untouched : Packet
  boot_record : List Partition → Packet
  zeros : ℕ → Packet
  sectors : ℕ → ℕ → Packet

-- `fails log` says whether the driver reports an error for the call at the head of `log`. A sector
-- has `sata_blk_size` bytes, a constant of another library.
module _ (sata_blk_size : ℕ) (fails : List DiskOp → Bool) where
  abbrev pub run : DiskOp → Server → Bool × Server
  run op s = (fails (op ∷ s.log), record s { log = op ∷ s.log })

  unfoldable pub read_disk : Client → ℕ → ℕ → Server → Option (ℕ × Packet × Server)
  read_disk c sector len s = elim (calulate_sector_offset s.phys_partition_tables c sector) [
    | missing ↦ some (0, untouched, s)
    | past_end ↦ none
    | found offset ↦
        (let first = u32 (sector + offset) in
          let (err, s') = run (read_sectors first (len / sata_blk_size)) s in
          some (if err then 0 else len, sectors first (len / sata_blk_size), s'))
  ]

  unfoldable pub read_client : Client → ℕ → ℕ → Server → Option (ℕ × Packet × Server)
  read_client c sector len s =
      if sector == start_sector
      then some (len, boot_record c.partition_tables, s)
      else if ltb sector virt_start_sector
      then some (len, zeros len, s)
      else read_disk c sector len s

  -- `id` is the sender.
  unfoldable pub client_rx : ℕ → ℕ → ℕ → Server → Option (ℕ × Packet × Server)
  client_rx id sector len s =
      if s.done_init == 0 || ltb buf_size len
      then some (0, untouched, s)
      else elim (find_client id s.clients) [ none ↦ none | some c ↦ read_client c sector len s ]

  unfoldable pub write_disk : Client → ℕ → ℕ → Server → Option (ℕ × Server)
  write_disk c sector len s = elim (calulate_sector_offset s.phys_partition_tables c sector) [
    | missing ↦ some (0, s)
    | past_end ↦ none
    | found offset ↦
        (let (err, s') = run (write_sectors (u32 (sector + offset)) (len / sata_blk_size)) s in
          some (if err then 0 else len, s'))
  ]

  unfoldable pub client_tx : ℕ → ℕ → ℕ → Server → Option (ℕ × Server)
  client_tx id sector len s =
      if s.done_init == 0 || ltb buf_size len
      then some (0, s)
      else elim (find_client id s.clients) [
        | none ↦ none
        | some c ↦ if ltb sector virt_start_sector then some (len, s) else write_disk c sector len s
      ]

unfoldable pub client_get_capacity : ℕ → Server → Option ℕ
client_get_capacity id s =
    if s.done_init == 0
    then some 0
    else elim (find_client id s.clients) [ none ↦ none | some c ↦ some (u32 c.capacity) ]

-- 0 is good, 1 is not done, 2 is an invalid configuration.
unfoldable pub client_get_status : Server → ℕ
client_get_status s = if not (s.invalid_config == 0) then 2 else if s.done_init == 0 then 1 else 0
