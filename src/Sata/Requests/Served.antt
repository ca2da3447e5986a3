-- ===== src/Sata/Requests/Served.antt =====
-- What a client gets for a request, by the virtual disk that it was given.
use camkes_vm.Common.{
  ℕ, ◌+◌, ◌/◌, ◌≤◌, ◌≡◌, ◌≢◌, refl, Bool, false, Bool-cases, Option, none, some, inl, inr, List,
  if◌then◌else◌, arith, ◌==◌, ltb, ◌||◌,
}
use camkes_vm.Sata.State.{Client, DiskOp, read_sectors, write_sectors, Server, buf_size}
use camkes_vm.Sata.Config.{given}
use camkes_vm.Sata.Config.Tables.{disk_sector}
use camkes_vm.Sata.Requests.{
  calulate_sector_offset, Packet, untouched, sectors, find_client, run, read_disk, read_client,
  client_rx, write_disk, client_tx,
}
use camkes_vm.Sata.Requests.Virtual.{
  Translated, Addressed, LaidOut, calulate_sector_offset-Translated,
}

module _ (sata_blk_size : ℕ) (fails : List DiskOp → Bool) where
  -- A read at the sector `d` of the disk, or past the end of the virtual disk.
  abbrev pub served_rx : Option ℕ → ℕ → Server → ℕ × Packet × Server
  served_rx none len s = (0, untouched, s)
  served_rx (some d) len s =
      let (err, s') = run sata_blk_size fails (read_sectors d (len / sata_blk_size)) s in
      (if err then 0 else len, sectors d (len / sata_blk_size), s')

  abbrev pub served_tx : Option ℕ → ℕ → Server → ℕ × Server
  served_tx none len s = (0, s)
  served_tx (some d) len s =
      let (err, s') = run sata_blk_size fails (write_sectors d (len / sata_blk_size)) s in
      (if err then 0 else len, s')

  read_disk_lem :
      (c : Client) (sector len : ℕ) (s : Server) (d : Option ℕ)
      → Translated d sector (calulate_sector_offset s.phys_partition_tables c sector)
      → read_disk sata_blk_size fails c sector len s ≡ some (served_rx d len s)
  unfolding read_disk
  read_disk_lem c sector len s none t = rw (read_disk, t) refl
  read_disk_lem c sector len s (some d) t = let (o, e, f) = t in rw (read_disk, e, f) refl

  write_disk_lem :
      (c : Client) (sector len : ℕ) (s : Server) (d : Option ℕ)
      → Translated d sector (calulate_sector_offset s.phys_partition_tables c sector)
      → write_disk sata_blk_size fails c sector len s ≡ some (served_tx d len s)
  unfolding write_disk
  write_disk_lem c sector len s none t = rw (write_disk, t) refl
  write_disk_lem c sector len s (some d) t = let (o, e, f) = t in rw (write_disk, e, f) refl

  guard_lem :
      (s : Server) (len : ℕ)
      → s.done_init ≢ 0
      → len ≤ buf_size
      → (s.done_init == 0 || ltb buf_size len) ≡ false
  guard_lem s len h k = elim (Bool-cases (s.done_init == 0)) [
    | inl b ↦ absurd (h (ground (arith, b)))
    | inr b ↦ ground (arith, b, k)
  ]

  -- For a client that is laid out within 32 bits, on a disk whose partitions end within 32 bits, a
  -- read or a write of at most a page at a sector from 64 on makes one call of the driver, which
  -- starts at the sector of the disk at that place of the client's partitions and takes as many
  -- sectors as the length has, even past the end of a partition. It returns the length, or 0 if the
  -- driver fails. Past the end of the partitions it makes no call and returns 0.
  pub client_rx-served :
      (c c' : Client) (id v len : ℕ) (s : Server)
      → Addressed s.phys_partition_tables
      → LaidOut s.phys_partition_tables c c'
      → s.done_init ≢ 0
      → len ≤ buf_size
      → find_client id s.clients ≡ some c'
      → (client_rx sata_blk_size fails id (64 + v) len s
          ≡ some (served_rx (disk_sector s.phys_partition_tables (given c) v) len s))
        × (client_tx sata_blk_size fails id (64 + v) len s
            ≡ some (served_tx (disk_sector s.phys_partition_tables (given c) v) len s))
  unfolding client_rx client_tx read_client
  client_rx-served c c' id v len s w l h k e =
      let o = disk_sector s.phys_partition_tables (given c) v in
      let t = (calulate_sector_offset-Translated s.phys_partition_tables c c' w l).1 v in
      let guard = guard_lem s len h k in
      let first : ltb (64 + v) 64 ≡ false = ground arith in
      let zero : (64 + v == 0) ≡ false = ground arith in
      (
        rw (guard, e, zero, first) (read_disk_lem c' (64 + v) len s o t),
        rw (guard, e, first) (write_disk_lem c' (64 + v) len s o t),
      )
