-- ===== src/Blk/Served.antt =====
-- The virtual disk of a guest on the SATA server.
use camkes_vm.Common.{
  ℕ, ◌+◌, ◌/◌, ◌^◌, ◌<◌, ◌≤◌, ◌≡◌, ◌≢◌, refl, ap, ◌∙◌, Bool, false, Bool-cases, inl, inr, Option,
  none, some, List, ◌∷◌, u32, arith, if◌then◌else◌, ◌==◌,
}
use native.Mathlib.Nat.{mod-eq_of_lt}
use camkes_vm.Sata.State.{Client, DiskOp, read_sectors, write_sectors, Server, buf_size}
use camkes_vm.Sata.Config.{given}
use camkes_vm.Sata.Config.Tables.{disk_sector}
use camkes_vm.Sata.Requests.{
  Packet, untouched, sectors, find_client, run, client_rx, client_tx, client_get_capacity,
}
use camkes_vm.Sata.Requests.Virtual.{Addressed, LaidOut}
use camkes_vm.Sata.Requests.Served.{served_rx, served_tx, client_rx-served}
use camkes_vm.Blk.{
  t_in, t_out, Transfer, xfer_complete, xfer_failed, SataserverIface, memcpy, transfer_status,
  virtio_blk_emul_transfer,
}

-- The SATA server and the page that it shares with the guest `id`.
pub record Shared : Type 0 where
  pub server : Server
  pub page : List ℕ

module _ {S : Type 0} (iface : SataserverIface S) (sector len : ℕ) (guest : List ℕ) (s : S) (n : ℕ)
    (s' : S) where
  transfer_in :
      iface.rx (u32 sector) len s ≡ some (n, s')
      → virtio_blk_emul_transfer iface t_in sector len guest s
        ≡ some (transfer_status n, memcpy len (iface.buf s') guest, s')
  unfolding virtio_blk_emul_transfer
  transfer_in e = rw (virtio_blk_emul_transfer, e) refl

  transfer_out :
      iface.tx (u32 sector) len (iface.with_buf (memcpy len guest (iface.buf s)) s) ≡ some (n, s')
      → virtio_blk_emul_transfer iface t_out sector len guest s
        ≡ some (transfer_status n, guest, s')
  unfolding virtio_blk_emul_transfer
  transfer_out e = rw (virtio_blk_emul_transfer, e) refl

-- `bytes` says what a page is after the server has put something there.
module _ (sata_blk_size : ℕ) (fails : List DiskOp → Bool) (bytes : Packet → List ℕ → List ℕ)
    (id : ℕ) where
  abbrev pub answered_rx : Shared → Option (ℕ × Packet × Server) → Option (ℕ × Shared)
  answered_rx s none = none
  answered_rx s (some (n, p, server)) = some (n, record { server = server; page = bytes p s.page })

  abbrev pub answered_tx : Shared → Option (ℕ × Server) → Option (ℕ × Shared)
  answered_tx s none = none
  answered_tx s (some (n, server)) = some (n, record { server = server; page = s.page })

  -- The server as the monitor calls it.
  abbrev pub sataserver : SataserverIface Shared
  sataserver = record {
    rx = λ sector len s. answered_rx s (client_rx sata_blk_size fails id sector len s.server);
    tx = λ sector len s. answered_tx s (client_tx sata_blk_size fails id sector len s.server);
    get_capacity = λ s. client_get_capacity id s.server;
    buf = λ s. s.page;
    with_buf = λ page s. record { server = s.server; page = page };
  }

  -- A request that the disk serves at its sector `d`, or that lies past the end of the partitions.
  abbrev pub disk_in : Option ℕ → ℕ → List ℕ → Shared → Transfer × List ℕ × Shared
  disk_in none len guest s =
      let page = bytes untouched s.page in
      (xfer_failed, memcpy len page guest, record { server = s.server; page = page })
  disk_in (some d) len guest s =
      let (err, server') =
        run sata_blk_size fails (read_sectors d (len / sata_blk_size)) s.server in
      let page = bytes (sectors d (len / sata_blk_size)) s.page in
      (
        if err then xfer_failed else xfer_complete,
        memcpy len page guest,
        record { server = server'; page = page },
      )

  abbrev pub disk_out : Option ℕ → ℕ → List ℕ → Shared → Transfer × List ℕ × Shared
  disk_out none len guest s =
      (xfer_failed, guest, record { server = s.server; page = memcpy len guest s.page })
  disk_out (some d) len guest s =
      let (err, server') =
        run sata_blk_size fails (write_sectors d (len / sata_blk_size)) s.server in
      (
        if err then xfer_failed else xfer_complete,
        guest,
        record { server = server'; page = memcpy len guest s.page },
      )

  -- what the answers of the server come to
  status_in :
      (d : Option ℕ) (len : ℕ) (guest : List ℕ) (s : Shared)
      → len ≢ 0
      → let (n, p, server) = served_rx sata_blk_size fails d len s.server in
        (
          transfer_status n,
          memcpy len (bytes p s.page) guest,
          record { server = server; page = bytes p s.page },
        )
        ≡ disk_in d len guest s
  status_in none len guest s h = refl
  status_in (some d) len guest s h =
      elim (Bool-cases (fails (read_sectors d (len / sata_blk_size) ∷ s.server.log))) [
        | inl b ↦ rw b refl
        | inr b ↦ let whole : (len == 0) ≡ false = ground (arith, h) in rw (b, whole) refl
      ]

  status_out :
      (d : Option ℕ) (len : ℕ) (guest : List ℕ) (s : Shared)
      → len ≢ 0
      → let (n, server) = served_tx sata_blk_size fails d len s.server in
        (transfer_status n, guest, record { server = server; page = memcpy len guest s.page })
        ≡ disk_out d len guest s
  status_out none len guest s h = refl
  status_out (some d) len guest s h =
      elim (Bool-cases (fails (write_sectors d (len / sata_blk_size) ∷ s.server.log))) [
        | inl b ↦ rw b refl
        | inr b ↦ let whole : (len == 0) ≡ false = ground (arith, h) in rw (b, whole) refl
      ]

  -- For a guest that is laid out within 32 bits, on a disk whose partitions end within 32 bits, a
  -- request of at least a byte and at most a page, at a sector from 64 on that has 32 bits, is
  -- complete exactly when its place lies in the guest's partitions and the driver reports no error.
  -- The one call of the driver that is made starts at the sector of the disk at that place; a read
  -- gives the guest what the driver read, and a write has put the guest's bytes in the page before.
  pub virtio_blk_emul_transfer-served :
      (c c' : Client) (v len : ℕ) (guest : List ℕ) (s : Shared)
      → Addressed s.server.phys_partition_tables
      → LaidOut s.server.phys_partition_tables c c'
      → s.server.done_init ≢ 0
      → len ≢ 0
      → len ≤ buf_size
      → 64 + v < 2 ^ 32
      → find_client id s.server.clients ≡ some c'
      → (virtio_blk_emul_transfer sataserver t_in (64 + v) len guest s
          ≡ some (disk_in (disk_sector s.server.phys_partition_tables (given c) v) len guest s))
        × (virtio_blk_emul_transfer sataserver t_out (64 + v) len guest s
            ≡ some (disk_out (disk_sector s.server.phys_partition_tables (given c) v) len guest s))
  virtio_blk_emul_transfer-served c c' v len guest s w l h n k small e =
      let d = disk_sector s.server.phys_partition_tables (given c) v in
      let served = client_rx-served sata_blk_size fails c c' id v len s.server w l h k e in
      let sector : u32 (64 + v) ≡ 64 + v = mod-eq_of_lt small in
      let filled : Shared = record { server = s.server; page = memcpy len guest s.page } in
      let (rn, rp, rs) = served_rx sata_blk_size fails d len s.server in
      let (tn, ts) = served_tx sata_blk_size fails d len s.server in
      (
        transfer_in sataserver (64 + v) len guest s rn
              (record { server = rs; page = bytes rp s.page })
              (ap (λ n. answered_rx s (client_rx sata_blk_size fails id n len s.server)) sector
                ∙ ap (answered_rx s) served.0)
            ∙ ap some (status_in d len guest s n),
        transfer_out sataserver (64 + v) len guest s tn (record { server = ts; page = filled.page })
              (ap (λ n. answered_tx filled (client_tx sata_blk_size fails id n len s.server)) sector
                ∙ ap (answered_tx filled) served.1)
            ∙ ap some (status_out d len guest s n),
      )
