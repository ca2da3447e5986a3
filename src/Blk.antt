-- ===== src/Blk.antt =====
-- The virtual disk of a guest, components/Init/src/virtio_blk.c: requests of the guest become calls
-- of the SATA server, whose page is shared.
pub mod Served
mod Tests
use camkes_vm.Common.{
  ℕ, zero, suc, ◌≡◌, Bool, true, false, Option, none, some, List, [], ◌∷◌, u32, if◌then◌else◌, ◌==◌,
}

-- The directions of a request, `VIRTIO_BLK_T_…`.
pub data Direction : Type 0 where
  t_in : Direction
  t_out : Direction
  t_scsi_cmd : Direction
  t_flush : Direction
  t_get_id : Direction
  t_invalid : Direction

pub data Transfer : Type 0 where
  xfer_complete : Transfer
  xfer_failed : Transfer

pub record BlkConfig : Type 0 where
  pub capacity : ℕ
  pub seg_max : ℕ
  pub size_max : ℕ
  pub blk_size : ℕ

-- What the monitor calls of the SATA server, with the state `S` that it shares with it. `none`
-- means that the server stops at an assertion. `buf` is the page, and `with_buf` changes it.
pub record SataserverIface (S : Type 0) : Type 0 where
  pub rx : ℕ → ℕ → S → Option (ℕ × S)
  pub tx : ℕ → ℕ → S → Option (ℕ × S)
  pub get_capacity : S → Option ℕ
  pub buf : S → List ℕ
  pub with_buf : List ℕ → S → S

-- `memcpy` of so many bytes, from the first memory to the second. It stops where one of them ends;
-- what C does past that has no result here.
abbrev pub memcpy : ℕ → List ℕ → List ℕ → List ℕ
memcpy zero from to = to
memcpy (suc n) [] to = to
memcpy (suc n) (x ∷ from) [] = []
memcpy (suc n) (x ∷ from) (y ∷ to) = x ∷ memcpy n from to

abbrev pub transfer_status : ℕ → Transfer
transfer_status status = if status == 0 then xfer_failed else xfer_complete

module _ {S : Type 0} (iface : SataserverIface S) where
  -- The result, the memory of the guest and the state. The sector becomes an `unsigned int` in the
  -- call.
  unfoldable pub virtio_blk_emul_transfer :
      Direction → ℕ → ℕ → List ℕ → S → Option (Transfer × List ℕ × S)
  virtio_blk_emul_transfer t_in sector len guest s = elim (iface.rx (u32 sector) len s) [
    | none ↦ none
    | some r ↦
        (let (status, s') = r in some (transfer_status status, memcpy len (iface.buf s') guest, s'))
  ]
  virtio_blk_emul_transfer t_out sector len guest s =
      elim (iface.tx (u32 sector) len (iface.with_buf (memcpy len guest (iface.buf s)) s)) [
        | none ↦ none
        | some r ↦ (let (status, s') = r in some (transfer_status status, guest, s'))
      ]
  virtio_blk_emul_transfer t_scsi_cmd sector len guest s = some (transfer_status 0, guest, s)
  virtio_blk_emul_transfer t_flush sector len guest s = some (transfer_status 0, guest, s)
  virtio_blk_emul_transfer t_get_id sector len guest s = some (transfer_status 0, guest, s)
  virtio_blk_emul_transfer t_invalid sector len guest s = some (transfer_status 0, guest, s)

  unfoldable pub emul_low_level_init : S → Option BlkConfig
  emul_low_level_init s = elim (iface.get_capacity s) [
    | none ↦ none
    | some c ↦ some (record { capacity = c; seg_max = 1; size_max = 4096; blk_size = 512 })
  ]
