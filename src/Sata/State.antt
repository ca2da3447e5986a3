-- ===== src/Sata/State.antt =====
-- The state of sataserver.c. `Partition` is an entry of a master boot record, a type of another
-- library, by the fields that the code uses; they have the widths of the record.
use camkes_vm.Common.{ℕ, List, replicate}

pub record Partition : Type 0 where
  pub boot : ℕ
  pub sys_id : ℕ
  pub num_sectors : ℕ
  pub start_lba : ℕ
  pub head : ℕ
  pub sec_cyl : ℕ
  pub end_head : ℕ
  pub end_sec_cyl : ℕ

-- A client; its page of memory shows in the replies.
pub record Client : Type 0 where
  pub client_id : ℕ
  pub partitions : List ℕ
  pub num_partitions : ℕ
  pub partition_tables : List Partition
  pub capacity : ℕ

-- A call of the driver for the disk: the first sector and the number of sectors.
pub data DiskOp : Type 0 where
  read_sectors : ℕ → ℕ → DiskOp
  write_sectors : ℕ → ℕ → DiskOp

-- `log` holds the calls of the driver, the latest first.
pub record Server : Type 0 where
  pub assigned_parts : List ℕ
  pub phys_partition_tables : List Partition
  pub done_init : ℕ
  pub invalid_config : ℕ
  pub clients : List Client
  pub log : List DiskOp

abbrev pub max_partitions : ℕ
max_partitions = 4

abbrev pub virt_start_sector : ℕ
virt_start_sector = 64

abbrev pub buf_size : ℕ
buf_size = 4096

abbrev pub start_sector : ℕ
start_sector = 0

-- an entry that is cleared
abbrev pub cleared : Partition
cleared = record {
  boot = 0;
  sys_id = 0;
  num_sectors = 0;
  start_lba = 0;
  head = 0;
  sec_cyl = 0;
  end_head = 0;
  end_sec_cyl = 0;
}

-- a client as `calloc` leaves it
abbrev pub blank_client : Client
blank_client = record {
  client_id = 0;
  partitions = replicate max_partitions 0;
  num_partitions = 0;
  partition_tables = replicate max_partitions cleared;
  capacity = 0;
}
