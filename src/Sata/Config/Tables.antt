-- ===== src/Sata/Config/Tables.antt =====
-- The virtual disk of a client: its partitions of the disk one after another, from sector 64.
use camkes_vm.Common.{
  ℕ, ◌+◌, ◌-◌, ◌^◌, ◌<◌, ◌≡◌, Option, none, some, Option-cases, inl, inr, List, [], ◌∷◌, length,
  get_elem?, u32, ltb, if◌then◌else◌, arith,
}
use camkes_vm.Sata.State.{Partition}
use camkes_vm.Sata.Config.{place, virtual_entry, virtual_tables}

-- The sector of the disk at place `v` of the partitions `ps`, one after another.
unfoldable pub disk_sector : List Partition → List ℕ → ℕ → Option ℕ
disk_sector phys [] v = none
disk_sector phys (p ∷ ps) v = elim (get_elem? phys (place p)) [
  | none ↦ none
  | some q ↦
      if ltb v q.num_sectors
      then some (q.start_lba + v)
      else disk_sector phys ps (v - q.num_sectors)
]

-- sectors of a partition
abbrev pub size_of : Option Partition → ℕ
size_of none = 0
size_of (some q) = q.num_sectors

-- sectors of all partitions of a list
unfoldable pub size : List Partition → List ℕ → ℕ
size phys [] = 0
size phys (p ∷ ps) = size_of (get_elem? phys (place p)) + size phys ps

-- The first entry and the others.
pub virtual_tables-cons :
    (phys : List Partition) (start : ℕ) (p : ℕ) (ps : List ℕ) (ts : List Partition) (end : ℕ)
    → virtual_tables phys start (p ∷ ps) ≡ some (ts, end)
    → (q : Partition) × (us : List Partition) × (get_elem? phys (place p) ≡ some q)
      × (ts ≡ virtual_entry start q ∷ us)
      × (virtual_tables phys (u32 (start + q.num_sectors)) ps ≡ some (us, end))
unfolding virtual_tables
virtual_tables-cons phys start p ps ts end h = elim (Option-cases (get_elem? phys (place p))) [
  | inl e ↦ absurd (ground (arith, e, h))
  | inr (q, e) ↦ elim (Option-cases (virtual_tables phys (u32 (start + q.num_sectors)) ps)) [
    | inl f ↦ absurd (ground (arith, e, f, h))
    | inr ((us, m), f) ↦ (q, us, e, ground (arith, e, f, h), ground (arith, e, f, h))
  ]
]

-- The sector after the last entry, and the number of entries.
pub virtual_tables-size :
    (phys : List Partition) (start : ℕ) (ps : List ℕ) (ts : List Partition) (end : ℕ)
    → virtual_tables phys start ps ≡ some (ts, end)
    → start + size phys ps < 2 ^ 32
    → (end ≡ start + size phys ps) × (length ts ≡ length ps)
unfolding virtual_tables size
virtual_tables-size phys start [] ts end h l = ground (arith, h)
virtual_tables-size phys start (p ∷ ps) ts end h l =
    let (q, us, e, f, g) = virtual_tables-cons phys start p ps ts end h in
    let rest =
      virtual_tables-size phys (u32 (start + q.num_sectors)) ps us end g (ground (arith, e, l)) in
    ground (arith, e, f, rest, l)
