-- ===== src/Sata/Requests/Virtual.antt =====
-- The sectors of a client's virtual disk, as `post_init` lays it out, are those of its partitions.
use camkes_vm.Common.{
  ℕ, zero, suc, ◌+◌, ◌-◌, ◌^◌, ◌<◌, ◌≤◌, ◌≡◌, refl, ap, ◌∙◌, subst, true, false, Bool-cases, Option,
  none, some, Option-cases, inl, inr, List, [], ◌∷◌, length, ◌++◌, replicate, take, get_elem?, u32,
  ltb, arith,
}
use camkes_vm.Sata.State.{Partition, Client, max_partitions, virt_start_sector, cleared}
use camkes_vm.Sata.Config.{place, given, virtual_entry, virtual_tables, lay_out}
use camkes_vm.Sata.Config.Tables.{disk_sector, size, virtual_tables-cons, virtual_tables-size}
use camkes_vm.Sata.Requests.{
  Lookup, missing, found, in_partition, offset_of, search_offset, calulate_sector_offset,
}

-- What the search for sector `s` finds when the sector of the disk is `d`.
abbrev pub Translated : Option ℕ → ℕ → Lookup → Type 0
Translated none s l = l ≡ missing
Translated (some d) s l = (o : ℕ) × (l ≡ found o) × (u32 (s + o) ≡ d)

-- The partitions of the disk end within the 32 bits of an address.
abbrev pub Addressed : List Partition → Type 0
Addressed phys =
    (i : ℕ) (q : Partition) → get_elem? phys i ≡ some q → q.start_lba + q.num_sectors ≤ 2 ^ 32

offset_lem :
    (phys : List Partition) (start p : ℕ) (q : Partition)
    → get_elem? phys (place p) ≡ some q
    → offset_of phys p (virtual_entry start q) ≡ found (u32 (q.start_lba + (2 ^ 32 - start)))
unfolding offset_of virtual_entry
offset_lem phys start p q e = rw (offset_of, e) refl

inside_lem :
    (start v : ℕ) (q : Partition)
    → start + q.num_sectors < 2 ^ 32
    → in_partition (start + v) (virtual_entry start q) ≡ ltb v q.num_sectors
unfolding virtual_entry
inside_lem start v q h = ground arith

module _ (phys : List Partition) (w : Addressed phys) where
  search_lem :
      (start v : ℕ) (ps : List ℕ) (ts : List Partition) (end : ℕ)
      → virtual_tables phys start ps ≡ some (ts, end)
      → start + size phys ps < 2 ^ 32
      → Translated
          (disk_sector phys ps v)
          (start + v)
          (search_offset phys (start + v) (length ps) ps ts)
  unfolding search_offset disk_sector size
  search_lem start v [] ts end h l = refl
  search_lem start v (p ∷ ps) ts end h l =
      let (q, us, e, f, g) = virtual_tables-cons phys start p ps ts end h in
      let inside = inside_lem start v q (ground (arith, e, l)) in
      elim (Bool-cases (ltb v q.num_sectors)) [
        | inl b ↦
            rw (f, disk_sector, e, b, search_offset, inside, b, offset_lem phys start p q e)
              (u32 (q.start_lba + (2 ^ 32 - start)), refl, ground (arith, w (place p) q e, b, e, l))
        | inr b ↦
            rw (f, disk_sector, e, b, search_offset, inside, b)
              (subst
                (λ x.
                  Translated (disk_sector phys ps (v - q.num_sectors)) x
                    (search_offset phys x (length ps) ps us))
                (ground (arith, b, e, l))
                (search_lem (u32 (start + q.num_sectors)) (v - q.num_sectors) ps us end g
                  (ground (arith, e, l))))
      ]

-- The search stops before the entries that are not used.
search_offset-pad :
    (phys : List Partition) (s n : ℕ) (ps : List ℕ) (ts us : List Partition)
    → n ≤ length ps
    → length ts ≡ length (take n ps)
    → search_offset phys s n ps (ts ++ us)
      ≡ search_offset phys s (length (take n ps)) (take n ps) ts
unfolding search_offset
search_offset-pad phys s zero ps ts us h l = refl
search_offset-pad phys s (suc n) [] ts us h l = absurd (omega (arith, h))
search_offset-pad phys s (suc n) (p ∷ ps) [] us h l = absurd (omega (arith, l))
search_offset-pad phys s (suc n) (p ∷ ps) (t ∷ ts) us h l =
    ap (λ r. elim (in_partition s t) [ true ↦ offset_of phys p t | false ↦ r ])
      (search_offset-pad phys s n ps ts us (omega (arith, h)) (omega (arith, l)))

-- What `lay_out` makes of a client.
pub lay_out-fields :
    (phys : List Partition) (c c' : Client)
    → lay_out phys c ≡ some c'
    → (ts : List Partition) × (end : ℕ) × (virtual_tables phys virt_start_sector (given c)
        ≡ some (ts, end))
      × (c' ≡ record c {
        partition_tables = ts ++ replicate (max_partitions - length ts) cleared;
        capacity = end;
      })
unfolding lay_out
lay_out-fields phys c c' h = elim (Option-cases (virtual_tables phys virt_start_sector (given c))) [
  | inl e ↦ absurd (ground (arith, e, h))
  | inr ((ts, end), e) ↦ (ts, end, e, ground (arith, e, h))
]

-- `c'` is the client `c` laid out, and its virtual disk ends within the 32 bits of an address.
pub record LaidOut (phys : List Partition) (c c' : Client) : Type 0 where
  pub listed : c.num_partitions ≤ length c.partitions
  pub small : 64 + size phys (given c) < 2 ^ 32
  pub made : lay_out phys c ≡ some c'

-- On a disk whose partitions end within 32 bits, a client that is laid out within 32 bits has a
-- capacity of 64 sectors and those of its partitions. A sector from 64 on is translated to the
-- sector of the disk at that place of its partitions, one after another, and none is found past
-- their end.
pub calulate_sector_offset-Translated :
    (phys : List Partition) (c c' : Client)
    → Addressed phys
    → LaidOut phys c c'
    → (c'.capacity ≡ 64 + size phys (given c))
      × ((v : ℕ)
          → Translated
              (disk_sector phys (given c) v)
              (64 + v)
              (calulate_sector_offset phys c' (64 + v)))
unfolding calulate_sector_offset
calulate_sector_offset-Translated phys c c' w l =
    let (ts, end, e, f) = lay_out-fields phys c c' l.made in
    let (m, k) = virtual_tables-size phys virt_start_sector (given c) ts end e l.small in
    (
      ap (λ d. d.capacity) f ∙ m,
      λ v.
          rw
            (
              f,
              search_offset-pad phys (64 + v) c.num_partitions c.partitions ts
                  (replicate (max_partitions - length ts) cleared) l.listed k,
            )
            (search_lem phys w virt_start_sector v (given c) ts end e l.small),
    )
