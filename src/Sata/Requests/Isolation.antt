-- ===== src/Sata/Requests/Isolation.antt =====
-- Requests of different clients reach different sectors of the disk.
use camkes_vm.Common.{
  ℕ, suc, ◌+◌, ◌-◌, ◌<◌, ◌≤◌, ◌≡◌, ◌≢◌, ◌⊎◌, refl, subst, Bool-cases, Option, none, some,
  Option-cases, inl, inr, List, [], ◌∷◌, length, get_elem?, u32, ltb, arith,
}
use camkes_vm.Sata.State.{Partition, Client}
use camkes_vm.Sata.Config.{place, given, assign_clients}
use camkes_vm.Sata.Config.Tables.{disk_sector}
use camkes_vm.Sata.Config.Marks.{assign_clients-distinct}
use camkes_vm.Sata.Requests.{Lookup, calulate_sector_offset}
use camkes_vm.Sata.Requests.Virtual.{
  Translated, Addressed, LaidOut, calulate_sector_offset-Translated,
}

-- No two partitions of the disk have a sector in common.
abbrev pub Disjoint : List Partition → Type 0
Disjoint phys =
    (i j : ℕ) (q r : Partition)
    → i ≢ j
    → get_elem? phys i ≡ some q
    → get_elem? phys j ≡ some r
    → (q.start_lba + q.num_sectors ≤ r.start_lba) ⊎ (r.start_lba + r.num_sectors ≤ q.start_lba)

-- The sector `d` lies in one of the partitions `ps` of the disk.
record Inside (phys : List Partition) (ps : List ℕ) (d : ℕ) : Type 0 where
  index : ℕ
  number : ℕ
  part : Partition
  listed : get_elem? ps index ≡ some number
  found : get_elem? phys (place number) ≡ some part
  above : part.start_lba ≤ d
  below : d < part.start_lba + part.num_sectors

disk_sector-Inside :
    (phys : List Partition) (ps : List ℕ) (v d : ℕ)
    → disk_sector phys ps v ≡ some d
    → Inside phys ps d
unfolding disk_sector
disk_sector-Inside phys [] v d h = absurd (ground (arith, h))
disk_sector-Inside phys (p ∷ ps) v d h = elim (Option-cases (get_elem? phys (place p))) [
  | inl e ↦ absurd (ground (arith, e, h))
  | inr (q, e) ↦ elim (Bool-cases (ltb v q.num_sectors)) [
    | inl b ↦ record {
      index = 0;
      number = p;
      part = q;
      listed = refl;
      found = e;
      above = ground (arith, e, b, h);
      below = ground (arith, e, b, h);
    }
    | inr b ↦
        let rest = disk_sector-Inside phys ps (v - q.num_sectors) d (ground (arith, e, b, h)) in
        record {
          index = suc rest.index;
          number = rest.number;
          part = rest.part;
          listed = rest.listed;
          found = rest.found;
          above = rest.above;
          below = rest.below;
        }
  ]
]

Translated-found :
    (o : Option ℕ) (s r : ℕ) → Translated o s (Lookup.found r) → o ≡ some (u32 (s + r))
Translated-found none s r t = absurd (ground (arith, t))
Translated-found (some d) s r t = let (x, e, f) = t in ground (arith, e, f)

-- A sector that the search finds lies in a partition of the client.
found-Inside :
    (phys : List Partition) (c c' : Client) (v o : ℕ)
    → Addressed phys
    → LaidOut phys c c'
    → calulate_sector_offset phys c' (64 + v) ≡ Lookup.found o
    → Inside phys (given c) (u32 (64 + v + o))
found-Inside phys c c' v o w l h = disk_sector-Inside phys (given c) v (u32 (64 + v + o)) (
    Translated-found (disk_sector phys (given c) v) (64 + v) o (
      subst (λ x. Translated (disk_sector phys (given c) v) (64 + v) x) h
        ((calulate_sector_offset-Translated phys c c' w l).1 v)))

-- When no client is refused and the partitions of the disk have no sector in common and end within
-- 32 bits, two different clients that are laid out within 32 bits reach different sectors of the
-- disk, whatever sectors of theirs are translated.
pub calulate_sector_offset-distinct :
    (phys : List Partition) (cs : List Client) (m m' : List ℕ) (i j : ℕ) (c d c' d' : Client)
    (v u o r : ℕ)
    → Addressed phys
    → Disjoint phys
    → length m ≡ 4
    → assign_clients cs m ≡ some m'
    → i < j
    → get_elem? cs i ≡ some c
    → get_elem? cs j ≡ some d
    → LaidOut phys c c'
    → LaidOut phys d d'
    → calulate_sector_offset phys c' (64 + v) ≡ Lookup.found o
    → calulate_sector_offset phys d' (64 + u) ≡ Lookup.found r
    → u32 (64 + v + o) ≢ u32 (64 + u + r)
calulate_sector_offset-distinct phys cs m m' i j c d c' d' v u o r w disjoint l h a e f lc ld x y =
    let s = found-Inside phys c c' v o w lc x in
    let t = found-Inside phys d d' u r w ld y in
    let apart =
      assign_clients-distinct cs m m' i j s.index t.index s.number t.number c d l h a e f s.listed
        t.listed in
    λ same. absurd (
      ground (
        arith,
        same,
        disjoint (place s.number) (place t.number) s.part t.part apart s.found t.found,
        s.above,
        s.below,
        t.above,
        t.below,
      ))
