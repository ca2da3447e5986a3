-- ===== src/VmArm/Mapping/Released.antt =====
-- A mapping that is refused gives back what it took.
use camkes_vm.Common.{
  ℕ, zero, suc, ◌+◌, ◌-◌, ◌*◌, ◌^◌, ◌≡◌, subst, Bool-cases, Option-cases, inl, inr, List, [], ◌∷◌,
  get_or, u32, ltb, arith,
}
use camkes_vm.VmArm.Mapping.{
  Call, map_pages, Host, Frames, complete, short, stopped, Mapped, at, refused, failed_assert,
  release_frames, get_frames, slots, map_frames, page_start, page_size_sum, num_pages,
  vm_map_paddr_with_page_size, DataportFrame, find_dataport_frame, frame_size_index, or_else,
  try_sizes, vm_map_paddr,
}
use camkes_vm.VmArm.Mapping.Balance.{
  Holds, Holds-trans, release_frames-Holds, Collected, get_frames-Collected,
}

module _ (host : Host) where
  -- A refused call holds nothing.
  abbrev pub Released : List Call → Mapped × List Call → Type 0
  Released log (refused, log') = Holds host [] [] log log'
  Released log (at v, log') = Unit
  Released log (failed_assert, log') = Unit

  map_frames-Released :
      (bits offset : ℕ) (log : List Call) (r : Frames × List Call)
      → Collected host [] log r
      → Released log (map_frames host bits offset r)
  unfolding map_frames
  map_frames-Released bits offset log (stopped, log') h = tt
  map_frames-Released bits offset log (short fs, log') h =
      Holds-trans host [] fs [] log log' (release_frames bits fs log') h
        (release_frames-Holds host bits fs log')
  map_frames-Released bits offset log (complete fs, log') h =
      let l1 : List Call = map_pages (slots fs) bits ∷ log' in
      elim (Option-cases (host.mapped l1)) [
        | inr (v, e) ↦ rw (map_frames, e) tt
        | inl e ↦
            let k : Holds host fs fs log' l1 = record {
              slots_held = λ x. omega arith;
              cookies_held = λ x. omega arith;
            } in
            rw (map_frames, e)
              (Holds-trans host [] fs [] log log' (release_frames bits fs l1) h (
                Holds-trans host fs fs [] log' l1 (release_frames bits fs l1) k
                  (release_frames-Holds host bits fs l1)))
      ]

  vm_map_paddr_with_page_size-Released :
      (paddr size bits : ℕ) (log : List Call)
      → Released log (vm_map_paddr_with_page_size host paddr size bits log)
  unfolding vm_map_paddr_with_page_size
  vm_map_paddr_with_page_size-Released paddr size bits log =
      let start = page_start host paddr bits in
      elim (Bool-cases (
        ltb (u32 (num_pages host paddr size bits * 2 ^ bits))
          (page_size_sum host paddr size bits))) [
            | inl e ↦ rw (vm_map_paddr_with_page_size, e) tt
            | inr e ↦
                rw (vm_map_paddr_with_page_size, e)
                  (map_frames-Released bits (paddr - start) log
                    (get_frames host bits start (num_pages host paddr size bits) 0 [] log)
                    (get_frames-Collected host bits start (num_pages host paddr size bits) 0 []
                      log))
          ]

  Released-after :
      (log log' : List Call) (r : Mapped × List Call)
      → Holds host [] [] log log'
      → Released log' r
      → Released log r
  Released-after log log' (refused, log'') h k = Holds-trans host [] [] [] log log' log'' h k
  Released-after log log' (at v, log'') h k = tt
  Released-after log log' (failed_assert, log'') h k = tt

  or_else-Released :
      (log : List Call) (r : Mapped × List Call) (next : List Call → Mapped × List Call)
      → Released log r
      → ((log' : List Call) → Released log' (next log'))
      → Released log (or_else r next)
  or_else-Released log (at v, log') next h k = tt
  or_else-Released log (failed_assert, log') next h k = tt
  or_else-Released log (refused, log') next h k = Released-after log log' (next log') h (k log')

  try_sizes-Released :
      (paddr size n : ℕ) (log : List Call) → Released log (try_sizes host paddr size n log)
  unfolding try_sizes
  try_sizes-Released paddr size zero log = record {
    slots_held = λ x. omega arith;
    cookies_held = λ x. omega arith;
  }
  try_sizes-Released paddr size (suc n) log =
      let bits = get_or host.page_sizes n 0 in
      or_else-Released log (vm_map_paddr_with_page_size host paddr size bits log)
        (try_sizes host paddr size n) (vm_map_paddr_with_page_size-Released paddr size bits log)
        (λ log'. try_sizes-Released paddr size n log')

  vm_map_paddr-Released_lem :
      (dataports : List DataportFrame) (paddr size : ℕ) (log : List Call)
      → Released log (vm_map_paddr host dataports paddr size log)
  unfolding vm_map_paddr
  vm_map_paddr-Released_lem dataports paddr size log =
      elim (Option-cases (find_dataport_frame paddr size dataports)) [
        | inl e ↦
            rw (vm_map_paddr, e)
              (try_sizes-Released paddr size (frame_size_index host size + 1) log)
        | inr (v, e) ↦ rw (vm_map_paddr, e) tt
      ]

  -- A mapping that is refused, in every page size tried, has given back each slot of the capability
  -- space exactly as often as it was given it. It has freed each cookie as often as an untyped
  -- allocation gave it and as often, besides, as the variable for a cookie held it, unset, when the
  -- page of a dataport was copied.
  pub vm_map_paddr-Released :
      (dataports : List DataportFrame) (paddr size : ℕ) (log log' : List Call)
      → vm_map_paddr host dataports paddr size log ≡ (refused, log')
      → Holds host [] [] log log'
  vm_map_paddr-Released dataports paddr size log log' h =
      subst (Released log) h (vm_map_paddr-Released_lem dataports paddr size log)
