-- ===== src/VmArm/Mapping.antt =====
-- The mapping of physical memory into the monitor: `vm_map_paddr` of components/VM_Arm/src/main.c.
pub mod Balance
pub mod Released
pub mod Cover
use camkes_vm.Common.{
  ℕ, zero, suc, ◌+◌, ◌-◌, ◌*◌, ◌/◌, ◌%◌, ◌^◌, ◌<◌, ◌≤◌, ◌≡◌, Bool, true, false, ◌&&◌, Option, none,
  some, List, [], ◌∷◌, ◌++◌, get_or, length, u32, ltb, if◌then◌else◌, ◌==◌,
}

-- A call of the allocators or of the kernel. A slot of the capability space and the cookie of an
-- untyped allocation are the numbers that the calls give.
pub data Call : Type 0 where
  cspace_alloc : Call
  utspace_alloc_at : ℕ → ℕ → ℕ → Call
  get_frame_cap : ℕ → ℕ → ℕ → Call
  map_pages : List ℕ → ℕ → Call
  alloc_frame : ℕ → Call
  cnode_delete : ℕ → Call
  utspace_free : ℕ → ℕ → Call
  cspace_free : ℕ → Call

-- How an untyped allocation at an address ends: with its cookie, with a copy of the capability of a
-- dataport, which leaves in the cookie what the variable held, `none` for -1, or without a frame.
pub data Untyped : Type 0 where
  granted : ℕ → Untyped
  copied : Option ℕ → Untyped
  unavailable : Untyped

-- The cookie when the call succeeds.
abbrev pub cookie_of : Untyped → Option (Option ℕ)
cookie_of (granted c) = some (some c)
cookie_of (copied g) = some g
cookie_of unavailable = none

-- What other libraries say: the slot, untyped allocation, address or frame of memory that the call at the head
-- of a log gives, if it does not fail, whether there is a capability for a frame, the number of
-- values of a word, the two roundings and the sizes of pages, as powers of two from the smallest.
pub record Host : Type 0 where
  pub slot : List Call → Option ℕ
  pub untyped : List Call → Untyped
  pub has_frame : List Call → Bool
  pub mapped : List Call → Option ℕ
  pub ram_frame : List Call → Option ℕ
  pub word : ℕ
  pub round_down : ℕ → ℕ → ℕ
  pub round_up : ℕ → ℕ → ℕ
  pub page_sizes : List ℕ

-- A frame of the arrays `frames` and `cookies`; the cookie `none` is -1.
pub record Frame : Type 0 where
  pub slot : ℕ
  pub cookie : Option ℕ

-- The end of the loop over the pages: the frames so far, with all of them there, with one that
-- could not be had, or stopped by an assertion.
pub data Frames : Type 0 where
  complete : List Frame → Frames
  short : List Frame → Frames
  stopped : Frames

-- An address, `NULL`, or stopped by an assertion.
pub data Mapped : Type 0 where
  at : ℕ → Mapped
  refused : Mapped
  failed_assert : Mapped

-- An entry of the section `_dataport_frames`.
pub record DataportFrame : Type 0 where
  pub paddr : ℕ
  pub size : ℕ
  pub vaddr : ℕ

-- What `free_cookie` frees: nothing for -1.
abbrev pub free_cookie : ℕ → Option ℕ → List Call → List Call
free_cookie bits none log = log
free_cookie bits (some c) log = utspace_free bits c ∷ log

-- The loop at the label `error`.
unfoldable pub release_frames : ℕ → List Frame → List Call → List Call
release_frames bits [] log = log
release_frames bits (f ∷ fs) log =
    release_frames bits fs
      (cspace_free f.slot ∷ free_cookie bits f.cookie (cnode_delete f.slot ∷ log))

-- A try, and what is done when it is refused.
abbrev pub or_else : Mapped × List Call → (List Call → Mapped × List Call) → Mapped × List Call
or_else (at v, log) next = (at v, log)
or_else (failed_assert, log) next = (failed_assert, log)
or_else (refused, log) next = next log

-- `none` is `NULL`. A frame of another size is logged.
-- The address of a dataport is not NULL.
unfoldable pub find_dataport_frame : ℕ → ℕ → List DataportFrame → Option ℕ
find_dataport_frame paddr size [] = none
find_dataport_frame paddr size (f ∷ fs) =
    if f.paddr == paddr && f.size == size then some f.vaddr else find_dataport_frame paddr size fs

abbrev pub slots : List Frame → List ℕ
slots [] = []
slots (f ∷ fs) = f.slot ∷ slots fs

module _ (host : Host) where
  -- The loop over the pages from page `i` on, with `n` to go; `fs` are the frames so far.
  unfoldable pub get_frames : ℕ → ℕ → ℕ → ℕ → List Frame → List Call → Frames × List Call
  get_frames bits start zero i fs log = (complete fs, log)
  get_frames bits start (suc n) i fs log =
      let paddr = (start + u32 (i * 2 ^ bits)) % host.word in
      elim (host.slot (cspace_alloc ∷ log)) [
        | none ↦ (stopped, cspace_alloc ∷ log)
        | some s ↦
            elim (cookie_of (host.untyped (utspace_alloc_at s bits paddr ∷ cspace_alloc ∷ log))) [
              | some c ↦
                  get_frames bits start n (i + 1) (fs ++ (record { slot = s; cookie = c } ∷ []))
                    (utspace_alloc_at s bits paddr ∷ cspace_alloc ∷ log)
              | none ↦
                  elim (host.has_frame (
                    get_frame_cap s bits paddr
                    ∷ utspace_alloc_at s bits paddr
                    ∷ cspace_alloc
                    ∷ log)) [
                      | true ↦
                          get_frames bits start n (i + 1)
                            (fs ++ (record { slot = s; cookie = none } ∷ []))
                            (get_frame_cap s bits paddr
                              ∷ utspace_alloc_at s bits paddr
                              ∷ cspace_alloc
                              ∷ log)
                      | false ↦ (
                        short fs,
                        cspace_free s
                            ∷ get_frame_cap s bits paddr
                            ∷ utspace_alloc_at s bits paddr
                            ∷ cspace_alloc
                            ∷ log,
                      )
                    ]
            ]
      ]

  -- The part after the frames were asked for; `offset` is that of the address in its page.
  unfoldable pub map_frames : ℕ → ℕ → Frames × List Call → Mapped × List Call
  map_frames bits offset (stopped, log) = (failed_assert, log)
  map_frames bits offset (short fs, log) = (refused, release_frames bits fs log)
  map_frames bits offset (complete fs, log) = elim (host.mapped (map_pages (slots fs) bits ∷ log)) [
    | some vaddr ↦ (at ((vaddr + offset) % host.word), map_pages (slots fs) bits ∷ log)
    | none ↦ (refused, release_frames bits fs (map_pages (slots fs) bits ∷ log))
  ]

  abbrev pub page_start : ℕ → ℕ → ℕ
  page_start paddr bits = host.round_down paddr (2 ^ bits)

  -- The size from the start of the first page, and the number of pages.
  abbrev pub page_size_sum : ℕ → ℕ → ℕ → ℕ
  page_size_sum paddr size bits = (size + (paddr - page_start paddr bits)) % host.word

  abbrev pub num_pages : ℕ → ℕ → ℕ → ℕ
  num_pages paddr size bits =
      u32 (host.round_up (page_size_sum paddr size bits) (2 ^ bits) / 2 ^ bits)

  unfoldable pub vm_map_paddr_with_page_size : ℕ → ℕ → ℕ → List Call → Mapped × List Call
  vm_map_paddr_with_page_size paddr size bits log =
      if ltb (u32 (num_pages paddr size bits * 2 ^ bits)) (page_size_sum paddr size bits)
      then (failed_assert, log)
      else map_frames bits (paddr - page_start paddr bits)
          (get_frames bits (page_start paddr bits) (num_pages paddr size bits) 0 [] log)

  -- The largest page size worth a try: the loop from index `i`, with the sizes after it.
  unfoldable pub frame_size_from : ℕ → ℕ → List ℕ → ℕ
  frame_size_from size i [] = i
  frame_size_from size i (b ∷ bs) = if size / 2 ^ b == 0 then i else frame_size_from size (i + 1) bs

  abbrev pub rest : List ℕ → List ℕ
  rest [] = []
  rest (b ∷ bs) = bs

  unfoldable pub frame_size_index : ℕ → ℕ
  frame_size_index size = frame_size_from size 0 (rest host.page_sizes)

  -- The tries with `n` page sizes, from the largest down.
  unfoldable pub try_sizes : ℕ → ℕ → ℕ → List Call → Mapped × List Call
  try_sizes paddr size zero log = (refused, log)
  try_sizes paddr size (suc n) log =
      or_else (vm_map_paddr_with_page_size paddr size (get_or host.page_sizes n 0) log)
        (try_sizes paddr size n)

  unfoldable pub vm_map_paddr : List DataportFrame → ℕ → ℕ → List Call → Mapped × List Call
  vm_map_paddr dataports paddr size log = elim (find_dataport_frame paddr size dataports) [
    | some v ↦ (at v, log)
    | none ↦ try_sizes paddr size (frame_size_index size + 1) log
  ]
