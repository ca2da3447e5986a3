-- ===== src/VmArm/CrossVm.antt =====
-- The connections to other virtual machines, components/VM_Arm/src/crossvm.c.
pub mod Filled
use camkes_vm.Common.{
  ℕ, zero, suc, ◌+◌, ◌≡◌, Bool, true, false, Option, none, some, List, [], ◌∷◌, length, set,
  replicate, ltb, if◌then◌else◌,
}

-- A connection, with what its functions for the dataport say.
pub record Connection : Type 0 where
  pub frame_size_bits : ℕ
  pub frames : List ℕ
  pub emit_fn : ℕ
  pub consume_badge : ℕ
  pub connection_name : ℕ

-- `crossvm_handle_t`, with its dataport.
pub record CrossvmHandle : Type 0 where
  pub frame_size_bits : ℕ
  pub num_frames : ℕ
  pub frames : List ℕ
  pub emit_fn : ℕ
  pub consume_id : ℕ
  pub connection_name : ℕ

-- The array of handles, of which `none` is one of zeros; -1; or a write past the end of the array.
pub data Handles : Type 0 where
  connected : List (Option CrossvmHandle) → Handles
  no_memory : Handles
  written_past : Handles

abbrev pub handle_of : Connection → CrossvmHandle
handle_of c = record {
  frame_size_bits = c.frame_size_bits;
  num_frames = length c.frames;
  frames = c.frames;
  emit_fn = c.emit_fn;
  consume_id = c.consume_badge;
  connection_name = c.connection_name;
}

-- What is done with an array.
abbrev pub and_next : Handles → (List (Option CrossvmHandle) → Handles) → Handles
and_next (connected arr) next = next arr
and_next no_memory next = no_memory
and_next written_past next = written_past

-- `sectioned_connections`
abbrev pub sectioned : List (Option Connection) → ℕ
sectioned [] = 0
sectioned (none ∷ ps) = sectioned ps
sectioned (some c ∷ ps) = suc (sectioned ps)

-- `memory` says whether there is memory for the dataport of the handle at an index.
module _ (memory : ℕ → Bool) where
  unfoldable pub setup_connection : List (Option CrossvmHandle) → ℕ → Connection → Handles
  setup_connection arr index c =
      if memory index
      then (if ltb index (length arr)
          then connected (set arr index (some (handle_of c)))
          else written_past)
      else no_memory

  -- The loop over the array of connections, from index `i` on.
  unfoldable pub connect_list : ℕ → List Connection → List (Option CrossvmHandle) → Handles
  connect_list i [] arr = connected arr
  connect_list i (c ∷ cs) arr = and_next (setup_connection arr i c) (connect_list (i + 1) cs)

  -- The loop over the pointers of the section, where `none` is NULL.
  unfoldable pub connect_section :
      ℕ → List (Option Connection) → List (Option CrossvmHandle) → Handles
  connect_section i [] arr = connected arr
  connect_section i (none ∷ ps) arr = connect_section (i + 1) ps arr
  connect_section i (some c ∷ ps) arr =
      and_next (setup_connection arr i c) (connect_section (i + 1) ps)

  -- The array that is passed on, with `array` for whether there is memory for it.
  unfoldable pub cross_vm_connections_init :
      Bool → List Connection → List (Option Connection) → Handles
  cross_vm_connections_init false cs ps = no_memory
  cross_vm_connections_init true cs ps =
      and_next (connect_list 0 cs (replicate (length cs + sectioned ps) none))
        (connect_section (length cs) ps)
