-- ===== src/VmArm/Events.antt =====
-- The handlers of notifications: `register_async_event_handler` and `handle_async_event` of
-- components/VM_Arm/src/main.c, without the USB notification of `FEATURE_VUSB`.
pub mod Registered
use camkes_vm.Common.{
  ℕ, zero, suc, ◌+◌, ◌≡◌, Bool, true, false, Option, none, some, List, [], ◌∷◌, ◌++◌, length,
  get_or, ltb, bit_and, set, if◌then◌else◌, ◌==◌,
}

-- A function is a number, which is 0 for NULL.
pub record AsyncEventHandler : Type 0 where
  pub badge : ℕ
  pub callback : ℕ
  pub cookie : ℕ

-- `callback_idx`, and the memory at `callback_arr`, which is `none` for NULL.
pub record Callbacks : Type 0 where
  pub callback_idx : ℕ
  pub callback_arr : Option (List AsyncEventHandler)

-- A registration: done, refused with -1, or a write past the end of the memory.
pub data Registration : Type 0 where
  registered : Callbacks → Registration
  no_memory : Callbacks → Registration
  overrun : Registration

-- An event: the handlers called, in order, an interrupt passed to the interrupt server, an unknown
-- label or badge that is logged, or stopped by the assertion that there is an array.
pub data Handled : Type 0 where
  called : List AsyncEventHandler → Handled
  irq_ipc : Handled
  unknown_label : Handled
  unknown_badge : Handled
  no_array : Handled

abbrev pub no_callbacks : Callbacks
no_callbacks = record { callback_idx = 0; callback_arr = none }

abbrev pub zeroed : AsyncEventHandler
zeroed = record { badge = 0; callback = 0; cookie = 0 }

-- The memory for `n` handlers that `calloc` or `realloc` gives: first what was there.
abbrev pub grown : ℕ → List AsyncEventHandler → List AsyncEventHandler
grown zero arr = []
grown (suc n) [] = zeroed ∷ grown n []
grown (suc n) (h ∷ arr) = h ∷ grown n arr

abbrev pub allocated : ℕ → Option (List AsyncEventHandler) → List AsyncEventHandler
allocated n none = grown 1 []
allocated n (some arr) = grown (suc n) arr

abbrev pub write_handler : AsyncEventHandler → ℕ → List AsyncEventHandler → Registration
write_handler h i arr =
    if ltb i (length arr)
    then registered (record { callback_idx = i + 1; callback_arr = some (set arr i h) })
    else overrun

-- `memory` says whether there is memory.
unfoldable pub register_async_event_handler : Bool → AsyncEventHandler → Callbacks → Registration
register_async_event_handler false h s =
    no_memory (record { callback_idx = s.callback_idx; callback_arr = none })
register_async_event_handler true h s =
    write_handler h s.callback_idx (allocated s.callback_idx s.callback_arr)

abbrev pub covers : ℕ → AsyncEventHandler → Bool
covers badge h = bit_and badge h.badge == h.badge

-- The loop from handler `i` on, with `n` to go: the handlers called.
unfoldable pub notify : ℕ → List AsyncEventHandler → ℕ → ℕ → List AsyncEventHandler
notify badge arr zero i = []
notify badge arr (suc n) i =
    let later = notify badge arr n (i + 1) in
    let h = get_or arr i zeroed in if covers badge h then h ∷ later else later

abbrev pub found : List AsyncEventHandler → Handled
found [] = unknown_badge
found (h ∷ hs) = called (h ∷ hs)

-- The part for the handlers.
abbrev pub notify_all : ℕ → ℕ → Option (List AsyncEventHandler) → Handled
notify_all badge zero arr = unknown_badge
notify_all badge (suc n) none = no_array
notify_all badge (suc n) (some arr) = found (notify badge arr (suc n) 0)

abbrev pub irq_message_label : ℕ
irq_message_label = 0xCAFE

unfoldable pub handle_async_event : Callbacks → ℕ → ℕ → Handled
handle_async_event s badge label =
    if badge == 0
    then if label == irq_message_label then irq_ipc else unknown_label
    else notify_all badge s.callback_idx s.callback_arr
