-- ===== src/VmArm/Tests.antt =====
-- The monitor at concrete inputs.
use camkes_vm.Common.{
  ℕ, ◌+◌, ◌-◌, ◌*◌, ◌/◌, ◌^◌, ◌≡◌, ◌≢◌, refl, sym, ap, Bool, true, false, none, some, List, [], ◌∷◌,
  ◌++◌, length, arith, ltb, if◌then◌else◌,
}
use native.Mathlib.Nat.{div-add-mod', mod-lt, mul-div_cancel}
use camkes_vm.VmArm.Mapping.{
  Call, granted, unavailable, Host, vm_map_paddr, find_dataport_frame, try_sizes, frame_size_index,
  frame_size_from, vm_map_paddr_with_page_size, get_frames, map_frames, release_frames,
}
use camkes_vm.VmArm.Mapping.Balance.{Holds}
use camkes_vm.VmArm.Mapping.Released.{vm_map_paddr-Released}
use camkes_vm.VmArm.Mapping.Cover.{IsRounding, Covers, num_pages-Covers}
use camkes_vm.VmArm.Events.{
  AsyncEventHandler, overrun, no_array, register_async_event_handler, found, handle_async_event,
}
use camkes_vm.VmArm.Events.Registered.{
  after, register_all, covered, handle_async_event-covered, register_async_event_handler-lost,
}
use camkes_vm.VmArm.Irq.{Ack, Made, Routes, is_combined, route_irqs}
use camkes_vm.VmArm.Irq.Acked.{
  Signal, arrived, ended, acks, answered, doubled, before, until_failure, acks_lem, combiner_acks,
  combiner_acks-twice,
}
use camkes_vm.VmArm.Irq.Routed.{Outcome, route_irqs-Outcome}
use camkes_vm.VmArm.OnDemand.{unhandled_mem_fault_callback}
use camkes_vm.VmArm.OnDemand.Held.{calls, held, unhandled_mem_fault_callback-Holds}
use camkes_vm.VmArm.Boot.{
  BootCall, load_kernel, Boot, VmConfig, load_vm_images, load_image, chosen_step, initrd_step,
  initrd_info, dtb_step,
}
use camkes_vm.VmArm.Boot.Images.{Booted, load_vm_images-Booted}
use camkes_vm.VmArm.CrossVm.{Connection, connected, written_past, cross_vm_connections_init}
use camkes_vm.VmArm.CrossVm.Filled.{
  has_gap, handles, section_handles, cross_vm_connections_init-handles,
}

-- The second untyped allocation fails, and no frame is given for it.
abbrev host : Host
host = record {
  slot = λ l. some (100 + length l);
  untyped = λ l. if ltb (length l) 3 then granted 5 else unavailable;
  has_frame = λ l. false;
  mapped = λ l. none;
  ram_frame = λ l. none;
  word = 2 ^ 64;
  round_down = λ n b. n / b * b;
  round_up = λ n b. (n + (b - 1)) / b * b;
  page_sizes = 12 ∷ [];
}

abbrev refused_log : List Call
refused_log = (vm_map_paddr host [] 0x1000 0x2000 []).1

vm_map_paddr-Released_example : Holds host [] [] [] refused_log
unfolding vm_map_paddr find_dataport_frame try_sizes frame_size_index frame_size_from
    vm_map_paddr_with_page_size get_frames map_frames release_frames
vm_map_paddr-Released_example = vm_map_paddr-Released host [] 0x1000 0x2000 [] refused_log refl

host-IsRounding : IsRounding host
host-IsRounding = record {
  down_below = λ n b h. omega (arith, div-add-mod' n b);
  down_near = λ n b h. omega (arith, div-add-mod' n b, mod-lt n h);
  up_above = λ n b h. omega (arith, h, div-add-mod' (n + (b - 1)) b, mod-lt (n + (b - 1)) h);
  up_near = λ n b h. omega (arith, h, div-add-mod' (n + (b - 1)) b);
  up_whole = λ n b h. ap (λ t. t * b) (sym (mul-div_cancel ((n + (b - 1)) / b) h));
}

num_pages-Covers_example : Covers host 0x1234 0x2000 12
num_pages-Covers_example =
    num_pages-Covers host host-IsRounding 0x1234 0x2000 12 (omega arith) (omega arith)

abbrev handlers : List AsyncEventHandler
handlers =
    record { badge = 2; callback = 100; cookie = 1 }
    ∷ record { badge = 4; callback = 200; cookie = 2 }
    ∷ []

handle_async_event-covered_example :
    after (λ s. handle_async_event s 6 0) (register_all handlers)
    ≡ some (found (covered 6 handlers))
handle_async_event-covered_example =
    handle_async_event-covered handlers 6 0 (λ e. absurd (omega (arith, e)))

abbrev handler : AsyncEventHandler
handler = record { badge = 8; callback = 300; cookie = 3 }

register_async_event_handler-lost_example :
    (after
        (λ s. after (λ t. handle_async_event t 6 0) (register_async_event_handler false handler s))
        (register_all (handler ∷ handlers))
      ≡ some (some no_array))
    × (after
          (λ s.
            after
              (register_async_event_handler true handler)
              (register_async_event_handler false handler s))
          (register_all (handler ∷ handlers))
        ≡ some (some overrun))
register_async_event_handler-lost_example =
    register_async_event_handler-lost handler handlers handler handler 6 0
      (λ e. absurd (omega (arith, e)))

abbrev ack : ℕ → Ack
ack n = record { fn = 1; data_ptr = n }

-- an end with nothing before, two interrupts of which the second is answered, and one more
abbrev signals : List Signal
signals = ended ∷ arrived (ack 7) ∷ arrived (ack 8) ∷ ended ∷ arrived (ack 9) ∷ ended ∷ []

-- Two acknowledgements succeed.
abbrev two_ok : List Made → Bool
two_ok l = ltb (length l) 3

acks_lem_example :
    acks two_ok signals (record { irq = 33; virq = 33; acknowledge_fn = none; ack_data = none }) []
    ≡ until_failure two_ok (answered (before none none ++ signals)) []
acks_lem_example = acks_lem two_ok signals 33 33 none none []

combiner_acks-twice_example :
    combiner_acks two_ok signals
      (record { irq = 33; virq = 33; acknowledge_fn = none; ack_data = none })
      []
    ≡ until_failure two_ok (doubled signals) []
combiner_acks-twice_example = combiner_acks-twice two_ok signals 33 33 none []

-- The third interrupt is not registered.
abbrev routes : Routes
routes = record {
  get_custom_irq_handler = some (λ n. if is_combined n then some 1 else none);
  linux_pt_irqs = 27 ∷ 33 ∷ [];
  dtb_irqs = some (85 ∷ []);
  has_token = λ l. true;
  succeeds = λ l. ltb (length l) 5;
}

route_irqs-Outcome_example : Outcome routes (27 ∷ 33 ∷ 85 ∷ []) [] (route_irqs routes [])
route_irqs-Outcome_example = route_irqs-Outcome routes []

unhandled_mem_fault_callback-Holds_example :
    Holds host []
      (held host (λ a. true) (λ f. true) 0x9000 [])
      []
      (calls (unhandled_mem_fault_callback host (λ a. true) (λ f. true) 0x9010 []))
unhandled_mem_fault_callback-Holds_example =
    unhandled_mem_fault_callback-Holds host (λ a. true) (λ f. true) 0x9010 []
      (λ e. absurd (omega (arith, e)))

abbrev boot : Boot
boot = record {
  err = λ l. 0;
  load_paddr = λ l. 0x40000000 + length l;
  image_size = λ l. 4096;
  has_memory = λ l. true;
  is_printed = true;
  gic = some 1;
  word = 2 ^ 64;
}

-- no device tree
abbrev config : VmConfig
config = record {
  ram_base = 0x40000000;
  ram_size = 0x20000000;
  dtb_addr = 0x4F000000;
  initrd_addr = 0x4D000000;
  generate_dtb = false;
  provide_dtb = false;
  provide_initrd = true;
  has_stdout = true;
  pci_support = true;
  num_vcpus = 1;
}

abbrev boot_log : List BootCall
boot_log = (load_vm_images boot config 7 8 []).1

load_vm_images-Booted_example :
    (boot.load_paddr (load_kernel config.ram_base ∷ []) ≢ 0)
    × Booted boot config 8 (boot.load_paddr (load_kernel config.ram_base ∷ [])) boot_log
unfolding load_vm_images load_image chosen_step initrd_step initrd_info dtb_step
load_vm_images-Booted_example = load_vm_images-Booted boot config 7 8 [] boot_log refl

abbrev link : Connection
link = record {
  frame_size_bits = 12;
  frames = 1 ∷ 2 ∷ [];
  emit_fn = 3;
  consume_badge = 4;
  connection_name = 5;
}

cross_vm_connections_init-handles_example :
    cross_vm_connections_init (λ i. true) true (link ∷ []) (none ∷ some link ∷ []) ≡ (
      if has_gap (none ∷ some link ∷ [])
      then written_past
      else connected (handles (link ∷ []) ++ section_handles (none ∷ some link ∷ [])))
cross_vm_connections_init-handles_example =
    cross_vm_connections_init-handles (λ i. true) (λ i. refl) (link ∷ []) (none ∷ some link ∷ [])
