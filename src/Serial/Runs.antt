-- ===== src/Serial/Runs.antt =====
-- The UART over any sequence of accesses and timers.
use camkes_vm.Common.{ℕ, refl, ap, ◌∙◌, Option, none, some, List, [], ◌∷◌}
use camkes_vm.Serial.State.{SerialState}
use camkes_vm.Serial.Receive.{GetcharBuf}
use camkes_vm.Serial.Receive.Buffer.{IsPage}
use camkes_vm.Serial.Read.{serial_ioport_read}
use camkes_vm.Serial.Write.{serial_ioport_write}
use camkes_vm.Serial.Entry.{serial_pre_init, serial_timer_interrupt, serial_character_interrupt}
use camkes_vm.Serial.Valid.{IsValid}
use camkes_vm.Serial.Valid.Read.{serial_ioport_read-IsValid}
use camkes_vm.Serial.Valid.Write.{serial_ioport_write-Returns}
use camkes_vm.Serial.Valid.Entry.{
  IsFresh, serial_pre_init-IsValid, EndsValid, receive_pending-EndsValid,
  serial_timer_interrupt-EndsValid,
}

-- A read or a write of a port by the guest, timers that went off, or characters that came.
pub data Access : Type 0 where
  read : ℕ → Access
  write : ℕ → ℕ → Access
  timers_went_off : ℕ → Access
  characters_came : Access

-- a result with the page of characters
abbrev pub with_page : GetcharBuf → Option SerialState → Option (SerialState × GetcharBuf)
with_page b none = none
with_page b (some s) = some (s, b)

-- `none` means that an assertion fails.
abbrev pub access : Access → SerialState → GetcharBuf → Option (SerialState × GetcharBuf)
access (read addr) s b = some ((serial_ioport_read addr s).1, b)
access (write addr val) s b = with_page b (serial_ioport_write addr val s)
access (timers_went_off completed) s b = serial_timer_interrupt completed s b
access characters_came s b = serial_character_interrupt s b

-- accesses one after the other
abbrev pub and_access :
    Access → Option (SerialState × GetcharBuf) → Option (SerialState × GetcharBuf)
and_access a none = none
and_access a (some (s, b)) = access a s b

abbrev pub accesses :
    List Access → Option (SerialState × GetcharBuf) → Option (SerialState × GetcharBuf)
accesses [] o = o
accesses (a ∷ l) o = accesses l (and_access a o)

access-EndsValid :
    (a : Access) (s : SerialState) (b : GetcharBuf)
    → IsValid s
    → IsPage b
    → EndsValid (access a s b)
unfolding serial_character_interrupt
access-EndsValid (read addr) s b v w =
    ((serial_ioport_read addr s).1, b, refl, serial_ioport_read-IsValid addr s v, w)
access-EndsValid (write addr val) s b v w =
    let (t, e, valid) = serial_ioport_write-Returns addr val s v in
    (t, b, ap (with_page b) e, valid, w)
access-EndsValid (timers_went_off completed) s b v w =
    serial_timer_interrupt-EndsValid completed s b v w
access-EndsValid characters_came s b v w = receive_pending-EndsValid s b v w

accesses-EndsValid :
    (l : List Access) (s : SerialState) (b : GetcharBuf)
    → IsValid s
    → IsPage b
    → EndsValid (accesses l (some (s, b)))
accesses-EndsValid [] s b v w = (s, b, refl, v, w)
accesses-EndsValid (a ∷ l) s b v w =
    let (t, q, e, valid, page) = access-EndsValid a s b v w in
    let (u, r, f, valid', page') = accesses-EndsValid l t q valid page in
    (u, r, ap (accesses l) e ∙ f, valid', page')

-- From a state whose FIFO control register is 0 and whose interrupt line is low, the initialisation
-- of the UART and any sequence of reads and writes of its ports, with any values, of timers that go
-- off, and of characters that come, returns: no assertion fails. The invariant of the UART
-- (register widths, queue bounds, the line status announcing what is queued, the interrupt line
-- agreeing with iir) and that of the page of characters hold at the end.
pub serial_pre_init-EndsValid :
    (s : SerialState) (b : GetcharBuf) (l : List Access)
    → IsFresh s
    → IsPage b
    → EndsValid (accesses l (some (serial_pre_init s, b)))
serial_pre_init-EndsValid s b l h w =
    accesses-EndsValid l (serial_pre_init s) b (serial_pre_init-IsValid s h) w
