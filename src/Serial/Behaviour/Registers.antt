-- ===== src/Serial/Behaviour/Registers.antt =====
-- Registers of serial.c that the guest reads back as written.
use camkes_vm.Common.{
  u64, ℕ, ◌+◌, ◌*◌, ◌/◌, ◌%◌, ◌^◌, ◌<◌, ◌≡◌, refl, ap, ap₂, ◌∙◌, some, arith, true, has, bit_or,
  bit_or-join, bit_or_comm,
}
use camkes_vm.Serial.State.{SerialState, ticks_per_sec, lcr_dlab}
use camkes_vm.Serial.Line.{frame_size, serial_update_parameters}
use camkes_vm.Serial.Write.{write_divider_low, write_divider_high, serial_ioport_write}
use camkes_vm.Serial.Read.{serial_ioport_read}
use camkes_vm.Serial.Valid.{IsValid}
use camkes_vm.Serial.Valid.Write.{
  serial_update_parameters-Returns, write_divider_low-IsValid, write_divider_high-IsValid,
}

divider_low :
    (lo : ℕ) (s : SerialState)
    → lo < 256
    → s.divider < 65536
    → (write_divider_low lo s).divider ≡ s.divider / 256 * 256 + lo
unfolding write_divider_low
divider_low lo s h v = omega (arith, bit_or-join 8 (s.divider / 256) lo h)

divider_high :
    (hi : ℕ) (s : SerialState)
    → hi < 256
    → (write_divider_high hi s).divider ≡ hi * 256 + s.divider % 256
unfolding write_divider_high
divider_high hi s h = omega (
  arith,
  bit_or-join 8 hi (s.divider % 256) (omega arith),
  bit_or_comm (s.divider % 256) (hi * 256 % 2 ^ 32),
  ap (λ v. bit_or v (s.divider % 256)) fits,
)
  where
    fits : hi * 256 % 2 ^ 32 ≡ hi * 256
    fits = omega arith

-- What a write of the latch leaves: the divider, and the time of a character at that rate.
record Latched (d : ℕ) (s t : SerialState) : Type 0 where
  divider : t.divider ≡ d
  lcr : t.lcr ≡ s.lcr
  time : 0 < d → t.char_transmit_time ≡ u64 (ticks_per_sec / (115200 / d) * frame_size s.lcr)

update-Latched :
    (s g t : SerialState) (d : ℕ)
    → g.baudbase ≡ 115200
    → g.divider ≡ d
    → g.lcr ≡ s.lcr
    → serial_update_parameters g ≡ some t
    → Latched d s t
unfolding serial_update_parameters
update-Latched s g t d b hd hl e = ground arith

abbrev Writes : ℕ → ℕ → ℕ → SerialState → Type 0
Writes addr val d s =
    (t : SerialState) × (serial_ioport_write addr val s ≡ some t) × IsValid t × Latched d s t

low_write :
    (lo : ℕ) (s : SerialState)
    → IsValid s
    → has s.lcr lcr_dlab ≡ true
    → lo < 256
    → Writes 0 lo (s.divider / 256 * 256 + lo) s
unfolding serial_ioport_write write_divider_low
low_write lo s v e h =
    let (t, done, w) =
      serial_update_parameters-Returns (write_divider_low lo s)
        (write_divider_low-IsValid lo s v) in
    (
      t,
      rw e done,
      w,
      update-Latched s (write_divider_low lo s) t _ v.sound.widths.baud
          (divider_low lo s h v.sound.widths.divider_in) refl done,
    )

high_write :
    (hi : ℕ) (s : SerialState)
    → IsValid s
    → has s.lcr lcr_dlab ≡ true
    → hi < 256
    → Writes 1 hi (hi * 256 + s.divider % 256) s
unfolding serial_ioport_write write_divider_high
high_write hi s v e h =
    let (t, done, w) =
      serial_update_parameters-Returns (write_divider_high hi s)
        (write_divider_high-IsValid hi s v) in
    (
      t,
      rw e done,
      w,
      update-Latched s (write_divider_high hi s) t _ v.sound.widths.baud (divider_high hi s h) refl
          done,
    )

-- With the latch open, the bytes of a divisor that the guest writes are the bytes that it reads
-- back, and a character then takes the time that the rate and the line control register give.
divider_round_trip :
    (lo hi : ℕ) (s : SerialState)
    → IsValid s
    → has s.lcr lcr_dlab ≡ true
    → lo < 256
    → hi < 256
    → 0 < hi * 256 + lo
    → (t u : SerialState) × (serial_ioport_write 0 lo s ≡ some t)
      × (serial_ioport_write 1 hi t ≡ some u)
      × ((serial_ioport_read 0 u).0 ≡ lo)
      × ((serial_ioport_read 1 u).0 ≡ hi)
      × (u.char_transmit_time ≡ u64 (ticks_per_sec / (115200 / (hi * 256 + lo)) * frame_size s.lcr))
unfolding serial_ioport_read
divider_round_trip lo hi s v e hl hh pos =
    let (t, wrote, w, a) = low_write lo s v e hl in
    let (u, wrote', w', b) = high_write hi t w (rw a.lcr e) hh in
    (
      t,
      u,
      wrote,
      wrote',
      ground (arith, a.lcr, b.lcr, a.divider, b.divider),
      ground (arith, a.lcr, b.lcr, a.divider, b.divider),
      b.time (omega (arith, a.divider, v.sound.widths.divider_in)) ∙ rate a b,
    )
  where
    rate :
        {t u : SerialState}
        → Latched (s.divider / 256 * 256 + lo) s t
        → Latched (hi * 256 + t.divider % 256) t u
        → u64 (ticks_per_sec / (115200 / (hi * 256 + t.divider % 256)) * frame_size t.lcr)
          ≡ u64 (ticks_per_sec / (115200 / (hi * 256 + lo)) * frame_size s.lcr)
    rate a b =
        ap₂ (λ d l. u64 (ticks_per_sec / (115200 / d) * frame_size l)) (omega (arith, a.divider))
          a.lcr
