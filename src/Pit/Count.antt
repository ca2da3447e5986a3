-- ===== src/Pit/Count.antt =====
-- `pit_get_count`, `pit_get_out` and `pit_get_next_transition_time` of i8254.c. Each works out the
-- ticks since the counter was loaded, and then goes by the mode.
use camkes_vm.Common.{
  u64, ℕ, ◌+◌, ◌-◌, ◌*◌, ◌/◌, ◌%◌, ◌^◌, Bool, not, ◌&&◌, ◌||◌, Option, none, some, ltb, leb, ◌==◌,
  if◌then◌else◌,
}
use camkes_vm.Pit.State.{Arith, PitChannel, pit_freq, ns_in_s, never}

-- the counter after `d` ticks
unfoldable pub count_at : ℕ → ℕ → ℕ → ℕ
count_at mode count d =
    if mode == 0 || mode == 1 || mode == 4 || mode == 5
    then (count + 2 ^ 64 - d) % 65536
    else if mode == 3
    then count - u64 (2 * d) % count
    else count - d % count

-- the output after `d` ticks; a mode above 5 counts as 0
unfoldable pub out_at : ℕ → ℕ → ℕ → Bool
out_at mode count d =
    if mode == 1
    then ltb d count
    else if mode == 2
    then d % count == 0 && not (d == 0)
    else if mode == 3
    then ltb (d % count) ((count + 1) / 2)
    else if mode == 4 || mode == 5
    then d == count
    else leb count d

module _ (lib : Arith) where
  -- the tick at which the output changes next; `none` where the code returns -1
  unfoldable pub next_tick : ℕ → ℕ → ℕ → Option ℕ
  next_tick mode count d =
      let base = lib.round_down d count in
      if mode == 2
      then (if d - base == 0 && not (d == 0) then some (base + count) else some (base + count + 1))
      else if mode == 3
      then (if ltb (d - base) ((count + 1) / 2)
          then some (base + (count + 1) / 2)
          else some (base + count))
      else if mode == 4 || mode == 5
      then (if ltb d count then some count else if d == count then some (count + 1) else none)
      else if ltb d count
      then some count
      else none

  -- the ticks from the load to the time `t`
  abbrev pub ticks : PitChannel → ℕ → ℕ
  ticks s t = u64 (lib.muldivu64 ((t + 2 ^ 64 - s.count_load_time) % 2 ^ 64) pit_freq ns_in_s)

  -- `t` is the reading of the clock.
  unfoldable pub pit_get_count : PitChannel → ℕ → ℕ
  pit_get_count s t = count_at s.mode s.count (ticks s t)

  unfoldable pub pit_get_out : PitChannel → ℕ → ℕ
  pit_get_out s t = if out_at s.mode s.count (ticks s t) then 1 else 0

  -- The time of a tick, moved past `t` where the rounding brought it back.
  abbrev pub time_of_tick : PitChannel → ℕ → ℕ → ℕ
  time_of_tick s t n =
      let next_time = u64 (s.count_load_time + u64 (lib.muldivu64 n ns_in_s pit_freq)) in
      if leb next_time t then u64 (t + 1) else next_time

  unfoldable pub pit_get_next_transition_time : PitChannel → ℕ → ℕ
  pit_get_next_transition_time s t = elim (next_tick s.mode s.count (ticks s t)) [
    | none ↦ never
    | some n ↦ time_of_tick s t n
  ]
