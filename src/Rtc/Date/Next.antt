-- ===== src/Rtc/Date/Next.antt =====
-- `rtc_next_second` moves the date and the time on by one second of the Gregorian calendar.
use camkes_vm.Common.{◌+◌, ◌<◌, ◌≡◌, arith, u32, if◌then◌else◌, ltb}
use camkes_vm.Rtc.State.{TmTypes, IsTmTypes, Tm}
use camkes_vm.Rtc.Date.{next_month, next_day, next_hour, next_minute, rtc_next_second}
use camkes_vm.Rtc.Date.Calendar.{
  IsDate, instant, day_number, days_bounds, next_date, next_date_lem, next_date-IsDate,
}

-- Midnight of the same day.
abbrev midnight : Tm → Tm
midnight tm = record tm { hour = 0; minute = 0; second = 0 }

midnight-IsDate : (tm : Tm) → IsDate tm → IsDate (midnight tm)
midnight-IsDate tm v = record {
  second_in = omega arith;
  minute_in = omega arith;
  hour_in = omega arith;
  month_in = v.month_in;
  day_from = v.day_from;
  day_to = v.day_to;
}

-- The second after, in plain numbers.
next_time : Tm → Tm
next_time tm =
    if ltb tm.second 59
    then record tm { second = tm.second + 1 }
    else if ltb tm.minute 59
    then record tm { second = 0; minute = tm.minute + 1 }
    else if ltb tm.hour 23
    then record tm { second = 0; minute = 0; hour = tm.hour + 1 }
    else next_date (midnight tm)

-- The day after has the same time of day.
next_date_time :
    (tm : Tm)
    → ((next_date tm).second ≡ tm.second)
      × ((next_date tm).minute ≡ tm.minute)
      × ((next_date tm).hour ≡ tm.hour)
unfolding next_date
next_date_time tm = ground arith

instant-next_time :
    (tm : Tm) → IsDate tm → tm.year < 30000 → instant (next_time tm) ≡ instant tm + 1
unfolding next_time instant day_number
instant-next_time tm v h = ground (
  arith,
  v.second_in,
  v.minute_in,
  v.hour_in,
  next_date_lem (midnight tm) (midnight-IsDate tm v) h,
  next_date_time (midnight tm),
)

next_time-IsDate : (tm : Tm) → IsDate tm → IsDate (next_time tm)
unfolding next_time
next_time-IsDate tm v =
    let n = next_date-IsDate (midnight tm) (midnight-IsDate tm v) in
    record {
      second_in = ground (arith, v.second_in, n.second_in);
      minute_in = ground (arith, v.minute_in, n.minute_in);
      hour_in = ground (arith, v.hour_in, n.hour_in);
      month_in = ground (arith, v.month_in, n.month_in);
      day_from = ground (arith, v.day_from, n.day_from);
      day_to = ground (arith, v.day_to, n.day_to);
    }

module _ (fit : TmTypes) (w : IsTmTypes fit) where
  next_day_lem : (tm : Tm) → IsDate tm → tm.year < 30000 → next_day fit tm ≡ next_date tm
  unfolding next_day next_month next_date
  next_day_lem tm v h = ground (
    arith,
    v.day_from,
    v.day_to,
    v.month_in,
    days_bounds tm.month (tm.year + 1900) v.month_in,
    w.small_lem 0,
    w.small_lem 1,
    w.small_lem (u32 (tm.day + 1)),
    w.small_lem (u32 (tm.month + 1)),
    w.wide_lem (u32 (tm.year + 1)),
  )

  rtc_next_second_lem :
      (tm : Tm) → IsDate tm → tm.year < 30000 → rtc_next_second fit tm ≡ next_time tm
  unfolding rtc_next_second next_minute next_hour next_time
  rtc_next_second_lem tm v h = ground (
    arith,
    v.second_in,
    v.minute_in,
    v.hour_in,
    w.small_lem 0,
    w.small_lem (u32 (tm.second + 1)),
    w.small_lem (u32 (tm.minute + 1)),
    w.small_lem (u32 (tm.hour + 1)),
    next_day_lem (midnight tm) (midnight-IsDate tm v) h,
  )

  -- From a date and time that exist, before the year 31900, rtc_next_second gives one that exists,
  -- and the second after in the Gregorian calendar, for types of the fields that hold times and
  -- years.
  pub instant-rtc_next_second :
      (tm : Tm)
      → IsDate tm
      → tm.year < 30000
      → IsDate (rtc_next_second fit tm) × (instant (rtc_next_second fit tm) ≡ instant tm + 1)
  instant-rtc_next_second tm v h =
      rw (rtc_next_second_lem tm v h) (next_time-IsDate tm v, instant-next_time tm v h)
