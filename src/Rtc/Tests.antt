-- ===== src/Rtc/Tests.antt =====
-- A chip with fixed registers, and the theorems on the clock at concrete inputs.
use core_z_os.Base.{
  ℕ, ◌+◌, ◌/◌, ◌%◌, ◌^◌, ◌<◌, ◌≡◌, refl, true, false, some, arith, ◌==◌, if◌then◌else◌,
}
use core_z_os.Base.Int.{pos, ◌+ℤ◌, ◌-ℤ◌, ◌*ℤ◌}
use core_z_os.Rtc.{
  Ports, Clock, CivilDate, TimeOfDay, civil_era, civil_yoe, civil_doy, civil_doe, days_from_civil,
  cmos_read, wait_update, decode_date, rtc_read_time, rtc_read_date, rtc_unix_time,
}
use core_z_os.Rtc.Time.{Format, registers, Shows, rtc_read_time-registers}
use core_z_os.Rtc.Civil.{day_number, days_from_civil-eq-day_number}
use core_z_os.Rtc.Unix.{seconds, rtc_unix_time_lem}

-- A write to port 0x70 selects the register that port 0x71 reads.
abbrev cmos : (ℕ → ℕ) → Ports
cmos regs = record {
  State = ℕ;
  outb = λ s port v. if port == 0x70 then v else s;
  inb = λ s port. (if port == 0x71 then regs s else 0, s);
}

abbrev bcd_twelve : Format
bcd_twelve = record { binary = false; all_day = false }

abbrev afternoon : TimeOfDay
afternoon = record { hour = 15; min = 45; sec = 30 }

-- 29 February 2024, 15:45:30, in BCD with 24 hours.
abbrev leap_day : ℕ → ℕ
leap_day reg =
    if reg == 0x09
    then 0x24
    else if reg == 0x08
    then 0x02
    else if reg == 0x07
    then 0x29
    else registers (record { binary = false; all_day = true }) afternoon reg

abbrev unset : Clock
unset = record { base = 0; base_tick = 0; have = false }

abbrev leap_date : CivilDate
leap_date = record { year = 24; month = 2; day = 29 }

leap_date_read : (rtc_read_date (cmos leap_day) 0).0 ≡ some leap_date
unfolding rtc_read_date cmos_read wait_update decode_date
leap_date_read = refl

epoch_is_day_0 : days_from_civil (pos 1970) 1 1 ≡ 0
unfolding days_from_civil civil_era civil_yoe civil_doy civil_doe ◌+ℤ◌ ◌-ℤ◌ ◌*ℤ◌
epoch_is_day_0 = refl

bcd_twelve-Shows :
    (t : TimeOfDay)
    → t.hour < 24
    → t.min < 60
    → t.sec < 60
    → Shows (cmos (registers bcd_twelve t)) (registers bcd_twelve t)
unfolding cmos_read
bcd_twelve-Shows t h m x s reg = ground arith

rtc_read_time-registers_example :
    (rtc_read_time (cmos (registers bcd_twelve afternoon)) 0).0 ≡ record afternoon { hour = 0 }
rtc_read_time-registers_example =
    rtc_read_time-registers (cmos (registers bcd_twelve afternoon)) 0 bcd_twelve afternoon
      (bcd_twelve-Shows afternoon (omega arith) (omega arith) (omega arith)) (omega arith)
      (omega arith) (omega arith)

days_from_civil-eq-day_number_example : days_from_civil (pos 2024) 2 29 ≡ day_number 2024 2 29
days_from_civil-eq-day_number_example =
    days_from_civil-eq-day_number 2024 2 29 (omega arith) (omega arith) (omega arith) (omega arith)
      (omega arith) (omega arith)

rtc_unix_time_lem_example :
    let p = cmos leap_day in
    let t = (rtc_read_time p (rtc_read_date p 0).1).0 in
    let (first, s', c') = rtc_unix_time p 0 unset 700 700 in
    let later = (700 + (2 ^ 32 + 250)) % 2 ^ 32 in
    let (second, s'', c'') = rtc_unix_time p s' c' later later in
    (first ≡ seconds leap_date t)
    × (second ≡ first + (2 ^ 32 + 250) % 2 ^ 32 / 100)
    × (s'' ≡ s')
    × (c'' ≡ c')
rtc_unix_time_lem_example =
    rtc_unix_time_lem (cmos leap_day) 0 unset leap_date 700 (2 ^ 32 + 250) refl leap_date_read
      (omega arith)
