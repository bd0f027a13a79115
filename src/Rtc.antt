-- ===== src/Rtc.antt =====
-- drivers/char/rtc.c: the CMOS clock's time and date, and seconds since 1970.
-- The ports are a parameter: what they answer is the hardware's.
pub mod Time
pub mod Civil
pub mod Unix
mod Tests
use core_z_os.Base.{
  ℕ, zero, suc, ◌+◌, ◌-◌, ◌*◌, ◌/◌, ◌%◌, ◌^◌, ◌<◌, ◌≡◌, Bool, true, false, not, ◌&&◌, ◌||◌, Option,
  none, some, ltb, leb, ◌==◌, if◌then◌else◌,
}
use core_z_os.Base.Int.{ℤ, pos, negsuc, ◌+ℤ◌, ◌-ℤ◌, ◌*ℤ◌, quot, ltb_ℤ, to_u32, to_u64, to_int}

-- `outb` and `inb`. Both may change the device.
pub record Ports : Type 1 where
  pub State : Type 0
  pub outb : State → ℕ → ℕ → State
  pub inb : State → ℕ → ℕ × State

-- `v & (1 << k)`, as a test.
abbrev pub has_bit : ℕ → ℕ → Bool
has_bit v k = v / 2 ^ k % 2 == 1

unfoldable pub from_bcd : ℕ → ℕ
from_bcd v = (v % 16 + v / 16 * 10) % 256

pub record TimeOfDay : Type 0 where
  pub hour : ℕ
  pub min : ℕ
  pub sec : ℕ

pub record CivilDate : Type 0 where
  pub year : ℕ
  pub month : ℕ
  pub day : ℕ

-- The registers as the chip holds them to the time of day: BCD unless bit 2 of status B is set,
-- twelve hours unless bit 1 is, and 0 for what is out of range.
unfoldable pub decode_hour : ℕ → ℕ → ℕ
unfolding from_bcd
decode_hour status_b h =
    let h1 = if has_bit status_b 2 then h else from_bcd h in
    let pm = has_bit h1 7 in
    let h2 = h1 % 128 in
    let h3 = if pm && not (h2 == 12) then (h2 + 12) % 256 else h2 in
    let h4 = if not pm && h3 == 12 then 0 else h3 in
    let h5 = if has_bit status_b 1 then h1 else h4 in if leb 24 h5 then 0 else h5

unfoldable pub decode_sixty : ℕ → ℕ → ℕ
unfolding from_bcd
decode_sixty status_b v =
    let w = if has_bit status_b 2 then v else from_bcd v in if leb 60 w then 0 else w

unfoldable pub decode_date : ℕ → ℕ → ℕ → ℕ → Option CivilDate
unfolding from_bcd
decode_date status_b y mo d =
    let y' = if has_bit status_b 2 then y else from_bcd y in
    let mo' = if has_bit status_b 2 then mo else from_bcd mo in
    let d' = if has_bit status_b 2 then d else from_bcd d in
    if ltb mo' 1 || ltb 12 mo' || ltb d' 1 || ltb 31 d'
    then none
    else some (record { year = y'; month = mo'; day = d' })

module _ (p : Ports) where
  open p use {State, outb, inb}

  unfoldable pub cmos_read : State → ℕ → ℕ × State
  cmos_read s reg = let (v, s') = inb (outb s 0x70 reg) 0x71 in (v % 256, s')

  -- The loop that waits, for 64 reads at most, until bit 7 of status A is clear.
  unfoldable pub wait_update : ℕ → State → State
  wait_update zero s = s
  wait_update (suc rounds) s =
      let (a, s') = cmos_read s 0x0a in
      let rest = wait_update rounds s' in if has_bit a 7 then rest else s'

  unfoldable pub rtc_read_time : State → TimeOfDay × State
  rtc_read_time s0 =
      let (status_b, s1) = cmos_read s0 0x0b in
      let (sec, s2) = cmos_read (wait_update 64 s1) 0x00 in
      let (min, s3) = cmos_read s2 0x02 in
      let (hour, s4) = cmos_read s3 0x04 in
      (
        record {
          hour = decode_hour status_b hour;
          min = decode_sixty status_b min;
          sec = decode_sixty status_b sec;
        },
        s4,
      )

  unfoldable pub rtc_read_date : State → Option CivilDate × State
  rtc_read_date s0 =
      let (status_b, s1) = cmos_read s0 0x0b in
      let (day, s2) = cmos_read (wait_update 64 s1) 0x07 in
      let (month, s3) = cmos_read s2 0x08 in
      let (year, s4) = cmos_read s3 0x09 in (decode_date status_b year month day, s4)

-- `int` products and sums stay in ℤ (they overflow only beyond the year 5,000,000), `unsigned` ones
-- wrap at 2 ^ 32. The four parts of `days_from_civil` are its local variables.
unfoldable pub civil_era : ℤ → ℤ
unfolding ◌-ℤ◌
civil_era y = quot (if ltb_ℤ y (pos 0) then y -ℤ pos 399 else y) 400

unfoldable pub civil_yoe : ℤ → ℕ
unfolding ◌-ℤ◌ ◌*ℤ◌
civil_yoe y = to_u32 (y -ℤ civil_era y *ℤ pos 400)

unfoldable pub civil_doy : ℕ → ℕ → ℕ
civil_doy m d =
    let shifted = (m + (if ltb 2 m then 2 ^ 32 - 3 else 9)) % 2 ^ 32 in
    ((153 * shifted % 2 ^ 32 + 2) % 2 ^ 32 / 5 + d + 2 ^ 32 - 1) % 2 ^ 32

unfoldable pub civil_doe : ℕ → ℕ → ℕ
civil_doe yoe doy = (yoe * 365 + yoe / 4 + 2 ^ 32 - yoe / 100 + doy) % 2 ^ 32

unfoldable pub days_from_civil : ℤ → ℕ → ℕ → ℕ
days_from_civil year m d =
    let y = if leb m 2 then year -ℤ pos 1 else year in
    let doe = civil_doe (civil_yoe y) (civil_doy m d) in
    to_u64 (civil_era y *ℤ pos 146097 +ℤ to_int doe -ℤ pos 719468)

-- The static variables of `rtc_unix_time`.
pub record Clock : Type 0 where
  pub base : ℕ
  pub base_tick : ℕ
  pub have : Bool

abbrev pub pit_hz : ℕ
pit_hz = 100

unfoldable pub elapsed : Clock → ℕ → ℕ
elapsed c tick = (c.base + (tick + 2 ^ 32 - c.base_tick) % 2 ^ 32 / pit_hz) % 2 ^ 64

unfoldable pub epoch_seconds : CivilDate → TimeOfDay → ℕ
epoch_seconds date time =
    (days_from_civil (pos (2000 + date.year)) date.month date.day * 86400
      + time.hour * 3600
      + time.min * 60
      + time.sec)
    % 2 ^ 64

module _ (p : Ports) where
  -- The rest of the first call, once the date has been read. `tick` may move between its two reads.
  unfoldable pub set_base : Option CivilDate → p.State → Clock → ℕ → ℕ → ℕ × p.State × Clock
  unfolding elapsed
  set_base none s c tick0 tick1 = (0, s, c)
  set_base (some date) s c tick0 tick1 =
      let (time, s') = rtc_read_time p s in
      let c' : Clock = record { base = epoch_seconds date time; base_tick = tick0; have = true } in
      (elapsed c' tick1, s', c')

  unfoldable pub rtc_unix_time : p.State → Clock → ℕ → ℕ → ℕ × p.State × Clock
  unfolding elapsed
  rtc_unix_time s c tick0 tick1 =
      if c.have
      then (elapsed c tick1, s, c)
      else set_base (rtc_read_date p s).0 (rtc_read_date p s).1 c tick0 tick1
