-- ===== src/Rtc/Unix.antt =====
-- `rtc_unix_time`: the first call sets the base, later ones add the ticks since.
use core_z_os.Base.{ℕ, ◌+◌, ◌*◌, ◌/◌, ◌%◌, ◌^◌, ◌≤◌, ◌<◌, ◌≡◌, refl, false, some, arith}
use core_z_os.Rtc.{
  Ports, Clock, decode_date, cmos_read, CivilDate, TimeOfDay, elapsed, epoch_seconds, rtc_read_date,
  rtc_read_time, set_base, rtc_unix_time,
}
use core_z_os.Rtc.Civil.{day_number, day_number-lt, days_from_civil-eq-day_number}
use core_z_os.Rtc.Time.{rtc_read_time_range}

-- A date between 2000 and 2255, as the chip's byte for the year gives it.
pub record IsDate (d : CivilDate) : Type 0 where
  pub year : d.year < 256
  pub month_pos : 1 ≤ d.month
  pub month_le : d.month ≤ 12
  pub day_pos : 1 ≤ d.day
  pub day_le : d.day ≤ 31

decode_date-IsDate :
    (b y m d : ℕ) {date : CivilDate} → y < 256 → decode_date b y m d ≡ some date → IsDate date
unfolding decode_date
decode_date-IsDate b y m d small e = ground arith

cmos_read-lt : (p : Ports) (s : p.State) (reg : ℕ) → (cmos_read p s reg).0 < 256
unfolding cmos_read
cmos_read-lt p s reg = omega arith

-- Whatever the chip answers, a date that `rtc_read_date` returns is in range.
pub rtc_read_date-IsDate :
    (p : Ports) (s : p.State) {date : CivilDate} → (rtc_read_date p s).0 ≡ some date → IsDate date
unfolding rtc_read_date
rtc_read_date-IsDate p s e = decode_date-IsDate _ _ _ _ (cmos_read-lt p _ _) e

-- The seconds from 1 January 1970 to a date of the chip and a time.
abbrev pub seconds : CivilDate → TimeOfDay → ℕ
seconds d t = day_number (2000 + d.year) d.month d.day * 86400 + t.hour * 3600 + t.min * 60 + t.sec

abbrev IsTime : TimeOfDay → Type 0
IsTime t = (t.hour < 24) × (t.min < 60) × (t.sec < 60)

epoch_seconds_lem :
    (d : CivilDate) (t : TimeOfDay)
    → IsDate d
    → IsTime t
    → (epoch_seconds d t ≡ seconds d t) × (seconds d t < 2 ^ 50)
unfolding epoch_seconds
epoch_seconds_lem d t v h = omega (
  arith,
  days_from_civil-eq-day_number (2000 + d.year) d.month d.day,
  day_number-lt (2000 + d.year) d.month d.day,
)

-- The first call of `rtc_unix_time` that reads a date, at the tick k, returns the seconds from 1970
-- to the date and time that the chip gave. A call n ticks later adds one second for each hundred
-- ticks of n modulo 2 ^ 32, and reads the chip no more: the clock falls back by 2 ^ 32 ticks each
-- time that the counter goes round.
pub rtc_unix_time_lem :
    (p : Ports) (s : p.State) (c : Clock) (d : CivilDate) (k n : ℕ)
    → c.have ≡ false
    → (rtc_read_date p s).0 ≡ some d
    → k < 2 ^ 32
    → let t = (rtc_read_time p (rtc_read_date p s).1).0 in
      let (first, s', c') = rtc_unix_time p s c k k in
      let later = (k + n) % 2 ^ 32 in
      let (second, s'', c'') = rtc_unix_time p s' c' later later in
      (first ≡ seconds d t) × (second ≡ first + n % 2 ^ 32 / 100) × (s'' ≡ s') × (c'' ≡ c')
unfolding rtc_unix_time set_base elapsed
rtc_unix_time_lem p s c d k n fresh read small =
    rw (fresh, read)
      (
        omega (arith, epoch_seconds_lem d t v time),
        omega (arith, epoch_seconds_lem d t v time),
        refl,
        refl,
      )
  where
    t : TimeOfDay
    t = (rtc_read_time p (rtc_read_date p s).1).0

    v : IsDate d
    v = rtc_read_date-IsDate p s read

    time : IsTime t
    time = rtc_read_time_range p (rtc_read_date p s).1
