-- ===== src/Rtc/Time.antt =====
-- The time of day that `rtc_read_time` returns: in range whatever the chip answers, and what the
-- chip shows where it holds a time in one of its four formats.
use core_z_os.Base.{
  ℕ, ◌+◌, ◌*◌, ◌/◌, ◌%◌, ◌<◌, ◌≡◌, Bool, not, ◌&&◌, arith, leb, ◌==◌, if◌then◌else◌,
}
use core_z_os.Rtc.{Ports, TimeOfDay, decode_hour, decode_sixty, cmos_read, rtc_read_time}

pub decode_hour-lt : (b h : ℕ) → decode_hour b h < 24
unfolding decode_hour
decode_hour-lt b h = ground arith

pub decode_sixty-lt : (b v : ℕ) → decode_sixty b v < 60
unfolding decode_sixty
decode_sixty-lt b v = ground arith

-- Whatever the chip answers, the time that `rtc_read_time` returns is in range.
pub rtc_read_time_range :
    (p : Ports) (s : p.State)
    → ((rtc_read_time p s).0.hour < 24)
      × ((rtc_read_time p s).0.min < 60)
      × ((rtc_read_time p s).0.sec < 60)
unfolding rtc_read_time
rtc_read_time_range p s = (decode_hour-lt _ _, decode_sixty-lt _ _, decode_sixty-lt _ _)

-- The format in which the chip holds a time: status B, bits 2 and 1.
pub record Format : Type 0 where
  pub binary : Bool
  pub all_day : Bool  -- 24 hours; else 12 hours, and bit 7 of the hour for the afternoon

abbrev pub status_b : Format → ℕ
status_b f = (if f.binary then 4 else 0) + (if f.all_day then 2 else 0)

abbrev pub encode : Format → ℕ → ℕ
encode f n = if f.binary then n else n / 10 * 16 + n % 10

abbrev pub encode_hour : Format → ℕ → ℕ
encode_hour f h =
    if f.all_day
    then encode f h
    else encode f (if h % 12 == 0 then 12 else h % 12) + (if leb 12 h then 128 else 0)

-- The registers of a chip that holds the time t.
abbrev pub registers : Format → TimeOfDay → ℕ → ℕ
registers f t reg =
    if reg == 0x0b
    then status_b f
    else if reg == 0x04
    then encode_hour f t.hour
    else if reg == 0x02
    then encode f t.min
    else if reg == 0x00
    then encode f t.sec
    else 0

-- Each read of a register gives what it holds.
abbrev pub Shows : (p : Ports) → (ℕ → ℕ) → Type 0
Shows p regs = (s : p.State) (reg : ℕ) → (cmos_read p s reg).0 ≡ regs reg

decode-encode_sixty : (f : Format) (v : ℕ) → v < 60 → decode_sixty (status_b f) (encode f v) ≡ v
unfolding decode_sixty
decode-encode_sixty f v h = ground arith

-- The hour comes back, but for the afternoon of a chip that holds it in BCD and twelve hours.
abbrev pub shown_hour : Format → ℕ → ℕ
shown_hour f h = if not f.binary && not f.all_day && leb 12 h then 0 else h

decode-encode_hour :
    (f : Format) (h : ℕ) → h < 24 → decode_hour (status_b f) (encode_hour f h) ≡ shown_hour f h
unfolding decode_hour
decode-encode_hour f h = ground arith

-- `rtc_read_time` gives back the time that the chip holds, in three of the four formats and in the
-- morning; in BCD with twelve hours, the hour it returns for every afternoon hour is 0.
pub rtc_read_time-registers :
    (p : Ports) (s : p.State) (f : Format) (t : TimeOfDay)
    → Shows p (registers f t)
    → t.hour < 24
    → t.min < 60
    → t.sec < 60
    → (rtc_read_time p s).0 ≡ record t { hour = shown_hour f t.hour }
unfolding rtc_read_time
rtc_read_time-registers p s f t shows h m x = simp (
  shows,
  decode-encode_hour f t.hour h,
  decode-encode_sixty f t.min m,
  decode-encode_sixty f t.sec x,
)
