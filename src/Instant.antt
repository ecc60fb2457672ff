-- ===== src/Instant.antt =====
-- Go's time.Time as an instant: the nanoseconds since 1 January of the year before year 0, in UTC.
-- Every text of RFC 3339 names such an instant, and the time arithmetic of the source, which goes
-- back an hour at most from a clock reading, stays among them.
use vkr_public.Base.{
  ℕ, ◌+◌, ◌*◌, ◌/◌, ◌≤◌, ◌<◌, ◌≡◌, String, Option, some, Bool, ◌&&◌, leb, ltb, eqb,
}

abbrev pub Time : Type 0
Time = ℕ

abbrev pub second : ℕ
second = 1000000000

abbrev pub year_0 : Time
year_0 = 31536000 * second

-- The zero value of time.Time, 1 January of year 1.
abbrev pub zero_time : Time
zero_time = 63158400 * second

abbrev pub year_10000 : Time
year_10000 = zero_time + 3652059 * 86400 * second

-- Time.IsZero
abbrev pub is_zero : Time → Bool
is_zero t = eqb t zero_time

-- Time.MarshalJSON accepts the years 0 to 9999.
abbrev pub is_json_time : Time → Bool
is_json_time t = leb year_0 t && ltb t year_10000

-- A TIMESTAMPTZ column or parameter keeps whole microseconds.
abbrev pub timestamptz : Time → Time
timestamptz t = t / 1000 * 1000

-- Go's RFC 3339 formatting and parsing of instants, whose text is not modelled.
pub record TimeText : Type 0 where
  pub format : Time → String
  pub parse : String → Option Time
  pub parse-format : (t : Time) → year_0 ≤ t → t < year_10000 → parse (format t) ≡ some t
