-- ===== src/Timer/Sleep.antt =====
-- The pause between two ticks, and times as seconds and microseconds.
use utils_c.Base.{ℕ, ◌+◌, ◌*◌, ◌/◌, ◌<◌, ◌≤◌, ◌≡◌, ◌≢◌, arith, none, some}
use utils_c.Timer.{pause, msleep_timeval, usleep_timeval, time_ms, time_us}

-- The pause of a round ends one millisecond behind the round's start, and is positive; there is none
-- exactly when the round took as long or the clock was set back.
pub pause_bounds :
    (us_begin us_mid k : ℕ)
    → ((us_begin ≤ us_mid) × (us_mid < us_begin + 1000) → pause us_begin us_mid ≢ none)
      × (pause us_begin us_mid ≡ some k
          → (0 < k) × (k ≤ 1000) × (us_mid + k ≡ us_begin + 1000) × (us_begin ≤ us_mid))
unfolding pause
pause_bounds us_begin us_mid k = (ground arith, ground arith)

-- The two sleeping functions hand `select` the whole time they are given, in a `timeval` whose
-- microseconds are less than a second, and the two clocks agree on every such `timeval`.
pub timeval_bounds :
    (n sec usec : ℕ)
    → usec < 1000000
    → (time_us (msleep_timeval n) ≡ 1000 * n)
      × ((msleep_timeval n).1 < 1000000)
      × (time_us (usleep_timeval n) ≡ n)
      × ((usleep_timeval n).1 < 1000000)
      × (time_us (sec, usec) / 1000 ≡ time_ms (sec, usec))
unfolding time_us time_ms msleep_timeval usleep_timeval
timeval_bounds n sec usec h = (omega arith, omega arith, omega arith, omega arith, omega arith)
