-- ===== src/Time/Elapsed.antt =====
-- The elapsed time of src/util/time.c against a count of nanoseconds.
use hiemal.Base.{ℕ, ◌+◌, ◌-◌, ◌*◌, ◌/◌, ◌<◌, ◌≤◌, ◌≡◌, arith}
use hiemal.Time.{Timespec, borrow, elapsed_time_ms, elapsed_time_us}

abbrev pub nanoseconds : Timespec → ℕ
nanoseconds t = t.tv_sec * 1000000000 + t.tv_nsec

pub record IsTime (t : Timespec) : Type 0 where
  pub below_second : t.tv_nsec < 1000000000

-- Between two times of which the second is not earlier, `elapsed_time_ms` and `elapsed_time_us` are the
-- whole milliseconds and microseconds in the difference of their nanoseconds, whether a second has to be
-- borrowed or not.
pub elapsed_time_ms-nanoseconds :
    (start now : Timespec)
    → IsTime start
    → IsTime now
    → nanoseconds start ≤ nanoseconds now
    → (elapsed_time_ms start now ≡ (nanoseconds now - nanoseconds start) / 1000000)
      × (elapsed_time_us start now ≡ (nanoseconds now - nanoseconds start) / 1000)
unfolding elapsed_time_ms elapsed_time_us borrow
elapsed_time_ms-nanoseconds start now s n le =
    (ground (arith, s.below_second, n.below_second), ground (arith, s.below_second, n.below_second))
