-- ===== src/Time.antt =====
-- src/util/time.c for Unix: the choice of a clock, and the time that has passed on it. The divisions are of
-- `double`s, and are exact for times of less than 2 ^ 53 milliseconds or microseconds, but for the fraction that
-- the conversion to `unsigned long` cuts off.
pub mod Elapsed
mod Tests
use hiemal.Base.{ℕ, ◌+◌, ◌-◌, ◌*◌, ◌/◌, Option, none, some, ltb, if◌then◌else◌}

-- `struct timespec`
pub record Timespec : Type 0 where
  pub tv_sec : ℕ
  pub tv_nsec : ℕ

pub data Clock : Type 0 where
  monotonic monotonic_coarse : Clock

-- `resolution`: what `clock_getres` says of the coarse clock; `none` is an error.
unfoldable pub get_suitable_clock : (resolution : Option Timespec) → Clock
get_suitable_clock none = monotonic
get_suitable_clock (some t) = if ltb t.tv_nsec 5000000 then monotonic_coarse else monotonic

-- The borrow of a second; the current time is not before the start.
unfoldable pub borrow : (start now : Timespec) → Timespec
borrow start now =
    if ltb now.tv_nsec start.tv_nsec
    then record { tv_sec = now.tv_sec - 1; tv_nsec = now.tv_nsec + 1000000000 }
    else now

unfoldable pub elapsed_time_ms : (start now : Timespec) → ℕ
unfolding borrow
elapsed_time_ms start now =
    let now = borrow start now in
    (now.tv_nsec - start.tv_nsec) / 1000000 + (now.tv_sec - start.tv_sec) * 1000

unfoldable pub elapsed_time_us : (start now : Timespec) → ℕ
unfolding borrow
elapsed_time_us start now =
    let now = borrow start now in
    (now.tv_nsec - start.tv_nsec) / 1000 + (now.tv_sec - start.tv_sec) * 1000000
