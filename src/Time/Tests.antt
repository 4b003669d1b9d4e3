-- ===== src/Time/Tests.antt =====
-- From half a second before a full second to a tenth of a second behind it.
use hiemal.Base.{◌-◌, ◌/◌, ◌≡◌, arith}
use hiemal.Time.{Timespec, elapsed_time_ms, elapsed_time_us}
use hiemal.Time.Elapsed.{nanoseconds, elapsed_time_ms-nanoseconds}

abbrev before : Timespec
before = record { tv_sec = 6; tv_nsec = 500000000 }

abbrev behind : Timespec
behind = record { tv_sec = 7; tv_nsec = 100000000 }

elapsed_time_ms-nanoseconds_example :
    (elapsed_time_ms before behind ≡ (nanoseconds behind - nanoseconds before) / 1000000)
    × (elapsed_time_us before behind ≡ (nanoseconds behind - nanoseconds before) / 1000)
elapsed_time_ms-nanoseconds_example =
    elapsed_time_ms-nanoseconds before behind (record { below_second = omega arith })
      (record { below_second = omega arith }) (omega arith)
