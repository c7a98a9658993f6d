-- ===== src/Clock.antt =====
-- pkg/clock/mock.go, the clock that a test sets, and pkg/version/version.go. A time is its `Unix()` second, as
-- the moving averager reads it, and a duration a number of seconds; the lock is left out.
use iotencoder.Common.{ℤ, Text, codes, ◌++◌}
use iotencoder.Common.Int.{◌+ℤ◌}

-- `mockClock`
pub record MockClock : Type 0 where
  pub base_time : ℤ

-- `NewMock`
abbrev pub new_clock : ℤ → MockClock
new_clock t = record { base_time = t }

-- `Now`
abbrev pub clock_now : MockClock → ℤ
clock_now clock = clock.base_time

-- `Set`
abbrev pub set_clock : ℤ → MockClock → MockClock
set_clock t clock = record { base_time = t }

-- `Add`
unfoldable pub add_clock : ℤ → MockClock → MockClock
add_clock d clock = record { base_time = clock.base_time +ℤ d }

-- `VersionString`, of the version, the operating system, the architecture and the date of the build.
unfoldable pub version_string : Text → Text → Text → Text → Text
version_string version os arch date =
    version ++ (codes " (" ++ (os ++ (codes "/" ++ (arch ++ (codes "). build date: " ++ date)))))
