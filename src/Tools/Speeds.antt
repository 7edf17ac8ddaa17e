-- ===== src/Tools/Speeds.antt =====
-- How kmod/p4_calibrate.c looks for the fastest SPI clock: get_actual_speed, discover_speeds and
-- find_max_speed. What the SPI driver and a test at a speed answer are arguments.
pub mod Fastest
use p4_hmd.Base.{ℕ, zero, suc, ◌+◌, ◌-◌, Bool, true, false, not, ◌&&◌, ◌==◌, ltb, leb}
use p4_hmd.Base.{if◌then◌else◌, List, [], ◌∷◌, Option, none, some}

-- The two `ioctl` calls: whether a requested speed is taken, and what the driver then says.
pub record SpiDriver : Type 0 where
  pub takes : ℕ → Bool
  pub speed_for : ℕ → Option ℕ

abbrev pub actual_or : Option ℕ → ℕ
actual_or none = 0
actual_or (some actual) = actual

unfoldable pub get_actual_speed : SpiDriver → ℕ → ℕ
get_actual_speed spi requested =
    if spi.takes requested then actual_or (spi.speed_for requested) else 0

abbrev pub max_speeds : ℕ
max_speeds = 64

abbrev pub last_probe : ℕ
last_probe = 125000000

abbrev pub probe_step : ℕ
probe_step = 1000000

-- The loop from `probe` on, for at most `fuel` rounds, with room for `room` more speeds; the result lists
-- the speeds found.
unfoldable pub discover_from : SpiDriver → ℕ → ℕ → ℕ → ℕ → List ℕ
discover_from spi zero room probe last_actual = []
discover_from spi (suc fuel) room probe last_actual =
    let actual = get_actual_speed spi probe in
    let is_new = ltb 0 actual && not (actual == last_actual) in
    let rest =
      discover_from spi fuel (if is_new then room - 1 else room) (probe + probe_step)
        (if is_new then actual else last_actual) in
    if leb probe last_probe && ltb 0 room then (if is_new then actual ∷ rest else rest) else []

-- A step from 0 to 125 MHz takes 126 rounds.
unfoldable pub discover_speeds : SpiDriver → ℕ → ℕ → List ℕ
discover_speeds spi max_count start_speed = discover_from spi 126 max_count start_speed 0

-- The loop over the speeds, with the last good one; `test_speed` says whether a speed works.
unfoldable pub test_speeds : (ℕ → Bool) → List ℕ → ℕ → ℕ
test_speeds test_speed [] max_good = max_good
test_speeds test_speed (x ∷ xs) max_good =
    let rest = test_speeds test_speed xs x in if test_speed x then rest else max_good

unfoldable pub find_max_speed : SpiDriver → (ℕ → Bool) → ℕ → ℕ
find_max_speed spi test_speed start_speed =
    test_speeds test_speed (discover_speeds spi max_speeds start_speed) 0
