-- ===== src/Format/Tests.antt =====
-- The core format at concrete inputs.
use moon_bridge.Prelude.{◌≡◌, arith, ◌≤◌}
use moon_bridge.Format.Strip.{size, strip_loop}
use moon_bridge.Format.Strip.Fuel.{strip_loop_fuel}

size_within : size "a data:image/png;base64,AAAA b" ≤ 40
unfolding size
size_within = omega arith

strip_loop_fuel_example :
    strip_loop 40 "a data:image/png;base64,AAAA b" ≡ strip_loop 50 "a data:image/png;base64,AAAA b"
strip_loop_fuel_example =
    strip_loop_fuel "a data:image/png;base64,AAAA b" 40 50 size_within (omega (arith, size_within))
