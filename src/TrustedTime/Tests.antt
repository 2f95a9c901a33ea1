-- ===== src/TrustedTime/Tests.antt =====
-- A clock that was set, asked, set back a little and asked again.
use power_monitor_sensor_hea.Base.{◌≡◌, refl, some, List, [], ◌∷◌}
use power_monitor_sensor_hea.Base.Int.{pos, ◌≤ℤ◌, ◌+ℤ◌, ◌-ℤ◌, div_ℤ}
use power_monitor_sensor_hea.Base.Esp.{ok, fail}
use power_monitor_sensor_hea.TrustedTime.{TimeState, sntp, time_init, time_observe, time_now}
use power_monitor_sensor_hea.TrustedTime.Monotone.{Call, observed, steps, time_now-le-time_now}

abbrev set_clock : TimeState
unfolding time_observe time_init
set_clock = (time_observe (time_init (pos 0)) sntp (pos 1704067300000) (pos 1000) ok).0

first_time : (time_now set_clock (pos 5001000)).1 ≡ some (pos 1704067305000)
unfolding time_now time_observe time_init ◌+ℤ◌ ◌-ℤ◌ div_ℤ
first_time = refl

abbrev between : List Call
between = observed sntp (pos 1704067301000) (pos 6000000) fail ∷ []

second_time :
    (time_now (steps (time_now set_clock (pos 5001000)).0 between) (pos 7000000)).1
    ≡ some (pos 1704067305000)
unfolding time_now time_observe time_init ◌+ℤ◌ ◌-ℤ◌ div_ℤ
second_time = refl

time_now-le-time_now_example : pos 1704067305000 ≤ℤ pos 1704067305000
time_now-le-time_now_example =
    time_now-le-time_now set_clock (pos 5001000) (pos 7000000) (pos 1704067305000)
      (pos 1704067305000) between first_time second_time
