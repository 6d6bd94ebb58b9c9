-- ===== src/Outbox/TimerTests.antt =====
-- Runs of the timer of the rounds.
use bearlink.Prelude.{none, some, ◌≡◌, refl}
use bearlink.Outbox.Timer.{new_timer, start, tick, stop}

timer_tests :
    (start none new_timer ≡ new_timer)
    × ((stop (tick (tick (start (some "http://audit") new_timer)))).1 ≡ some 1)
    × ((tick (stop (tick (start (some "http://audit") new_timer))).0).started ≡ 1)
unfolding start tick stop
timer_tests = (refl, refl, refl)
