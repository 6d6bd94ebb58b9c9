-- ===== src/Outbox/Timer.antt =====
-- services/shared/utils/outboxPoller.js, start and stop: the timer of the rounds.
use bearlink.Prelude.{ℕ, ◌+◌, String, Option, none, some}
use bearlink.Shared.Json.{given}

abbrev pub poll_interval_ms : ℕ
poll_interval_ms = 5000

-- intervalId, as the interval of the timer that it names; inFlight, as the number of the round whose
-- promise it is; and how many rounds were started
pub record Timer : Type 0 where
  pub interval : Option ℕ
  pub in_flight : Option ℕ
  pub started : ℕ

abbrev pub new_timer : Timer
new_timer = record { interval = none; in_flight = none; started = 0 }

abbrev start_with : Option String → Timer → Timer
start_with none timer = timer
start_with (some audit_url) timer = record timer { interval = some poll_interval_ms }

-- start, with AUDIT_SERVICE_URL
unfoldable pub start : Option String → Timer → Timer
start audit_url timer = start_with (given audit_url) timer

abbrev tick_of : Option ℕ → Timer → Timer
tick_of none timer = timer
tick_of (some ms) timer = record timer {
  in_flight = some timer.started;
  started = timer.started + 1;
}

-- the callback of setInterval: a round is started, whether the one before has ended or not
unfoldable pub tick : Timer → Timer
tick timer = tick_of timer.interval timer

-- stop, and the round that it waits for: the last one that was started
unfoldable pub stop : Timer → Timer × Option ℕ
stop timer = (record timer { interval = none }, timer.in_flight)
