-- ===== src/Auth/RedisTests.antt =====
-- Runs of the store of failed logins in Redis.
use bearlink.Prelude.{ℕ, ◌+◌, ◌≤◌, Bool, true, false, some, ◌≡◌, refl, ◌⊎◌, ◌↔◌, if◌then◌else◌}
use bearlink.Prelude.Exec.{ok, err, other}
use bearlink.Shared.Json.{str}
use bearlink.Auth.LoginAttempts.{lock_threshold}
use bearlink.Auth.RedisAttempts.{
  Redis, lock_ttl_seconds, locked_key, attempts_key, redis_store, redis_store_degrades,
}

-- a Redis with one counter and one lock, and one that is down
abbrev one_key : Redis
one_key = record {
  State = ℕ × Bool;
  exists = λ key s. (ok (if s.1 then 1 else 0), s);
  incr = λ key s. (ok (s.0 + 1), (s.0 + 1, s.1));
  set_nx_ex = λ key seconds s. (ok tt, (s.0, true));
  del = λ keys s. (ok tt, (0, false));
}

abbrev down : Redis
down = record {
  State = ℕ × Bool;
  exists = λ key s. (err other, s);
  incr = λ key s. (err other, s);
  set_nx_ex = λ key seconds s. (err other, s);
  del = λ keys s. (err other, s);
}

abbrev four_failures : ℕ × Bool
four_failures = (4, false)

redis_tests :
    (((redis_store one_key).record_failed_attempt 0 (some (str "a@b.c")) four_failures).1
      ≡ (5, true))
    × (((redis_store one_key).is_locked 0 (some (str "a@b.c")) (5, true)).0 ≡ ok true)
    × (((redis_store down).is_locked 0 (some (str "a@b.c")) (5, true)).0 ≡ ok false)
redis_tests = (refl, refl, refl)

redis_store_degrades_example :
    (((redis_store one_key).record_failed_attempt 0 (some (str "a@b.c")) four_failures).0 ≡ ok tt)
    × (((redis_store one_key).clear_attempts 0 (some (str "a@b.c")) four_failures).0 ≡ ok tt)
    × ((((redis_store one_key).is_locked 0 (some (str "a@b.c")) four_failures).0 ≡ ok true)
        ⊎ (((redis_store one_key).is_locked 0 (some (str "a@b.c")) four_failures).0 ≡ ok false))
    × ((((redis_store one_key).is_locked 0 (some (str "a@b.c")) four_failures).0 ≡ ok true)
        ↔ ((one_key.exists (locked_key (some (str "a@b.c"))) four_failures).0 ≡ ok 1))
    × ((count : ℕ) (s' : ℕ × Bool)
        → one_key.incr (attempts_key (some (str "a@b.c"))) four_failures ≡ (ok count, s')
        → lock_threshold ≤ count
        → ((redis_store one_key).record_failed_attempt 0 (some (str "a@b.c")) four_failures).1
          ≡ (one_key.set_nx_ex (locked_key (some (str "a@b.c"))) lock_ttl_seconds s').1)
redis_store_degrades_example = redis_store_degrades one_key 0 (some (str "a@b.c")) four_failures
