-- ===== src/Messaging/Tests.antt =====
-- Runs of the connection and of the callbacks of the consumers.
use bearlink.Prelude.{
  ℕ, ◌-◌, ◌*◌, ◌≤◌, ◌<◌, String, Option, none, some, [], ◌∷◌, ltb, str_eq, ◌≡◌, refl, if◌then◌else◌,
}
use bearlink.Prelude.Exec.{Result, ok, err, other}
use bearlink.Shared.Json.{Json, null, str, object}
use bearlink.Messaging.Connection.{
  max_retries, retry_interval_ms, connect_rabbitmq, FailedBetween, Decided,
  connect_rabbitmq_settles,
}
use bearlink.Messaging.Consumer.{
  acked, nacked, message_context, consume_event, consume_email, subscribe, consuming, retry_after,
}

-- a broker that is up from the third attempt on
abbrev up_at_three : ℕ → Result String
up_at_three n = if ltb n 3 then err other else ok "channel"

connection_tests :
    (connect_rabbitmq up_at_three ≡ some (ok "channel", 3))
    × (connect_rabbitmq {Channel = String} (λ n. err other) ≡ some (err other, 30))
unfolding connect_rabbitmq
connection_tests = (refl, refl)

connect_rabbitmq_settles_example :
    (result : Result String) × (n : ℕ) × (connect_rabbitmq up_at_three ≡ some (result, n))
    × (0 < n)
    × (n ≤ max_retries)
    × FailedBetween up_at_three 0 n
    × Decided up_at_three result n
    × ((n - 1) * retry_interval_ms ≤ 58000)
connect_rabbitmq_settles_example = connect_rabbitmq_settles up_at_three

abbrev parse_text : String → Option Json
parse_text text =
    if str_eq text "event"
    then some (object (("type", some (str "url_clicked")) ∷ []))
    else if str_eq text "null"
    then some null
    else none

abbrev start : ℕ
start = 0

consumer_tests :
    (consume_event {S = ℕ} parse_text (λ type payload s. (ok tt, s)) "event" start ≡ (acked, start))
    × (consume_event {S = ℕ} parse_text (λ type payload s. (ok tt, s)) "null" start
        ≡ (nacked, start))
    × (consume_email {S = ℕ} parse_text (λ mail s. (err other, s)) "event" start ≡ (nacked, start))
    × (subscribe "events" none (err other) ≡ retry_after 5000)
    × (subscribe "events" none (ok tt) ≡ consuming "events")
    × ((message_context "id" (some "audit") (("x-source-service", "url") ∷ [])).source_service
        ≡ some "url")
unfolding consume_event consume_email
consumer_tests = (refl, refl, refl, refl, refl, refl)
