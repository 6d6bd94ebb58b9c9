-- ===== src/Messaging/Consumer.antt =====
-- services/shared/events/consumer.js: what becomes of a message that is delivered. `parse` stands for
-- JSON.parse, which may throw.
use bearlink.Prelude.{ℕ, String, Option, none, some, List, [], ◌∷◌, str_eq, if◌then◌else◌}
use bearlink.Prelude.Exec.{Result, ok, err, Exec, other, continue}
use bearlink.Shared.Json.{Json, null, obj, property, given}

-- channel.ack(msg), and channel.nack(msg), which puts it back
pub data Settled : Type 0 where
  acked nacked : Settled

-- the context that the handler of a message runs in
pub record MessageContext : Type 0 where
  pub correlation_id : String
  pub service_name : String
  pub source_service : Option String

abbrev pub header_in : String → List (String × String) → Option String
header_in name [] = none
header_in name ((key, value) ∷ headers) =
    if str_eq key name then some value else header_in name headers

abbrev pub or_generated : Option String → String → String
or_generated none generated = generated
or_generated (some id) generated = id

-- extractContextFromMessage, with the name of the consuming service
abbrev pub message_context : String → Option String → List (String × String) → MessageContext
message_context generated service headers = record {
  correlation_id = or_generated (given (header_in "x-correlation-id" headers)) generated;
  service_name = or_generated (given service) "consumer";
  source_service = header_in "x-source-service" headers;
}

-- value.name, which throws on null
abbrev pub member : String → Json → Result (Option Json)
member name null = err other
member name (obj fields) = ok (property name fields)
member name _ = ok none

abbrev pub read_event : Json → Result (Option Json × Option Json)
read_event event = elim (member "type" event) [
  | err e ↦ err e
  | ok type ↦ elim (member "payload" event) [ err e ↦ err e | ok payload ↦ ok (type, payload) ]
]

abbrev pub parsed : Option Json → Result Json
parsed none = err other
parsed (some value) = ok value

module _ {S : Type 0} where
  abbrev pub settle : Result (Unit {0}) × S → Settled × S
  settle (ok tt, s) = (acked, s)
  settle (err e, s) = (nacked, s)

  abbrev pub with_event :
      (Option Json → Option Json → Exec S (Unit {0}))
      → Result (Option Json × Option Json)
      → Exec S (Unit {0})
  with_event handler (ok (type, payload)) s = handler type payload s
  with_event handler (err e) s = (err e, s)

  module _ (parse : String → Option Json) where
    -- the callback of consumeEvents, on the content of a message
    unfoldable pub consume_event :
        (Option Json → Option Json → Exec S (Unit {0})) → String → S → Settled × S
    consume_event handler content s =
        settle
          (continue (parsed (parse content), s) (λ event. with_event handler (read_event event)))

    -- the callback of consumeEmailNotifications
    unfoldable pub consume_email : (Json → Exec S (Unit {0})) → String → S → Settled × S
    consume_email handler content s = settle (continue (parsed (parse content), s) handler)

-- what consumeEvents and consumeEmailNotifications do after assertQueue: consume, or try again after
-- `retryInterval` milliseconds
pub data Subscription : Type 0 where
  consuming : String → Subscription
  retry_after : ℕ → Subscription

abbrev pub subscribe : String → Option ℕ → Result (Unit {0}) → Subscription
subscribe queue interval (ok tt) = consuming queue
subscribe queue none (err e) = retry_after 5000
subscribe queue (some ms) (err e) = retry_after ms
