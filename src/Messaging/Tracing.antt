-- ===== src/Messaging/Tracing.antt =====
-- The context that a message carries from its publisher to its consumer.
use bearlink.Prelude.{String, Option, none, some, List, ◌++◌, ◌≡◌, refl, ap, arith}
use bearlink.Shared.Json.{given}
use bearlink.Shared.Events.{Context, header, get_message_options}
use bearlink.Messaging.Consumer.{header_in, or_generated, message_context}

abbrev pub correlation_in : Option Context → Option String
correlation_in none = none
correlation_in (some context) = given context.correlation_id

abbrev pub service_in : Option Context → Option String
service_in none = none
service_in (some context) = given context.service_name

-- the handler of a message runs with the correlation id of its publisher, if there was one, and knows
-- the publisher's service
abbrev pub IsTraced : Option Context → List (String × String) → Type 0
IsTraced context headers =
    (generated : String) (service : Option String)
    → ((message_context generated service headers).correlation_id
        ≡ or_generated (correlation_in context) generated)
      × ((message_context generated service headers).source_service ≡ service_in context)

given-given : (o : Option String) → given (given o) ≡ given o
given-given none = refl
given-given (some s) = ground arith

-- the headers of every published message
pub get_message_options-IsTraced :
    (context : Option Context) → IsTraced context (get_message_options context)
unfolding get_message_options
get_message_options-IsTraced none generated service = (refl, refl)
get_message_options-IsTraced (some context) generated service =
    go (given context.correlation_id) (given context.service_name)
      (given-given context.correlation_id)
  where
    headers : Option String → Option String → List (String × String)
    headers id name = header "x-correlation-id" id ++ header "x-source-service" name

    go :
        (id name : Option String)
        → given id ≡ id
        → (or_generated (given (header_in "x-correlation-id" (headers id name))) generated
            ≡ or_generated id generated)
          × (header_in "x-source-service" (headers id name) ≡ name)
    go none none same = (refl, refl)
    go none (some n) same = (refl, refl)
    go (some i) none same = (ap (λ (o : Option String). or_generated o generated) same, refl)
    go (some i) (some n) same = (ap (λ (o : Option String). or_generated o generated) same, refl)
