-- ===== src/Shared/Events.antt =====
-- services/shared/events and services/shared/utils/context.js: the messages of the publisher, with the
-- context of the request they are sent in; and the rows of the outbox.
use bearlink.Prelude.{String, Option, none, some, List, [], ◌∷◌, ◌++◌}
use bearlink.Shared.Json.{Json, object, str, given}

-- The data of an outboxEvent.create.
pub record NewEvent : Type 0 where
  pub event_type : String
  pub payload : Json
  pub actor_id : Option String

-- what the publisher reads of a context
pub record Context : Type 0 where
  pub correlation_id : Option String
  pub service_name : Option String

-- the arguments of a channel.sendToQueue, its content before JSON.stringify; no headers are no options
pub record Message : Type 0 where
  pub queue : String
  pub content : Json
  pub headers : List (String × String)

abbrev pub header : String → Option String → List (String × String)
header name none = []
header name (some value) = (name, value) ∷ []

unfoldable pub get_message_options : Option Context → List (String × String)
get_message_options none = []
get_message_options (some context) =
    header "x-correlation-id" (given context.correlation_id)
    ++ header "x-source-service" (given context.service_name)

module _ (context : Option Context) where
  abbrev pub event_message : String → Json → Message
  event_message type payload = record {
    queue = "events";
    content = object (("type", some (str type)) ∷ ("payload", some payload) ∷ []);
    headers = get_message_options context;
  }

  abbrev pub user_registered_message : Json → Message
  user_registered_message payload = event_message "user_registered" payload

  abbrev pub url_created_message : Json → Message
  url_created_message payload = event_message "url_created" payload

  abbrev pub url_updated_message : Json → Message
  url_updated_message payload = event_message "url_updated" payload

  abbrev pub url_deleted_message : Json → Message
  url_deleted_message payload = event_message "url_deleted" payload

  abbrev pub url_clicked_message : Json → Message
  url_clicked_message payload = event_message "url_clicked" payload

  abbrev pub password_reset_requested_message : Json → Message
  password_reset_requested_message payload = event_message "password_reset_requested" payload

  abbrev pub password_reset_completed_message : Json → Message
  password_reset_completed_message payload = event_message "password_reset_completed" payload

  abbrev pub email_message : Json → Message
  email_message payload = record {
    queue = "email_notifications";
    content = payload;
    headers = get_message_options context;
  }
