-- ===== src/Messaging/Email.antt =====
-- services/notification/services/email.service.js. `send` stands for transporter.sendMail.
use bearlink.Prelude.{String, Option}
use bearlink.Prelude.Exec.{Exec, Failure, throw}
use bearlink.Shared.Json.{Json, null, obj, Fields, end, property}
use bearlink.Messaging.Consumer.{Settled, consume_email}

-- the options of sendMail; what is undefined is `none`
pub record Mail : Type 0 where
  pub from : Option String
  pub to : Option Json
  pub subject : Option Json
  pub text : Option Json

abbrev mail_of : Option String → Fields → Mail
mail_of sender fields = record {
  from = sender;
  to = property "to" fields;
  subject = property "subject" fields;
  text = property "text" fields;
}

-- `sender` is EMAIL_USER
module _ {S : Type 0} (send : Mail → Exec S (Unit {0})) (sender : Option String) where
  -- the function that createEmailSender gives; an error is logged and thrown again
  abbrev pub send_email : Json → Exec S (Unit {0})
  send_email null = throw Failure.other
  send_email (obj fields) = send (mail_of sender fields)
  send_email value = send (mail_of sender end)

  -- the consumer of the notification service, on the content of a message
  unfoldable pub notify : (String → Option Json) → String → S → Settled × S
  notify parse = consume_email parse send_email
