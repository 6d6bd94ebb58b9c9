-- ===== src/Auth/Session.antt =====
-- services/auth/controllers/auth.controller.js: register, login, logout and getCsrfToken.
use Prim.Native.String.{◌++◌ as ◌<>◌}
use bearlink.Prelude.{String, Bool, true, Option, none, some, List, [], ◌∷◌, if◌then◌else◌}
use bearlink.Prelude.Text.Decimal.{show}
use bearlink.Prelude.Exec.{Exec, other, pure, throw, catch, ◌>>=◌, ◌>>◌}
use bearlink.Shared.Json.{Json, num, nat, str, object, to_text, given}
use bearlink.Shared.Validation.{missing_of, is_valid_email, is_valid_password}
use bearlink.Shared.Events.{NewEvent, user_registered_message, email_message}
use bearlink.Auth.Record.{
  User, sanitize_user, claims_of, safe_json, Cookie, Reply, fail, missing_fields, session,
  signed_out, csrf_token,
}
use bearlink.Auth.Csrf.{generate_csrf_token}
use bearlink.Auth.Platform.{
  Operation, create_user, create_event, AttemptStore, Accounts, Setup, World, with_attempts, query,
  given_result, transact, note, publish,
}

-- The properties of a body; one that is undefined is `none`.
pub record Registration : Type 0 where
  pub email : Option Json
  pub password : Option Json
  pub name : Option Json

pub record Login : Type 0 where
  pub email : Option Json
  pub password : Option Json

abbrev pub set_token_cookie : Setup → String → Cookie
set_token_cookie setup token = record {
  value = token;
  http_only = true;
  secure = setup.is_production;
  same_site = "strict";
  max_age = 3600000;
}

-- `${value}` of a property that may be undefined
abbrev pub print : Option Json → String
print none = "undefined"
print (some value) = to_text value

abbrev pub registered_event : Option Json → NewEvent
registered_event email = record {
  event_type = "user_registered";
  payload = object (("email", email) ∷ []);
  actor_id = none;
}

abbrev pub login_failed_event : Option Json → NewEvent
login_failed_event email = record {
  event_type = "user_login_failed";
  payload = object (("email", email) ∷ []);
  actor_id = none;
}

abbrev pub login_event : User → NewEvent
login_event u = record {
  event_type = "user_login";
  payload = object (("userId", some (num (nat u.id))) ∷ ("email", some (str u.email)) ∷ []);
  actor_id = some (show u.id);
}

abbrev pub welcome : Registration → Json
welcome body = object (
    ("to", body.email)
    ∷ ("subject", some (str "Welcome to BearLink!"))
    ∷ (
      "text",
      some (
          str (
            "Hello "
            <> print body.name
            <> ",\n\nThank you for registering at BearLink.\n\nBest Regards,\nBearLink Team")),
    )
    ∷ [])

module _ (A : Accounts) (T : AttemptStore) (setup : Setup) where
  -- the cookie of a new session, and the user
  abbrev pub start_session : User → Exec (World A T) Reply
  start_session u = do
    token ← given_result A T (A.sign_jwt (claims_of u))
    pure (session (sanitize_user u) (set_token_cookie setup token))

  abbrev pub registration_ops : Registration → String → List Operation
  registration_ops body hash =
      create_user record { email = body.email; password = hash; name = body.name }
      ∷ create_event (registered_event body.email)
      ∷ []

  -- what follows the transaction; sanitizeUser of no user throws
  abbrev pub welcome_user : Registration → Option User → Exec (World A T) Reply
  welcome_user body none = throw other
  welcome_user body (some u) =
      publish A T (user_registered_message setup.context (safe_json A.date_text (sanitize_user u)))
      >> publish A T (email_message setup.context (welcome body))
      >> start_session u

  abbrev pub save_registration : Registration → String → Exec (World A T) Reply
  save_registration body hash =
      catch (transact A T (registration_ops body hash) >>= welcome_user body)
        (λ e. pure (fail 400 "User registration failed."))

  abbrev pub register_valid : Registration → Exec (World A T) Reply
  register_valid body = given_result A T (A.hash_password body.password) >>= save_registration body

  abbrev pub password_message : String
  password_message =
      "Password must be at least 8 characters and contain uppercase, lowercase, and a number"

  -- validateRequiredFields(req.body, ['email', 'password', 'name'])
  abbrev pub missing_in : Registration → List String
  missing_in body =
      missing_of (("email", body.email) ∷ ("password", body.password) ∷ ("name", body.name) ∷ [])

  -- the refusal of a body, if there is one
  abbrev pub refuse_registration : Registration → List String → Option Reply
  refuse_registration body (field ∷ fields) = some (missing_fields (field ∷ fields))
  refuse_registration body [] =
      if is_valid_email A.is_email body.email
      then if is_valid_password body.password then none else some (fail 400 password_message)
      else some (fail 400 "Invalid email format")

  abbrev pub register_checked : Registration → Option Reply → Exec (World A T) Reply
  register_checked body none = register_valid body
  register_checked body (some reply) = pure reply

  unfoldable pub register : Registration → Exec (World A T) Reply
  register body = register_checked body (refuse_registration body (missing_in body))

  abbrev pub check_lock : Option Json → Exec (World A T) Bool
  check_lock email w = with_attempts A T (T.is_locked setup.now email w.attempts) w

  abbrev pub record_failure : Option Json → Exec (World A T) (Unit {0})
  record_failure email w = with_attempts A T (T.record_failed_attempt setup.now email w.attempts) w

  abbrev pub forget_failures : Option Json → Exec (World A T) (Unit {0})
  forget_failures email w = with_attempts A T (T.clear_attempts setup.now email w.attempts) w

  abbrev pub reject_login : Option Json → Exec (World A T) Reply
  reject_login email =
      record_failure email
      >> note A T (login_failed_event email)
      >> pure (fail 400 "Invalid email or password.")

  abbrev pub accept_login : Option Json → User → Exec (World A T) Reply
  accept_login email u = forget_failures email >> note A T (login_event u) >> start_session u

  abbrev pub compared : Option Json → User → Bool → Exec (World A T) Reply
  compared email u right = if right then accept_login email u else reject_login email

  abbrev pub check_password : Login → Option User → Exec (World A T) Reply
  check_password body none = reject_login body.email
  check_password body (some u) =
      given_result A T (A.compare_password body.password u.password) >>= compared body.email u

  abbrev pub login_unlocked : Login → Exec (World A T) Reply
  login_unlocked body = query A T (A.find_by_email body.email) >>= check_password body

  abbrev pub login_after_check : Login → Bool → Exec (World A T) Reply
  login_after_check body locked =
      if locked
      then pure (fail 429 "Too many failed login attempts. Try again in 15 minutes.")
      else login_unlocked body

  abbrev pub try_login : Login → Exec (World A T) Reply
  try_login body = check_lock body.email >>= login_after_check body

  unfoldable pub login : Login → Exec (World A T) Reply
  login body = catch (try_login body) (λ e. pure (fail 400 "User login failed."))

  abbrev pub logout : Reply
  logout = signed_out

  abbrev pub csrf_token_of : Option String → Reply
  csrf_token_of none = fail 401 "Not authenticated."
  csrf_token_of (some jwt) = csrf_token (generate_csrf_token A.hmac_hex jwt setup.jwt_secret)

  -- getCsrfToken, on the cookie `token`
  abbrev pub get_csrf_token : Option String → Reply
  get_csrf_token token = csrf_token_of (given token)
