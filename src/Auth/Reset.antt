-- ===== src/Auth/Reset.antt =====
-- services/auth/controllers/auth.controller.js, forgotPassword and resetPassword, and
-- services/auth/services/passwordReset.service.js.
use Prim.Native.String.{◌++◌ as ◌<>◌}
use bearlink.Prelude.{
  ℕ, ◌+◌, String, Bool, true, false, Option, none, some, List, [], ◌∷◌, ltb, if◌then◌else◌,
}
use bearlink.Prelude.Text.Decimal.{show}
use bearlink.Prelude.Exec.{Exec, pure, catch, ◌>>=◌, ◌>>◌}
use bearlink.Shared.Json.{Json, num, nat, str, object, truthy}
use bearlink.Shared.Validation.{is_valid_email, is_valid_password}
use bearlink.Shared.Events.{
  NewEvent, email_message, password_reset_requested_message, password_reset_completed_message,
}
use bearlink.Auth.Record.{User, ResetToken, Reply, fail, message}
use bearlink.Auth.Platform.{
  UserChanges, Operation, update_user, create_token, use_token, create_event, AttemptStore,
  Accounts, Setup, World, query, given_result, transact, publish,
}

abbrev pub generate_reset_token : Setup → String
generate_reset_token setup = setup.random_hex

-- an environment variable in a template
abbrev pub or_undefined : Option String → String
or_undefined none = "undefined"
or_undefined (some s) = s

abbrev pub build_reset_link : Setup → String → String
build_reset_link setup token = or_undefined setup.frontend_url <> "/reset-password/" <> token

-- `${user.name}`
abbrev pub name_text : Option String → String
name_text none = "null"
name_text (some name) = name

abbrev pub user_id_payload : ℕ → Json
user_id_payload id = object (("userId", some (num (nat id))) ∷ [])

abbrev pub reset_requested_event : User → NewEvent
reset_requested_event u = record {
  event_type = "password_reset_requested";
  payload = user_id_payload u.id;
  actor_id = some (show u.id);
}

abbrev pub reset_completed_event : ℕ → NewEvent
reset_completed_event id = record {
  event_type = "password_reset_completed";
  payload = user_id_payload id;
  actor_id = some (show id);
}

abbrev pub reset_lifetime_ms : ℕ
reset_lifetime_ms = 3600000

abbrev pub is_truthy : Option Json → Bool
is_truthy none = false
is_truthy (some value) = truthy value

abbrev pub new_password : String → UserChanges
new_password hash = record { name = none; email = none; password = some hash }

-- !resetToken || resetToken.expiresAt < new Date() || resetToken.usedAt !== null
abbrev pub is_unused : Option ℕ → Bool
is_unused none = true
is_unused (some at) = false

abbrev pub is_usable : ℕ → ResetToken → Bool
is_usable now r = if ltb r.expires_at now then false else is_unused r.used_at

module _ (A : Accounts) (T : AttemptStore) (setup : Setup) where
  abbrev pub reset_mail : Option Json → User → String → Json
  reset_mail email u token = object (
      ("to", email)
      ∷ ("subject", some (str "Reset your BearLink password"))
      ∷ (
        "text",
        some (
            str (
              "Hello "
              <> name_text u.name
              <> ",\n\nClick the link below to reset your password. The link expires in 1 hour.\n\n"
              <> build_reset_link setup token
              <> "\n\nIf you did not request a password reset, you can ignore this email.\n\nBearLink Team")),
      )
      ∷ [])

  abbrev pub reset_request_ops : User → String → List Operation
  reset_request_ops u token =
      create_token
        record { token = token; user_id = u.id; expires_at = setup.now + reset_lifetime_ms }
      ∷ create_event (reset_requested_event u)
      ∷ []

  abbrev pub send_reset_link : Option Json → User → String → Exec (World A T) (Unit {0})
  send_reset_link email u token =
      publish A T (email_message setup.context (reset_mail email u token))
      >> publish A T (password_reset_requested_message setup.context (user_id_payload u.id))

  abbrev pub request_reset : Option Json → Option User → Exec (World A T) (Unit {0})
  request_reset email none = pure tt
  request_reset email (some u) =
      let token = generate_reset_token setup in
      transact A T (reset_request_ops u token) >> send_reset_link email u token

  abbrev pub try_request : Option Json → Exec (World A T) (Unit {0})
  try_request email =
      catch (query A T (A.find_by_email email) >>= request_reset email) (λ e. pure tt)

  -- The body has an e-mail address, if it is valid.
  unfoldable pub forgot_password : Option Json → Exec (World A T) Reply
  forgot_password email =
      if is_valid_email A.is_email email
      then try_request email
        >> pure (message "If that email is registered you will receive a reset link shortly.")
      else pure (fail 400 "A valid email address is required.")

  abbrev pub reset_ops : ResetToken → String → List Operation
  reset_ops r hash =
      update_user (some (nat r.user_id)) (new_password hash)
      ∷ use_token r.id setup.now
      ∷ create_event (reset_completed_event r.user_id)
      ∷ []

  abbrev pub complete_reset : ResetToken → String → Exec (World A T) Reply
  complete_reset r hash =
      transact A T (reset_ops r hash)
      >> publish A T (password_reset_completed_message setup.context (user_id_payload r.user_id))
      >> pure (message "Password reset successful.")

  abbrev pub reset_found : Option Json → Option ResetToken → Exec (World A T) Reply
  reset_found password none = pure (fail 400 "Invalid or expired reset token.")
  reset_found password (some r) =
      if is_usable setup.now r
      then given_result A T (A.hash_password password) >>= complete_reset r
      else pure (fail 400 "Invalid or expired reset token.")

  abbrev pub try_reset : String → Option Json → Exec (World A T) Reply
  try_reset token password =
      catch (query A T (A.find_token token) >>= reset_found password)
        (λ e. pure (fail 400 "Password reset failed."))

  -- the token of the path, and the password of the body
  unfoldable pub reset_password : String → Option Json → Exec (World A T) Reply
  reset_password token password =
      if is_truthy password
      then if is_valid_password password
        then try_reset token password
        else pure (
            fail 400
              "Password must be at least 8 characters and contain uppercase, lowercase, and a number.")
      else pure (fail 400 "Password is required.")
