-- ===== src/Auth/Users/Password.antt =====
-- services/auth/controllers/users.controller.js, changePassword.
use bearlink.Prelude.{String, Bool, Option, some, List, [], ◌∷◌, if◌then◌else◌}
use bearlink.Prelude.Exec.{Exec, pure, catch, ◌>>=◌, ◌>>◌}
use bearlink.Shared.Json.{Json, Number, object}
use bearlink.Shared.Validation.{missing_of, is_valid_password}
use bearlink.Shared.Numbers.{parse_any_int}
use bearlink.Shared.Events.{NewEvent}
use bearlink.Auth.Record.{User, Reply, fail, missing_fields, message}
use bearlink.Auth.Platform.{
  Operation, update_user as update_row, create_event, AttemptStore, Accounts, World, given_result,
  transact,
}
use bearlink.Auth.Reset.{new_password}
use bearlink.Auth.Users.Lookup.{id_json, id_text, with_user}

-- The properties of a body; one that is undefined is `none`.
pub record PasswordChange : Type 0 where
  pub current_password : Option Json
  pub new_password : Option Json

abbrev pub password_changed_event : Option Number → NewEvent
password_changed_event id = record {
  event_type = "user_password_changed";
  payload = object (("userId", some (id_json id)) ∷ []);
  actor_id = some (id_text id);
}

module _ (A : Accounts) (T : AttemptStore) where
  abbrev pub password_ops : Option Number → String → List Operation
  password_ops id hash =
      update_row id (new_password hash) ∷ create_event (password_changed_event id) ∷ []

  abbrev pub save_password : Option Number → String → Exec (World A T) Reply
  save_password id hash =
      transact A T (password_ops id hash) >> pure (message "Password changed successfully.")

  abbrev pub check_different : Option Number → PasswordChange → Bool → Exec (World A T) Reply
  check_different id body same =
      if same
      then pure (fail 400 "New password must be different from current password")
      else given_result A T (A.hash_password body.new_password) >>= save_password id

  abbrev pub check_strength : Option Number → PasswordChange → User → Exec (World A T) Reply
  check_strength id body u =
      if is_valid_password body.new_password
      then given_result A T (A.compare_password body.new_password u.password)
        >>= check_different id body
      else pure (
          fail 400
            "Password must be at least 8 characters and contain uppercase, lowercase, and a number")

  abbrev pub check_old : Option Number → PasswordChange → User → Bool → Exec (World A T) Reply
  check_old id body u right =
      if right then check_strength id body u else pure (fail 403 "Invalid current password.")

  abbrev pub change_found : Option Number → PasswordChange → User → Exec (World A T) Reply
  change_found id body u =
      given_result A T (A.compare_password body.current_password u.password) >>= check_old id body u

  -- validateRequiredFields(req.body, ['currentPassword', 'newPassword']), and what follows it
  abbrev pub change_given : String → PasswordChange → List String → Exec (World A T) Reply
  change_given user_id body (field ∷ fields) = pure (missing_fields (field ∷ fields))
  change_given user_id body [] =
      let id = parse_any_int user_id in
      catch (with_user A T id (change_found id body))
        (λ e. pure (fail 500 "Failed to change password."))

  unfoldable pub change_password : String → PasswordChange → Exec (World A T) Reply
  change_password user_id body = change_given user_id body (
      missing_of
        (("currentPassword", body.current_password) ∷ ("newPassword", body.new_password) ∷ []))
