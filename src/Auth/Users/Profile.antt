-- ===== src/Auth/Users/Profile.antt =====
-- services/auth/controllers/users.controller.js, updateUser.
use bearlink.Prelude.{
  ℕ, String, Bool, true, false, Option, none, some, List, [], ◌∷◌, ◌++◌, str_eq, if◌then◌else◌, ◌⊎◌,
  inl, inr,
}
use bearlink.Prelude.Text.{trim}
use bearlink.Prelude.Exec.{Exec, other, pure, throw, catch, ◌>>=◌}
use bearlink.Shared.Json.{Json, str, arr, Items, nil, cons, Number, object}
use bearlink.Shared.Validation.{is_valid_email, is_valid_name}
use bearlink.Shared.Numbers.{parse_any_int}
use bearlink.Shared.Events.{NewEvent}
use bearlink.Auth.Record.{User, sanitize_user, claims_of, Reply, fail, unchanged, updated}
use bearlink.Auth.Platform.{
  UserChanges, Operation, update_user as update_row, create_event, AttemptStore, Accounts, World,
  query, given_result, transact,
}
use bearlink.Auth.Reset.{is_truthy}
use bearlink.Auth.Users.Lookup.{id_json, id_text, with_user}

-- The properties of a body; one that is undefined is `none`.
pub record Update : Type 0 where
  pub name : Option Json
  pub email : Option Json
  pub current_password : Option Json

abbrev pub texts : List String → Items
texts [] = nil
texts (s ∷ ss) = cons (str s) (texts ss)

abbrev pub field_of : String → Option String → List String
field_of name none = []
field_of name (some value) = name ∷ []

-- Object.keys(updateData)
abbrev pub changed_fields : Option String → Option String → List String
changed_fields name email = field_of "name" name ++ field_of "email" email

abbrev pub profile_updated_event : Option Number → List String → NewEvent
profile_updated_event id fields = record {
  event_type = "user_profile_updated";
  payload =
      object (("userId", some (id_json id)) ∷ ("changedFields", some (arr (texts fields))) ∷ []);
  actor_id = some (id_text id);
}

abbrev pub profile_changes : Option String → Option String → UserChanges
profile_changes name email = record { name = name; email = email; password = none }

-- the text of a value that was checked to be one
abbrev pub text_of : Option Json → String
text_of (some (str s)) = s
text_of _ = ""

-- value === text
abbrev pub is_same : Option Json → String → Bool
is_same (some (str s)) text = str_eq s text
is_same _ text = false

abbrev pub is_undefined : Option Json → Bool
is_undefined none = true
is_undefined (some value) = false

abbrev pub check_name : Option Json → Reply ⊎ Option String
check_name none = inr none
check_name (some value) =
    if is_valid_name (some value)
    then inr (some (trim (text_of (some value))))
    else inl (fail 400 "Name must be 1-100 characters")

module _ (A : Accounts) (T : AttemptStore) where
  abbrev pub refuse : {B : Type 0} → ℕ → String → Exec (World A T) (Reply ⊎ B)
  refuse code text = pure (inl (fail code text))

  -- whether the address is another account's
  abbrev pub check_free : Option Json → Option User → Exec (World A T) (Reply ⊎ Option String)
  check_free email (some u) = refuse 409 "Email already in use."
  check_free email none = pure (inr (some (text_of email)))

  abbrev pub check_current : Option Json → Bool → Exec (World A T) (Reply ⊎ Option String)
  check_current email right =
      if right
      then query A T (A.find_by_email email) >>= check_free email
      else refuse 403 "Invalid current password."

  abbrev pub check_new_email : Update → User → Exec (World A T) (Reply ⊎ Option String)
  check_new_email body u =
      if is_valid_email A.is_email body.email
      then if is_truthy body.current_password
        then given_result A T (A.compare_password body.current_password u.password)
          >>= check_current body.email
        else refuse 403 "Current password required to change email."
      else refuse 400 "Invalid email format"

  -- an address that is undefined or the old one is left as it is
  abbrev pub check_email : Update → User → Exec (World A T) (Reply ⊎ Option String)
  check_email body u =
      if is_undefined body.email
      then pure (inr none)
      else if is_same body.email u.email
      then pure (inr none)
      else check_new_email body u

  abbrev pub update_ops : Option Number → Option String → Option String → List Operation
  update_ops id name email =
      update_row id (profile_changes name email)
      ∷ create_event (profile_updated_event id (changed_fields name email))
      ∷ []

  -- sanitizeUser of no user throws
  abbrev pub show_updated : Option User → Exec (World A T) Reply
  show_updated none = throw other
  show_updated (some u) = do
    token ← given_result A T (A.sign_jwt (claims_of u))
    pure (updated (sanitize_user u) token)

  abbrev pub save_fields :
      Option Number → User → Option String → Option String → List String → Exec (World A T) Reply
  save_fields id u name email [] = pure (unchanged (sanitize_user u))
  save_fields id u name email (field ∷ fields) =
      transact A T (update_ops id name email) >>= show_updated

  abbrev pub save_profile :
      Option Number → User → Option String → Reply ⊎ Option String → Exec (World A T) Reply
  save_profile id u name (inl reply) = pure reply
  save_profile id u name (inr email) = save_fields id u name email (changed_fields name email)

  abbrev pub update_named :
      Option Number → Update → User → Reply ⊎ Option String → Exec (World A T) Reply
  update_named id body u (inl reply) = pure reply
  update_named id body u (inr name) = check_email body u >>= save_profile id u name

  abbrev pub update_found : Option Number → Update → User → Exec (World A T) Reply
  update_found id body u = update_named id body u (check_name body.name)

  unfoldable pub update_user : String → Update → Exec (World A T) Reply
  update_user user_id body =
      let id = parse_any_int user_id in
      catch (with_user A T id (update_found id body))
        (λ e. pure (fail 500 "Failed to update profile."))
