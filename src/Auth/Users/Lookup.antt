-- ===== src/Auth/Users/Lookup.antt =====
-- services/auth/controllers/users.controller.js: listUsers, getUser, deleteUser and getProfile.
use bearlink.Prelude.{String, Option, none, some, List, [], ◌∷◌, map, if◌then◌else◌}
use bearlink.Prelude.Text.Decimal.{show}
use bearlink.Prelude.Exec.{Exec, pure, catch, ◌>>=◌, ◌>>◌}
use bearlink.Shared.Json.{Json, null, num, nat, Number, number_text, object}
use bearlink.Shared.Numbers.{parse_any_int}
use bearlink.Shared.Events.{NewEvent}
use bearlink.Auth.Record.{User, sanitize_user, Claims, Reply, fail, profile, profiles, no_content}
use bearlink.Auth.Platform.{
  Operation, delete_user as delete_row, create_event, AttemptStore, Accounts, World, query,
  transact,
}
use bearlink.Auth.Tables.{is_id}

-- JSON and String of the result of parseInt
abbrev pub id_json : Option Number → Json
id_json none = null
id_json (some n) = num n

abbrev pub id_text : Option Number → String
id_text none = "NaN"
id_text (some n) = number_text n

abbrev pub deleted_event : Option Number → Claims → NewEvent
deleted_event id claims = record {
  event_type = "user_deleted";
  payload =
      object (("deletedUserId", some (id_json id)) ∷ ("byUserId", some (num (nat claims.id))) ∷ []);
  actor_id = some (show claims.id);
}

module _ (A : Accounts) (T : AttemptStore) where
  unfoldable pub list_users : Exec (World A T) Reply
  list_users = query A T A.find_users >>= λ users. pure (profiles (map sanitize_user users))

  abbrev pub found_or_404 : (User → Exec (World A T) Reply) → Option User → Exec (World A T) Reply
  found_or_404 f none = pure (fail 404 "User not found.")
  found_or_404 f (some u) = f u

  abbrev pub with_user : Option Number → (User → Exec (World A T) Reply) → Exec (World A T) Reply
  with_user id f = query A T (A.find_user id) >>= found_or_404 f

  -- the parameter `userId` of the path
  unfoldable pub get_user : String → Exec (World A T) Reply
  get_user user_id = with_user (parse_any_int user_id) (λ u. pure (profile (sanitize_user u)))

  abbrev pub delete_ops : Option Number → Claims → List Operation
  delete_ops id claims = delete_row id ∷ create_event (deleted_event id claims) ∷ []

  abbrev pub delete_found : Option Number → Claims → User → Exec (World A T) Reply
  delete_found id claims u = transact A T (delete_ops id claims) >> pure no_content

  -- the claims are `req.user`
  unfoldable pub delete_user : Claims → String → Exec (World A T) Reply
  delete_user claims user_id =
      let id = parse_any_int user_id in
      if is_id id claims.id
      then pure (fail 400 "Admins cannot delete their own account.")
      else catch (with_user id (delete_found id claims))
          (λ e. pure (fail 500 "Failed to delete user."))

  unfoldable pub get_profile : Claims → Exec (World A T) Reply
  get_profile claims =
      catch (with_user (some (nat claims.id)) (λ u. pure (profile (sanitize_user u))))
        (λ e. pure (fail 500 "Failed to fetch profile."))
