-- ===== src/Auth/Access.antt =====
-- services/shared/middlewares/auth.js, and the routes of services/auth/routes/users.routes.js that it
-- guards. The rate limits of the routes may refuse a request before its handler.
use bearlink.Prelude.{
  String, Bool, true, false, Option, none, some, List, ◌∷◌, ◌||◌, if◌then◌else◌, ◌⊎◌, inl, inr,
}
use bearlink.Prelude.Text.{split}
use bearlink.Prelude.Exec.{Exec, pure}
use bearlink.Shared.Json.{given}
use bearlink.Shared.Numbers.{parse_any_int}
use bearlink.Auth.Record.{Role, Claims, Reply, fail}
use bearlink.Auth.Platform.{AttemptStore, Accounts, World}
use bearlink.Auth.Tables.{is_id}
use bearlink.Auth.Users.{
  Update, PasswordChange, list_users, get_user, update_user, delete_user, get_profile,
  change_password,
}

-- The cookie `token` and the header Authorization.
pub record Credentials : Type 0 where
  pub cookie : Option String
  pub authorization : Option String

-- header.split(' ')[1]
abbrev pub second : List String → Option String
second (a ∷ b ∷ rest) = some b
second _ = none

abbrev pub bearer : Option String → Option String
bearer none = none
bearer (some header) = given (second (split b' ' header))

abbrev pub or_else : Option String → Option String → Option String
or_else none b = b
or_else (some a) b = some a

abbrev pub token_of : Credentials → Option String
token_of req = or_else (given req.cookie) (bearer (given req.authorization))

abbrev pub has_admin : Role → Bool
has_admin Role.user = false
has_admin Role.admin = true

-- `none` is a call of next()
abbrev pub is_admin : Claims → Option Reply
is_admin claims =
    if has_admin claims.role then none else some (fail 403 "User does not have admin role")

abbrev pub is_self_or_admin : String → Claims → Option Reply
is_self_or_admin user_id claims =
    if has_admin claims.role || is_id (parse_any_int user_id) claims.id
    then none
    else some (fail 403 "User does not have permission to access this resource")

-- A request to one of the routes.
pub data Call : Type 0 where
  profile_call list_call : Call
  get_call delete_call : String → Call
  update_call : String → Update → Call
  password_call : String → PasswordChange → Call

-- the guard of a route, after authenticateJWT
abbrev pub guard_of : Call → Claims → Option Reply
guard_of profile_call claims = none
guard_of list_call claims = is_admin claims
guard_of (get_call id) claims = is_self_or_admin id claims
guard_of (delete_call id) claims = is_admin claims
guard_of (update_call id body) claims = is_self_or_admin id claims
guard_of (password_call id body) claims = is_self_or_admin id claims

module _ (A : Accounts) (T : AttemptStore) where
  abbrev pub verified : String ⊎ Claims → Reply ⊎ Claims
  verified (inl text) = inl (fail 403 text)
  verified (inr claims) = inr claims

  abbrev pub authenticate : Option String → Reply ⊎ Claims
  authenticate none = inl (fail 401 "Missing authorization token")
  authenticate (some token) = verified (A.verify_jwt token)

  unfoldable pub authenticate_jwt : Credentials → Reply ⊎ Claims
  authenticate_jwt req = authenticate (token_of req)

  abbrev pub handle : Call → Claims → Exec (World A T) Reply
  handle profile_call claims = get_profile A T claims
  handle list_call claims = list_users A T
  handle (get_call id) claims = get_user A T id
  handle (delete_call id) claims = delete_user A T claims id
  handle (update_call id body) claims = update_user A T id body
  handle (password_call id body) claims = change_password A T id body

  abbrev pub guarded : Call → Claims → Option Reply → Exec (World A T) Reply
  guarded call claims none = handle call claims
  guarded call claims (some reply) = pure reply

  abbrev pub admitted : Call → Reply ⊎ Claims → Exec (World A T) Reply
  admitted call (inl reply) = pure reply
  admitted call (inr claims) = guarded call claims (guard_of call claims)

  unfoldable pub users_routes : Credentials → Call → Exec (World A T) Reply
  users_routes req call = admitted call (authenticate_jwt req)
