-- ===== src/Auth/RouteTests.antt =====
-- Runs of the users' routes.
use Prim.Native.String.{◌++◌ as ◌<>◌}
use bearlink.Prelude.{String, none, some, [], ◌∷◌, map, ◌≡◌, refl, inr}
use bearlink.Prelude.Exec.{ok, err, other}
use bearlink.Auth.Record.{Role, User, Claims, fail, message, no_content}
use bearlink.Auth.Users.{
  Update, PasswordChange, get_user, update_user, delete_user, change_password,
}
use bearlink.Auth.Access.{
  Credentials, Call, delete_call, update_call, authenticate_jwt, users_routes,
}
use bearlink.Prelude.Text.{split, trim}
use bearlink.Shared.Hex.{hex_digit}
use bearlink.Shared.Numbers.{parse_any_int}
use bearlink.Auth.Attempts.{memory_store}
use bearlink.Auth.Memory.{memory_accounts, memory_laws}
use bearlink.Auth.Effects.{EffectAt}
use bearlink.Auth.Permissions.{ChangedBy, users_routes_permission}
use bearlink.Auth.Sample.{world, text, new_text}

abbrev sent_by : String → Credentials
sent_by token = record { cookie = none; authorization = some ("Bearer " <> token) }

abbrev rename : Call
rename = update_call "2" record { name = text " Anna "; email = none; current_password = none }

route_tests :
    (map
        (λ (u : User). u.name)
        (users_routes memory_accounts memory_store (sent_by "jwt:2") rename world).1.db.users
      ≡ some "Root" ∷ some "Anna" ∷ [])
    × ((users_routes memory_accounts memory_store (sent_by "jwt:2") (delete_call "2") world).0
        ≡ ok (fail 403 "User does not have admin role"))
    × ((users_routes memory_accounts memory_store (sent_by "jwt:1") (delete_call "0x2") world).0
        ≡ ok no_content)
    × ((users_routes memory_accounts memory_store (sent_by "none") rename world).0
        ≡ ok (fail 403 "jwt malformed"))
unfolding users_routes authenticate_jwt update_user delete_user split trim parse_any_int hex_digit
route_tests = (refl, refl, refl, refl)

users_routes_permission_example :
    EffectAt memory_accounts memory_store memory_laws world
      (λ t'.
        (claims : Claims) × (authenticate_jwt memory_accounts memory_store (sent_by "jwt:2")
          ≡ inr claims)
        × ChangedBy memory_accounts memory_store memory_laws rename claims world.db t')
      (users_routes memory_accounts memory_store (sent_by "jwt:2") rename)
users_routes_permission_example =
    users_routes_permission memory_accounts memory_store memory_laws world (sent_by "jwt:2") rename

abbrev ann_claims : Claims
ann_claims = record { id = 2; email = "a@b.c"; name = some "Ann"; role = Role.user }

abbrev update : Update
update = record { name = none; email = text "root@b.c"; current_password = text "Old12345" }

abbrev change : PasswordChange
change = record { current_password = text "Old12345"; new_password = new_text }

user_tests :
    ((update_user memory_accounts memory_store "2" update world).0
      ≡ ok (fail 409 "Email already in use."))
    × ((change_password memory_accounts memory_store "2" change world).0
        ≡ ok (message "Password changed successfully."))
    × ((change_password memory_accounts memory_store "2"
          (record change { new_password = text "Old12345" })
          world).0
        ≡ ok (fail 400 "New password must be different from current password"))
    × ((get_user memory_accounts memory_store "two" world).0 ≡ err other)
unfolding update_user change_password get_user parse_any_int trim
user_tests = (refl, refl, refl, refl)
