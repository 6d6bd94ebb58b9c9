-- ===== src/Auth/Sample.antt =====
-- Accounts, bodies and a state for the runs of the handlers.
use bearlink.Prelude.{ℕ, String, true, Option, none, some, List, [], ◌∷◌}
use bearlink.Shared.Json.{Json, str}
use bearlink.Auth.Record.{Role, User, ResetToken}
use bearlink.Auth.Platform.{Setup, World}
use bearlink.Auth.Tables.{Tables}
use bearlink.Auth.Session.{Registration, Login}
use bearlink.Auth.Attempts.{memory_store}
use bearlink.Auth.Memory.{memory_accounts}

abbrev pub setup : ℕ → Setup
setup now = record {
  now = now;
  context = none;
  is_production = true;
  frontend_url = some "https://bear.link";
  jwt_secret = "s";
  random_hex = "c0de";
}

abbrev pub root : User
root = record {
  id = 1;
  email = "root@b.c";
  password = "hash:Root1234";
  name = some "Root";
  role = Role.admin;
  created_at = 0;
}

abbrev pub ann : User
ann = record {
  id = 2;
  email = "a@b.c";
  password = "hash:Old12345";
  name = some "Ann";
  role = Role.user;
  created_at = 0;
}

abbrev pub reset_row : Option ℕ → ResetToken
reset_row used = record { id = 7; token = "beef"; user_id = 2; expires_at = 90; used_at = used }

abbrev pub rows : List User → Option ℕ → Tables
rows users used = record { users = users; tokens = reset_row used ∷ []; events = [] }

abbrev pub world : World memory_accounts memory_store
world = record { db = rows (root ∷ ann ∷ []) none; attempts = λ email. none; channel = [] }

abbrev pub text : String → Option Json
text s = some (str s)

abbrev pub bob : Registration
bob = record { email = text "bob@b.c"; password = text "Bob12345"; name = text "Bob" }

abbrev pub right : Login
right = record { email = text "a@b.c"; password = text "Old12345" }

abbrev pub new_text : Option Json
new_text = text "New12345"
