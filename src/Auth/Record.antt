-- ===== src/Auth/Record.antt =====
-- The rows of services/auth/prisma/schema.prisma, and services/auth/services/token.service.js.
use bearlink.Prelude.{ℕ, String, Bool, Option, some, List, [], ◌∷◌}
use bearlink.Shared.Json.{Json, num, nat, str, object, or_null}

pub data Role : Type 0 where
  user admin : Role

-- Times are milliseconds since 1970.
pub record User : Type 0 where
  pub id : ℕ
  pub email : String
  pub password : String
  pub name : Option String
  pub role : Role
  pub created_at : ℕ

pub record ResetToken : Type 0 where
  pub id : ℕ
  pub token : String
  pub user_id : ℕ
  pub expires_at : ℕ
  pub used_at : Option ℕ

-- a user without the password
pub record SafeUser : Type 0 where
  pub id : ℕ
  pub email : String
  pub name : Option String
  pub role : Role
  pub created_at : ℕ

abbrev pub sanitize_user : User → SafeUser
sanitize_user u = record {
  id = u.id;
  email = u.email;
  name = u.name;
  role = u.role;
  created_at = u.created_at;
}

-- what a session token carries
pub record Claims : Type 0 where
  pub id : ℕ
  pub email : String
  pub name : Option String
  pub role : Role

abbrev pub claims_of : User → Claims
claims_of u = record { id = u.id; email = u.email; name = u.name; role = u.role }

abbrev pub role_text : Role → String
role_text user = "USER"
role_text admin = "ADMIN"

-- JSON.stringify of a user without the password; `date_text` is the JSON of a date
abbrev pub safe_json : (ℕ → String) → SafeUser → Json
safe_json date_text u = object (
    ("id", some (num (nat u.id)))
    ∷ ("email", some (str u.email))
    ∷ ("name", some (or_null u.name))
    ∷ ("role", some (str (role_text u.role)))
    ∷ ("createdAt", some (str (date_text u.created_at)))
    ∷ [])

-- the arguments of res.cookie('token', …)
pub record Cookie : Type 0 where
  pub value : String
  pub http_only : Bool
  pub secure : Bool
  pub same_site : String
  pub max_age : ℕ

pub data Reply : Type 0 where
  -- res.status(code).json({ error })
  fail : ℕ → String → Reply
  -- 400 { error: 'Missing required fields', details: { missing } }
  missing_fields : List String → Reply
  -- { user } and the cookie of a session
  session : SafeUser → Cookie → Reply
  -- 204, and clearCookie('token')
  signed_out : Reply
  csrf_token : String → Reply
  -- { message }
  message : String → Reply
  -- a user, all users
  profile : SafeUser → Reply
  profiles : List SafeUser → Reply
  -- { user } and { user, token }
  unchanged : SafeUser → Reply
  updated : SafeUser → String → Reply
  -- 204
  no_content : Reply
