-- ===== src/Url/Record.antt =====
-- The rows of services/url/prisma/schema.prisma.
pub use bearlink.Shared.Events.{NewEvent}
use bearlink.Prelude.{ℕ, String, Bool, Option, List}
use bearlink.Shared.Json.{Json}

-- Times are milliseconds since 1970.
pub record Url : Type 0 where
  pub id : ℕ
  pub original_url : String
  pub short_id : String
  pub custom_alias : Option String
  pub redirect_type : ℕ
  pub expires_at : Option ℕ
  pub password_hash : Option String
  pub tags : List String
  pub utm_params : Option Json
  pub require_signature : Bool
  pub clicks : ℕ
  pub created_at : ℕ
  pub user_id : ℕ
  pub preview_title : Option String
  pub preview_description : Option String
  pub preview_image_url : Option String
  pub preview_fetched_at : Option ℕ
