-- ===== src/Shared/Health.antt =====
-- services/shared/utils/healthCheck.js and services/shared/middlewares/cors.js.
use bearlink.Prelude.{
  ℕ, String, Bool, true, false, Option, none, some, List, [], ◌∷◌, map, any, all, str_eq,
  if◌then◌else◌,
}
use bearlink.Prelude.Text.{split, trim}
use bearlink.Prelude.Exec.{Result, ok, err}
use bearlink.Shared.Json.{given}

-- the answer of /ready, less its time
pub record Readiness : Type 0 where
  pub status_code : ℕ
  pub status : String
  pub checks : List (String × String)

abbrev is_healthy : Result (Unit {0}) → Bool
is_healthy (ok tt) = true
is_healthy (err e) = false

abbrev health_text : Bool → String
health_text true = "healthy"
health_text false = "unhealthy"

-- createReadinessHandler, on the names of the checks and what they gave, in their order
unfoldable pub readiness : List (String × Result (Unit {0})) → Readiness
readiness checks =
    let all_healthy = all (λ (c : String × Result (Unit {0})). is_healthy c.1) checks in
    record {
      status_code = if all_healthy then 200 else 503;
      status = if all_healthy then "ready" else "not_ready";
      checks = map (λ (c : String × Result (Unit {0})). (c.0, health_text (is_healthy c.1))) checks;
    }

abbrev allowed_origins : Option String → List String
allowed_origins none = "http://localhost:3000" ∷ []
allowed_origins (some origins) = map trim (split b',' origins)

abbrev is_allowed : List String → Option String → Bool
is_allowed allowed none = true
is_allowed allowed (some origin) = any (λ (o : String). str_eq o origin) allowed

-- the `origin` of corsMiddleware: ALLOWED_ORIGINS, and the origin of a request
unfoldable pub origin_allowed : Option String → Option String → Bool
origin_allowed origins origin = is_allowed (allowed_origins (given origins)) (given origin)
