-- ===== src/Shared/Tests.antt =====
-- Runs of the readiness handler, the CORS origins and the context of a request.
use bearlink.Prelude.{true, false, none, some, [], ◌∷◌, ◌≡◌, refl}
use bearlink.Prelude.Text.{split, trim}
use bearlink.Prelude.Exec.{ok, err, other}
use bearlink.Shared.RequestContext.{
  correlation_id_middleware_of, correlation_id_middleware, log_level,
}
use bearlink.Shared.Health.{readiness, origin_allowed}

health_tests :
    ((readiness (("database", ok tt) ∷ [])).status_code ≡ 200)
    × ((readiness (("database", ok tt) ∷ ("rabbitmq", err other) ∷ [])).status ≡ "not_ready")
    × (origin_allowed (some "https://a.b, https://c.d") (some "https://c.d") ≡ true)
    × (origin_allowed none (some "https://c.d") ≡ false)
    × (origin_allowed none none ≡ true)
unfolding readiness origin_allowed split trim
health_tests = (refl, refl, refl, refl, refl)

context_tests :
    ((correlation_id_middleware_of "url-service" "new" (some "c1") none).context.correlation_id
      ≡ "c1")
    × ((correlation_id_middleware "new" (some "")).response_header ≡ "new")
    × (log_level 404 ≡ "warn")
unfolding correlation_id_middleware_of correlation_id_middleware log_level
context_tests = (refl, refl, refl)
