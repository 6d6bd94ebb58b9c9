-- ===== src/Shared/RequestContext.antt =====
-- services/shared/middlewares/correlationId.js, requestLogger.js beside it, and
-- services/shared/utils/context.js: the context of a request.
use bearlink.Prelude.{ℕ, String, Option, none, some, leb, if◌then◌else◌}
use bearlink.Shared.Json.{given}

pub record RequestContext : Type 0 where
  pub correlation_id : String
  pub service_name : Option String
  pub user_id : Option ℕ

-- what the middleware makes of a request: the response header, and the context of what follows
pub record Correlated : Type 0 where
  pub response_header : String
  pub context : RequestContext

abbrev header_or : String → Option String → String
header_or generated none = generated
header_or generated (some id) = id

abbrev or_old : Option ℕ → Option ℕ → Option ℕ
or_old none old = old
or_old (some new) old = some new

-- updateContext({ userId }), outside of a request without a context
abbrev pub update_context : Option ℕ → Option RequestContext → Option RequestContext
update_context user none = none
update_context user (some context) = some (record context { user_id = or_old user context.user_id })

-- the id of `req.user`, where 0 is falsy
abbrev user_given : Option ℕ → Option ℕ
user_given none = none
user_given (some id) = if leb 1 id then some id else none

abbrev correlate : String → Option String → Option ℕ → Correlated
correlate id service user = record {
  response_header = id;
  context = record { correlation_id = id; service_name = service; user_id = user };
}

-- createCorrelationIdMiddleware(service): a generated id, the header x-correlation-id, and the user
-- that the request has when the middleware runs
unfoldable pub correlation_id_middleware_of :
    String → String → Option String → Option ℕ → Correlated
correlation_id_middleware_of service generated header user =
    correlate (header_or generated (given header)) (some service) (user_given user)

-- correlationIdMiddleware
unfoldable pub correlation_id_middleware : String → Option String → Correlated
correlation_id_middleware generated header =
    correlate (header_or generated (given header)) none none

-- the level of a request's log line, by the status of its answer
unfoldable pub log_level : ℕ → String
log_level status = if leb 500 status then "error" else if leb 400 status then "warn" else "info"
