-- ===== src/Url/Platform.antt =====
-- What the URL service calls and does not implement: Prisma and PostgreSQL, Redis, the message
-- channel, the libraries, and the JavaScript runtime's URL and JSON. Each call may fail.
use Prim.Native.Nat.{ℕ}
use bearlink.Prelude.{String, Bool, Option, List}
use bearlink.Prelude.Exec.{Result, Exec}
use bearlink.Shared.Json.{Json, Number}
use bearlink.Shared.Events.{Context, Message}
use bearlink.Url.Record.{Url, NewEvent}

-- The operations that the redirect handlers put in one array transaction.
pub data Operation : Type 0 where
  -- uRL.update({ where: { shortId }, data: { clicks: { increment: 1 } } })
  increment_clicks : String → Operation
  -- outboxEvent.create({ data })
  create_event : NewEvent → Operation

pub record Platform : Type 1 where
  pub Db : Type 0
  -- uRL.findFirst({ where: { OR: [{ shortId: slug }, { customAlias: slug }] } })
  pub find_first : String → Db → Result (Option Url)
  -- $transaction([…])
  pub transaction : List Operation → Db → Result (Unit {0}) × Db
  pub Redis : Type 0
  pub redis_get : String → Redis → Result (Option String)
  pub redis_setex : String → ℕ → String → Redis → Result (Unit {0}) × Redis
  pub redis_del : List String → Redis → Result (Unit {0}) × Redis
  -- set(key, value, 'EX', seconds, 'NX'): `true` is the answer 'OK', `false` is null
  pub redis_set_nx : String → String → ℕ → Redis → Result Bool × Redis
  pub Channel : Type 0
  -- sendToQueue(queue, content, options)
  pub send : Message → Channel → Result (Unit {0}) × Channel
  -- new URL(text).protocol
  pub url_protocol : String → Option String
  -- new URL(text), searchParams.set for each pair, toString()
  pub url_with_params : String → List (String × String) → Result String
  -- JSON.stringify(url), and JSON.parse(text) with its dates made Dates again
  pub stringify_url : Url → String
  pub parse_url : String → Option Url
  -- Number(text)
  pub to_number : String → Number
  -- createHmac('sha256', secret).update(payload).digest('hex')
  pub hmac_hex : String → String → String
  -- createHash('sha256').update(text).digest('hex')
  pub sha256_hex : String → String
  -- geoip.lookup(ip)?.country
  pub country_of : String → Option String
  -- bcrypt.compare(password, hash)
  pub compare_password : Json → String → Result Bool
  -- QRCode.toBuffer(text)
  pub qr_png : String → Result (List ℕ)

-- The process environment, the controller's dependencies, and the time of the request.
pub record Setup : Type 0 where
  pub base_url : String
  pub url_signing_secret : Option String
  -- whether the controller was given a Redis client
  pub has_redis : Bool
  pub now : ℕ
  -- the context of the request, that of getContext()
  pub context : Option Context

module _ (P : Platform) where
  pub record World : Type 0 where
    pub db : P.Db
    pub redis : P.Redis
    pub channel : P.Channel
    -- how many ids nanoid has drawn
    pub drawn : ℕ

  -- one call of a service, which may change its state
  abbrev pub with_db : {A : Type 0} → Result A × P.Db → World → Result A × World
  with_db (r, db) w = (r, record w { db = db })

  abbrev pub with_redis : {A : Type 0} → Result A × P.Redis → World → Result A × World
  with_redis (r, redis) w = (r, record w { redis = redis })

  abbrev pub with_channel : {A : Type 0} → Result A × P.Channel → World → Result A × World
  with_channel (r, channel) w = (r, record w { channel = channel })

  -- prisma.$transaction([…])
  abbrev pub transact : List Operation → Exec World (Unit {0})
  transact ops w = with_db (P.transaction ops w.db) w

  -- the sendToQueue of publishEvent in services/shared/events/publisher.js
  unfoldable pub publish_event : Message → Exec World (Unit {0})
  publish_event m w = with_channel (P.send m w.channel) w
