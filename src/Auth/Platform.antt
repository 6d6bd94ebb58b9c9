-- ===== src/Auth/Platform.antt =====
-- What the accounts' handlers call and do not implement: Prisma and PostgreSQL, the message channel,
-- bcrypt, JWT, HMAC and the validator library. Each call may fail.
use bearlink.Prelude.{ℕ, String, Bool, Option, List}
use bearlink.Prelude.Exec.{Result, Exec}
use bearlink.Shared.Json.{Json, Number}
use bearlink.Shared.Events.{NewEvent, Context, Message}
use bearlink.Auth.Record.{User, ResetToken, Claims}
use mathlib.Core.Logic.{◌⊎◌}

-- The data of a user.create, of a user.update (`none` leaves a column as it is) and of a
-- passwordResetToken.create.
pub record NewUser : Type 0 where
  pub email : Option Json
  pub password : String
  pub name : Option Json

pub record UserChanges : Type 0 where
  pub name : Option String
  pub email : Option String
  pub password : Option String

pub record NewToken : Type 0 where
  pub token : String
  pub user_id : ℕ
  pub expires_at : ℕ

-- The operations that the handlers put in array transactions. An id is a number, or NaN.
pub data Operation : Type 0 where
  create_user : NewUser → Operation
  update_user : Option Number → UserChanges → Operation
  delete_user : Option Number → Operation
  create_token : NewToken → Operation
  -- passwordResetToken.update({ where: { id }, data: { usedAt } })
  use_token : ℕ → ℕ → Operation
  create_event : NewEvent → Operation

-- A store of failed logins: its operations at a time, for the e-mail address of a body.
pub record AttemptStore : Type 1 where
  pub State : Type 0
  pub is_locked : ℕ → Option Json → State → Result Bool × State
  pub record_failed_attempt : ℕ → Option Json → State → Result (Unit {0}) × State
  pub clear_attempts : ℕ → Option Json → State → Result (Unit {0}) × State

pub record Accounts : Type 1 where
  pub Db : Type 0
  -- user.findUnique by e-mail address and by id, user.findMany, passwordResetToken.findUnique
  pub find_by_email : Option Json → Db → Result (Option User)
  pub find_user : Option Number → Db → Result (Option User)
  pub find_users : Db → Result (List User)
  pub find_token : String → Db → Result (Option ResetToken)
  -- $transaction([…]), with the first element of its result where that is a user
  pub transaction : List Operation → Db → Result (Option User) × Db
  -- outboxEvent.create
  pub insert_event : NewEvent → Db → Result (Unit {0}) × Db
  pub Channel : Type 0
  pub send : Message → Channel → Result (Unit {0}) × Channel
  -- validator.isEmail
  pub is_email : String → Bool
  -- bcrypt.hash(password, 10), bcrypt.compare(password, hash)
  pub hash_password : Option Json → Result String
  pub compare_password : Option Json → String → Result Bool
  -- jwt.sign(claims, JWT_SECRET, …), jwt.verify(token, JWT_SECRET) with the message of its error
  pub sign_jwt : Claims → Result String
  pub verify_jwt : String → String ⊎ Claims
  -- createHmac('sha256', secret).update(text).digest('hex')
  pub hmac_hex : String → String → String
  -- JSON of a date
  pub date_text : ℕ → String

-- The process environment, and the time, the context and the random bytes of the request.
pub record Setup : Type 0 where
  pub now : ℕ
  pub context : Option Context
  pub is_production : Bool
  pub frontend_url : Option String
  pub jwt_secret : String
  -- randomBytes(32).toString('hex')
  pub random_hex : String

module _ (A : Accounts) (T : AttemptStore) where
  pub record World : Type 0 where
    pub db : A.Db
    pub attempts : T.State
    pub channel : A.Channel

  abbrev pub with_db : {B : Type 0} → Result B × A.Db → World → Result B × World
  with_db (r, db) w = (r, record w { db = db })

  abbrev pub with_attempts : {B : Type 0} → Result B × T.State → World → Result B × World
  with_attempts (r, attempts) w = (r, record w { attempts = attempts })

  abbrev pub with_channel : Result (Unit {0}) × A.Channel → World → Result (Unit {0}) × World
  with_channel (r, channel) w = (r, record w { channel = channel })

  -- a query, which changes nothing
  abbrev pub query : {B : Type 0} → (A.Db → Result B) → Exec World B
  query f w = (f w.db, w)

  -- the result of a library's function
  abbrev pub given_result : {B : Type 0} → Result B → Exec World B
  given_result r w = (r, w)

  abbrev pub transact : List Operation → Exec World (Option User)
  transact ops w = with_db (A.transaction ops w.db) w

  abbrev pub note : NewEvent → Exec World (Unit {0})
  note e w = with_db (A.insert_event e w.db) w

  abbrev pub publish : Message → Exec World (Unit {0})
  publish m w = with_channel (A.send m w.channel) w
