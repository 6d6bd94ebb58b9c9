-- ===== src/Auth/Tables.antt =====
-- The tables of the auth service, as the operations of a transaction change them. The id and the
-- time that the database gives to a new row are arguments.
use bearlink.Prelude.{
  ℕ, String, Bool, false, not, Option, none, some, List, [], ◌∷◌, ◌++◌, map, any, select, first,
  str_eq, ◌==◌, ◌||◌, ◌≡◌, if◌then◌else◌,
}
use bearlink.Prelude.Exec.{ok, err, Failure}
use bearlink.Shared.Json.{Json, str, Number, nat}
use bearlink.Shared.Events.{NewEvent}
use bearlink.Auth.Record.{Role, User, ResetToken}
use bearlink.Auth.Platform.{
  NewUser, UserChanges, NewToken, Operation, create_user, update_user, delete_user, create_token,
  use_token, create_event, Accounts,
}

pub record Tables : Type 0 where
  pub users : List User
  pub tokens : List ResetToken
  pub events : List NewEvent

abbrev pub is_id : Option Number → ℕ → Bool
is_id (some (nat n)) k = k == n
is_id _ k = false

abbrev pub has_email : String → User → Bool
has_email email u = str_eq u.email email

abbrev pub or_keep : {A : Type 0} → Option A → A → A
or_keep none old = old
or_keep (some new) old = new

abbrev pub name_or_keep : Option String → Option String → Option String
name_or_keep none old = old
name_or_keep (some new) old = some new

abbrev pub changed : UserChanges → User → User
changed c u = record u {
  name = name_or_keep c.name u.name;
  email = or_keep c.email u.email;
  password = or_keep c.password u.password;
}

abbrev pub change_user : Option Number → UserChanges → User → User
change_user id c u = if is_id id u.id then changed c u else u

abbrev pub mark_used : ℕ → ℕ → ResetToken → ResetToken
mark_used id at r = if r.id == id then record r { used_at = some at } else r

abbrev pub new_user : ℕ → ℕ → String → String → String → User
new_user k at email password name = record {
  id = k;
  email = email;
  password = password;
  name = some name;
  role = Role.user;
  created_at = at;
}

abbrev pub new_token : ℕ → NewToken → ResetToken
new_token k d = record {
  id = k;
  token = d.token;
  user_id = d.user_id;
  expires_at = d.expires_at;
  used_at = none;
}

-- whether an e-mail address is another row's
abbrev pub taken : Option String → Option Number → List User → Bool
taken none id users = false
taken (some email) id users =
    any (λ (u : User). if is_id id u.id then false else has_email email u) users

-- a row whose address or name is no text is refused
abbrev pub insert_named : ℕ → ℕ → String → Option Json → Option Json → Option User
insert_named k at hash (some (str email)) (some (str name)) = some (new_user k at email hash name)
insert_named k at hash email name = none

abbrev pub insert_user : ℕ → ℕ → NewUser → Option User
insert_user k at d = insert_named k at d.password d.email d.name

abbrev pub add_user : Option User → Tables → Option Tables
add_user none t = none
add_user (some u) t =
    if any (λ (v : User). v.id == u.id || has_email u.email v) t.users
    then none
    else some (record t { users = t.users ++ u ∷ [] })

-- What an operation makes of the tables: unique addresses and tokens, a token's user that exists, and
-- the tokens of a deleted user deleted with it. An update or a delete of no row is an error.
abbrev pub apply : ℕ → ℕ → Operation → Tables → Option Tables
apply k at (create_user d) t = add_user (insert_user k at d) t
apply k at (update_user id c) t =
    if any (λ (u : User). is_id id u.id) t.users
    then if taken c.email id t.users
      then none
      else some (record t { users = map (change_user id c) t.users })
    else none
apply k at (delete_user id) t =
    if any (λ (u : User). is_id id u.id) t.users
    then some (record t {
      users = select (λ (u : User). not (is_id id u.id)) t.users;
      tokens = select (λ (r : ResetToken). not (is_id id r.user_id)) t.tokens;
    })
    else none
apply k at (create_token d) t =
    if any (λ (r : ResetToken). r.id == k || str_eq r.token d.token) t.tokens
    then none
    else if any (λ (u : User). u.id == d.user_id) t.users
    then some (record t { tokens = t.tokens ++ new_token k d ∷ [] })
    else none
apply k at (use_token id used) t =
    if any (λ (r : ResetToken). r.id == id) t.tokens
    then some (record t { tokens = map (mark_used id used) t.tokens })
    else none
apply k at (create_event e) t = some (record t { events = t.events ++ e ∷ [] })

abbrev pub and_then : Option Tables → (Tables → Option Tables) → Option Tables
and_then none f = none
and_then (some t) f = f t

abbrev pub apply_all : ℕ → ℕ → List Operation → Tables → Option Tables
apply_all k at [] t = some t
apply_all k at (op ∷ ops) t = and_then (apply k at op t) (apply_all k at ops)

-- the user that the first operation gives
abbrev pub changed_user : Option Number → UserChanges → Option User → Option User
changed_user id c none = none
changed_user id c (some u) = some (changed c u)

abbrev pub first_user : ℕ → ℕ → List Operation → Tables → Option User
first_user k at (create_user d ∷ ops) t = insert_user k at d
first_user k at (update_user id c ∷ ops) t =
    changed_user id c (first (λ (u : User). is_id id u.id) t.users)
first_user k at _ t = none

-- What Prisma and PostgreSQL document of these calls: a transaction does all of it or nothing, and
-- findUnique finds the row of a text.
pub record IsLawful (A : Accounts) : Type 0 where
  pub tables : A.Db → Tables
  pub find_by_email_ok :
      (email : Option Json) (db : A.Db) (found : Option User)
      → A.find_by_email email db ≡ ok found
      → (text : String) × (email ≡ some (str text))
        × (found ≡ first (has_email text) (tables db).users)
  pub find_user_ok :
      (id : Option Number) (db : A.Db) (found : Option User)
      → A.find_user id db ≡ ok found
      → found ≡ first (λ (u : User). is_id id u.id) (tables db).users
  pub find_token_ok :
      (token : String) (db : A.Db) (found : Option ResetToken)
      → A.find_token token db ≡ ok found
      → found ≡ first (λ (r : ResetToken). str_eq r.token token) (tables db).tokens
  pub transaction_ok :
      (ops : List Operation) (db db' : A.Db) (made : Option User)
      → A.transaction ops db ≡ (ok made, db')
      → (k : ℕ) × (at : ℕ) × (apply_all k at ops (tables db) ≡ some (tables db'))
        × (made ≡ first_user k at ops (tables db))
  pub transaction_err :
      (ops : List Operation) (db db' : A.Db) (e : Failure)
      → A.transaction ops db ≡ (err e, db')
      → tables db' ≡ tables db
  pub event_ok :
      (e : NewEvent) (db db' : A.Db)
      → A.insert_event e db ≡ (ok tt, db')
      → tables db' ≡ record (tables db) { events = (tables db).events ++ e ∷ [] }
  pub event_err :
      (e : NewEvent) (db db' : A.Db) (f : Failure)
      → A.insert_event e db ≡ (err f, db')
      → tables db' ≡ tables db
