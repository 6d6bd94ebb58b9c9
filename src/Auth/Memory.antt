-- ===== src/Auth/Memory.antt =====
-- The accounts' platform in memory: lists for the tables and the queue, and small functions in place
-- of the libraries.
use Prim.Native.String.{◌++◌ as ◌<>◌}
use bearlink.Prelude.{
  ℕ, ◌+◌, String, Bool, true, Option, none, some, List, [], ◌∷◌, ◌++◌, first, str_eq, length, ◌≡◌,
  refl, ◌⊎◌, inl, inr, arith, if◌then◌else◌,
}
use bearlink.Prelude.Text.Decimal.{show}
use bearlink.Prelude.Exec.{Result, ok, err, Failure, record_not_found, other}
use bearlink.Shared.Json.{Json, str, Number}
use bearlink.Shared.Events.{Message, NewEvent}
use bearlink.Auth.Record.{Role, User, ResetToken, Claims}
use bearlink.Auth.Platform.{Accounts}
use bearlink.Auth.Tables.{Tables, has_email, is_id, apply_all, first_user, IsLawful}

abbrev by_email : Option Json → Tables → Result (Option User)
by_email (some (str email)) t = ok (first (has_email email) t.users)
by_email _ t = err other

-- NaN is no id
abbrev by_id : Option Number → Tables → Result (Option User)
by_id none t = err other
by_id (some n) t = ok (first (λ (u : User). is_id (some n) u.id) t.users)

abbrev commit : Option Tables → Option User → Tables → Result (Option User) × Tables
commit (some t') made t = (ok made, t')
commit none made t = (err record_not_found, t)

abbrev next_id : Tables → ℕ
next_id t = length t.users + length t.tokens + 100

abbrev hashed : Option Json → Result String
hashed (some (str s)) = ok ("hash:" <> s)
hashed _ = err other

abbrev is_hash_of : Option Json → String → Result Bool
is_hash_of (some (str s)) hash = ok (str_eq hash ("hash:" <> s))
is_hash_of _ hash = err other

abbrev admin_claims : Claims
admin_claims = record { id = 1; email = "root@b.c"; name = some "Root"; role = Role.admin }

abbrev user_claims : Claims
user_claims = record { id = 2; email = "a@b.c"; name = some "Ann"; role = Role.user }

abbrev claims_in : String → String ⊎ Claims
claims_in token =
    if str_eq token "jwt:1"
    then inr admin_claims
    else if str_eq token "jwt:2"
    then inr user_claims
    else inl "jwt malformed"

abbrev pub memory_accounts : Accounts
memory_accounts = record {
  Db = Tables;
  find_by_email = by_email;
  find_user = by_id;
  find_users = λ t. ok t.users;
  find_token = λ token t. ok (first (λ (r : ResetToken). str_eq r.token token) t.tokens);
  transaction = λ ops t. commit (apply_all (next_id t) 0 ops t) (first_user (next_id t) 0 ops t) t;
  insert_event = λ e t. (ok tt, record t { events = t.events ++ e ∷ [] });
  Channel = List Message;
  send = λ m sent. (ok tt, sent ++ m ∷ []);
  is_email = λ text. true;
  hash_password = hashed;
  compare_password = is_hash_of;
  sign_jwt = λ claims. ok ("jwt:" <> show claims.id);
  verify_jwt = claims_in;
  hmac_hex = λ key text. "ab12";
  date_text = show;
}

pub commit_ok :
    (after : Option Tables) (made found : Option User) (t t' : Tables)
    → commit after made t ≡ (ok found, t')
    → (after ≡ some t') × (found ≡ made)
commit_ok none made found t t' h = absurd (ground arith)
commit_ok (some t'') made found t t' h = (ground arith, ground arith)

pub commit_err :
    (after : Option Tables) (made : Option User) (t t' : Tables) (e : Failure)
    → commit after made t ≡ (err e, t')
    → t' ≡ t
commit_err none made t t' e h = ground arith
commit_err (some t'') made t t' e h = absurd (ground arith)

pub by_email_ok :
    (email : Option Json) (t : Tables) (found : Option User)
    → by_email email t ≡ ok found
    → (text : String) × (email ≡ some (str text)) × (found ≡ first (has_email text) t.users)
by_email_ok (some (str text)) t found h = (text, refl, ground arith)
by_email_ok email t found h = absurd (ground arith)

pub by_id_ok :
    (id : Option Number) (t : Tables) (found : Option User)
    → by_id id t ≡ ok found
    → found ≡ first (λ (u : User). is_id id u.id) t.users
by_id_ok none t found h = absurd (ground arith)
by_id_ok (some n) t found h = ground arith

pub same_result : {A : Type 0} (a b : A) → ok a ≡ ok b → b ≡ a
same_result a b h = cc

pub stored :
    (t t' : Tables) → (◌≡◌ {A = Result (Unit {0}) × Tables} (ok tt, t') (ok tt, t)) → t ≡ t'
stored t t' h = cc

pub never_refused :
    (e : NewEvent) (t t' : Tables) (f : Failure)
    → ◌≡◌ {A = Result (Unit {0}) × Tables}
        (ok tt, record t { events = t.events ++ e ∷ [] })
        (err f, t')
    → t' ≡ t
never_refused e t t' f h = absurd (ground arith)

abbrev pub memory_laws : IsLawful memory_accounts
memory_laws = record {
  tables = λ t. t;
  find_by_email_ok = by_email_ok;
  find_user_ok = by_id_ok;
  find_token_ok = λ token t found h. same_result _ _ h;
  transaction_ok = λ ops t t' made h.
      let (applied, is_made) = commit_ok _ _ made t t' h in (next_id t, 0, applied, is_made);
  transaction_err = λ ops t t' e h. commit_err _ _ t t' e h;
  event_ok = λ e t t' h. stored t' _ h;
  event_err = never_refused;
}
