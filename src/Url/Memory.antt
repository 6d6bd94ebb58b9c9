-- ===== src/Url/Memory.antt =====
-- A platform of the URL service in memory: lists for the tables, the cache and the queue, and
-- small functions in place of the libraries.
use Prim.Native.String.{◌++◌ as ◌<>◌}
use bearlink.Prelude.{
  String, Bool, true, false, Option, none, some, List, [], ◌∷◌, ◌++◌, str_eq, ◌||◌, ◌≡◌,
  if◌then◌else◌, arith,
}
use bearlink.Prelude.Text.{codes, begins_with}
use bearlink.Prelude.Text.Decimal.{value}
use bearlink.Prelude.Exec.{Result, ok, err, Failure, record_not_found}
use bearlink.Shared.Json.{Json, nat, str}
use bearlink.Url.Record.{Url}
use bearlink.Shared.Events.{Message}
use bearlink.Url.Platform.{Platform}
use bearlink.Url.Tables.{Tables, DbModel, apply_all}

abbrev has_alias : String → Option String → Bool
has_alias slug none = false
has_alias slug (some name) = str_eq name slug

abbrev first_match : String → List Url → Option Url
first_match slug [] = none
first_match slug (u ∷ us) =
    if str_eq u.short_id slug || has_alias slug u.custom_alias then some u else first_match slug us

-- the new tables, or the old ones and an error
abbrev commit : Option Tables → Tables → Result (Unit {0}) × Tables
commit (some t') t = (ok tt, t')
commit none t = (err record_not_found, t)

abbrev value_of : String → List (String × String) → Option String
value_of key [] = none
value_of key (e ∷ es) = if str_eq e.0 key then some e.1 else value_of key es

abbrev without : String → List (String × String) → List (String × String)
without key [] = []
without key (e ∷ es) = let rest = without key es in if str_eq e.0 key then rest else e ∷ rest

abbrev without_all : List String → List (String × String) → List (String × String)
without_all [] es = es
without_all (key ∷ keys) es = without_all keys (without key es)

abbrev set_new :
    Option String → String → String → List (String × String) → Result Bool × List (String × String)
set_new (some old) key text es = (ok false, es)
set_new none key text es = (ok true, (key, text) ∷ es)

abbrev scheme : String → Option String
scheme text =
    if begins_with (codes text) (codes "https:")
    then some "https:"
    else if begins_with (codes text) (codes "javascript:")
    then some "javascript:"
    else none

abbrev query_text : String → List (String × String) → String
query_text sep [] = ""
query_text sep (e ∷ es) = sep <> e.0 <> "=" <> e.1 <> query_text "&" es

abbrev same_password : Json → String → Bool
same_password (str s) hash = str_eq hash ("hash:" <> s)
same_password _ hash = false

abbrev pub memory : Platform
memory = record {
  Db = Tables;
  find_first = λ slug t. ok (first_match slug t.urls);
  transaction = λ ops t. commit (apply_all ops t) t;
  Redis = List (String × String);
  redis_get = λ key es. ok (value_of key es);
  redis_setex = λ key seconds text es. (ok tt, (key, text) ∷ without key es);
  redis_del = λ keys es. (ok tt, without_all keys es);
  redis_set_nx = λ key text seconds es. set_new (value_of key es) key text es;
  Channel = List Message;
  send = λ m sent. (ok tt, sent ++ m ∷ []);
  url_protocol = scheme;
  url_with_params = λ text params. ok (text <> query_text "?" params);
  stringify_url = λ url. url.short_id;
  parse_url = λ text. none;
  to_number = λ text. nat (value 0 text);
  hmac_hex = λ key text. "ab12";
  sha256_hex = λ text. "sha:" <> text;
  country_of = λ ip. none;
  compare_password = λ password hash. ok (same_password password hash);
  qr_png = λ text. ok (codes text);
}

pub commit_ok :
    (after : Option Tables) (t t' : Tables) → commit after t ≡ (ok tt, t') → after ≡ some t'
commit_ok none t t' h = ground arith
commit_ok (some t'') t t' h = ground arith

pub commit_err :
    (after : Option Tables) (t t' : Tables) (e : Failure) → commit after t ≡ (err e, t') → t' ≡ t
commit_err none t t' e h = ground arith
commit_err (some t'') t t' e h = ground arith

abbrev pub memory_model : DbModel memory
memory_model = record {
  tables = λ t. t;
  transaction_ok = λ ops db db' h. commit_ok (apply_all ops db) db db' h;
  transaction_err = λ ops db db' e h. commit_err (apply_all ops db) db db' e h;
}
