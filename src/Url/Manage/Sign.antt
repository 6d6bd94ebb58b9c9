-- ===== src/Url/Manage/Sign.antt =====
-- signUrlEndpoint of services/url/controllers/urls.controller.js.
use bearlink.Prelude.{
  ℕ, String, Option, none, some, [], ◌∷◌, ◌++◌, ◌≡◌, refl, ap, ◌∙◌, ◌⊎◌, inl, inr, arith,
}
use Prim.Native.String.{◌++◌ as ◌<>◌}
use bearlink.Prelude.Exec.{Result, ok, err, Failure, Exec, pure, throw, ◌>>◌}
use bearlink.Prelude.Text.Decimal.{show}
use mathlib.Core.Path.{subst₂}
use mathlib.Core.List.{Memᴰ}
use bearlink.Shared.Json.{Json, null, num, str, nat, Number, object, given}
use bearlink.Shared.Numbers.{parse_int}
use bearlink.Url.Record.{Url, NewEvent}
use bearlink.Url.Platform.{Platform, Setup, World, with_db}
use bearlink.Url.Tables.{DbModel}
use bearlink.Url.Signed.{sign_url}
use bearlink.Url.Redirect.{slug_of}
use bearlink.Url.Manage.{Services, IsLawful, Config}
use bearlink.Url.Manage.Create.{ttl_of}

pub data SignReply : Type 0 where
  fail : ℕ → String → SignReply
  signed : String → SignReply

abbrev ttl_json : Option ℕ → Json
ttl_json none = null
ttl_json (some n) = num (nat n)

module _ (P : Platform) (S : Services P) (config : Config) (setup : Setup) where
  abbrev pub signed_event : ℕ → Number → Option Json → Url → NewEvent
  signed_event user id ttl url = record {
    event_type = "url_signed";
    payload = object (
        ("urlId", some (num id))
        ∷ ("shortId", some (str url.short_id))
        ∷ ("userId", some (num (nat user)))
        ∷ ("ttl", some (ttl_json (ttl_of P S config setup ttl)))
        ∷ []);
    actor_id = some (show user);
  }

  -- an insert that fails is logged and dropped
  abbrev pub note_signed : NewEvent → Exec (World P) (Unit {0})
  note_signed e w = (ok tt, (with_db P (S.insert_event e w.db) w).1)

  abbrev pub signed_text : Url → String → Option Json → Result String
  signed_text url secret ttl =
      sign_url P setup.now (setup.base_url <> "/" <> slug_of url) secret
        (ttl_of P S config setup ttl)

  abbrev pub note_and_answer :
      ℕ → Number → Option Json → Url → Result String → Exec (World P) SignReply
  note_and_answer user id ttl url (err e) = throw e
  note_and_answer user id ttl url (ok text) = do
    note_signed (signed_event user id ttl url)
    pure (signed text)

  abbrev pub sign_found :
      ℕ → Number → Option Json → String → Result (Option Url) → Exec (World P) SignReply
  sign_found user id ttl secret (err e) = throw e
  sign_found user id ttl secret (ok none) = pure (fail 404 "URL not found.")
  sign_found user id ttl secret (ok (some url)) =
      note_and_answer user id ttl url (signed_text url secret ttl)

  abbrev pub sign_secret : ℕ → Number → Option Json → Option String → Exec (World P) SignReply
  sign_secret user id ttl none w = (ok (fail 503 "URL signing is not configured."), w)
  sign_secret user id ttl (some secret) w =
      sign_found user id ttl secret (S.find_own user id w.db) w

  abbrev pub sign_id : ℕ → Option Number → Option Json → Exec (World P) SignReply
  sign_id user none ttl = pure (fail 400 "Invalid URL ID.")
  sign_id user (some id) ttl = sign_secret user id ttl (given setup.url_signing_secret)

  -- Exceptions of findFirst and of signUrl leave the handler.
  unfoldable pub sign_url_endpoint : ℕ → String → Option Json → Exec (World P) SignReply
  sign_url_endpoint user id ttl = sign_id user (parse_int id) ttl

module _ (P : Platform) (D : DbModel P) (S : Services P) (L : IsLawful P D S) (config : Config)
    (setup : Setup) where
  -- what the attempt to insert an event does: it is the last of the tables, or the insert failed and
  -- they are as before
  abbrev pub Inserts : NewEvent → P.Db → P.Db → Type 0
  Inserts e db db' =
      ((S.insert_event e db).0 ≡ ok tt)
        × (D.tables db' ≡ record (D.tables db) { events = (D.tables db).events ++ e ∷ [] })
      ⊎ ((f : Failure) × ((S.insert_event e db).0 ≡ err f) × (D.tables db' ≡ D.tables db))

  -- what a signed answer says: the link is the user's, the text is signUrl's, and an event that tells
  -- of it was offered to the outbox
  abbrev pub Signs : ℕ → String → Option Json → String → P.Db → P.Db → Type 0
  Signs user id ttl text db db' =
      (url : Url) × (secret : String) × Memᴰ url (D.tables db).urls
      × (url.user_id ≡ user)
      × (parse_int id ≡ some (nat url.id))
      × (given setup.url_signing_secret ≡ some secret)
      × (signed_text P S config setup url secret ttl ≡ ok text)
      × Inserts (signed_event P S config setup user (nat url.id) ttl url) db db'

  note_signed-Inserts :
      (e : NewEvent) (w : World P) → Inserts e w.db (note_signed P S config setup e w).1.db
  note_signed-Inserts e w = go (S.insert_event e w.db) refl
    where
      go :
          (result : Result (Unit {0}) × P.Db)
          → S.insert_event e w.db ≡ result
          → ((S.insert_event e w.db).0 ≡ ok tt)
              × (D.tables result.1
                  ≡ record (D.tables w.db) { events = (D.tables w.db).events ++ e ∷ [] })
            ⊎ ((f : Failure) × ((S.insert_event e w.db).0 ≡ err f)
                × (D.tables result.1 ≡ D.tables w.db))
      go (ok tt, db) h = inl (ap (λ (p : Result (Unit {0}) × P.Db). p.0) h, L.event_ok e w.db db h)
      go (err f, db) h =
          inr (f, ap (λ (p : Result (Unit {0}) × P.Db). p.0) h, L.event_err e w.db db f h)

  found_effect :
      (user : ℕ) (id : String) (n : Number) (ttl : Option Json) (secret text : String)
      (found : Result (Option Url)) (w w' : World P)
      → parse_int id ≡ some n
      → given setup.url_signing_secret ≡ some secret
      → S.find_own user n w.db ≡ found
      → sign_found P S config setup user n ttl secret found w ≡ (ok (signed text), w')
      → Signs user id ttl text w.db w'.db
  found_effect user id n ttl secret text (err e) w w' p g f h = absurd (ground arith)
  found_effect user id n ttl secret text (ok none) w w' p g f h = absurd (ground arith)
  found_effect user id n ttl secret text (ok (some url)) w w' p g f h =
      let (m, owner, named) = L.find_own_ok user n w.db url f in
      go (signed_text P S config setup url secret ttl) refl h m owner named
    where
      go :
          (result : Result String)
          → signed_text P S config setup url secret ttl ≡ result
          → note_and_answer P S config setup user n ttl url result w ≡ (ok (signed text), w')
          → Memᴰ url (D.tables w.db).urls
          → url.user_id ≡ user
          → n ≡ nat url.id
          → Signs user id ttl text w.db w'.db
      go (err e) same eq m owner named = absurd (ground arith)
      go (ok s) same eq m owner named =
          let says : s ≡ text = ground arith in
          let ends : (note_signed P S config setup (signed_event P S config setup user n ttl url)
                w).1
              ≡ w' =
            ap (λ (r : Result SignReply × World P). r.1) eq in
          (
            url,
            secret,
            m,
            owner,
            p ∙ ap some named,
            g,
            same ∙ ap ok says,
            subst₂
                (λ (x : Number) (v : World P).
                  Inserts (signed_event P S config setup user x ttl url) w.db v.db)
                named ends (note_signed-Inserts (signed_event P S config setup user n ttl url) w),
          )

  -- `signUrlEndpoint` answers with a signed URL only for a link of the user, the one with the id of
  -- the route, and with the text that `signUrl` makes of its short URL and the secret. It then
  -- inserts one url_signed event that tells of it: if the insert succeeds that event is the last of
  -- the tables, and only if it fails the tables are as they were.
  pub sign_url_endpoint_of_owner :
      (user : ℕ) (id : String) (ttl : Option Json) (text : String) (w w' : World P)
      → sign_url_endpoint P S config setup user id ttl w ≡ (ok (signed text), w')
      → Signs user id ttl text w.db w'.db
  unfolding sign_url_endpoint
  sign_url_endpoint_of_owner user id ttl text w w' h = go (parse_int id) refl h
    where
      with_secret :
          (n : Number) (secret : Option String)
          → parse_int id ≡ some n
          → given setup.url_signing_secret ≡ secret
          → sign_secret P S config setup user n ttl secret w ≡ (ok (signed text), w')
          → Signs user id ttl text w.db w'.db
      with_secret n none p g eq = absurd (ground arith)
      with_secret n (some secret) p g eq =
          found_effect user id n ttl secret text (S.find_own user n w.db) w w' p g refl eq

      go :
          (read : Option Number)
          → parse_int id ≡ read
          → sign_id P S config setup user read ttl w ≡ (ok (signed text), w')
          → Signs user id ttl text w.db w'.db
      go none p eq = absurd (ground arith)
      go (some n) p eq = with_secret n (given setup.url_signing_secret) p refl eq
