-- ===== src/Url/Manage/Create.antt =====
-- createUrl of services/url/controllers/urls.controller.js.
use bearlink.Prelude.{
  ℕ, zero, suc, ◌+◌, String, false, Option, none, some, List, [], ◌∷◌, str_eq, if◌then◌else◌, ◌⊎◌,
  inl, inr,
}
use Prim.Native.String.{◌++◌ as ◌<>◌}
use bearlink.Prelude.Exec.{
  Result, ok, err, Failure, unique_violation, record_not_found, other, Exec, pure, throw, catch,
  ◌>>=◌, ◌>>◌,
}
use bearlink.Prelude.Text.Decimal.{show}
use bearlink.Shared.Json.{
  Json, null, bool, num, str, arr, Items, nil, cons, nat, object, or_null, given, truthy,
}
use bearlink.Url.Record.{Url, NewEvent}
use bearlink.Shared.Events.{url_created_message}
use bearlink.Url.Platform.{Platform, Setup, World, with_channel, publish_event}
use bearlink.Url.Signed.{sign_url, positive}
use bearlink.Url.Redirect.{slug_of}
use bearlink.Url.Manage.{
  Body, Reply, fail, missing_fields, shortened, NewUrl, Config, Services, in_transaction,
}
use bearlink.Url.Manage.Checks as Checks
use bearlink.Url.Manage.Checks.{Check}

-- what the checks of createUrl leave
pub record Draft : Type 0 where
  pub original_url : String
  pub redirect_type : ℕ
  pub custom_alias : Option String
  pub expires_at : Option ℕ
  pub tags : List String
  pub utm_params : Option Json
  pub password_hash : Option String

abbrev pub default_to : Json → Option Json → Json
default_to value none = value
default_to value (some given_value) = given_value

abbrev pub required : Option Json → Check Json
required none = ok (inl (missing_fields ("originalUrl" ∷ [])))
required (some null) = ok (inl (missing_fields ("originalUrl" ∷ [])))
required (some (str text)) =
    if str_eq text "" then ok (inl (missing_fields ("originalUrl" ∷ []))) else ok (inr (str text))
required (some value) = ok (inr value)

abbrev pub flat : Option (Option ℕ) → Option ℕ
flat none = none
flat (some date) = date

abbrev pub texts : List String → Items
texts [] = nil
texts (s ∷ rest) = cons (str s) (texts rest)

module _ (P : Platform) (S : Services P) (config : Config) (setup : Setup) where
  -- the checks, in the order of the handler
  unfoldable pub draft_of : Body → Check Draft
  draft_of body = Checks.◌>>=◌ (required body.original_url) λ value.
      Checks.◌>>=◌ (Checks.check_url P S config setup.now value) λ text.
        Checks.◌>>=◌ (Checks.check_allowed P S config setup.now text) λ _.
          Checks.◌>>=◌ (Checks.check_safe P S config setup.now text) λ _.
            Checks.◌>>=◌
              (Checks.check_redirect_type (default_to (num (nat 302)) body.redirect_type))
              λ code. Checks.◌>>=◌ (Checks.check_new_alias body.custom_alias) λ name.
                Checks.◌>>=◌
                  (Checks.if_given (Checks.check_expires_at P S config setup.now) body.expires_at)
                  λ date. Checks.◌>>=◌ (Checks.check_tags (default_to (arr nil) body.tags)) λ tags.
                    Checks.◌>>=◌ (Checks.if_given Checks.check_utm body.utm_params) λ utm.
                      Checks.◌>>=◌
                        (Checks.if_given (Checks.hash P S config setup.now) body.password)
                        λ hash. Checks.go_on (record {
                          original_url = text;
                          redirect_type = code;
                          custom_alias = name;
                          expires_at = flat date;
                          tags = tags;
                          utm_params = utm;
                          password_hash = hash;
                        })

  abbrev pub new_url : ℕ → Json → Draft → String → NewUrl
  new_url user signature d short_id = record {
    original_url = d.original_url;
    short_id = short_id;
    custom_alias = d.custom_alias;
    user_id = user;
    redirect_type = d.redirect_type;
    expires_at = d.expires_at;
    password_hash = d.password_hash;
    tags = d.tags;
    utm_params = d.utm_params;
    require_signature = signature;
  }

  abbrev named : Option String → Option Json
  named none = none
  named (some name) = some (str name)

  abbrev pub created_event : ℕ → Draft → Url → NewEvent
  created_event user d url = record {
    event_type = "url_created";
    payload = object (
        ("shortId", some (str url.short_id))
        ∷ ("userId", some (num (nat user)))
        ∷ ("originalUrl", some (str d.original_url))
        ∷ ("customAlias", named d.custom_alias)
        ∷ ("createdAt", some (str (S.date_text url.created_at)))
        ∷ []);
    actor_id = some (show user);
  }

  -- the body of the transaction
  abbrev pub insert_both : ℕ → Json → Draft → String → Exec P.Db Url
  insert_both user signature d short_id = do
    url ← S.create_url (new_url user signature d short_id)
    S.insert_event (created_event user d url)
    pure url

  -- generateShortId: the next id
  abbrev pub generate_short_id : Exec (World P) String
  generate_short_id w = (ok (S.generate_id w.drawn), record w { drawn = w.drawn + 1 })

  abbrev pub attempt_insert : ℕ → Json → Draft → Exec (World P) Url
  attempt_insert user signature d = do
    short_id ← generate_short_id
    in_transaction P S (insert_both user signature d short_id)

  -- MAX_SHORTID_RETRIES
  abbrev pub max_attempts : ℕ
  max_attempts = 3

  abbrev pub again : Exec (World P) Url → Failure → Exec (World P) Url
  again next unique_violation = next
  again next record_not_found = throw record_not_found
  again next other = throw other

  -- the attempts that are left: a collision is retried, the last attempt is not
  abbrev pub attempts : ℕ → ℕ → Json → Draft → Exec (World P) Url
  attempts zero user signature d = throw other
  attempts (suc zero) user signature d = attempt_insert user signature d
  attempts (suc (suc left)) user signature d =
      catch (attempt_insert user signature d) (again (attempts (suc left) user signature d))

  abbrev pub taken_or_throw : Failure → Exec (World P) (Reply ⊎ Url)
  taken_or_throw unique_violation = pure (inl (fail 409 "Custom alias is already taken."))
  taken_or_throw e = throw e

  -- the row, or the answer that the alias is taken
  abbrev pub insert_link : ℕ → Json → Draft → Exec (World P) (Reply ⊎ Url)
  insert_link user signature d = elim d.custom_alias [
    | none ↦ do url ← attempts max_attempts user signature d; pure (inr url)
    | some name ↦ catch (do url ← attempt_insert user signature d; pure (inr url)) taken_or_throw
  ]

  abbrev date : Option ℕ → Json
  date none = null
  date (some t) = str (S.date_text t)

  abbrev or_null_json : Option Json → Json
  or_null_json none = null
  or_null_json (some value) = value

  -- sanitizeForEvent: the row without passwordHash
  unfoldable pub sanitize_for_event : Url → Json
  sanitize_for_event url = object (
      ("id", some (num (nat url.id)))
      ∷ ("originalUrl", some (str url.original_url))
      ∷ ("shortId", some (str url.short_id))
      ∷ ("customAlias", some (or_null url.custom_alias))
      ∷ ("redirectType", some (num (nat url.redirect_type)))
      ∷ ("expiresAt", some (date url.expires_at))
      ∷ ("tags", some (arr (texts url.tags)))
      ∷ ("utmParams", some (or_null_json url.utm_params))
      ∷ ("requireSignature", some (bool url.require_signature))
      ∷ ("clicks", some (num (nat url.clicks)))
      ∷ ("createdAt", some (date (some url.created_at)))
      ∷ ("userId", some (num (nat url.user_id)))
      ∷ ("previewTitle", some (or_null url.preview_title))
      ∷ ("previewDescription", some (or_null url.preview_description))
      ∷ ("previewImageUrl", some (or_null url.preview_image_url))
      ∷ ("previewFetchedAt", some (date url.preview_fetched_at))
      ∷ [])

  -- publishPreviewJob
  unfoldable pub publish_preview_job : ℕ → String → Exec (World P) (Unit {0})
  publish_preview_job id text w =
      if config.has_preview_jobs
      then with_channel P (S.send_job id text w.channel) w
      else (ok tt, w)

  -- Number.isInteger(ttl) && ttl > 0 ? ttl : undefined
  abbrev pub ttl_of : Option Json → Option ℕ
  ttl_of (some (num n)) = positive n
  ttl_of _ = none

  abbrev pub lift : {A : Type 0} → Result A → Exec (World P) A
  lift r w = (r, w)

  abbrev pub sign_with : Body → Url → Option String → Exec (World P) Reply
  sign_with body url none = pure (shortened (setup.base_url <> "/" <> slug_of url) none)
  sign_with body url (some secret) = do
    signed ← lift (
        sign_url P setup.now (setup.base_url <> "/" <> slug_of url) secret (ttl_of body.signed_ttl))
    pure (shortened (setup.base_url <> "/" <> slug_of url) (some signed))

  abbrev pub announce : Body → Json → Draft → Url → Exec (World P) Reply
  announce body signature d url = do
    publish_event P (url_created_message setup.context (sanitize_for_event url))
    publish_preview_job url.id d.original_url
    if truthy signature
        then sign_with body url (given setup.url_signing_secret)
        else sign_with body url none

  abbrev pub after_insert : Body → Json → Draft → Reply ⊎ Url → Exec (World P) Reply
  after_insert body signature d (inl reply) = pure reply
  after_insert body signature d (inr url) = announce body signature d url

  unfoldable pub save : ℕ → Body → Json → Draft → Exec (World P) Reply
  save user body signature d =
      catch (do made ← insert_link user signature d; after_insert body signature d made)
        (λ e. pure (fail 500 "Failed to shorten URL"))

  abbrev pub create_checked : ℕ → Body → Check Draft → Exec (World P) Reply
  create_checked user body (err e) = throw e
  create_checked user body (ok (inl reply)) = pure reply
  create_checked user body (ok (inr d)) =
      save user body (default_to (bool false) body.require_signature) d

  -- An exception of a check leaves the handler.
  unfoldable pub create_url : ℕ → Body → Exec (World P) Reply
  create_url user body = create_checked user body (draft_of body)
