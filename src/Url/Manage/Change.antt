-- ===== src/Url/Manage/Change.antt =====
-- updateUrl and deleteUrl of services/url/controllers/urls.controller.js.
use bearlink.Prelude.{ℕ, String, Option, none, some, [], ◌∷◌, if◌then◌else◌, inl, inr}
use bearlink.Prelude.Exec.{
  ok, err, Failure, unique_violation, record_not_found, other, Exec, pure, throw, catch, ◌>>=◌,
  ◌>>◌,
}
use bearlink.Prelude.Text.Decimal.{show}
use bearlink.Shared.Json.{Json, num, str, nat, Number, object, truthy}
use bearlink.Shared.Numbers.{parse_int}
use bearlink.Url.Record.{Url, NewEvent}
use bearlink.Shared.Events.{url_deleted_message, url_updated_message}
use bearlink.Url.Platform.{Platform, Setup, World, publish_event}
use bearlink.Url.Cache.{invalidate_url_cache}
use bearlink.Url.Manage.{
  Body, Reply, fail, updated, no_content, Changes, Config, Services, in_transaction,
}
use bearlink.Url.Manage.Checks as Checks
use bearlink.Url.Manage.Checks.{Check}
use bearlink.Url.Manage.Create.{sanitize_for_event}

-- `!originalUrl`
abbrev present : Option Json → Check Json
present none = Checks.answer 400 "Missing original URL."
present (some value) =
    if truthy value then Checks.go_on value else Checks.answer 400 "Missing original URL."

abbrev pub id_or_answer : Option Number → Check Number
id_or_answer none = Checks.answer 400 "Invalid URL ID."
id_or_answer (some n) = Checks.go_on n

module _ (P : Platform) (S : Services P) (config : Config) (setup : Setup) where
  -- the checks, in the order of the handler; `id` is the parameter of the route
  unfoldable pub changes_of : String → Body → Check (Number × Changes)
  unfolding parse_int
  changes_of id body = Checks.◌>>=◌ (id_or_answer (parse_int id)) λ url_id.
      Checks.◌>>=◌ (present body.original_url) λ value.
        Checks.◌>>=◌ (Checks.check_url P S config setup.now value) λ text.
          Checks.◌>>=◌ (Checks.check_allowed P S config setup.now text) λ _.
            Checks.◌>>=◌ (Checks.check_safe P S config setup.now text) λ _.
              Checks.◌>>=◌ (Checks.if_given Checks.check_redirect_type body.redirect_type) λ code.
                Checks.◌>>=◌ (Checks.check_changed_alias body.custom_alias) λ name.
                  Checks.◌>>=◌
                    (Checks.if_given (Checks.check_expires_at P S config setup.now) body.expires_at)
                    λ date. Checks.◌>>=◌ (Checks.if_given Checks.check_tags body.tags) λ tags.
                      Checks.◌>>=◌ (Checks.if_given Checks.check_utm body.utm_params) λ utm.
                        Checks.◌>>=◌
                          (Checks.if_given (Checks.hash_changed P S config setup.now) body.password)
                          λ hash. Checks.go_on (
                            url_id,
                            record {
                              original_url = text;
                              redirect_type = code;
                              custom_alias = name;
                              expires_at = date;
                              password_hash = hash;
                              tags = tags;
                              utm_params = utm;
                              require_signature = body.require_signature;
                            },
                          )

  -- the payload is the row without passwordHash, up to the order of its keys
  abbrev pub updated_event : ℕ → Url → NewEvent
  updated_event user url = record {
    event_type = "url_updated";
    payload = sanitize_for_event P S config setup url;
    actor_id = some (show user);
  }

  abbrev pub deleted_event : ℕ → Url → NewEvent
  deleted_event user url = record {
    event_type = "url_deleted";
    payload =
        object (("shortId", some (str url.short_id)) ∷ ("userId", some (num (nat user))) ∷ []);
    actor_id = some (show user);
  }

  -- the bodies of the transactions
  abbrev pub update_both : ℕ → Number → Changes → Exec P.Db Url
  update_both user id c = do
    url ← S.update_url user id c
    S.insert_event (updated_event user url)
    pure url

  abbrev pub delete_both : ℕ → Number → Exec P.Db Url
  delete_both user id = do
    url ← S.delete_url user id
    S.insert_event (deleted_event user url)
    pure url

  abbrev pub invalidate : Url → Exec (World P) (Unit {0})
  invalidate url w = (ok tt, invalidate_url_cache P setup url w)

  abbrev pub update_failed : Failure → Exec (World P) Reply
  update_failed unique_violation = pure (fail 409 "Custom alias is already taken.")
  update_failed record_not_found = pure (fail 404 "URL not found.")
  update_failed other = pure (fail 500 "Failed to update URL")

  abbrev pub delete_failed : Failure → Exec (World P) Reply
  delete_failed record_not_found = pure (fail 404 "URL not found.")
  delete_failed unique_violation = pure (fail 500 "Failed to delete URL")
  delete_failed other = pure (fail 500 "Failed to delete URL")

  abbrev pub after_update : Url → Exec (World P) Reply
  after_update url = do
    invalidate url
    publish_event P (url_updated_message setup.context (sanitize_for_event P S config setup url))
    pure (updated url)

  abbrev pub after_delete : Url → Exec (World P) Reply
  after_delete url = do
    invalidate url
    publish_event P (url_deleted_message setup.context (sanitize_for_event P S config setup url))
    pure no_content

  abbrev pub update_checked : ℕ → Check (Number × Changes) → Exec (World P) Reply
  update_checked user (err e) = throw e
  update_checked user (ok (inl reply)) = pure reply
  update_checked user (ok (inr (id, c))) =
      catch (do url ← in_transaction P S (update_both user id c); after_update url) update_failed

  unfoldable pub update_url : ℕ → String → Body → Exec (World P) Reply
  update_url user id body = update_checked user (changes_of id body)

  abbrev pub delete_checked : ℕ → Option Number → Exec (World P) Reply
  delete_checked user none = pure (fail 400 "Invalid URL ID.")
  delete_checked user (some id) =
      catch (do url ← in_transaction P S (delete_both user id); after_delete url) delete_failed

  unfoldable pub delete_url : ℕ → String → Exec (World P) Reply
  delete_url user id = delete_checked user (parse_int id)
