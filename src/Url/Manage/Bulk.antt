-- ===== src/Url/Manage/Bulk.antt =====
-- createUrlsBulk of services/url/controllers/urls.controller.js. Its items run one after the other
-- here, one of the orders in which their transactions may commit.
pub mod Growth
use bearlink.Prelude.{
  ℕ, String, false, Option, none, some, List, [], ◌∷◌, length, leb, if◌then◌else◌, ◌⊎◌, inl, inr,
}
use Prim.Native.String.{◌++◌ as ◌<>◌}
use bearlink.Prelude.Exec.{Result, ok, err, Exec, pure, throw, catch, ◌>>=◌, ◌>>◌}
use bearlink.Shared.Json.{Json, num, bool, arr, nil, nat, truthy}
use bearlink.Url.Record.{Url}
use bearlink.Shared.Events.{url_created_message}
use bearlink.Url.Platform.{Platform, Setup, World, publish_event}
use bearlink.Url.Redirect.{slug_of}
use bearlink.Url.Manage.{
  Body, Reply, fail, missing_fields, shortened, updated, no_content, Config, Services,
}
use bearlink.Url.Manage.Checks as Checks
use bearlink.Url.Manage.Checks.{Check}
use bearlink.Url.Manage.Create.{
  Draft, default_to, flat, insert_link, publish_preview_job, sanitize_for_event,
}

abbrev pub bulk_max_items : ℕ
bulk_max_items = 50

-- { error } and { shortUrl }
pub data ItemResult : Type 0 where
  refused : String → ItemResult
  made : String → ItemResult

pub data BulkReply : Type 0 where
  fail_all : ℕ → String → BulkReply
  results : List ItemResult → BulkReply

abbrev pub item_url : Option Json → Check Json
item_url none = Checks.answer 400 "originalUrl is required."
item_url (some value) =
    if truthy value then Checks.go_on value else Checks.answer 400 "originalUrl is required."

-- the error of an answer; the checks and the insert give no other answers than the first two
abbrev pub error_of : Reply → ItemResult
error_of (fail code text) = refused text
error_of (missing_fields fields) = refused "originalUrl is required."
error_of (shortened short_url signed) = refused ""
error_of (updated url) = refused ""
error_of no_content = refused ""

module _ (P : Platform) (S : Services P) (config : Config) (setup : Setup) where
  -- the checks of an item, in the order of the handler
  unfoldable pub item_draft_of : Body → Check Draft
  item_draft_of body = Checks.◌>>=◌ (item_url body.original_url) λ value.
      Checks.◌>>=◌ (Checks.check_url P S config setup.now value) λ text.
        Checks.◌>>=◌ (Checks.check_redirect_type (default_to (num (nat 302)) body.redirect_type))
          λ code. Checks.◌>>=◌ (Checks.check_new_alias body.custom_alias) λ name.
            Checks.◌>>=◌
              (Checks.if_given (Checks.check_expires_at P S config setup.now) body.expires_at)
              λ date. Checks.◌>>=◌ (Checks.check_tags (default_to (arr nil) body.tags)) λ tags.
                Checks.◌>>=◌ (Checks.if_given Checks.check_utm body.utm_params) λ utm.
                  Checks.◌>>=◌ (Checks.if_given (Checks.hash P S config setup.now) body.password)
                    λ hash. Checks.go_on (record {
                      original_url = text;
                      redirect_type = code;
                      custom_alias = name;
                      expires_at = flat date;
                      tags = tags;
                      utm_params = utm;
                      password_hash = hash;
                    })

  abbrev pub after_item : Draft → Reply ⊎ Url → Exec (World P) ItemResult
  after_item d (inl reply) = pure (error_of reply)
  after_item d (inr url) = do
    publish_event P (url_created_message setup.context (sanitize_for_event P S config setup url))
    publish_preview_job P S config setup url.id d.original_url
    pure (made (setup.base_url <> "/" <> slug_of url))

  -- A row that is created in bulk has the column's default for requireSignature.
  unfoldable pub save_item : ℕ → Draft → Exec (World P) ItemResult
  save_item user d =
      catch (do link ← insert_link P S config setup user (bool false) d; after_item d link)
        (λ e. pure (refused "Failed to shorten URL"))

  abbrev pub item_checked : ℕ → Check Draft → Exec (World P) ItemResult
  item_checked user (err e) = throw e
  item_checked user (ok (inl reply)) = pure (error_of reply)
  item_checked user (ok (inr d)) = save_item user d

  unfoldable pub create_item : ℕ → Body → Exec (World P) ItemResult
  create_item user body = item_checked user (item_draft_of body)

  abbrev pub collect : Result ItemResult → Result (List ItemResult) → Result (List ItemResult)
  collect (ok r) (ok rs) = ok (r ∷ rs)
  collect (ok r) (err e) = err e
  collect (err e) rest = err e

  -- Promise.all: every item runs, and the first rejection is that of all
  abbrev pub create_items : ℕ → List Body → Exec (World P) (List ItemResult)
  create_items user [] w = (ok [], w)
  create_items user (item ∷ items) w =
      let first = create_item user item w in
      let rest = create_items user items first.1 in (collect first.0 rest.0, rest.1)

  abbrev pub answer_bulk : List ItemResult → Exec (World P) BulkReply
  answer_bulk rs = pure (results rs)

  -- `none` is a body whose `urls` is no array; an item that is no object has no properties
  unfoldable pub create_urls_bulk : ℕ → Option (List Body) → Exec (World P) BulkReply
  create_urls_bulk user none = pure (fail_all 400 "urls must be an array.")
  create_urls_bulk user (some []) = pure (fail_all 400 "urls array must not be empty.")
  create_urls_bulk user (some (item ∷ items)) =
      if leb (length (item ∷ items)) bulk_max_items
      then (do rs ← create_items user (item ∷ items); answer_bulk rs)
      else pure (fail_all 400 "Bulk create is limited to 50 URLs per request.")
