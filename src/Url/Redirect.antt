-- ===== src/Url/Redirect.antt =====
-- The handlers of services/url/controllers/redirect.controller.js, and their routes.
pub mod Visitor
pub mod Guards
pub mod Clicks
pub mod Unlocking
pub mod Balanced
use Prim.Native.String.{◌++◌ as ◌<>◌}
use bearlink.Prelude.{
  ℕ, String, Bool, true, false, Option, none, some, List, [], ◌∷◌, ltb, not, if◌then◌else◌,
}
use bearlink.Prelude.Exec.{Result, Exec, pure, catch, ◌>>=◌, ◌>>◌}
use bearlink.Shared.Json.{Json, str, truthy, object, or_null, given}
use bearlink.Shared.Validation.{is_safe_redirect_url}
use bearlink.Url.Record.{Url, NewEvent}
use bearlink.Shared.Events.{url_clicked_message}
use bearlink.Url.Platform.{
  Platform, Setup, World, increment_clicks, create_event, transact, publish_event,
}
use bearlink.Url.Cache.{find_url, is_unique_click}
use bearlink.Url.Page.{build_redirect_url, build_preview_page}
use bearlink.Url.Signed.{Verdict, valid, invalid, verify_url}
use Visitor.{Request, ClickMetadata, extract_click_metadata, is_bot}

pub data Reply : Type 0 where
  -- res.status(code).json({ error })
  fail : ℕ → String → Reply
  -- 401, with requiresPassword: true
  password_required : Reply
  -- 200, an image or an HTML page
  image : List ℕ → Reply
  page : String → Reply
  -- res.redirect(code, url)
  moved : ℕ → String → Reply

-- url.customAlias || url.shortId
abbrev pub slug_of : Url → String
slug_of url = elim (given url.custom_alias) [ none ↦ url.short_id | some name ↦ name ]

-- url.expiresAt && url.expiresAt < new Date()
abbrev pub expired : ℕ → Option ℕ → Bool
expired now none = false
expired now (some t) = ltb t now

abbrev pub has_password : Url → Bool
has_password url = elim (given url.password_hash) [ none ↦ false | some hash ↦ true ]

module _ (P : Platform) (setup : Setup) where
  abbrev short_url : Url → String
  short_url url = setup.base_url <> "/" <> slug_of url

  abbrev pub refuse_verdict : Verdict → Option Reply
  refuse_verdict valid = none
  refuse_verdict (invalid reason) = some (fail 403 reason)

  abbrev pub check_secret : Option String → Request → Url → Option Reply
  check_secret none req url = some (fail 403 "This link requires a valid signature.")
  check_secret (some secret) req url =
      refuse_verdict (verify_url P setup.now (short_url url) req.sig req.exp secret)

  abbrev pub check_signature : Request → Url → Option Reply
  check_signature req url =
      if url.require_signature then check_secret (given setup.url_signing_secret) req url else none

  -- the early returns of `redirect` once the row is found
  unfoldable pub refuse : Request → Url → Option Reply
  refuse req url =
      if not (is_safe_redirect_url P.url_protocol url.original_url)
      then some (fail 400 "URL is not safe for redirect")
      else if expired setup.now url.expires_at
      then some (fail 410 "This link has expired.")
      else if has_password url
      then some password_required
      else check_signature req url

  abbrev pub click_event : Url → ClickMetadata → NewEvent
  click_event url visit = record {
    event_type = "url_clicked";
    payload = object (
        ("shortId", some (str url.short_id))
        ∷ ("ip", some (str (P.sha256_hex visit.ip)))
        ∷ ("userAgent", some (or_null visit.user_agent))
        ∷ ("country", some (or_null visit.country))
        ∷ ("referer", some (or_null visit.referer))
        ∷ []);
    actor_id = none;
  }

  -- the payload of the event that is published
  abbrev pub click_payload : Url → ClickMetadata → Json
  click_payload url visit = object (
      ("shortId", some (str url.short_id))
      ∷ ("originalUrl", some (str url.original_url))
      ∷ ("referer", some (or_null visit.referer))
      ∷ ("userAgent", some (or_null visit.user_agent))
      ∷ ("country", some (or_null visit.country))
      ∷ [])

  -- the transaction that counts a click, and the event that is published after it
  unfoldable pub record_click : Url → ClickMetadata → Exec (World P) (Unit {0})
  record_click url visit = do
    transact P (increment_clicks url.short_id ∷ create_event (click_event url visit) ∷ [])
    publish_event P (url_clicked_message setup.context (click_payload url visit))

  -- the counting of a visit in `redirect`; a bot and a repeated click are only logged
  unfoldable pub count_visit : Request → Url → Exec (World P) (Unit {0})
  count_visit req url =
      let visit = extract_click_metadata P req in
      if is_bot visit.user_agent then pure tt else do
        unique ← is_unique_click P setup url.short_id visit.ip
        if unique then record_click url visit else pure tt

  abbrev pub finish : Request → Url → String → Exec (World P) Reply
  finish req url destination =
      if req.preview_is_1
      then pure (page (build_preview_page url destination))
      else do count_visit req url; pure (moved url.redirect_type destination)

  abbrev pub lift : {A : Type 0} → Result A → Exec (World P) A
  lift r w = (r, w)

  unfoldable pub deliver : Request → Url → Exec (World P) Reply
  deliver req url = do
    destination ← lift (build_redirect_url P url.original_url url.utm_params)
    finish req url destination

  abbrev pub serve : Request → Option Url → Exec (World P) Reply
  serve req none = pure (fail 404 "URL not found")
  serve req (some url) = elim (refuse req url) [ some reply ↦ pure reply | none ↦ deliver req url ]

  unfoldable pub redirect : Request → Exec (World P) Reply
  redirect req =
      catch (do found ← find_url P setup req.short_id; serve req found)
        (λ e. pure (fail 500 "Failed to redirect"))

  abbrev pub picture : Option Url → Exec (World P) Reply
  picture none = pure (fail 404 "URL not found")
  picture (some url) =
      if expired setup.now url.expires_at
      then pure (fail 410 "This link has expired.")
      else do buffer ← lift (P.qr_png (short_url url)); pure (image buffer)

  unfoldable pub qr : Request → Exec (World P) Reply
  qr req =
      catch (do found ← find_url P setup req.short_id; picture found)
        (λ e. pure (fail 500 "Failed to generate QR code"))

  abbrev pub failed_event : Url → NewEvent
  failed_event url = record {
    event_type = "url_unlock_failed";
    payload = object (("shortId", some (str url.short_id)) ∷ []);
    actor_id = none;
  }

  -- the row of a failed unlock; a failing insert is logged and dropped
  abbrev pub unlock_failed : Url → Exec (World P) (Unit {0})
  unlock_failed url = catch (transact P (create_event (failed_event url) ∷ [])) (λ e. pure tt)

  unfoldable pub open_link : Request → Url → Exec (World P) Reply
  open_link req url = do
    destination ← lift (build_redirect_url P url.original_url url.utm_params)
    record_click url (extract_click_metadata P req)
    pure (moved url.redirect_type destination)

  abbrev pub try_password : Request → Json → Url → String → Exec (World P) Reply
  try_password req password url hash = do
    same ← lift (P.compare_password password hash)
    if same then open_link req url else do unlock_failed url; pure (fail 401 "Incorrect password.")

  abbrev pub unlock_protected : Request → Json → Url → Option String → Exec (World P) Reply
  unlock_protected req password url none = pure (fail 400 "This link is not password protected.")
  unlock_protected req password url (some hash) =
      if not (is_safe_redirect_url P.url_protocol url.original_url)
      then pure (fail 400 "URL is not safe for redirect")
      else if expired setup.now url.expires_at
      then pure (fail 410 "This link has expired.")
      else try_password req password url hash

  abbrev pub unlock_found : Request → Json → Option Url → Exec (World P) Reply
  unlock_found req password none = pure (fail 404 "URL not found")
  unlock_found req password (some url) = unlock_protected req password url (given url.password_hash)

  abbrev pub unlock_with : Request → Option Json → Exec (World P) Reply
  unlock_with req none = pure (fail 400 "Password is required.")
  unlock_with req (some password) =
      if truthy password
      then catch (do found ← find_url P setup req.short_id; unlock_found req password found)
          (λ e. pure (fail 500 "Failed to unlock"))
      else pure (fail 400 "Password is required.")

  unfoldable pub unlock : Request → Exec (World P) Reply
  unlock req = unlock_with req req.password
