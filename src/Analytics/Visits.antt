-- ===== src/Analytics/Visits.antt =====
-- The events that the visits of a link publish.
use bearlink.Prelude.{String, Bool, Option, none, some, [], ◌∷◌, ◌≡◌, refl, not, arith}
use bearlink.Prelude.Exec.{Result, ok, err, Exec, pure}
use bearlink.Shared.Json.{Json, to_text, truthy, given}
use bearlink.Shared.Events.{url_clicked_message}
use bearlink.Shared.Validation.{is_safe_redirect_url}
use bearlink.Messaging.Tracing.{get_message_options-IsTraced}
use bearlink.Url.Record.{Url}
use bearlink.Url.Platform.{Platform, Setup, World, increment_clicks, create_event, transact}
use bearlink.Url.Manage.{Services}
use bearlink.Url.Cache.{
  find_url, look_up, read_through, cached, dedup_key, is_unique_click, or_true,
}
use bearlink.Url.Page.{build_redirect_url}
use bearlink.Url.Redirect.Visitor.{Request, ClickMetadata, extract_click_metadata, is_bot}
use bearlink.Url.Redirect.{
  Reply, fail, moved, expired, click_payload, click_event, record_click, count_visit, finish,
  deliver, serve, refuse, redirect, lift, failed_event, unlock_failed, open_link, try_password,
  unlock_protected, unlock_found, unlock_with, unlock,
}
use bearlink.Analytics.{schema_of}
use bearlink.Analytics.Sending.{
  IsStorable, EventsQueue, Sends, Sends-catch, Sends-if, Sends-nothing, Sends-bind, Sends-publish,
}

module _ (P : Platform) (S : Services P) (Q : EventsQueue P S) (setup : Setup) where
  abbrev Safe : {A : Type 0} → Exec (World P) A → Type 0
  Safe run = Sends P S Q setup run

  silent : {A : Type 0} (r : Result A) → Safe (λ w. (r, w))
  silent r = Sends-nothing P S Q setup (λ w. (r, w)) (λ w. refl)

  clicked_fits :
      (url : Url) (visit : ClickMetadata)
      → IsStorable setup.context
          (url_clicked_message setup.context (click_payload P setup url visit))
  unfolding schema_of to_text
  clicked_fits url visit = (refl, (_, _, refl, refl), get_message_options-IsTraced setup.context)

  click : (url : Url) (visit : ClickMetadata) → Safe (record_click P setup url visit)
  unfolding record_click
  click url visit =
      Sends-bind P S Q setup
        (transact P
          (increment_clicks url.short_id ∷ create_event (click_event P setup url visit) ∷ []))
        _ (Sends-nothing P S Q setup _ (λ w. refl))
        (λ _. Sends-publish P S Q setup _ (clicked_fits url visit))

  read_through-channel :
      (slug : String) (r : Result (Option Url)) (w : World P)
      → (read_through P setup slug r w).1.channel ≡ w.channel
  read_through-channel slug (err e) w = refl
  read_through-channel slug (ok none) w = refl
  read_through-channel slug (ok (some url)) w = ground arith

  look_up-channel :
      (slug : String) (hit : Option Url) (w : World P)
      → (look_up P setup slug hit w).1.channel ≡ w.channel
  look_up-channel slug (some url) w = refl
  look_up-channel slug none w = read_through-channel slug (P.find_first slug w.db) w

  found : (slug : String) → Safe (find_url P setup slug)
  unfolding find_url
  found slug = Sends-nothing P S Q setup _ (λ w. look_up-channel slug (cached P setup slug w) w)

  or_true-channel : (r : Result Bool) (w : World P) → (or_true P setup (r, w)).1.channel ≡ w.channel
  or_true-channel (ok b) w = refl
  or_true-channel (err e) w = refl

  unique : (short_id ip : String) → Safe (is_unique_click P setup short_id ip)
  unfolding is_unique_click
  unique short_id ip = Sends-nothing P S Q setup _ (λ w.
      let asked = P.redis_set_nx (dedup_key setup.now short_id ip) "1" 3600 w.redis in
      let kept = or_true-channel asked.0 (record w { redis = asked.1 }) in ground arith)

  counted : (req : Request) (url : Url) → Safe (count_visit P setup req url)
  unfolding count_visit
  counted req url =
      let visit = extract_click_metadata P req in
      Sends-if P S Q setup (is_bot visit.user_agent) _ _ (silent _) (
        Sends-bind P S Q setup (is_unique_click P setup url.short_id visit.ip) _
          (unique url.short_id visit.ip)
          (λ first. Sends-if P S Q setup first _ _ (click url visit) (silent _)))

  finished :
      (req : Request) (url : Url) (destination : String) → Safe (finish P setup req url destination)
  finished req url destination = Sends-if P S Q setup req.preview_is_1 _ _ (silent _) (
      Sends-bind P S Q setup (count_visit P setup req url)
        (λ _. pure (moved url.redirect_type destination)) (counted req url) (λ _. silent _))

  delivered : (req : Request) (url : Url) → Safe (deliver P setup req url)
  unfolding deliver
  delivered req url =
      Sends-bind P S Q setup (lift P setup (build_redirect_url P url.original_url url.utm_params)) _
        (silent _) (λ destination. finished req url destination)

  served : (req : Request) (row : Option Url) → Safe (serve P setup req row)
  served req none = silent _
  served req (some url) = go (refuse P setup req url)
    where
      go :
          (refused : Option Reply)
          → Safe (elim refused as (λ _. Exec (World P) Reply) [
            | some reply ↦ pure reply
            | none ↦ deliver P setup req url
          ])
      go none = delivered req url
      go (some reply) = silent _

  pub redirect-Sends : (req : Request) → Safe (redirect P setup req)
  unfolding redirect
  redirect-Sends req =
      Sends-catch P S Q setup _ (λ e. pure (fail 500 "Failed to redirect"))
        (Sends-bind P S Q setup (find_url P setup req.short_id) (serve P setup req)
          (found req.short_id) (served req))
        (λ e. silent _)

  opened : (req : Request) (url : Url) → Safe (open_link P setup req url)
  unfolding open_link
  opened req url =
      Sends-bind P S Q setup (lift P setup (build_redirect_url P url.original_url url.utm_params)) _
        (silent _)
        (λ destination.
          Sends-bind P S Q setup (record_click P setup url (extract_click_metadata P req))
            (λ _. pure (moved url.redirect_type destination))
            (click url (extract_click_metadata P req)) (λ _. silent _))

  refused_note : (url : Url) → Safe (unlock_failed P setup url)
  refused_note url =
      Sends-catch P S Q setup (transact P (create_event (failed_event P setup url) ∷ []))
        (λ e. pure tt) (Sends-nothing P S Q setup _ (λ w. refl)) (λ e. silent _)

  tried :
      (req : Request) (password : Json) (url : Url) (hash : String)
      → Safe (try_password P setup req password url hash)
  tried req password url hash =
      Sends-bind P S Q setup (lift P setup (P.compare_password password hash)) _ (silent _) (λ same.
        Sends-if P S Q setup same _ _ (opened req url) (
          Sends-bind P S Q setup (unlock_failed P setup url)
            (λ _. pure (fail 401 "Incorrect password.")) (refused_note url) (λ _. silent _)))

  protected :
      (req : Request) (password : Json) (url : Url) (hash : Option String)
      → Safe (unlock_protected P setup req password url hash)
  protected req password url none = silent _
  protected req password url (some hash) =
      Sends-if P S Q setup (not (is_safe_redirect_url P.url_protocol url.original_url)) _ _
        (silent _)
        (Sends-if P S Q setup (expired setup.now url.expires_at) _ _ (silent _)
          (tried req password url hash))

  unlocked :
      (req : Request) (password : Json) (row : Option Url)
      → Safe (unlock_found P setup req password row)
  unlocked req password none = silent _
  unlocked req password (some url) = protected req password url (given url.password_hash)

  with_body : (req : Request) (password : Option Json) → Safe (unlock_with P setup req password)
  with_body req none = silent _
  with_body req (some password) =
      Sends-if P S Q setup (truthy password) _ _
        (Sends-catch P S Q setup _ (λ e. pure (fail 500 "Failed to unlock"))
          (Sends-bind P S Q setup (find_url P setup req.short_id)
            (unlock_found P setup req password) (found req.short_id) (unlocked req password))
          (λ e. silent _))
        (silent _)

  pub unlock-Sends : (req : Request) → Safe (unlock P setup req)
  unfolding unlock
  unlock-Sends req = with_body req req.password
