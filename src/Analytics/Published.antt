-- ===== src/Analytics/Published.antt =====
-- The events that the handlers of the URL service publish.
use bearlink.Prelude.{
  ℕ, String, Bool, true, false, Option, none, some, List, ◌≡◌, refl, inl, inr, if◌then◌else◌,
}
use bearlink.Prelude.Exec.{
  Result, ok, err, Exec, Failure, unique_violation, record_not_found, other, pure,
}
use bearlink.Shared.Json.{Number, to_text}
use bearlink.Shared.Events.{url_updated_message, url_deleted_message}
use bearlink.Shared.Numbers.{parse_int}
use bearlink.Messaging.Tracing.{get_message_options-IsTraced}
use bearlink.Url.Record.{Url}
use bearlink.Url.Platform.{Platform, Setup, World, publish_event}
use bearlink.Url.Manage.{Body, Changes, updated, no_content, Config, Services, in_transaction}
use bearlink.Url.Manage.Checks.{Check}
use bearlink.Url.Manage.Create as Create
use bearlink.Url.Manage.Create.{sanitize_for_event}
use bearlink.Url.Manage.Bulk as Bulk
use bearlink.Url.Manage.Change as Change
use bearlink.Url.Redirect.Visitor.{Request}
use bearlink.Url.Redirect.{redirect, unlock}
use bearlink.Analytics.Creations.{created-Sends, bulk-Sends}
use bearlink.Analytics.Visits.{redirect-Sends, unlock-Sends}
use bearlink.Url.Cache.{cache_keys, invalidate_url_cache}
use bearlink.Analytics.{schema_of}
use bearlink.Analytics.Sending.{
  IsStorable, EventsQueue, Sends, Adds, Sends-catch, Sends-nothing, Sends-bind, Sends-publish,
}

module _ (P : Platform) (S : Services P) (Q : EventsQueue P S) (config : Config)
    (setup : Setup) where
  abbrev Safe : {A : Type 0} → Exec (World P) A → Type 0
  Safe run = Sends P S Q setup run

  silent : {A : Type 0} (r : Result A) → Safe (λ w. (r, w))
  silent r = Sends-nothing P S Q setup (λ w. (r, w)) (λ w. refl)

  updated_fits :
      (url : Url)
      → IsStorable setup.context
          (url_updated_message setup.context (sanitize_for_event P S config setup url))
  unfolding sanitize_for_event schema_of to_text
  updated_fits url = (refl, (_, _, refl, refl), get_message_options-IsTraced setup.context)

  deleted_fits :
      (url : Url)
      → IsStorable setup.context
          (url_deleted_message setup.context (sanitize_for_event P S config setup url))
  unfolding sanitize_for_event schema_of to_text
  deleted_fits url = (refl, (_, _, refl, refl), get_message_options-IsTraced setup.context)

  forgotten : (url : Url) → Safe (Change.invalidate P S config setup url)
  unfolding invalidate_url_cache
  forgotten url = Sends-nothing P S Q setup _ (λ w. go setup.has_redis w)
    where
      go :
          (b : Bool) (w : World P)
          → (if◌then◌else◌ {A = World P} b
              (record w { redis = (P.redis_del (cache_keys url) w.redis).1 })
              w).channel
            ≡ w.channel
      go true w = refl
      go false w = refl

  after_update : (url : Url) → Safe (Change.after_update P S config setup url)
  after_update url =
      Sends-bind P S Q setup (Change.invalidate P S config setup url) _ (forgotten url) (λ _.
        Sends-bind P S Q setup
          (publish_event P
            (url_updated_message setup.context (sanitize_for_event P S config setup url)))
          (λ _. pure (updated url)) (Sends-publish P S Q setup _ (updated_fits url))
          (λ _. silent _))

  update_failed : (e : Failure) → Safe (Change.update_failed P S config setup e)
  update_failed unique_violation = silent _
  update_failed record_not_found = silent _
  update_failed other = silent _

  after_delete : (url : Url) → Safe (Change.after_delete P S config setup url)
  after_delete url =
      Sends-bind P S Q setup (Change.invalidate P S config setup url) _ (forgotten url) (λ _.
        Sends-bind P S Q setup
          (publish_event P
            (url_deleted_message setup.context (sanitize_for_event P S config setup url)))
          (λ _. pure (no_content)) (Sends-publish P S Q setup _ (deleted_fits url)) (λ _. silent _))

  delete_failed : (e : Failure) → Safe (Change.delete_failed P S config setup e)
  delete_failed unique_violation = silent _
  delete_failed record_not_found = silent _
  delete_failed other = silent _

  url_updated :
      (user : ℕ) (id : String) (body : Body)
      → Safe (Change.update_url P S config setup user id body)
  unfolding Change.update_url
  url_updated user id body = go (Change.changes_of P S config setup id body)
    where
      go :
          (checked : Check (Number × Changes))
          → Safe (Change.update_checked P S config setup user checked)
      go (err e) = silent _
      go (ok (inl reply)) = silent _
      go (ok (inr (n, c))) =
          Sends-catch P S Q setup _ (Change.update_failed P S config setup)
            (Sends-bind P S Q setup
              (in_transaction P S (Change.update_both P S config setup user n c))
              (Change.after_update P S config setup) (Sends-nothing P S Q setup _ (λ w. refl))
              after_update)
            update_failed

  deleted : (user : ℕ) (id : String) → Safe (Change.delete_url P S config setup user id)
  unfolding Change.delete_url
  deleted user id = go (parse_int id)
    where
      go : (n : Option Number) → Safe (Change.delete_checked P S config setup user n)
      go none = silent _
      go (some n) =
          Sends-catch P S Q setup _ (Change.delete_failed P S config setup)
            (Sends-bind P S Q setup
              (in_transaction P S (Change.delete_both P S config setup user n))
              (Change.after_delete P S config setup) (Sends-nothing P S Q setup _ (λ w. refl))
              after_delete)
            delete_failed

  -- Every message that `createUrl`, `createUrlsBulk`, `updateUrl`, `deleteUrl`, `redirect` and `unlock`
  -- put on the events queue is one that the analytics service stores, for every request and state: its
  -- type is known, its payload has the required fields, and its consumer runs with the correlation id
  -- of the request, if that had one, and knows the service it comes from. It is assumed that a send
  -- adds its own message to the queue at most, and that preview jobs go to a queue of their own.
  pub published_events_fit :
      (user : ℕ) (id : String) (body : Body) (bodies : Option (List Body)) (req : Request)
      (w : World P)
      → Adds P S Q setup w (Create.create_url P S config setup user body w).1
        × Adds P S Q setup w (Bulk.create_urls_bulk P S config setup user bodies w).1
        × Adds P S Q setup w (Change.update_url P S config setup user id body w).1
        × Adds P S Q setup w (Change.delete_url P S config setup user id w).1
        × Adds P S Q setup w (redirect P setup req w).1
        × Adds P S Q setup w (unlock P setup req w).1
  unfolding Create.create_url
  published_events_fit user id body bodies req w = (
    (created-Sends P S Q config setup user body (Create.draft_of P S config setup body)).adds w,
    (bulk-Sends P S Q config setup user bodies).adds w,
    (url_updated user id body).adds w,
    (deleted user id).adds w,
    (redirect-Sends P S Q setup req).adds w,
    (unlock-Sends P S Q setup req).adds w,
  )
