-- ===== src/Analytics/Creations.antt =====
-- The events that the creation of links publishes.
use bearlink.Prelude.{
  ℕ, zero, suc, String, Bool, true, false, Option, none, some, List, [], ◌∷◌, length, leb, refl,
  ◌⊎◌, inl, inr, if◌then◌else◌,
}
use bearlink.Prelude.Exec.{
  Result, ok, err, Exec, Failure, unique_violation, record_not_found, other, pure, catch, ◌>>=◌,
}
use bearlink.Shared.Json.{Json, bool, to_text, truthy, given}
use bearlink.Shared.Events.{url_created_message}
use bearlink.Messaging.Tracing.{get_message_options-IsTraced}
use bearlink.Url.Record.{Url}
use bearlink.Url.Platform.{Platform, Setup, World, with_channel, publish_event}
use bearlink.Url.Manage.{Body, Reply, fail, shortened, Config, Services}
use bearlink.Url.Manage.Checks.{Check}
use bearlink.Url.Manage.Create as Create
use bearlink.Url.Manage.Create.{Draft, sanitize_for_event, publish_preview_job}
use bearlink.Url.Manage.Bulk as Bulk
use Prim.Native.String.{◌++◌ as ◌<>◌}
use bearlink.Url.Redirect.{slug_of}
use bearlink.Url.Signed.{sign_url}
use bearlink.Analytics.{schema_of}
use bearlink.Analytics.Sending.{
  IsStorable, EventsQueue, Sends, Adds, Adds-trans, Sends-catch, Sends-if, Sends-nothing,
  Sends-bind, Sends-publish,
}

abbrev job_in : (P : Platform) (S : Services P) → Bool → ℕ → String → Exec (World P) (Unit {0})
job_in P S b id text w = if b then with_channel P (S.send_job id text w.channel) w else (ok tt, w)

module _ (P : Platform) (S : Services P) (Q : EventsQueue P S) (config : Config)
    (setup : Setup) where
  abbrev Safe : {A : Type 0} → Exec (World P) A → Type 0
  Safe run = Sends P S Q setup run

  silent : {A : Type 0} (r : Result A) → Safe (λ w. (r, w))
  silent r = Sends-nothing P S Q setup (λ w. (r, w)) (λ w. refl)

  created_fits :
      (url : Url)
      → IsStorable setup.context
          (url_created_message setup.context (sanitize_for_event P S config setup url))
  unfolding sanitize_for_event schema_of to_text
  created_fits url = (refl, (_, _, refl, refl), get_message_options-IsTraced setup.context)

  job : (id : ℕ) (text : String) → Safe (publish_preview_job P S config setup id text)
  unfolding publish_preview_job
  job id text = record { adds = λ w. go config.has_preview_jobs w }
    where
      go : (b : Bool) (w : World P) → Adds P S Q setup w (job_in P S b id text w).1
      go true w m there = inl (Q.job_adds id text m w.channel there)
      go false w m there = inl there

  attempt :
      (user : ℕ) (signature : Json) (d : Draft)
      → Safe (Create.attempt_insert P S config setup user signature d)
  attempt user signature d = Sends-nothing P S Q setup _ (λ w. refl)

  retried :
      (next : Exec (World P) Url) (e : Failure)
      → Safe next
      → Safe (Create.again P S config setup next e)
  retried next unique_violation h = h
  retried next record_not_found h = silent (err record_not_found)
  retried next other h = silent (err other)

  attempted :
      (left user : ℕ) (signature : Json) (d : Draft)
      → Safe (Create.attempts P S config setup left user signature d)
  attempted zero user signature d = silent (err other)
  attempted (suc zero) user signature d = attempt user signature d
  attempted (suc (suc left)) user signature d =
      let next = attempted (suc left) user signature d in
      Sends-catch P S Q setup (Create.attempt_insert P S config setup user signature d) _
        (attempt user signature d) (λ e. retried _ e next)

  taken : (e : Failure) → Safe (Create.taken_or_throw P S config setup e)
  taken unique_violation = silent _
  taken record_not_found = silent _
  taken other = silent _

  linked :
      (user : ℕ) (signature : Json) (d : Draft)
      → Safe (Create.insert_link P S config setup user signature d)
  linked user signature d = go d.custom_alias
    where
      go :
          (name : Option String)
          → Safe (elim name as (λ _. Exec (World P) (Reply ⊎ Url)) [
            | none ↦ do url ← Create.attempts P S config setup 3 user signature d; pure (inr url)
            | some n ↦
                catch
                  (do url ← Create.attempt_insert P S config setup user signature d; pure (inr url))
                  (Create.taken_or_throw P S config setup)
          ])
      go none =
          Sends-bind P S Q setup (Create.attempts P S config setup 3 user signature d) _
            (attempted 3 user signature d) (λ url. silent _)
      go (some n) =
          Sends-catch P S Q setup _ (Create.taken_or_throw P S config setup)
            (Sends-bind P S Q setup (Create.attempt_insert P S config setup user signature d) _
              (attempt user signature d) (λ url. silent _))
            taken

  signed_as :
      (r : Result String) (short_url : String)
      → Safe (do text ← Create.lift P S config setup r; pure (shortened short_url (some text)))
  signed_as r short_url =
      Sends-bind P S Q setup (Create.lift P S config setup r)
        (λ text. pure (shortened short_url (some text))) (silent r) (λ text. silent _)

  signed :
      (body : Body) (url : Url) (secret : Option String)
      → Safe (Create.sign_with P S config setup body url secret)
  signed body url none = silent _
  signed body url (some secret) =
      signed_as
        (sign_url P setup.now (setup.base_url <> "/" <> slug_of url) secret
          (Create.ttl_of P S config setup body.signed_ttl))
        (setup.base_url <> "/" <> slug_of url)

  announced :
      (body : Body) (signature : Json) (d : Draft) (made : Reply ⊎ Url)
      → Safe (Create.after_insert P S config setup body signature d made)
  announced body signature d (inl reply) = silent _
  announced body signature d (inr url) =
      Sends-bind P S Q setup
        (publish_event P
          (url_created_message setup.context (sanitize_for_event P S config setup url)))
        _ (Sends-publish P S Q setup _ (created_fits url))
        (λ _.
          Sends-bind P S Q setup (publish_preview_job P S config setup url.id d.original_url) _
            (job url.id d.original_url)
            (λ _.
              Sends-if P S Q setup (truthy signature) _ _
                (signed body url (given setup.url_signing_secret)) (signed body url none)))

  pub created-Sends :
      (user : ℕ) (body : Body) (checked : Check Draft)
      → Safe (Create.create_checked P S config setup user body checked)
  unfolding Create.save
  created-Sends user body (err e) = silent _
  created-Sends user body (ok (inl reply)) = silent _
  created-Sends user body (ok (inr d)) =
      let signature = Create.default_to (bool false) body.require_signature in
      Sends-catch P S Q setup _ (λ e. pure (fail 500 "Failed to shorten URL"))
        (Sends-bind P S Q setup (Create.insert_link P S config setup user signature d)
          (Create.after_insert P S config setup body signature d) (linked user signature d)
          (announced body signature d))
        (λ e. silent _)

  item_saved : (user : ℕ) (d : Draft) → Safe (Bulk.save_item P S config setup user d)
  unfolding Bulk.save_item
  item_saved user d =
      Sends-catch P S Q setup _ _
        (Sends-bind P S Q setup (Create.insert_link P S config setup user (bool false) d) _
          (linked user (bool false) d) after)
        (λ e. silent _)
    where
      after : (made : Reply ⊎ Url) → Safe (Bulk.after_item P S config setup d made)
      after (inl reply) = silent _
      after (inr url) =
          Sends-bind P S Q setup
            (publish_event P
              (url_created_message setup.context (sanitize_for_event P S config setup url)))
            _ (Sends-publish P S Q setup _ (created_fits url))
            (λ _.
              Sends-bind P S Q setup (publish_preview_job P S config setup url.id d.original_url) _
                (job url.id d.original_url) (λ _. silent _))

  item : (user : ℕ) (body : Body) → Safe (Bulk.create_item P S config setup user body)
  unfolding Bulk.create_item
  item user body = go (Bulk.item_draft_of P S config setup body)
    where
      go : (checked : Check Draft) → Safe (Bulk.item_checked P S config setup user checked)
      go (err e) = silent _
      go (ok (inl reply)) = silent _
      go (ok (inr d)) = item_saved user d

  items : (user : ℕ) (bodies : List Body) → Safe (Bulk.create_items P S config setup user bodies)
  items user [] = silent _
  items user (body ∷ bodies) = record { adds = both (items user bodies) }
    where
      both :
          Safe (Bulk.create_items P S config setup user bodies)
          → (w : World P)
          → Adds P S Q setup w (Bulk.create_items P S config setup user (body ∷ bodies) w).1
      both rest w =
          let first = (Bulk.create_item P S config setup user body w).1 in
          Adds-trans P S Q setup w first (Bulk.create_items P S config setup user bodies first).1
            ((item user body).adds w) (rest.adds first)

  pub bulk-Sends :
      (user : ℕ) (bodies : Option (List Body))
      → Safe (Bulk.create_urls_bulk P S config setup user bodies)
  unfolding Bulk.create_urls_bulk
  bulk-Sends user none = silent _
  bulk-Sends user (some []) = silent _
  bulk-Sends user (some (body ∷ bodies)) =
      Sends-if P S Q setup (leb (length (body ∷ bodies)) Bulk.bulk_max_items) _ _
        (Sends-bind P S Q setup (Bulk.create_items P S config setup user (body ∷ bodies)) _
          (items user (body ∷ bodies)) (λ rs. silent _))
        (silent _)
