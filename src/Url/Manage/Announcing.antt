-- ===== src/Url/Manage/Announcing.antt =====
-- What createUrl does once its transaction is committed.
use bearlink.Prelude.{
  ℕ, String, Option, none, some, ◌≡◌, refl, inl, inr, ◌∙◌, arith, Bool-cases, if◌then◌else◌,
}
use bearlink.Prelude.Exec.{Result, ok, err, Exec, continue}
use bearlink.Shared.Json.{Json, truthy, given}
use bearlink.Url.Record.{Url}
use bearlink.Shared.Events.{Message, url_created_message}
use bearlink.Url.Platform.{Platform, Setup, World, publish_event}
use bearlink.Url.Manage.{Body, Config, Services}
use bearlink.Url.Manage.Create.{Draft, publish_preview_job, announce, sign_with, sanitize_for_event}

module _ (P : Platform) (S : Services P) (config : Config) (setup : Setup) where
  -- what follows the transaction leaves the database alone
  pub publish_event-db : (m : Message) (w : World P) → (publish_event P m w).1.db ≡ w.db
  unfolding publish_event
  publish_event-db m w = refl

  pub job-db :
      (id : ℕ) (text : String) (w : World P)
      → (publish_preview_job P S config setup id text w).1.db ≡ w.db
  unfolding publish_preview_job
  job-db id text w = ground arith

  pub continue-db :
      {A B : Type 0} (result : Result A × World P) (f : A → Exec (World P) B)
      → ((a : A) (v : World P) → (f a v).1.db ≡ v.db)
      → (continue result f).1.db ≡ result.1.db
  continue-db (ok a, v) f keeps = keeps a v
  continue-db (err e, v) f keeps = refl

  sign_with-db :
      (body : Body) (url : Url) (secret : Option String) (w : World P)
      → (sign_with P S config setup body url secret w).1.db ≡ w.db
  sign_with-db body url none w = refl
  sign_with-db body url (some secret) w = continue-db _ _ (λ signed v. refl)

  pub announce-db :
      (body : Body) (signature : Json) (d : Draft) (url : Url) (w : World P)
      → (announce P S config setup body signature d url w).1.db ≡ w.db
  announce-db body signature d url w =
      let sent =
        publish_event P
          (url_created_message setup.context (sanitize_for_event P S config setup url)) in
      continue-db (sent w) _ (λ _ v.
        continue-db (publish_preview_job P S config setup url.id d.original_url v) _
          (λ _ u. signed u)
        ∙ job-db url.id d.original_url v)
      ∙ publish_event-db
          (url_created_message setup.context (sanitize_for_event P S config setup url)) w
    where
      signed :
          (u : World P)
          → ((if truthy signature
                then sign_with P S config setup body url (given setup.url_signing_secret)
                else sign_with P S config setup body url none)
              u).1.db
            ≡ u.db
      signed u = elim (Bool-cases (truthy signature)) [
        | inl wanted ↦ rw wanted (sign_with-db body url (given setup.url_signing_secret) u)
        | inr unwanted ↦ rw unwanted refl
      ]
