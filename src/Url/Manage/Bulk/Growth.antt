-- ===== src/Url/Manage/Bulk/Growth.antt =====
-- How the tables grow when links are created in bulk.
use bearlink.Prelude.{
  ℕ, ◌+◌, ◌≤◌, Bool, true, false, if◌then◌else◌, Option, none, some, List, [], ◌∷◌, ◌++◌, length,
  leb, ◌≡◌, refl, ◌⊎◌, inl, inr, sym, ap, ◌∙◌, arith, length-append,
}
use bearlink.Prelude.Exec.{Result, ok, err, Exec, continue, recover, pure, ◌>>=◌}
use mathlib.Core.Path.{subst}
use mathlib.Core.List.{append_assoc, append-nil, Memᴰ}
use mathlib.Core.List.Memᴰ
use bearlink.Shared.Json.{bool}
use bearlink.Url.Record.{Url, NewEvent}
use bearlink.Shared.Events.{url_created_message}
use bearlink.Url.Platform.{Platform, Setup, World, publish_event}
use bearlink.Url.Tables.{Tables, DbModel}
use bearlink.Url.Manage.{
  Body, Reply, fail, missing_fields, shortened, updated, no_content, Config, Services, IsLawful,
}
use bearlink.Url.Manage.Checks.{Check}
use bearlink.Url.Manage.Create.{
  Draft, created_event, insert_link, publish_preview_job, sanitize_for_event,
}
use bearlink.Url.Manage.Created.{Added, Linked, insert_link-Linked}
use bearlink.Url.Manage.Announcing.{continue-db, publish_event-db, job-db}
use bearlink.Url.Manage.Bulk.{
  ItemResult, BulkReply, refused, made, results, fail_all, error_of, collect, after_item, save_item,
  item_checked, item_draft_of, create_item, create_items, create_urls_bulk, answer_bulk,
  bulk_max_items,
}

-- New rows of a user, at least m and at most n, behind those that were there, and as many new events.
pub record Grows (user m n : ℕ) (t t' : Tables) : Type 0 where
  pub rows : List Url
  pub events : List NewEvent
  pub appended : t' ≡ record { urls = t.urls ++ rows; events = t.events ++ events }
  pub noted : length rows ≡ length events
  pub enough : m ≤ length rows
  pub bounded : length rows ≤ n
  pub owned : (u : Url) → Memᴰ u rows → u.user_id ≡ user

-- how many items an answer says are made
abbrev pub count_made : List ItemResult → ℕ
count_made [] = 0
count_made (refused text ∷ rs) = count_made rs
count_made (made link ∷ rs) = count_made rs + 1

abbrev pub told : Result BulkReply → ℕ
told (ok (results rs)) = count_made rs
told (ok (fail_all code text)) = 0
told (err e) = 0

abbrev told_of : Result (List ItemResult) → ℕ
told_of (ok rs) = count_made rs
told_of (err e) = 0

abbrev told_item : Result ItemResult → ℕ
told_item (ok (refused text)) = 0
told_item (ok (made link)) = 1
told_item (err e) = 0

same-Grows : (user n : ℕ) (t t' : Tables) → t' ≡ t → Grows user 0 n t t'
same-Grows user n t t' e = record {
  rows = [];
  events = [];
  appended = e ∙ sym (rw (append-nil t.urls, append-nil t.events) refl);
  noted = refl;
  enough = omega arith;
  bounded = omega arith;
  owned = λ u m. absurd (Memᴰ.not-nil m);
}

weaken-Grows :
    (user k m n n' : ℕ) (t t' : Tables)
    → k ≤ m
    → n ≤ n'
    → Grows user m n t t'
    → Grows user k n' t t'
weaken-Grows user k m n n' t t' less more g = record {
  rows = g.rows;
  events = g.events;
  appended = g.appended;
  noted = g.noted;
  enough = omega (arith, g.enough, less);
  bounded = omega (arith, g.bounded, more);
  owned = g.owned;
}

append-Grows :
    (user k l m n : ℕ) (t u v : Tables)
    → Grows user k m t u
    → Grows user l n u v
    → Grows user (k + l) (m + n) t v
append-Grows user k l m n t u v g h = record {
  rows = g.rows ++ h.rows;
  events = g.events ++ h.events;
  appended =
      h.appended
      ∙ rw (g.appended, append_assoc t.urls g.rows h.rows, append_assoc t.events g.events h.events)
          refl;
  noted =
      ground
        (arith, length-append g.rows h.rows, length-append g.events h.events, g.noted, h.noted);
  enough = ground (arith, length-append g.rows h.rows, g.enough, h.enough);
  bounded = ground (arith, length-append g.rows h.rows, g.bounded, h.bounded);
  owned = λ u m. elim (Memᴰ.append_cases g.rows m) [
    | inl first ↦ g.owned u first
    | inr later ↦ h.owned u later
  ];
}

module _ (P : Platform) (D : DbModel P) (S : Services P) (L : IsLawful P D S) (config : Config)
    (setup : Setup) where
  Added-Grows :
      (user m : ℕ) (d : Draft) (u : Url) (t t' : Tables)
      → m ≤ 1
      → Added P D S L config setup user (bool false) d u t t'
      → Grows user m 1 t t'
  Added-Grows user m d u t t' few (row, fresh, appended) = record {
    rows = u ∷ [];
    events = created_event P S config setup user d u ∷ [];
    appended = appended;
    noted = refl;
    enough = few;
    bounded = omega arith;
    owned = λ x m. elim (Memᴰ.cases_cons m) [
      | inl same ↦ ap (λ (y : Url). y.user_id) same ∙ row.user_id
      | inr m' ↦ absurd (Memᴰ.not-nil m')
    ];
  }

  after_item-db :
      (d : Draft) (url : Url) (w : World P)
      → (after_item P S config setup d (inr url) w).1.db ≡ w.db
  after_item-db d url w =
      continue-db P S config setup
        (publish_event P
          (url_created_message setup.context (sanitize_for_event P S config setup url)) w)
        _
        (λ _ v.
          continue-db P S config setup
            (publish_preview_job P S config setup url.id d.original_url v) _ (λ _ x. refl)
          ∙ job-db P S config setup url.id d.original_url v)
      ∙ publish_event-db P S config setup
          (url_created_message setup.context (sanitize_for_event P S config setup url)) w

  -- what a run that makes one item or refuses it does
  abbrev Tells : ℕ → Tables → Result ItemResult × World P → Type 0
  Tells user t result = Grows user (told_item result.0) 1 t (D.tables result.1.db)

  told_item-few : (r : Result ItemResult) → told_item r ≤ 1
  told_item-few (ok (refused text)) = omega arith
  told_item-few (ok (made link)) = omega arith
  told_item-few (err e) = omega arith

  told-error_of : (r : Reply) → told_item (ok (error_of r)) ≡ 0
  told-error_of (fail code text) = refl
  told-error_of (missing_fields fields) = refl
  told-error_of (shortened short_url signed) = refl
  told-error_of (updated url) = refl
  told-error_of no_content = refl

  unchanged :
      (user : ℕ) (t : Tables) (r : Result ItemResult) (w : World P)
      → told_item r ≡ 0
      → D.tables w.db ≡ t
      → Tells user t (r, w)
  unchanged user t r w silent same =
      weaken-Grows user (told_item r) 0 1 1 t (D.tables w.db) (omega (arith, silent)) (omega arith)
        (same-Grows user 1 t (D.tables w.db) same)

  save_item-Tells :
      (user : ℕ) (d : Draft) (w : World P)
      → Tells user (D.tables w.db) (save_item P S config setup user d w)
  unfolding save_item
  save_item-Tells user d w =
      caught
        (continue (insert_link P S config setup user (bool false) d w)
          (after_item P S config setup d))
        (linked (insert_link P S config setup user (bool false) d w)
          (insert_link-Linked P D S L config setup user (bool false) d w))
    where
      t : Tables
      t = D.tables w.db

      caught :
          (result : Result ItemResult × World P)
          → Tells user t result
          → Tells user t (recover result (λ e. pure (refused "Failed to shorten URL")))
      caught (ok r, v) h = h
      caught (err e, v) h = h

      announced :
          (u : Url) (v : World P) (result : Result ItemResult × World P)
          → result.1.db ≡ v.db
          → Added P D S L config setup user (bool false) d u t (D.tables v.db)
          → Tells user t result
      announced u v result kept done =
          Added-Grows user (told_item result.0) d u t (D.tables result.1.db)
            (told_item-few result.0)
            (subst (λ (db : P.Db). Added P D S L config setup user (bool false) d u t (D.tables db))
              (sym kept) done)

      linked :
          (link : Result (Reply ⊎ Url) × World P)
          → Linked P D S L config setup user (bool false) d t link
          → Tells user t (continue link (after_item P S config setup d))
      linked (ok (inl reply), v) (inl (kept, unmade)) =
          unchanged user t (ok (error_of reply)) v (told-error_of reply) kept
      linked (ok (inl reply), v) (inr (u, is, done)) = absurd (ground arith)
      linked (ok (inr u), v) (inl (kept, unmade)) = absurd (unmade u refl)
      linked (ok (inr u), v) (inr (x, is, done)) =
          announced x v (after_item P S config setup d (inr u) v) (after_item-db d u v) done
      linked (err e, v) (inl (kept, unmade)) = unchanged user t (err e) v refl kept
      linked (err e, v) (inr (u, is, done)) = absurd (ground arith)

  create_item-Tells :
      (user : ℕ) (body : Body) (w : World P)
      → Tells user (D.tables w.db) (create_item P S config setup user body w)
  unfolding create_item
  create_item-Tells user body w = go (item_draft_of P S config setup body)
    where
      go :
          (checked : Check Draft)
          → Tells user (D.tables w.db) (item_checked P S config setup user checked w)
      go (err e) = unchanged user (D.tables w.db) (err e) w refl refl
      go (ok (inl reply)) =
          unchanged user (D.tables w.db) (ok (error_of reply)) w (told-error_of reply) refl
      go (ok (inr d)) = save_item-Tells user d w

  told-collect :
      (r : Result ItemResult) (rs : Result (List ItemResult))
      → told_of (collect P S config setup r rs) ≤ told_item r + told_of rs
  told-collect (ok (refused text)) (ok rs) = omega arith
  told-collect (ok (made link)) (ok rs) = omega arith
  told-collect (ok r) (err e) = omega arith
  told-collect (err e) rs = omega arith

  create_items-Grows :
      (user : ℕ) (items : List Body) (w : World P)
      → Grows user
          (told_of (create_items P S config setup user items w).0)
          (length items)
          (D.tables w.db)
          (D.tables (create_items P S config setup user items w).1.db)
  create_items-Grows user [] w = same-Grows user 0 (D.tables w.db) (D.tables w.db) refl
  create_items-Grows user (item ∷ items) w =
      let first = create_item P S config setup user item w in
      let rest = create_items P S config setup user items first.1 in
      weaken-Grows user (told_of (collect P S config setup first.0 rest.0))
        (told_item first.0 + told_of rest.0) (1 + length items) (length (item ∷ items))
        (D.tables w.db) (D.tables rest.1.db) (told-collect first.0 rest.0) (omega arith)
        (append-Grows user (told_item first.0) (told_of rest.0) 1 (length items) (D.tables w.db)
          (D.tables first.1.db) (D.tables rest.1.db) (create_item-Tells user item w)
          (create_items-Grows user items first.1))

  -- `createUrlsBulk` puts new rows of the user behind those that were there, and as many new events:
  -- at most 50, whatever the body holds and whatever fails, and at least as many as the items that its
  -- answer gives a short URL for.
  pub bulk_Grows :
      (user : ℕ) (items : Option (List Body)) (w : World P)
      → Grows user
          (told (create_urls_bulk P S config setup user items w).0)
          50
          (D.tables w.db)
          (D.tables (create_urls_bulk P S config setup user items w).1.db)
  unfolding create_urls_bulk
  bulk_Grows user none w = same-Grows user 50 (D.tables w.db) (D.tables w.db) refl
  bulk_Grows user (some []) w = same-Grows user 50 (D.tables w.db) (D.tables w.db) refl
  bulk_Grows user (some (item ∷ items)) w = go (leb (length (item ∷ items)) bulk_max_items) refl
    where
      limited : Bool → Exec (World P) BulkReply
      limited few =
          if few
          then (do
            rs ← create_items P S config setup user (item ∷ items)
            answer_bulk P S config setup rs)
          else pure (fail_all 400 "Bulk create is limited to 50 URLs per request.")

      answered :
          (result : Result (List ItemResult) × World P)
          → Grows user (told_of result.0) 50 (D.tables w.db) (D.tables result.1.db)
          → Grows user
              (told (continue result (answer_bulk P S config setup)).0)
              50
              (D.tables w.db)
              (D.tables (continue result (answer_bulk P S config setup)).1.db)
      answered (ok rs, v) h = h
      answered (err e, v) h = h

      go :
          (few : Bool)
          → leb (length (item ∷ items)) bulk_max_items ≡ few
          → Grows user (told (limited few w).0) 50 (D.tables w.db) (D.tables (limited few w).1.db)
      go false many = same-Grows user 50 (D.tables w.db) (D.tables w.db) refl
      go true few =
          let all = create_items P S config setup user (item ∷ items) w in
          answered all (
            weaken-Grows user (told_of all.0) (told_of all.0) (length (item ∷ items)) 50
              (D.tables w.db) (D.tables all.1.db) (omega arith) (ground arith)
              (create_items-Grows user (item ∷ items) w))
