-- ===== src/Url/Manage/Memory.antt =====
-- The calls of the urls controller over the platform in memory.
use mathlib.Core.Path.{subst, subst₂}
use mathlib.Core.Option.{some-injective}
use bearlink.Prelude.{
  inl, inr, Bool-cases, ℕ, ◌+◌, String, Bool, true, false, Option, none, some, List, [], ◌∷◌, ◌++◌,
  str_eq, eq_iff, ◌==◌, ==_iff, ◌&&◌, ◌≡◌, ◌≢◌, refl, sym, ap, ◌∙◌, arith, length, if◌then◌else◌,
}
use Prim.Native.String.{◌++◌ as ◌<>◌}
use bearlink.Prelude.Exec.{Result, ok, err, unique_violation, record_not_found, other}
use bearlink.Prelude.Text.Decimal.{show}
use mathlib.Core.List.{Memᴰ}
use bearlink.Shared.Json.{Json, null, bool, num, str, arr, obj, Number, nat, negative, fraction}
use bearlink.Url.Record.{Url, NewEvent}
use bearlink.Url.Tables.{Tables}
use bearlink.Url.Memory.{memory, memory_model}
use bearlink.Url.Manage.{NewUrl, Changes, Services, IsLawful, Holds, put, drop}

abbrev row_of : NewUrl → Bool → ℕ → Url
row_of n signed id = record {
  id = id;
  original_url = n.original_url;
  short_id = n.short_id;
  custom_alias = n.custom_alias;
  redirect_type = n.redirect_type;
  expires_at = n.expires_at;
  password_hash = n.password_hash;
  tags = n.tags;
  utm_params = n.utm_params;
  require_signature = signed;
  clicks = 0;
  created_at = 1;
  user_id = n.user_id;
  preview_title = none;
  preview_description = none;
  preview_image_url = none;
  preview_fetched_at = none;
}

abbrev has_short_id : String → List Url → Bool
has_short_id s [] = false
has_short_id s (u ∷ us) = if str_eq u.short_id s then true else has_short_id s us

has_short_id-none :
    (s : String) (us : List Url) (v : Url) → has_short_id s us ≡ false → Memᴰ v us → v.short_id ≢ s
has_short_id-none s [] v h m = elim m [ ]
has_short_id-none s (u ∷ us) v h (Memᴰ.head same) =
    λ e. ground (arith, eq_iff u.short_id s, sym (ap (λ (x : Url). x.short_id) same) ∙ e)
has_short_id-none s (u ∷ us) v h (Memᴰ.tail m) = has_short_id-none s us v (ground arith) m

abbrev insert_row : NewUrl → Bool → Tables → Result Url × Tables
insert_row n signed t = if has_short_id n.short_id t.urls then (err unique_violation, t) else (
  ok (row_of n signed (length t.urls + 1)),
  record t { urls = t.urls ++ row_of n signed (length t.urls + 1) ∷ [] },
)

-- the column of a Boolean takes nothing else
abbrev insert_typed : NewUrl → Json → Tables → Result Url × Tables
insert_typed n (bool signed) t = insert_row n signed t
insert_typed n _ t = (err other, t)

abbrev is_number : Number → ℕ → Bool
is_number (nat n) m = n == m
is_number (negative n) m = false
is_number (fraction s) m = false

abbrev find_own : ℕ → Number → List Url → Option Url
find_own user id [] = none
find_own user id (u ∷ us) =
    if u.user_id == user && is_number id u.id then some u else find_own user id us

abbrev Own : ℕ → Number → List Url → Url → Type 0
Own user id us u = Memᴰ u us × (u.user_id ≡ user) × (id ≡ nat u.id)

is_number_eq : (id : Number) (m : ℕ) → is_number id m ≡ true → id ≡ nat m
is_number_eq (nat n) m h = ap nat ((==_iff n m).0 h)
is_number_eq (negative n) m h = absurd (ground arith)
is_number_eq (fraction s) m h = absurd (ground arith)

find_own-Own :
    (user : ℕ) (id : Number) (us : List Url) (u : Url)
    → find_own user id us ≡ some u
    → Own user id us u
find_own-Own user id [] u h = absurd (ground arith)
find_own-Own user id (v ∷ us) u h = elim (Bool-cases (v.user_id == user && is_number id v.id)) [
  | inl here ↦
      let same : v ≡ u = some-injective v u (rw (here, find_own) at h) in
      subst (Own user id (v ∷ us)) same (
        Memᴰ.head refl,
        (==_iff v.user_id user).0 (ground arith),
        is_number_eq id v.id (ground arith),
      )
  | inr later ↦
      let (m, owner, named) = find_own-Own user id us u (rw (later, find_own) at h) in
      (Memᴰ.tail m, owner, named)
]

abbrev changed : Changes → Url → Url
changed c u = record u { original_url = c.original_url }

abbrev replace_row : Changes → Option Url → Tables → Result Url × Tables
replace_row c none t = (err record_not_found, t)
replace_row c (some u) t = (ok (changed c u), record t { urls = put (changed c u) t.urls })

abbrev drop_row : Option Url → Tables → Result Url × Tables
drop_row none t = (err record_not_found, t)
drop_row (some u) t = (ok u, record t { urls = drop u t.urls })

abbrev hash_text : Json → Result String
hash_text (str s) = ok ("hash:" <> s)
hash_text _ = err other

abbrev pub services : Services memory
services = record {
  create_url = λ n t. insert_typed n n.require_signature t;
  update_url = λ user id c t. replace_row c (find_own user id t.urls) t;
  delete_url = λ user id t. drop_row (find_own user id t.urls) t;
  find_own = λ user id t. ok (find_own user id t.urls);
  insert_event = λ e t. (ok tt, record t { events = t.events ++ e ∷ [] });
  commit = λ before inside. (ok tt, inside);
  hostname_of = λ text. some "example.org";
  threat_matches = λ key text. ok 0;
  time_of = λ value. none;
  date_text = show;
  hash_password = hash_text;
  generate_id = λ k. "id" <> show k;
  send_job = λ id text sent.
      (ok tt, sent ++ record { queue = "preview_jobs"; content = str text; headers = [] } ∷ []);
}

insert_row_lem :
    (n : NewUrl) (signed : Bool) (t t' : Tables) (u : Url)
    → n.require_signature ≡ bool signed
    → insert_row n signed t ≡ (ok u, t')
    → Holds n u
      × (t' ≡ record t { urls = t.urls ++ u ∷ [] })
      × ((v : Url) → Memᴰ v t.urls → v.short_id ≢ n.short_id)
insert_row_lem n signed t t' u typed h = elim (Bool-cases (has_short_id n.short_id t.urls)) [
  | inl taken ↦ absurd (ground arith)
  | inr free ↦
      let eq = rw (free, insert_row) at h in
      let same : row_of n signed (length t.urls + 1) ≡ u = ground arith in
      let rows : record t { urls = t.urls ++ row_of n signed (length t.urls + 1) ∷ [] } ≡ t' =
        ground arith in
      (
        subst (Holds n) same (record {
          original_url = refl;
          short_id = refl;
          custom_alias = refl;
          user_id = refl;
          redirect_type = refl;
          expires_at = refl;
          password_hash = refl;
          tags = refl;
          utm_params = refl;
          require_signature = typed;
          clicks = refl;
        }),
        sym rows ∙ ap (λ (x : Url). record t { urls = t.urls ++ x ∷ [] }) same,
        λ v m. has_short_id-none n.short_id t.urls v free m,
      )
]

insert_typed_lem :
    (n : NewUrl) (signature : Json) (t t' : Tables) (u : Url)
    → n.require_signature ≡ signature
    → insert_typed n signature t ≡ (ok u, t')
    → Holds n u
      × (t' ≡ record t { urls = t.urls ++ u ∷ [] })
      × ((v : Url) → Memᴰ v t.urls → v.short_id ≢ n.short_id)
insert_typed_lem n (bool signed) t t' u typed h = insert_row_lem n signed t t' u typed h
insert_typed_lem n null t t' u typed h = absurd (ground arith)
insert_typed_lem n (num x) t t' u typed h = absurd (ground arith)
insert_typed_lem n (str x) t t' u typed h = absurd (ground arith)
insert_typed_lem n (arr x) t t' u typed h = absurd (ground arith)
insert_typed_lem n (obj x) t t' u typed h = absurd (ground arith)

abbrev Replaces : ℕ → Number → Changes → Tables → Url → Tables → Type 0
Replaces user id c t u t' =
    (old : Url) × Memᴰ old t.urls
    × (old.user_id ≡ user)
    × (id ≡ nat old.id)
    × (u.id ≡ old.id)
    × (u.short_id ≡ old.short_id)
    × (u.clicks ≡ old.clicks)
    × (u.user_id ≡ old.user_id)
    × (u.original_url ≡ c.original_url)
    × (t' ≡ record t { urls = put u t.urls })

replace_row_lem :
    (user : ℕ) (id : Number) (c : Changes) (t t' : Tables) (u : Url) (found : Option Url)
    → find_own user id t.urls ≡ found
    → replace_row c found t ≡ (ok u, t')
    → Replaces user id c t u t'
replace_row_lem user id c t t' u none e h = absurd (ground arith)
replace_row_lem user id c t t' u (some old) e h =
    let (m, owner, named) = find_own-Own user id t.urls old e in
    let same : changed c old ≡ u = ground arith in
    let rows : record t { urls = put (changed c old) t.urls } ≡ t' = ground arith in
    subst₂ (Replaces user id c t) same rows
      (old, m, owner, named, refl, refl, refl, refl, refl, refl)

drop_row_lem :
    (user : ℕ) (id : Number) (t t' : Tables) (u : Url) (found : Option Url)
    → find_own user id t.urls ≡ found
    → drop_row found t ≡ (ok u, t')
    → Memᴰ u t.urls
      × (u.user_id ≡ user)
      × (id ≡ nat u.id)
      × (t' ≡ record t { urls = drop u t.urls })
drop_row_lem user id t t' u none e h = absurd (ground arith)
drop_row_lem user id t t' u (some old) e h =
    let (m, owner, named) = find_own-Own user id t.urls old e in
    let same : old ≡ u = ground arith in
    let rows : record t { urls = drop old t.urls } ≡ t' = ground arith in
    subst₂
      (λ (x : Url) (y : Tables).
        Memᴰ x t.urls
        × (x.user_id ≡ user)
        × (id ≡ nat x.id)
        × (y ≡ record t { urls = drop x t.urls }))
      same rows (m, owner, named, refl)

noted_lem :
    (e : NewEvent) (t t' : Tables)
    → ◌≡◌ {A = Result (Unit {0}) × Tables}
        (ok tt, record t { events = t.events ++ e ∷ [] })
        (ok tt, t')
    → t' ≡ record t { events = t.events ++ e ∷ [] }
noted_lem e t t' h = ground arith

pub services-IsLawful : IsLawful memory memory_model services
services-IsLawful = record {
  create_ok = λ n t t' u h. insert_typed_lem n n.require_signature t t' u refl h;
  update_ok =
      λ user id c t t' u h. replace_row_lem user id c t t' u (find_own user id t.urls) refl h;
  delete_ok = λ user id t t' u h. drop_row_lem user id t t' u (find_own user id t.urls) refl h;
  find_own_ok = λ user id t u h. find_own-Own user id t.urls u (ground arith);
  event_err = λ e t t' f h. absurd (ground arith);
  event_ok = λ e t t' h. noted_lem e t t' h;
  commit_ok = λ before inside t h. sym (ap (λ (r : Result (Unit {0}) × Tables). r.1) h);
  commit_err = λ before inside t e h. absurd (ground arith);
}
