-- ===== src/Analytics/Tests.antt =====
-- Runs of the analytics service.
use bearlink.Prelude.{
  ℕ, ◌+◌, ◌-◌, String, not, Option, none, some, List, [], ◌∷◌, ◌++◌, select, length, str_eq, ltb,
  ◌≤◌, ◌≡◌, refl, arith, if◌then◌else◌,
}
use bearlink.Prelude.Exec.{Result, ok, err, Failure, other}
use bearlink.Shared.Json.{Json, null, str, object, to_text}
use bearlink.Messaging.Consumer.{acked, nacked, consume_event}
use bearlink.Analytics.{Event, EventTable, IsLawful, schema_of, handle_event}
use bearlink.Analytics.Storing.{rows_after, analytics_stores}
use bearlink.Analytics.Counts.{from_date}

-- a table that takes events of texts with a payload
abbrev add : Option Json → Option Json → List Event → Result (Unit {0}) × List Event
add (some (str type)) (some payload) rows =
    (ok tt, rows ++ record { type = type; payload = payload; created_at = 0 } ∷ [])
add _ payload rows = (err other, rows)

abbrev keep : ℕ → List Event → List Event
keep cutoff = select (λ (e : Event). not (ltb e.created_at cutoff))

abbrev table : EventTable
table = record {
  Db = List Event;
  create = add;
  delete_before = λ cutoff rows. (ok (length rows - length (keep cutoff rows)), keep cutoff rows);
}

add_ok :
    (type payload : Option Json) (rows rows' : List Event)
    → add type payload rows ≡ (ok tt, rows')
    → (name : String) × (value : Json) × (at : ℕ) × (type ≡ some (str name))
      × (payload ≡ some value)
      × (rows' ≡ rows ++ record { type = name; payload = value; created_at = at } ∷ [])
add_ok (some (str name)) (some value) rows rows' h = (name, value, 0, refl, refl, ground arith)
add_ok type payload rows rows' h = absurd (ground arith)

add_err :
    (type payload : Option Json) (rows rows' : List Event) (e : Failure)
    → add type payload rows ≡ (err e, rows')
    → rows' ≡ rows
add_err (some (str name)) (some value) rows rows' e h = absurd (ground arith)
add_err type payload rows rows' e h = ground arith

keep-shorter : (cutoff : ℕ) (rows : List Event) → length (keep cutoff rows) ≤ length rows
keep-shorter cutoff [] = omega arith
keep-shorter cutoff (e ∷ rows) = ground (arith, keep-shorter cutoff rows)

keep_ok :
    (cutoff n : ℕ) (rows rows' : List Event)
    → ◌≡◌ {A = Result ℕ × List Event}
        (ok (length rows - length (keep cutoff rows)), keep cutoff rows)
        (ok n, rows')
    → (rows' ≡ keep cutoff rows) × (n + length rows' ≡ length rows)
keep_ok cutoff n rows rows' h =
    let same : rows' ≡ keep cutoff rows = cc in
    let count : n ≡ length rows - length (keep cutoff rows) = cc in
    (same, rw (same, count) (omega (arith, keep-shorter cutoff rows)))

laws : IsLawful table
laws = record { rows = λ rows. rows; create_ok = add_ok; create_err = add_err; delete_ok = keep_ok }

abbrev click : Json
click = object (("shortId", some (str "abc")) ∷ [])

abbrev click_event : Json
click_event = object (("type", some (str "url_clicked")) ∷ ("payload", some click) ∷ [])

abbrev parse_text : String → Option Json
parse_text text = if str_eq text "click" then some click_event else none

storing_tests :
    (consume_event {S = List Event} parse_text (handle_event table) "click" []
      ≡ (acked, record { type = "url_clicked"; payload = click; created_at = 0 } ∷ []))
    × (consume_event {S = List Event} parse_text (handle_event table) "?" [] ≡ (nacked, []))
    × ((handle_event table (some (str "constructor")) (some click) []).1 ≡ [])
    × ((handle_event table (some (str "url_clicked")) (some null) []).1 ≡ [])
    × (from_date 172800001 (some "1d") ≡ 86400001)
    × (from_date 172800001 (some "1w") ≡ 0)
unfolding consume_event handle_event schema_of to_text from_date
storing_tests = (refl, refl, refl, refl, refl, refl)

analytics_stores_example :
    ((consume_event parse_text (handle_event table) "click" []).0 ≡ acked)
    × ((consume_event parse_text (handle_event table) "click" []).1
        ≡ rows_after table laws (some (str "url_clicked")) (some click) [])
unfolding consume_event laws
analytics_stores_example =
    analytics_stores table laws parse_text "click" click_event (some (str "url_clicked"))
      (some click) [] refl refl
