-- ===== src/Analytics/Storing.antt =====
-- What the analytics service makes of a message.
use bearlink.Prelude.{
  String, Bool, true, false, not, Option, none, some, List, [], ◌∷◌, all, select, ◌&&◌, ◌≡◌, refl,
  sym, ap, ◌∙◌, arith, inl, inr, ◌⊎◌, if_true, if_false, if◌then◌else◌,
}
use bearlink.Prelude.Exec.{Result, ok, err, recover, continue, pure}
use bearlink.Shared.Json.{Json, null, bool, num, str, arr, obj, Fields}
use bearlink.Messaging.Consumer.{
  Settled, acked, settle, read_event, parsed, with_event, consume_event,
}
use bearlink.Analytics.{
  Event, EventTable, IsLawful, Schema, schema_of, type_key, has_field, store_if_complete,
  with_schema, handle_event,
}

-- an object has the fields of a schema
abbrev has_all : Fields → Option Schema → Bool
has_all fields none = false
has_all fields (some (name, names)) = all (has_field fields) (name ∷ names)

abbrev pub fits_schema : Option Schema → Option Json → Bool
fits_schema schema (some (obj fields)) = has_all fields schema
fits_schema schema _ = false

abbrev pub is_text : Option Json → Bool
is_text (some (str s)) = true
is_text _ = false

-- an event that the schemas describe: its type is a known text, and its payload is an object with the
-- required fields
abbrev pub is_fit : Option Json → Option Json → Bool
is_fit type payload = is_text type && fits_schema (schema_of (type_key type)) payload

select-all :
    (p : String → Bool) (names : List String)
    → (all p names ≡ true × (select (λ n. not (p n)) names ≡ []))
      ⊎ ((all p names ≡ false)
          × ((x : String) × (xs : List String) × (select (λ n. not (p n)) names ≡ x ∷ xs)))
select-all p [] = inl (refl, refl)
select-all p (n ∷ names) = go (p n) (select-all p names)
  where
    go :
        (b : Bool)
        → (all p names ≡ true × (select (λ n. not (p n)) names ≡ []))
          ⊎ ((all p names ≡ false)
              × ((x : String) × (xs : List String) × (select (λ n. not (p n)) names ≡ x ∷ xs)))
        → ((b && all p names) ≡ true
            × ((if not b then n ∷ select (λ n. not (p n)) names else select (λ n. not (p n)) names)
                ≡ []))
          ⊎ (((b && all p names) ≡ false)
              × ((x : String) × (xs : List String) × ((if not b
                      then n ∷ select (λ n. not (p n)) names
                      else select (λ n. not (p n)) names)
                    ≡ x ∷ xs)))
    go true rest = rest
    go false rest = inr (refl, (n, select (λ n. not (p n)) names, refl))

module _ (E : EventTable) (L : IsLawful E) where
  -- the rows after an event, as its fitness says
  abbrev pub rows_after : Option Json → Option Json → E.Db → List Event
  rows_after type payload db =
      if is_fit type payload then L.rows (E.create type payload db).1 else L.rows db

  abbrev swallowed : Result (Unit {0}) × E.Db → Result (Unit {0}) × E.Db
  swallowed r = recover r (λ e. pure tt)

  -- an insert leaves the rows its result has, whether its error is caught or not
  swallowed_rows : (r : Result (Unit {0}) × E.Db) → L.rows (swallowed r).1 ≡ L.rows r.1
  swallowed_rows (ok tt, db) = refl
  swallowed_rows (err e, db) = refl

  -- a type that is no text is refused
  refused_rows :
      (type payload : Option Json) (db : E.Db)
      → is_text type ≡ false
      → L.rows (E.create type payload db).1 ≡ L.rows db
  refused_rows type payload db no_text = go (E.create type payload db) refl
    where
      go : (r : Result (Unit {0}) × E.Db) → E.create type payload db ≡ r → L.rows r.1 ≡ L.rows db
      go (ok tt, db') is =
          let (name, value, at, is_name, is_value, rows) = L.create_ok type payload db db' is in
          let clash : is_text type ≡ true = ap is_text is_name in absurd (ground arith)
      go (err e, db') is = L.create_err type payload db db' e is

  schema_rows :
      (type payload : Option Json) (schema : Option Schema) (db : E.Db)
      → L.rows (swallowed (with_schema E type payload schema db)).1
        ≡ (if fits_schema schema payload then L.rows (E.create type payload db).1 else L.rows db)
  schema_rows type none none db = refl
  schema_rows type none (some (name, names)) db = refl
  schema_rows type (some (obj fields)) none db = refl
  schema_rows type (some (obj fields)) (some (name, names)) db =
      elim (select-all (has_field fields) (name ∷ names)) [
        | inl (complete, empty) ↦
            ap
              (λ (l : List String).
                L.rows (swallowed (store_if_complete E type (some (obj fields)) (ok l) db)).1)
              empty
            ∙ swallowed_rows (E.create type (some (obj fields)) db)
            ∙ sym (if_true _ _ complete)
        | inr (lacking, (x, xs, found)) ↦
            ap
              (λ (l : List String).
                L.rows (swallowed (store_if_complete E type (some (obj fields)) (ok l) db)).1)
              found
            ∙ sym (if_false _ _ lacking)
      ]
  schema_rows type (some null) none db = refl
  schema_rows type (some (bool b)) none db = refl
  schema_rows type (some (num n)) none db = refl
  schema_rows type (some (str s)) none db = refl
  schema_rows type (some (arr items)) none db = refl
  schema_rows type (some null) (some (name, names)) db = refl
  schema_rows type (some (bool b)) (some (name, names)) db = refl
  schema_rows type (some (num n)) (some (name, names)) db = refl
  schema_rows type (some (str s)) (some (name, names)) db = refl
  schema_rows type (some (arr items)) (some (name, names)) db = refl

  handled_rows :
      (type payload : Option Json) (db : E.Db)
      → L.rows (handle_event E type payload db).1 ≡ rows_after type payload db
  unfolding handle_event
  handled_rows type payload db =
      schema_rows type payload (schema_of (type_key type)) db
      ∙ go (is_text type) (fits_schema (schema_of (type_key type)) payload)
          (refused_rows type payload db)
    where
      go :
          (text fits : Bool)
          → (text ≡ false → L.rows (E.create type payload db).1 ≡ L.rows db)
          → (if fits then L.rows (E.create type payload db).1 else L.rows db)
            ≡ (if text && fits then L.rows (E.create type payload db).1 else L.rows db)
      go true fits refused = refl
      go false true refused = refused refl
      go false false refused = refl

  swallowed-acked : (r : Result (Unit {0}) × E.Db) → settle (swallowed r) ≡ (acked, (swallowed r).1)
  swallowed-acked (ok tt, db) = refl
  swallowed-acked (err e, db) = refl

  -- The analytics service acknowledges every message with an event in it, whether the event was
  -- stored or not. The event is inserted exactly if its type is a known one and its payload has the
  -- type's required fields; an insert that fails loses the event.
  pub analytics_stores :
      (parse : String → Option Json) (content : String) (event : Json) (type payload : Option Json)
      (db : E.Db)
      → parse content ≡ some event
      → read_event event ≡ ok (type, payload)
      → ((consume_event parse (handle_event E) content db).0 ≡ acked)
        × (L.rows (consume_event parse (handle_event E) content db).1 ≡ rows_after type payload db)
  unfolding consume_event handle_event
  analytics_stores parse content event type payload db is_event is_read =
      let run : Result Json → Settled × E.Db =
        λ r. settle (continue (r, db) (λ e. with_event (handle_event E) (read_event e))) in
      let run_read : Result (Option Json × Option Json) → Settled × E.Db =
        λ r. settle (with_event (handle_event E) r db) in
      let same : consume_event parse (handle_event E) content db
          ≡ (acked, (handle_event E type payload db).1) =
        ap (λ (o : Option Json). run (parsed o)) is_event
        ∙ ap run_read is_read
        ∙ swallowed-acked (with_schema E type payload (schema_of (type_key type)) db) in
      (
        ap (λ (r : Settled × E.Db). r.0) same,
        ap (λ (r : Settled × E.Db). L.rows r.1) same ∙ handled_rows type payload db,
      )
