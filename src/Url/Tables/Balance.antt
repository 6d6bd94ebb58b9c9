-- ===== src/Url/Tables/Balance.antt =====
-- Every row has as many clicks as the outbox has click events for it.
use bearlink.Prelude.{
  ◌+◌, String, false, some, List, [], ◌∷◌, ◌++◌, map, str_eq, eq_iff, ◌≡◌, sym, if◌then◌else◌,
  arith,
}
use bearlink.Prelude.Members.{Memᴰ-map_origin}
use bearlink.Url.Record.{Url, NewEvent}
use bearlink.Url.Platform.{increment_clicks, create_event}
use bearlink.Url.Tables.{Tables, bump, apply_all, is_click, clicks_in}
use mathlib.Core.Path.{subst}
use mathlib.Core.List.{Memᴰ}

pub record IsBalanced (t : Tables) : Type 0 where
  pub counted : (u : Url) → Memᴰ u t.urls → u.clicks ≡ clicks_in u.short_id t.events

clicks_in-append :
    (short_id : String) (es : List NewEvent) (e : NewEvent)
    → clicks_in short_id (es ++ e ∷ [])
      ≡ (if is_click short_id e then clicks_in short_id es + 1 else clicks_in short_id es)
clicks_in-append short_id [] e = ground arith
clicks_in-append short_id (d ∷ es) e = ground (arith, clicks_in-append short_id es e)

bump-clicks :
    (short_id : String) (u : Url) (es : List NewEvent) (e : NewEvent)
    → ((s : String) → is_click s e ≡ str_eq short_id s)
    → u.clicks ≡ clicks_in u.short_id es
    → (bump short_id u).clicks ≡ clicks_in (bump short_id u).short_id (es ++ e ∷ [])
bump-clicks short_id u es e tells h = ground (
  arith,
  clicks_in-append u.short_id es e,
  tells u.short_id,
  eq_iff u.short_id short_id,
  eq_iff short_id u.short_id,
)

clicked_tables :
    (short_id : String) (e : NewEvent) (t t' : Tables)
    → apply_all (increment_clicks short_id ∷ create_event e ∷ []) t ≡ some t'
    → record { urls = map (bump short_id) t.urls; events = t.events ++ e ∷ [] } ≡ t'
clicked_tables short_id e t t' done = ground arith

-- counting a click and noting it, together
pub click-IsBalanced :
    (short_id : String) (e : NewEvent) (t t' : Tables)
    → ((s : String) → is_click s e ≡ str_eq short_id s)
    → IsBalanced t
    → apply_all (increment_clicks short_id ∷ create_event e ∷ []) t ≡ some t'
    → IsBalanced t'
click-IsBalanced short_id e t t' tells h done =
    subst IsBalanced (clicked_tables short_id e t t' done) (record {
      counted = λ u m.
          let (q, old, from_q) = Memᴰ-map_origin (bump short_id) t.urls m in
          subst (λ (x : Url). x.clicks ≡ clicks_in x.short_id (t.events ++ e ∷ [])) (sym from_q)
            (bump-clicks short_id q t.events e tells (h.counted q old));
    })

noted_tables :
    (e : NewEvent) (t t' : Tables)
    → apply_all (create_event e ∷ []) t ≡ some t'
    → record t { events = t.events ++ e ∷ [] } ≡ t'
noted_tables e t t' done = ground arith

-- an event that tells of no click
pub event-IsBalanced :
    (e : NewEvent) (t t' : Tables)
    → ((s : String) → is_click s e ≡ false)
    → IsBalanced t
    → apply_all (create_event e ∷ []) t ≡ some t'
    → IsBalanced t'
event-IsBalanced e t t' silent h done = subst IsBalanced (noted_tables e t t' done) (record {
  counted = λ u m.
      ground (arith, h.counted u m, clicks_in-append u.short_id t.events e, silent u.short_id);
})
