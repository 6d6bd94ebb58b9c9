-- ===== src/Url/Redirect/Balanced.antt =====
-- Every row keeps as many clicks as the outbox has events for it.
use bearlink.Prelude.{String, false, ◌≡◌, refl, inl, inr, str_eq}
use bearlink.Url.Record.{Url}
use bearlink.Url.Platform.{Platform, Setup, World}
use bearlink.Url.Tables.{DbModel, is_click}
use bearlink.Url.Tables.Balance.{IsBalanced, click-IsBalanced, event-IsBalanced}
use bearlink.Url.Redirect.{click_event, failed_event, redirect, unlock}
use bearlink.Url.Redirect.Visitor.{Request, ClickMetadata, extract_click_metadata}
use bearlink.Url.Redirect.Clicks.{tables, redirect_counts_once}
use bearlink.Url.Redirect.Unlocking.{unlock_needs_password}
use mathlib.Core.Path.{subst, sym}

module _ (P : Platform) (setup : Setup) where
  is_click-click_event :
      (url : Url) (visit : ClickMetadata) (s : String)
      → is_click s (click_event P setup url visit) ≡ str_eq url.short_id s
  is_click-click_event url visit s = refl

  is_click-failed_event : (url : Url) (s : String) → is_click s (failed_event P setup url) ≡ false
  is_click-failed_event url s = refl

module _ (P : Platform) (D : DbModel P) (setup : Setup) where
  -- `redirect` and `unlock` keep the two tables balanced: if every row has as many clicks as the
  -- outbox has url_clicked events with its short id, then that is so after the request.
  pub handlers_keep_balance :
      (req : Request) (w : World P)
      → IsBalanced (tables P D setup w)
      → IsBalanced (tables P D setup (redirect P setup req w).1)
        × IsBalanced (tables P D setup (unlock P setup req w).1)
  handlers_keep_balance req w h = (
    elim (redirect_counts_once P D setup req w) [
      | inl same ↦ subst IsBalanced (sym same) h
      | inr (url, w'', found, guarded, human, clicked) ↦
          click-IsBalanced url.short_id (click_event P setup url (extract_click_metadata P req))
            (tables P D setup w) (tables P D setup (redirect P setup req w).1)
            (is_click-click_event P setup url (extract_click_metadata P req)) h clicked
    ],
    elim (unlock_needs_password P D setup req w) [
      | inl same ↦ subst IsBalanced (sym same) h
      | inr (password, url, hash, w'', asked, found, locked, good, young, done) ↦ elim done [
        | inl same ↦ subst IsBalanced (sym same) h
        | inr (inl (right, clicked)) ↦
            click-IsBalanced url.short_id (click_event P setup url (extract_click_metadata P req))
              (tables P D setup w) (tables P D setup (unlock P setup req w).1)
              (is_click-click_event P setup url (extract_click_metadata P req)) h clicked
        | inr (inr (wrong, noted)) ↦
            event-IsBalanced (failed_event P setup url) (tables P D setup w)
              (tables P D setup (unlock P setup req w).1) (is_click-failed_event P setup url) h
              noted
      ]
    ],
  )
