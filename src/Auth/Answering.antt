-- ===== src/Auth/Answering.antt =====
-- Which handlers of the accounts answer whatever fails.
use bearlink.Prelude.{◌≡◌}
use bearlink.Prelude.Exec.{ok, Exec}
use bearlink.Shared.Json.{Json}
use bearlink.Auth.Record.{Reply}
use bearlink.Auth.Platform.{AttemptStore, Accounts, World}

module _ (A : Accounts) (T : AttemptStore) where
  -- a reply comes back, and no error
  abbrev pub IsAnswered : Exec (World A T) Reply → World A T → Type 0
  IsAnswered m w = (reply : Reply) × ((m w).0 ≡ ok reply)
