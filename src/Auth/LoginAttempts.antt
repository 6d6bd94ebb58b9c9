-- ===== src/Auth/LoginAttempts.antt =====
-- services/auth/services/loginAttempts.js: the failed logins of each e-mail address, in memory.
-- Times are milliseconds since 1970.
pub mod Lockout
use bearlink.Prelude.{
  ℕ, ◌+◌, String, Bool, false, Option, none, some, str_eq, leb, ltb, if◌then◌else◌,
}

abbrev pub lock_threshold : ℕ
lock_threshold = 5

abbrev pub lockout_ms : ℕ
lockout_ms = 900000

pub record Entry : Type 0 where
  pub count : ℕ
  pub locked_until : Option ℕ

-- the Map of the store
abbrev pub Store : Type 0
Store = String → Option Entry

abbrev pub set : String → Option Entry → Store → Store
set email entry store = λ other. if str_eq other email then entry else store other

-- what isLocked says of an entry, and whether it deletes it
abbrev pub locked_entry : ℕ → Option Entry → Bool
locked_entry now none = false
locked_entry now (some e) = elim e.locked_until [ none ↦ false | some t ↦ ltb now t ]

abbrev pub expired_entry : ℕ → Option Entry → Bool
expired_entry now none = false
expired_entry now (some e) = elim e.locked_until [ none ↦ false | some t ↦ leb t now ]

unfoldable pub is_locked : ℕ → String → Store → Bool × Store
is_locked now email store = (
  locked_entry now (store email),
  if expired_entry now (store email) then set email none store else store,
)

-- store.get(email) || { count: 0, lockedUntil: null }
abbrev pub entry_or_new : Option Entry → Entry
entry_or_new none = record { count = 0; locked_until = none }
entry_or_new (some e) = e

abbrev pub count_failure : ℕ → Entry → Entry
count_failure now e =
    if leb lock_threshold (e.count + 1)
    then record { count = e.count + 1; locked_until = some (now + lockout_ms) }
    else record e { count = e.count + 1 }

unfoldable pub record_failed_attempt : ℕ → String → Store → Store
record_failed_attempt now email store =
    set email (some (count_failure now (entry_or_new (store email)))) store

unfoldable pub clear_attempts : String → Store → Store
clear_attempts email store = set email none store
