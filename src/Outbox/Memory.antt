-- ===== src/Outbox/Memory.antt =====
-- A table in memory, which shows that the assumptions on the outbox table can be met.
use bearlink.Prelude.{ℕ, zero, suc, Bool, true, false, List, [], ◌∷◌, ◌≡◌, ◌≤◌, refl, map}
use bearlink.Prelude.{length, if◌then◌else◌, ap, ◌∙◌, arith}
use bearlink.Prelude.Exec.{ok}
use bearlink.Outbox.{Row, mark, OutboxTable, IsLawful}
use mathlib.Core.Path.{subst}
use mathlib.Core.List.{Memᴰ}

-- the first rows that are not processed, oldest first
abbrev pub unprocessed : ℕ → List Row → List Row
unprocessed zero rs = []
unprocessed (suc n) [] = []
unprocessed (suc n) (r ∷ rs) =
    let later = unprocessed n rs in
    let others = unprocessed (suc n) rs in if r.processed then others else r ∷ later

abbrev pub memory_table : OutboxTable
memory_table = record {
  State = List Row;
  rows = λ rs. rs;
  find_unprocessed = λ n rs. ok (unprocessed n rs);
  mark_processed = λ ids now rs. (ok tt, map (mark ids now) rs);
}

unprocessed-length-le : (n : ℕ) (rs : List Row) → length (unprocessed n rs) ≤ n
unprocessed-length-le zero rs = omega arith
unprocessed-length-le (suc n) [] = omega arith
unprocessed-length-le (suc n) (r ∷ rs) =
    ground (arith, unprocessed-length-le (suc n) rs, unprocessed-length-le n rs)

abbrev Waits : Row → List Row → Type 0
Waits r rs = Memᴰ r rs × (r.processed ≡ false)

-- one round of `unprocessed`
Waits-cons :
    (b : Bool) (q r : Row) (later others rs : List Row)
    → q.processed ≡ b
    → (Memᴰ r later → Waits r rs)
    → (Memᴰ r others → Waits r rs)
    → Memᴰ r (if b then others else q ∷ later)
    → Waits r (q ∷ rs)
Waits-cons true q r later others rs e from_later from_others m =
    let (found, waits) = from_others m in (Memᴰ.tail found, waits)
Waits-cons false q r later others rs e from_later from_others (Memᴰ.head same) =
    (Memᴰ.head same, ap (λ (x : Row). x.processed) same ∙ e)
Waits-cons false q r later others rs e from_later from_others (Memᴰ.tail m) =
    let (found, waits) = from_later m in (Memᴰ.tail found, waits)

unprocessed-Waits : (n : ℕ) (rs : List Row) (r : Row) → Memᴰ r (unprocessed n rs) → Waits r rs
unprocessed-Waits zero rs r m = elim m [ ]
unprocessed-Waits (suc n) [] r m = elim m [ ]
unprocessed-Waits (suc n) (q ∷ rs) r m =
    Waits-cons q.processed q r (unprocessed n rs) (unprocessed (suc n) rs) rs refl
      (unprocessed-Waits n rs r) (unprocessed-Waits (suc n) rs r) m

found_eq :
    (n : ℕ) (s found : List Row)
    → memory_table.find_unprocessed n s ≡ ok found
    → found ≡ unprocessed n s
found_eq n s found e = cc

pub memory_table-IsLawful : IsLawful memory_table
memory_table-IsLawful = record {
  find_takes = λ n s found e. ground (arith, unprocessed-length-le n s);
  find_is_stored = λ n s found r e m.
      unprocessed-Waits n s r (subst (λ (rs : List Row). Memᴰ r rs) (found_eq n s found e) m);
  mark_ok = λ ids now s s' e. cc;
  mark_err = λ ids now s s' f e. cc;
}
