-- ===== src/Prelude/Text/Decimal.antt =====
-- `${n}` for a natural number, and that no two numbers print alike.
use Prim.Native.Nat.{ℕ, zero, suc, ◌+◌, ◌-◌, ◌*◌, ◌/◌, ◌%◌, ◌<◌}
use Prim.Native.Char.{code}
use Prim.Native.String.{String, [], ◌∷◌, ◌++◌}
use mathlib.Core.Path.{◌≡◌, sym, ap, ◌∙◌}
use mathlib.Core.Logic.{◌≢◌, inl, inr}
use native.Mathlib.Omega.{arith}
use text.Mathlib.TextLemmas.{nil-append, cons-append}
use bearlink.Prelude.Tests.{ltb, if◌then◌else◌, Bool-cases}

abbrev digit : ℕ → String
digit zero = "0"
digit (suc zero) = "1"
digit (suc (suc zero)) = "2"
digit (suc (suc (suc zero))) = "3"
digit (suc (suc (suc (suc zero)))) = "4"
digit (suc (suc (suc (suc (suc zero))))) = "5"
digit (suc (suc (suc (suc (suc (suc zero)))))) = "6"
digit (suc (suc (suc (suc (suc (suc (suc zero))))))) = "7"
digit (suc (suc (suc (suc (suc (suc (suc (suc zero)))))))) = "8"
digit n = "9"

show_from : ℕ → ℕ → String
show_from zero n = ""
show_from (suc f) n =
    let front = show_from f (n / 10) ++ digit (n % 10) in if ltb n 10 then digit n else front

-- The fuel is more than the digits of the number.
unfoldable pub show : ℕ → String
unfolding show_from
show n = show_from (suc n) n

-- The number that decimal digits stand for, read after `acc`.
unfoldable pub value : ℕ → String → ℕ
value acc [] = acc
value acc (c ∷ s) = value (acc * 10 + (code c - 48)) s

value-append : (s t : String) (acc : ℕ) → value acc (s ++ t) ≡ value (value acc s) t
unfolding value
value-append [] t acc = rw nil-append
value-append (c ∷ s) t acc = rw cons-append (value-append s t (acc * 10 + (code c - 48)))

value-digit : (n acc : ℕ) → n < 10 → value acc (digit n) ≡ acc * 10 + n
unfolding value
value-digit zero acc h = omega arith
value-digit (suc zero) acc h = omega arith
value-digit (suc (suc zero)) acc h = omega arith
value-digit (suc (suc (suc zero))) acc h = omega arith
value-digit (suc (suc (suc (suc zero)))) acc h = omega arith
value-digit (suc (suc (suc (suc (suc zero))))) acc h = omega arith
value-digit (suc (suc (suc (suc (suc (suc zero)))))) acc h = omega arith
value-digit (suc (suc (suc (suc (suc (suc (suc zero))))))) acc h = omega arith
value-digit (suc (suc (suc (suc (suc (suc (suc (suc zero)))))))) acc h = omega arith
value-digit (suc (suc (suc (suc (suc (suc (suc (suc (suc zero))))))))) acc h = omega arith
value-digit (suc (suc (suc (suc (suc (suc (suc (suc (suc (suc n)))))))))) acc h =
    absurd (omega arith)

value-show_from : (f n : ℕ) → n < f → value 0 (show_from f n) ≡ n
unfolding show_from
value-show_from zero n h = elim h [ ]
value-show_from (suc f) n h = elim (Bool-cases (ltb n 10)) [
  | inl small ↦ (rw small (value-digit n 0 (ground arith) ∙ omega arith))
  | inr large ↦ rw large (
      value-append (show_from f (n / 10)) (digit (n % 10)) 0
      ∙ value-digit (n % 10) (value 0 (show_from f (n / 10))) (omega arith)
      ∙ rw (value-show_from f (n / 10) (ground arith)) (omega arith))
]

pub value-show : (n : ℕ) → value 0 (show n) ≡ n
unfolding show
value-show n = value-show_from (suc n) n (omega arith)

-- No two numbers print alike.
pub show_injective : (m n : ℕ) → show m ≡ show n → m ≡ n
unfolding show
show_injective m n h =
    sym (value-show_from (suc m) m (omega arith))
    ∙ ap (value 0) h
    ∙ value-show_from (suc n) n (omega arith)

-- A positive number does not print as the empty text.
pub show-ne-empty : (n : ℕ) → 0 < n → show n ≢ ""
unfolding show value
show-ne-empty n h e = absurd (omega (arith, value-show_from (suc n) n, ap (value 0) e))
