-- ===== src/Prelude/Decimal.antt =====
-- Signed integers, and the decimal texts of strconv.Itoa.
use Prim.Native.Nat.{ℕ, zero, suc, ◌/◌, ◌%◌}
use Prim.Native.String.{String, ◌++◌}
use mathlib.Core.List.{List, [], ◌∷◌}
use mathlib.Core.Option.{none, some}
use veidemann_browser_contro.Prelude.Tests.{◌==◌, if◌then◌else◌}
use veidemann_browser_contro.Prelude.Lists.{get_elem?}

-- `negsuc n` is -(n + 1).
pub data ℤ : Type 0 where
  pos : ℕ → ℤ
  negsuc : ℕ → ℤ

abbrev digit_texts : List String
digit_texts = "0" ∷ "1" ∷ "2" ∷ "3" ∷ "4" ∷ "5" ∷ "6" ∷ "7" ∷ "8" ∷ "9" ∷ []

digit : ℕ → String
digit d = elim (get_elem? digit_texts d) [ none ↦ "" | some s ↦ s ]

itoa_from : ℕ → ℕ → String → String
unfolding digit
itoa_from zero n rest = rest
itoa_from (suc fuel) n rest =
    let more = itoa_from fuel (n / 10) (digit (n % 10) ++ rest) in
    if n / 10 == 0 then digit (n % 10) ++ rest else more

-- A number has at most as many digits as its successor counts.
unfoldable pub itoa : ℕ → String
unfolding itoa_from
itoa n = itoa_from (suc n) n ""

unfoldable pub itoa_ℤ : ℤ → String
unfolding itoa
itoa_ℤ (pos n) = itoa n
itoa_ℤ (negsuc n) = "-" ++ itoa (suc n)
