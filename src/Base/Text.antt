-- ===== src/Base/Text.antt =====
-- The text that Go's `fmt` builds in the modelled code: `+` on strings and the verb `%d`.
use Prim.Native.Nat.{ℕ, zero, suc, ◌/◌, ◌%◌}
use Prim.Native.String.{String, ◌++◌}
use mathlib.Core.Bool.{true, false}
use mathlib.Core.List.{List, [], ◌∷◌}
use jxt_core.Base.Tests.{ltb, ◌==◌, if◌then◌else◌}
use jxt_core.Base.Int.{ℤ, pos, negsuc}

abbrev pub str_append : String → String → String
str_append = ◌++◌

-- s₀ + s₁ + …
unfoldable pub concat : List String → String
concat [] = ""
concat (s ∷ ss) = s ++ concat ss

unfoldable pub digit : ℕ → String
digit n =
    if n == 0
    then "0"
    else if n == 1
    then "1"
    else if n == 2
    then "2"
    else if n == 3
    then "3"
    else if n == 4
    then "4"
    else if n == 5
    then "5"
    else if n == 6
    then "6"
    else if n == 7
    then "7"
    else if n == 8
    then "8"
    else "9"

-- The digits of `n` before those of `acc`; a number has fewer digits than its successor is large.
unfoldable pub show_digits : ℕ → ℕ → String → String
show_digits zero n acc = acc
show_digits (suc fuel) n acc = elim (ltb n 10) [
  | true ↦ digit n ++ acc
  | false ↦ show_digits fuel (n / 10) (digit (n % 10) ++ acc)
]

-- fmt.Sprintf("%d", n)
unfoldable pub show_int : ℤ → String
unfolding show_digits digit
show_int (pos n) = show_digits (suc n) n ""
show_int (negsuc n) = "-" ++ show_digits (suc (suc n)) (suc n) ""
