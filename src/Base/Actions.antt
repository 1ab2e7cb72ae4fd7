-- ===== src/Base/Actions.antt =====
-- Stateful code as state passing: an action takes the state and returns its result and the new
-- state. `do` blocks stand for sequences of statements.
use mathlib.Core.Bool.{Bool, true, false}
use mathlib.Core.List.{List, [], ◌∷◌}

abbrev pub State : Type 0 → Type 0 → Type 0
State S A = S → A × S

infixl 5 ◌>>=◌ ◌>>◌
abbrev pub ◌>>=◌ : {S A B : Type 0} → State S A → (A → State S B) → State S B
◌>>=◌ m f s = f (m s).0 (m s).1

abbrev pub ◌>>◌ : {S A B : Type 0} → State S A → State S B → State S B
◌>>◌ m k s = k (m s).1

abbrev pub pure : {S A : Type 0} → A → State S A
pure a s = (a, s)

abbrev pub modify : {S : Type 0} → (S → S) → State S (Unit {0})
modify f s = (tt, f s)

abbrev pub when : {S : Type 0} → Bool → State S (Unit {0}) → State S (Unit {0})
when true m s = m s
when false m s = (tt, s)

-- `for _, x := range xs { body(x) }`
unfoldable pub for_each : {S A : Type 0} → List A → (A → State S (Unit {0})) → State S (Unit {0})
for_each [] body s = (tt, s)
for_each (x ∷ xs) body s = for_each xs body (body x s).1
