-- ===== src/Base/Assoc.antt =====
-- Go's maps as association lists: each key stands once, in no order that matters to a lookup.
use mathlib.Core.Path.{◌≡◌, refl}
use mathlib.Core.Logic.{◌↔◌}
use mathlib.Core.Bool.{Bool, true}
use mathlib.Core.Option.{Option, none, some}
use mathlib.Core.List.{List, [], ◌∷◌}
use Prim.Native.String.{String}
use native.Mathlib.Omega.{arith}
use text.Mathlib.Text.{◌==◌ as str_eq}
use text.Mathlib.TextEquality.{eq_iff}
use jxt_core.Base.Tests.{if◌then◌else◌}
use jxt_core.Base.Int.{ℤ, pos, negsuc, eqb_ℤ}

pub record Eq (A : Type 0) : Type 0 where
  pub beq : A → A → Bool
  pub beq_iff : (a b : A) → (beq a b ≡ true) ↔ (a ≡ b)

pub eqb_ℤ_iff : (a b : ℤ) → (eqb_ℤ a b ≡ true) ↔ (a ≡ b)
eqb_ℤ_iff (pos a) (pos b) = (λ h. ground arith, λ h. ground arith)
eqb_ℤ_iff (pos a) (negsuc b) = (λ h. absurd (ground arith), λ h. absurd (ground arith))
eqb_ℤ_iff (negsuc a) (pos b) = (λ h. absurd (ground arith), λ h. absurd (ground arith))
eqb_ℤ_iff (negsuc a) (negsuc b) = (λ h. ground arith, λ h. ground arith)

instance abbrev pub string_eq : Eq String
string_eq = record { beq = str_eq; beq_iff = eq_iff }

instance abbrev pub int_eq : Eq ℤ
int_eq = record { beq = eqb_ℤ; beq_iff = eqb_ℤ_iff }

module _ {K V : Type 0} ⦃e : Eq K⦄ where
  -- m[k]
  unfoldable pub get_key : K → List (K × V) → Option V
  get_key k [] = none
  get_key k ((j, v) ∷ m) = if e.beq j k then some v else get_key k m

  -- m[k] = v
  unfoldable pub set_key : K → V → List (K × V) → List (K × V)
  set_key k v [] = (k, v) ∷ []
  set_key k v ((j, w) ∷ m) = if e.beq j k then (k, v) ∷ m else (j, w) ∷ set_key k v m

  -- delete(m, k)
  unfoldable pub delete_key : K → List (K × V) → List (K × V)
  delete_key k [] = []
  delete_key k ((j, w) ∷ m) = let rest = delete_key k m in if e.beq j k then rest else (j, w) ∷ rest

  -- A function changed at one key.
  abbrev pub update : (K → Option V) → K → Option V → K → Option V
  update f k o j = if e.beq k j then o else f j

  pub get_key-set_key :
      (k j : K) (v : V) (m : List (K × V))
      → get_key j (set_key k v m) ≡ update (λ i. get_key i m) k (some v) j
  unfolding get_key set_key
  get_key-set_key k j v [] = refl
  get_key-set_key k j v ((i, w) ∷ m) =
      ground (arith, e.beq_iff k j, e.beq_iff i k, e.beq_iff i j, get_key-set_key k j v m)

  pub get_key-delete_key :
      (k j : K) (m : List (K × V)) → get_key j (delete_key k m) ≡ update (λ i. get_key i m) k none j
  unfolding get_key delete_key
  get_key-delete_key k j [] = ground arith
  get_key-delete_key k j ((i, w) ∷ m) =
      ground (arith, e.beq_iff k j, e.beq_iff i k, e.beq_iff i j, get_key-delete_key k j m)
