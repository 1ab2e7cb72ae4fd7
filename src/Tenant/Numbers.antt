-- ===== src/Tenant/Numbers.antt =====
-- strconv.Itoa and strconv.Atoi, as the tenants' middleware combines them.
use Prim.Native.Char.{Char, code}
use Prim.Native.String.{◌++◌}
use text.Mathlib.TextLemmas.{cons-append, nil-append}
use jxt_core.Base.{
  ℕ, zero, suc, ◌+◌, ◌*◌, ◌/◌, ◌%◌, ◌≤◌, ◌<◌, ltb, leb, ℤ, pos, negsuc, IsInt, String, ◌≡◌, refl,
  ap, ◌∙◌, true, ◌&&◌, some, arith, show_int, show_digits, digit, Bool-cases, inl, inr,
}
use jxt_core.Tenant.Provider.Keys.{digits_from, digits_of, atoi, positive, negative}

character-append : (c : Char) (s : String) → String.◌∷◌ c String.[] ++ s ≡ String.◌∷◌ c s
character-append c s = cons-append c String.[] s ∙ ap (String.◌∷◌ c) (nil-append s)

is_digit : (d : ℕ) → d < 10 → (leb 48 (48 + d) && leb (48 + d) 57) ≡ true
is_digit d h = ground (arith, h)

digits_from-character :
    (c : Char) (m d : ℕ) (acc : String)
    → code c ≡ 48 + d
    → d < 10
    → digits_from m (String.◌∷◌ c String.[] ++ acc) ≡ digits_from (m * 10 + d) acc
unfolding digits_from
digits_from-character c m d acc e h =
    rw (character-append c acc, digits_from, e, is_digit d h)
      (ap (λ x. digits_from x acc) (omega arith))

-- The one character of a digit.
digit_character :
    (d : ℕ) → d < 10 → (c : Char) × (digit d ≡ String.◌∷◌ c String.[]) × (code c ≡ 48 + d)
unfolding digit
digit_character zero h = ("0", refl, refl)
digit_character (suc zero) h = ("1", refl, refl)
digit_character (suc (suc zero)) h = ("2", refl, refl)
digit_character (suc (suc (suc zero))) h = ("3", refl, refl)
digit_character (suc (suc (suc (suc zero)))) h = ("4", refl, refl)
digit_character (suc (suc (suc (suc (suc zero))))) h = ("5", refl, refl)
digit_character (suc (suc (suc (suc (suc (suc zero)))))) h = ("6", refl, refl)
digit_character (suc (suc (suc (suc (suc (suc (suc zero))))))) h = ("7", refl, refl)
digit_character (suc (suc (suc (suc (suc (suc (suc (suc zero)))))))) h = ("8", refl, refl)
digit_character (suc (suc (suc (suc (suc (suc (suc (suc (suc zero))))))))) h = ("9", refl, refl)
digit_character (suc (suc (suc (suc (suc (suc (suc (suc (suc (suc d)))))))))) h =
    absurd (omega (arith, h))

digits_from-digit :
    (m d : ℕ) (acc : String)
    → d < 10
    → digits_from m (digit d ++ acc) ≡ digits_from (m * 10 + d) acc
digits_from-digit m d acc h =
    let (c, one, value) = digit_character d h in rw one (digits_from-character c m d acc value h)

-- A text that begins with a digit.
abbrev IsNumeral : String → Type 0
IsNumeral s = (c : Char) × (r : String) × (s ≡ String.◌∷◌ c r) × (48 ≤ code c)

digit-IsNumeral : (d : ℕ) (acc : String) → d < 10 → IsNumeral (digit d ++ acc)
digit-IsNumeral d acc h =
    let (c, one, value) = digit_character d h in
    (c, acc, rw one (character-append c acc), omega (arith, value))

show_digits-IsNumeral : (fuel n : ℕ) (acc : String) → n < fuel → IsNumeral (show_digits fuel n acc)
unfolding show_digits
show_digits-IsNumeral zero n acc h = absurd (omega (arith, h))
show_digits-IsNumeral (suc fuel) n acc h = elim (Bool-cases (ltb n 10)) [
  | inl small ↦ rw (small, show_digits) (digit-IsNumeral n acc (ground (arith, small)))
  | inr large ↦
      rw (large, show_digits)
        (show_digits-IsNumeral fuel (n / 10) (digit (n % 10) ++ acc) (ground (arith, h, large)))
]

digits_from-show_digits :
    (fuel n : ℕ) (acc : String)
    → n < fuel
    → digits_from 0 (show_digits fuel n acc) ≡ digits_from n acc
unfolding show_digits
digits_from-show_digits zero n acc h = absurd (omega (arith, h))
digits_from-show_digits (suc fuel) n acc h = elim (Bool-cases (ltb n 10)) [
  | inl small ↦
      rw (small, show_digits)
        (digits_from-digit 0 n acc (ground (arith, small))
          ∙ ap (λ m. digits_from m acc) (omega arith))
  | inr large ↦
      rw (large, show_digits)
        (digits_from-show_digits fuel (n / 10) (digit (n % 10) ++ acc) (ground (arith, h, large))
          ∙ digits_from-digit (n / 10) (n % 10) acc (omega arith)
          ∙ ap (λ m. digits_from m acc) (omega arith))
]

digits_of-numeral : (s : String) → IsNumeral s → digits_of s ≡ digits_from 0 s
unfolding digits_of
digits_of-numeral s (c, r, same, h) = rw same refl

atoi-numeral : (s : String) → IsNumeral s → atoi s ≡ positive (digits_of s)
unfolding atoi
atoi-numeral s (c, r, same, h) = rw (same, atoi) (ground (arith, h))

atoi-minus : (s : String) → atoi ("-" ++ s) ≡ negative (digits_of s)
unfolding atoi
atoi-minus s = ap atoi (character-append "-" s)

digits_of-show_digits : (fuel n : ℕ) → n < fuel → digits_of (show_digits fuel n "") ≡ some n
unfolding digits_from
digits_of-show_digits fuel n h =
    digits_of-numeral (show_digits fuel n "") (show_digits-IsNumeral fuel n "" h)
    ∙ digits_from-show_digits fuel n "" h

-- A number of type `int` is read from its text again.
pub atoi-show_int : (i : ℤ) → IsInt i → atoi (show_int i) ≡ some i
unfolding show_int
atoi-show_int (pos n) h =
    atoi-numeral (show_digits (suc n) n "") (show_digits-IsNumeral (suc n) n "" (omega arith))
    ∙ ap positive (digits_of-show_digits (suc n) n (omega arith))
    ∙ ground (arith, h)
atoi-show_int (negsuc n) h =
    atoi-minus (show_digits (suc (suc n)) (suc n) "")
    ∙ ap negative (digits_of-show_digits (suc (suc n)) (suc n) (omega arith))
    ∙ ground (arith, h)
