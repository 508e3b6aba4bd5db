-- ===== src/Common/Text/Parse.antt =====
-- Unsigned integers: `parse`, `from_str_radix` and decimal printing.
use mathlib.Core.Path.{◌≡◌, refl, ap, ◌∙◌}
use mathlib.Core.Bool.{false, ◌&&◌}
use mathlib.Core.Logic.{inl, inr, ◌≢◌}
use mathlib.Core.Option.{Option, none, some}
use mathlib.Core.List.{[], ◌∷◌, ◌++◌, append_assoc, append-nil}
use Prim.Native.Nat.{ℕ, zero, suc, ◌+◌, ◌-◌, ◌*◌, ◌/◌, ◌%◌, ◌≤◌, ◌<◌}
use native.Mathlib.Omega.{arith}
use mgba_server.Common.Tests.{ltb, leb, ◌==◌, if◌then◌else◌, lt→ltb, Bool-cases, Option-cases}
use mgba_server.Common.Lists.{length, length-append, All, All-append}
use mgba_server.Common.Text.Base.{Text}

-- `char::to_digit`.
unfoldable pub to_digit : ℕ → ℕ → Option ℕ
to_digit radix c =
    let d =
      if leb b'0' c && leb c b'9'
      then some (c - b'0')
      else if leb b'a' c && leb c b'f'
      then some (c - b'a' + 10)
      else if leb b'A' c && leb c b'F'
      then some (c - b'A' + 10)
      else none in
    elim d [ none ↦ none | some v ↦ if ltb v radix then some v else none ]

-- The digit loop; it fails where the number reaches the type's bound.
unfoldable pub parse_digits : ℕ → ℕ → ℕ → Text → Option ℕ
parse_digits radix bound acc [] = some acc
parse_digits radix bound acc (c ∷ s) = elim (to_digit radix c) [
  | none ↦ none
  | some d ↦
      if ltb (acc * radix + d) bound then parse_digits radix bound (acc * radix + d) s else none
]

abbrev parse_unsigned : ℕ → ℕ → Text → Option ℕ
parse_unsigned radix bound [] = none
parse_unsigned radix bound (c ∷ s) = parse_digits radix bound 0 (c ∷ s)

-- `uN::from_str_radix(s, radix)` with `bound` = 2 ^ N: a `+` in front of digits is accepted.
unfoldable pub parse_uint : ℕ → ℕ → Text → Option ℕ
unfolding parse_digits
parse_uint radix bound [] = none
parse_uint radix bound (c ∷ s) =
    if c == b'+' then parse_unsigned radix bound s else parse_digits radix bound 0 (c ∷ s)

parse_digits-lt :
    (radix bound acc : ℕ) (s : Text) (n : ℕ)
    → acc < bound
    → parse_digits radix bound acc s ≡ some n
    → n < bound
unfolding parse_digits
parse_digits-lt radix bound acc [] n h e = ground arith
parse_digits-lt radix bound acc (c ∷ s) n h e = elim (Option-cases (to_digit radix c)) [
  | inl bad ↦ absurd (ground (arith, bad))
  | inr (d, good) ↦ ground (arith, good, parse_digits-lt radix bound (acc * radix + d) s n)
]

-- A parsed number fits its type.
pub parse_uint-lt :
    (radix bound : ℕ) (s : Text) (n : ℕ) → 0 < bound → parse_uint radix bound s ≡ some n → n < bound
unfolding parse_uint
parse_uint-lt radix bound [] n h e = cc
parse_uint-lt radix bound (c ∷ []) n h e = elim (Bool-cases (c == b'+')) [
  | inl p ↦ absurd (cc (rw p at e))
  | inr p ↦ parse_digits-lt radix bound 0 (c ∷ []) n h (rw p at e)
]
parse_uint-lt radix bound (c ∷ d ∷ s) n h e = elim (Bool-cases (c == b'+')) [
  | inl p ↦ parse_digits-lt radix bound 0 (d ∷ s) n h (rw p at e)
  | inr p ↦ parse_digits-lt radix bound 0 (c ∷ d ∷ s) n h (rw p at e)
]

-- Decimal printing, on fuel; `print_dec n` gives one round for each digit and more.
print_fuel : ℕ → ℕ → Text
print_fuel zero n = []
print_fuel (suc f) n =
    let front = print_fuel f (n / 10) in
    if ltb n 10 then (b'0' + n) ∷ [] else front ++ ((b'0' + n % 10) ∷ [])

unfoldable pub print_dec : ℕ → Text
unfolding print_fuel
print_dec n = print_fuel (suc n) n

abbrev pub IsDigit : ℕ → Type 0
IsDigit c = (b'0' ≤ c) × (c ≤ b'9')

to_digit-code : (d : ℕ) → d < 10 → to_digit 10 (b'0' + d) ≡ some d
unfolding to_digit
to_digit-code d h = ground arith

parse_digits_step :
    (bound acc d v : ℕ) (s : Text)
    → d < 10
    → acc * 10 + d ≡ v
    → v < bound
    → parse_digits 10 bound acc ((b'0' + d) ∷ s) ≡ parse_digits 10 bound v s
unfolding parse_digits
parse_digits_step bound acc d v s h e b =
    rw (to_digit-code d h, parse_digits) (rw (e, lt→ltb v bound b))

parse_digits-print :
    (f n bound : ℕ) (s : Text)
    → n < f
    → n < bound
    → parse_digits 10 bound 0 (print_fuel f n ++ s) ≡ parse_digits 10 bound n s
unfolding print_fuel
parse_digits-print zero n bound s h b = absurd (omega arith)
parse_digits-print (suc f) n bound s h b = elim (Bool-cases (ltb n 10)) [
  | inl small ↦ rw small (parse_digits_step bound 0 n n s (ground arith) (omega arith) b)
  | inr more ↦
      let front : n / 10 < f = ground arith in
      rw (more, append_assoc)
        (parse_digits-print f (n / 10) bound ((b'0' + n % 10) ∷ s) front (omega arith)
          ∙ parse_digits_step bound (n / 10) (n % 10) n s (omega arith) (omega arith) b)
]

print_fuel-IsDigit : (f n : ℕ) → All IsDigit (print_fuel f n)
unfolding print_fuel
print_fuel-IsDigit zero n = tt
print_fuel-IsDigit (suc f) n = elim (Bool-cases (ltb n 10)) [
  | inl small ↦ rw small (ground arith)
  | inr more ↦
      rw more
        (All-append IsDigit (print_fuel f (n / 10)) _ (print_fuel-IsDigit f (n / 10)) (omega arith))
]

-- A printed number has digits only.
pub print_dec-IsDigit : (n : ℕ) → All IsDigit (print_dec n)
unfolding print_dec
print_dec-IsDigit n = print_fuel-IsDigit (suc n) n

print_fuel-ne-nil : (f n : ℕ) → n < f → print_fuel f n ≢ []
unfolding print_fuel
print_fuel-ne-nil zero n h e = absurd (omega arith)
print_fuel-ne-nil (suc f) n h e =
    ground (arith, ap length e, length-append (print_fuel f (n / 10)) ((b'0' + n % 10) ∷ []))

pub print_dec-ne-nil : (n : ℕ) → print_dec n ≢ []
unfolding print_dec
print_dec-ne-nil n = print_fuel-ne-nil (suc n) n (omega arith)

-- Without a sign in front the whole text is digits.
pub parse_uint_unsigned :
    (radix bound : ℕ) (s : Text)
    → All IsDigit s
    → s ≢ []
    → parse_uint radix bound s ≡ parse_digits radix bound 0 s
unfolding parse_uint
parse_uint_unsigned radix bound [] h ne = absurd (ne refl)
parse_uint_unsigned radix bound (c ∷ s) h ne =
    let signless : (c == b'+') ≡ false = ground arith in rw signless

-- Parsing undoes printing, for every number that fits the type.
pub parse_uint-print_dec : (bound n : ℕ) → n < bound → parse_uint 10 bound (print_dec n) ≡ some n
unfolding print_dec parse_digits
parse_uint-print_dec bound n h =
    parse_uint_unsigned 10 bound (print_dec n) (print_dec-IsDigit n) (print_dec-ne-nil n) ∙ digits
  where
    digits : parse_digits 10 bound 0 (print_dec n) ≡ some n
    digits = rw (append-nil) at (parse_digits-print (suc n) n bound [] (omega arith) h)
