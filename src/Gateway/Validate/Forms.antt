-- ===== src/Gateway/Validate/Forms.antt =====
-- crates/gateway/src/lib.rs: what the tests of an argument accept, in terms of characters.
use mgba_server.Common.{
  ℕ, ◌≤◌, ◌≡◌, ◌≢◌, ◌⊎◌, refl, [], ◌∷◌, ◌++◌, some, Bool, true, false, not, ◌||◌, ◌&&◌, leb, ◌==◌,
  All, Bool-cases, Option-cases, inl, inr, arith,
}
use mgba_server.Common.Text.{
  Text, codes, text_beq, text_beq_iff, is_empty, all_chars, strip_prefix, IsDigit,
}
use mgba_server.Gateway.Validate.{
  is_ascii_digit, is_ascii_hexdigit, is_hex, is_decimal_arg, is_numeric_arg, is_valid_button,
}

-- A decimal number, a number that may also be 0x and hexadecimal digits, and a button's name.
abbrev pub IsDecimal : Text → Type 0
IsDecimal t = (t ≢ []) × All IsDigit t

abbrev pub IsHexDigit : ℕ → Type 0
IsHexDigit c = IsDigit c ⊎ (((b'a' ≤ c) × (c ≤ b'f')) ⊎ ((b'A' ≤ c) × (c ≤ b'F')))

abbrev pub IsNumber : Text → Type 0
IsNumber t =
    IsDecimal t ⊎ ((hex : Text) × ((t ≡ codes "0x" ++ hex) × (hex ≢ []) × All IsHexDigit hex))

pub data IsButton : Text → Type 0 where
  button_a : IsButton (codes "A")
  button_b : IsButton (codes "B")
  button_l : IsButton (codes "L")
  button_r : IsButton (codes "R")
  button_start : IsButton (codes "Start")
  button_select : IsButton (codes "Select")
  button_up : IsButton (codes "Up")
  button_down : IsButton (codes "Down")
  button_left : IsButton (codes "Left")
  button_right : IsButton (codes "Right")

pub or_cases : (a b : Bool) → (a || b) ≡ true → (a ≡ true) ⊎ (b ≡ true)
or_cases true b e = inl refl
or_cases false b e = inr e

and_true : (a b : Bool) → (a && b) ≡ true → (a ≡ true) × (b ≡ true)
and_true true b e = (refl, e)
and_true false b e = absurd (cc e)

not_empty : (s : Text) → not (is_empty s) ≡ true → s ≢ []
not_empty [] e = absurd (cc e)
not_empty (c ∷ s) e = λ nil. absurd (cc nil)

all_chars-All :
    (P : ℕ → Type 0) (test : ℕ → Bool)
    → ((c : ℕ) → test c ≡ true → P c)
    → (s : Text) → all_chars test s ≡ true
    → All P s
unfolding all_chars
all_chars-All P test h [] e = tt
all_chars-All P test h (c ∷ s) e =
    let (first, rest) = and_true (test c) (all_chars test s) e in
    (h c first, all_chars-All P test h s rest)

is_ascii_digit_lem : (c : ℕ) → is_ascii_digit c ≡ true → IsDigit c
is_ascii_digit_lem c e = ground (arith, e)

is_ascii_hexdigit_lem : (c : ℕ) → is_ascii_hexdigit c ≡ true → IsHexDigit c
is_ascii_hexdigit_lem c e =
    elim (or_cases (is_ascii_digit c || (leb b'a' c && leb c b'f')) (leb b'A' c && leb c b'F') e) [
      | inr upper ↦ inr (inr (ground (arith, upper)))
      | inl other ↦ elim (or_cases (is_ascii_digit c) (leb b'a' c && leb c b'f') other) [
        | inl digit ↦ inl (is_ascii_digit_lem c digit)
        | inr lower ↦ inr (inl (ground (arith, lower)))
      ]
    ]

pub is_decimal_arg_lem : (t : Text) → is_decimal_arg t ≡ true → IsDecimal t
unfolding is_decimal_arg
is_decimal_arg_lem t e =
    let (some_char, digits) = and_true (not (is_empty t)) (all_chars is_ascii_digit t) e in
    (not_empty t some_char, all_chars-All IsDigit is_ascii_digit is_ascii_digit_lem t digits)

strip_prefix_sound : (p s rest : Text) → strip_prefix p s ≡ some rest → s ≡ p ++ rest
unfolding strip_prefix
strip_prefix_sound [] s rest e = cc e
strip_prefix_sound (c ∷ p) [] rest e = absurd (cc e)
strip_prefix_sound (c ∷ p) (d ∷ s) rest e = elim (Bool-cases (c == d)) [
  | inl same ↦
      let tail = strip_prefix_sound p s rest (rw same at e) in
      let head : d ≡ c = ground (arith, same) in rw (head, tail) refl
  | inr other ↦ absurd (cc (rw other at e))
]

pub is_numeric_arg_lem : (t : Text) → is_numeric_arg t ≡ true → IsNumber t
unfolding is_numeric_arg
is_numeric_arg_lem t e =
    elim (or_cases (is_decimal_arg t) (is_hex (strip_prefix (codes "0x") t)) e) [
      | inl decimal ↦ inl (is_decimal_arg_lem t decimal)
      | inr prefixed ↦ elim (Option-cases (strip_prefix (codes "0x") t)) [
        | inl missing ↦ absurd (cc (rw missing at prefixed))
        | inr (hex, found) ↦
            let (some_char, digits) =
              and_true (not (is_empty hex)) (all_chars is_ascii_hexdigit hex)
                (rw found at prefixed) in
            inr (
              hex,
              (
                strip_prefix_sound (codes "0x") t hex found,
                not_empty hex some_char,
                all_chars-All IsHexDigit is_ascii_hexdigit is_ascii_hexdigit_lem hex digits,
              ),
            )
      ]
    ]

-- One more name of a button.
one_more_name :
    (t name : Text) (others : Bool)
    → IsButton name
    → (others ≡ true → IsButton t)
    → (others || text_beq t name) ≡ true
    → IsButton t
one_more_name t name others form rest e = elim (or_cases others (text_beq t name) e) [
  | inr same ↦ rw ((text_beq_iff t name).0 same) form
  | inl other ↦ rest other
]

pub is_valid_button_lem : (t : Text) → is_valid_button t ≡ true → IsButton t
unfolding is_valid_button
is_valid_button_lem t = one_more_name t (codes "Right") _ button_right (
    one_more_name t (codes "Left") _ button_left (
      one_more_name t (codes "Down") _ button_down (
        one_more_name t (codes "Up") _ button_up (
          one_more_name t (codes "Select") _ button_select (
            one_more_name t (codes "Start") _ button_start (
              one_more_name t (codes "R") _ button_r (
                one_more_name t (codes "L") _ button_l (
                  one_more_name t (codes "B") _ button_b
                    (λ e. rw ((text_beq_iff t (codes "A")).0 e) button_a)))))))))
