-- ===== src/Gateway/Validate/Accepted.antt =====
-- crates/gateway/src/lib.rs: the commands that the check accepts.
use mgba_server.Common.{
  ◌≡◌, refl, ap, ◌∙◌, List, [], ◌∷◌, ◌++◌, some, if◌then◌else◌, Bool, true, false, ◌||◌, Result, ok,
  ok_or, ◌>>=◌, ◌>>◌, Option-cases, Result-cases, inl, inr, arith,
}
use mgba_server.Common.Text.{
  Text, codes, text_beq, text_beq_iff, strip_suffix, strip_suffix_sound, split, tail_join-split,
}
use mgba_server.Mgba.Messages.{termination_marker, comma, next, format_message}
use mgba_server.Gateway.Validate.Forms.{
  IsDecimal, IsNumber, IsButton, or_cases, is_decimal_arg_lem, is_numeric_arg_lem,
  is_valid_button_lem,
}
use mgba_server.Gateway.Validate.{
  is_decimal_arg, is_numeric_arg, is_valid_button, check_one, check_two, check_none, check_args,
  validate_command,
}

-- The forms of a command: its name and what its arguments are.
pub data IsAccepted : Text → List Text → Type 0 where
  read8 : (a : Text) → IsNumber a → IsAccepted (codes "core.read8") (a ∷ [])
  read16 : (a : Text) → IsNumber a → IsAccepted (codes "core.read16") (a ∷ [])
  read_range :
      (a n : Text) → IsNumber a → IsDecimal n → IsAccepted (codes "core.readRange") (a ∷ n ∷ [])
  write8 : (a v : Text) → IsNumber a → IsNumber v → IsAccepted (codes "core.write8") (a ∷ v ∷ [])
  write16 : (a v : Text) → IsNumber a → IsNumber v → IsAccepted (codes "core.write16") (a ∷ v ∷ [])
  write32 : (a v : Text) → IsNumber a → IsNumber v → IsAccepted (codes "core.write32") (a ∷ v ∷ [])
  save_slot : (n : Text) → IsDecimal n → IsAccepted (codes "core.saveStateSlot") (n ∷ [])
  load_slot : (n : Text) → IsDecimal n → IsAccepted (codes "core.loadStateSlot") (n ∷ [])
  reset : IsAccepted (codes "core.reset") []
  current_frame : IsAccepted (codes "core.currentFrame") []
  tap : (b : Text) → IsButton b → IsAccepted (codes "mgba-http.button.tap") (b ∷ [])
  hold :
      (b n : Text)
      → IsButton b
      → IsDecimal n
      → IsAccepted (codes "mgba-http.button.hold") (b ∷ n ∷ [])

-- The arguments of a command with one, two or no arguments that pass the check.
abbrev One : (Text → Bool) → List Text → Type 0
One valid parts = (a : Text) × (parts ≡ a ∷ []) × (valid a ≡ true)

abbrev Two : (Text → Bool) → (Text → Bool) → List Text → Type 0
Two valid valid₂ parts =
    (a : Text) × ((b : Text) × ((parts ≡ a ∷ b ∷ []) × (valid a ≡ true) × (valid₂ b ≡ true)))

check_one-One :
    (valid : Text → Bool) (missing invalid : Text) (parts : List Text)
    → check_one valid missing invalid parts ≡ ok tt
    → One valid parts
check_one-One valid missing invalid [] e = absurd (cc e)
check_one-One valid missing invalid (a ∷ []) e = (a, refl, ground (arith, e))
check_one-One valid missing invalid (a ∷ b ∷ parts) e = absurd (cc e)

check_two-Two :
    (valid valid₂ : Text → Bool) (missing missing₂ invalid : Text) (parts : List Text)
    → check_two valid valid₂ missing missing₂ invalid parts ≡ ok tt
    → Two valid valid₂ parts
check_two-Two valid valid₂ missing missing₂ invalid [] e = absurd (cc e)
check_two-Two valid valid₂ missing missing₂ invalid (a ∷ []) e = absurd (cc e)
check_two-Two valid valid₂ missing missing₂ invalid (a ∷ b ∷ []) e =
    (a, (b, (refl, ground (arith, e), ground (arith, e))))
check_two-Two valid valid₂ missing missing₂ invalid (a ∷ b ∷ c ∷ parts) e = absurd (cc e)

check_none-nil :
    (invalid : Text) (parts : List Text) → check_none invalid parts ≡ ok tt → parts ≡ []
check_none-nil invalid [] e = refl
check_none-nil invalid (a ∷ parts) e = absurd (cc e)

abbrev Sound : Text → List Text → Result Text (Unit {0}) → Type 0
Sound name parts r = r ≡ ok tt → IsAccepted name parts

if_Sound :
    (name : Text) (parts : List Text) (test : Bool) (p q : Result Text (Unit {0}))
    → (test ≡ true → Sound name parts p)
    → Sound name parts q
    → Sound name parts (if test then p else q)
if_Sound name parts true p q hp hq = hp refl
if_Sound name parts false p q hp hq = hq

one_Sound :
    (name word : Text) (parts : List Text) (valid : Text → Bool)
    → ((a : Text) → valid a ≡ true → IsAccepted word (a ∷ []))
    → text_beq name word ≡ true
    → One valid parts
    → IsAccepted name parts
one_Sound name word parts valid form t (a, e, v) = rw ((text_beq_iff name word).0 t, e) (form a v)

two_Sound :
    (name word : Text) (parts : List Text) (valid valid₂ : Text → Bool)
    → ((a b : Text) → valid a ≡ true → valid₂ b ≡ true → IsAccepted word (a ∷ b ∷ []))
    → text_beq name word ≡ true
    → Two valid valid₂ parts
    → IsAccepted name parts
two_Sound name word parts valid valid₂ form t (a, (b, (e, v, v₂))) =
    rw ((text_beq_iff name word).0 t, e) (form a b v v₂)

none_Sound :
    (name word : Text) (parts : List Text)
    → IsAccepted word []
    → text_beq name word ≡ true
    → parts ≡ []
    → IsAccepted name parts
none_Sound name word parts form t e = rw ((text_beq_iff name word).0 t, e) form

read_Sound :
    (name : Text) (parts : List Text)
    → (text_beq name (codes "core.read8") || text_beq name (codes "core.read16")) ≡ true
    → One is_numeric_arg parts
    → IsAccepted name parts
read_Sound name parts t h =
    elim (or_cases (text_beq name (codes "core.read8")) (text_beq name (codes "core.read16")) t) [
      | inl e ↦
          one_Sound name (codes "core.read8") parts is_numeric_arg
            (λ a v. read8 a (is_numeric_arg_lem a v)) e h
      | inr e ↦
          one_Sound name (codes "core.read16") parts is_numeric_arg
            (λ a v. read16 a (is_numeric_arg_lem a v)) e h
    ]

slot_Sound :
    (name : Text) (parts : List Text)
    → (text_beq name (codes "core.saveStateSlot") || text_beq name (codes "core.loadStateSlot"))
      ≡ true
    → One is_decimal_arg parts
    → IsAccepted name parts
slot_Sound name parts t h =
    elim (or_cases (text_beq name (codes "core.saveStateSlot"))
      (text_beq name (codes "core.loadStateSlot")) t) [
        | inl e ↦
            one_Sound name (codes "core.saveStateSlot") parts is_decimal_arg
              (λ n v. save_slot n (is_decimal_arg_lem n v)) e h
        | inr e ↦
            one_Sound name (codes "core.loadStateSlot") parts is_decimal_arg
              (λ n v. load_slot n (is_decimal_arg_lem n v)) e h
      ]

write_Sound :
    (name : Text) (parts : List Text)
    → (text_beq name (codes "core.write8")
        || text_beq name (codes "core.write16")
        || text_beq name (codes "core.write32"))
      ≡ true
    → Two is_numeric_arg is_numeric_arg parts
    → IsAccepted name parts
write_Sound name parts t h =
    let e8 = text_beq name (codes "core.write8") in
    let e16 = text_beq name (codes "core.write16") in
    elim (or_cases (e8 || e16) (text_beq name (codes "core.write32")) t) [
      | inr e ↦
          two_Sound name (codes "core.write32") parts is_numeric_arg is_numeric_arg
            (λ a b v w. write32 a b (is_numeric_arg_lem a v) (is_numeric_arg_lem b w)) e h
      | inl few ↦ elim (or_cases e8 e16 few) [
        | inl e ↦
            two_Sound name (codes "core.write8") parts is_numeric_arg is_numeric_arg
              (λ a b v w. write8 a b (is_numeric_arg_lem a v) (is_numeric_arg_lem b w)) e h
        | inr e ↦
            two_Sound name (codes "core.write16") parts is_numeric_arg is_numeric_arg
              (λ a b v w. write16 a b (is_numeric_arg_lem a v) (is_numeric_arg_lem b w)) e h
      ]
    ]

check_args-Sound : (name : Text) (parts : List Text) → Sound name parts (check_args name parts)
unfolding check_args
check_args-Sound name parts =
    if_Sound name parts _ _ _
      (λ t e. read_Sound name parts t (check_one-One is_numeric_arg _ _ parts e))
      (if_Sound name parts _ _ _
        (λ t e.
          two_Sound name (codes "core.readRange") parts is_numeric_arg is_decimal_arg
            (λ a n v w. read_range a n (is_numeric_arg_lem a v) (is_decimal_arg_lem n w)) t
            (check_two-Two is_numeric_arg is_decimal_arg _ _ _ parts e))
        (if_Sound name parts _ _ _
          (λ t e.
            write_Sound name parts t (check_two-Two is_numeric_arg is_numeric_arg _ _ _ parts e))
          (if_Sound name parts _ _ _
            (λ t e. slot_Sound name parts t (check_one-One is_decimal_arg _ _ parts e))
            (if_Sound name parts _ _ _
              (λ t e. none_Sound name (codes "core.reset") parts reset t (check_none-nil _ parts e))
              (if_Sound name parts _ _ _
                (λ t e.
                  none_Sound name (codes "core.currentFrame") parts current_frame t
                    (check_none-nil _ parts e))
                (if_Sound name parts _ _ _
                  (λ t e.
                    one_Sound name (codes "mgba-http.button.tap") parts is_valid_button
                      (λ b v. tap b (is_valid_button_lem b v)) t
                      (check_one-One is_valid_button _ _ parts e))
                  (if_Sound name parts _ _ _
                    (λ t e.
                      two_Sound name (codes "mgba-http.button.hold") parts is_valid_button
                        is_decimal_arg
                        (λ b n v w. hold b n (is_valid_button_lem b v) (is_decimal_arg_lem n w)) t
                        (check_two-Two is_valid_button is_decimal_arg _ _ _ parts e))
                    (λ e. absurd (cc e)))))))))

-- A command that passes the check is unchanged, and it is the message of one of twelve names with
-- the number of arguments of that name, where an address or a value has only decimal digits, or 0x and
-- hexadecimal digits, a length, a slot or a duration has only decimal digits, each at least one, and
-- a button is one of the ten names.
pub validate_command-IsAccepted :
    (command result : Text)
    → validate_command command ≡ ok result
    → (result ≡ command)
      × ((name : Text) × ((args : List Text) × ((command ≡ format_message name args)
              × IsAccepted name args)))
unfolding validate_command format_message
validate_command-IsAccepted command result e =
    elim (Option-cases (strip_suffix termination_marker command)) [
      | inl missing ↦ absurd (cc (rw (missing, validate_command) at e))
      | inr (body, found) ↦
          of_parts body (split comma body) refl found (rw (found, validate_command) at e)
    ]
  where
    of_parts :
        (body : Text) (ps : List Text)
        → split comma body ≡ ps
        → strip_suffix termination_marker command ≡ some body
        → (do
          (name, parts) ← ok_or (next ps) (codes "missing command")
          check_args name parts
          ok command)
          ≡ ok result
        → (result ≡ command)
          × ((name : Text) × ((args : List Text) × ((command ≡ format_message name args)
                  × IsAccepted name args)))
    of_parts body [] s found e' = absurd (cc e')
    of_parts body (name ∷ args) s found e' = elim (Result-cases (check_args name args)) [
      | inr (x, bad) ↦ absurd (cc (rw bad at e'))
      | inl (u, good) ↦
          let joined = tail_join-split comma body name args s in
          let whole = strip_suffix_sound termination_marker command found in
          (
            cc (rw good at e'),
            (
              name,
              (
                args,
                (
                  whole ∙ ap (λ b. b ++ termination_marker) joined.0,
                  check_args-Sound name args good,
                ),
              ),
            ),
          )
    ]
