-- ===== src/Gateway/Validate/Requests.antt =====
-- crates/gateway/src/lib.rs: the gateway's own requests pass its check.
use mgba_server.Common.{ℕ, ◌≡◌, ◌≢◌, refl, [], ◌∷◌, ◌++◌, some, true, false, ok, All, arith}
use mgba_server.Common.Text.{
  Text, text_beq, strip_suffix-append, split-tail_join, tail_join, all_chars, is_empty, print_dec,
  IsDigit, print_dec-IsDigit, print_dec-ne-nil,
}
use mgba_server.Ipc.{WorkerCommand}
use mgba_server.Mgba.Messages.{termination_marker, comma, format_message, parse_message_to_command}
use mgba_server.Mgba.Messages.Grammar.{
  Request, name, args, command, IsFitting, name-FreeOf, args-FreeOf, parse-format_request,
}
use mgba_server.Gateway.Validate.{
  is_ascii_digit, is_decimal_arg, is_numeric_arg, is_valid_button, check_args, validate_command,
}

-- The requests of the gateway's routes, with the buttons that it knows.
abbrev pub IsRoute : Request → Type 0
IsRoute (Request.button_tap b) = is_valid_button b ≡ true
IsRoute (Request.button_hold b n) = is_valid_button b ≡ true
IsRoute Request.screenshot = ⊥
IsRoute Request.restart = ⊥
IsRoute Request.health = ⊥
IsRoute request = Unit {0}

digits-all_chars : (s : Text) → All IsDigit s → all_chars is_ascii_digit s ≡ true
unfolding all_chars
digits-all_chars [] h = refl
digits-all_chars (c ∷ s) h = ground (arith, h.0, digits-all_chars s h.1)

ne_nil-is_empty : (s : Text) → s ≢ [] → is_empty s ≡ false
ne_nil-is_empty [] h = absurd (h refl)
ne_nil-is_empty (c ∷ s) h = refl

decimal-print_dec : (n : ℕ) → is_decimal_arg (print_dec n) ≡ true
unfolding is_decimal_arg
decimal-print_dec n =
    rw
      (
        ne_nil-is_empty (print_dec n) (print_dec-ne-nil n),
        digits-all_chars (print_dec n) (print_dec-IsDigit n),
      )
      refl

numeric-print_dec : (n : ℕ) → is_numeric_arg (print_dec n) ≡ true
unfolding is_numeric_arg
numeric-print_dec n = rw (decimal-print_dec n) refl

check_args-request : (r : Request) → IsRoute r → check_args (name r) (args r) ≡ ok tt
unfolding check_args text_beq
check_args-request (Request.read8 a) h = rw (numeric-print_dec a) refl
check_args-request (Request.read16 a) h = rw (numeric-print_dec a) refl
check_args-request (Request.read_range a n) h = rw (numeric-print_dec a, decimal-print_dec n) refl
check_args-request (Request.write8 a v) h = rw (numeric-print_dec a, numeric-print_dec v) refl
check_args-request (Request.write16 a v) h = rw (numeric-print_dec a, numeric-print_dec v) refl
check_args-request (Request.write32 a v) h = rw (numeric-print_dec a, numeric-print_dec v) refl
check_args-request (Request.save_slot n) h = rw (decimal-print_dec n) refl
check_args-request (Request.load_slot n) h = rw (decimal-print_dec n) refl
check_args-request (Request.button_tap b) h = rw h refl
check_args-request (Request.button_hold b n) h = rw (h, decimal-print_dec n) refl
check_args-request Request.current_frame h = refl
check_args-request Request.reset h = refl
check_args-request Request.screenshot h = absurd h
check_args-request Request.restart h = absurd h
check_args-request Request.health h = absurd h

-- Every request of the gateway's routes, with its numbers printed in decimal, whose numbers fit their
-- fields and whose button is known passes the check as it is written, and the worker's side parses it
-- as the command that it means. Numbers that a client writes with 0x are outside of this statement.
pub validate-format_request :
    (r : Request)
    → IsRoute r
    → IsFitting r
    → (let message = format_message (name r) (args r) in
        (validate_command message ≡ ok message)
        × (parse_message_to_command message ≡ some (WorkerCommand.v1 (command r))))
unfolding validate_command format_message
validate-format_request r route fits = (
  rw (strip_suffix-append (name r ++ tail_join comma (args r)) termination_marker) (
      rw (split-tail_join comma (name r) (args r) (name-FreeOf r) (args-FreeOf r fits))
        (rw (check_args-request r route) refl)),
  parse-format_request r fits,
)
