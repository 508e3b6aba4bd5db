-- ===== src/Gateway/Validate.antt =====
-- crates/gateway/src/lib.rs: the check of a command's text before it is sent to a worker.
pub mod Accepted
pub mod Forms
pub mod Requests
mod Runs
use mgba_server.Common.{
  ℕ, List, [], ◌∷◌, Option, none, some, leb, if◌then◌else◌, Bool, true, false, not, ◌&&◌, ◌||◌,
  is_some, Result, ok, err, ok_or, ◌>>=◌, ◌>>◌,
}
use mgba_server.Common.Text.{
  Text, codes, text_beq, strip_prefix, strip_suffix, split, all_chars, is_empty,
}
use mgba_server.Mgba.Messages.{termination_marker, comma, next, format_message}

-- `char::is_ascii_digit` and `char::is_ascii_hexdigit`
abbrev pub is_ascii_digit : ℕ → Bool
is_ascii_digit c = leb b'0' c && leb c b'9'

abbrev pub is_ascii_hexdigit : ℕ → Bool
is_ascii_hexdigit c = is_ascii_digit c || (leb b'a' c && leb c b'f') || (leb b'A' c && leb c b'F')

unfoldable pub is_decimal_arg : Text → Bool
is_decimal_arg value = not (is_empty value) && all_chars is_ascii_digit value

abbrev pub is_hex : Option Text → Bool
is_hex none = false
is_hex (some hex) = not (is_empty hex) && all_chars is_ascii_hexdigit hex

unfoldable pub is_numeric_arg : Text → Bool
unfolding is_decimal_arg
is_numeric_arg value = is_decimal_arg value || is_hex (strip_prefix (codes "0x") value)

unfoldable pub is_valid_button : Text → Bool
is_valid_button value =
    text_beq value (codes "A")
    || text_beq value (codes "B")
    || text_beq value (codes "L")
    || text_beq value (codes "R")
    || text_beq value (codes "Start")
    || text_beq value (codes "Select")
    || text_beq value (codes "Up")
    || text_beq value (codes "Down")
    || text_beq value (codes "Left")
    || text_beq value (codes "Right")

-- A command of one argument, the text for a missing one, and the text for a wrong or a further one.
abbrev pub check_one : (Text → Bool) → Text → Text → List Text → Result Text (Unit {0})
check_one valid missing invalid parts = do
  (a, rest) ← ok_or (next parts) missing
  if is_some (next rest) || not (valid a) then err invalid else ok tt

abbrev pub check_two :
    (Text → Bool) → (Text → Bool) → Text → Text → Text → List Text → Result Text (Unit {0})
check_two valid valid₂ missing missing₂ invalid parts = do
  (a, rest) ← ok_or (next parts) missing
  (b, rest₂) ← ok_or (next rest) missing₂
  if is_some (next rest₂) || not (valid a) || not (valid₂ b) then err invalid else ok tt

abbrev pub check_none : Text → List Text → Result Text (Unit {0})
check_none invalid parts = if is_some (next parts) then err invalid else ok tt

-- The `match` on the command's name.
unfoldable pub check_args : Text → List Text → Result Text (Unit {0})
unfolding is_numeric_arg is_decimal_arg is_valid_button
check_args name parts =
    if text_beq name (codes "core.read8") || text_beq name (codes "core.read16")
    then check_one is_numeric_arg (codes "missing address") (codes "invalid address") parts
    else if text_beq name (codes "core.readRange")
    then check_two is_numeric_arg is_decimal_arg (codes "missing address") (codes "missing length")
        (codes "invalid range") parts
    else if text_beq name (codes "core.write8")
        || text_beq name (codes "core.write16")
        || text_beq name (codes "core.write32")
    then check_two is_numeric_arg is_numeric_arg (codes "missing address") (codes "missing value")
        (codes "invalid write args") parts
    else if text_beq name (codes "core.saveStateSlot") || text_beq name (codes "core.loadStateSlot")
    then check_one is_decimal_arg (codes "missing slot") (codes "invalid slot") parts
    else if text_beq name (codes "core.reset")
    then check_none (codes "reset takes no args") parts
    else if text_beq name (codes "core.currentFrame")
    then check_none (codes "currentFrame takes no args") parts
    else if text_beq name (codes "mgba-http.button.tap")
    then check_one is_valid_button (codes "missing button") (codes "invalid button") parts
    else if text_beq name (codes "mgba-http.button.hold")
    then check_two is_valid_button is_decimal_arg (codes "missing button")
        (codes "missing duration") (codes "invalid hold") parts
    else err (codes "unsupported command")

unfoldable pub validate_command : Text → Result Text Text
unfolding check_args
validate_command command = do
  body ← ok_or (strip_suffix termination_marker command) (codes "invalid command terminator")
  (name, parts) ← ok_or (next (split comma body)) (codes "missing command")
  check_args name parts
  ok command
