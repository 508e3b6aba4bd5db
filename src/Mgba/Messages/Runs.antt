-- ===== src/Mgba/Messages/Runs.antt =====
-- Runs of the message translation, and its theorems at concrete inputs.
use mgba_server.Common.{◌≡◌, refl, [], ◌∷◌, ◌++◌, some, arith}
use mgba_server.Common.Text.{
  Text, codes, text_beq, strip_prefix, strip_suffix, splitn, parse_uint, print_dec, to_digit,
}
use mgba_server.Common.Bytes.{from_le16}
use mgba_server.Ipc.{WorkerCommand, WorkerCommandV1, WorkerResponse, WorkerResponseV1}
use mgba_server.Mgba.Messages.{
  format_message, parse_message_to_command, parse_command, parse_address, response_to_string,
  termination_marker, hex_text,
}
use mgba_server.Mgba.Messages.Grammar.{Request, name, args, command, parse-format_request}
use mgba_server.Mgba.Messages.Safety.{IsHarmless, parse_message-IsHarmless}

hex_address :
    parse_message_to_command (codes "core.read16,0x1F<|END|>")
    ≡ some (WorkerCommand.v1 (WorkerCommandV1.read_memory 31 2))
unfolding parse_message_to_command parse_command parse_address text_beq strip_prefix strip_suffix
    splitn parse_uint to_digit
hex_address = refl

default_duration :
    parse_message_to_command (codes "mgba-http.button.hold,B<|END|>")
    ≡ some (WorkerCommand.v1 (WorkerCommandV1.button_hold (codes "B") 15))
unfolding parse_message_to_command parse_command text_beq strip_suffix splitn
default_duration = refl

two_bytes :
    response_to_string (WorkerResponse.v1 (WorkerResponseV1.memory_data (52 ∷ 18 ∷ [])))
    ≡ codes "4660<|SUCCESS|>"
unfolding response_to_string print_dec from_le16
two_bytes = refl

range_hex :
    response_to_string (WorkerResponse.v1 (WorkerResponseV1.memory_data (1 ∷ 171 ∷ 255 ∷ [])))
    ≡ codes "01abff<|SUCCESS|>"
unfolding response_to_string hex_text
range_hex = refl

parse-format_request_example :
    parse_message_to_command
      (format_message (name (Request.read_range 49152 16)) (args (Request.read_range 49152 16)))
    ≡ some (WorkerCommand.v1 (command (Request.read_range 49152 16)))
parse-format_request_example = parse-format_request (Request.read_range 49152 16) (omega arith)

write_read :
    parse_message_to_command (codes "core.write8,16,300<|END|>")
    ≡ some (WorkerCommand.v1 (WorkerCommandV1.write_memory 16 (44 ∷ [])))
unfolding parse_message_to_command parse_command parse_address text_beq strip_prefix strip_suffix
    splitn parse_uint to_digit
write_read = refl

parse_message-IsHarmless_example :
    IsHarmless (WorkerCommandV1.write_memory 16 (44 ∷ []))
    × ((body : Text) × (codes "core.write8,16,300<|END|>" ≡ body ++ termination_marker))
parse_message-IsHarmless_example =
    parse_message-IsHarmless (codes "core.write8,16,300<|END|>")
      (WorkerCommandV1.write_memory 16 (44 ∷ [])) write_read
