-- ===== src/Gateway/Validate/Runs.antt =====
-- Runs of the command check, and its theorems at concrete inputs.
use mgba_server.Common.{◌≡◌, refl, List, some, ok, err, arith}
use mgba_server.Common.Text.{Text, codes, text_beq, strip_suffix, split, all_chars}
use mgba_server.Ipc.{WorkerCommand}
use mgba_server.Mgba.Messages.{format_message, parse_message_to_command}
use mgba_server.Mgba.Messages.Grammar.{Request, name, args, command}
use mgba_server.Gateway.Validate.{
  is_decimal_arg, is_numeric_arg, is_valid_button, check_args, validate_command,
}
use mgba_server.Gateway.Validate.Accepted.{IsAccepted, validate_command-IsAccepted}
use mgba_server.Gateway.Validate.Requests.{validate-format_request}

abbrev hold_b : Text
hold_b = codes "mgba-http.button.hold,B,30<|END|>"

accepted : validate_command hold_b ≡ ok hold_b
unfolding validate_command strip_suffix split text_beq check_args is_valid_button is_decimal_arg
    all_chars
accepted = refl

injected : validate_command (codes "core.read8,1,2<|END|>") ≡ err (codes "invalid address")
unfolding validate_command strip_suffix split text_beq check_args is_numeric_arg is_decimal_arg
    all_chars
injected = refl

validate_command-IsAccepted_example :
    (hold_b ≡ hold_b)
    × ((name : Text) × ((args : List Text) × ((hold_b ≡ format_message name args)
            × IsAccepted name args)))
validate_command-IsAccepted_example = validate_command-IsAccepted hold_b hold_b accepted

validate-format_request_example :
    (let message =
        format_message (name (Request.read_range 49152 16)) (args (Request.read_range 49152 16)) in
      (validate_command message ≡ ok message)
      × (parse_message_to_command message
          ≡ some (WorkerCommand.v1 (command (Request.read_range 49152 16)))))
validate-format_request_example =
    validate-format_request (Request.read_range 49152 16) tt (omega arith)
