-- ===== src/Mgba/Messages.antt =====
-- crates/mgba/src/protocol.rs and ipc_transport.rs: the command texts, their translation to worker
-- commands, and the texts of the responses.
pub mod Grammar
pub mod Safety
mod Runs
use mgba_server.Common.{
  ℕ, ◌*◌, ◌/◌, ◌%◌, ◌^◌, ◌+◌, List, [], ◌∷◌, ◌++◌, Option, none, some, ltb, ◌==◌, if◌then◌else◌,
  Bool, ◌||◌,
}
use mgba_server.Common.Maybe.{◌>>=◌, unwrap_or}
use mgba_server.Common.Text.{
  Text, codes, text_beq, strip_prefix, strip_suffix, splitn, tail_join, parse_uint, print_dec,
}
use mgba_server.Common.Bytes.{le16, le32, from_le16, u32_mod}
use mgba_server.Ipc.{WorkerCommand, WorkerCommandV1, WorkerResponse, WorkerResponseV1}

abbrev pub termination_marker : Text
termination_marker = codes "<|END|>"

abbrev pub success_marker : Text
success_marker = codes "<|SUCCESS|>"

abbrev pub comma : ℕ
comma = b','

-- With no arguments the loop over them writes nothing.
unfoldable pub format_message : Text → List Text → Text
format_message message_type args = (message_type ++ tail_join comma args) ++ termination_marker

-- `parts.next()?`
abbrev pub next : List Text → Option (Text × List Text)
next [] = none
next (p ∷ ps) = some (p, ps)

unfoldable pub parse_address : Text → Option ℕ
parse_address s = elim (strip_prefix (codes "0x") s) [
  | some hex ↦ parse_uint 16 u32_mod hex
  | none ↦ elim (strip_prefix (codes "0X") s) [
    | some hex ↦ parse_uint 16 u32_mod hex
    | none ↦ parse_uint 10 u32_mod s
  ]
]

abbrev read_args : ℕ → List Text → Option WorkerCommandV1
read_args size parts = do
  (a, rest) ← next parts
  address ← parse_address a
  some (WorkerCommandV1.read_memory address size)

abbrev read_range_args : List Text → Option WorkerCommandV1
read_range_args parts = do
  (a, rest) ← next parts
  address ← parse_address a
  (n, rest') ← next rest
  size ← parse_uint 10 u32_mod n
  some (WorkerCommandV1.read_memory address size)

-- `to_bytes` is the cast of the value and `to_le_bytes`.
abbrev write_args : (ℕ → List ℕ) → List Text → Option WorkerCommandV1
write_args to_bytes parts = do
  (a, rest) ← next parts
  address ← parse_address a
  (v, rest') ← next rest
  value ← parse_address v
  some (WorkerCommandV1.write_memory address (to_bytes value))

abbrev slot_args : (ℕ → WorkerCommandV1) → List Text → Option WorkerCommandV1
slot_args command parts = do (t, rest) ← next parts; slot ← parse_uint 10 256 t; some (command slot)

abbrev tap_args : List Text → Option WorkerCommandV1
tap_args parts = do (button, rest) ← next parts; some (WorkerCommandV1.button_tap button)

abbrev hold_args : List Text → Option WorkerCommandV1
hold_args parts = do
  (button, rest) ← next parts
  let duration = (do (d, rest') ← next rest; parse_uint 10 u32_mod d)
  some (WorkerCommandV1.button_hold button (unwrap_or duration 15))

-- The `match` on the command's name.
unfoldable pub parse_command : Text → List Text → Option WorkerCommandV1
parse_command name parts =
    if text_beq name (codes "core.read8")
    then read_args 1 parts
    else if text_beq name (codes "core.read16")
    then read_args 2 parts
    else if text_beq name (codes "core.readRange")
    then read_range_args parts
    else if text_beq name (codes "core.write8")
    then write_args (λ v. (v % 256) ∷ []) parts
    else if text_beq name (codes "core.write16")
    then write_args (λ v. le16 (v % 65536)) parts
    else if text_beq name (codes "core.write32")
    then write_args le32 parts
    else if text_beq name (codes "core.currentFrame")
    then some WorkerCommandV1.get_current_frame
    else if text_beq name (codes "core.screenshot")
    then some WorkerCommandV1.take_screenshot
    else if text_beq name (codes "core.saveStateSlot")
    then slot_args WorkerCommandV1.save_state parts
    else if text_beq name (codes "core.loadStateSlot")
    then slot_args WorkerCommandV1.load_state parts
    else if text_beq name (codes "core.reset") || text_beq name (codes "restart")
    then some WorkerCommandV1.reset
    else if text_beq name (codes "mgba-http.button.tap")
    then tap_args parts
    else if text_beq name (codes "mgba-http.button.hold")
    then hold_args parts
    else if text_beq name (codes "health")
    then some WorkerCommandV1.ping
    else none

unfoldable pub parse_message_to_command : Text → Option WorkerCommand
parse_message_to_command message = do
  body ← strip_suffix termination_marker message
  (cmd_name, parts) ← next (splitn 10 comma body)
  cmd ← parse_command cmd_name parts
  some (WorkerCommand.v1 cmd)

abbrev hex_digit : ℕ → ℕ
hex_digit d = if ltb d 10 then b'0' + d else b'W' + d

-- `data.iter().map(|b| format!("{b:02x}")).collect()`
unfoldable pub hex_text : List ℕ → Text
hex_text [] = []
hex_text (b ∷ bytes) = hex_digit (b / 16) ∷ hex_digit (b % 16) ∷ hex_text bytes

abbrev memory_text : List ℕ → Text
memory_text (a ∷ []) = print_dec a
memory_text (a ∷ b ∷ []) = print_dec (from_le16 a b)
memory_text bytes = hex_text bytes

unfoldable pub response_to_string : WorkerResponse → Text
response_to_string (WorkerResponse.v1 WorkerResponseV1.pong) = codes "pong" ++ success_marker
response_to_string (WorkerResponse.v1 WorkerResponseV1.ok) = codes "ok" ++ success_marker
response_to_string (WorkerResponse.v1 (WorkerResponseV1.memory_data bytes)) =
    memory_text bytes ++ success_marker
response_to_string (WorkerResponse.v1 (WorkerResponseV1.current_frame n)) =
    print_dec n ++ success_marker
response_to_string (WorkerResponse.v1 (WorkerResponseV1.state_data bytes)) =
    codes "ok" ++ success_marker
response_to_string (WorkerResponse.v1 (WorkerResponseV1.screenshot png)) =
    codes "ok" ++ success_marker
response_to_string (WorkerResponse.v1 (WorkerResponseV1.error message)) = codes "error:" ++ message
response_to_string (WorkerResponse.v1 (WorkerResponseV1.frame w h p f bytes)) =
    codes "ok" ++ success_marker
