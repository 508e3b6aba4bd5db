-- ===== src/Mgba/Messages/Grammar.antt =====
-- crates/mgba/src/protocol.rs and ipc_transport.rs: the texts that the gateway writes are read as the
-- commands that they mean.
use native.Mathlib.Nat.{mod-eq_of_lt}
use mgba_server.Common.{ℕ, ◌≡◌, ◌<◌, ◌≤◌, refl, List, [], ◌∷◌, ◌++◌, none, some, length, All, arith}
use mgba_server.Common.Maybe.{◌>>=◌}
use mgba_server.Common.Text.{
  Text, codes, text_beq, strip_prefix, strip_suffix-append, splitn-tail_join, tail_join, FreeOf,
  print_dec, IsDigit, print_dec-IsDigit, parse_uint-print_dec,
}
use mgba_server.Common.Bytes.{le16, le32, u32_mod}
use mgba_server.Ipc.{WorkerCommand, WorkerCommandV1}
use mgba_server.Mgba.Messages.{
  comma, termination_marker, format_message, parse_command, parse_message_to_command, parse_address,
}

-- The requests of the gateway with their numbers.
pub data Request : Type 0 where
  read8 read16 : (address : ℕ) → Request
  read_range : (address size : ℕ) → Request
  write8 write16 write32 : (address value : ℕ) → Request
  save_slot load_slot : (slot : ℕ) → Request
  button_tap : (button : Text) → Request
  button_hold : (button : Text) (duration : ℕ) → Request
  current_frame screenshot reset restart health : Request

abbrev pub name : Request → Text
name (Request.read8 a) = codes "core.read8"
name (Request.read16 a) = codes "core.read16"
name (Request.read_range a n) = codes "core.readRange"
name (Request.write8 a v) = codes "core.write8"
name (Request.write16 a v) = codes "core.write16"
name (Request.write32 a v) = codes "core.write32"
name (Request.save_slot n) = codes "core.saveStateSlot"
name (Request.load_slot n) = codes "core.loadStateSlot"
name (Request.button_tap b) = codes "mgba-http.button.tap"
name (Request.button_hold b n) = codes "mgba-http.button.hold"
name Request.current_frame = codes "core.currentFrame"
name Request.screenshot = codes "core.screenshot"
name Request.reset = codes "core.reset"
name Request.restart = codes "restart"
name Request.health = codes "health"

abbrev pub args : Request → List Text
args (Request.read8 a) = print_dec a ∷ []
args (Request.read16 a) = print_dec a ∷ []
args (Request.read_range a n) = print_dec a ∷ print_dec n ∷ []
args (Request.write8 a v) = print_dec a ∷ print_dec v ∷ []
args (Request.write16 a v) = print_dec a ∷ print_dec v ∷ []
args (Request.write32 a v) = print_dec a ∷ print_dec v ∷ []
args (Request.save_slot n) = print_dec n ∷ []
args (Request.load_slot n) = print_dec n ∷ []
args (Request.button_tap b) = b ∷ []
args (Request.button_hold b n) = b ∷ print_dec n ∷ []
args Request.current_frame = []
args Request.screenshot = []
args Request.reset = []
args Request.restart = []
args Request.health = []

-- The numbers that fit the command's fields, and button names without a comma.
abbrev pub IsFitting : Request → Type 0
IsFitting (Request.read8 a) = a < u32_mod
IsFitting (Request.read16 a) = a < u32_mod
IsFitting (Request.read_range a n) = (a < u32_mod) × (n < u32_mod)
IsFitting (Request.write8 a v) = (a < u32_mod) × (v < 256)
IsFitting (Request.write16 a v) = (a < u32_mod) × (v < 65536)
IsFitting (Request.write32 a v) = (a < u32_mod) × (v < u32_mod)
IsFitting (Request.save_slot n) = n < 256
IsFitting (Request.load_slot n) = n < 256
IsFitting (Request.button_tap b) = FreeOf comma b
IsFitting (Request.button_hold b n) = FreeOf comma b × (n < u32_mod)
IsFitting Request.current_frame = Unit {0}
IsFitting Request.screenshot = Unit {0}
IsFitting Request.reset = Unit {0}
IsFitting Request.restart = Unit {0}
IsFitting Request.health = Unit {0}

abbrev pub command : Request → WorkerCommandV1
command (Request.read8 a) = WorkerCommandV1.read_memory a 1
command (Request.read16 a) = WorkerCommandV1.read_memory a 2
command (Request.read_range a n) = WorkerCommandV1.read_memory a n
command (Request.write8 a v) = WorkerCommandV1.write_memory a (v ∷ [])
command (Request.write16 a v) = WorkerCommandV1.write_memory a (le16 v)
command (Request.write32 a v) = WorkerCommandV1.write_memory a (le32 v)
command (Request.save_slot n) = WorkerCommandV1.save_state n
command (Request.load_slot n) = WorkerCommandV1.load_state n
command (Request.button_tap b) = WorkerCommandV1.button_tap b
command (Request.button_hold b n) = WorkerCommandV1.button_hold b n
command Request.current_frame = WorkerCommandV1.get_current_frame
command Request.screenshot = WorkerCommandV1.take_screenshot
command Request.reset = WorkerCommandV1.reset
command Request.restart = WorkerCommandV1.reset
command Request.health = WorkerCommandV1.ping

digits-FreeOf : (s : Text) → All IsDigit s → FreeOf comma s
digits-FreeOf [] h = tt
digits-FreeOf (c ∷ s) h = (ground (arith, h.0), digits-FreeOf s h.1)

print_dec-FreeOf : (n : ℕ) → FreeOf comma (print_dec n)
print_dec-FreeOf n = digits-FreeOf (print_dec n) (print_dec-IsDigit n)

no_prefix : (x : ℕ) (s : Text) → b'9' < x → All IsDigit s → strip_prefix (b'0' ∷ x ∷ []) s ≡ none
unfolding strip_prefix
no_prefix x [] big h = refl
no_prefix x (c ∷ []) big h = ground arith
no_prefix x (c ∷ d ∷ s) big h = ground arith

parse_address-print_dec : (n : ℕ) → n < u32_mod → parse_address (print_dec n) ≡ some n
unfolding parse_address
parse_address-print_dec n h =
    rw
      (
        parse_address,
        no_prefix b'x' (print_dec n) (omega arith) (print_dec-IsDigit n),
        no_prefix b'X' (print_dec n) (omega arith) (print_dec-IsDigit n),
      )
      (parse_uint-print_dec u32_mod n h)

-- A message with at most nine arguments is taken apart into its name and its arguments, if none has
-- a comma.
pub parse-format_message :
    (message_type : Text) (arguments : List Text)
    → length arguments ≤ 9
    → FreeOf comma message_type
    → All (FreeOf comma) arguments
    → parse_message_to_command (format_message message_type arguments)
      ≡ (do cmd ← parse_command message_type arguments; some (WorkerCommand.v1 cmd))
unfolding parse_message_to_command format_message
parse-format_message message_type arguments few free frees =
    rw (strip_suffix-append (message_type ++ tail_join comma arguments) termination_marker)
      (rw (splitn-tail_join 10 comma message_type arguments (omega arith) free frees))

pub name-FreeOf : (r : Request) → FreeOf comma (name r)
name-FreeOf (Request.read8 a) = ground arith
name-FreeOf (Request.read16 a) = ground arith
name-FreeOf (Request.read_range a n) = ground arith
name-FreeOf (Request.write8 a v) = ground arith
name-FreeOf (Request.write16 a v) = ground arith
name-FreeOf (Request.write32 a v) = ground arith
name-FreeOf (Request.save_slot n) = ground arith
name-FreeOf (Request.load_slot n) = ground arith
name-FreeOf (Request.button_tap b) = ground arith
name-FreeOf (Request.button_hold b n) = ground arith
name-FreeOf Request.current_frame = ground arith
name-FreeOf Request.screenshot = ground arith
name-FreeOf Request.reset = ground arith
name-FreeOf Request.restart = ground arith
name-FreeOf Request.health = ground arith

pub args-FreeOf : (r : Request) → IsFitting r → All (FreeOf comma) (args r)
args-FreeOf (Request.read8 a) h = (print_dec-FreeOf a, tt)
args-FreeOf (Request.read16 a) h = (print_dec-FreeOf a, tt)
args-FreeOf (Request.read_range a n) h = (print_dec-FreeOf a, (print_dec-FreeOf n, tt))
args-FreeOf (Request.write8 a v) h = (print_dec-FreeOf a, (print_dec-FreeOf v, tt))
args-FreeOf (Request.write16 a v) h = (print_dec-FreeOf a, (print_dec-FreeOf v, tt))
args-FreeOf (Request.write32 a v) h = (print_dec-FreeOf a, (print_dec-FreeOf v, tt))
args-FreeOf (Request.save_slot n) h = (print_dec-FreeOf n, tt)
args-FreeOf (Request.load_slot n) h = (print_dec-FreeOf n, tt)
args-FreeOf (Request.button_tap b) h = (h, tt)
args-FreeOf (Request.button_hold b n) h = (h.0, (print_dec-FreeOf n, tt))
args-FreeOf Request.current_frame h = tt
args-FreeOf Request.screenshot h = tt
args-FreeOf Request.reset h = tt
args-FreeOf Request.restart h = tt
args-FreeOf Request.health h = tt

few_args : (r : Request) → length (args r) ≤ 9
few_args (Request.read8 a) = omega arith
few_args (Request.read16 a) = omega arith
few_args (Request.read_range a n) = omega arith
few_args (Request.write8 a v) = omega arith
few_args (Request.write16 a v) = omega arith
few_args (Request.write32 a v) = omega arith
few_args (Request.save_slot n) = omega arith
few_args (Request.load_slot n) = omega arith
few_args (Request.button_tap b) = omega arith
few_args (Request.button_hold b n) = omega arith
few_args Request.current_frame = omega arith
few_args Request.screenshot = omega arith
few_args Request.reset = omega arith
few_args Request.restart = omega arith
few_args Request.health = omega arith

parse_command-request :
    (r : Request) → IsFitting r → parse_command (name r) (args r) ≡ some (command r)
unfolding parse_command text_beq
parse_command-request (Request.read8 a) h = rw (parse_address-print_dec a h)
parse_command-request (Request.read16 a) h = rw (parse_address-print_dec a h)
parse_command-request (Request.read_range a n) h =
    rw (parse_address-print_dec a h.0, parse_uint-print_dec u32_mod n h.1)
parse_command-request (Request.write8 a v) h = rw (
  parse_address-print_dec a h.0,
  parse_address-print_dec v (omega (arith, h.1)),
  mod-eq_of_lt h.1,
)
parse_command-request (Request.write16 a v) h = rw (
  parse_address-print_dec a h.0,
  parse_address-print_dec v (omega (arith, h.1)),
  mod-eq_of_lt h.1,
)
parse_command-request (Request.write32 a v) h =
    rw (parse_address-print_dec a h.0, parse_address-print_dec v h.1)
parse_command-request (Request.save_slot n) h = rw (parse_uint-print_dec 256 n h)
parse_command-request (Request.load_slot n) h = rw (parse_uint-print_dec 256 n h)
parse_command-request (Request.button_tap b) h = refl
parse_command-request (Request.button_hold b n) h = rw (parse_uint-print_dec u32_mod n h.1)
parse_command-request Request.current_frame h = refl
parse_command-request Request.screenshot h = refl
parse_command-request Request.reset h = refl
parse_command-request Request.restart h = refl
parse_command-request Request.health h = refl

-- Every request whose numbers fit their fields and whose button has no comma, written with decimal
-- numbers, is parsed as the command that it means.
pub parse-format_request :
    (r : Request)
    → IsFitting r
    → parse_message_to_command (format_message (name r) (args r))
      ≡ some (WorkerCommand.v1 (command r))
parse-format_request r h = rw (
  parse-format_message (name r) (args r) (few_args r) (name-FreeOf r) (args-FreeOf r h),
  parse_command-request r h,
)
