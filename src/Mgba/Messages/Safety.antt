-- ===== src/Mgba/Messages/Safety.antt =====
-- crates/mgba/src/ipc_transport.rs: what a text on the scheduler's transport can make the worker do.
use mgba_server.Common.{
  ℕ, ◌%◌, ◌≡◌, ◌<◌, ◌≤◌, refl, List, [], ◌∷◌, ◌++◌, Option, none, some, length, All, arith,
  if◌then◌else◌, inl, inr, Bool, true, false, ◌||◌, Option-cases,
}
use mgba_server.Common.Maybe.{◌>>=◌}
use mgba_server.Common.Text.{
  Text, codes, text_beq, strip_prefix, strip_suffix, strip_suffix_sound, splitn, parse_uint,
  parse_uint-lt,
}
use mgba_server.Common.Bytes.{le16, le32, u32_mod, IsByte}
use mgba_server.Ipc.{WorkerCommand, WorkerCommandV1}
use mgba_server.Mgba.Messages.{
  comma, termination_marker, parse_command, parse_message_to_command, parse_address, next,
  read_args, read_range_args, write_args, slot_args, tap_args, hold_args,
}

-- What a message may ask: no ROM is loaded, no input state is set, the worker is not shut down, and
-- the numbers fit their types.
abbrev pub IsHarmless : WorkerCommandV1 → Type 0
IsHarmless (WorkerCommandV1.load_rom path) = ⊥
IsHarmless (WorkerCommandV1.set_input_state keys) = ⊥
IsHarmless WorkerCommandV1.shutdown = ⊥
IsHarmless (WorkerCommandV1.read_memory a n) = (a < u32_mod) × (n < u32_mod)
IsHarmless (WorkerCommandV1.write_memory a bytes) =
    (a < u32_mod) × (length bytes ≤ 4) × All IsByte bytes
IsHarmless (WorkerCommandV1.save_state n) = n < 256
IsHarmless (WorkerCommandV1.load_state n) = n < 256
IsHarmless (WorkerCommandV1.button_hold b n) = n < u32_mod
IsHarmless (WorkerCommandV1.button_tap b) = Unit {0}
IsHarmless WorkerCommandV1.ping = Unit {0}
IsHarmless WorkerCommandV1.reset = Unit {0}
IsHarmless WorkerCommandV1.get_current_frame = Unit {0}
IsHarmless WorkerCommandV1.take_screenshot = Unit {0}

-- Each result of a parser for one command satisfies it.
abbrev Each : Option WorkerCommandV1 → Type 0
Each none = Unit {0}
Each (some c) = IsHarmless c

parse_address-lt : (s : Text) (n : ℕ) → parse_address s ≡ some n → n < u32_mod
unfolding parse_address
parse_address-lt s n e = elim (Option-cases (strip_prefix (codes "0x") s)) [
  | inr (hex, p) ↦ parse_uint-lt 16 u32_mod hex n (omega arith) (rw (p, parse_address) at e)
  | inl missing ↦ elim (Option-cases (strip_prefix (codes "0X") s)) [
    | inr (hex, p) ↦
        parse_uint-lt 16 u32_mod hex n (omega arith) (rw (missing, p, parse_address) at e)
    | inl missing₂ ↦
        parse_uint-lt 10 u32_mod s n (omega arith) (rw (missing, missing₂, parse_address) at e)
  ]
]

read_args-Each : (n : ℕ) (parts : List Text) → n < u32_mod → Each (read_args n parts)
read_args-Each n [] h = tt
read_args-Each n (a ∷ parts) h = elim (Option-cases (parse_address a)) [
  | inl missing ↦ rw missing tt
  | inr (v, e) ↦ rw e (parse_address-lt a v e, h)
]

read_range_args-Each : (parts : List Text) → Each (read_range_args parts)
read_range_args-Each [] = tt
read_range_args-Each (a ∷ []) = elim (Option-cases (parse_address a)) [
  | inl missing ↦ rw missing tt
  | inr (v, e) ↦ rw e tt
]
read_range_args-Each (a ∷ n ∷ parts) = elim (Option-cases (parse_address a)) [
  | inl missing ↦ rw missing tt
  | inr (v, e) ↦ elim (Option-cases (parse_uint 10 u32_mod n)) [
    | inl missing ↦ rw (e, missing) tt
    | inr (size, e') ↦
        rw (e, e') (parse_address-lt a v e, parse_uint-lt 10 u32_mod n size (omega arith) e')
  ]
]

write_args-Each :
    (to_bytes : ℕ → List ℕ) (parts : List Text)
    → ((v : ℕ) → (length (to_bytes v) ≤ 4) × All IsByte (to_bytes v))
    → Each (write_args to_bytes parts)
write_args-Each to_bytes [] h = tt
write_args-Each to_bytes (a ∷ []) h = elim (Option-cases (parse_address a)) [
  | inl missing ↦ rw missing tt
  | inr (v, e) ↦ rw e tt
]
write_args-Each to_bytes (a ∷ t ∷ parts) h = elim (Option-cases (parse_address a)) [
  | inl missing ↦ rw missing tt
  | inr (v, e) ↦ elim (Option-cases (parse_address t)) [
    | inl missing ↦ rw (e, missing) tt
    | inr (value, e') ↦
        rw (e, e') (let (few, bytes) = h value in (parse_address-lt a v e, few, bytes))
  ]
]

save_args-Each : (parts : List Text) → Each (slot_args WorkerCommandV1.save_state parts)
save_args-Each [] = tt
save_args-Each (t ∷ parts) = elim (Option-cases (parse_uint 10 256 t)) [
  | inl missing ↦ rw missing tt
  | inr (n, e) ↦ rw e (parse_uint-lt 10 256 t n (omega arith) e)
]

load_args-Each : (parts : List Text) → Each (slot_args WorkerCommandV1.load_state parts)
load_args-Each [] = tt
load_args-Each (t ∷ parts) = elim (Option-cases (parse_uint 10 256 t)) [
  | inl missing ↦ rw missing tt
  | inr (n, e) ↦ rw e (parse_uint-lt 10 256 t n (omega arith) e)
]

hold_args-Each : (parts : List Text) → Each (hold_args parts)
hold_args-Each [] = tt
hold_args-Each (b ∷ []) = omega arith
hold_args-Each (b ∷ t ∷ parts) = elim (Option-cases (parse_uint 10 u32_mod t)) [
  | inl missing ↦ rw missing (omega arith)
  | inr (n, e) ↦ rw e (parse_uint-lt 10 u32_mod t n (omega arith) e)
]

tap_args-Each : (parts : List Text) → Each (tap_args parts)
tap_args-Each [] = tt
tap_args-Each (b ∷ parts) = tt

if_Each :
    (test : Bool) (p q : Option WorkerCommandV1) → Each p → Each q → Each (if test then p else q)
if_Each true p q hp hq = hp
if_Each false p q hp hq = hq

parse_command-Each : (name : Text) (parts : List Text) → Each (parse_command name parts)
unfolding parse_command le16 le32
parse_command-Each name parts =
    if_Each (text_beq name (codes "core.read8")) _ _ (read_args-Each 1 parts (omega arith)) (
      if_Each (text_beq name (codes "core.read16")) _ _ (read_args-Each 2 parts (omega arith)) (
        if_Each (text_beq name (codes "core.readRange")) _ _ (read_range_args-Each parts) (
          if_Each (text_beq name (codes "core.write8")) _ _
            (write_args-Each (λ v. (v % 256) ∷ []) parts (λ v. omega arith))
            (if_Each (text_beq name (codes "core.write16")) _ _
              (write_args-Each (λ v. le16 (v % 65536)) parts (λ v. omega arith))
              (if_Each (text_beq name (codes "core.write32")) _ _
                (write_args-Each le32 parts (λ v. omega arith))
                (if_Each (text_beq name (codes "core.currentFrame")) _ _ tt (
                  if_Each (text_beq name (codes "core.screenshot")) _ _ tt (
                    if_Each (text_beq name (codes "core.saveStateSlot")) _ _ (save_args-Each parts)
                      (if_Each (text_beq name (codes "core.loadStateSlot")) _ _
                        (load_args-Each parts)
                        (if_Each
                          (text_beq name (codes "core.reset") || text_beq name (codes "restart")) _
                          _ tt
                          (if_Each (text_beq name (codes "mgba-http.button.tap")) _ _
                            (tap_args-Each parts)
                            (if_Each (text_beq name (codes "mgba-http.button.hold")) _ _
                              (hold_args-Each parts)
                              (if_Each (text_beq name (codes "health")) _ _ tt tt)))))))))))))

-- Whatever the text, the command that it is parsed as neither loads a ROM, nor sets the whole input
-- state, nor shuts the worker down; it writes at most four bytes, its address and size are words of
-- 32 bits and its slot is a byte. And the text ends with the marker.
pub parse_message-IsHarmless :
    (message : Text) (c : WorkerCommandV1)
    → parse_message_to_command message ≡ some (WorkerCommand.v1 c)
    → IsHarmless c × ((body : Text) × (message ≡ body ++ termination_marker))
unfolding parse_message_to_command
parse_message-IsHarmless message c e =
    elim (Option-cases (strip_suffix termination_marker message)) [
      | inl missing ↦ absurd (ground (arith, missing))
      | inr (body, found) ↦
          let ends = strip_suffix_sound termination_marker message found in
          (of_parts body (splitn 10 comma body) refl (rw found at e), (body, ends))
    ]
  where
    of_command :
        (name : Text) (parts : List Text)
        → (do cmd ← parse_command name parts; some (WorkerCommand.v1 cmd))
          ≡ some (WorkerCommand.v1 c)
        → IsHarmless c
    of_command name parts e' = elim (Option-cases (parse_command name parts)) [
      | inl missing ↦ absurd (ground (arith, missing))
      | inr (cmd, got) ↦
          let same : cmd ≡ c = ground (arith, got) in
          rw (← same) (rw got at (parse_command-Each name parts))
    ]

    of_parts :
        (body : Text) (ps : List Text)
        → splitn 10 comma body ≡ ps
        → (do
          (name, parts) ← next (splitn 10 comma body)
          cmd ← parse_command name parts
          some (WorkerCommand.v1 cmd))
          ≡ some (WorkerCommand.v1 c)
        → IsHarmless c
    of_parts body [] split e' = absurd (ground (arith, split))
    of_parts body (name ∷ parts) split e' = of_command name parts (rw split at e')
