-- ===== src/Worker/Commands/Runs.antt =====
-- Runs of the command loop, and its theorems at concrete commands.
use mgba_server.Common.{◌*◌, ◌/◌, ◌≡◌, refl, [], ◌∷◌, none, some, false, true}
use mgba_server.Common.Text.{codes, text_beq}
use mgba_server.Ipc.{WorkerCommandV1, WorkerResponseV1}
use mgba_server.Worker.Commands.{
  WorkerState, Exchange, disconnected, button_to_bit, handle_command, handle_commands,
}
use mgba_server.Worker.Commands.Buttons.{
  Presses, IsMomentary, handle_command-Presses, handle_commands_released,
}

-- Start and A are down.
abbrev playing : WorkerState
playing = record {
  input_state = 264;
  latest_frame = none;
  frame_counter = 7;
  shutdown = false;
  core_requests = [];
  published = [];
}

b_is_first : button_to_bit (codes "B") ≡ some 0
unfolding button_to_bit text_beq
b_is_first = refl

handle_command-Presses_example :
    let (tapped, after_tap) =
      handle_command (WorkerCommandV1.button_tap (codes "B")) disconnected playing in
    let (kept, after_hold) =
      handle_command (WorkerCommandV1.button_hold (codes "B") 6) disconnected playing in
    (tapped ≡ WorkerResponseV1.ok)
    × Presses 0 50 playing after_tap
    × (kept ≡ WorkerResponseV1.ok)
    × Presses 0 (6 * 1000 / 60) playing after_hold
handle_command-Presses_example =
    handle_command-Presses (codes "B") 0 6 disconnected playing b_is_first

abbrev idle : WorkerState
idle = record playing { input_state = 0 }

abbrev tap_b : Exchange
tap_b = record {
  command = WorkerCommandV1.button_tap (codes "B");
  answer = disconnected;
  delivered = true;
}

abbrev stop : Exchange
stop = record { command = WorkerCommandV1.shutdown; answer = disconnected; delivered = true }

tap_b-IsMomentary : IsMomentary tap_b
tap_b-IsMomentary buttons e = absurd (cc e)

stop-IsMomentary : IsMomentary stop
stop-IsMomentary buttons e = absurd (cc e)

handle_commands_released_example :
    (handle_commands ((tap_b ∷ []) ∷ (tap_b ∷ stop ∷ []) ∷ []) idle).0.input_state ≡ 0
handle_commands_released_example =
    handle_commands_released ((tap_b ∷ []) ∷ (tap_b ∷ stop ∷ []) ∷ []) idle
      ((tap_b-IsMomentary, tt), ((tap_b-IsMomentary, (stop-IsMomentary, tt)), tt)) refl
