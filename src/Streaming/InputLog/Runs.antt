-- ===== src/Streaming/InputLog/Runs.antt =====
-- Runs of the input log, and its theorems at concrete inputs.
use mgba_server.Common.{◌≡◌, refl, [], ◌∷◌, some, if◌then◌else◌}
use mgba_server.Common.Text.{Text, codes, text_eq, text_beq}
use mgba_server.Common.Integers.{pos}
use mgba_server.Common.Dict.{lookup, insert, remove}
use mgba_server.Streaming.InputLog.{
  InputEvent, InputEventStatus, Sessions, new_event, log_of, begin_input, complete_input,
  finalize_input, finished_event, push_recent, recent,
}
use mgba_server.Streaming.InputLog.Finish.{IsFinished, recent-finalize-begin}
use mgba_server.Streaming.InputLog.History.{
  Keeps, Reach, none_yet, began, finished, pending_in, finished_in, Reach-recent,
}

abbrev tap_event : InputEvent
tap_event =
    finished_event InputEventStatus.completed (some (pos 15)) 9
      (new_event (codes "e") (codes "s") (codes "tap") (some (codes "A")) 5)

lifecycle :
    recent (codes "s") (
      complete_input
        (codes "e")
        (pos 15)
        9
        (begin_input (codes "e") (codes "s") (codes "tap") (some (codes "A")) 5 []))
    ≡ tap_event ∷ []
unfolding recent complete_input begin_input finalize_input lookup insert remove text_beq push_recent
lifecycle = refl

recent-finalize-begin_example :
    (let after =
        finalize_input
          (codes "e")
          InputEventStatus.completed
          (some (pos 15))
          9
          (begin_input (codes "e") (codes "s") (codes "tap") (some (codes "A")) 5 []) in
      ((j : Text)
        → recent j after ≡ (
            if text_beq (codes "s") j
            then push_recent tap_event (recent (codes "s") [])
            else recent j []))
      × IsFinished (codes "e") after)
recent-finalize-begin_example =
    recent-finalize-begin (codes "e") (codes "s") (codes "tap") (some (codes "A"))
      InputEventStatus.completed (some (pos 15)) 5 9 [] tt

abbrev logged : Sessions
logged = begin_input (codes "e") (codes "s") (codes "tap") (some (codes "A")) 5 []

abbrev tapped : Sessions
tapped = finalize_input (codes "e") InputEventStatus.completed (some (pos 15)) 9 logged

logged-pending_in :
    pending_in (codes "e") logged
    ≡ some (codes "s", new_event (codes "e") (codes "s") (codes "tap") (some (codes "A")) 5)
unfolding begin_input lookup insert text_beq
logged-pending_in = refl

tapped-Reach : Reach tapped ((codes "s", tap_event) ∷ [])
tapped-Reach =
    finished logged [] (codes "e") (codes "s")
      (new_event (codes "e") (codes "s") (codes "tap") (some (codes "A")) 5)
      InputEventStatus.completed (some (pos 15)) 9 logged-pending_in
      (began [] [] (codes "e") (codes "s") (codes "tap") (some (codes "A")) 5 none_yet)

Reach-recent_example :
    Keeps
      (log_of (lookup (codes "s") tapped))
      (finished_in (codes "s") ((codes "s", tap_event) ∷ []))
Reach-recent_example = Reach-recent (codes "s") tapped ((codes "s", tap_event) ∷ []) tapped-Reach
