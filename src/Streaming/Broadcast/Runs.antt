-- ===== src/Streaming/Broadcast/Runs.antt =====
-- Runs of the streams, and their theorems at a concrete session.
use mgba_server.Common.{ℕ, ◌≡◌, refl, List, [], ◌∷◌, some, arith}
use mgba_server.Common.Text.{text_eq}
use mgba_server.Common.Dict.{lookup}
use mgba_server.Streaming.Broadcast.{instance_frames, open_instance_stream, and_then}
use mgba_server.Streaming.Broadcast.InSync.{Stays, IsViewable}
use mgba_server.Streaming.Broadcast.Session.{instance_stream-Stays}
use mgba_server.Streaming.Broadcast.Sample.{
  unmark, outside, config, the_cache, black, two_by_one, tiles_of_one, frame, frame-IsStreamed,
}

nothing_cached :
    (kf : List ℕ)
    → lookup (1 ∷ []) (the_cache) ≡ some kf
    → IsViewable outside unmark (λ raw. refl) two_by_one config tiles_of_one (1 ∷ []) 0 kf
unfolding lookup
nothing_cached kf h = absurd (cc h)

instance_stream-Stays_example :
    Stays outside unmark
      (λ raw. refl)
      two_by_one
      config
      tiles_of_one
      (1 ∷ [])
      0
      black
      (and_then outside config
        (1 ∷ [])
        0
        (some (open_instance_stream outside config (1 ∷ []) 0 the_cache []))
        (instance_frames outside config (1 ∷ []) 0 (frame 3 ∷ frame 2 ∷ frame 1 ∷ [])))
instance_stream-Stays_example =
    instance_stream-Stays outside unmark (λ raw. refl) two_by_one config tiles_of_one (1 ∷ []) 0
      (omega arith) black (omega arith) (λ f s h. absurd (cc h)) the_cache []
      (frame 3 ∷ frame 2 ∷ frame 1 ∷ []) nothing_cached
      (frame-IsStreamed 3, (frame-IsStreamed 2, (frame-IsStreamed 1, tt)))
