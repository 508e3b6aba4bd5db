-- ===== src/Streaming/FrameHub/Runs.antt =====
-- Runs of the frame hub, and its theorems at concrete inputs.
use mgba_server.Common.{◌≡◌, refl, List, [], ◌∷◌, some}
use mgba_server.Common.Text.{codes, text_beq}
use mgba_server.Common.Dict.{lookup, insert}
use mgba_server.Streaming.FrameHub.{
  RawFrame, FrameHub, PixelFormat, new, register_channel, register_sequence, register_instance,
  number_frame, publish_frame, push_frame, stamped, latest_frame,
}
use mgba_server.Streaming.FrameHub.Push.{
  Change, counted, restarted, Reach, fresh, channel_registered, sequence_registered, numbered,
  published, IsTracked, Reach-IsTracked,
}

abbrev black : RawFrame
black = record {
  width = 1;
  height = 1;
  pitch = 4;
  pixel_format = PixelFormat.xrgb8888;
  bytes = 0 ∷ 0 ∷ 0 ∷ 255 ∷ [];
  sequence = 0;
  timestamp_ms = 0;
}

abbrev twice : FrameHub
twice =
    push_frame (codes "a") black 8
      (push_frame (codes "a") black 7 (register_instance (codes "a") new))

numbers_frames : latest_frame (codes "a") twice ≡ some (stamped black 2 8)
unfolding latest_frame lookup insert text_beq push_frame register_instance
numbers_frames = refl

-- The second push of two that overlap is published first.
abbrev registered : FrameHub
registered = register_sequence (codes "a") (register_channel (codes "a") new)

abbrev first : FrameHub
first = (number_frame (codes "a") black 7 registered).1

abbrev second : FrameHub
second = (number_frame (codes "a") black 8 first).1

abbrev overlapped : FrameHub
overlapped = publish_frame (codes "a") (number_frame (codes "a") black 8 first).0 second

abbrev history : List Change
history = counted (codes "a") black 8 ∷ counted (codes "a") black 7 ∷ restarted (codes "a") ∷ []

overlapped-Reach :
    Reach overlapped ((codes "a", (number_frame (codes "a") black 7 registered).0) ∷ []) history
overlapped-Reach =
    published second [] ((codes "a", (number_frame (codes "a") black 7 registered).0) ∷ []) history
      (codes "a") (number_frame (codes "a") black 8 first).0
      (numbered first _ _ (codes "a") black 8 (
        numbered registered [] _ (codes "a") black 7 (
          sequence_registered _ [] [] (codes "a")
            (channel_registered new [] [] (codes "a") fresh))))

Reach-IsTracked_example : IsTracked overlapped history
Reach-IsTracked_example = Reach-IsTracked overlapped _ history overlapped-Reach
