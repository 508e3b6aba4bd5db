-- ===== src/Streaming/FrameHub.antt =====
-- crates/streaming/src/frame_hub.rs: the latest frame of each instance and its sequence numbers. A
-- watch channel is the value that it holds.
pub mod Push
mod Runs
use mgba_server.Common.{
  ℕ, ◌+◌, ◌%◌, List, [], ◌∷◌, Option, none, some, if◌then◌else◌, Bool, true, false, ◌&&◌, ◌||◌, leb,
  ltb, ◌==◌,
}
use mgba_server.Common.Text.{Text, text_eq}
use mgba_server.Common.Bytes.{u64_mod}
use mgba_server.Common.Dict.{Dict, keys, lookup, insert, remove}
use mgba_server.Streaming.Metrics.{text_leb}

pub data PixelFormat : Type 0 where
  xrgb8888 rgb565 : PixelFormat

pub record RawFrame : Type 0 where
  pub width : ℕ
  pub height : ℕ
  pub pitch : ℕ
  pub pixel_format : PixelFormat
  pub bytes : List ℕ
  pub sequence : ℕ
  pub timestamp_ms : ℕ

pub record FrameHub : Type 0 where
  pub channels : Dict Text (Option RawFrame)
  pub sequences : Dict Text ℕ

abbrev pub new : FrameHub
new = record { channels = []; sequences = [] }

-- Each call that changes the hub is two blocks, one under the lock of `channels` and one under the
-- lock of `sequences`, between which blocks of other calls may run.
unfoldable pub register_channel : Text → FrameHub → FrameHub
register_channel id hub = record hub { channels = insert id none hub.channels }

unfoldable pub register_sequence : Text → FrameHub → FrameHub
register_sequence id hub = record hub { sequences = insert id 0 hub.sequences }

unfoldable pub register_instance : Text → FrameHub → FrameHub
unfolding register_channel register_sequence
register_instance id hub = register_sequence id (register_channel id hub)

unfoldable pub unregister_channel : Text → FrameHub → FrameHub
unregister_channel id hub = record hub { channels = remove id hub.channels }

unfoldable pub unregister_sequence : Text → FrameHub → FrameHub
unregister_sequence id hub = record hub { sequences = remove id hub.sequences }

unfoldable pub unregister_instance : Text → FrameHub → FrameHub
unfolding unregister_channel unregister_sequence
unregister_instance id hub = unregister_sequence id (unregister_channel id hub)

-- `entry(id).or_insert(0)`
abbrev pub sequence_of : Option ℕ → ℕ
sequence_of none = 0
sequence_of (some n) = n

abbrev pub stamped : RawFrame → ℕ → ℕ → RawFrame
stamped frame sequence now = record frame { sequence = sequence; timestamp_ms = now }

abbrev pub replace :
    Text
    → RawFrame
    → Dict Text (Option RawFrame)
    → Option (Option RawFrame)
    → Dict Text (Option RawFrame)
replace id frame channels none = channels
replace id frame channels (some old) = insert id (some frame) channels

-- The block under the lock of `sequences`, with the frame that it stamps. The time is an argument.
unfoldable pub number_frame : Text → RawFrame → ℕ → FrameHub → RawFrame × FrameHub
number_frame id frame now hub =
    let seq = (sequence_of (lookup id hub.sequences) + 1) % u64_mod in
    (stamped frame seq now, record hub { sequences = insert id seq hub.sequences })

-- The block under the lock of `channels`.
unfoldable pub publish_frame : Text → RawFrame → FrameHub → FrameHub
publish_frame id frame hub = record hub {
  channels = replace id frame hub.channels (lookup id hub.channels);
}

unfoldable pub push_frame : Text → RawFrame → ℕ → FrameHub → FrameHub
unfolding number_frame publish_frame
push_frame id frame now hub =
    let (numbered, hub') = number_frame id frame now hub in publish_frame id numbered hub'

abbrev pub held : Option (Option RawFrame) → Option RawFrame
held none = none
held (some frame) = frame

unfoldable pub latest_frame : Text → FrameHub → Option RawFrame
latest_frame id hub = held (lookup id hub.channels)

-- A receiver on the channel, which is the value that it holds.
unfoldable pub subscribe_frames : Text → FrameHub → Option (Option RawFrame)
subscribe_frames id hub = lookup id hub.channels

-- `ids.sort()`
unfoldable pub insert_id : Text → List Text → List Text
insert_id id [] = id ∷ []
insert_id id (j ∷ ids) = if text_leb id j then id ∷ j ∷ ids else j ∷ insert_id id ids

unfoldable pub sort_ids : List Text → List Text
unfolding insert_id
sort_ids [] = []
sort_ids (id ∷ ids) = insert_id id (sort_ids ids)

unfoldable pub registered_instances : FrameHub → List Text
unfolding sort_ids
registered_instances hub = sort_ids (keys hub.channels)
