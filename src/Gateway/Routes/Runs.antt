-- ===== src/Gateway/Routes/Runs.antt =====
-- Runs of the routes of a session, and their theorems at concrete requests.
use mgba_server.Common.{
  ℕ, ◌≡◌, refl, List, [], ◌∷◌, none, some, false, Result, ok, arith, pair_eq, pair_beq,
}
use mgba_server.Common.Text.{Text, codes, text_eq, text_beq}
use mgba_server.Common.Dict.{lookup}
use mgba_server.Auth.{Role}
use mgba_server.Streaming.FrameHub.{RawFrame, xrgb8888}
use mgba_server.Streaming.Pixels.{keyframe_rows}
use mgba_server.Streaming.Pixels.Reads.{IsFrame}
use mgba_server.Gateway.Endpoint.{Headers, Drawn, GatewayState, timed_out, principal_token}
use mgba_server.Gateway.Routes.{session_route, tap, xrgb8888_to_png}
use mgba_server.Gateway.Routes.Roles.{IsViewer, session_route-viewer}
use mgba_server.Gateway.Routes.Screenshot.{keyframe_image, xrgb8888_to_png-keyframe}

abbrev same_text : Text → Text
same_text t = t

-- Eve may only watch the session.
abbrev state : GatewayState
state = record {
  acl = record {
    token_hash_to_principal = (codes "key", codes "eve") ∷ [];
    grants =
        (
          (codes "eve", codes "s"),
          record {
            id = codes "g";
            principal_id = codes "eve";
            session_id = codes "s";
            role = Role.viewer;
            revoked = false;
          },
        )
        ∷ [];
  };
  input_log = [];
  sent = [];
}

abbrev headers : Headers
headers = record { x_principal_token = some (codes "key"); authorization = none }

abbrev drawn : Drawn
drawn = record { event_id = codes "e"; begun_at = 1; finished_at = 2 }

eve-IsViewer : IsViewer same_text state headers (codes "s")
unfolding principal_token lookup text_beq pair_beq
eve-IsViewer = record {
  token = codes "key";
  principal = codes "eve";
  seat = _;
  carried = refl;
  known = refl;
  granted = refl;
  only = refl;
}

session_route-viewer_example :
    (session_route same_text (tap (codes "A") none) headers (codes "s") drawn timed_out state).1
    ≡ state
session_route-viewer_example =
    session_route-viewer same_text (tap (codes "A") none) headers (codes "s") drawn timed_out state
      eve-IsViewer

-- The bytes of an image without a header.
abbrev raw_image : (width height : ℕ) → List ℕ → Result Text (List ℕ)
raw_image width height rgba = ok rgba

abbrev red : RawFrame
red = record {
  width = 1;
  height = 1;
  pitch = 4;
  pixel_format = xrgb8888;
  bytes = 0 ∷ 0 ∷ 255 ∷ 0 ∷ [];
  sequence = 1;
  timestamp_ms = 16;
}

red-IsFrame : IsFrame 1 1 4 red.bytes
red-IsFrame = record { rows = omega arith; wide = omega arith; words = omega arith }

xrgb8888_to_png-keyframe_example :
    xrgb8888_to_png raw_image red ≡ keyframe_image raw_image red (keyframe_rows red.bytes 1 4 1 0)
xrgb8888_to_png-keyframe_example = xrgb8888_to_png-keyframe raw_image red refl red-IsFrame
