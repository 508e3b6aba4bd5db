-- ===== src/Gateway/Routes.antt =====
-- crates/gateway/src/lib.rs: the routes of a session, from their queries to `command_endpoint`, the log
-- of its inputs and the screenshot. The image encoder is the parameter `write_png`.
pub mod Roles
pub mod Screenshot
mod Runs
use mgba_server.Common.{
  ℕ, zero, suc, ◌+◌, ◌*◌, Bool, true, false, not, List, [], ◌∷◌, ◌++◌, Option, none, some,
  if◌then◌else◌, Result, ok, err, leb, length, ◌>>=◌, get_elem?,
}
use mgba_server.Common.Maybe.{unwrap_or}
use mgba_server.Common.Text.{Text, codes}
use mgba_server.Auth.{
  AuthError, Permission, PrincipalId, SessionId, read_memory, send_key, view_stream,
  view_input_logs,
}
use mgba_server.Mgba.Messages.{format_message}
use mgba_server.Mgba.Scheduler.{CommandKind, control, memory_read, frame_capture, state}
use mgba_server.Streaming.InputLog.{InputEvent, recent}
use mgba_server.Streaming.FrameHub.{FrameHub, RawFrame, PixelFormat, latest_frame}
use mgba_server.Streaming.H264.{is_xrgb8888}
use mgba_server.Gateway.Endpoint.{
  Headers, Request, Response, Drawn, Sending, GatewayState, InputLogCommand, button_command,
  command_endpoint, authorize, auth_response,
}

-- A route with its query.
pub data SessionRoute : Type 0 where
  read8 read16 : (address : Text) → SessionRoute
  read_range : (address len : Text) → SessionRoute
  current_frame : SessionRoute
  write8 write16 write32 : (address value : Text) → SessionRoute
  save_state load_state : (slot : Text) → SessionRoute
  reset : SessionRoute
  tap : (button : Text) (duration : Option Text) → SessionRoute
  hold : (button : Text) (duration : Option Text) → SessionRoute

unfoldable pub read_command : Text → List Text → Text
read_command command args = format_message command args

-- What the handler of a route hands to `command_endpoint`.
abbrev pub without_log : Headers → SessionId → Permission → CommandKind → Text → Request
without_log headers session permission kind command = record {
  headers = headers;
  session = session;
  permission = permission;
  kind = kind;
  command = command;
  input_log = none;
}

abbrev pub with_log : Headers → SessionId → Text → Text → Text → Request
with_log headers session command action button = record {
  headers = headers;
  session = session;
  permission = send_key;
  kind = control;
  command = command;
  input_log = some (record { action = action; button = button });
}

unfoldable pub request_of : SessionRoute → Headers → SessionId → Request
unfolding read_command
request_of (read8 address) headers session =
    without_log headers session read_memory memory_read
      (read_command (codes "core.read8") (address ∷ []))
request_of (read16 address) headers session =
    without_log headers session read_memory memory_read
      (read_command (codes "core.read16") (address ∷ []))
request_of (read_range address len) headers session =
    without_log headers session read_memory memory_read
      (read_command (codes "core.readRange") (address ∷ len ∷ []))
request_of current_frame headers session =
    without_log headers session read_memory frame_capture
      (format_message (codes "core.currentFrame") [])
request_of (write8 address value) headers session =
    without_log headers session send_key memory_read
      (format_message (codes "core.write8") (address ∷ value ∷ []))
request_of (write16 address value) headers session =
    without_log headers session send_key memory_read
      (format_message (codes "core.write16") (address ∷ value ∷ []))
request_of (write32 address value) headers session =
    without_log headers session send_key memory_read
      (format_message (codes "core.write32") (address ∷ value ∷ []))
request_of (save_state slot) headers session =
    without_log headers session send_key state
      (format_message (codes "core.saveStateSlot") (slot ∷ []))
request_of (load_state slot) headers session =
    without_log headers session send_key state
      (format_message (codes "core.loadStateSlot") (slot ∷ []))
request_of reset headers session =
    without_log headers session send_key control (format_message (codes "core.reset") [])
request_of (tap button duration) headers session =
    with_log headers session (button_command (codes "mgba-http.button.tap") button none)
      (codes "tap") button
request_of (hold button duration) headers session =
    with_log headers session
      (button_command (codes "mgba-http.button.hold") button
        (some (unwrap_or duration (codes "15"))))
      (codes "hold") button

-- The answers of the two routes that send no command.
pub data Page : Type 0 where
  refused : Response → Page
  events : PrincipalId → List InputEvent → Page
  image : (png : List ℕ) → Page
  unavailable : (error : Text) → Page
  failed : (error : Text) → Page

-- The loops over the columns and the rows; native addresses do not wrap.
unfoldable pub png_cols : List ℕ → (pitch y count x : ℕ) → Result Text (List ℕ)
png_cols bytes pitch y zero x = ok []
png_cols bytes pitch y (suc count) x =
    let rest = png_cols bytes pitch y count (x + 1) in
    if leb (length bytes) (y * pitch + x * 4 + 3)
    then err (codes "frame buffer is too small")
    else (do
      pixels ← rest
      ok (
          unwrap_or (get_elem? bytes (y * pitch + x * 4 + 2)) 0
          ∷ unwrap_or (get_elem? bytes (y * pitch + x * 4 + 1)) 0
          ∷ unwrap_or (get_elem? bytes (y * pitch + x * 4)) 0
          ∷ 255
          ∷ pixels))

unfoldable pub png_rows : List ℕ → (width pitch count y : ℕ) → Result Text (List ℕ)
unfolding png_cols
png_rows bytes width pitch zero y = ok []
png_rows bytes width pitch (suc count) y = do
  row ← png_cols bytes pitch y width 0
  rest ← png_rows bytes width pitch count (y + 1)
  ok (row ++ rest)

module _ (write_png : (width height : ℕ) → (rgba : List ℕ) → Result Text (List ℕ)) where
  unfoldable pub xrgb8888_to_png : RawFrame → Result Text (List ℕ)
  unfolding png_rows
  xrgb8888_to_png frame =
      if not (is_xrgb8888 frame.pixel_format) then err (codes "unsupported pixel format") else (do
        rgba ← png_rows frame.bytes frame.width frame.pitch frame.height 0
        write_png frame.width frame.height rgba)

module _ (hash_token : Text → Text) where
  unfoldable pub session_route :
      SessionRoute → Headers → SessionId → Drawn → Sending → GatewayState → Response × GatewayState
  unfolding request_of
  session_route route headers session drawn sending s =
      command_endpoint hash_token drawn (request_of route headers session) sending s

  abbrev pub logs_for : GatewayState → SessionId → Result AuthError PrincipalId → Page
  logs_for s session (ok principal) = events principal (recent session s.input_log)
  logs_for s session (err e) = refused (auth_response e)

  unfoldable pub logs : Headers → SessionId → GatewayState → Page
  logs headers session s =
      logs_for s session (authorize hash_token s.acl headers session view_input_logs)

  module _ (write_png : (width height : ℕ) → (rgba : List ℕ) → Result Text (List ℕ)) where
    abbrev pub png_page : Result Text (List ℕ) → Page
    png_page (ok png) = image png
    png_page (err e) = failed e

    abbrev pub frame_page : Option RawFrame → Page
    frame_page none = unavailable (codes "no frame available yet")
    frame_page (some frame) = png_page (xrgb8888_to_png write_png frame)

    abbrev pub screenshot_for : SessionId → FrameHub → Result AuthError PrincipalId → Page
    screenshot_for session hub (ok principal) = frame_page (latest_frame session hub)
    screenshot_for session hub (err e) = refused (auth_response e)

    unfoldable pub screenshot : Headers → SessionId → FrameHub → GatewayState → Page
    unfolding xrgb8888_to_png
    screenshot headers session hub s =
        screenshot_for session hub (authorize hash_token s.acl headers session view_stream)
