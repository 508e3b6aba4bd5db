-- ===== src/Gateway/Endpoint.antt =====
-- crates/gateway/src/lib.rs: the handler that every command route ends in, and its authorization.
-- SHA-256 is a parameter as in the access control; UUIDs and times are arguments.
pub mod Gate
mod Runs
use mgba_server.Common.{
  ℕ, List, [], ◌∷◌, ◌++◌, Option, none, some, if◌then◌else◌, Result, ok, err, ok_or, ◌>>=◌,
}
use mgba_server.Common.Integers.{ℤ}
use mgba_server.Common.Text.{Text, codes, strip_prefix}
use mgba_server.Auth.{
  AclService, AuthError, Permission, PrincipalId, SessionId, check_token, invalid_token,
  missing_grant, forbidden,
}
use mgba_server.Mgba.Messages.{format_message}
use mgba_server.Mgba.Scheduler.{CommandKind, CommandResult}
use mgba_server.Mgba.Scheduler.Trace.{caller_latency_ms}
use mgba_server.Streaming.InputLog.{Sessions, begin_input, complete_input, fail_input}
use mgba_server.Gateway.Validate.{validate_command}

-- `HeaderMap::get` of the two headers, followed by `to_str`.
pub record Headers : Type 0 where
  pub x_principal_token : Option Text
  pub authorization : Option Text

abbrev pub bearer : Option Text → Option Text
bearer none = none
bearer (some auth) = strip_prefix (codes "Bearer ") auth

unfoldable pub principal_token : Headers → Option Text
principal_token headers = elim headers.x_principal_token [
  | some value ↦ some value
  | none ↦ bearer headers.authorization
]

pub data Body : Type 0 where
  error : Text → Body
  command_response : (response : Text) (request_id : ℕ) (latency_ms : ℤ) → Body

pub record Response : Type 0 where
  pub status : ℕ
  pub body : Body

abbrev pub refusal : ℕ → Text → Response
refusal status message = record { status = status; body = error message }

unfoldable pub auth_response : AuthError → Response
auth_response invalid_token = refusal 401 (codes "Unauthorized")
auth_response missing_grant = refusal 403 (codes "Forbidden")
auth_response forbidden = refusal 403 (codes "Forbidden")

-- A call of `SessionCommandService::send`.
pub record Sent : Type 0 where
  pub session_id : SessionId
  pub kind : CommandKind
  pub command : Text

-- The state that the handler reads and changes; `sent` has the calls of the command service.
pub record GatewayState : Type 0 where
  pub acl : AclService
  pub input_log : Sessions
  pub sent : List Sent

-- What comes of the call within five seconds.
pub data Sending : Type 0 where
  replied : CommandResult → Sending
  failed : Text → Sending
  timed_out : Sending

pub record InputLogCommand : Type 0 where
  pub action : Text
  pub button : Text

pub record Request : Type 0 where
  pub headers : Headers
  pub session : SessionId
  pub permission : Permission
  pub kind : CommandKind
  pub command : Text
  pub input_log : Option InputLogCommand

-- The id of the input event, and the times at which it is begun and finished.
pub record Drawn : Type 0 where
  pub event_id : Text
  pub begun_at : ℕ
  pub finished_at : ℕ

-- `button_command`
unfoldable pub button_command : Text → Text → Option Text → Text
button_command command button none = format_message command (button ∷ [])
button_command command button (some duration) = format_message command (button ∷ duration ∷ [])

abbrev pub begin : Drawn → SessionId → Option InputLogCommand → Sessions → Sessions
begin drawn session none log = log
begin drawn session (some input) log =
    begin_input drawn.event_id session input.action (some input.button) drawn.begun_at log

abbrev pub complete : Drawn → Option InputLogCommand → ℤ → Sessions → Sessions
complete drawn none latency log = log
complete drawn (some input) latency log =
    complete_input drawn.event_id latency drawn.finished_at log

abbrev pub fail : Drawn → Option InputLogCommand → Sessions → Sessions
fail drawn none log = log
fail drawn (some input) log = fail_input drawn.event_id drawn.finished_at log

-- The `match` on the outcome.
unfoldable pub answer :
    Drawn → Option InputLogCommand → Sending → GatewayState → Response × GatewayState
answer drawn input (replied result) s =
    let latency_ms = caller_latency_ms result.trace in
    (
      record {
        status = 200;
        body = command_response result.response result.trace.request_id latency_ms;
      },
      record s { input_log = complete drawn input latency_ms s.input_log },
    )
answer drawn input (failed message) s =
    (refusal 502 message, record s { input_log = fail drawn input s.input_log })
answer drawn input timed_out s =
    (refusal 504 (codes "timeout"), record s { input_log = fail drawn input s.input_log })

module _ (hash_token : Text → Text) where
  unfoldable pub authorize :
      AclService → Headers → SessionId → Permission → Result AuthError PrincipalId
  authorize acl headers session_id permission = do
    token ← ok_or (principal_token headers) invalid_token
    check_token hash_token acl token session_id permission

  -- The call of the service, and what follows.
  abbrev pub send : Drawn → Request → Sending → GatewayState → Text → Response × GatewayState
  send drawn r sending s command = answer drawn r.input_log sending (record s {
    input_log = begin drawn r.session r.input_log s.input_log;
    sent = s.sent ++ (record { session_id = r.session; kind = r.kind; command = command } ∷ []);
  })

  abbrev pub authorized :
      Drawn
      → Request
      → Sending
      → GatewayState
      → Text
      → Result AuthError PrincipalId
      → Response × GatewayState
  authorized drawn r sending s command (err e) = (auth_response e, s)
  authorized drawn r sending s command (ok principal) = send drawn r sending s command

  abbrev pub validated :
      Drawn → Request → Sending → GatewayState → Result Text Text → Response × GatewayState
  validated drawn r sending s (err message) = (refusal 400 message, s)
  validated drawn r sending s (ok command) =
      authorized drawn r sending s command (authorize s.acl r.headers r.session r.permission)

  unfoldable pub command_endpoint :
      Drawn → Request → Sending → GatewayState → Response × GatewayState
  command_endpoint drawn r sending s = validated drawn r sending s (validate_command r.command)
