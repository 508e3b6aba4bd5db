-- ===== src/Gateway/Endpoint/Runs.antt =====
-- Runs of the command handler, and its theorems at concrete inputs.
use mgba_server.Common.{◌≡◌, refl, [], ◌∷◌, none, some, false, pair_beq}
use mgba_server.Common.Text.{Text, codes, text_beq, strip_prefix, strip_suffix, split}
use mgba_server.Common.Dict.{lookup}
use mgba_server.Auth.{
  AclService, Permission, Role, check_token, resolve_token, check_principal, allows,
}
use mgba_server.Mgba.Scheduler.{CommandKind}
use mgba_server.Streaming.InputLog.Finish.{IsFinished}
use mgba_server.Gateway.Validate.{is_valid_button, check_args, validate_command}
use mgba_server.Gateway.Endpoint.{
  GatewayState, Request, Drawn, timed_out, principal_token, command_endpoint, authorize, answer,
  auth_response, refusal,
}
use mgba_server.Gateway.Endpoint.Gate.{command_endpoint-IsFinished}

abbrev same_text : Text → Text
same_text t = t

abbrev acl : AclService
acl = record {
  token_hash_to_principal = (codes "key", codes "ann") ∷ [];
  grants =
      (
        (codes "ann", codes "s"),
        record {
          id = codes "g";
          principal_id = codes "ann";
          session_id = codes "s";
          role = Role.controller;
          revoked = false;
        },
      )
      ∷ [];
}

abbrev state : GatewayState
state = record { acl = acl; input_log = []; sent = [] }

abbrev drawn : Drawn
drawn = record { event_id = codes "e"; begun_at = 1; finished_at = 2 }

abbrev request : Permission → Text → Request
request permission token = record {
  headers = record { x_principal_token = none; authorization = some token };
  session = codes "s";
  permission = permission;
  kind = CommandKind.control;
  command = codes "mgba-http.button.tap,A<|END|>";
  input_log = some (record { action = codes "tap"; button = codes "A" });
}

sent_and_timed_out :
    (command_endpoint same_text drawn
      (request Permission.send_key (codes "Bearer key"))
      timed_out
      state).0
    ≡ refusal 504 (codes "timeout")
unfolding command_endpoint validate_command strip_suffix split text_beq check_args is_valid_button
    authorize principal_token strip_prefix check_token resolve_token check_principal allows lookup
    answer pair_beq
sent_and_timed_out = refl

not_allowed :
    command_endpoint same_text drawn
      (request Permission.admin_lifecycle (codes "Bearer key"))
      timed_out
      state
    ≡ (refusal 403 (codes "Forbidden"), state)
unfolding command_endpoint validate_command strip_suffix split text_beq check_args is_valid_button
    authorize principal_token strip_prefix check_token resolve_token check_principal allows lookup
    auth_response pair_beq
not_allowed = refl

command_endpoint-IsFinished_example :
    IsFinished
      (codes "e")
      (command_endpoint same_text drawn
        (request Permission.send_key (codes "Bearer key"))
        timed_out
        state).1.input_log
command_endpoint-IsFinished_example =
    command_endpoint-IsFinished same_text drawn (request Permission.send_key (codes "Bearer key"))
      timed_out state tt
