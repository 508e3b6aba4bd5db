-- ===== src/Gateway/Endpoint/Gate.antt =====
-- crates/gateway/src/lib.rs: what a request must have before anything is sent for it, and that no
-- input event stays pending.
use mgba_server.Common.{
  ℕ, ◌≡◌, ◌⊎◌, refl, ap, ◌∙◌, List, [], ◌∷◌, ◌++◌, Option, none, some, Result, ok, err, inl, inr,
  Result-cases, Option-cases,
}
use mgba_server.Common.Text.{Text}
use mgba_server.Auth.{AuthError, PrincipalId, check_token, invalid_token, missing_grant, forbidden}
use mgba_server.Mgba.Scheduler.Trace.{caller_latency_ms}
use mgba_server.Streaming.InputLog.{InputEventStatus, complete_input, fail_input}
use mgba_server.Streaming.InputLog.Finish.{IsFinished, recent-finalize-begin}
use mgba_server.Gateway.Validate.{validate_command}
use mgba_server.Gateway.Validate.Accepted.{validate_command-IsAccepted}
use mgba_server.Gateway.Endpoint.{
  principal_token, Response, GatewayState, Request, Drawn, Sending, Sent, InputLogCommand, replied,
  failed, timed_out, authorize, auth_response, refusal, answer, send, authorized, command_endpoint,
  begin,
}

-- The status of each refusal, and of each outcome of a request that was sent.
abbrev pub refused_as : AuthError → ℕ
refused_as invalid_token = 401
refused_as missing_grant = 403
refused_as forbidden = 403

abbrev pub served_as : Sending → ℕ
served_as (replied result) = 200
served_as (failed message) = 502
served_as timed_out = 504

-- The token, and whom it stands for.
pub record IsAuthorized (hash_token : Text → Text) (s : GatewayState) (r : Request) : Type 0 where
  pub token : Text
  pub principal : PrincipalId
  pub carried : principal_token r.headers ≡ some token
  pub admitted : check_token hash_token s.acl token r.session r.permission ≡ ok principal

-- There is no token, or the one that is carried is not admitted.
abbrev pub IsUnauthorized : (Text → Text) → GatewayState → Request → AuthError → Type 0
IsUnauthorized hash_token s r e =
    ((principal_token r.headers ≡ none) × (e ≡ invalid_token))
    ⊎ ((token : Text) × ((principal_token r.headers ≡ some token)
          × (check_token hash_token s.acl token r.session r.permission ≡ err e)))

-- The three outcomes, no two of which can hold together.
abbrev pub Outcome :
    (Text → Text) → Request → Sending → GatewayState → Response × GatewayState → Type 0
Outcome hash_token r sending s (response, s') =
    ((message : Text) × ((validate_command r.command ≡ err message)
        × (s' ≡ s)
        × (response.status ≡ 400)))
    ⊎ (((e : AuthError) × ((validate_command r.command ≡ ok r.command)
            × IsUnauthorized hash_token s r e
            × (s' ≡ s)
            × (response.status ≡ refused_as e)))
        ⊎ ((validate_command r.command ≡ ok r.command)
            × IsAuthorized hash_token s r
            × (s'.acl ≡ s.acl)
            × (s'.sent
                ≡ s.sent
                  ++ (record { session_id = r.session; kind = r.kind; command = r.command } ∷ []))
            × (response.status ≡ served_as sending)))

auth_response-status : (e : AuthError) → (auth_response e).status ≡ refused_as e
unfolding auth_response
auth_response-status invalid_token = refl
auth_response-status missing_grant = refl
auth_response-status forbidden = refl

module _ (hash_token : Text → Text) where
  authorize-IsAuthorized :
      (s : GatewayState) (r : Request) (principal : PrincipalId)
      → authorize hash_token s.acl r.headers r.session r.permission ≡ ok principal
      → IsAuthorized hash_token s r
  unfolding authorize
  authorize-IsAuthorized s r principal e = elim (Option-cases (principal_token r.headers)) [
    | inl nothing ↦ absurd (cc (rw (nothing, authorize) at e))
    | inr (token, found) ↦ record {
      token = token;
      principal = principal;
      carried = found;
      admitted = rw (found, authorize) at e;
    }
  ]

  authorize-IsUnauthorized :
      (s : GatewayState) (r : Request) (e : AuthError)
      → authorize hash_token s.acl r.headers r.session r.permission ≡ err e
      → IsUnauthorized hash_token s r e
  unfolding authorize
  authorize-IsUnauthorized s r e refused = elim (Option-cases (principal_token r.headers)) [
    | inl nothing ↦ inl (nothing, cc (rw (nothing, authorize) at refused))
    | inr (token, found) ↦ inr (token, (found, rw (found, authorize) at refused))
  ]

  answer-IsServed :
      (drawn : Drawn) (input : Option InputLogCommand) (sending : Sending) (s : GatewayState)
      → ((answer drawn input sending s).1.acl ≡ s.acl)
        × ((answer drawn input sending s).1.sent ≡ s.sent)
        × ((answer drawn input sending s).0.status ≡ served_as sending)
  unfolding answer
  answer-IsServed drawn input (replied result) s = (refl, refl, refl)
  answer-IsServed drawn input (failed message) s = (refl, refl, refl)
  answer-IsServed drawn input timed_out s = (refl, refl, refl)

  send-Outcome :
      (drawn : Drawn) (r : Request) (sending : Sending) (s : GatewayState)
      → validate_command r.command ≡ ok r.command
      → IsAuthorized hash_token s r
      → Outcome hash_token r sending s (send hash_token drawn r sending s r.command)
  send-Outcome drawn r sending s v a =
      let after = record s {
        input_log = begin drawn r.session r.input_log s.input_log;
        sent =
            s.sent ++ (record { session_id = r.session; kind = r.kind; command = r.command } ∷ []);
      } in
      let (acl, sent, served) = answer-IsServed drawn r.input_log sending after in
      inr (inr (v, a, acl, sent, served))

  -- The three ways through the handler.
  endpoint_invalid :
      (drawn : Drawn) (r : Request) (sending : Sending) (s : GatewayState) (message : Text)
      → validate_command r.command ≡ err message
      → command_endpoint hash_token drawn r sending s ≡ (refusal 400 message, s)
  unfolding command_endpoint
  endpoint_invalid drawn r sending s message e = rw (e, command_endpoint) refl

  endpoint_valid :
      (drawn : Drawn) (r : Request) (sending : Sending) (s : GatewayState)
      → validate_command r.command ≡ ok r.command
      → command_endpoint hash_token drawn r sending s
        ≡ authorized hash_token drawn r sending s r.command
            (authorize hash_token s.acl r.headers r.session r.permission)
  unfolding command_endpoint
  endpoint_valid drawn r sending s e = rw (e, command_endpoint) refl

  authorized-Outcome :
      (drawn : Drawn) (r : Request) (sending : Sending) (s : GatewayState)
      (a : Result AuthError PrincipalId)
      → validate_command r.command ≡ ok r.command
      → authorize hash_token s.acl r.headers r.session r.permission ≡ a
      → Outcome hash_token r sending s (authorized hash_token drawn r sending s r.command a)
  authorized-Outcome drawn r sending s (err e) v a =
      inr (inl (e, (v, authorize-IsUnauthorized s r e a, refl, auth_response-status e)))
  authorized-Outcome drawn r sending s (ok principal) v a =
      send-Outcome drawn r sending s v (authorize-IsAuthorized s r principal a)

  valid_unchanged :
      (r : Request) (command : Text)
      → validate_command r.command ≡ ok command
      → validate_command r.command ≡ ok r.command
  valid_unchanged r command e = e ∙ ap ok ((validate_command-IsAccepted r.command command e).0)

  pub command_endpoint-Outcome :
      (drawn : Drawn) (r : Request) (sending : Sending) (s : GatewayState)
      → Outcome hash_token r sending s (command_endpoint hash_token drawn r sending s)
  command_endpoint-Outcome drawn r sending s = elim (Result-cases (validate_command r.command)) [
    | inr (message, e) ↦
        rw (endpoint_invalid drawn r sending s message e) (inl (message, (e, refl, refl)))
    | inl (command, e) ↦
        let valid = valid_unchanged r command e in
        let a = authorize hash_token s.acl r.headers r.session r.permission in
        rw (endpoint_valid drawn r sending s valid)
          (authorized-Outcome drawn r sending s a valid refl)
  ]

  answer-IsFinished :
      (drawn : Drawn) (session : Text) (input : Option InputLogCommand) (sending : Sending)
      (s : GatewayState) (sent : List Sent)
      → IsFinished drawn.event_id s.input_log
      → IsFinished drawn.event_id
          (answer drawn input sending (record s {
            input_log = begin drawn session input s.input_log;
            sent = sent;
          })).1.input_log
  unfolding answer complete_input fail_input
  answer-IsFinished drawn session none (replied result) s sent f = f
  answer-IsFinished drawn session none (failed message) s sent f = f
  answer-IsFinished drawn session none timed_out s sent f = f
  answer-IsFinished drawn session (some i) (replied result) s sent f =
      (recent-finalize-begin drawn.event_id session i.action (some i.button)
        InputEventStatus.completed (some (caller_latency_ms result.trace)) drawn.begun_at
        drawn.finished_at s.input_log f).1
  answer-IsFinished drawn session (some i) (failed message) s sent f =
      (recent-finalize-begin drawn.event_id session i.action (some i.button) InputEventStatus.failed
        none drawn.begun_at drawn.finished_at s.input_log f).1
  answer-IsFinished drawn session (some i) timed_out s sent f =
      (recent-finalize-begin drawn.event_id session i.action (some i.button) InputEventStatus.failed
        none drawn.begun_at drawn.finished_at s.input_log f).1

  authorized-IsFinished :
      (drawn : Drawn) (r : Request) (sending : Sending) (s : GatewayState)
      (a : Result AuthError PrincipalId)
      → IsFinished drawn.event_id s.input_log
      → IsFinished drawn.event_id (authorized hash_token drawn r sending s r.command a).1.input_log
  authorized-IsFinished drawn r sending s (err e) f = f
  authorized-IsFinished drawn r sending s (ok principal) f =
      answer-IsFinished drawn r.session r.input_log sending s _ f

  -- Whatever comes of a request, its input event is not pending after it, if the new event's id was
  -- pending in no session before.
  pub command_endpoint-IsFinished :
      (drawn : Drawn) (r : Request) (sending : Sending) (s : GatewayState)
      → IsFinished drawn.event_id s.input_log
      → IsFinished drawn.event_id (command_endpoint hash_token drawn r sending s).1.input_log
  command_endpoint-IsFinished drawn r sending s f =
      elim (Result-cases (validate_command r.command)) [
        | inr (message, e) ↦ rw (endpoint_invalid drawn r sending s message e) f
        | inl (command, e) ↦ rw (endpoint_valid drawn r sending s (valid_unchanged r command e)) (
            authorized-IsFinished drawn r sending s
              (authorize hash_token s.acl r.headers r.session r.permission) f)
      ]
