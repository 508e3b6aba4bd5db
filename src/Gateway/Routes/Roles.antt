-- ===== src/Gateway/Routes/Roles.antt =====
-- crates/gateway/src/lib.rs: which roles reach a session's emulator over the routes.
use mgba_server.Common.{pair_eq, ◌≡◌, ◌⊎◌, refl, false, some, inl, inr}
use mgba_server.Common.Text.{Text, text_eq}
use mgba_server.Common.Dict.{lookup}
use mgba_server.Auth.{
  Grant, PrincipalId, SessionId, Permission, viewer, allows, read_memory, send_key,
}
use mgba_server.Auth.Access.{check_token_iff}
use mgba_server.Gateway.Endpoint.{Headers, Drawn, Sending, GatewayState, principal_token}
use mgba_server.Gateway.Endpoint.Gate.{command_endpoint-Outcome}
use mgba_server.Gateway.Routes.{
  SessionRoute, read8, read16, read_range, current_frame, write8, write16, write32, save_state,
  load_state, reset, tap, hold, request_of, session_route,
}

-- The permission of a route is one of two.
permission_of :
    (route : SessionRoute) (headers : Headers) (session : SessionId)
    → let r = request_of route headers session in
      ((r.permission ≡ read_memory) ⊎ (r.permission ≡ send_key))
      × (r.headers ≡ headers)
      × (r.session ≡ session)
unfolding request_of
permission_of (read8 a) headers session = (inl refl, refl, refl)
permission_of (read16 a) headers session = (inl refl, refl, refl)
permission_of (read_range a n) headers session = (inl refl, refl, refl)
permission_of current_frame headers session = (inl refl, refl, refl)
permission_of (write8 a v) headers session = (inr refl, refl, refl)
permission_of (write16 a v) headers session = (inr refl, refl, refl)
permission_of (write32 a v) headers session = (inr refl, refl, refl)
permission_of (save_state n) headers session = (inr refl, refl, refl)
permission_of (load_state n) headers session = (inr refl, refl, refl)
permission_of reset headers session = (inr refl, refl, refl)
permission_of (tap b d) headers session = (inr refl, refl, refl)
permission_of (hold b d) headers session = (inr refl, refl, refl)

viewer_refused :
    (permission : Permission)
    → (permission ≡ read_memory) ⊎ (permission ≡ send_key)
    → allows viewer permission ≡ false
unfolding allows
viewer_refused permission (inl e) = rw e refl
viewer_refused permission (inr e) = rw e refl

-- Whoever the token stands for can only watch the session.
pub record IsViewer (hash_token : Text → Text) (s : GatewayState) (headers : Headers)
    (session : SessionId) : Type 0 where
  pub token : Text
  pub principal : PrincipalId
  pub seat : Grant
  pub carried : principal_token headers ≡ some token
  pub known : lookup (hash_token token) s.acl.token_hash_to_principal ≡ some principal
  pub granted : lookup (principal, session) s.acl.grants ≡ some seat
  pub only : seat.role ≡ viewer

-- A viewer of a session reaches its emulator over no route: whatever is asked for, nothing is sent to
-- the command service, no input event is logged, and the state is as before.
pub session_route-viewer :
    (hash_token : Text → Text) (route : SessionRoute) (headers : Headers) (session : SessionId)
    (drawn : Drawn) (sending : Sending) (s : GatewayState)
    → IsViewer hash_token s headers session
    → (session_route hash_token route headers session drawn sending s).1 ≡ s
unfolding session_route
session_route-viewer hash_token route headers session drawn sending s v =
    let r = request_of route headers session in
    let (permission, same_headers, same_session) = permission_of route headers session in
    elim (command_endpoint-Outcome hash_token drawn r sending s) [
      | inl (message, (invalid, same, status)) ↦ same
      | inr (inl (e, (valid, refused, same, status))) ↦ same
      | inr (inr (valid, a, kept, sent, status)) ↦
          let admitted =
            (check_token_iff hash_token s.acl a.token r.session r.permission a.principal).0
              a.admitted in
          let carried = v.carried in
          let token_eq : v.token ≡ a.token = cc (a.carried, carried, same_headers) in
          let v_known = v.known in
          let a_known = admitted.known in
          let principal_eq : v.principal ≡ a.principal = cc (v_known, a_known, token_eq) in
          let v_granted = v.granted in
          let a_granted = admitted.granted in
          let seat_eq : v.seat ≡ admitted.active =
            cc (v_granted, a_granted, principal_eq, same_session) in
          let only = v.only in
          let permitted = admitted.permitted in
          let refused = viewer_refused r.permission permission in
          absurd (cc (rw (← seat_eq, only, refused) at permitted))
    ]
