-- ===== src/Auth/Runs.antt =====
-- Runs of the access control, and its theorems at concrete inputs.
use mgba_server.Common.{◌≡◌, ◌↔◌, refl, List, [], ◌∷◌, ok, err, pair_beq, pair_eq}
use mgba_server.Common.Text.{Text, codes, text_beq, text_eq}
use mgba_server.Common.Dict.{lookup, insert}
use mgba_server.Auth.{
  allows, grant, check_principal, check_token, resolve_token, register_principal_token, controller,
  send_key, view_stream, missing_grant,
}
use mgba_server.Auth.Access.{IsAdmitted, check_token_iff}
use mgba_server.Auth.History.{
  Call, grants, revokes, registers, after, role_in_force, verdict, check_principal-after,
}

abbrev same_text : Text → Text
same_text token = token

abbrev alice : Text
alice = codes "alice"

abbrev session_a : Text
session_a = codes "session-a"

abbrev session_b : Text
session_b = codes "session-b"

abbrev calls : List Call
calls = grants (codes "g1") alice session_a controller ∷ registers alice (codes "t1") ∷ []

session_scoped :
    check_token same_text (after same_text calls) (codes "t1") session_b view_stream
    ≡ err missing_grant
unfolding check_token check_principal resolve_token after register_principal_token grant lookup
    insert text_beq pair_beq
session_scoped = refl

send_key_allowed :
    check_token same_text (after same_text calls) (codes "t1") session_a send_key ≡ ok alice
unfolding check_token check_principal resolve_token after register_principal_token grant lookup
    insert text_beq pair_beq allows
send_key_allowed = refl

check_token_iff_example :
    (check_token same_text (after same_text calls) (codes "t1") session_a send_key ≡ ok alice)
    ↔ IsAdmitted same_text (after same_text calls) (codes "t1") session_a send_key alice
check_token_iff_example =
    check_token_iff same_text (after same_text calls) (codes "t1") session_a send_key alice

check_principal-after_example :
    check_principal (after same_text (revokes alice session_a ∷ calls)) alice session_a view_stream
    ≡ verdict (role_in_force (revokes alice session_a ∷ calls) alice session_a) view_stream
check_principal-after_example =
    check_principal-after same_text (revokes alice session_a ∷ calls) alice session_a view_stream
