-- ===== src/Auth/History.antt =====
-- crates/auth/src/lib.rs: the service after any sequence of calls, against a specification that
-- looks at the calls only.
use mgba_server.Common.{
  ℕ, ◌≡◌, refl, ◌∙◌, List, [], ◌∷◌, Option, none, some, if◌then◌else◌, Result, ok, err, arith,
  pair_beq, pair_eq,
}
use mgba_server.Common.Text.{Text, text_eq}
use mgba_server.Common.Dict.{lookup}
use mgba_server.Auth.{
  PrincipalId, SessionId, Role, Permission, AuthError, AclService, new, allows, grant, revoke,
  check_principal, register_principal_token, issue_principal_token, missing_grant, forbidden,
}
use mgba_server.Auth.Access.{
  check_principal-grant, check_principal-revoke, check_principal-register, check_principal-issue,
}

-- The calls that change the service.
pub data Call : Type 0 where
  registers : PrincipalId → Text → Call
  issues : List ℕ → PrincipalId → Call
  grants : Text → PrincipalId → SessionId → Role → Call
  revokes : PrincipalId → SessionId → Call

module _ (hash_token : Text → Text) where
  unfoldable pub call : AclService → Call → AclService
  call acl (registers principal token) = register_principal_token hash_token acl principal token
  call acl (issues random_bytes principal) =
      (issue_principal_token hash_token acl random_bytes principal).0
  call acl (grants id principal session role) = (grant acl id principal session role).0
  call acl (revokes principal session) = (revoke acl principal session).0

  -- The service after the calls, the latest one first.
  unfoldable pub after : List Call → AclService
  unfolding call
  after [] = new
  after (c ∷ calls) = call (after calls) c

-- The role that the latest call about the principal and the session leaves in force.
unfoldable pub role_in_force : List Call → PrincipalId → SessionId → Option Role
role_in_force [] p s = none
role_in_force (registers principal token ∷ calls) p s = role_in_force calls p s
role_in_force (issues random_bytes principal ∷ calls) p s = role_in_force calls p s
role_in_force (grants id principal session role ∷ calls) p s =
    if pair_beq (principal, session) (p, s) then some role else role_in_force calls p s
role_in_force (revokes principal session ∷ calls) p s =
    if pair_beq (principal, session) (p, s) then none else role_in_force calls p s

-- The answer that such a role is due.
abbrev pub verdict : Option Role → Permission → Result AuthError (Unit {0})
verdict none permission = err missing_grant
verdict (some role) permission = if allows role permission then ok tt else err forbidden

-- After any calls, a check is answered by the latest grant or revocation of that principal in that
-- session and by nothing else: with no grant in force it is refused.
pub check_principal-after :
    (hash_token : Text → Text) (calls : List Call) (p : PrincipalId) (s : SessionId)
    (permission : Permission)
    → check_principal (after hash_token calls) p s permission
      ≡ verdict (role_in_force calls p s) permission
unfolding after role_in_force
check_principal-after hash_token [] p s permission = unfold check_principal lookup in refl
check_principal-after hash_token (registers principal token ∷ calls) p s permission =
    check_principal-register hash_token (after hash_token calls) principal p token s permission
    ∙ check_principal-after hash_token calls p s permission
check_principal-after hash_token (issues random_bytes principal ∷ calls) p s permission =
    check_principal-issue hash_token (after hash_token calls) principal p random_bytes s permission
    ∙ check_principal-after hash_token calls p s permission
check_principal-after hash_token (grants id principal session role ∷ calls) p s permission =
    ground (
      arith,
      check_principal-grant (after hash_token calls) principal session id role p s permission,
      check_principal-after hash_token calls p s permission,
    )
check_principal-after hash_token (revokes principal session ∷ calls) p s permission = ground (
  arith,
  check_principal-revoke (after hash_token calls) principal session p s permission,
  check_principal-after hash_token calls p s permission,
)
