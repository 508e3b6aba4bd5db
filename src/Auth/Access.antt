-- ===== src/Auth/Access.antt =====
-- crates/auth/src/lib.rs: who gets in.
use mgba_server.Common.{
  ℕ, List, ◌≡◌, refl, ◌↔◌, inl, inr, true, false, some, if◌then◌else◌, ok, err, arith, Option-cases,
  pair_beq, pair_beq_iff, pair_eq,
}
use mgba_server.Common.Text.{Text, text_beq, text_eq}
use mgba_server.Common.Dict.{lookup, lookup-insert, lookup-modify}
use mgba_server.Auth.{
  PrincipalId, SessionId, Role, Permission, Grant, AclService, allows, grant, revoke, revoked_grant,
  check_principal, check_token, resolve_token, register_principal_token, issue_principal_token,
  generate_token, missing_grant, forbidden,
}

abbrev key : PrincipalId → SessionId → PrincipalId × SessionId
key principal session = (principal, session)

-- What it takes to be let in.
pub record IsAdmitted (hash_token : Text → Text) (acl : AclService) (token : Text)
    (session : SessionId) (permission : Permission) (principal : PrincipalId) : Type 0 where
  pub active : Grant
  pub known : lookup (hash_token token) acl.token_hash_to_principal ≡ some principal
  pub granted : lookup (principal, session) acl.grants ≡ some active
  pub not_revoked : active.revoked ≡ false
  pub permitted : allows active.role permission ≡ true

-- `check_token` answers with a principal exactly when the token's hash is registered to it and it
-- has a grant for that session which is not revoked and whose role allows the permission.
pub check_token_iff :
    (hash_token : Text → Text) (acl : AclService) (token : Text) (session : SessionId)
    (permission : Permission) (principal : PrincipalId)
    → (check_token hash_token acl token session permission ≡ ok principal)
      ↔ IsAdmitted hash_token acl token session permission principal
unfolding check_token
check_token_iff hash_token acl token session permission principal = (forth, back)
  where
    forth :
        check_token hash_token acl token session permission ≡ ok principal
        → IsAdmitted hash_token acl token session permission principal
    forth e = elim (Option-cases (lookup (hash_token token) acl.token_hash_to_principal)) [
      | inl unknown ↦ absurd (ground (arith, unknown))
      | inr (p, known) ↦ elim (Option-cases (lookup (key p session) acl.grants)) [
        | inl ungranted ↦ absurd (ground (arith, known, ungranted))
        | inr (g, granted) ↦
            let same : p ≡ principal = ground (arith, known, granted) in
            record {
              active = g;
              known = ground (arith, known, same);
              granted = rw same at granted;
              not_revoked = ground (arith, known, granted);
              permitted = ground (arith, known, granted);
            }
      ]
    ]

    back :
        IsAdmitted hash_token acl token session permission principal
        → check_token hash_token acl token session permission ≡ ok principal
    back a = rw (a.known, a.granted, a.not_revoked, a.permitted)

module _ (acl : AclService) (principal : PrincipalId) (session : SessionId) where
  -- A new grant lets the principal do in that session what the role allows and nothing else, also
  -- where an earlier grant was revoked, and no other principal's or session's access changes.
  pub check_principal-grant :
      (id : Text) (role : Role) (p : PrincipalId) (s : SessionId) (permission : Permission)
      → check_principal (grant acl id principal session role).0 p s permission ≡ (
          if pair_beq (principal, session) (p, s)
          then if allows role permission then ok tt else err forbidden
          else check_principal acl p s permission)
  unfolding check_principal grant
  check_principal-grant id role p s permission = ground (
    arith,
    lookup-insert (key principal session) (key p s) (grant acl id principal session role).1
        acl.grants,
  )

  -- After a revocation the principal is refused every permission in that session, and no other
  -- principal's or session's access changes.
  pub check_principal-revoke :
      (p : PrincipalId) (s : SessionId) (permission : Permission)
      → check_principal (revoke acl principal session).0 p s permission ≡ (
          if pair_beq (principal, session) (p, s)
          then err missing_grant
          else check_principal acl p s permission)
  unfolding check_principal revoke
  check_principal-revoke p s permission = ground (
    arith,
    lookup-modify (key principal session) (key p s) revoked_grant acl.grants,
    pair_beq_iff (key principal session) (key p s),
  )

-- Registering a token binds its hash to the principal and leaves every other hash as it was; a
-- token whose hash is not registered is refused.
pub resolve_token-register :
    (hash_token : Text → Text) (acl : AclService) (principal : PrincipalId) (token t : Text)
    → resolve_token hash_token (register_principal_token hash_token acl principal token) t ≡ (
        if text_beq (hash_token token) (hash_token t)
        then ok principal
        else resolve_token hash_token acl t)
unfolding resolve_token register_principal_token
resolve_token-register hash_token acl principal token t =
    ground
      (arith, lookup-insert (hash_token token) (hash_token t) principal acl.token_hash_to_principal)

-- Tokens do not touch the grants.
pub check_principal-register :
    (hash_token : Text → Text) (acl : AclService) (principal p : PrincipalId) (token : Text)
    (s : SessionId) (permission : Permission)
    → check_principal (register_principal_token hash_token acl principal token) p s permission
      ≡ check_principal acl p s permission
unfolding register_principal_token check_principal
check_principal-register hash_token acl principal p token s permission = refl

pub check_principal-issue :
    (hash_token : Text → Text) (acl : AclService) (principal p : PrincipalId)
    (random_bytes : List ℕ) (s : SessionId) (permission : Permission)
    → check_principal (issue_principal_token hash_token acl random_bytes principal).0 p s permission
      ≡ check_principal acl p s permission
unfolding issue_principal_token
check_principal-issue hash_token acl principal p random_bytes s permission =
    check_principal-register hash_token acl principal p (generate_token random_bytes) s permission
