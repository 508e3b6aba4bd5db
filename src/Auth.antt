-- ===== src/Auth.antt =====
-- crates/auth/src/lib.rs: roles, grants and principal tokens. `PrincipalId` and `SessionId` are the
-- texts that they wrap. SHA-256, the random bytes and the UUIDs are not the repository's code: the
-- hash is a parameter, the others are arguments.
pub mod Access
pub mod History
mod Runs
use mgba_server.Common.{
  ℕ, ◌+◌, ◌/◌, ◌%◌, Bool, true, false, not, List, [], ◌∷◌, ◌++◌, Option, none, some, ltb,
  if◌then◌else◌, Result, ok, err, ok_or, ◌>>=◌, ◌>>◌, pair_beq, pair_eq,
}
use mgba_server.Common.Text.{Text, text_beq, text_eq}
use mgba_server.Common.Dict.{Dict, lookup, insert, modify}

abbrev pub PrincipalId : Type 0
PrincipalId = Text

abbrev pub SessionId : Type 0
SessionId = Text

pub data Role : Type 0 where
  owner viewer controller admin : Role

pub data Permission : Type 0 where
  view_stream view_input_logs send_key read_memory admin_lifecycle : Permission

-- The `matches!` of the controller's row, of the viewer's row, and the owner's exception.
unfoldable pub allows : Role → Permission → Bool
allows admin permission = true
allows owner admin_lifecycle = false
allows owner permission = true
allows controller view_stream = true
allows controller view_input_logs = true
allows controller send_key = true
allows controller read_memory = true
allows controller admin_lifecycle = false
allows viewer view_stream = true
allows viewer view_input_logs = true
allows viewer permission = false

pub record Grant : Type 0 where
  pub id : Text
  pub principal_id : PrincipalId
  pub session_id : SessionId
  pub role : Role
  pub revoked : Bool

pub record PrincipalToken : Type 0 where
  pub token : Text
  pub principal_id : PrincipalId

pub data AuthError : Type 0 where
  invalid_token missing_grant forbidden : AuthError

pub record AclService : Type 0 where
  pub token_hash_to_principal : Dict Text PrincipalId
  pub grants : Dict (PrincipalId × SessionId) Grant

-- `AclService::default()`
abbrev pub new : AclService
new = record { token_hash_to_principal = []; grants = [] }

abbrev hex_digit : ℕ → ℕ
hex_digit d = if ltb d 10 then b'0' + d else b'W' + d

-- `format!("{byte:02x}")` of each of the random bytes.
unfoldable pub generate_token : List ℕ → Text
generate_token [] = []
generate_token (byte ∷ bytes) =
    hex_digit (byte / 16 % 16) ∷ hex_digit (byte % 16) ∷ generate_token bytes

-- A grant replaces the one that the principal had for the session.
unfoldable pub grant : AclService → Text → PrincipalId → SessionId → Role → AclService × Grant
grant acl id principal_id session_id role =
    let g : Grant = record {
      id = id;
      principal_id = principal_id;
      session_id = session_id;
      role = role;
      revoked = false;
    } in
    (record acl { grants = insert (principal_id, session_id) g acl.grants }, g)

abbrev revoked_grant : Grant → Grant
revoked_grant g = record g { revoked = true }

-- `get_mut(..)?`, the assignment, and the copy that is returned.
unfoldable pub revoke : AclService → PrincipalId → SessionId → AclService × Option Grant
revoke acl principal_id session_id = elim (lookup (principal_id, session_id) acl.grants) [
  | none ↦ (acl, none)
  | some g ↦ (
    record acl { grants = modify (principal_id, session_id) revoked_grant acl.grants },
    some (revoked_grant g),
  )
]

unfoldable pub check_principal :
    AclService → PrincipalId → SessionId → Permission → Result AuthError (Unit {0})
check_principal acl principal_id session_id permission = do
  g ← ok_or (lookup (principal_id, session_id) acl.grants) missing_grant
  if g.revoked then err missing_grant else if allows g.role permission then ok tt else err forbidden

-- `hash_token`, the hexadecimal SHA-256 of a token.
module _ (hash_token : Text → Text) where
  unfoldable pub register_principal_token : AclService → PrincipalId → Text → AclService
  register_principal_token acl principal_id token = record acl {
    token_hash_to_principal = insert (hash_token token) principal_id acl.token_hash_to_principal;
  }

  unfoldable pub issue_principal_token :
      AclService → List ℕ → PrincipalId → AclService × PrincipalToken
  unfolding register_principal_token
  issue_principal_token acl random_bytes principal_id =
      let token = generate_token random_bytes in
      (
        register_principal_token acl principal_id token,
        record { token = token; principal_id = principal_id },
      )

  unfoldable pub resolve_token : AclService → Text → Result AuthError PrincipalId
  resolve_token acl token =
      ok_or (lookup (hash_token token) acl.token_hash_to_principal) invalid_token

  unfoldable pub check_token :
      AclService → Text → SessionId → Permission → Result AuthError PrincipalId
  unfolding resolve_token check_principal
  check_token acl token session_id permission = do
    principal ← resolve_token acl token
    check_principal acl principal session_id permission
    ok principal
