-- ===== src/Gateway/Admin/Guard.antt =====
-- crates/gateway/src/admin.rs: requests without the token, and the rights of the one who creates.
use mgba_server.Common.{
  pair_beq, ◌≡◌, ◌≢◌, refl, ap, false, Option, none, some, if◌then◌else◌, Result, ok, err,
  Bool-cases, inl, inr,
}
use mgba_server.Common.Text.{Text, text_eq, text_beq, text_beq_iff, text_beq_refl}
use mgba_server.Auth.{
  AclService, Permission, check_token, register_principal_token, grant, allows, owner, forbidden,
}
use mgba_server.Auth.Access.{check_principal-grant, resolve_token-register}
use mgba_server.Instances.{
  InstanceInfo, InstanceError, InstanceBackend, max_instances_reached, unsafe_capture_path, backend,
  not_found, process,
}
use mgba_server.Instances.Manager.{World, create}
use mgba_server.Streaming.Metrics.{Floats}
use mgba_server.Gateway.Admin.{
  AdminState, AdminRequest, AdminResponse, unauthorized, ok_info, Fresh, check_admin_token, created,
  create_instance, list_instances, get_instance, destroy_instance, stream_metrics, admin_routes,
  post_instances, get_instances, get_instance_by, delete_instance, get_metrics,
}

check_admin_token_wrong :
    (token : Option Text) (expected : Text)
    → token ≢ some expected
    → check_admin_token token expected ≡ false
unfolding check_admin_token
check_admin_token_wrong none expected h = refl
check_admin_token_wrong (some token) expected h = elim (Bool-cases (text_beq token expected)) [
  | inl e ↦ absurd (h (ap some ((text_beq_iff token expected).0 e)))
  | inr e ↦ e
]

module _ {B : Type 0} (floats : Floats) (instance_backend : InstanceBackend B)
    (hash_token : Text → Text) where
  -- A request to any route whose header is not the administrator's token is answered with 401 and
  -- changes nothing: no instance, no grant, no frame and no metrics.
  pub admin_routes-unauthorized :
      (request : AdminRequest) (token : Option Text) (s : AdminState B floats.F)
      → token ≢ some s.admin_token
      → admin_routes floats instance_backend hash_token request token s ≡ (unauthorized, s)
  unfolding admin_routes create_instance list_instances get_instance destroy_instance stream_metrics
  admin_routes-unauthorized (post_instances fresh) token s h =
      rw (check_admin_token_wrong token s.admin_token h) refl
  admin_routes-unauthorized get_instances token s h =
      rw (check_admin_token_wrong token s.admin_token h) refl
  admin_routes-unauthorized (get_instance_by id) token s h =
      rw (check_admin_token_wrong token s.admin_token h) refl
  admin_routes-unauthorized (delete_instance id) token s h =
      rw (check_admin_token_wrong token s.admin_token h) refl
  admin_routes-unauthorized get_metrics token s h =
      rw (check_admin_token_wrong token s.admin_token h) refl

  -- The rights that an answer brings.
  abbrev pub Grants : AclService → AdminResponse floats.F → Type 0
  Grants acl (ok_info info) =
      (permission : Permission)
      → check_token hash_token acl info.principal_token info.principal_session_id permission
        ≡ (if allows owner permission then ok info.principal_session_id else err forbidden)
  Grants acl response = Unit {0}

  created-Grants :
      (fresh : Fresh) (s : AdminState B floats.F) (r : Result InstanceError InstanceInfo × World B)
      → let (response, s') = created floats instance_backend hash_token fresh s r in
        Grants s'.acl response
  unfolding check_token grant pair_beq
  created-Grants fresh s (ok info, w) = λ permission.
      let session = info.principal_session_id in
      let registered = register_principal_token hash_token s.acl session info.principal_token in
      let same_hash = text_beq_refl (hash_token info.principal_token) in
      let same_session = text_beq_refl session in
      let known = rw same_hash at (
        resolve_token-register hash_token s.acl session info.principal_token
          info.principal_token) in
      let granted = rw same_session at (
        check_principal-grant registered session session fresh.grant_id owner session session
          permission) in
      elim (Bool-cases (allows owner permission)) [
        | inl e ↦ rw (known, granted, e) refl
        | inr e ↦ rw (known, granted, e) refl
      ]
  created-Grants fresh s (err max_instances_reached, w) = tt
  created-Grants fresh s (err unsafe_capture_path, w) = tt
  created-Grants fresh s (err (backend e), w) = tt
  created-Grants fresh s (err not_found, w) = tt
  created-Grants fresh s (err (process e), w) = tt

  -- Who creates an instance with the administrator's token gets a token that is accepted for the
  -- session of the instance, as its owner: with every permission that an owner has and no other.
  pub create_instance-Grants :
      (fresh : Fresh) (token : Option Text) (s : AdminState B floats.F)
      → token ≡ some s.admin_token
      → let (response, s') = create_instance floats instance_backend hash_token fresh token s in
        Grants s'.acl response
  unfolding create_instance check_admin_token
  create_instance-Grants fresh token s h =
      rw (h, text_beq_refl s.admin_token)
        (created-Grants fresh s (create instance_backend fresh.session_id fresh.drawn s.world))
