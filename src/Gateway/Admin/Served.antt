-- ===== src/Gateway/Admin/Served.antt =====
-- crates/gateway/src/admin.rs: the tracked instances have their frame channel and their reader.
use mgba_server.Common.{
  ◌≡◌, ◌≢◌, sym, ◌∙◌, true, false, some, Result, ok, err, Bool-cases, inl, inr, is_some,
}
use mgba_server.Common.Text.{Text, text_eq, text_beq}
use mgba_server.Common.Dict.{Dict, lookup, insert, remove, lookup-remove}
use mgba_server.Instances.{InstanceInfo, InstanceError, InstanceBackend}
use mgba_server.Instances.Manager.{World, Drawn}
use mgba_server.Streaming.Metrics.{Floats}
use mgba_server.Gateway.Admin.{AdminState, AdminRequest, IngestTask, post_instances}
use mgba_server.Gateway.Admin

lookup_removed :
    {V : Type 0} (k j : Text) (a : V) (m : Dict Text V)
    → lookup j (remove k m) ≡ some a
    → (lookup j m ≡ some a) × (text_beq k j ≡ false)
lookup_removed k j a m h = elim (Bool-cases (text_beq k j)) [
  | inl e ↦ absurd (cc (rw e at (sym (lookup-remove k j m) ∙ h)))
  | inr e ↦ (rw e at (sym (lookup-remove k j m) ∙ h), e)
]

module _ {B : Type 0} (instance_backend : InstanceBackend B) where
  -- What a creation leaves of the tracked instances.
  abbrev Tracked : Text → Drawn → World B → Result InstanceError InstanceInfo → World B → Type 0
  Tracked session drawn w (ok info) w' =
      (w'.manager.instances ≡ insert drawn.instance_id info w.manager.instances)
      × (info.id ≡ drawn.instance_id)
      × (info.principal_session_id ≡ session)
  Tracked session drawn w (err e) w' = w'.manager.instances ≡ w.manager.instances

module _ {B : Type 0} (floats : Floats) (instance_backend : InstanceBackend B)
    (hash_token : Text → Text) where
  -- Every tracked instance has a task that reads its frames and a channel in the hub, and no two
  -- have the same session.
  pub record IsServed (s : AdminState B floats.F) : Type 0 where
    pub read :
        (id : Text) (info : InstanceInfo)
        → lookup id s.world.manager.instances ≡ some info
        → is_some (lookup id s.frame_ingest_tasks) ≡ true
    pub channelled :
        (id : Text) (info : InstanceInfo)
        → lookup id s.world.manager.instances ≡ some info
        → is_some (lookup info.principal_session_id s.frame_hub.channels) ≡ true
    pub apart :
        (i j : Text) (a b : InstanceInfo)
        → lookup i s.world.manager.instances ≡ some a
        → lookup j s.world.manager.instances ≡ some b
        → a.principal_session_id ≡ b.principal_session_id
        → i ≡ j

  -- The session's UUID is not the one of a tracked instance.
  abbrev pub IsFresh : AdminRequest → AdminState B floats.F → Type 0
  IsFresh (post_instances fresh) s =
      (i : Text) (a : InstanceInfo)
      → lookup i s.world.manager.instances ≡ some a
      → a.principal_session_id ≢ fresh.session_id
  IsFresh request s = Unit {0}
