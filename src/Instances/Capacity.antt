-- ===== src/Instances/Capacity.antt =====
-- crates/instances/src/lib.rs: the limit on the instances when calls interleave.
use mgba_server.Common.{
  ℕ, suc, ◌+◌, ◌≤◌, ◌≡◌, refl, ap, List, [], ◌∷◌, Option, none, length, not, ◌&&◌, ◌||◌, Result, ok,
  err, Result-cases, Option-cases, Bool-cases, inl, inr, arith,
}
use mgba_server.Common.Text.{Text, text_eq}
use mgba_server.Common.Dict.{
  keys, IsUnique, remove, insert-IsUnique, remove-IsUnique, modify-IsUnique, length-insert,
  length-remove_le, length-modify,
}
use mgba_server.Instances.{
  InstanceInfo, InstanceError, InstanceBackend, InstanceManager, ManagerConfig, ManagedInstanceInfo,
  WorkerInfo, new,
}
use mgba_server.Instances.Manager.{
  Drawn, World, Probe, reserve, track, release, mark_error, create, created, create_options,
  new_info, destroy, stopped_as, destroy_each, destroy_all, first_error, as_error, get, stop_each,
  reconstruct, refresh_each, refresh_health_once, running_ids, check_worker_alive,
}

-- The managers that interleaved calls reach, with the creates that wait for their backend and those
-- that have tracked their instance and not yet released their reservation.
pub data Reach (config : ManagerConfig) : ℕ → ℕ → InstanceManager → Type 0 where
  fresh : Reach config 0 0 (new config)
  reserved :
      (busy done : ℕ) (m m' : InstanceManager)
      → Reach config busy done m
      → reserve m ≡ ok m'
      → Reach config (suc busy) done m'
  failed :
      (busy done : ℕ) (m : InstanceManager)
      → Reach config (suc busy) done m
      → Reach config busy done (release m)
  tracked :
      (busy done : ℕ) (m : InstanceManager) (info : InstanceInfo)
      → Reach config (suc busy) done m
      → Reach config busy (suc done) (track info m)
  released :
      (busy done : ℕ) (m : InstanceManager)
      → Reach config busy (suc done) m
      → Reach config busy done (release m)
  removed :
      (busy done : ℕ) (m : InstanceManager) (id : Text)
      → Reach config busy done m
      → Reach config busy done (record m { instances = remove id m.instances })
  marked :
      (busy done : ℕ) (m : InstanceManager) (id : Text)
      → Reach config busy done m
      → Reach config busy done (mark_error id m)
  cleared :
      (busy done : ℕ) (m : InstanceManager)
      → Reach config busy done m
      → Reach config busy done (record m { instances = [] })

-- The counter is the number of creates in progress, and the tracked instances with the creates that
-- may still track one are within the limit.
pub record IsWithin (config : ManagerConfig) (busy done : ℕ) (m : InstanceManager) : Type 0 where
  pub configured : m.config ≡ config
  pub counted : m.pending_creates ≡ busy + done
  pub within : length m.instances + busy ≤ config.max_instances
  pub unique : IsUnique m.instances

reserve-IsWithin :
    (config : ManagerConfig) (busy done : ℕ) (m m' : InstanceManager)
    → IsWithin config busy done m
    → reserve m ≡ ok m'
    → IsWithin config (suc busy) done m'
unfolding reserve
reserve-IsWithin config busy done m m' h e =
    let next : record m { pending_creates = m.pending_creates + 1 } ≡ m' = ground arith in
    let limit : m.config.max_instances ≡ config.max_instances =
      ap (λ c. c.max_instances) h.configured in
    let room : length m.instances + m.pending_creates + 1 ≤ m.config.max_instances = ground arith in
    rw (← next) (record {
      configured = h.configured;
      counted = omega (arith, h.counted);
      within = omega (arith, room, limit, h.counted);
      unique = h.unique;
    })

track-IsWithin :
    (config : ManagerConfig) (busy done : ℕ) (m : InstanceManager) (info : InstanceInfo)
    → IsWithin config (suc busy) done m
    → IsWithin config busy (suc done) (track info m)
unfolding track
track-IsWithin config busy done m info h = record {
  configured = h.configured;
  counted = omega (arith, h.counted);
  within = ground (arith, h.within, length-insert info.id info m.instances);
  unique = insert-IsUnique info.id info m.instances h.unique;
}

Reach-IsWithin_lem :
    (config : ManagerConfig) {busy done : ℕ} {m : InstanceManager}
    → Reach config busy done m
    → IsWithin config busy done m
unfolding release mark_error
Reach-IsWithin_lem config fresh = record {
  configured = refl;
  counted = omega arith;
  within = omega arith;
  unique = tt;
}
Reach-IsWithin_lem config (reserved busy done m m' run e) =
    reserve-IsWithin config busy done m m' (Reach-IsWithin_lem config run) e
Reach-IsWithin_lem config (failed busy done m run) =
    let h = Reach-IsWithin_lem config run in
    record {
      configured = h.configured;
      counted = omega (arith, h.counted);
      within = omega (arith, h.within);
      unique = h.unique;
    }
Reach-IsWithin_lem config (tracked busy done m info run) =
    track-IsWithin config busy done m info (Reach-IsWithin_lem config run)
Reach-IsWithin_lem config (released busy done m run) =
    let h = Reach-IsWithin_lem config run in
    record {
      configured = h.configured;
      counted = omega (arith, h.counted);
      within = h.within;
      unique = h.unique;
    }
Reach-IsWithin_lem config (removed busy done m id run) =
    let h = Reach-IsWithin_lem config run in
    record {
      configured = h.configured;
      counted = h.counted;
      within = omega (arith, h.within, length-remove_le id m.instances);
      unique = remove-IsUnique id m.instances h.unique;
    }
Reach-IsWithin_lem config (marked busy done m id run) =
    let h = Reach-IsWithin_lem config run in
    record {
      configured = h.configured;
      counted = h.counted;
      within = omega (arith, h.within, length-modify id as_error m.instances);
      unique = modify-IsUnique id as_error m.instances h.unique;
    }
Reach-IsWithin_lem config (cleared busy done m run) =
    let h = Reach-IsWithin_lem config run in
    record {
      configured = h.configured;
      counted = h.counted;
      within = omega (arith, h.within);
      unique = tt;
    }

-- However the calls interleave, the counter is the number of creates in progress, and the tracked
-- instances together with the creates that have not tracked theirs yet are no more than the limit.
pub Reach-IsWithin :
    (config : ManagerConfig) (busy done : ℕ) (m : InstanceManager)
    → Reach config busy done m
    → IsWithin config busy done m
Reach-IsWithin config busy done m run = Reach-IsWithin_lem config run

module _ {B : Type 0} (config : ManagerConfig) (backend : InstanceBackend B) where
  created-Reach :
      (busy done : ℕ) (session_id : Text) (drawn : Drawn) (m : InstanceManager)
      (r : Result InstanceError WorkerInfo × B)
      → Reach config (suc busy) done m
      → Reach config busy done (created backend session_id drawn m r).1.manager
  created-Reach busy done session_id drawn m (err e, b) run = failed busy done m run
  created-Reach busy done session_id drawn m (ok worker, b) run =
      let info = new_info session_id drawn worker in
      released busy done (track info m) (tracked busy done m info run)

  create-Reach :
      (busy done : ℕ) (session_id : Text) (drawn : Drawn) (w : World B)
      → Reach config busy done w.manager
      → Reach config busy done (create backend session_id drawn w).1.manager
  unfolding create
  create-Reach busy done session_id drawn w run = elim (Result-cases (reserve w.manager)) [
    | inr (e, r) ↦ rw r run
    | inl (m, r) ↦ rw r (
        created-Reach busy done session_id drawn m
          (backend.create_instance (create_options m.config drawn.instance_id) w.backend)
          (reserved busy done w.manager m run r))
  ]

  stopped-Reach :
      (busy done : ℕ) (id : Text) (m : InstanceManager) (r : Result InstanceError (Unit {0}) × B)
      → Reach config busy done m
      → Reach config busy done (stopped_as backend id m r).1.manager
  stopped-Reach busy done id m (err e, b) run = run
  stopped-Reach busy done id m (ok u, b) run = removed busy done m id run

  destroy-Reach :
      (busy done : ℕ) (id : Text) (w : World B)
      → Reach config busy done w.manager
      → Reach config busy done (destroy backend id w).1.manager
  unfolding destroy
  destroy-Reach busy done id w run = elim (Option-cases (get id w.manager)) [
    | inl e ↦ rw e run
    | inr (info, e) ↦
        rw e (stopped-Reach busy done id w.manager (backend.stop_instance info.id w.backend) run)
  ]

  destroy_each-Reach :
      (busy done : ℕ) (ids : List Text) (e : Option InstanceError) (w : World B)
      → Reach config busy done w.manager
      → Reach config busy done (destroy_each backend ids e w).1.manager
  unfolding destroy_each
  destroy_each-Reach busy done [] e w run = run
  destroy_each-Reach busy done (id ∷ ids) e w run =
      destroy_each-Reach busy done ids (first_error backend e (destroy backend id w).0)
        (destroy backend id w).1 (destroy-Reach busy done id w run)

  stop_each-Reach :
      (busy done : ℕ) (managed : List ManagedInstanceInfo) (w : World B)
      → Reach config busy done w.manager
      → Reach config busy done (stop_each backend managed w).1.manager
  unfolding stop_each
  stop_each-Reach busy done [] w run = cleared busy done w.manager run
  stop_each-Reach busy done (worker ∷ managed) w run =
      let r = backend.stop_instance worker.instance_id w.backend in
      elim (Result-cases r.0) [
        | inl (u, e) ↦
            rw (e, stop_each) (stop_each-Reach busy done managed (record w { backend = r.1 }) run)
        | inr (x, e) ↦ rw (e, stop_each) run
      ]

  refresh_each-Reach :
      (busy done : ℕ) (probe : Text → Probe) (ids : List (Text × Text)) (w : World B)
      → Reach config busy done w.manager
      → Reach config busy done (refresh_each backend probe ids w).1.manager
  unfolding refresh_each
  refresh_each-Reach busy done probe [] w run = run
  refresh_each-Reach busy done probe ((id, socket_path) ∷ ids) w run =
      elim (Result-cases (backend.inspect_running id w.backend)) [
        | inr (x, e) ↦ rw (e, refresh_each) run
        | inl (alive, e) ↦
            rw (e, refresh_each)
              (elim (Bool-cases
                (not alive || not (alive && check_worker_alive (probe socket_path)))) [
                  | inl dead ↦ rw dead (
                      refresh_each-Reach busy done probe ids
                        (record w { manager = mark_error id w.manager })
                        (marked busy done w.manager id run))
                  | inr well ↦ rw well (refresh_each-Reach busy done probe ids w run)
                ])
      ]

  -- From any reachable manager every operation, run without another call in between, reaches a
  -- manager with the same numbers of creates in progress, whatever the backend answers: also after an
  -- error no reservation is left behind.
  pub operations-Reach :
      (busy done : ℕ) (w : World B)
      → Reach config busy done w.manager
      → ((session_id : Text) (drawn : Drawn)
          → Reach config busy done (create backend session_id drawn w).1.manager)
        × ((id : Text) → Reach config busy done (destroy backend id w).1.manager)
        × Reach config busy done (destroy_all backend w).1.manager
        × Reach config busy done (reconstruct backend w).1.manager
        × ((probe : Text → Probe)
            → Reach config busy done (refresh_health_once backend probe w).1.manager)
  unfolding destroy_all reconstruct refresh_health_once
  operations-Reach busy done w run = (
    λ session_id drawn. create-Reach busy done session_id drawn w run,
    λ id. destroy-Reach busy done id w run,
    destroy_each-Reach busy done (keys w.manager.instances) none w run,
    elim (Result-cases (backend.list_managed_instances w.backend)) [
      | inl (managed, e) ↦ rw (e, reconstruct) (stop_each-Reach busy done managed w run)
      | inr (x, e) ↦ rw (e, reconstruct) run
    ],
    λ probe. refresh_each-Reach busy done probe (running_ids w.manager.instances) w run,
  )
