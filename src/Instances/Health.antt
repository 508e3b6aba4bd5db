-- ===== src/Instances/Health.antt =====
-- crates/instances/src/lib.rs: one round of the health checks.
use mgba_server.Common.{
  ◌≡◌, refl, ap, ◌∙◌, List, [], ◌∷◌, Option, none, some, if◌then◌else◌, Bool, true, false, not,
  ◌&&◌, ◌||◌, Result, ok, err, Result-cases, Bool-cases, inl, inr, arith,
}
use mgba_server.Common.Text.{Text, text_eq, text_beq, text_beq_iff}
use mgba_server.Common.Dict.{Dict, IsUnique, lookup, lookup-modify}
use mgba_server.Ipc.{WorkerResponse, WorkerResponseV1}
use mgba_server.Instances.{
  InstanceInfo, InstanceStatus, InstanceError, InstanceBackend, InstanceManager,
}
use mgba_server.Instances.Manager.{
  World, Probe, no_connection, timeout, call_failed, answered, as_error, get, mark_error,
  is_running, running_ids, refresh_each, refresh_health_once, check_worker_alive,
}

-- Each instance is tracked under its own id.
abbrev pub IsKeyed : Dict Text InstanceInfo → Type 0
IsKeyed [] = Unit {0}
IsKeyed ((k, info) ∷ m) = (info.id ≡ k) × IsKeyed m

module _ {B : Type 0} (backend : InstanceBackend B) (probe : Text → Probe) where
  abbrev dead_as : Text → Result InstanceError Bool → Bool
  dead_as socket_path (err e) = false
  dead_as socket_path (ok alive) = not (alive && check_worker_alive (probe socket_path))

  -- The backend says that the process is gone, or the worker does not answer a ping with pong.
  abbrev is_dead : B → Text → Text → Bool
  is_dead b id socket_path = dead_as socket_path (backend.inspect_running id b)

  abbrev marked : B → List (Text × Text) → Text → Bool
  marked b [] j = false
  marked b ((id, socket_path) ∷ rest) j =
      text_beq id j && is_dead b id socket_path || marked b rest j

  abbrev map_error : Option InstanceInfo → Option InstanceInfo
  map_error none = none
  map_error (some info) = some (as_error info)

  map_error-twice : (o : Option InstanceInfo) → map_error (map_error o) ≡ map_error o
  map_error-twice none = refl
  map_error-twice (some info) = refl

  get-mark_error :
      (id j : Text) (m : InstanceManager)
      → get j (mark_error id m) ≡ (if text_beq id j then map_error (get j m) else get j m)
  unfolding get mark_error
  get-mark_error id j m = lookup-modify id j as_error m.instances ∙ ground arith

  refresh_each-lem :
      (l : List (Text × Text)) (w : World B) (j : Text)
      → (refresh_each backend probe l w).0 ≡ ok tt
      → get j (refresh_each backend probe l w).1.manager
        ≡ (if marked w.backend l j then map_error (get j w.manager) else get j w.manager)
  unfolding refresh_each
  refresh_each-lem [] w j done = refl
  refresh_each-lem ((id, socket_path) ∷ l) w j done =
      elim (Result-cases (backend.inspect_running id w.backend)) [
        | inr (x, e) ↦ absurd (cc (rw (e, refresh_each) at done))
        | inl (alive, e) ↦
            let test = not alive || not (alive && check_worker_alive (probe socket_path)) in
            let w' = record w { manager = mark_error id w.manager } in
            rw (e, refresh_each)
              (elim (Bool-cases test) [
                | inl dead ↦ rw dead (
                    refresh_each-lem l w' j (rw (e, refresh_each, dead) at done)
                    ∙ ground (
                      arith,
                      dead,
                      get-mark_error id j w.manager,
                      map_error-twice (get j w.manager),
                    ))
                | inr well ↦ rw well (
                    refresh_each-lem l w j (rw (e, refresh_each, well) at done)
                    ∙ ground (arith, well))
              ])
      ]

  abbrev found_dead : B → Option InstanceInfo → Bool
  found_dead b none = false
  found_dead b (some info) = is_running info.status && is_dead b info.id info.socket_path

  marked-running_ids :
      (b : B) (m : Dict Text InstanceInfo) (j : Text)
      → IsUnique m
      → IsKeyed m
      → marked b (running_ids m) j ≡ found_dead b (lookup j m)
  unfolding lookup
  marked-running_ids b [] j u k = refl
  marked-running_ids b ((i, info) ∷ m) j u k =
      let same : text_beq info.id j ≡ text_beq i j = ap (λ x. text_beq x j) k.0 in
      let ih = marked-running_ids b m j u.1 k.1 in
      elim (Bool-cases (text_beq i j)) [
        | inl p ↦
            let unique : lookup j m ≡ none = cc ((text_beq_iff i j).0 p, u.0) in
            let rest : marked b (running_ids m) j ≡ false = rw unique at ih in
            elim (Bool-cases (is_running info.status)) [
              | inl r ↦ rw (r, same, p, rest) (ground arith)
              | inr r ↦ rw (r, p, rest) (ground (arith, r))
            ]
        | inr p ↦ elim (Bool-cases (is_running info.status)) [
          | inl r ↦ rw (r, same, p) ih
          | inr r ↦ rw (r, p) ih
        ]
      ]

  -- The worker answers a ping with pong.
  abbrev answers : Probe → Bool
  answers (answered (WorkerResponse.v1 WorkerResponseV1.pong)) = true
  answers p = false

  -- What the backend says of the process decides with the worker's answer.
  abbrev gone : Result InstanceError Bool → Probe → Bool
  gone (err e) p = false
  gone (ok false) p = true
  gone (ok true) p = not (answers p)

  -- What a health check should make of an entry.
  abbrev after_check : B → InstanceInfo → InstanceStatus → InstanceInfo
  after_check b info InstanceStatus.running =
      if gone (backend.inspect_running info.id b) (probe info.socket_path)
      then record info { status = InstanceStatus.error }
      else info
  after_check b info status = info

  abbrev checked : B → Option InstanceInfo → Option InstanceInfo
  checked b none = none
  checked b (some info) = some (after_check b info info.status)

  answers-check_worker_alive : (p : Probe) → check_worker_alive p ≡ answers p
  unfolding check_worker_alive
  answers-check_worker_alive no_connection = refl
  answers-check_worker_alive timeout = refl
  answers-check_worker_alive call_failed = refl
  answers-check_worker_alive (answered (WorkerResponse.v1 WorkerResponseV1.pong)) = refl
  answers-check_worker_alive (answered (WorkerResponse.v1 (WorkerResponseV1.frame w h p f b))) =
      refl
  answers-check_worker_alive (answered (WorkerResponse.v1 (WorkerResponseV1.memory_data b))) = refl
  answers-check_worker_alive (answered (WorkerResponse.v1 (WorkerResponseV1.state_data b))) = refl
  answers-check_worker_alive (answered (WorkerResponse.v1 (WorkerResponseV1.current_frame n))) =
      refl
  answers-check_worker_alive (answered (WorkerResponse.v1 (WorkerResponseV1.screenshot b))) = refl
  answers-check_worker_alive (answered (WorkerResponse.v1 WorkerResponseV1.ok)) = refl
  answers-check_worker_alive (answered (WorkerResponse.v1 (WorkerResponseV1.error m))) = refl

  dead_as-gone :
      (path : Text) (r : Result InstanceError Bool) → dead_as path r ≡ gone r (probe path)
  dead_as-gone path (err e) = refl
  dead_as-gone path (ok false) = refl
  dead_as-gone path (ok true) = ap not (answers-check_worker_alive (probe path))

  entry-after_check :
      (b : B) (info : InstanceInfo) (status : InstanceStatus)
      → info.status ≡ status
      → (if found_dead b (some info) then as_error info else info) ≡ after_check b info status
  entry-after_check b info InstanceStatus.running e =
      rw (e, dead_as-gone info.socket_path (backend.inspect_running info.id b)) refl
  entry-after_check b info InstanceStatus.starting e = rw e refl
  entry-after_check b info InstanceStatus.error e = rw e refl
  entry-after_check b info InstanceStatus.stopped e = rw e refl

  found_dead-checked :
      (b : B) (o : Option InstanceInfo) → (if found_dead b o then map_error o else o) ≡ checked b o
  found_dead-checked b none = refl
  found_dead-checked b (some info) = rw (← entry-after_check b info info.status refl) (ground arith)

  -- After a round of health checks without an error of the backend, an instance has the status Error
  -- if it was Running and its process is gone or its worker does not answer a ping with pong, and
  -- every other instance is as it was, if the ids are unique and each instance is tracked under its
  -- own.
  pub refresh_health_once-checked :
      (w : World B) (j : Text)
      → IsUnique w.manager.instances
      → IsKeyed w.manager.instances
      → (refresh_health_once backend probe w).0 ≡ ok tt
      → get j (refresh_health_once backend probe w).1.manager ≡ checked w.backend (get j w.manager)
  unfolding refresh_health_once get
  refresh_health_once-checked w j u k done =
      rw (← found_dead-checked w.backend (lookup j w.manager.instances)) (
        rw (← marked-running_ids w.backend w.manager.instances j u k)
          (refresh_each-lem (running_ids w.manager.instances) w j done))
