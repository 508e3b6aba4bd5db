-- ===== src/Instances/Process/Matched.antt =====
-- crates/instances/src/lib.rs: the manager over the process backend tracks an instance exactly as long as
-- the backend tracks its process.
use mgba_server.Common.{
  ◌+◌, ◌≡◌, refl, sym, ap, ◌∙◌, Bool, true, false, some, if◌then◌else◌, Result, ok, err, is_some,
  leb, length, Bool-cases, Option-cases, inl, inr,
}
use mgba_server.Common.Text.{Text, text_eq, text_beq, text_beq_iff}
use mgba_server.Common.Dict.{lookup, lookup-insert, lookup-remove}
use mgba_server.Instances.{
  CreateInstanceOptions, WorkerInfo, InstanceInfo, InstanceError, InstanceManager,
}
use mgba_server.Instances.Manager.{
  World, Drawn, create, destroy, get, reserve, track, release, created, create_options, new_info,
}
use mgba_server.Worker.Args.{worker_args}
use mgba_server.Instances.Process.{
  Os, ProcessBackend, connected, spawned, with_directory, start_worker, stop_worker,
  process_backend,
}

module _ {S : Type 0} (os : Os S) where
  -- The same ids, and every instance stands under its own.
  pub record IsMatched (w : World (ProcessBackend os)) : Type 0 where
    pub same :
        (id : Text)
        → is_some (lookup id w.backend.children) ≡ is_some (lookup id w.manager.instances)
    pub own :
        (id : Text) (info : InstanceInfo) → lookup id w.manager.instances ≡ some info → info.id ≡ id

  -- What a start leaves of the tracked processes.
  abbrev Started :
      CreateInstanceOptions
      → ProcessBackend os
      → Result InstanceError WorkerInfo × ProcessBackend os
      → Type 0
  Started opts b (err e, b') = b'.children ≡ b.children
  Started opts b (ok worker, b') =
      (id : Text)
      → is_some (lookup id b'.children)
        ≡ (if text_beq opts.instance_id id then true else is_some (lookup id b.children))

  connected-Started :
      (opts : CreateInstanceOptions) (child : os.Child) (b : ProcessBackend os) (r : Bool × S)
      → Started opts b (connected os opts child b r)
  connected-Started opts child b (false, system) = refl
  connected-Started opts child b (true, system) = λ id.
      let after =
        lookup-insert opts.instance_id id
          (record {
            child = child;
            socket_path = opts.socket_path;
            frame_socket_path = opts.frame_socket_path;
          })
          b.children in
      elim (Bool-cases (text_beq opts.instance_id id)) [
        | inl e ↦ rw (after, e) refl
        | inr e ↦ rw (after, e) refl
      ]

  spawned-Started :
      (opts : CreateInstanceOptions) (b : ProcessBackend os) (r : Result Text os.Child × S)
      → Started opts b (spawned os opts b r)
  spawned-Started opts b (err e, system) = refl
  spawned-Started opts b (ok child, system) =
      connected-Started opts child (record b { system = system })
        (os.socket_appears opts.socket_path system)

  with_directory-Started :
      (opts : CreateInstanceOptions) (b : ProcessBackend os) (r : Result Text (Unit {0}) × S)
      → Started opts b (with_directory os opts b r)
  with_directory-Started opts b (err e, system) = refl
  with_directory-Started opts b (ok done, system) =
      spawned-Started opts b (os.spawn b.worker_binary_path (worker_args opts) system)

  created-IsMatched :
      (session : Text) (drawn : Drawn) (w : World (ProcessBackend os)) (m : InstanceManager)
      (r : Result InstanceError WorkerInfo × ProcessBackend os)
      → m.instances ≡ w.manager.instances
      → Started (create_options m.config drawn.instance_id) w.backend r
      → IsMatched w
      → IsMatched (created (process_backend os) session drawn m r).1
  unfolding track release
  created-IsMatched session drawn w m (err e, b) same started v = record {
    same = λ id. rw (started, same) (v.same id);
    own = λ id info h. v.own id info (rw same at h);
  }
  created-IsMatched session drawn w m (ok worker, b) same started v =
      let info = new_info session drawn worker in
      record {
        same = λ id.
            let inserted = lookup-insert drawn.instance_id id info m.instances in
            elim (Bool-cases (text_beq drawn.instance_id id)) [
              | inl e ↦ rw (started id, inserted, e) refl
              | inr e ↦ rw (started id, inserted, e, same) (v.same id)
            ];
        own = λ id i h.
            let inserted = lookup-insert drawn.instance_id id info m.instances in
            elim (Bool-cases (text_beq drawn.instance_id id)) [
              | inl e ↦
                  let here : some info ≡ some i = rw e at (sym inserted ∙ h) in
                  let found : info ≡ i = cc here in
                  ap {A = InstanceInfo} (λ t. t.id) (sym found)
                  ∙ (text_beq_iff drawn.instance_id id).0 e
              | inr e ↦ v.own id i (rw (e, same) at (sym inserted ∙ h))
            ];
      }

  -- A creation and a destruction through the process backend, whatever they come to, keep the two
  -- maps matched: the backend tracks the process of an id exactly where the manager tracks an
  -- instance of that id.
  pub create-destroy-IsMatched :
      (session : Text) (drawn : Drawn) (instance_id : Text) (w : World (ProcessBackend os))
      → IsMatched w
      → IsMatched (create (process_backend os) session drawn w).1
        × IsMatched (destroy (process_backend os) instance_id w).1
  unfolding create destroy reserve start_worker stop_worker get
  create-destroy-IsMatched session drawn instance_id w v = (made, gone)
    where
      made : IsMatched (create (process_backend os) session drawn w).1
      made =
          elim (Bool-cases (
            leb w.manager.config.max_instances
              (length w.manager.instances + w.manager.pending_creates))) [
                | inl e ↦ rw e v
                | inr e ↦
                    let opts = create_options w.manager.config drawn.instance_id in
                    rw e (
                      created-IsMatched session drawn w
                        (record w.manager { pending_creates = w.manager.pending_creates + 1 })
                        (start_worker os opts w.backend) refl
                        (with_directory-Started opts w.backend
                          (os.create_dir_all w.backend.worker_socket_dir w.backend.system))
                        v)
              ]

      gone : IsMatched (destroy (process_backend os) instance_id w).1
      gone = elim (Option-cases (lookup instance_id w.manager.instances)) [
        | inl e ↦ rw e v
        | inr (info, e) ↦
            let own = v.own instance_id info e in
            rw (e, own)
              (record {
                same = λ id.
                    let left = lookup-remove instance_id id w.backend.children in
                    let kept = lookup-remove instance_id id w.manager.instances in
                    elim (Bool-cases (text_beq instance_id id)) [
                      | inl b ↦ rw (left, kept, b) refl
                      | inr b ↦ rw (left, kept, b) (v.same id)
                    ];
                own = λ id i h.
                    let kept = lookup-remove instance_id id w.manager.instances in
                    elim (Bool-cases (text_beq instance_id id)) [
                      | inl b ↦ absurd (cc (rw b at (sym kept ∙ h)))
                      | inr b ↦ v.own id i (rw b at (sym kept ∙ h))
                    ];
              })
      ]
