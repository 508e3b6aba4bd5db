-- ===== src/Instances/Removal.antt =====
-- crates/instances/src/lib.rs: creation, destruction and the destruction of all instances.
use mgba_server.Common.{
  ◌≡◌, ◌⊎◌, refl, List, [], ◌∷◌, none, some, if◌then◌else◌, Result, ok, err, Result-cases,
  Option-cases, Bool-cases, inl, inr, arith,
}
use mgba_server.Common.Text.{Text, text_eq, text_beq, text_beq_iff, text_beq_refl}
use mgba_server.Common.Dict.{Dict, keys, lookup, lookup-remove}
use mgba_server.Instances.{InstanceInfo, InstanceError, InstanceBackend, InstanceManager}
use mgba_server.Instances.Manager.{World, destroy, stopped_as, destroy_each, destroy_all, get}

module _ {B : Type 0} (backend : InstanceBackend B) where
  -- What a destruction has done, by its result.
  abbrev pub Destroyed :
      Text → InstanceManager → InstanceManager → Result InstanceError (Unit {0}) → Type 0
  Destroyed id m m' (err e) = m' ≡ m
  Destroyed id m m' (ok u) = (j : Text) → get j m' ≡ (if text_beq id j then none else get j m)

  stopped-Destroyed :
      (id : Text) (m : InstanceManager) (r : Result InstanceError (Unit {0}) × B)
      → Destroyed id m (stopped_as backend id m r).1.manager (stopped_as backend id m r).0
  unfolding get
  stopped-Destroyed id m (err e, b) = refl
  stopped-Destroyed id m (ok u, b) = λ j. lookup-remove id j m.instances

  -- A destruction that succeeds takes this instance away and no other; one that fails, because the
  -- instance is unknown or the backend could not stop it, leaves the manager as it was.
  pub destroy-Destroyed :
      (id : Text) (w : World B)
      → Destroyed id w.manager (destroy backend id w).1.manager (destroy backend id w).0
  unfolding destroy
  destroy-Destroyed id w = elim (Option-cases (get id w.manager)) [
    | inl e ↦ rw e refl
    | inr (info, e) ↦
        rw e (stopped-Destroyed id w.manager (backend.stop_instance info.id w.backend))
  ]

  abbrev IsAmong : Text → List Text → Type 0
  IsAmong j [] = ⊥
  IsAmong j (i ∷ is) = (i ≡ j) ⊎ IsAmong j is

  -- Every tracked instance is among `ids`.
  abbrev IsCovered : List Text → InstanceManager → Type 0
  IsCovered ids m = (j : Text) → (get j m ≡ none) ⊎ IsAmong j ids

  keys_cover : (m : Dict Text InstanceInfo) (j : Text) → (lookup j m ≡ none) ⊎ IsAmong j (keys m)
  unfolding lookup
  keys_cover [] j = inl refl
  keys_cover ((k, info) ∷ m) j = elim (Bool-cases (text_beq k j)) [
    | inl p ↦ inr (inl ((text_beq_iff k j).0 p))
    | inr p ↦ elim (keys_cover m j) [ inl e ↦ inl (rw p e) | inr e ↦ inr (inr e) ]
  ]

  destroy-IsCovered :
      (id : Text) (ids : List Text) (w : World B)
      → (destroy backend id w).0 ≡ ok tt
      → IsCovered (id ∷ ids) w.manager
      → IsCovered ids (destroy backend id w).1.manager
  destroy-IsCovered id ids w done cover = λ j.
      let after : get j (destroy backend id w).1.manager
          ≡ (if text_beq id j then none else get j w.manager) =
        (rw done at (destroy-Destroyed id w)) j in
      elim (cover j) [
        | inl e ↦ inl (ground (arith, after, e))
        | inr (inl e) ↦ inl (ground (arith, after, (text_beq_iff id j).1 e))
        | inr (inr e) ↦ inr e
      ]

  some-stays :
      (ids : List Text) (e : InstanceError) (w : World B)
      → (destroy_each backend ids (some e) w).0 ≡ some e
  unfolding destroy_each
  some-stays [] e w = refl
  some-stays (id ∷ ids) e w = some-stays ids e (destroy backend id w).1

  destroy_each-gone :
      (ids : List Text) (w : World B)
      → (destroy_each backend ids none w).0 ≡ none
      → IsCovered ids w.manager
      → (j : Text) → get j (destroy_each backend ids none w).1.manager ≡ none
  unfolding destroy_each
  destroy_each-gone [] w quiet cover j = elim (cover j) [ inl e ↦ e | inr e ↦ absurd e ]
  destroy_each-gone (id ∷ ids) w quiet cover j = elim (Result-cases (destroy backend id w).0) [
    | inr (x, e) ↦
        absurd (cc (rw (e, destroy_each) at quiet, some-stays ids x (destroy backend id w).1))
    | inl (u, e) ↦
        rw (e, destroy_each)
          (destroy_each-gone ids (destroy backend id w).1 (rw (e, destroy_each) at quiet)
            (destroy-IsCovered id ids w e cover) j)
  ]

  no_entry : (m : Dict Text InstanceInfo) → ((j : Text) → lookup j m ≡ none) → m ≡ []
  unfolding lookup
  no_entry [] h = refl
  no_entry ((k, info) ∷ m) h = absurd (cc (h k, text_beq_refl k))

  -- When `destroy_all` succeeds, no instance is left.
  pub destroy_all-empty :
      (w : World B)
      → (destroy_all backend w).0 ≡ ok tt
      → (destroy_all backend w).1.manager.instances ≡ []
  unfolding destroy_all get
  destroy_all-empty w done =
      let ids = keys w.manager.instances in
      let quiet : (destroy_each backend ids none w).0 ≡ none =
        elim (Option-cases (destroy_each backend ids none w).0) [
          | inl e ↦ e
          | inr (x, e) ↦ absurd (cc (rw e at done))
        ] in
      no_entry (destroy_each backend ids none w).1.manager.instances
        (destroy_each-gone ids w quiet (keys_cover w.manager.instances))
