-- ===== src/Streaming/FrameHub/Push.antt =====
-- crates/streaming/src/frame_hub.rs: whose frame is the latest one and which number it has, however
-- the blocks of the calls interleave.
use mgba_server.Common.{
  ℕ, ◌+◌, ◌%◌, ◌≡◌, ◌⊎◌, refl, sym, ap, ◌∙◌, List, [], ◌∷◌, ◌++◌, none, some, All, if◌then◌else◌,
  Bool-cases, Option-cases, inl, inr, arith,
}
use mgba_server.Common.Text.{Text, text_eq, text_beq, text_beq_iff}
use mgba_server.Common.Bytes.{u64_mod}
use mgba_server.Common.Dict.{lookup, lookup-insert, lookup-remove}
use mgba_server.Streaming.FrameHub.{
  RawFrame, FrameHub, new, register_channel, register_sequence, unregister_channel,
  unregister_sequence, sequence_of, stamped, number_frame, publish_frame,
}

-- What happened to the counters, the latest first.
pub data Change : Type 0 where
  counted : (id : Text) (frame : RawFrame) (now : ℕ) → Change
  restarted : (id : Text) → Change

-- How many frames were numbered for an instance since its counter was last set or removed.
abbrev pub count : Text → List Change → ℕ
count j [] = 0
count j ((counted id frame now) ∷ h) = if text_beq id j then count j h + 1 else count j h
count j ((restarted id) ∷ h) = if text_beq id j then 0 else count j h

-- The frame was pushed to the instance and is unchanged but for its number, which is one more than
-- the count at that time, and the time.
abbrev pub IsPushed : Text → RawFrame → List Change → Type 0
IsPushed j f [] = ⊥
IsPushed j f ((counted id frame now) ∷ h) =
    ((id ≡ j) × (f ≡ record frame { sequence = (count j h + 1) % u64_mod; timestamp_ms = now }))
    ⊎ IsPushed j f h
IsPushed j f ((restarted id) ∷ h) = IsPushed j f h

-- The hubs that the blocks of the calls reach in any order, with the frames that are numbered and not
-- yet published.
pub data Reach : FrameHub → List (Text × RawFrame) → List Change → Type 0 where
  fresh : Reach new [] []
  channel_registered :
      (hub : FrameHub) (flying : List (Text × RawFrame)) (h : List Change) (id : Text)
      → Reach hub flying h
      → Reach (register_channel id hub) flying h
  sequence_registered :
      (hub : FrameHub) (flying : List (Text × RawFrame)) (h : List Change) (id : Text)
      → Reach hub flying h
      → Reach (register_sequence id hub) flying (restarted id ∷ h)
  channel_unregistered :
      (hub : FrameHub) (flying : List (Text × RawFrame)) (h : List Change) (id : Text)
      → Reach hub flying h
      → Reach (unregister_channel id hub) flying h
  sequence_unregistered :
      (hub : FrameHub) (flying : List (Text × RawFrame)) (h : List Change) (id : Text)
      → Reach hub flying h
      → Reach (unregister_sequence id hub) flying (restarted id ∷ h)
  numbered :
      (hub : FrameHub) (flying : List (Text × RawFrame)) (h : List Change) (id : Text)
      (frame : RawFrame) (now : ℕ)
      → Reach hub flying h
      → Reach
          (number_frame id frame now hub).1
          ((id, (number_frame id frame now hub).0) ∷ flying)
          (counted id frame now ∷ h)
  published :
      (hub : FrameHub) (before after : List (Text × RawFrame)) (h : List Change) (id : Text)
      (frame : RawFrame)
      → Reach hub (before ++ ((id, frame) ∷ after)) h
      → Reach (publish_frame id frame hub) (before ++ after) h

-- The counter of each instance, and its latest frame.
pub record IsTracked (hub : FrameHub) (h : List Change) : Type 0 where
  pub counters : (j : Text) → sequence_of (lookup j hub.sequences) ≡ count j h % u64_mod
  pub latest : (j : Text) (f : RawFrame) → lookup j hub.channels ≡ some (some f) → IsPushed j f h

abbrev Flies : List (Text × RawFrame) → List Change → Type 0
Flies flying h = All (λ p. IsPushed p.0 p.1 h) flying

Flies-counted :
    (flying : List (Text × RawFrame)) (h : List Change) (id : Text) (frame : RawFrame) (now : ℕ)
    → Flies flying h
    → Flies flying (counted id frame now ∷ h)
Flies-counted [] h id frame now a = tt
Flies-counted ((j, f) ∷ flying) h id frame now a =
    (inr a.0, Flies-counted flying h id frame now a.1)

Flies-restarted :
    (flying : List (Text × RawFrame)) (h : List Change) (id : Text)
    → Flies flying h
    → Flies flying (restarted id ∷ h)
Flies-restarted [] h id a = tt
Flies-restarted ((j, f) ∷ flying) h id a = (a.0, Flies-restarted flying h id a.1)

Flies-middle :
    (before after : List (Text × RawFrame)) (id : Text) (frame : RawFrame) (h : List Change)
    → Flies (before ++ ((id, frame) ∷ after)) h
    → IsPushed id frame h × Flies (before ++ after) h
Flies-middle [] after id frame h a = a
Flies-middle (p ∷ before) after id frame h a =
    let rest = Flies-middle before after id frame h a.1 in (rest.0, (a.0, rest.1))

number-IsTracked :
    (hub : FrameHub) (h : List Change) (id : Text) (frame : RawFrame) (now : ℕ)
    → IsTracked hub h
    → IsTracked (number_frame id frame now hub).1 (counted id frame now ∷ h)
unfolding number_frame
number-IsTracked hub h id frame now t = record {
  counters = λ j.
      let seq = (sequence_of (lookup id hub.sequences) + 1) % u64_mod in
      rw (lookup-insert id j seq hub.sequences) (elim (Bool-cases (text_beq id j)) [
        | inl p ↦
            let c = t.counters j in
            let same = (text_beq_iff id j).0 p in rw (p, same) (omega (arith, c))
        | inr p ↦ rw p (t.counters j)
      ]);
  latest = λ j f e. inr (t.latest j f e);
}

restart-IsTracked :
    (hub : FrameHub) (h : List Change) (id : Text)
    → IsTracked hub h
    → IsTracked (register_sequence id hub) (restarted id ∷ h)
      × IsTracked (unregister_sequence id hub) (restarted id ∷ h)
unfolding register_sequence unregister_sequence
restart-IsTracked hub h id t = (
  record {
    counters = λ j.
        rw (lookup-insert id j 0 hub.sequences)
          (elim (Bool-cases (text_beq id j)) [ inl p ↦ rw p refl | inr p ↦ rw p (t.counters j) ]);
    latest = λ j f e. t.latest j f e;
  },
  record {
    counters = λ j.
        rw (lookup-remove id j hub.sequences)
          (elim (Bool-cases (text_beq id j)) [ inl p ↦ rw p refl | inr p ↦ rw p (t.counters j) ]);
    latest = λ j f e. t.latest j f e;
  },
)

channel-IsTracked :
    (hub : FrameHub) (h : List Change) (id : Text)
    → IsTracked hub h
    → IsTracked (register_channel id hub) h × IsTracked (unregister_channel id hub) h
unfolding register_channel unregister_channel
channel-IsTracked hub h id t = (
  record {
    counters = t.counters;
    latest = λ j f e.
        let e' = sym (lookup-insert id j none hub.channels) ∙ e in
        elim (Bool-cases (text_beq id j)) [
          | inl p ↦ absurd (cc (rw p at e'))
          | inr p ↦ t.latest j f (rw p at e')
        ];
  },
  record {
    counters = t.counters;
    latest = λ j f e.
        let e' = sym (lookup-remove id j hub.channels) ∙ e in
        elim (Bool-cases (text_beq id j)) [
          | inl p ↦ absurd (cc (rw p at e'))
          | inr p ↦ t.latest j f (rw p at e')
        ];
  },
)

publish-IsTracked :
    (hub : FrameHub) (h : List Change) (id : Text) (frame : RawFrame)
    → IsPushed id frame h
    → IsTracked hub h
    → IsTracked (publish_frame id frame hub) h
unfolding publish_frame
publish-IsTracked hub h id frame pushed t = record {
  counters = t.counters;
  latest = λ j f e. elim (Option-cases (lookup id hub.channels)) [
    | inl nothing ↦ t.latest j f (rw nothing at e)
    | inr (o, there) ↦
        let e' = sym (lookup-insert id j (some frame) hub.channels) ∙ (rw there at e) in
        elim (Bool-cases (text_beq id j)) [
          | inl p ↦
              let same : frame ≡ f = cc (rw p at e') in
              rw (← same, ← (text_beq_iff id j).0 p) pushed
          | inr p ↦ t.latest j f (rw p at e')
        ]
  ];
}

Reach-Flies :
    {hub : FrameHub} {flying : List (Text × RawFrame)} {h : List Change}
    → Reach hub flying h
    → IsTracked hub h × Flies flying h
unfolding number_frame lookup
Reach-Flies fresh = (record { counters = λ j. refl; latest = λ j f e. absurd (cc e) }, tt)
Reach-Flies (channel_registered hub flying h id run) =
    let (t, a) = Reach-Flies run in ((channel-IsTracked hub h id t).0, a)
Reach-Flies (channel_unregistered hub flying h id run) =
    let (t, a) = Reach-Flies run in ((channel-IsTracked hub h id t).1, a)
Reach-Flies (sequence_registered hub flying h id run) =
    let (t, a) = Reach-Flies run in
    ((restart-IsTracked hub h id t).0, Flies-restarted flying h id a)
Reach-Flies (sequence_unregistered hub flying h id run) =
    let (t, a) = Reach-Flies run in
    ((restart-IsTracked hub h id t).1, Flies-restarted flying h id a)
Reach-Flies (numbered hub flying h id frame now run) =
    let (t, a) = Reach-Flies run in
    let c = t.counters id in
    let next : (sequence_of (lookup id hub.sequences) + 1) % u64_mod ≡ (count id h + 1) % u64_mod =
      omega (arith, c) in
    (
      number-IsTracked hub h id frame now t,
      (inl (refl, ap (λ seq. stamped frame seq now) next), Flies-counted flying h id frame now a),
    )
Reach-Flies (published hub before after h id frame run) =
    let (t, a) = Reach-Flies run in
    let (pushed, others) = Flies-middle before after id frame h a in
    (publish-IsTracked hub h id frame pushed t, others)

-- However the blocks of any calls interleave, each under one lock: the counter of an instance is the
-- number of frames that were numbered for it since its counter was last set or removed, modulo 2^64,
-- and the latest frame of an instance is one that was pushed to this instance, unchanged but for its
-- time and its number, which is one more than that count when it was numbered.
pub Reach-IsTracked :
    (hub : FrameHub) (flying : List (Text × RawFrame)) (h : List Change)
    → Reach hub flying h
    → IsTracked hub h
Reach-IsTracked hub flying h run = (Reach-Flies run).0
