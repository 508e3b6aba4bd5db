-- ===== src/Common/Text/Split.antt =====
-- `split`, `splitn` and the joined text that they take apart.
use mathlib.Core.Path.{◌≡◌, refl, ap, ◌∙◌}
use mathlib.Core.Bool.{false}
use mathlib.Core.Logic.{inl, inr}
use mathlib.Core.Option.{Option, none, some}
use mathlib.Core.List.{List, [], ◌∷◌, ◌++◌, append-nil}
use Prim.Native.Nat.{ℕ, zero, suc, ◌<◌}
use native.Mathlib.Omega.{arith}
use mgba_server.Common.Tests.{◌==◌, if◌then◌else◌, Bool-cases, ==_iff}
use mgba_server.Common.Lists.{length, All}
use mgba_server.Common.Text.Base.{Text}

abbrev cons_head : ℕ → List Text → List Text
cons_head c [] = (c ∷ []) ∷ []
cons_head c (p ∷ ps) = (c ∷ p) ∷ ps

-- `s.split(sep)`: always one part at least.
unfoldable pub split : ℕ → Text → List Text
split sep [] = [] ∷ []
split sep (c ∷ s) = let rest = split sep s in if c == sep then [] ∷ rest else cons_head c rest

-- `s.split_once(sep)`.
unfoldable pub split_once : ℕ → Text → Option (Text × Text)
split_once sep [] = none
split_once sep (c ∷ s) =
    let rest = split_once sep s in
    if c == sep then some ([], s) else elim rest [ none ↦ none | some (a, b) ↦ some (c ∷ a, b) ]

-- `s.splitn(n, sep)`: at most `n` parts, the last one not split.
unfoldable pub splitn : ℕ → ℕ → Text → List Text
unfolding split_once
splitn zero sep s = []
splitn (suc zero) sep s = s ∷ []
splitn (suc (suc n)) sep s = elim (split_once sep s) [
  | none ↦ s ∷ []
  | some (a, b) ↦ a ∷ splitn (suc n) sep b
]

-- The parts after the first one, each behind a separator.
unfoldable pub tail_join : ℕ → List Text → Text
tail_join sep [] = []
tail_join sep (p ∷ ps) = sep ∷ (p ++ tail_join sep ps)

abbrev pub FreeOf : ℕ → Text → Type 0
FreeOf sep s = All (λ c. (c == sep) ≡ false) s

split_last : (sep : ℕ) (p : Text) → FreeOf sep p → split sep p ≡ p ∷ []
unfolding split
split_last sep [] h = refl
split_last sep (c ∷ p) h = rw (h.0, split_last sep p h.1)

split_part : (sep : ℕ) (p s : Text) → FreeOf sep p → split sep (p ++ (sep ∷ s)) ≡ p ∷ split sep s
unfolding split
split_part sep [] s h = ground arith
split_part sep (c ∷ p) s h = rw (h.0, split_part sep p s h.1)

-- Splitting undoes joining, for parts without the separator.
pub split-tail_join :
    (sep : ℕ) (p : Text) (ps : List Text)
    → FreeOf sep p
    → All (FreeOf sep) ps
    → split sep (p ++ tail_join sep ps) ≡ p ∷ ps
unfolding tail_join
split-tail_join sep p [] h hs = rw append-nil (split_last sep p h)
split-tail_join sep p (q ∷ ps) h hs =
    split_part sep p (q ++ tail_join sep ps) h ∙ ap (◌∷◌ p) (split-tail_join sep q ps hs.0 hs.1)

split_once_last : (sep : ℕ) (p : Text) → FreeOf sep p → split_once sep p ≡ none
unfolding split_once
split_once_last sep [] h = refl
split_once_last sep (c ∷ p) h = rw (h.0, split_once_last sep p h.1)

split_once_part :
    (sep : ℕ) (p s : Text) → FreeOf sep p → split_once sep (p ++ (sep ∷ s)) ≡ some (p, s)
unfolding split_once
split_once_part sep [] s h = ground arith
split_once_part sep (c ∷ p) s h = rw (h.0, split_once_part sep p s h.1)

pub splitn-tail_join :
    (n sep : ℕ) (p : Text) (ps : List Text)
    → length ps < n
    → FreeOf sep p
    → All (FreeOf sep) ps
    → splitn n sep (p ++ tail_join sep ps) ≡ p ∷ ps
unfolding tail_join splitn
splitn-tail_join zero sep p ps l h hs = absurd (omega arith)
splitn-tail_join (suc zero) sep p [] l h hs = rw append-nil
splitn-tail_join (suc zero) sep p (q ∷ ps) l h hs = absurd (omega arith)
splitn-tail_join (suc (suc n)) sep p [] l h hs =
    rw append-nil (rw (split_once_last sep p h, splitn))
splitn-tail_join (suc (suc n)) sep p (q ∷ ps) l h hs =
    rw (split_once_part sep p (q ++ tail_join sep ps) h, splitn)
      (ap (◌∷◌ p) (splitn-tail_join (suc n) sep q ps (omega arith) hs.0 hs.1))

ne_nil_split : (sep : ℕ) (s : Text) → (p : Text) × ((ps : List Text) × (split sep s ≡ p ∷ ps))
unfolding split
ne_nil_split sep [] = ([], ([], refl))
ne_nil_split sep (c ∷ s) =
    let (p, (ps, e)) = ne_nil_split sep s in
    elim (Bool-cases (c == sep)) [
      | inl h ↦ ([], (p ∷ ps, rw (h, e) refl))
      | inr h ↦ (c ∷ p, (ps, rw (h, e) refl))
    ]

-- The parts joined give the text, and none has the separator.
abbrev IsJoined : ℕ → Text → List Text → Type 0
IsJoined sep s [] = ⊥
IsJoined sep s (p ∷ ps) = (s ≡ p ++ tail_join sep ps) × FreeOf sep p × All (FreeOf sep) ps

split-IsJoined : (sep : ℕ) (s : Text) → IsJoined sep s (split sep s)
unfolding split tail_join
split-IsJoined sep [] = (refl, tt, tt)
split-IsJoined sep (c ∷ s) =
    let (p, (ps, e)) = ne_nil_split sep s in
    let (whole, free, frees) = rw e at (split-IsJoined sep s) in
    elim (Bool-cases (c == sep)) [
      | inl h ↦
          rw (h, e)
            (
              ap (λ l. c ∷ l) whole ∙ ap (λ k. k ∷ (p ++ tail_join sep ps)) ((==_iff c sep).0 h),
              tt,
              (free, frees),
            )
      | inr h ↦ rw (h, e) (ap (λ l. c ∷ l) whole, (h, free), frees)
    ]

pub tail_join-split :
    (sep : ℕ) (s p : Text) (ps : List Text)
    → split sep s ≡ p ∷ ps
    → (s ≡ p ++ tail_join sep ps) × FreeOf sep p × All (FreeOf sep) ps
tail_join-split sep s p ps e = rw e at (split-IsJoined sep s)
