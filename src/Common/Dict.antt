-- ===== src/Common/Dict.antt =====
-- `HashMap` as an association list over keys with an equality test. The order of the entries is
-- the order of insertion; no statement about a component depends on it.
use Prim.Native.Nat.{suc, ◌≤◌}
use mathlib.Core.Path.{◌≡◌, refl}
use mathlib.Core.Option.{Option, none, some}
use mathlib.Core.List.{List, [], ◌∷◌}
use native.Mathlib.Omega.{arith}
use mgba_server.Common.Tests.{if◌then◌else◌, is_some, Eq}
use mgba_server.Common.Lists.{length}

abbrev pub Dict {ℓ κ} : Type ℓ → Type κ → Type (ℓ ⊔ κ)
Dict K V = List (K × V)

abbrev pub keys {ℓ κ} : {K : Type ℓ} {V : Type κ} → Dict K V → List K
keys [] = []
keys ((k, v) ∷ m) = k ∷ keys m

abbrev pub values {ℓ κ} : {K : Type ℓ} {V : Type κ} → Dict K V → List V
values [] = []
values ((k, v) ∷ m) = v ∷ values m

module _ {ℓ κ} {K : Type ℓ} {V : Type κ} ⦃e : Eq K⦄ where
  -- `get`.
  unfoldable pub lookup : K → Dict K V → Option V
  lookup k [] = none
  lookup k ((j, v) ∷ m) = if e.beq j k then some v else lookup k m

  -- `insert`: the entry of a key that is there is replaced.
  unfoldable pub insert : K → V → Dict K V → Dict K V
  insert k v [] = (k, v) ∷ []
  insert k v ((j, w) ∷ m) = if e.beq j k then (k, v) ∷ m else (j, w) ∷ insert k v m

  -- `remove`.
  unfoldable pub remove : K → Dict K V → Dict K V
  remove k [] = []
  remove k ((j, w) ∷ m) = if e.beq j k then remove k m else (j, w) ∷ remove k m

  -- `get_mut` followed by a change in place.
  unfoldable pub modify : K → (V → V) → Dict K V → Dict K V
  modify k f [] = []
  modify k f ((j, w) ∷ m) = if e.beq j k then (j, f w) ∷ m else (j, w) ∷ modify k f m

  -- No key has two entries.
  abbrev pub IsUnique : Dict K V → Type κ
  IsUnique [] = Unit {κ}
  IsUnique ((k, v) ∷ m) = (lookup k m ≡ none) × IsUnique m

  pub lookup-insert :
      (k j : K) (v : V) (m : Dict K V)
      → lookup j (insert k v m) ≡ (if e.beq k j then some v else lookup j m)
  unfolding lookup insert
  lookup-insert k j v [] = refl
  lookup-insert k j v ((i, w) ∷ m) =
      ground (arith, e.beq_iff k j, e.beq_iff i k, e.beq_iff i j, lookup-insert k j v m)

  pub lookup-remove :
      (k j : K) (m : Dict K V) → lookup j (remove k m) ≡ (if e.beq k j then none else lookup j m)
  unfolding lookup remove
  lookup-remove k j [] = ground arith
  lookup-remove k j ((i, w) ∷ m) =
      ground (arith, e.beq_iff k j, e.beq_iff i k, e.beq_iff i j, lookup-remove k j m)

  pub insert-IsUnique : (k : K) (v : V) (m : Dict K V) → IsUnique m → IsUnique (insert k v m)
  unfolding lookup insert
  insert-IsUnique k v [] u = (refl, tt)
  insert-IsUnique k v ((i, w) ∷ m) u =
      ground (arith, e.beq_iff i k, e.beq_iff k i, lookup-insert k i v m, insert-IsUnique k v m u.1)

  pub remove-IsUnique : (k : K) (m : Dict K V) → IsUnique m → IsUnique (remove k m)
  unfolding lookup remove
  remove-IsUnique k [] u = tt
  remove-IsUnique k ((i, w) ∷ m) u =
      ground (arith, e.beq_iff i k, e.beq_iff k i, lookup-remove k i m, remove-IsUnique k m u.1)

  -- An insertion adds an entry for a new key only.
  pub length-insert :
      (k : K) (v : V) (m : Dict K V)
      → length (insert k v m) ≡ (if is_some (lookup k m) then length m else suc (length m))
  unfolding lookup insert
  length-insert k v [] = refl
  length-insert k v ((i, w) ∷ m) = ground (arith, length-insert k v m)

  remove_absent : (k : K) (m : Dict K V) → lookup k m ≡ none → remove k m ≡ m
  unfolding lookup remove
  remove_absent k [] h = refl
  remove_absent k ((i, w) ∷ m) h = ground (arith, remove_absent k m)

  -- A removal takes away the one entry of a key that is there.
  pub length-remove :
      (k : K) (m : Dict K V)
      → IsUnique m
      → (if is_some (lookup k m) then suc (length (remove k m)) else length (remove k m)) ≡ length m
  unfolding lookup remove
  length-remove k [] u = refl
  length-remove k ((i, w) ∷ m) u =
      ground (arith, e.beq_iff i k, remove_absent k m, length-remove k m u.1)

  pub length-remove_le : (k : K) (m : Dict K V) → length (remove k m) ≤ length m
  unfolding remove
  length-remove_le k [] = omega arith
  length-remove_le k ((i, w) ∷ m) = ground (arith, length-remove_le k m)

  pub lookup-modify :
      (k j : K) (f : V → V) (m : Dict K V)
      → lookup j (modify k f m) ≡ (
          if e.beq k j then elim (lookup j m) [ none ↦ none | some v ↦ some (f v) ] else lookup j m)
  unfolding lookup modify
  lookup-modify k j f [] = ground arith
  lookup-modify k j f ((i, w) ∷ m) =
      ground (arith, e.beq_iff k j, e.beq_iff i k, e.beq_iff i j, lookup-modify k j f m)

  pub length-modify : (k : K) (f : V → V) (m : Dict K V) → length (modify k f m) ≡ length m
  unfolding modify
  length-modify k f [] = refl
  length-modify k f ((i, w) ∷ m) = ground (arith, length-modify k f m)

  pub modify-IsUnique : (k : K) (f : V → V) (m : Dict K V) → IsUnique m → IsUnique (modify k f m)
  unfolding lookup modify
  modify-IsUnique k f [] u = tt
  modify-IsUnique k f ((i, w) ∷ m) u =
      ground (arith, e.beq_iff i k, e.beq_iff k i, lookup-modify k i f m, modify-IsUnique k f m u.1)
