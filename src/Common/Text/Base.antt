-- ===== src/Common/Text/Base.antt =====
-- Texts as lists of bytes, their equality, prefixes and suffixes.
use mathlib.Core.Path.{◌≡◌, refl}
use mathlib.Core.Logic.{◌↔◌}
use mathlib.Core.Bool.{Bool, true, false, ◌&&◌}
use mathlib.Core.Option.{Option, none, some}
use mathlib.Core.List.{List, [], ◌∷◌, ◌++◌}
use Prim.Native.Nat.{ℕ, ◌-◌}
use Prim.Native.Char.{code}
use Prim.Native.String.{String}
use native.Mathlib.Omega.{arith}
use mgba_server.Common.Tests.{◌==◌, leb, if◌then◌else◌, Eq}
use mgba_server.Common.Lists.{length, take, drop, take_append, drop_append, take-append-drop}
use mgba_server.Common.Lists.{length-append}

abbrev pub Text : Type 0
Text = List ℕ

-- The bytes of an ASCII literal.
abbrev pub codes : String → Text
codes String.[] = []
codes (String.◌∷◌ c s) = code c ∷ codes s

unfoldable pub text_beq : Text → Text → Bool
text_beq [] [] = true
text_beq [] (y ∷ ys) = false
text_beq (x ∷ xs) [] = false
text_beq (x ∷ xs) (y ∷ ys) = x == y && text_beq xs ys

pub text_beq_iff : (s t : Text) → (text_beq s t ≡ true) ↔ (s ≡ t)
unfolding text_beq
text_beq_iff [] [] = ground arith
text_beq_iff [] (y ∷ ys) = ground arith
text_beq_iff (x ∷ xs) [] = ground arith
text_beq_iff (x ∷ xs) (y ∷ ys) = ground (arith, text_beq_iff xs ys)

pub text_beq_refl : (s : Text) → text_beq s s ≡ true
text_beq_refl s = (text_beq_iff s s).1 refl

instance abbrev pub text_eq : Eq Text
text_eq = record { beq = text_beq; beq_iff = text_beq_iff }

-- `s.chars().all(p)`.
unfoldable pub all_chars : (ℕ → Bool) → Text → Bool
all_chars p [] = true
all_chars p (c ∷ s) = p c && all_chars p s

abbrev pub is_empty : Text → Bool
is_empty [] = true
is_empty (c ∷ s) = false

-- `s.strip_prefix(p)`.
unfoldable pub strip_prefix : Text → Text → Option Text
strip_prefix [] s = some s
strip_prefix (c ∷ p) [] = none
strip_prefix (c ∷ p) (d ∷ s) = if c == d then strip_prefix p s else none

-- `s.strip_suffix(e)`.
unfoldable pub strip_suffix : Text → Text → Option Text
unfolding text_beq
strip_suffix e s =
    let n = length s - length e in
    if leb (length e) (length s) && text_beq (drop n s) e then some (take n s) else none

pub strip_suffix-append : (s e : Text) → strip_suffix e (s ++ e) ≡ some s
unfolding strip_suffix
strip_suffix-append s e =
    let n : length (s ++ e) - length e ≡ length s = omega (arith, length-append s e) in
    rw (n, drop_append s e, take_append s e, text_beq_refl e) (ground (arith, length-append s e))

-- What the call strips is there.
pub strip_suffix_sound : (e t : Text) {s : Text} → strip_suffix e t ≡ some s → t ≡ s ++ e
unfolding strip_suffix
strip_suffix_sound e t h =
    ground (
      arith,
      text_beq_iff (drop (length t - length e) t) e,
      take-append-drop (length t - length e) t,
    )
