-- ===== src/Common/Bytes.antt =====
-- Integers as bytes: `to_be_bytes`, `from_be_bytes`, `from_le_bytes`, and reads from a byte stream.
use Prim.Native.Nat.{ℕ, ◌+◌, ◌*◌, ◌/◌, ◌%◌, ◌^◌, ◌<◌}
use mathlib.Core.Path.{◌≡◌, refl}
use mathlib.Core.Option.{Option, none, some}
use mathlib.Core.List.{List, [], ◌∷◌, ◌++◌}
use native.Mathlib.Omega.{arith}
use mgba_server.Common.Tests.{leb, if◌then◌else◌}
use mgba_server.Common.Lists.{length, take, drop, take_append, drop_append, length-append, All}

abbrev pub IsByte : ℕ → Type 0
IsByte b = b < 256

abbrev pub u16_mod : ℕ
u16_mod = 2 ^ 16

abbrev pub u32_mod : ℕ
u32_mod = 2 ^ 32

abbrev pub u64_mod : ℕ
u64_mod = 2 ^ 64

-- `u16::to_be_bytes` and `u32::to_be_bytes`.
unfoldable pub be16 : ℕ → List ℕ
be16 n = (n / 256 % 256) ∷ (n % 256) ∷ []

unfoldable pub be32 : ℕ → List ℕ
be32 n = (n / 16777216 % 256) ∷ (n / 65536 % 256) ∷ (n / 256 % 256) ∷ (n % 256) ∷ []

-- `u16::to_le_bytes` and `u32::to_le_bytes`.
unfoldable pub le16 : ℕ → List ℕ
le16 n = (n % 256) ∷ (n / 256 % 256) ∷ []

unfoldable pub le32 : ℕ → List ℕ
le32 n = (n % 256) ∷ (n / 256 % 256) ∷ (n / 65536 % 256) ∷ (n / 16777216 % 256) ∷ []

-- `u32::from_be_bytes` on four bytes.
unfoldable pub from_be32 : ℕ → ℕ → ℕ → ℕ → ℕ
from_be32 a b c d = ((a * 256 + b) * 256 + c) * 256 + d

-- `u16::from_le_bytes` on two bytes.
unfoldable pub from_le16 : ℕ → ℕ → ℕ
from_le16 a b = b * 256 + a

-- `AsyncReadExt::read_u8` and `read_u32`: `none` where the stream ends first.
unfoldable pub read_u8 : List ℕ → Option (ℕ × List ℕ)
read_u8 [] = none
read_u8 (a ∷ s) = some (a, s)

unfoldable pub read_u32 : List ℕ → Option (ℕ × List ℕ)
unfolding from_be32
read_u32 [] = none
read_u32 (a ∷ []) = none
read_u32 (a ∷ b ∷ []) = none
read_u32 (a ∷ b ∷ c ∷ []) = none
read_u32 (a ∷ b ∷ c ∷ d ∷ s) = some (from_be32 a b c d, s)

-- `AsyncReadExt::read_exact` into a buffer of `n` bytes.
unfoldable pub read_exact : ℕ → List ℕ → Option (List ℕ × List ℕ)
read_exact n s = if leb n (length s) then some (take n s, drop n s) else none

pub length-be16 : (n : ℕ) → length (be16 n) ≡ 2
unfolding be16
length-be16 n = refl

pub length-be32 : (n : ℕ) → length (be32 n) ≡ 4
unfolding be32
length-be32 n = refl

pub be16-IsByte : (n : ℕ) → All IsByte (be16 n)
unfolding be16
be16-IsByte n = omega arith

pub be32-IsByte : (n : ℕ) → All IsByte (be32 n)
unfolding be32
be32-IsByte n = omega arith

-- `from_be_bytes` undoes `to_be_bytes`.
pub be32_value :
    (n : ℕ)
    → n < u32_mod
    → from_be32 (n / 16777216 % 256) (n / 65536 % 256) (n / 256 % 256) (n % 256) ≡ n
unfolding from_be32
be32_value n h = omega arith

-- A written `u32` is read back, and what follows it is left.
pub read_u32-be32 : (n : ℕ) (s : List ℕ) → n < u32_mod → read_u32 (be32 n ++ s) ≡ some (n, s)
unfolding read_u32 be32
read_u32-be32 n s h = rw (be32_value n h)

pub read_u8-cons : (n : ℕ) (s : List ℕ) → read_u8 (n ∷ s) ≡ some (n, s)
unfolding read_u8
read_u8-cons n s = refl

-- The bytes of an exact read are followed by the rest of the stream.
pub read_exact-append :
    (xs s : List ℕ) (n : ℕ) → n ≡ length xs → read_exact n (xs ++ s) ≡ some (xs, s)
unfolding read_exact
read_exact-append xs s n e =
    rw (e, take_append xs s, drop_append xs s) (ground (arith, length-append xs s))

-- A short stream is an error.
pub read_exact_short : (n : ℕ) (s : List ℕ) → length s < n → read_exact n s ≡ none
unfolding read_exact
read_exact_short n s h = ground arith

pub read_u32-length :
    (s : List ℕ) (n : ℕ) (rest : List ℕ) → read_u32 s ≡ some (n, rest) → length s ≡ length rest + 4
unfolding read_u32
read_u32-length [] n rest e = cc
read_u32-length (a ∷ []) n rest e = cc
read_u32-length (a ∷ b ∷ []) n rest e = cc
read_u32-length (a ∷ b ∷ c ∷ []) n rest e = cc
read_u32-length (a ∷ b ∷ c ∷ d ∷ s) n rest e = ground arith

pub read_u32_short : (s : List ℕ) → length s < 4 → read_u32 s ≡ none
unfolding read_u32
read_u32_short [] h = refl
read_u32_short (a ∷ []) h = refl
read_u32_short (a ∷ b ∷ []) h = refl
read_u32_short (a ∷ b ∷ c ∷ []) h = refl
read_u32_short (a ∷ b ∷ c ∷ d ∷ s) h = absurd (omega arith)
