-- ===== src/Base/Bits.antt =====
-- Machine words as native numbers: a `u8`, `u16`, `u32`, `u64` is its value, an `i16`, `i32` or
-- `i64` its two's complement bit pattern. `bits x lo n` is `x & mask` for the mask of the `n` bits
-- from bit `lo` on.
use Prim.Native.Nat.{ℕ, zero, suc, ◌+◌, ◌-◌, ◌*◌, ◌/◌, ◌%◌, ◌^◌, ◌<◌, bit_and}
use mathlib.Core.Path.{◌≡◌, refl}
use mathlib.Core.Logic.{inl, inr}
use mathlib.Core.Bool.{Bool, true, ◌&&◌}
use mathlib.Core.List.{List, [], ◌∷◌}
use native.Mathlib.Omega.{arith}
use swarm_device_access.Base.Tests.{ltb, ◌==◌, ==_iff, Bool-cases, and-cases, if◌then◌else◌}

abbrev pub bits : ℕ → ℕ → ℕ → ℕ
bits x lo n = x / 2 ^ lo % 2 ^ n * 2 ^ lo

-- `i64::from(i32)` on bit patterns: sign extension from 32 bits.
abbrev pub sign_extend : ℕ → ℕ
sign_extend x = if ltb x (2 ^ 31) then x else x + (2 ^ 64 - 2 ^ 32)

-- `low_u32`: Go's `uint32(value)`.
abbrev pub low_u32 : ℕ → ℕ
low_u32 x = x % 2 ^ 32

-- `high_u32`: Go's `uint32(value >> 32)`.
abbrev pub high_u32 : ℕ → ℕ
high_u32 x = x / 2 ^ 32 % 2 ^ 32

-- `to_ne_bytes` and `from_ne_bytes` on a little-endian host.
abbrev pub le16 : ℕ → List ℕ
le16 x = (x % 256) ∷ (x / 256 % 256) ∷ []

abbrev pub le32 : ℕ → List ℕ
le32 x = (x % 256) ∷ (x / 256 % 256) ∷ (x / 65536 % 256) ∷ (x / 16777216 % 256) ∷ []

abbrev pub from_le16 : ℕ → ℕ → ℕ
from_le16 a b = a + 256 * b

abbrev pub from_le32 : ℕ → ℕ → ℕ → ℕ → ℕ
from_le32 a b c d = a + 256 * b + 65536 * c + 16777216 * d

-- A test of every number below a bound, by evaluation.
unfoldable pub passes_below : (ℕ → Bool) → ℕ → Bool
passes_below test zero = true
passes_below test (suc bound) = passes_below test bound && test bound

pub passes_below-at :
    (test : ℕ → Bool) (bound : ℕ)
    → passes_below test bound ≡ true
    → (x : ℕ) → x < bound
    → test x ≡ true
unfolding passes_below
passes_below-at test (suc bound) all_pass x below =
    let (earlier, last) = and-cases (passes_below test bound) (test bound) all_pass in
    elim (Bool-cases (x == bound)) [
      | inl same ↦ rw ((==_iff x bound).0 same) last
      | inr other ↦ passes_below-at test bound earlier x (ground arith)
    ]
passes_below-at test zero all_pass x below = absurd (omega arith)

-- The masks of the opcode byte are `bits`.
masks_agree :
    passes_below
      (λ x.
        (bit_and x 0x07 == bits x 0 3)
        && (bit_and x 0xe0 == bits x 5 3)
        && (bit_and x 0x18 == bits x 3 2)
        && (bit_and x 0x08 == bits x 3 1)
        && (bit_and x 0xf0 == bits x 4 4)
        && (bit_and x 0x3ff0 == bits x 4 10))
      256
    ≡ true
unfolding passes_below
masks_agree = refl
