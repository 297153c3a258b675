-- ===== src/Base/Int.antt =====
-- An `i64` as an integer: `negsuc n` is -(n + 1).
use swarm_device_access.Base.Tests.{ltb, if◌then◌else◌}
use Prim.Native.Nat.{ℕ, ◌-◌, ◌^◌}

pub data ℤ : Type 0 where
  pos : ℕ → ℤ
  negsuc : ℕ → ℤ

-- The integer of a 64-bit pattern.
abbrev pub to_int : ℕ → ℤ
to_int x = if ltb x (2 ^ 63) then pos x else negsuc (2 ^ 64 - 1 - x)
