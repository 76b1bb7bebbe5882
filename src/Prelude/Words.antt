-- ===== src/Prelude/Words.antt =====
-- Machine integers of the x86_64 target as native numbers, and their checked arithmetic.
use Prim.Native.Nat.{ℕ, ◌+◌, ◌*◌, min}
use mathlib.Core.Option.{Option, none, some}
use pipewire_native_rs.Prelude.Tests.{leb, if◌then◌else◌}

abbrev pub u32_max : ℕ
u32_max = 0xffff_ffff

-- `usize::MAX` and `u64::MAX`
abbrev pub usize_max : ℕ
usize_max = 0xffff_ffff_ffff_ffff

-- `isize::MAX` and `i64::MAX`
abbrev pub isize_max : ℕ
isize_max = 0x7fff_ffff_ffff_ffff

abbrev pub i32_max : ℕ
i32_max = 0x7fff_ffff

-- `usize::checked_add` and `u64::checked_add`
abbrev pub checked_add : ℕ → ℕ → Option ℕ
checked_add a b = if leb (a + b) usize_max then some (a + b) else none

abbrev pub checked_mul : ℕ → ℕ → Option ℕ
checked_mul a b = if leb (a * b) usize_max then some (a * b) else none

-- `usize::saturating_add`
abbrev pub saturating_add : ℕ → ℕ → ℕ
saturating_add a b = min (a + b) usize_max
