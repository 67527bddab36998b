-- ===== src/Prelude/Bits.antt =====
-- Masks on one byte as arithmetic. A byte has 256 values, so each law is settled by running a test
-- on all of them.
use Prim.Native.Nat.{ℕ, zero, suc, ◌+◌, ◌*◌, ◌/◌, ◌%◌, ◌<◌, bit_and, bit_or}
use mathlib.Core.Path.{◌≡◌, refl}
use mathlib.Core.Bool.{Bool, true, false}
use native.Mathlib.Omega.{arith}
use nemo_messenger.Prelude.Tests.{◌==◌, ==_iff, if◌then◌else◌}

-- Does `test` accept the `count` numbers under `count`?
unfoldable pub accepts : (ℕ → Bool) → ℕ → Bool
accepts test zero = true
accepts test (suc count) = let below = accepts test count in if test count then below else false

pub accepts-member :
    (test : ℕ → Bool) (count v : ℕ) → v < count → accepts test count ≡ true → test v ≡ true
unfolding accepts
accepts-member test zero v small run = absurd (omega arith)
accepts-member test (suc count) v small run = ground (arith, accepts-member test count v)

masks_low : ℕ → Bool
masks_low byte = bit_and byte 0x1f == byte % 32

splits_at_five : ℕ → Bool
splits_at_five byte = bit_or (byte / 32 * 32) (byte % 32) == byte

masks_low_run : accepts masks_low 256 ≡ true
unfolding accepts masks_low
masks_low_run = refl

splits_at_five_run : accepts splits_at_five 256 ≡ true
unfolding accepts splits_at_five
splits_at_five_run = refl

-- `byte & 0x1f` keeps the five low bits of a byte.
pub low_five : (byte : ℕ) → byte < 256 → bit_and byte 0x1f ≡ byte % 32
unfolding masks_low
low_five byte small = (==_iff _ _).0 (accepts-member masks_low 256 byte small masks_low_run)

rejoin : (byte : ℕ) → byte < 256 → bit_or (byte / 32 * 32) (byte % 32) ≡ byte
unfolding splits_at_five
rejoin byte small = (==_iff _ _).0 (accepts-member splits_at_five 256 byte small splits_at_five_run)

-- `(hi << 5) | lo` joins three high and five low bits.
pub join_fields : (hi lo : ℕ) → hi < 8 → lo < 32 → bit_or (hi * 32) lo ≡ hi * 32 + lo
join_fields hi lo h l =
    let high : (hi * 32 + lo) / 32 ≡ hi = omega arith in
    let low : (hi * 32 + lo) % 32 ≡ lo = omega arith in
    rw (high, low) at (rejoin (hi * 32 + lo) (omega arith))
