-- ===== src/Wire/Ids.antt =====
-- crates/nemo-wire/src/ids.rs: lengths and `copy_fixed`. SHA-256 is a parameter of
-- the definitions that use it.
use nemo_messenger.Prelude.{ℕ, ◌≡◌, length, ◌==◌, if◌then◌else◌, arith}
use nemo_messenger.Prelude.Bytes.{Bytes}
use nemo_messenger.Prelude.Result.{ok, err}
use nemo_messenger.Wire.Error.{WireResult, length_error}

abbrev pub key_len : ℕ
key_len = 32

abbrev pub sig_len : ℕ
sig_len = 64

abbrev pub protocol_version : ℕ
protocol_version = 1

-- `copy_fixed::<N>`: the slice as an array of `n` bytes.
unfoldable pub copy_fixed : ℕ → Bytes → WireResult Bytes
copy_fixed n bytes = if length bytes == n then ok bytes else err (length_error n (length bytes))

pub copy_fixed_exact : (n : ℕ) (bytes : Bytes) → length bytes ≡ n → copy_fixed n bytes ≡ ok bytes
unfolding copy_fixed
copy_fixed_exact n bytes h = ground arith
