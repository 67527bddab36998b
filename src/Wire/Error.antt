-- ===== src/Wire/Error.antt =====
-- crates/nemo-wire/src/error.rs: the errors of the wire crate.
use Prim.Native.String.{String}
use nemo_messenger.Prelude.{ℕ}
use nemo_messenger.Prelude.Result.{Result}

pub data WireError : Type 0 where
  unknown_version : ℕ → WireError
  cbor : String → WireError
  length_error : ℕ → ℕ → WireError
  signature : WireError
  server_id_mismatch : WireError
  binding_expired : WireError
  bad_host : WireError
  card_too_large : WireError
  bad_revocation_status : WireError
  no_bucket : WireError
  bad_envelope : WireError
  hpke : String → WireError
  unknown_message_type : ℕ → WireError
  unknown_ttl : ℕ → WireError
  uri : String → WireError

abbrev pub WireResult : Type 0 → Type 0
WireResult A = Result WireError A
