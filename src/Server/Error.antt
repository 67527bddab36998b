-- ===== src/Server/Error.antt =====
-- crates/nemo-server/src/error.rs: the errors of the server.
use nemo_messenger.Prelude.Result.{Result, ok, err}
use nemo_messenger.Wire.Error.{WireError, WireResult}

pub data ServerError : Type 0 where
  wire : WireError → ServerError
  denied owner_auth already_registered fetch_limit : ServerError
  not_pinned peer_refused counter_gap hello_mismatch outbound_expired : ServerError

abbrev pub ServerResult : Type 0 → Type 0
ServerResult A = Result ServerError A

-- `#[from]`: how `?` turns an error of the wire crate into one of the server.
abbrev pub from_wire : {A : Type 0} → WireResult A → ServerResult A
from_wire (ok a) = ok a
from_wire (err e) = err (wire e)
