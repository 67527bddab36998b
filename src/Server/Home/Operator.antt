-- ===== src/Server/Home/Operator.antt =====
-- crates/nemo-server/src/home.rs: what the operator sets, and the look-ups that change nothing.
use nemo_messenger.Prelude.{
  ℕ, true, Option, none, some, [], ◌∷◌, length, map, replicate, if◌then◌else◌,
}
use nemo_messenger.Prelude.Bytes.{Bytes, beq}
use nemo_messenger.Prelude.Map
use nemo_messenger.Prelude.Map.{Map}
use nemo_messenger.Prelude.Result.{ok, err, ok_or}
use nemo_messenger.Wire.Error.{WireResult}
use nemo_messenger.Wire.Sign.{Crypto}
use nemo_messenger.Wire.Hpke.{HpkeKeypair, keypair_server_id}
use nemo_messenger.Wire.Bundle.{ServerBundle, ServerSignRotate, bundle_sign, rotate_sign}
use nemo_messenger.Server.Dirty.{is_nil}
use nemo_messenger.Server.Error.{ServerResult, from_wire, denied}
use nemo_messenger.Server.Home.{HomeServer, DirectoryRow, PeerState, OutboundRow, mark}

-- Every row waits until the given time.
unfoldable pub defer_outbound : ℕ → HomeServer → HomeServer
defer_outbound until h =
    let later = record h {
      outbound = map (λ (r : OutboundRow). record r { next_attempt = until }) h.outbound;
    } in
    if is_nil h.outbound then later else mark (λ d. record d { outbound_dirty = true }) later

-- `.get(&peer).map(|p| &p.bundle)`
abbrev pub pinned_bundle : Option PeerState → Option ServerBundle
pinned_bundle none = none
pinned_bundle (some p) = some p.bundle

unfoldable pub bundle_pin : Bytes → HomeServer → Option ServerBundle
bundle_pin peer h = pinned_bundle (Map.get peer h.peers)

unfoldable pub peer_with_key : Bytes → Map PeerState → Option Bytes
peer_with_key pk [] = none
peer_with_key pk ((id, p) ∷ peers) =
    let rest = peer_with_key pk peers in
    if beq p.bundle.server_sign_public_key pk then some id else rest

unfoldable pub peer_id_for_sign_key : Bytes → HomeServer → Option Bytes
unfolding peer_with_key
peer_id_for_sign_key pk h = peer_with_key pk h.peers

unfoldable pub discovery : Bytes → HomeServer → ServerResult DirectoryRow
discovery identity_id h = ok_or (Map.get identity_id h.directory) denied

abbrev pub token_count : HomeServer → ℕ
token_count h = length h.tokens

abbrev pub outbound_len : HomeServer → ℕ
outbound_len h = length h.outbound

module _ (crypto : Crypto) where
  -- The bundle that a server signs of itself.
  unfoldable pub own_bundle : HpkeKeypair → Bytes → Bytes → ℕ → WireResult ServerBundle
  unfolding bundle_sign
  own_bundle hpke secret host s2s_port = bundle_sign crypto secret (record {
    server_id = keypair_server_id crypto hpke;
    server_hpke_public_key = hpke.public;
    server_sign_public_key = crypto.public_key secret;
    host = host;
    s2s_port = s2s_port;
    signature = replicate 64 0;
  })

  -- `expect`: nothing comes back from a panic.
  abbrev pub rebound : WireResult ServerBundle → HomeServer → Option HomeServer
  rebound (err e) h = none
  rebound (ok b) h =
      some (mark (λ d. record d { server_identity = true }) (record h { bundle = b }))

  unfoldable pub rebind_host : Bytes → ℕ → HomeServer → Option HomeServer
  unfolding own_bundle
  rebind_host host s2s_port h = rebound (own_bundle h.hpke h.sign host s2s_port) h

  unfoldable pub sign_rotate : Bytes → ℕ → HomeServer → ServerResult ServerSignRotate
  unfolding rotate_sign
  sign_rotate new_public_key seq h = from_wire (rotate_sign crypto h.sign new_public_key seq)
