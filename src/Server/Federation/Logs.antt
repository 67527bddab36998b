-- ===== src/Server/Federation/Logs.antt =====
-- Peers, frames and the outbound queue (crates/nemo-server/src/federation.rs, src/s2s.rs, src/home.rs)
-- keep the invariant of a home server.
use nemo_messenger.Prelude.{ℕ, ltb, Bool-cases, inl, inr, Option, none, some}
use nemo_messenger.Prelude.Bytes.{Bytes, beq}
use nemo_messenger.Prelude.Map
use nemo_messenger.Prelude.Map.{AllValues}
use nemo_messenger.Prelude.Exec.Keeps.{lift_keeps, if_keeps}
use nemo_messenger.Wire.Sign.{Crypto}
use nemo_messenger.Wire.Bundle.{ServerBundle, ServerSignRotate, bundle_verify, rotate_verify}
use nemo_messenger.Wire.Hpke.{keypair_server_id}
use nemo_messenger.Server.Error.{from_wire}
use nemo_messenger.Server.Home.{HomeServer, PeerState, OutboundRow}
use nemo_messenger.Server.Home.Invariant.{IsHome}
use nemo_messenger.Server.Federation.{
  pin, refuse_with, refuse, reset_with, reset_link, take_with, take_frame, rotate_with,
  apply_sign_rotate,
}
use nemo_messenger.Server.Federation.Queue.{
  remove_index, remove_matching_outbound, purge_expired, back_off_index, backoff_row, index_where,
  matches,
}
use nemo_messenger.Server.Federation.Pump.{greet_with, greet}

refuse_with-IsHome :
    (peer : Bytes) (o : Option PeerState) (h : HomeServer)
    → IsHome h
    → IsHome (refuse_with peer o h)
refuse_with-IsHome peer none h v = v
refuse_with-IsHome peer (some p) h v = record { logs = v.logs; window = v.window }

pub refuse-IsHome : (peer : Bytes) (h : HomeServer) → IsHome h → IsHome (refuse peer h)
unfolding refuse
refuse-IsHome peer h v = refuse_with-IsHome peer (Map.get peer h.peers) h v

reset_with-IsHome :
    (peer : Bytes) (o : Option PeerState) (h : HomeServer) → IsHome h → IsHome (reset_with peer o h)
reset_with-IsHome peer none h v = v
reset_with-IsHome peer (some p) h v = record { logs = v.logs; window = v.window }

pub reset_link-IsHome : (peer : Bytes) (h : HomeServer) → IsHome h → IsHome (reset_link peer h)
unfolding reset_link
reset_link-IsHome peer h v = reset_with-IsHome peer (Map.get peer h.peers) h v

greet_with-IsHome :
    (peer : Bytes) (o : Option PeerState) (h : HomeServer) → IsHome h → IsHome (greet_with peer o h)
greet_with-IsHome peer none h v = v
greet_with-IsHome peer (some p) h v = record { logs = v.logs; window = v.window }

pub greet-IsHome : (peer : Bytes) (h : HomeServer) → IsHome h → IsHome (greet peer h)
unfolding greet
greet-IsHome peer h v = greet_with-IsHome peer (Map.get peer h.peers) h v

take_with-IsHome :
    (peer payload : Bytes) (o : Option PeerState) (h : HomeServer)
    → IsHome h
    → IsHome (take_with peer payload o h).1
take_with-IsHome peer payload none h v = v
take_with-IsHome peer payload (some p) h v =
    if_keeps IsHome p.refused _ _ v (record { logs = v.logs; window = v.window })

pub take_frame-IsHome :
    (peer payload : Bytes) (h : HomeServer) → IsHome h → IsHome (take_frame peer payload h).1
unfolding take_frame
take_frame-IsHome peer payload h v = take_with-IsHome peer payload (Map.get peer h.peers) h v

remove_index-IsHome : (o : Option ℕ) (h : HomeServer) → IsHome h → IsHome (remove_index o h)
remove_index-IsHome none h v = v
remove_index-IsHome (some i) h v = record { logs = v.logs; window = v.window }

pub remove_matching-IsHome :
    (row : OutboundRow) (h : HomeServer) → IsHome h → IsHome (remove_matching_outbound row h)
unfolding remove_matching_outbound
remove_matching-IsHome row h v = remove_index-IsHome (index_where (matches row) h.outbound) h v

back_off_index-IsHome : (o : Option ℕ) (h : HomeServer) → IsHome h → IsHome (back_off_index o h)
back_off_index-IsHome none h v = v
back_off_index-IsHome (some i) h v = record { logs = v.logs; window = v.window }

pub backoff_row-IsHome :
    (row : OutboundRow) (h : HomeServer) → IsHome h → IsHome (backoff_row row h)
unfolding backoff_row
backoff_row-IsHome row h v = back_off_index-IsHome (index_where (matches row) h.outbound) h v

pub purge_expired-IsHome :
    (dest : Bytes) (h : HomeServer) → IsHome h → IsHome (purge_expired dest h).1
unfolding purge_expired
purge_expired-IsHome dest h v = elim (Bool-cases (ltb 0 (purge_expired dest h).0)) [
  | inl some_gone ↦ rw some_gone (record { logs = v.logs; window = v.window })
  | inr none_gone ↦ rw none_gone (record { logs = v.logs; window = v.window })
]

module _ (crypto : Crypto) where
  pub pin-IsHome :
      (bundle : ServerBundle) (h : HomeServer) → IsHome h → IsHome (pin crypto bundle h).1
  unfolding pin
  pin-IsHome bundle h v = lift_keeps IsHome (from_wire (bundle_verify crypto bundle)) _ h v λ _ _.
      if_keeps IsHome (beq (keypair_server_id crypto h.hpke) bundle.server_id) _ _ v
        (record { logs = v.logs; window = v.window })

  rotate_with-IsHome :
      (peer : Bytes) (rotate : ServerSignRotate) (o : Option PeerState) (h : HomeServer)
      → IsHome h
      → IsHome (rotate_with crypto peer rotate o h).1
  rotate_with-IsHome peer rotate none h v = v
  rotate_with-IsHome peer rotate (some p) h v =
      if_keeps IsHome (crypto.key_ok p.bundle.server_sign_public_key) _ _
        (lift_keeps IsHome (from_wire (rotate_verify crypto rotate p.bundle.server_sign_public_key))
          _ h v λ _ _. record { logs = v.logs; window = v.window })
        v

  pub apply_sign_rotate-IsHome :
      (peer : Bytes) (rotate : ServerSignRotate) (h : HomeServer)
      → IsHome h
      → IsHome (apply_sign_rotate crypto peer rotate h).1
  unfolding apply_sign_rotate
  apply_sign_rotate-IsHome peer rotate h v =
      rotate_with-IsHome peer rotate (Map.get peer h.peers) h v
