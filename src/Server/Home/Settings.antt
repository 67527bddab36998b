-- ===== src/Server/Home/Settings.antt =====
-- What the operator sets, group memberships and the sweep's clock (crates/nemo-server/src/home.rs) keep the
-- invariant of a home server.
use nemo_messenger.Prelude.{ℕ, ◌≡◌, Bool-cases, inl, inr, Option, some}
use nemo_messenger.Prelude.Bytes.{Bytes}
use nemo_messenger.Prelude.Map
use nemo_messenger.Prelude.Result.{ok, err}
use nemo_messenger.Prelude.Exec.Keeps.{then_keeps}
use nemo_messenger.Wire.Error.{WireResult}
use nemo_messenger.Wire.Sign.{Crypto}
use nemo_messenger.Wire.Bundle.{ServerBundle}
use nemo_messenger.Server.Dirty.{is_nil}
use nemo_messenger.Server.Home.{HomeServer}
use nemo_messenger.Server.Home.Capabilities.{
  register_share_token, mint_share_token, record_token_sweep,
}
use nemo_messenger.Server.Home.Directory.{has_group, groups_of, note_group_membership}
use nemo_messenger.Server.Home.Operator.{defer_outbound, rebound, own_bundle, rebind_host}
use nemo_messenger.Server.Home.Invariant.{IsHome}
use nemo_messenger.Server.Home.Upkeep.{register_share_token-IsHome}

pub mint_share_token-IsHome :
    (tok owner : Bytes) (ttl : Option ℕ) (h : HomeServer)
    → IsHome h
    → IsHome (mint_share_token tok owner ttl h).1
unfolding mint_share_token
mint_share_token-IsHome tok owner ttl h v =
    then_keeps IsHome _ (register_share_token owner tok ttl h)
      (register_share_token-IsHome owner tok ttl h v) λ _ h' v'. v'

pub note_group_membership-IsHome :
    (id gid : Bytes) (h : HomeServer) → IsHome h → IsHome (note_group_membership id gid h)
unfolding note_group_membership
note_group_membership-IsHome id gid h v =
    elim (Bool-cases (has_group gid (groups_of (Map.get id h.memberships)))) [
      | inl there ↦ rw there (record { logs = v.logs; window = v.window })
      | inr fresh ↦ rw fresh (record { logs = v.logs; window = v.window })
    ]

pub defer_outbound-IsHome :
    (until : ℕ) (h : HomeServer) → IsHome h → IsHome (defer_outbound until h)
unfolding defer_outbound
defer_outbound-IsHome until h v = elim (Bool-cases (is_nil h.outbound)) [
  | inl nothing ↦ rw nothing (record { logs = v.logs; window = v.window })
  | inr rows ↦ rw rows (record { logs = v.logs; window = v.window })
]

pub record_token_sweep-IsHome : (h : HomeServer) → IsHome h → IsHome (record_token_sweep h)
unfolding record_token_sweep
record_token_sweep-IsHome h v = record { logs = v.logs; window = v.window }

module _ (crypto : Crypto) where
  rebound-IsHome :
      (r : WireResult ServerBundle) (h h' : HomeServer)
      → rebound crypto r h ≡ some h'
      → IsHome h
      → IsHome h'
  rebound-IsHome (err e) h h' done v = cc
  rebound-IsHome (ok b) h h' done v =
      let m : h.mailboxes ≡ h'.mailboxes = cc in
      let w : h.seen_enc ≡ h'.seen_enc = cc in
      record { logs = rw (← m) v.logs; window = rw (← w) v.window }

  pub rebind_host-IsHome :
      (host : Bytes) (port : ℕ) (h h' : HomeServer)
      → rebind_host crypto host port h ≡ some h'
      → IsHome h
      → IsHome h'
  unfolding rebind_host
  rebind_host-IsHome host port h h' done v =
      rebound-IsHome (own_bundle crypto h.hpke h.sign host port) h h' done v
