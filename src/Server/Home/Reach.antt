-- ===== src/Server/Home/Reach.antt =====
-- The states that a home server can reach (crates/nemo-server/src/home.rs, src/federation.rs, src/s2s.rs).
use nemo_messenger.Prelude.{ℕ, ◌≡◌, Bool, Option, some, List, [], arith}
use nemo_messenger.Prelude.Bytes.{Bytes}
use nemo_messenger.Wire.Sign.{Crypto}
use nemo_messenger.Wire.Card.{HomeServerBinding, ContactCard}
use nemo_messenger.Wire.Bundle.{ServerBundle, ServerSignRotate}
use nemo_messenger.Wire.Revocation.{RevocationStatement}
use nemo_messenger.Wire.Envelope.{InnerEnvelope, OuterEnvelope}
use nemo_messenger.Wire.Hpke.{HpkeKeypair}
use nemo_messenger.Wire.OwnerAuth.{MailboxOwnerAuth, AuthScope}
use nemo_messenger.Server.Dirty.{HomeDirty, clean_dirty}
use nemo_messenger.Server.Home.{HomeServer, Limits, OutboundRow}
use nemo_messenger.Server.Home.Append.{append_inner, ingest, enqueue}
use nemo_messenger.Server.Home.Owner.{check_owner, fetch, ack, enqueue_from_owner}
use nemo_messenger.Server.Home.Capabilities.{
  register_share_token, mint_share_token, record_token_sweep, sweep_dead_tokens_for,
  sweep_dead_tokens, mint_contact_capability, rotate_contact, publish_prekey, fetch_prekey,
}
use nemo_messenger.Server.Home.Directory.{
  register, observe_binding, ingest_revocation, register_from_card, note_group_membership,
}
use nemo_messenger.Server.Home.Invariant.{IsHome, Room, append_inner-IsHome}
use nemo_messenger.Server.Home.Handlers.{
  ingest-IsHome, check_owner-IsHome, fetch-IsHome, ack-IsHome,
}
use nemo_messenger.Server.Home.Upkeep.{
  register_share_token-IsHome, sweep_dead_tokens_for-IsHome, sweep_dead_tokens-IsHome,
  mint_contact_capability-IsHome, rotate_contact-IsHome, publish_prekey-IsHome, fetch_prekey-IsHome,
  register-IsHome, observe_binding-IsHome, ingest_revocation-IsHome, register_from_card-IsHome,
}
use nemo_messenger.Server.Home.Operator.{defer_outbound, rebind_host}
use nemo_messenger.Server.Home.Settings.{
  mint_share_token-IsHome, note_group_membership-IsHome, rebind_host-IsHome, defer_outbound-IsHome,
  record_token_sweep-IsHome,
}
use nemo_messenger.Wire.S2s.{S2sFrame}
use nemo_messenger.Server.Federation.{
  pin, refuse, apply_sign_rotate, reset_link, take_frame, accept_frame,
}
use nemo_messenger.Server.Federation.Queue.{
  put_outbound, purge_expired, remove_matching_outbound, backoff_row,
}
use nemo_messenger.Server.Federation.Pump.{greet}
use nemo_messenger.Server.Federation.Logs.{
  pin-IsHome, refuse-IsHome, apply_sign_rotate-IsHome, reset_link-IsHome, greet-IsHome,
  take_frame-IsHome, purge_expired-IsHome, remove_matching-IsHome, backoff_row-IsHome,
}
use nemo_messenger.Server.Federation.Taking.{
  enqueue-IsHome, enqueue_from_owner-IsHome, accept_frame-IsHome,
}

-- `HomeServer::from_identity`, with the bundle that it signs.
abbrev pub new_home : HpkeKeypair → Bytes → ServerBundle → Limits → HomeServer
new_home hpke secret bundle limits = record {
  hpke = hpke;
  sign = secret;
  bundle = bundle;
  now = 1700000000;
  limits = limits;
  mailboxes = [];
  directory = [];
  memberships = [];
  tokens = [];
  prekeys = [];
  seen_enc = [];
  peers = [];
  outbound = [];
  last_token_sweep = 0;
  dirty = clean_dirty;
  owner_nonces = [];
}

-- One call of a handler, of an operator's or of a link's operation, whether it returns or fails, a change
-- of the clock, of the outbound rows or of the journal. An envelope or a frame is taken in only while no
-- counter can overflow.
pub data Step (crypto : Crypto) : HomeServer → HomeServer → Type 0 where
  tick : (now : ℕ) (h : HomeServer) → Step crypto h (record h { now = now })
  append :
      (inner : InnerEnvelope) (h : HomeServer) → Room h → Step crypto h (append_inner inner h).1
  take_in :
      (outer : OuterEnvelope) (h : HomeServer) → Room h → Step crypto h (ingest crypto outer h).1
  fetches :
      (owner : Bytes) (auth : MailboxOwnerAuth) (now_unix : ℕ) (h : HomeServer)
      → Step crypto h (fetch crypto owner auth now_unix h).1
  acks :
      (owner : Bytes) (auth : MailboxOwnerAuth) (now_unix : ℕ) (h : HomeServer)
      → Step crypto h (ack crypto owner auth now_unix h).1
  shares :
      (owner tok : Bytes) (ttl : Option ℕ) (h : HomeServer)
      → Step crypto h (register_share_token owner tok ttl h).1
  mints :
      (tok owner : Bytes) (h : HomeServer) → Step crypto h (mint_contact_capability tok owner h).1
  rotates :
      (tok owner old : Bytes) (confirm : Bool) (h : HomeServer)
      → Step crypto h (rotate_contact tok owner old confirm h).1
  sweeps_one : (owner : Bytes) (h : HomeServer) → Step crypto h (sweep_dead_tokens_for owner h).0
  sweeps_all : (h : HomeServer) → Step crypto h (sweep_dead_tokens h).0
  publishes : (owner blob : Bytes) (h : HomeServer) → Step crypto h (publish_prekey owner blob h).1
  takes_prekey : (tok : Bytes) (h : HomeServer) → Step crypto h (fetch_prekey tok h).1
  registers : (id pk : Bytes) (h : HomeServer) → Step crypto h (register id pk h).1
  registers_card :
      (card : ContactCard) (h : HomeServer) → Step crypto h (register_from_card crypto card h).1
  observes :
      (id : Bytes) (b : HomeServerBinding) (h : HomeServer)
      → Step crypto h (observe_binding crypto id b h).1
  revokes :
      (stmt : RevocationStatement) (h : HomeServer)
      → Step crypto h (ingest_revocation crypto stmt h).1
  hands_in :
      (outer : OuterEnvelope) (h : HomeServer) → Room h → Step crypto h (enqueue crypto outer h).1
  hands_in_signed :
      (owner : Bytes) (auth : MailboxOwnerAuth) (now_unix : ℕ) (outer : OuterEnvelope)
      (h : HomeServer)
      → Room h
      → Step crypto h (enqueue_from_owner crypto owner auth now_unix outer h).1
  checks :
      (owner : Bytes) (auth : MailboxOwnerAuth) (now_unix : ℕ) (expect : AuthScope) (h : HomeServer)
      → Step crypto h (check_owner crypto owner auth now_unix expect h).1
  mints_share :
      (tok owner : Bytes) (ttl : Option ℕ) (h : HomeServer)
      → Step crypto h (mint_share_token tok owner ttl h).1
  joins : (id gid : Bytes) (h : HomeServer) → Step crypto h (note_group_membership id gid h)
  rebinds :
      (host : Bytes) (port : ℕ) (h h' : HomeServer)
      → rebind_host crypto host port h ≡ some h'
      → Step crypto h h'
  defers : (until : ℕ) (h : HomeServer) → Step crypto h (defer_outbound until h)
  sweep_noted : (h : HomeServer) → Step crypto h (record_token_sweep h)
  pins : (bundle : ServerBundle) (h : HomeServer) → Step crypto h (pin crypto bundle h).1
  refuses : (peer : Bytes) (h : HomeServer) → Step crypto h (refuse peer h)
  rotates_peer :
      (peer : Bytes) (rotate : ServerSignRotate) (h : HomeServer)
      → Step crypto h (apply_sign_rotate crypto peer rotate h).1
  resets : (peer : Bytes) (h : HomeServer) → Step crypto h (reset_link peer h)
  greets : (peer : Bytes) (h : HomeServer) → Step crypto h (greet peer h)
  numbers : (peer payload : Bytes) (h : HomeServer) → Step crypto h (take_frame peer payload h).1
  accepts :
      (from : Bytes) (frame : S2sFrame) (h : HomeServer)
      → Room h
      → Step crypto h (accept_frame crypto from frame h).1
  purges : (dest : Bytes) (h : HomeServer) → Step crypto h (purge_expired dest h).1
  removes_row :
      (row : OutboundRow) (h : HomeServer) → Step crypto h (remove_matching_outbound row h)
  backs_off : (row : OutboundRow) (h : HomeServer) → Step crypto h (backoff_row row h)
  requeues : (rows : List OutboundRow) (h : HomeServer) → Step crypto h (put_outbound rows h)
  drains : (d : HomeDirty) (h : HomeServer) → Step crypto h (record h { dirty = d })

pub data Reaches (crypto : Crypto) (start : HomeServer) : HomeServer → Type 0 where
  here : Reaches crypto start start
  step : (h h' : HomeServer) → Reaches crypto start h → Step crypto h h' → Reaches crypto start h'

pub Step-IsHome : (crypto : Crypto) (h h' : HomeServer) → Step crypto h h' → IsHome h → IsHome h'
Step-IsHome crypto h h' (tick now _) v = record { logs = v.logs; window = v.window }
Step-IsHome crypto h h' (append inner _ room) v = append_inner-IsHome inner h room v
Step-IsHome crypto h h' (take_in outer _ room) v = ingest-IsHome crypto outer h room v
Step-IsHome crypto h h' (fetches owner auth now_unix _) v =
    fetch-IsHome crypto owner auth now_unix h v
Step-IsHome crypto h h' (acks owner auth now_unix _) v = ack-IsHome crypto owner auth now_unix h v
Step-IsHome crypto h h' (shares owner tok ttl _) v = register_share_token-IsHome owner tok ttl h v
Step-IsHome crypto h h' (mints tok owner _) v = mint_contact_capability-IsHome tok owner h v
Step-IsHome crypto h h' (rotates tok owner old confirm _) v =
    rotate_contact-IsHome tok owner old confirm h v
Step-IsHome crypto h h' (sweeps_one owner _) v = sweep_dead_tokens_for-IsHome owner h v
Step-IsHome crypto h h' (sweeps_all _) v = sweep_dead_tokens-IsHome h v
Step-IsHome crypto h h' (publishes owner blob _) v = publish_prekey-IsHome owner blob h v
Step-IsHome crypto h h' (takes_prekey tok _) v = fetch_prekey-IsHome tok h v
Step-IsHome crypto h h' (registers id pk _) v = register-IsHome id pk h v
Step-IsHome crypto h h' (registers_card card _) v = register_from_card-IsHome crypto card h v
Step-IsHome crypto h h' (observes id b _) v = observe_binding-IsHome crypto id b h v
Step-IsHome crypto h h' (revokes stmt _) v = ingest_revocation-IsHome crypto stmt h v
Step-IsHome crypto h h' (hands_in outer _ room) v = enqueue-IsHome crypto outer h room v
Step-IsHome crypto h h' (hands_in_signed owner auth now_unix outer _ room) v =
    enqueue_from_owner-IsHome crypto owner auth now_unix outer h room v
Step-IsHome crypto h h' (checks owner auth now_unix expect _) v =
    check_owner-IsHome crypto owner auth now_unix expect h v
Step-IsHome crypto h h' (mints_share tok owner ttl _) v = mint_share_token-IsHome tok owner ttl h v
Step-IsHome crypto h h' (joins id gid _) v = note_group_membership-IsHome id gid h v
Step-IsHome crypto h h' (rebinds host port _ _ done) v =
    rebind_host-IsHome crypto host port h h' done v
Step-IsHome crypto h h' (defers until _) v = defer_outbound-IsHome until h v
Step-IsHome crypto h h' (sweep_noted _) v = record_token_sweep-IsHome h v
Step-IsHome crypto h h' (pins bundle _) v = pin-IsHome crypto bundle h v
Step-IsHome crypto h h' (refuses peer _) v = refuse-IsHome peer h v
Step-IsHome crypto h h' (rotates_peer peer rotate _) v =
    apply_sign_rotate-IsHome crypto peer rotate h v
Step-IsHome crypto h h' (resets peer _) v = reset_link-IsHome peer h v
Step-IsHome crypto h h' (greets peer _) v = greet-IsHome peer h v
Step-IsHome crypto h h' (numbers peer payload _) v = take_frame-IsHome peer payload h v
Step-IsHome crypto h h' (accepts from frame _ room) v =
    accept_frame-IsHome crypto from frame h room v
Step-IsHome crypto h h' (purges dest _) v = purge_expired-IsHome dest h v
Step-IsHome crypto h h' (removes_row row _) v = remove_matching-IsHome row h v
Step-IsHome crypto h h' (backs_off row _) v = backoff_row-IsHome row h v
Step-IsHome crypto h h' (requeues rows _) v = record { logs = v.logs; window = v.window }
Step-IsHome crypto h h' (drains d _) v = record { logs = v.logs; window = v.window }

-- Whatever a new server runs, with whatever arguments, in whatever order and at whatever times, every
-- mailbox stays a well-formed log and the window of HPKE keys stays bounded: the handlers of the home
-- server, the operator's calls, the handing in of envelopes, the pinning, refusal and key rotation of
-- peers, and the operations that the pump and the connections of servers are made of. Envelopes and
-- frames are taken in only while no counter can overflow.
pub reachable-IsHome :
    (crypto : Crypto) (hpke : HpkeKeypair) (secret : Bytes) (bundle : ServerBundle)
    (limits : Limits) {h : HomeServer}
    → Reaches crypto (new_home hpke secret bundle limits) h
    → IsHome h
reachable-IsHome crypto hpke secret bundle limits here = record { logs = tt; window = omega arith }
reachable-IsHome crypto hpke secret bundle limits (step h h' before s) =
    Step-IsHome crypto h h' s (reachable-IsHome crypto hpke secret bundle limits before)
