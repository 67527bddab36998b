-- ===== src/Server/Federation/Keep.antt =====
-- Taking an envelope in (crates/nemo-server/src/home.rs) does not touch the
-- federation peers, the outbound queue, the clock or the key pair.
use nemo_messenger.Prelude.{ℕ, ◌≡◌, refl, ap, ◌∙◌, List, arith, Option, none, some}
use nemo_messenger.Prelude.Bytes.{Bytes}
use nemo_messenger.Prelude.Map
use nemo_messenger.Prelude.Map.{Map}
use nemo_messenger.Prelude.Result.{ok, err}
use nemo_messenger.Prelude.Exec.Keeps.{then_keeps, lift_keeps}
use nemo_messenger.Wire.Error.{WireResult}
use nemo_messenger.Wire.Sign.{Crypto}
use nemo_messenger.Wire.Envelope.{InnerEnvelope, OuterEnvelope, encode_padded}
use nemo_messenger.Wire.Hpke.{HpkeKeypair, encap_key, open_outer}
use nemo_messenger.Server.Error.{from_wire}
use nemo_messenger.Server.Mailbox.{Mailbox}
use nemo_messenger.Server.Tokens.{TokenKind, share, contact, token}
use nemo_messenger.Server.Home.{HomeServer, PeerState, OutboundRow}
use nemo_messenger.Server.Home.Append.{
  touch, authorize_with, authorize_append, burn_with, burn_if_share, gc_with, gc_mailbox,
  append_new, append_known, append_box, append_to, append_inner, remember_enc, ingest_with, ingest,
}

-- What the links use of a server.
abbrev pub LinkView : Type 0
LinkView = Map PeerState × (List OutboundRow × (ℕ × HpkeKeypair))

abbrev pub link_view : HomeServer → LinkView
link_view h = (h.peers, (h.outbound, (h.now, h.hpke)))

module _ (ps : LinkView) where
  abbrev HasView : HomeServer → Type 0
  HasView h = link_view h ≡ ps

  view-touch : (tok : Bytes) (k : TokenKind) (h : HomeServer) → HasView h → HasView (touch tok k h)
  view-touch tok (share s) h e = e
  view-touch tok (contact c) h e = e

  view-authorize_with :
      (tok : Bytes) (o : Option TokenKind) (h : HomeServer)
      → HasView h
      → HasView (authorize_with tok o h).1
  view-authorize_with tok none h e = e
  view-authorize_with tok (some (share s)) h e = ground arith
  view-authorize_with tok (some (contact c)) h e = ground arith

  view-burn_with :
      (tok : Bytes) (o : Option TokenKind) (h : HomeServer)
      → HasView h
      → HasView (burn_with tok o h)
  view-burn_with tok none h e = e
  view-burn_with tok (some (share s)) h e = ground arith
  view-burn_with tok (some (contact c)) h e = e

  view-gc_with :
      (owner : Bytes) (o : Option Mailbox) (h : HomeServer)
      → HasView h
      → HasView (gc_with owner o h)
  view-gc_with owner none h e = e
  view-gc_with owner (some box) h e = ground arith

  view-append_new :
      (owner : Bytes) (inner : InnerEnvelope) (box : Mailbox) (r : WireResult Bytes)
      (h : HomeServer)
      → HasView h
      → HasView (append_new owner inner box r h).1
  unfolding gc_mailbox burn_if_share
  view-append_new owner inner box (err e) h same = same
  view-append_new owner inner box (ok padded) h same =
      view-gc_with owner _ _ (view-burn_with inner.delivery_capability _ _ same)

  view-append_known :
      (owner : Bytes) (inner : InnerEnvelope) (box : Mailbox) (o : Option ℕ) (h : HomeServer)
      → HasView h
      → HasView (append_known owner inner box o h).1
  view-append_known owner inner box (some seq) h e = e
  view-append_known owner inner box none h e =
      view-append_new owner inner box (encode_padded inner) h e

  view-append_box :
      (owner : Bytes) (inner : InnerEnvelope) (o : Option Mailbox) (h : HomeServer)
      → HasView h
      → HasView (append_box owner inner o h).1
  view-append_box owner inner none h e = e
  view-append_box owner inner (some box) h e =
      view-append_known owner inner box (Map.get inner.idempotency_token box.idempotency) h e

  view-append_inner :
      (inner : InnerEnvelope) (h : HomeServer) → HasView h → HasView (append_inner inner h).1
  unfolding append_inner authorize_append append_to
  view-append_inner inner h e =
      then_keeps HasView _ (authorize_append inner.delivery_capability h)
        (view-authorize_with inner.delivery_capability (token inner.delivery_capability h.tokens) h
          e)
        λ owner h' e'. view-append_box owner inner (Map.get owner h'.mailboxes) h' e'

  view-remember_enc :
      (enc : Bytes) (seq : ℕ) (h : HomeServer) → HasView h → HasView (remember_enc enc seq h)
  unfolding remember_enc
  view-remember_enc enc seq h e = ground arith

  view-ingest_with :
      (crypto : Crypto) (enc : Bytes) (outer : OuterEnvelope) (o : Option ℕ) (h : HomeServer)
      → HasView h
      → HasView (ingest_with crypto enc outer o h).1
  view-ingest_with crypto enc outer (some seq) h e = e
  view-ingest_with crypto enc outer none h e =
      lift_keeps HasView (from_wire (open_outer crypto h.hpke outer)) _ h e λ inner _.
        then_keeps HasView _ (append_inner inner h) (view-append_inner inner h e)
          λ seq h' e'. view-remember_enc enc seq h' e'

  pub view-ingest :
      (crypto : Crypto) (outer : OuterEnvelope) (h : HomeServer)
      → link_view h ≡ ps
      → link_view (ingest crypto outer h).1 ≡ ps
  unfolding ingest
  view-ingest crypto outer h e =
      lift_keeps HasView (from_wire (encap_key outer.hpke_ciphertext)) _ h e
        λ enc _. view-ingest_with crypto enc outer (Map.get enc h.seen_enc) h e

pub peers-ingest :
    (ps : Map PeerState) (crypto : Crypto) (outer : OuterEnvelope) (h : HomeServer)
    → h.peers ≡ ps
    → (ingest crypto outer h).1.peers ≡ ps
peers-ingest ps crypto outer h e = ap (λ v. v.0) (view-ingest (link_view h) crypto outer h refl) ∙ e
