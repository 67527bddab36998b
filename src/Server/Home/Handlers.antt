-- ===== src/Server/Home/Handlers.antt =====
-- The envelope handlers keep the invariant of a home server (crates/nemo-server/src/home.rs).
use nemo_messenger.Prelude.{
  ℕ, ◌≡◌, refl, Bool-cases, Option-cases, inl, inr, Option, none, some, leb, ltb, ◌==◌, ◌||◌,
}
use nemo_messenger.Prelude.Bytes.{Bytes}
use nemo_messenger.Prelude.Map
use nemo_messenger.Prelude.Map.{Map, AllValues}
use nemo_messenger.Prelude.Exec.Keeps.{then_keeps, lift_keeps}
use nemo_messenger.Wire.Sign.{Crypto}
use nemo_messenger.Wire.Envelope.{OuterEnvelope}
use nemo_messenger.Wire.Hpke.{encap_key, open_outer}
use nemo_messenger.Wire.OwnerAuth.{MailboxOwnerAuth, AuthScope}
use nemo_messenger.Server.Error.{from_wire}
use nemo_messenger.Server.Mailbox.{Mailbox, seqs_where, ack_rows}
use nemo_messenger.Server.Mailbox.Invariant.{IsLog, ack_rows-IsLog}
use nemo_messenger.Server.Dirty.{is_nil}
use nemo_messenger.Server.Home.{HomeServer, fetch_limit_max}
use nemo_messenger.Server.Home.Append.{append_inner, ingest_with, ingest}
use nemo_messenger.Server.Home.Owner.{
  spend_nonce, owner_checks, check_owner, fetch_page_of, fetch, fetch_scope, ack_with, ack_rows_of,
  ack, ack_scope, gc_owner_nonces,
}
use nemo_messenger.Server.Home.Invariant.{
  IsHome, Room, put_mailbox-IsHome, gc_mailbox-IsHome, append_inner-IsHome, remember_enc-IsHome,
}

module _ (crypto : Crypto) where
  ingest_with-IsHome :
      (enc : Bytes) (outer : OuterEnvelope) (o : Option ℕ) (h : HomeServer)
      → Room h
      → IsHome h
      → IsHome (ingest_with crypto enc outer o h).1
  ingest_with-IsHome enc outer (some seq) h room v = v
  ingest_with-IsHome enc outer none h room v =
      lift_keeps IsHome (from_wire (open_outer crypto h.hpke outer)) _ h v λ inner _.
        then_keeps IsHome _ (append_inner inner h) (append_inner-IsHome inner h room v)
          λ seq h' v'. remember_enc-IsHome enc seq h' v'

  -- Taking an envelope in from the network keeps the invariant, on every branch.
  pub ingest-IsHome :
      (outer : OuterEnvelope) (h : HomeServer)
      → Room h
      → IsHome h
      → IsHome (ingest crypto outer h).1
  unfolding ingest
  ingest-IsHome outer h room v =
      lift_keeps IsHome (from_wire (encap_key outer.hpke_ciphertext)) _ h v
        λ enc _. ingest_with-IsHome enc outer (Map.get enc h.seen_enc) h room v

  spend_nonce-IsHome :
      (auth : MailboxOwnerAuth) (now_unix : ℕ) (h : HomeServer)
      → IsHome h
      → IsHome (spend_nonce auth now_unix h).1
  unfolding spend_nonce gc_owner_nonces
  spend_nonce-IsHome auth now_unix h v =
      elim (Option-cases (Map.get auth.nonce (gc_owner_nonces now_unix h).owner_nonces)) [
        | inl fresh ↦ rw fresh (record { logs = v.logs; window = v.window })
        | inr (ts, seen) ↦ rw seen (record { logs = v.logs; window = v.window })
      ]

  pub check_owner-IsHome :
      (owner : Bytes) (auth : MailboxOwnerAuth) (now_unix : ℕ) (expect : AuthScope) (h : HomeServer)
      → IsHome h
      → IsHome (check_owner crypto owner auth now_unix expect h).1
  unfolding check_owner
  check_owner-IsHome owner auth now_unix expect h v =
      lift_keeps IsHome (owner_checks crypto owner auth now_unix expect h) _ h v
        λ _ _. spend_nonce-IsHome auth now_unix h v

  fetch_page_of-IsHome :
      (owner : Bytes) (auth : MailboxOwnerAuth) (h : HomeServer)
      → IsHome h
      → IsHome (fetch_page_of crypto owner auth h).1
  unfolding fetch_page_of
  fetch_page_of-IsHome owner auth h v =
      elim (Bool-cases (auth.limit == 0 || ltb fetch_limit_max auth.limit)) [
        | inl bad ↦ rw bad v
        | inr good ↦ rw good (gc_mailbox-IsHome owner h v)
      ]

  -- Fetching keeps the invariant.
  pub fetch-IsHome :
      (owner : Bytes) (auth : MailboxOwnerAuth) (now_unix : ℕ) (h : HomeServer)
      → IsHome h
      → IsHome (fetch crypto owner auth now_unix h).1
  unfolding fetch
  fetch-IsHome owner auth now_unix h v =
      then_keeps IsHome _ (check_owner crypto owner auth now_unix (fetch_scope crypto h) h)
        (check_owner-IsHome owner auth now_unix _ h v)
        λ _ h' v'. fetch_page_of-IsHome owner auth h' v'

  ack_with-IsHome :
      (owner : Bytes) (up_to : ℕ) (o : Option Mailbox) (h : HomeServer)
      → Map.get owner h.mailboxes ≡ o
      → IsHome h
      → IsHome (ack_with crypto owner up_to o h).1
  ack_with-IsHome owner up_to none h e v = v
  ack_with-IsHome owner up_to (some box) h e v =
      let drop = seqs_where (λ s r. leb s up_to) box.rows in
      let l = Map.get-AllValues IsLog owner h.mailboxes v.logs e in
      let kept = put_mailbox-IsHome owner (ack_rows drop box) h (ack_rows-IsLog drop box l) v in
      elim (Bool-cases (is_nil drop)) [
        | inl nothing ↦ rw nothing v
        | inr rows ↦ rw rows (record { logs = kept.logs; window = kept.window })
      ]

  -- Acknowledging keeps the invariant.
  pub ack-IsHome :
      (owner : Bytes) (auth : MailboxOwnerAuth) (now_unix : ℕ) (h : HomeServer)
      → IsHome h
      → IsHome (ack crypto owner auth now_unix h).1
  unfolding ack ack_rows_of
  ack-IsHome owner auth now_unix h v =
      then_keeps IsHome _ (check_owner crypto owner auth now_unix (ack_scope crypto h) h)
        (check_owner-IsHome owner auth now_unix _ h v)
        λ _ h' v'. ack_with-IsHome owner auth.cursor (Map.get owner h'.mailboxes) h' refl v'
