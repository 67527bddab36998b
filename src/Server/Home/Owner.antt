-- ===== src/Server/Home/Owner.antt =====
-- crates/nemo-server/src/home.rs: what the owner of a mailbox may do. `check_owner`, `fetch`, `ack` and
-- `enqueue_from_owner`.
use nemo_messenger.Prelude.{ℕ, ◌-◌, ◌||◌, Option, none, some, List, ltb, leb, ◌==◌, if◌then◌else◌}
use nemo_messenger.Prelude.Bytes.{Bytes, beq}
use nemo_messenger.Prelude.Map
use nemo_messenger.Prelude.Map.{Map}
use nemo_messenger.Prelude.Result.{ok, err}
use nemo_messenger.Prelude.Exec.{lift, ◌>>◌}
use nemo_messenger.Wire.Sign.{Crypto, ascii}
use nemo_messenger.Wire.OwnerAuth.{
  MailboxOwnerAuth, AuthScope, auth_verify, scope_body, scope_header, max_age_secs,
}
use nemo_messenger.Wire.Envelope.{OuterEnvelope, encode_outer}
use nemo_messenger.Wire.Hpke.{keypair_server_id}
use nemo_messenger.Server.Error.{ServerResult, owner_auth, fetch_limit}
use nemo_messenger.Server.Mailbox.{Mailbox, StoredEnvelope, fetch_rows, seqs_where, ack_rows}
use nemo_messenger.Server.Dirty.{is_nil, dirty_ack_upto}
use nemo_messenger.Server.Home.{
  HomeServer, Handler, map_err, mark, mark_identity, put_mailbox, fetch_limit_max, require_mailbox,
}
use nemo_messenger.Server.Home.Append.{Enqueue, enqueue, gc_mailbox}

-- `gc_owner_nonces`
unfoldable pub gc_owner_nonces : ℕ → HomeServer → HomeServer
gc_owner_nonces now_unix h = record h {
  owner_nonces = Map.retain (λ ts. leb (now_unix - ts) max_age_secs) h.owner_nonces;
}

-- The end of `check_owner`: a nonce is good once.
abbrev pub spend_with : MailboxOwnerAuth → Option ℕ → Handler (Unit {0})
spend_with auth (some _) h = (err owner_auth, h)
spend_with auth none h =
    (ok tt, record h { owner_nonces = Map.insert auth.nonce auth.ts h.owner_nonces })

unfoldable pub spend_nonce : MailboxOwnerAuth → ℕ → Handler (Unit {0})
unfolding gc_owner_nonces
spend_nonce auth now_unix h =
    let h' = gc_owner_nonces now_unix h in spend_with auth (Map.get auth.nonce h'.owner_nonces) h'

abbrev pub found_or_auth : Option Mailbox → ServerResult Mailbox
found_or_auth none = err owner_auth
found_or_auth (some box) = ok box

module _ (crypto : Crypto) where
  -- The checks of `check_owner` that change nothing, in their order.
  abbrev pub checks_at :
      Bytes → MailboxOwnerAuth → ℕ → AuthScope → Option Mailbox → ServerResult (Unit {0})
  checks_at owner auth now_unix expect none = err owner_auth
  checks_at owner auth now_unix expect (some box) =
      if box.disabled
      then err owner_auth
      else if beq auth.mailbox_hint owner
      then if crypto.key_ok box.owner_pk
        then map_err owner_auth (auth_verify crypto auth box.owner_pk now_unix expect)
        else err owner_auth
      else err owner_auth

  unfoldable pub owner_checks :
      Bytes → MailboxOwnerAuth → ℕ → AuthScope → HomeServer → ServerResult (Unit {0})
  owner_checks owner auth now_unix expect h =
      checks_at owner auth now_unix expect (Map.get owner h.mailboxes)

  unfoldable pub check_owner : Bytes → MailboxOwnerAuth → ℕ → AuthScope → Handler (Unit {0})
  unfolding owner_checks spend_nonce
  check_owner owner auth now_unix expect h =
      (lift (owner_checks owner auth now_unix expect h) >> spend_nonce auth now_unix) h

  abbrev pub fetch_scope : HomeServer → AuthScope
  fetch_scope h =
      scope_body (keypair_server_id crypto h.hpke) (ascii "POST") (ascii "/v1/mailbox/fetch")

  abbrev pub ack_scope : HomeServer → AuthScope
  ack_scope h =
      scope_body (keypair_server_id crypto h.hpke) (ascii "POST") (ascii "/v1/mailbox/ack")

  abbrev pub page_with : MailboxOwnerAuth → ℕ → Option Mailbox → ServerResult (List StoredEnvelope)
  page_with auth now none = err owner_auth
  page_with auth now (some box) = ok (fetch_rows now auth.cursor auth.limit box)

  -- `fetch` after `check_owner`
  unfoldable pub fetch_page_of : Bytes → MailboxOwnerAuth → Handler (List StoredEnvelope)
  unfolding gc_mailbox fetch_rows
  fetch_page_of owner auth h =
      if auth.limit == 0 || ltb fetch_limit_max auth.limit
      then (err fetch_limit, h)
      else let h' = gc_mailbox owner h in (page_with auth h'.now (Map.get owner h'.mailboxes), h')

  unfoldable pub fetch : Bytes → MailboxOwnerAuth → ℕ → Handler (List StoredEnvelope)
  unfolding check_owner fetch_page_of
  fetch owner auth now_unix h =
      (check_owner owner auth now_unix (fetch_scope h) >> fetch_page_of owner auth) h

  abbrev pub ack_with : Bytes → ℕ → Option Mailbox → Handler (Unit {0})
  ack_with owner up_to none h = (err owner_auth, h)
  ack_with owner up_to (some box) h =
      let drop = seqs_where (λ s r. leb s up_to) box.rows in
      if is_nil drop then (ok tt, h) else (
        ok tt,
        mark (λ d. mark_identity owner (dirty_ack_upto owner up_to d))
            (put_mailbox owner (ack_rows drop box) h),
      )

  -- `ack` after `check_owner`
  unfoldable pub ack_rows_of : Bytes → ℕ → Handler (Unit {0})
  unfolding ack_rows seqs_where dirty_ack_upto
  ack_rows_of owner up_to h = ack_with owner up_to (Map.get owner h.mailboxes) h

  unfoldable pub ack : Bytes → MailboxOwnerAuth → ℕ → Handler (Unit {0})
  unfolding check_owner ack_rows_of
  ack owner auth now_unix h =
      (check_owner owner auth now_unix (ack_scope h) >> ack_rows_of owner auth.cursor) h

  unfoldable pub enqueue_from_owner : Bytes → MailboxOwnerAuth → ℕ → OuterEnvelope → Handler Enqueue
  unfolding check_owner require_mailbox enqueue encode_outer
  enqueue_from_owner owner auth now_unix outer h =
      let scope =
        scope_header crypto (keypair_server_id crypto h.hpke) (ascii "POST") (ascii "/v1/envelopes")
          (encode_outer outer) in
      (do
        check_owner owner auth now_unix scope
        (λ h. (lift (require_mailbox owner h) >> enqueue crypto outer) h))
        h
