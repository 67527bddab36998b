-- ===== src/Server/Home/Append.antt =====
-- crates/nemo-server/src/home.rs: accepting an envelope. `authorize_append`, `burn_if_share`,
-- `gc_mailbox`, `append_inner`, `ingest` and `enqueue`.
use nemo_messenger.Prelude.{
  ℕ, true, Option, none, some, List, [], ◌∷◌, ◌++◌, map, length, leb, if◌then◌else◌,
}
use nemo_messenger.Prelude.Bytes.{Bytes, beq}
use nemo_messenger.Prelude.Map
use nemo_messenger.Prelude.Result.{ok, err}
use nemo_messenger.Prelude.Exec.{pure, lift, ◌>>=◌}
use nemo_messenger.Wire.Error.{WireResult}
use nemo_messenger.Wire.Sign.{Crypto}
use nemo_messenger.Wire.Envelope.{InnerEnvelope, OuterEnvelope, encode_padded}
use nemo_messenger.Wire.Hpke.{encap_key, open_outer, keypair_server_id}
use nemo_messenger.Server.Error.{denied, from_wire, wire}
use nemo_messenger.Server.Mailbox.{Mailbox, store_envelope, collect}
use nemo_messenger.Server.Tokens.{TokenKind, share, contact, token, admit, burn, token_mailbox}
use nemo_messenger.Server.Dirty.{HomeDirty, is_nil}
use nemo_messenger.Server.Home.{
  HomeServer, Handler, OutboundRow, mark, mark_identity, mark_token, put_mailbox, put_token,
  is_disabled, hpke_enc_window,
}

-- A contact token's window was touched: its row is to be written.
abbrev pub touch : Bytes → TokenKind → HomeServer → HomeServer
touch tok (share s) h = h
touch tok (contact c) h = mark (mark_token tok) h

abbrev pub authorize_mailbox : Bytes → Handler Bytes
authorize_mailbox owner h =
    (if is_disabled (Map.get owner h.mailboxes) then err denied else ok owner, h)

abbrev pub authorize_with : Bytes → Option TokenKind → Handler Bytes
authorize_with tok none h = (err denied, h)
authorize_with tok (some kind) h =
    let (kind', admitted) = admit h.now kind in
    let h' = put_token tok kind' h in
    if admitted
    then authorize_mailbox (token_mailbox kind) (touch tok kind h')
    else (err denied, h')

unfoldable pub authorize_append : Bytes → Handler Bytes
unfolding admit token
authorize_append tok h = authorize_with tok (token tok h.tokens) h

abbrev pub burn_with : Bytes → Option TokenKind → HomeServer → HomeServer
burn_with tok (some (share s)) h =
    if s.burned then h else mark (mark_token tok) (put_token tok (burn (share s)) h)
burn_with tok _ h = h

unfoldable pub burn_if_share : Bytes → HomeServer → HomeServer
unfolding token
burn_if_share tok h = burn_with tok (token tok h.tokens) h

abbrev pub mark_dropped : Bytes → List ℕ → HomeDirty → HomeDirty
mark_dropped owner dropped d =
    mark_identity owner
      (record d { mailbox_dropped = d.mailbox_dropped ++ map (λ s. (owner, s)) dropped })

abbrev pub gc_with : Bytes → Option Mailbox → HomeServer → HomeServer
gc_with owner none h = h
gc_with owner (some box) h =
    let (box', dropped) =
      collect h.now h.limits.mailbox_max_age_secs h.limits.mailbox_max_bytes box in
    let h' = put_mailbox owner box' h in
    if is_nil dropped then h' else mark (mark_dropped owner dropped) h'

unfoldable pub gc_mailbox : Bytes → HomeServer → HomeServer
unfolding collect
gc_mailbox owner h = gc_with owner (Map.get owner h.mailboxes) h

abbrev pub mark_new : Bytes → ℕ → HomeDirty → HomeDirty
mark_new owner seq d =
    mark_identity owner (record d { mailbox_new = d.mailbox_new ++ ((owner, seq) ∷ []) })

-- `append_inner` from `encode_padded` on, with its result.
abbrev pub append_new : Bytes → InnerEnvelope → Mailbox → WireResult Bytes → Handler ℕ
append_new owner inner box (err e) h = (err (wire e), h)
append_new owner inner box (ok padded) h =
    let box' = store_envelope h.now h.limits.mailbox_max_age_secs inner (length padded) box in
    let h' = mark (mark_new owner box.next_seq) (put_mailbox owner box' h) in
    (ok box.next_seq, gc_mailbox owner (burn_if_share inner.delivery_capability h'))

abbrev pub append_known : Bytes → InnerEnvelope → Mailbox → Option ℕ → Handler ℕ
append_known owner inner box (some seq) h = (ok seq, h)
append_known owner inner box none h = append_new owner inner box (encode_padded inner) h

abbrev pub append_box : Bytes → InnerEnvelope → Option Mailbox → Handler ℕ
append_box owner inner none h = (err denied, h)
append_box owner inner (some box) h =
    append_known owner inner box (Map.get inner.idempotency_token box.idempotency) h

-- `append_inner` after `authorize_append`
unfoldable pub append_to : Bytes → InnerEnvelope → Handler ℕ
append_to owner inner h = append_box owner inner (Map.get owner h.mailboxes) h

unfoldable pub append_inner : InnerEnvelope → Handler ℕ
unfolding authorize_append append_to
append_inner inner = do owner ← authorize_append inner.delivery_capability; append_to owner inner

-- The end of `ingest`: the encapsulated key is remembered, in a window that is emptied when it is full.
abbrev pub make_room : HomeServer → HomeServer
make_room h =
    if leb hpke_enc_window (length h.seen_enc)
    then mark (λ d. record d { seen_enc_cleared = true }) (record h { seen_enc = [] })
    else h

abbrev pub note_enc : Bytes → ℕ → HomeServer → HomeServer
note_enc enc seq h =
    let h' = record h { seen_enc = Map.insert enc seq h.seen_enc } in
    if h.dirty.seen_enc_cleared
    then h'
    else mark (λ d. record d { seen_enc_new = d.seen_enc_new ++ (enc ∷ []) }) h'

unfoldable pub remember_enc : Bytes → ℕ → HomeServer → HomeServer
remember_enc enc seq h = note_enc enc seq (make_room h)

pub data Enqueue : Type 0 where
  local : ℕ → Enqueue
  queued : Enqueue

module _ (crypto : Crypto) where
  abbrev pub ingest_new : Bytes → OuterEnvelope → Handler ℕ
  ingest_new enc outer h =
      (do
        inner ← lift (from_wire (open_outer crypto h.hpke outer))
        seq ← append_inner inner
        (λ h. (ok seq, remember_enc enc seq h)))
        h

  abbrev pub ingest_with : Bytes → OuterEnvelope → Option ℕ → Handler ℕ
  ingest_with enc outer (some seq) h = (ok seq, h)
  ingest_with enc outer none h = ingest_new enc outer h

  unfoldable pub ingest : OuterEnvelope → Handler ℕ
  unfolding append_inner remember_enc encap_key
  ingest outer = do
    enc ← lift (from_wire (encap_key outer.hpke_ciphertext))
    (λ h. ingest_with enc outer (Map.get enc h.seen_enc) h)

  -- Alice's envelope, to her own home or into the outbound queue.
  unfoldable pub enqueue : OuterEnvelope → Handler Enqueue
  unfolding ingest
  enqueue outer h =
      if beq outer.destination_server_id (keypair_server_id crypto h.hpke)
      then (do seq ← ingest outer; pure (local seq)) h
      else let row : OutboundRow = record {
        dest = outer.destination_server_id;
        outer = outer;
        enqueued_at = h.now;
        next_attempt = h.now;
        backoff_secs = 1;
      } in
        (
          ok queued,
          mark (λ d. record d { outbound_dirty = true })
              (record h { outbound = h.outbound ++ (row ∷ []) }),
        )
