-- ===== src/Server/Home/Capabilities.antt =====
-- crates/nemo-server/src/home.rs: share tokens, contact capabilities, prekeys and the token sweepers.
use nemo_messenger.Prelude.{
  ℕ, ◌-◌, Bool, false, not, Option, none, some, List, [], ◌∷◌, ◌++◌, length, leb, if◌then◌else◌,
  add64,
}
use nemo_messenger.Prelude.Bytes.{Bytes, beq}
use nemo_messenger.Prelude.Map
use nemo_messenger.Prelude.Map.{Map}
use nemo_messenger.Prelude.KeySet
use nemo_messenger.Prelude.KeySet.{KeySet}
use nemo_messenger.Prelude.Result.{ok, err}
use nemo_messenger.Prelude.Exec.{lift, pure, ◌>>=◌, ◌>>◌}
use nemo_messenger.Wire.Join.{intro_ttl_30_min, allowed_intro_ttl}
use nemo_messenger.Server.Error.{denied}
use nemo_messenger.Server.Tokens.{
  ShareToken, ContactToken, TokenKind, share, contact, token, share_admits, contact_grace_secs,
  dead_for, dead_all, without,
}
use nemo_messenger.Server.Dirty.{is_nil}
use nemo_messenger.Server.Home.{
  HomeServer, Handler, mark, mark_token, mark_prekeys, put_token, require_mailbox, is_open,
  token_sweep_interval_secs,
}

-- crates/nemo-wire/src/join.rs
abbrev pub ttl_or_default : Option ℕ → ℕ
ttl_or_default none = intro_ttl_30_min
ttl_or_default (some ttl) = ttl

abbrev pub push_token : Bytes → TokenKind → HomeServer → HomeServer
push_token tok kind h = mark (mark_token tok) (record h { tokens = h.tokens ++ ((tok, kind) ∷ []) })

abbrev pub fresh_share : Bytes → ℕ → ShareToken
fresh_share owner expires_at = record {
  mailbox = owner;
  expires_at = expires_at;
  burned = false;
  reserved_prekey = none;
}

unfoldable pub register_share_token : Bytes → Bytes → Option ℕ → Handler (Unit {0})
unfolding require_mailbox
register_share_token owner tok ttl_secs h =
    (lift (require_mailbox owner h) >> λ h.
    if allowed_intro_ttl (ttl_or_default ttl_secs)
    then (
      ok tt,
      push_token tok (share (fresh_share owner (add64 h.now (ttl_or_default ttl_secs)))) h,
    )
    else (err denied, h))
      h

-- `mint_share_token`; `tok` is the random token.
unfoldable pub mint_share_token : Bytes → Bytes → Option ℕ → Handler Bytes
unfolding register_share_token
mint_share_token tok owner ttl_secs = register_share_token owner tok ttl_secs >> pure tok

abbrev pub delete_each : List Bytes → KeySet → KeySet
delete_each [] s = s
delete_each (k ∷ ks) s = delete_each ks (KeySet.delete k s)

-- `drop_tokens_exact`, without the count it returns.
unfoldable pub drop_tokens_exact : List Bytes → HomeServer → HomeServer
unfolding without
drop_tokens_exact dead h =
    if is_nil dead
    then h
    else mark
        (λ d. record d {
          tokens = delete_each dead d.tokens;
          tokens_dropped_exact = KeySet.extend d.tokens_dropped_exact dead;
        })
        (record h { tokens = without dead h.tokens })

-- The tokens of the sweep, and how many it found dead.
unfoldable pub sweep_dead_tokens_for : Bytes → HomeServer → HomeServer × ℕ
unfolding dead_for drop_tokens_exact
sweep_dead_tokens_for owner h =
    let dead = dead_for h.now (not (is_open (Map.get owner h.mailboxes))) owner h.tokens in
    (drop_tokens_exact dead h, length dead)

unfoldable pub sweep_dead_tokens : HomeServer → HomeServer × ℕ
unfolding dead_all drop_tokens_exact
sweep_dead_tokens h =
    let dead = dead_all h.now (λ owner. not (is_open (Map.get owner h.mailboxes))) h.tokens in
    (drop_tokens_exact dead h, length dead)

unfoldable pub token_sweep_due : HomeServer → Bool
token_sweep_due h = leb token_sweep_interval_secs (h.now - h.last_token_sweep)

unfoldable pub record_token_sweep : HomeServer → HomeServer
record_token_sweep h = record h { last_token_sweep = h.now }

abbrev pub fresh_contact : Bytes → ℕ → ContactToken
fresh_contact owner now = record {
  mailbox = owner;
  grace_until = none;
  window_start = now;
  window_count = 0;
}

-- `tok` is the random token.
unfoldable pub mint_contact_capability : Bytes → Bytes → Handler Bytes
unfolding require_mailbox sweep_dead_tokens_for
mint_contact_capability tok owner h =
    (lift (require_mailbox owner h) >> λ h.
    let swept = (sweep_dead_tokens_for owner h).0 in
    (ok tok, push_token tok (contact (fresh_contact owner swept.now)) swept))
      h

-- The old token's time of grace starts, if it is a contact token of the owner.
abbrev pub grace_with : Bytes → Bytes → Option TokenKind → HomeServer → HomeServer
grace_with owner old (some (contact c)) h =
    if beq c.mailbox owner
    then mark (mark_token old) (
        put_token old (contact (record c { grace_until = some (add64 h.now contact_grace_secs) }))
          h)
    else h
grace_with owner old _ h = h

unfoldable pub rotate_contact : Bytes → Bytes → Bytes → Bool → Handler Bytes
unfolding mint_contact_capability token
rotate_contact tok owner old confirm = do
  new ← mint_contact_capability tok owner
  (λ h. (ok new, if confirm then grace_with owner old (token old h.tokens) h else h))

abbrev pub queue_of : Option (List Bytes) → List Bytes
queue_of none = []
queue_of (some q) = q

unfoldable pub publish_prekey : Bytes → Bytes → Handler (Unit {0})
unfolding require_mailbox
publish_prekey owner blob h =
    (lift (require_mailbox owner h) >> λ h. (
      ok tt,
      mark (mark_prekeys owner) (record h {
        prekeys = Map.insert owner (queue_of (Map.get owner h.prekeys) ++ (blob ∷ [])) h.prekeys;
      }),
    ))
      h

-- The first prekey of the queue is taken and reserved for the token.
abbrev pub reserve : Bytes → ShareToken → List Bytes → Handler Bytes
reserve tok s [] h = (err denied, h)
reserve tok s (blob ∷ queue) h = (
  ok blob,
  mark (λ d. mark_token tok (mark_prekeys s.mailbox d))
      (put_token tok (share (record s { reserved_prekey = some blob }))
        (record h { prekeys = Map.insert s.mailbox queue h.prekeys })),
)

abbrev pub prekey_for : Bytes → ShareToken → Option Bytes → Handler Bytes
prekey_for tok s (some blob) h = (ok blob, h)
prekey_for tok s none h = reserve tok s (queue_of (Map.get s.mailbox h.prekeys)) h

abbrev pub prekey_with : Bytes → Option TokenKind → Handler Bytes
prekey_with tok (some (share s)) h =
    if share_admits h.now s then prekey_for tok s s.reserved_prekey h else (err denied, h)
prekey_with tok _ h = (err denied, h)

unfoldable pub fetch_prekey : Bytes → Handler Bytes
unfolding token
fetch_prekey tok h = prekey_with tok (token tok h.tokens) h
