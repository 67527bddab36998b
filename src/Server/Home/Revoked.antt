-- ===== src/Server/Home/Revoked.antt =====
-- Revocation (crates/nemo-server/src/home.rs): the mailbox is emptied and closed, and its tokens, prekeys
-- and memberships are gone.
use nemo_messenger.Prelude.{
  ℕ, ◌≡◌, refl, sym, ◌∙◌, ap, true, false, not, Bool-cases, Option-cases, inl, inr, Option, none,
  some, List, [], ◌∷◌, arith,
}
use mathlib.Core.Path.{subst}
use nemo_messenger.Prelude.Bytes.{Bytes, beq_refl}
use nemo_messenger.Prelude.Map
use nemo_messenger.Prelude.Map.{Map}
use nemo_messenger.Prelude.Result.{ok, err}
use nemo_messenger.Prelude.Exec.{continue_with}
use nemo_messenger.Wire.Sign.{Crypto}
use nemo_messenger.Wire.Revocation.{RevocationStatement}
use nemo_messenger.Server.Error.{ServerResult, denied}
use nemo_messenger.Wire.Envelope.{InnerEnvelope}
use nemo_messenger.Server.Mailbox.{Mailbox, Rows, seqs_where}
use nemo_messenger.Server.Mailbox.Rows.{total, keep_rows, delete_rows-where}
use nemo_messenger.Server.Mailbox.Invariant.{IsLog, rows-remove_rows}
use nemo_messenger.Server.Tokens.{
  TokenKind, Tokens, share, contact, token, admit, belongs_to, token_mailbox,
}
use nemo_messenger.Server.Tokens.Lookup.{token-without_owner}
use nemo_messenger.Server.Home.{HomeServer, DirectoryRow, put_token}
use nemo_messenger.Server.Home.Append.{
  touch, authorize_append, authorize_mailbox, append_to, append_inner,
}
use nemo_messenger.Server.Home.Directory.{
  closed, disable_with, disable_mailbox, note_revocation, mark_memberships, forget_groups, revoke,
  revocation_checks, ingest_revocation,
}
use nemo_messenger.Server.Home.Invariant.{IsHome}
use nemo_messenger.Server.Home.Upkeep.{closed-IsLog}

-- The mailbox is shut for good: closed and empty, and nothing in the state leads to it.
pub record Closed (id : Bytes) (h : HomeServer) : Type 0 where
  pub disabled : (box : Mailbox) → Map.get id h.mailboxes ≡ some box → box.disabled ≡ true
  pub rows : (box : Mailbox) → Map.get id h.mailboxes ≡ some box → box.rows ≡ []
  pub bytes : (box : Mailbox) → Map.get id h.mailboxes ≡ some box → box.bytes ≡ 0
  pub tokens : (tok : Bytes) (v : TokenKind) → token tok h.tokens ≡ some v → belongs_to id v ≡ false
  pub prekeys : Map.get id h.prekeys ≡ none

keep_none : (rows : Rows) → keep_rows (λ s r. not true) rows ≡ []
keep_none [] = refl
keep_none ((s, r) ∷ rows) = ground (arith, keep_none rows)

rows-closed : (box : Mailbox) → IsLog box → (closed box).rows ≡ []
rows-closed box l =
    rows-remove_rows (seqs_where (λ s r. true) box.rows) box
    ∙ delete_rows-where (λ s r. true) 1 box.next_seq box.rows l.rows
    ∙ keep_none box.rows

bytes-closed : (box : Mailbox) → IsLog box → (closed box).bytes ≡ 0
bytes-closed box l = let c = closed-IsLog box l in c.bytes ∙ ap total (rows-closed box l)

-- What is under the key after `disable_with` is the closed mailbox.
disabled_at :
    (id : Bytes) (o : Option Mailbox) (h : HomeServer) {box : Mailbox}
    → Map.get id h.mailboxes ≡ o
    → Map.get id (disable_with id o h).mailboxes ≡ some box
    → (old : Mailbox) × (Map.get id h.mailboxes ≡ some old) × (closed old ≡ box)
disabled_at id none h e found = cc
disabled_at id (some old) h {box} e found =
    let same = Map.get-insert_self id (closed old) h.mailboxes in (old, e, cc)

pub disable_mailbox-Closed :
    (id : Bytes) (h : HomeServer) → IsHome h → Closed id (disable_mailbox id h)
unfolding disable_mailbox
disable_mailbox-Closed id h v = record {
  disabled = λ box e.
      let (old, at, same) = disabled_at id (Map.get id h.mailboxes) h refl e in
      ap (λ b. b.disabled) (sym same);
  rows = λ box e.
      let (old, at, same) = disabled_at id (Map.get id h.mailboxes) h refl e in
      rw (← same) (rows-closed old (Map.get-AllValues IsLog id h.mailboxes v.logs at));
  bytes = λ box e.
      let (old, at, same) = disabled_at id (Map.get id h.mailboxes) h refl e in
      rw (← same) (bytes-closed old (Map.get-AllValues IsLog id h.mailboxes v.logs at));
  tokens = λ tok w e. token-without_owner tok id _ e;
  prekeys = rw (Map.get-remove id id _, beq_refl id);
}

mark_memberships-Closed :
    (id j : Bytes) (o : Option (List Bytes)) (h : HomeServer)
    → Closed id h
    → Closed id (mark_memberships j o h)
mark_memberships-Closed id j none h c = c
mark_memberships-Closed id j (some gs) h c = record {
  disabled = c.disabled;
  rows = c.rows;
  bytes = c.bytes;
  tokens = c.tokens;
  prekeys = c.prekeys;
}

mark_memberships-same :
    (j : Bytes) (o : Option (List Bytes)) (h : HomeServer)
    → (mark_memberships j o h).memberships ≡ h.memberships
mark_memberships-same j none h = refl
mark_memberships-same j (some gs) h = refl

forget_groups-Closed : (id : Bytes) (h : HomeServer) → Closed id h → Closed id (forget_groups id h)
forget_groups-Closed id h c =
    mark_memberships-Closed id id (Map.get id h.memberships)
      (record h { memberships = Map.remove id h.memberships })
      (record {
        disabled = c.disabled;
        rows = c.rows;
        bytes = c.bytes;
        tokens = c.tokens;
        prekeys = c.prekeys;
      })

forget_groups-none :
    (id : Bytes) (h : HomeServer) → Map.get id (forget_groups id h).memberships ≡ none
forget_groups-none id h =
    ap (Map.get id) (
      mark_memberships-same id (Map.get id h.memberships)
        (record h { memberships = Map.remove id h.memberships }))
    ∙ rw (Map.get-remove id id h.memberships, beq_refl id)

module _ (crypto : Crypto) where
  revoke-Closed :
      (stmt : RevocationStatement) (row : DirectoryRow) (h : HomeServer)
      → IsHome h
      → Closed stmt.identity_id (revoke crypto stmt row h).1
        × (Map.get stmt.identity_id (revoke crypto stmt row h).1.memberships ≡ none)
  unfolding revoke
  revoke-Closed stmt row h v =
      let h' = disable_mailbox stmt.identity_id (note_revocation stmt row h) in
      let c =
        disable_mailbox-Closed stmt.identity_id (note_revocation stmt row h)
          (record { logs = v.logs; window = v.window }) in
      (forget_groups-Closed stmt.identity_id h' c, forget_groups-none stmt.identity_id h')

  after_checks :
      (stmt : RevocationStatement) (h : HomeServer) (r : ServerResult DirectoryRow)
      {groups : List Bytes}
      → IsHome h
      → (continue_with (revoke crypto stmt) (r, h)).0 ≡ ok groups
      → Closed stmt.identity_id (continue_with (revoke crypto stmt) (r, h)).1
        × (Map.get stmt.identity_id (continue_with (revoke crypto stmt) (r, h)).1.memberships
            ≡ none)
  after_checks stmt h (ok row) v done = revoke-Closed stmt row h v
  after_checks stmt h (err e) v done = cc

  -- An accepted revocation closes and empties the mailbox of the identity, and leaves it no token, no
  -- prekey and no group.
  pub ingest_revocation-Closed :
      (stmt : RevocationStatement) (h : HomeServer) {groups : List Bytes}
      → IsHome h
      → (ingest_revocation crypto stmt h).0 ≡ ok groups
      → Closed stmt.identity_id (ingest_revocation crypto stmt h).1
        × (Map.get stmt.identity_id (ingest_revocation crypto stmt h).1.memberships ≡ none)
  unfolding ingest_revocation
  ingest_revocation-Closed stmt h v done =
      after_checks stmt h (revocation_checks crypto stmt (Map.get stmt.identity_id h.directory)) v
        done

-- No envelope gets into a mailbox that is closed or not there, whichever token names it.
abbrev Shut : Bytes → HomeServer → Type 0
Shut id h = (box : Mailbox) → Map.get id h.mailboxes ≡ some box → box.disabled ≡ true

Shut-append :
    (inner : InnerEnvelope) (id : Bytes) (h : HomeServer)
    → Shut id h
    → (continue_with (λ owner. append_to owner inner) (authorize_mailbox id h)).0 ≡ err denied
unfolding append_to
Shut-append inner id h shut = elim (Option-cases (Map.get id h.mailboxes)) [
  | inl missing ↦ rw (missing) (rw (missing))
  | inr (box, found) ↦ let off = shut box found in rw (found, off)
]

Shut-denies :
    (inner : InnerEnvelope) (kind : TokenKind) (h : HomeServer)
    → Shut (token_mailbox kind) h
    → token inner.delivery_capability h.tokens ≡ some kind
    → (append_inner inner h).0 ≡ err denied
unfolding append_inner authorize_append
Shut-denies inner (share s) h shut found =
    let tok = inner.delivery_capability in
    elim (Bool-cases (admit h.now (share s)).1) [
      | inl let_in ↦ rw found (rw let_in (Shut-append inner s.mailbox (put_token tok _ h) shut))
      | inr refused ↦ rw found (rw refused)
    ]
Shut-denies inner (contact c) h shut found =
    let tok = inner.delivery_capability in
    elim (Bool-cases (admit h.now (contact c)).1) [
      | inl let_in ↦
          rw found (
            rw let_in
              (Shut-append inner c.mailbox (touch tok (contact c) (put_token tok _ h)) shut))
      | inr refused ↦ rw found (rw refused)
    ]

-- After a well-formed server accepted the revocation of an identity, no envelope is accepted into the
-- mailbox of that identity, whatever tokens the server holds by then and whatever the time is: every
-- append under a token that names the mailbox is denied.
pub revoked_denies :
    (crypto : Crypto) (stmt : RevocationStatement) (inner : InnerEnvelope) (h : HomeServer)
    (ts : Tokens) (now : ℕ) (kind : TokenKind) {groups : List Bytes}
    → IsHome h
    → (ingest_revocation crypto stmt h).0 ≡ ok groups
    → token inner.delivery_capability ts ≡ some kind
    → token_mailbox kind ≡ stmt.identity_id
    → (append_inner inner (record (ingest_revocation crypto stmt h).1 { tokens = ts; now = now })).0
      ≡ err denied
revoked_denies crypto stmt inner h ts now kind v done found names =
    let (c, _) = ingest_revocation-Closed crypto stmt h v done in
    let h' = (ingest_revocation crypto stmt h).1 in
    Shut-denies inner kind (record h' { tokens = ts; now = now })
      (subst (λ id. Shut id h') (sym names) c.disabled) found
