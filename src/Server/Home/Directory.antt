-- ===== src/Server/Home/Directory.antt =====
-- crates/nemo-server/src/home.rs: registration, the directory of bindings, and revocation.
use nemo_messenger.Prelude.{
  ℕ, Bool, true, false, Option, none, some, List, [], ◌∷◌, ◌++◌, leb, if◌then◌else◌, replicate,
}
use nemo_messenger.Prelude.Bytes.{Bytes, beq}
use nemo_messenger.Prelude.Map
use nemo_messenger.Prelude.Map.{Map}
use nemo_messenger.Prelude.KeySet
use nemo_messenger.Prelude.KeySet.{KeySet}
use nemo_messenger.Prelude.Result.{ok, err}
use nemo_messenger.Prelude.Exec.{lift, pure, modify, ◌>>=◌, ◌>>◌}
use nemo_messenger.Wire.Ids.{key_len}
use nemo_messenger.Wire.Sign.{Crypto}
use nemo_messenger.Wire.Card.{HomeServerBinding, ContactCard, binding_verify, card_verify}
use nemo_messenger.Wire.Revocation.{RevocationStatement, revocation_verify}
use nemo_messenger.Wire.Hpke.{keypair_server_id}
use nemo_messenger.Server.Error.{ServerResult, denied, already_registered, from_wire}
use nemo_messenger.Server.Mailbox.{Mailbox, fresh_mailbox, remove_rows, seqs_where}
use nemo_messenger.Server.Tokens.{without_owner}
use nemo_messenger.Server.Dirty.{HomeDirty}
use nemo_messenger.Server.Home.{
  HomeServer, Handler, DirectoryRow, map_err, mark, mark_identity, mark_prekeys, put_mailbox,
}
use nemo_messenger.Server.Home.Capabilities.{register_share_token}

abbrev pub is_some {ℓ} : {A : Type ℓ} → Option A → Bool
is_some none = false
is_some (some _) = true

unfoldable pub register : Bytes → Bytes → Handler (Unit {0})
register identity_id owner_pk h =
    if is_some (Map.get identity_id h.mailboxes) then (err already_registered, h) else (
      ok tt,
      mark (mark_identity identity_id) (put_mailbox identity_id (fresh_mailbox owner_pk) h),
    )

-- Every row goes, and the mailbox is closed.
abbrev pub closed : Mailbox → Mailbox
closed box = record (remove_rows (seqs_where (λ s r. true) box.rows) box) { disabled = true }

abbrev pub disable_with : Bytes → Option Mailbox → HomeServer → HomeServer
disable_with owner none h = h
disable_with owner (some box) h = put_mailbox owner (closed box) h

abbrev pub mark_disabled : Bytes → HomeDirty → HomeDirty
mark_disabled owner d = mark_identity owner (
    mark_prekeys owner (record d {
      mailbox_cleared = KeySet.add owner d.mailbox_cleared;
      tokens_dropped = KeySet.add owner d.tokens_dropped;
    }))

unfoldable pub disable_mailbox : Bytes → HomeServer → HomeServer
unfolding without_owner remove_rows seqs_where
disable_mailbox owner h =
    let h' = disable_with owner (Map.get owner h.mailboxes) h in
    mark (mark_disabled owner)
      (record h' { prekeys = Map.remove owner h'.prekeys; tokens = without_owner owner h'.tokens })

abbrev pub has_group : Bytes → List Bytes → Bool
has_group g gs = KeySet.has g gs

abbrev pub groups_of : Option (List Bytes) → List Bytes
groups_of none = []
groups_of (some gs) = gs

unfoldable pub note_group_membership : Bytes → Bytes → HomeServer → HomeServer
note_group_membership identity_id group_id h =
    let gs = groups_of (Map.get identity_id h.memberships) in
    if has_group group_id gs
    then record h { memberships = Map.insert identity_id gs h.memberships }
    else mark (λ d. record d { memberships = KeySet.add identity_id d.memberships })
        (record h { memberships = Map.insert identity_id (gs ++ (group_id ∷ [])) h.memberships })

-- The key of the identity: the directory's, or else the mailbox's.
abbrev pub key_of : Option DirectoryRow → Option Mailbox → ServerResult Bytes
key_of (some row) _ = ok row.identity_public_key
key_of none (some box) = ok box.owner_pk
key_of none none = err denied

abbrev pub stored_seq : Option DirectoryRow → ℕ
stored_seq none = 0
stored_seq (some row) = row.binding_seq

abbrev pub bound : Bytes → HomeServerBinding → Option DirectoryRow → DirectoryRow
bound pk binding (some row) = record row { binding = binding; binding_seq = binding.seq }
bound pk binding none = record {
  identity_public_key = pk;
  revocation_public_key = replicate key_len 0;
  binding = binding;
  binding_seq = binding.seq;
  revocation = none;
}

abbrev pub and_then : {A : Type 0} → ServerResult (Unit {0}) → ServerResult A → ServerResult A
and_then (ok _) r = r
and_then (err e) r = err e

abbrev pub note_revocation : RevocationStatement → DirectoryRow → HomeServer → HomeServer
note_revocation stmt row h = mark (mark_identity stmt.identity_id) (record h {
  directory = Map.insert stmt.identity_id (record row { revocation = some stmt }) h.directory;
})

abbrev pub mark_memberships : Bytes → Option (List Bytes) → HomeServer → HomeServer
mark_memberships owner none h = h
mark_memberships owner (some _) h =
    mark (λ d. record d { memberships = KeySet.add owner d.memberships }) h

abbrev pub forget_groups : Bytes → HomeServer → HomeServer
forget_groups id h =
    mark_memberships id (Map.get id h.memberships)
      (record h { memberships = Map.remove id h.memberships })

module _ (crypto : Crypto) where
  -- `observe_binding` after the checks
  unfoldable pub bind_identity : Bytes → Bytes → HomeServerBinding → HomeServer → HomeServer
  unfolding disable_mailbox
  bind_identity identity_id pk binding h =
      let row = Map.get identity_id h.directory in
      if leb binding.seq (stored_seq row)
      then h
      else let h' =
          mark (mark_identity identity_id)
            (record h { directory = Map.insert identity_id (bound pk binding row) h.directory }) in
        if beq binding.server_id (keypair_server_id crypto h.hpke)
        then h'
        else disable_mailbox identity_id h'

  -- The checks of `observe_binding`.
  unfoldable pub binding_checks : Bytes → HomeServerBinding → ℕ → Bytes → ServerResult (Unit {0})
  unfolding binding_verify
  binding_checks identity_id binding now pk =
      if crypto.key_ok pk
      then if beq (crypto.sha256 pk) identity_id
        then map_err denied (binding_verify crypto binding pk now)
        else err denied
      else err denied

  unfoldable pub observe_binding : Bytes → HomeServerBinding → Handler (Unit {0})
  unfolding bind_identity binding_checks
  observe_binding identity_id binding h =
      (do
        pk ← lift (key_of (Map.get identity_id h.directory) (Map.get identity_id h.mailboxes))
        lift (binding_checks identity_id binding h.now pk)
        modify (bind_identity identity_id pk binding))
        h

  -- The checks of `ingest_revocation`, against the row of the identity.
  abbrev pub revocation_checks :
      RevocationStatement → Option DirectoryRow → ServerResult DirectoryRow
  revocation_checks stmt none = err denied
  revocation_checks stmt (some row) =
      if crypto.key_ok row.revocation_public_key
      then and_then (map_err denied (revocation_verify crypto stmt row.revocation_public_key)) (
          if beq stmt.identity_id (crypto.sha256 row.identity_public_key)
          then ok row
          else err denied)
      else err denied

  -- `ingest_revocation` after the checks
  unfoldable pub revoke : RevocationStatement → DirectoryRow → Handler (List Bytes)
  unfolding disable_mailbox
  revoke stmt row h =
      let h' = disable_mailbox stmt.identity_id (note_revocation stmt row h) in
      (ok (groups_of (Map.get stmt.identity_id h'.memberships)), forget_groups stmt.identity_id h')

  unfoldable pub ingest_revocation : RevocationStatement → Handler (List Bytes)
  unfolding revoke
  ingest_revocation stmt h =
      (do
        row ← lift (revocation_checks stmt (Map.get stmt.identity_id h.directory))
        revoke stmt row)
        h

  unfoldable pub register_from_card : ContactCard → Handler Bytes
  unfolding card_verify register register_share_token
  register_from_card card h =
      (do
        lift (from_wire (card_verify crypto card h.now))
        lift (
            if beq card.binding.server_id (keypair_server_id crypto h.hpke)
            then ok tt
            else err denied)
        let id = crypto.sha256 card.identity_public_key
        register id card.identity_public_key
        modify (λ h. record h {
          directory =
              Map.insert id
                (record {
                  identity_public_key = card.identity_public_key;
                  revocation_public_key = card.revocation_public_key;
                  binding = card.binding;
                  binding_seq = card.binding.seq;
                  revocation = none;
                })
                h.directory;
        })
        register_share_token id card.share_token none
        pure id)
        h
