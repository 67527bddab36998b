-- ===== src/Server/Groups/Once.antt =====
-- What the group host grants once (crates/nemo-server/src/group.rs): an invite, and an upload.
use nemo_messenger.Prelude.{
  if◌then◌else◌, ◌≡◌, refl, ap, ◌∙◌, ◌⊎◌, true, false, Option, none, some, leb, ltb, ◌&&◌, arith,
  Bool-cases, Option-cases, inl, inr,
}
use nemo_messenger.Prelude.Bytes.{Bytes, beq, beq_iff, beq_refl}
use nemo_messenger.Prelude.Map
use nemo_messenger.Prelude.Map.{Map, get-remove, get-insert_self}
use nemo_messenger.Prelude.Result.{ok, err}
use nemo_messenger.Wire.Sign.{Crypto}
use nemo_messenger.Server.Error.{ServerResult, denied}
use nemo_messenger.Server.Groups.{
  MemberCred, CredRecord, FileSlot, GroupState, GroupHost, authorize_live, authorize_in, cred_live,
}
use nemo_messenger.Server.Groups.Members.{waiting, accept_in, accept}
use nemo_messenger.Server.Groups.Files.{may_upload, upload_to, upload_with, upload_file, fetch_file}

-- The group does not hold the invite.
abbrev NoInvite : Bytes → Option GroupState → Type 0
NoInvite nonce none = Unit
NoInvite nonce (some g) = Map.get nonce g.invites ≡ none

module _ (crypto : Crypto) (gid nonce : Bytes) where
  accept_in-NoInvite :
      (cred : MemberCred) (pending_id : Bytes) (o : Option GroupState) (h : GroupHost)
      → NoInvite nonce o
      → (accept_in crypto gid nonce cred pending_id o h).0 ≡ err denied
  accept_in-NoInvite cred pending_id none h v = refl
  accept_in-NoInvite cred pending_id (some g) h v = rw v refl

  accept_leaves :
      (cred : MemberCred) (pending_id : Bytes) (o : Option GroupState) (h : GroupHost)
      → Map.get gid h.groups ≡ o
      → NoInvite nonce (Map.get gid (accept_in crypto gid nonce cred pending_id o h).1.groups)
  accept_leaves cred pending_id none h found = rw found tt
  accept_leaves cred pending_id (some g) h found = elim (Option-cases (Map.get nonce g.invites)) [
    | inl missing ↦ rw (missing, found) missing
    | inr (stored, there) ↦
        let m = record g { invites = Map.remove nonce g.invites } in
        let gone : Map.get nonce m.invites ≡ none =
          get-remove nonce nonce g.invites
          ∙ ap (λ b. if b then none else Map.get nonce g.invites) (beq_refl nonce) in
        rw there (elim (Bool-cases (leb stored.expires_at h.now)) [
          | inl late ↦ rw (late, get-insert_self gid m h.groups) gone
          | inr in_time ↦
              rw (in_time, get-insert_self gid (waiting crypto cred pending_id stored m) h.groups)
                gone
        ])
  ]

  -- An invite is accepted once: whatever an attempt returned, the next one with the same nonce is denied.
  pub accept_once :
      (cred cred' : MemberCred) (pending_id pending_id' : Bytes) (h : GroupHost)
      → (accept crypto gid nonce cred' pending_id' (accept crypto gid nonce cred pending_id h).1).0
        ≡ err denied
  unfolding accept
  accept_once cred cred' pending_id pending_id' h =
      let k = (accept crypto gid nonce cred pending_id h).1 in
      accept_in-NoInvite cred' pending_id' (Map.get gid k.groups) k
        (accept_leaves cred pending_id (Map.get gid h.groups) h refl)

-- The file is there, with its content.
record Uploaded (tok gid body : Bytes) (h : GroupHost) : Type 0 where
  slot : FileSlot
  found : Map.get tok h.files ≡ some slot
  full : slot.content ≡ some body
  whose : slot.group_id ≡ gid
  lasts : ltb h.now slot.expires_at ≡ true

module _ (crypto : Crypto) (tok : Bytes) where
  upload_to-Uploaded :
      (gid : Bytes) (cred : MemberCred) (body : Bytes) (o : Option FileSlot) (h : GroupHost)
      → (upload_to gid cred tok body o h).0 ≡ ok tt
      → Uploaded tok gid body (upload_to gid cred tok body o h).1
  upload_to-Uploaded gid cred body none h e = cc
  upload_to-Uploaded gid cred body (some slot) h e =
      elim (Bool-cases (may_upload gid cred body h.now slot)) [
        | inl may ↦
            let k = record slot { content = some body } in
            rw may (record {
              slot = k;
              found = get-insert_self tok k h.files;
              full = refl;
              whose = (beq_iff slot.group_id gid).0 (ground arith);
              lasts = ground arith;
            })
        | inr refused ↦ cc (rw refused at e)
      ]

  upload_with-Uploaded :
      (gid : Bytes) (cred : MemberCred) (body : Bytes) (r : ServerResult (Unit {0})) (h : GroupHost)
      → (upload_with gid cred tok body r h).0 ≡ ok tt
      → Uploaded tok gid body (upload_with gid cred tok body r h).1
  upload_with-Uploaded gid cred body (err x) h e = cc
  upload_with-Uploaded gid cred body (ok _) h e =
      upload_to-Uploaded gid cred body (Map.get tok h.files) h e

  upload_to-refused :
      (gid gid' : Bytes) (cred : MemberCred) (body body' : Bytes) (h : GroupHost)
      → Uploaded tok gid body h
      → (upload_to gid' cred tok body' (Map.get tok h.files) h).0 ≡ err denied
  upload_to-refused gid gid' cred body body' h v =
      let shut : may_upload gid' cred body' h.now v.slot ≡ false = ground (arith, v.full) in
      rw (v.found, shut) refl

  authorize_in-error :
      (cred : MemberCred) (o : Option GroupState)
      → (authorize_in crypto cred o ≡ ok tt) ⊎ (authorize_in crypto cred o ≡ err denied)
  authorize_in-error cred none = inr refl
  authorize_in-error cred (some g) = cred_live-error (Map.get cred.credential_id g.creds)
    where
      cred_live-error :
          (o : Option CredRecord)
          → (cred_live crypto cred.credential_secret o ≡ ok tt)
            ⊎ (cred_live crypto cred.credential_secret o ≡ err denied)
      cred_live-error none = inr refl
      cred_live-error (some rec) =
          elim (Bool-cases (rec.live && beq rec.secret (crypto.sha256 cred.credential_secret))) [
            | inl live ↦ inl (rw live refl)
            | inr shut ↦ inr (rw shut refl)
          ]

  -- The first upload of a file wins: after it, every other upload under the same token is denied, by
  -- whomever and to whatever group, and a live member of the group fetches the bytes of the first.
  pub upload_once :
      (gid gid' : Bytes) (cred other reader : MemberCred) (body body' : Bytes) (h : GroupHost)
      → (upload_file crypto gid cred tok body h).0 ≡ ok tt
      → authorize_live crypto gid reader (upload_file crypto gid cred tok body h).1 ≡ ok tt
      → ((upload_file crypto gid' other tok body' (upload_file crypto gid cred tok body h).1).0
          ≡ err denied)
        × (fetch_file crypto gid reader tok (upload_file crypto gid cred tok body h).1 ≡ ok body)
  unfolding upload_file fetch_file authorize_live
  upload_once gid gid' cred other reader body body' h done reads =
      let k = (upload_file crypto gid cred tok body h).1 in
      let v : Uploaded tok gid body k =
        upload_with-Uploaded gid cred body (authorize_live crypto gid cred h) h done in
      let mine : beq v.slot.group_id gid ≡ true = (beq_iff v.slot.group_id gid).1 v.whose in
      (
        elim (authorize_in-error other (Map.get gid' k.groups)) [
          | inl live ↦ rw live (upload_to-refused gid gid' other body body' k v)
          | inr shut ↦ rw shut refl
        ],
        rw (reads, v.found, v.full, mine, v.lasts) refl,
      )
