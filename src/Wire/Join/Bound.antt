-- ===== src/Wire/Join/Bound.antt =====
-- Who a bound invite lets in (crates/nemo-wire/src/join.rs, `verify_bound_invite`).
use nemo_messenger.Prelude.{
  ◌≡◌, refl, ap, sym, ◌∙◌, Bool, true, false, some, ◌++◌, length, take, arith, if◌then◌else◌,
  take-append_eq,
}
use nemo_messenger.Prelude.Bytes.{Bytes, beq, beq_iff, beq_refl}
use nemo_messenger.Prelude.Result.{ok, err, ◌>>◌, fail_if, bind_success}
use nemo_messenger.Wire.Error.{WireResult, WireError, cbor, signature}
use nemo_messenger.Wire.Ids.{key_len}
use nemo_messenger.Wire.Sign.{Crypto, IsSigner, invitee_proof, sign, verify-sign}
use nemo_messenger.Wire.Join.{
  GroupInvite, InviteeProof, check_bound, invitee_binding, proof_payload, proof_sign, proof_verify,
  verify_bound_invite,
}

last_check :
    (b b' : Bool) (e e' : WireError) (m : WireResult (Unit {0}))
    → (fail_if b e >> (m >> fail_if b' e')) ≡ ok tt
    → b' ≡ false
last_check true b' e e' m h = cc
last_check false b' e e' (err x) h = cc
last_check false true e e' (ok x) h = cc
last_check false false e e' (ok x) h = refl

module _ (crypto : Crypto) where
  -- Passing the check means that the key with the invite's salt has the hash that the invite names.
  bound_hash :
      (i : GroupInvite) (p : InviteeProof) (pk want salt : Bytes)
      → i.binding ≡ some want
      → i.salt ≡ some salt
      → verify_bound_invite crypto i p pk ≡ ok tt
      → invitee_binding crypto pk salt ≡ want
  unfolding verify_bound_invite
  bound_hash i p pk want salt eb es h =
      let checked : check_bound crypto i p pk (some want) (some salt) ≡ ok tt = rw (eb, es) at h in
      let equal =
        last_check (if beq p.group_id i.group_id then false else true)
          (if beq (invitee_binding crypto pk salt) want then false else true)
          (cbor "proof group_id mismatch") signature (proof_verify crypto p pk) checked in
      (beq_iff (invitee_binding crypto pk salt) want).0 (ground arith)

  -- A bound invite lets in one identity: two keys of 32 bytes that pass the check with it are the same,
  -- whatever proofs they bring. The hash does not collide on them.
  pub bound_invite-one_identity :
      (i : GroupInvite) (p q : InviteeProof) (pk pk' want salt : Bytes)
      → i.binding ≡ some want
      → i.salt ≡ some salt
      → length pk ≡ key_len
      → length pk' ≡ key_len
      → (crypto.sha256 (pk ++ salt) ≡ crypto.sha256 (pk' ++ salt) → pk ++ salt ≡ pk' ++ salt)
      → verify_bound_invite crypto i p pk ≡ ok tt
      → verify_bound_invite crypto i q pk' ≡ ok tt
      → pk ≡ pk'
  bound_invite-one_identity i p q pk pk' want salt eb es hl hl' no_collision hp hq =
      let same =
        no_collision
          (bound_hash i p pk want salt eb es hp ∙ sym (bound_hash i q pk' want salt eb es hq)) in
      sym (take-append_eq key_len pk salt hl)
      ∙ (ap (take key_len) same ∙ take-append_eq key_len pk' salt hl')

  -- The invitee that an invite is bound to passes the check, with a proof for any admission to the
  -- invite's group.
  pub verify_bound_invite-proof_sign :
      (i : GroupInvite) (secret salt pending_id : Bytes) {p : InviteeProof}
      → IsSigner crypto secret
      → i.binding ≡ some (invitee_binding crypto (crypto.public_key secret) salt)
      → i.salt ≡ some salt
      → proof_sign crypto secret i.group_id pending_id ≡ ok p
      → verify_bound_invite crypto i p (crypto.public_key secret) ≡ ok tt
  unfolding verify_bound_invite proof_sign proof_verify
  verify_bound_invite-proof_sign i secret salt pending_id {p} w eb es h =
      let pk = crypto.public_key secret in
      let made : Bytes → InviteeProof =
        λ sig. record { group_id = i.group_id; pending_id = pending_id; signature = sig } in
      let (sig, (same, signed)) =
        bind_success (sign crypto secret invitee_proof (proof_payload i.group_id pending_id))
          (λ sig. ok (made sig)) (sym h) in
      let verified =
        verify-sign crypto secret invitee_proof (proof_payload i.group_id pending_id) w signed in
      let form : made sig ≡ p = cc in
      rw (eb, es)
        (rw (← form)
          (rw (beq_refl i.group_id, verified, beq_refl (invitee_binding crypto pk salt)) refl))
