-- ===== src/Wire/Join/RoundTrip.antt =====
-- Invites, admissions and proofs come back from their encoding (crates/nemo-wire/src/join.rs).
use nemo_messenger.Prelude.{◌<◌, ◌≡◌, refl, true, Option, none, some, arith}
use nemo_messenger.Prelude.Bytes.{Bytes, IsArray, beq}
use nemo_messenger.Prelude.Result.{ok}
use nemo_messenger.Wire.Ids.{key_len, sig_len, copy_fixed, copy_fixed_exact}
use nemo_messenger.Wire.Cbor.{Pairs, map, end, pair, bytes, u64_mod}
use nemo_messenger.Wire.Cbor.Utf8.{utf8_valid}
use nemo_messenger.Wire.Cbor.Canonical.{IsWire}
use nemo_messenger.Wire.Fields.{decode_map-encode}
use nemo_messenger.Wire.Sign.{ascii}
use nemo_messenger.Wire.Join.{
  GroupInvite, invite_pairs, invite_encode, invite_from, invite_decode, GroupAdmit, admit_pairs,
  admit_encode, admit_decode, InviteeProof, proof_pairs, proof_encode, proof_decode,
}

abbrev pub IsKey : Option Bytes → Type 0
IsKey none = Unit
IsKey (some b) = IsArray key_len b

-- What the Rust types of the fields promise.
pub record IsInvite (i : GroupInvite) : Type 0 where
  pub group_id : IsArray key_len i.group_id
  pub nonce : IsArray key_len i.nonce
  pub ttl_secs : i.ttl_secs < u64_mod
  pub binding : IsKey i.binding
  pub salt : IsKey i.salt
  pub signature : IsArray sig_len i.signature

-- The map of an invite, with its signature.
abbrev signed_pairs : GroupInvite → Pairs
signed_pairs i = invite_pairs i (pair 6 (bytes i.signature) end)

module _ (i : GroupInvite) (w : IsInvite i) where
  abbrev with_binding : Option Bytes → Option Bytes → GroupInvite
  with_binding b s = record i { binding = b; salt = s }

  pairs_IsWire :
      (b s : Option Bytes) → IsKey b → IsKey s → IsWire (map (signed_pairs (with_binding b s)))
  pairs_IsWire none none hb hs = ground arith
  pairs_IsWire none (some s) hb hs = ground arith
  pairs_IsWire (some b) none hb hs = ground arith
  pairs_IsWire (some b) (some s) hb hs = ground arith

  fields_read :
      (b s : Option Bytes)
      → IsKey b
      → IsKey s
      → invite_from (signed_pairs (with_binding b s)) ≡ ok (with_binding b s)
  unfolding invite_from
  fields_read b s hb hs =
      let group = copy_fixed_exact key_len i.group_id w.group_id.1 in
      let once = copy_fixed_exact key_len i.nonce w.nonce.1 in
      let sig = copy_fixed_exact sig_len i.signature w.signature.1 in
      optional b s hb hs group once sig
    where
      optional :
          (b s : Option Bytes)
          → IsKey b
          → IsKey s
          → copy_fixed key_len i.group_id ≡ ok i.group_id
          → copy_fixed key_len i.nonce ≡ ok i.nonce
          → copy_fixed sig_len i.signature ≡ ok i.signature
          → invite_from (signed_pairs (with_binding b s)) ≡ ok (with_binding b s)
      optional none none hb hs g n e = rw (g, n, e) refl
      optional none (some s) hb hs g n e = rw (g, n, copy_fixed_exact key_len s hs.1, e) refl
      optional (some b) none hb hs g n e = rw (g, n, copy_fixed_exact key_len b hb.1, e) refl
      optional (some b) (some s) hb hs g n e =
          rw (g, n, copy_fixed_exact key_len b hb.1, copy_fixed_exact key_len s hs.1, e) refl

-- An invite, bound to an invitee or not, comes back from its encoding.
pub invite_decode-invite_encode :
    (i : GroupInvite) → IsInvite i → invite_decode (invite_encode i) ≡ ok i
unfolding invite_encode invite_decode
invite_decode-invite_encode i w =
    rw
      (decode_map-encode "group-invite must be a map" (signed_pairs i)
        (pairs_IsWire i w i.binding i.salt w.binding w.salt))
      (fields_read i w i.binding i.salt w.binding w.salt)

pub record IsAdmit (a : GroupAdmit) : Type 0 where
  pub group_id : IsArray key_len a.group_id
  pub pending_id : IsArray key_len a.pending_id
  pub signature : IsArray sig_len a.signature

pub record IsProof (p : InviteeProof) : Type 0 where
  pub group_id : IsArray key_len p.group_id
  pub pending_id : IsArray key_len p.pending_id
  pub signature : IsArray sig_len p.signature

admit_utf8 : utf8_valid (ascii "admit") ≡ true
unfolding utf8_valid
admit_utf8 = refl

admit_IsWire :
    (a : GroupAdmit)
    → IsAdmit a
    → IsWire (map (admit_pairs a.group_id a.pending_id (pair 4 (bytes a.signature) end)))
admit_IsWire a w = ground (arith, admit_utf8)

-- An admission comes back from its encoding.
pub admit_decode-admit_encode : (a : GroupAdmit) → IsAdmit a → admit_decode (admit_encode a) ≡ ok a
unfolding admit_encode admit_decode beq
admit_decode-admit_encode a w =
    rw (decode_map-encode "group-admit must be a map" _ (admit_IsWire a w)) (
      rw (
        copy_fixed_exact key_len a.group_id w.group_id.1,
        copy_fixed_exact key_len a.pending_id w.pending_id.1,
        copy_fixed_exact sig_len a.signature w.signature.1,
      ))

proof_IsWire :
    (p : InviteeProof)
    → IsProof p
    → IsWire (map (proof_pairs p.group_id p.pending_id (pair 3 (bytes p.signature) end)))
proof_IsWire p w = ground arith

-- A proof comes back from its encoding.
pub proof_decode-proof_encode :
    (p : InviteeProof) → IsProof p → proof_decode (proof_encode p) ≡ ok p
unfolding proof_encode proof_decode
proof_decode-proof_encode p w =
    rw (decode_map-encode "invitee-proof must be a map" _ (proof_IsWire p w)) (
      rw (
        copy_fixed_exact key_len p.group_id w.group_id.1,
        copy_fixed_exact key_len p.pending_id w.pending_id.1,
        copy_fixed_exact sig_len p.signature w.signature.1,
      ))
