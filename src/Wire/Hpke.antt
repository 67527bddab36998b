-- ===== src/Wire/Hpke.antt =====
-- crates/nemo-wire/src/hpke.rs: sealing an inner envelope to a server. RFC 9180 itself is a parameter.
use nemo_messenger.Prelude.{
  ℕ, ◌≡◌, sym, true, false, some, ◌∷◌, ◌++◌, length, take, drop, ltb, if◌then◌else◌, arith,
  length-append, Option-cases, take-append_eq, drop-append_eq, inl, inr,
}
use nemo_messenger.Prelude.Bytes.{Bytes, beq, beq_refl}
use nemo_messenger.Prelude.Result.{ok, ◌>>=◌, ◌>>◌, fail_if, ok_or, bind_success}
use nemo_messenger.Wire.Error.{WireResult, hpke, server_id_mismatch}
use nemo_messenger.Wire.Ids.{protocol_version, copy_fixed}
use nemo_messenger.Wire.Sign.{Crypto, ascii}
use nemo_messenger.Wire.Envelope.{
  InnerEnvelope, OuterEnvelope, is_attachment, encode_padded, decode_padded,
}
use nemo_messenger.Wire.Envelope.Padding.{padded_body}
use nemo_messenger.Wire.Envelope.Inner.{IsInner}
use nemo_messenger.Wire.Envelope.RoundTrip.{IsTight, decode-encode_padded_text}

abbrev pub info : Bytes
info = ascii "nemo-v1/s2s-inner"

abbrev pub encap_len : ℕ
encap_len = 32

unfoldable pub encap_key : Bytes → WireResult Bytes
unfolding copy_fixed
encap_key ciphertext = do
  fail_if (ltb (length ciphertext) encap_len) (hpke "truncated enc")
  copy_fixed encap_len (take encap_len ciphertext)

pub record HpkeKeypair : Type 0 where
  pub public : Bytes
  pub secret : Bytes

abbrev pub aad : Bytes → Bytes
aad destination_server_id = protocol_version ∷ destination_server_id

module _ (crypto : Crypto) where
  -- `HpkeKeypair::server_id`
  abbrev pub keypair_server_id : HpkeKeypair → Bytes
  keypair_server_id k = crypto.sha256 k.public

  -- `rng` is what the random generator yields.
  unfoldable pub hpke_seal : Bytes → Bytes → Bytes → Bytes → WireResult Bytes
  hpke_seal rng recipient_pk destination_server_id plaintext = do
    fail_if (if crypto.kem_public_ok recipient_pk then false else true) (hpke "recipient pk")
    (enc, ct) ←
        ok_or (crypto.seal_base rng recipient_pk info plaintext (aad destination_server_id))
          (hpke "seal")
    ok (enc ++ ct)

  unfoldable pub hpke_open : Bytes → Bytes → Bytes → WireResult Bytes
  hpke_open recipient_sk destination_server_id ciphertext = do
    fail_if (ltb (length ciphertext) encap_len) (hpke "truncated enc")
    fail_if (if crypto.kem_secret_ok recipient_sk then false else true) (hpke "recipient sk")
    let enc = take encap_len ciphertext
    fail_if (if crypto.kem_enc_ok enc then false else true) (hpke "encapped key")
    ok_or
        (crypto.open_base recipient_sk enc info (drop encap_len ciphertext)
          (aad destination_server_id))
        (hpke "open")

  unfoldable pub seal_to_server : Bytes → Bytes → InnerEnvelope → WireResult OuterEnvelope
  unfolding hpke_seal
  seal_to_server rng recipient_pk inner = do
    let dest = crypto.sha256 recipient_pk
    plaintext ← encode_padded inner
    hpke_ciphertext ← hpke_seal rng recipient_pk dest plaintext
    ok (record { destination_server_id = dest; hpke_ciphertext = hpke_ciphertext })

  unfoldable pub open_outer : HpkeKeypair → OuterEnvelope → WireResult InnerEnvelope
  unfolding hpke_open
  open_outer recipient outer = do
    fail_if (if beq outer.destination_server_id (keypair_server_id recipient) then false else true)
        server_id_mismatch
    plaintext ← hpke_open recipient.secret outer.destination_server_id outer.hpke_ciphertext
    decode_padded plaintext

  -- What RFC 9180 documents of a key pair: its halves parse, an encapsulated key has 32 bytes and
  -- parses, and opening inverts sealing under the same info and associated data.
  pub record IsKeypair (k : HpkeKeypair) : Type 0 where
    pub public_ok : crypto.kem_public_ok k.public ≡ true
    pub secret_ok : crypto.kem_secret_ok k.secret ≡ true
    pub enc :
        (rng i p a : Bytes) {e c : Bytes}
        → crypto.seal_base rng k.public i p a ≡ some (e, c)
        → (length e ≡ encap_len) × (crypto.kem_enc_ok e ≡ true)
    pub opens :
        (rng i p a : Bytes) {e c : Bytes}
        → crypto.seal_base rng k.public i p a ≡ some (e, c)
        → crypto.open_base k.secret e i c a ≡ some p

  sealed :
      (k : HpkeKeypair) (rng dest p : Bytes) {c : Bytes}
      → IsKeypair k
      → hpke_seal rng k.public dest p ≡ ok c
      → (enc : Bytes) × (ct : Bytes) × (crypto.seal_base rng k.public info p (aad dest)
          ≡ some (enc, ct))
        × (enc ++ ct ≡ c)
  unfolding hpke_seal
  sealed k rng dest p {c} w h =
      elim (Option-cases (crypto.seal_base rng k.public info p (aad dest))) [
        | inl e ↦ let h' = rw (w.public_ok, e, ok_or) at h in cc
        | inr ((enc, ct), e) ↦ let h' = rw (w.public_ok, e, ok_or) at h in (enc, ct, e, (cc))
      ]

  -- What was sealed to a server is opened there as what was sealed.
  pub hpke_open-hpke_seal :
      (k : HpkeKeypair) (rng dest p : Bytes) {c : Bytes}
      → IsKeypair k
      → hpke_seal rng k.public dest p ≡ ok c
      → hpke_open k.secret dest c ≡ ok p
  unfolding hpke_open
  hpke_open-hpke_seal k rng dest p {c} w h =
      let (enc, ct, e, same) = sealed k rng dest p w h in
      let (size, parses) = w.enc rng info p (aad dest) e in
      let long : ltb (length (enc ++ ct)) encap_len ≡ false = rw length-append (ground arith) in
      rw (← same) (
        rw
          (
            long,
            w.secret_ok,
            take-append_eq encap_len enc ct size,
            drop-append_eq encap_len enc ct size,
          )
          (rw (parses, w.opens rng info p (aad dest) e)))

  -- A text message that was sealed to a server's key is opened there as the envelope that was sealed,
  -- its body padded. Its body does not end in zeros that fill the bytes past a smaller bucket.
  pub open_outer-seal_to_server :
      (k : HpkeKeypair) (rng : Bytes) (e : InnerEnvelope) {outer : OuterEnvelope}
      → IsKeypair k
      → IsInner e
      → is_attachment e.padded_message.type ≡ false
      → IsTight e.padded_message
      → seal_to_server rng k.public e ≡ ok outer
      → open_outer k outer
        ≡ ok (record e {
          padded_message = record e.padded_message { body = padded_body e.padded_message };
        })
  unfolding seal_to_server open_outer
  open_outer-seal_to_server k rng e {outer} w v h tight sent =
      let (plain, (s1, ep)) = bind_success (encode_padded e) _ (sym sent) in
      let (c, (s2, ec)) =
        bind_success (hpke_seal rng k.public (crypto.sha256 k.public) plain) _ (sym s1) in
      let dest : beq (crypto.sha256 k.public) (keypair_server_id k) ≡ true =
        beq_refl (crypto.sha256 k.public) in
      let same : outer
          ≡ record { destination_server_id = crypto.sha256 k.public; hpke_ciphertext = c } =
        cc in
      rw (same) (
        rw (dest, hpke_open-hpke_seal k rng (crypto.sha256 k.public) plain w ec)
          (decode-encode_padded_text e plain v h tight ep))
