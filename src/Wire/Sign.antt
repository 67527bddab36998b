-- ===== src/Wire/Sign.antt =====
-- crates/nemo-wire/src/sign.rs: domain-separated signatures. Ed25519, SHA-256 and HPKE are parameters.
use nemo_messenger.Prelude.{
  ◌≡◌, refl, sym, ◌∙◌, ◌<◌, Bool, true, false, ◌||◌, Option, [], ◌∷◌, ◌++◌, arith, all, ltb, ◌==◌,
  if◌then◌else◌,
}
use nemo_messenger.Prelude.Bytes.{Bytes}
use nemo_messenger.Prelude.Result.{ok, err, ◌>>=◌}
use nemo_messenger.Wire.Error.{WireResult, cbor, signature}
use Prim.Native.Char.{code}
use Prim.Native.String.{String}

-- The primitives of ed25519-dalek, sha2 and hpke, as the code calls them. A public or secret key, a
-- digest and a signature are their bytes.
pub record Crypto : Type 0 where
  pub sha256 : Bytes → Bytes
  -- `SigningKey::verifying_key`
  pub public_key : Bytes → Bytes
  -- whether `VerifyingKey::from_bytes` accepts the bytes
  pub key_ok : Bytes → Bool
  pub sign_bytes : Bytes → Bytes → Bytes
  -- key, message, signature
  pub verify_bytes : Bytes → Bytes → Bytes → Bool
  -- `PublicKey::from_bytes`, `PrivateKey::from_bytes` and `EncappedKey::from_bytes` of the hpke crate
  pub kem_public_ok : Bytes → Bool
  pub kem_secret_ok : Bytes → Bool
  pub kem_enc_ok : Bytes → Bool
  -- `single_shot_seal_with_rng` in base mode: what the generator yields, public key, info, plaintext and
  -- associated data, to the encapsulated key and the ciphertext
  pub seal_base : Bytes → Bytes → Bytes → Bytes → Bytes → Option (Bytes × Bytes)
  -- `single_shot_open` in base mode: secret key, encapsulated key, info, ciphertext, associated data
  pub open_base : Bytes → Bytes → Bytes → Bytes → Bytes → Option Bytes

-- The bytes of an ASCII text.
abbrev pub ascii : String → Bytes
ascii String.[] = []
ascii (String.◌∷◌ c s) = code c ∷ ascii s

abbrev pub context_prefix : Bytes
context_prefix = ascii "nemo-v1/"

abbrev pub home_server_binding : Bytes
home_server_binding = ascii "home-server-binding"

abbrev pub prekey : Bytes
prekey = ascii "prekey"

abbrev pub group_invite : Bytes
group_invite = ascii "group-invite"

abbrev pub group_admit : Bytes
group_admit = ascii "group-admit"

abbrev pub invitee_proof : Bytes
invitee_proof = ascii "invitee-proof"

abbrev pub remove_sidecar : Bytes
remove_sidecar = ascii "remove-sidecar"

abbrev pub signing_key_replace : Bytes
signing_key_replace = ascii "signing-key-replace"

abbrev pub server_response : Bytes
server_response = ascii "server-response"

abbrev pub revocation : Bytes
revocation = ascii "revocation"

abbrev pub server_bundle : Bytes
server_bundle = ascii "server-bundle"

abbrev pub server_sign_rotate : Bytes
server_sign_rotate = ascii "server-sign-rotate"

abbrev pub mailbox_owner : Bytes
mailbox_owner = ascii "mailbox-owner"

abbrev has_slash : Bytes → Bool
has_slash [] = false
has_slash (b ∷ bs) = b == b'/' || has_slash bs

abbrev is_empty : Bytes → Bool
is_empty [] = true
is_empty _ = false

unfoldable pub message : Bytes → Bytes → WireResult Bytes
message context payload =
    if is_empty context
      || (has_slash context || (if all (λ b. ltb b 128) context then false else true))
    then err (cbor "invalid signature context")
    else ok (context_prefix ++ (context ++ (0 ∷ payload)))

module _ (crypto : Crypto) where
  unfoldable pub sign : Bytes → Bytes → Bytes → WireResult Bytes
  unfolding message
  sign secret context payload = do msg ← message context payload; ok (crypto.sign_bytes secret msg)

  unfoldable pub verify : Bytes → Bytes → Bytes → Bytes → WireResult (Unit {0})
  unfolding message
  verify pk context payload sig = do
    msg ← message context payload
    if crypto.verify_bytes pk msg sig then ok tt else err signature

-- A context with no NUL byte, as all of the code's are.
abbrev pub NoNul : Bytes → Type 0
NoNul [] = Unit
NoNul (b ∷ bs) = (0 < b) × NoNul bs

split_at_nul :
    (c d p q : Bytes) → NoNul c → NoNul d → c ++ (0 ∷ p) ≡ d ++ (0 ∷ q) → (c ≡ d) × (p ≡ q)
split_at_nul [] [] p q hc hd e = (cc, cc)
split_at_nul [] (y ∷ ys) p q hc hd e = ground arith
split_at_nul (x ∷ xs) [] p q hc hd e = ground arith
split_at_nul (x ∷ xs) (y ∷ ys) p q hc hd e =
    let later = split_at_nul xs ys p q hc.1 hd.1 (cc) in (cc, later.1)

message_ok : (c p : Bytes) {m : Bytes} → message c p ≡ ok m → context_prefix ++ (c ++ (0 ∷ p)) ≡ m
unfolding message
message_ok c p e = ground arith

-- Signed messages are domain separated: two of them are equal only if their contexts and their payloads
-- are. The contexts hold no NUL byte.
pub message_injective :
    (c d p q m : Bytes)
    → NoNul c
    → NoNul d
    → message c p ≡ ok m
    → message d q ≡ ok m
    → (c ≡ d) × (p ≡ q)
unfolding message
message_injective c d p q m hc hd ep eq =
    let both : context_prefix ++ (c ++ (0 ∷ p)) ≡ context_prefix ++ (d ++ (0 ∷ q)) =
      message_ok c p ep ∙ sym (message_ok d q eq) in
    split_at_nul c d p q hc hd (cc)

-- A secret key whose signatures hold under its public key, as Ed25519 documents.
pub record IsSigner (crypto : Crypto) (secret : Bytes) : Type 0 where
  pub holds :
      (m : Bytes)
      → crypto.verify_bytes (crypto.public_key secret) m (crypto.sign_bytes secret m) ≡ true

-- What was signed in a context verifies in that context.
pub verify-sign :
    (crypto : Crypto) (secret c p : Bytes) {sig : Bytes}
    → IsSigner crypto secret
    → sign crypto secret c p ≡ ok sig
    → verify crypto (crypto.public_key secret) c p sig ≡ ok tt
unfolding sign verify
verify-sign crypto secret c p {sig} w e = after (message c p) e
  where
    after :
        (r : WireResult Bytes)
        → (r >>= λ msg. ok (crypto.sign_bytes secret msg)) ≡ ok sig
        → (r >>= λ msg.
            if crypto.verify_bytes (crypto.public_key secret) msg sig then ok tt else err signature)
          ≡ ok tt
    after (ok m) h = let same : crypto.sign_bytes secret m ≡ sig = cc in rw (← same, w.holds m) refl
    after (err _) h = cc
