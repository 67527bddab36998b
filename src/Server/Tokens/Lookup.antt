-- ===== src/Server/Tokens/Lookup.antt =====
-- Looking up tokens (crates/nemo-server/src/home.rs) after each change of the list.
use nemo_messenger.Prelude.{
  ◌≡◌, refl, false, Option-cases, inl, inr, none, some, List, [], ◌∷◌, ◌++◌, arith, if◌then◌else◌,
}
use nemo_messenger.Prelude.Bytes.{Bytes, beq, beq_iff}
use nemo_messenger.Prelude.KeySet
use nemo_messenger.Server.Tokens.{
  TokenKind, Tokens, token, set_token, without, without_owner, belongs_to,
}

-- Writing through `token_mut` changes what that key finds, and no other.
pub token-set_token :
    (want j : Bytes) (v : TokenKind) (ts : Tokens) {old : TokenKind}
    → token want ts ≡ some old
    → token j (set_token want v ts) ≡ (if beq want j then some v else token j ts)
unfolding token set_token
token-set_token want j v [] {old} e = cc
token-set_token want j v ((k, w) ∷ ts) {old} e = elim (Option-cases (token want ts)) [
  | inl missing ↦ ground (arith, beq_iff want j, beq_iff k want, beq_iff k j)
  | inr (found, there) ↦
      ground (arith, beq_iff want j, beq_iff k want, beq_iff k j, token-set_token want j v ts there)
]

-- A token that is pushed is what its key finds, whatever the key found before; the others find the same.
pub token-push :
    (j k : Bytes) (v : TokenKind) (ts : Tokens)
    → token j (ts ++ ((k, v) ∷ [])) ≡ (if beq k j then some v else token j ts)
unfolding token
token-push j k v [] = refl
token-push j k v ((i, w) ∷ ts) = ground (arith, token-push j k v ts)

-- After the removal of some keys, those find nothing and the others what they found before.
pub token-without :
    (j : Bytes) (gone : List Bytes) (ts : Tokens)
    → token j (without gone ts) ≡ (if KeySet.has j gone then none else token j ts)
unfolding token without
token-without j gone [] = ground arith
token-without j gone ((k, v) ∷ ts) = ground (arith, beq_iff k j, token-without j gone ts)

-- No token of an owner is left after `retain` by owner.
pub token-without_owner :
    (j owner : Bytes) (ts : Tokens) {v : TokenKind}
    → token j (without_owner owner ts) ≡ some v
    → belongs_to owner v ≡ false
unfolding token without_owner
token-without_owner j owner [] {v} e = cc
token-without_owner j owner ((k, w) ∷ ts) {v} e =
    elim (Option-cases (token j (without_owner owner ts))) [
      | inl missing ↦ ground arith
      | inr (u, found) ↦ let later = token-without_owner j owner ts found in ground arith
    ]
