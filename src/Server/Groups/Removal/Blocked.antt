-- ===== src/Server/Groups/Removal/Blocked.antt =====
-- A member to whose home nothing can be sealed stops every append to the group
-- (crates/nemo-server/src/group.rs, `fanout_copy` and `append_remove`).
use nemo_messenger.Prelude.{
  ℕ, suc, ◌≡◌, ◌≢◌, refl, ◌⊎◌, true, false, Option, none, some, List, [], ◌∷◌, length, ltb,
  saturating_add, arith, Bool-cases, inl, inr,
}
use nemo_messenger.Prelude.Bytes.{Bytes, beq}
use nemo_messenger.Prelude.Map
use nemo_messenger.Prelude.Map.{Map}
use nemo_messenger.Prelude.Result.{ok, err, ◌>>=◌}
use nemo_messenger.Wire.Error.{WireResult}
use nemo_messenger.Wire.Sign.{Crypto}
use nemo_messenger.Wire.Envelope.{MessageType, remove_bundle, OuterEnvelope}
use nemo_messenger.Server.Error.{ServerResult}
use nemo_messenger.Server.Groups.Append.{append}
use nemo_messenger.Server.Groups.Removal.{group-fanout_copy}
use nemo_messenger.Server.Groups.{
  stream_max_bytes, FanoutTarget, MemberCred, StreamAppend, CredRecord, GroupState, GroupHost,
  authorize_live,
}
use nemo_messenger.Server.Groups.Stream.{
  Draw, add_target, target_of, targets, pushed, with_copies, seal_copy, seal_copies, fanout_copy,
  remove_checks, append_remove, after_copy,
}

abbrev Has : FanoutTarget → List FanoutTarget → Type 0
Has t [] = ⊥
Has t (x ∷ xs) = (x ≡ t) ⊎ Has t xs

Has-add_target :
    (t : FanoutTarget) (o : Option FanoutTarget) (xs : List FanoutTarget)
    → Has t xs
    → Has t (add_target o xs)
Has-add_target t none xs h = h
Has-add_target t (some x) xs h = inr h

-- The copies go to every live member with a fan-out entry.
targets_have :
    (t : FanoutTarget) (cid : Bytes) (rec : CredRecord) (creds : Map CredRecord)
    → Map.get cid creds ≡ some rec
    → rec.live ≡ true
    → rec.fanout ≡ some t
    → Has t (targets creds)
unfolding Map.get targets
targets_have t cid rec [] e l f = cc
targets_have t cid rec ((j, x) ∷ creds) e l f = elim (Bool-cases (beq j cid)) [
  | inl mine ↦ let same : x ≡ rec = ground arith in rw (same, l, f) (inl refl)
  | inr other ↦
      Has-add_target t (target_of x) (targets creds)
        (targets_have t cid rec creds (rw other at e) l f)
]

both_sealed :
    (m : WireResult OuterEnvelope) (r : WireResult (List OuterEnvelope))
    {outers : List OuterEnvelope}
    → (m >>= λ o. r >>= λ os. ok (o ∷ os)) ≡ ok outers
    → (o : OuterEnvelope) × (os : List OuterEnvelope) × (m ≡ ok o) × (r ≡ ok os)
both_sealed (ok o) (ok os) e = (o, os, refl, refl)
both_sealed (ok o) (err y) e = cc
both_sealed (err x) r e = cc

module _ (crypto : Crypto) where
  -- No copy for the target can be sealed: its key is one that HPKE refuses.
  abbrev pub Unsealable : FanoutTarget → Type 0
  Unsealable t =
      (draw : Draw) (type : MessageType) (body : Bytes) (outer : OuterEnvelope)
      → seal_copy crypto draw t type body ≢ ok outer

  seal_copies-fails :
      (draws : ℕ → Draw) (k : ℕ) (t : FanoutTarget) (ts : List FanoutTarget) (type : MessageType)
      (body : Bytes) (outers : List OuterEnvelope)
      → Unsealable t
      → Has t ts
      → seal_copies crypto draws k ts type body ≢ ok outers
  unfolding seal_copies
  seal_copies-fails draws k t [] type body outers bad h = elim h [ ]
  seal_copies-fails draws k t (x ∷ ts) type body outers bad h = λ e.
      let (o, os, here, later) =
        both_sealed (seal_copy crypto (draws k) x type body)
          (seal_copies crypto draws (suc k) ts type body) e in
      elim h [
        | inl same ↦ bad (draws k) type body o (rw same at here)
        | inr further ↦ seal_copies-fails draws (suc k) t ts type body os bad further later
      ]

  with_copies-fails :
      (seq : ℕ) (r : WireResult (List OuterEnvelope)) (out : StreamAppend)
      → ((outers : List OuterEnvelope) → r ≢ ok outers)
      → with_copies seq r ≢ ok out
  with_copies-fails seq (ok outers) out bad = λ e. bad outers refl
  with_copies-fails seq (err x) out bad = λ e. cc

  -- The group has a live member to whose home nothing can be sealed.
  pub record HasUnsealable (g : GroupState) : Type 0 where
    pub cid : Bytes
    pub member : CredRecord
    pub target : FanoutTarget
    pub known : Map.get cid g.creds ≡ some member
    pub live : member.live ≡ true
    pub fanout : member.fanout ≡ some target
    pub refused : Unsealable target

  -- The fan-out fails, and has stored the row.
  fanout_copy-blocked :
      (draws : ℕ → Draw) (gid : Bytes) (type : MessageType) (body : Bytes) (g : GroupState)
      (h : GroupHost) (out : StreamAppend)
      → Map.get gid h.groups ≡ some g
      → ltb stream_max_bytes (saturating_add g.bytes (length body)) ≡ false
      → HasUnsealable g
      → (fanout_copy crypto draws gid type body h).0 ≢ ok out
  unfolding fanout_copy
  fanout_copy-blocked draws gid type body g h out found fits v =
      rw (found, fits)
        (with_copies-fails g.next_seq (seal_copies crypto draws 0 (targets g.creds) type body) out
          λ outers.
            seal_copies-fails draws 0 v.target (targets g.creds) type body outers v.refused
              (targets_have v.target v.cid v.member g.creds v.known v.live v.fanout))

  after_copy-fails :
      (gid cid : Bytes) (r : ServerResult StreamAppend) (k : GroupHost)
      → ((out : StreamAppend) → r ≢ ok out)
      → ((out : StreamAppend) → (after_copy gid cid (r, k)).0 ≢ ok out)
        × ((after_copy gid cid (r, k)).1 ≡ k)
  after_copy-fails gid cid (ok x) k bad = absurd (bad x refl)
  after_copy-fails gid cid (err x) k bad = (λ out e. cc, refl)

  -- A live member with a fan-out key that HPKE refuses keeps everybody in: a member's valid remove bundle,
  -- whomever it names, ends in an error. Its row is stored all the same, and the credentials stay as they
  -- were.
  pub removal_blocked :
      (draws : ℕ → Draw) (gid : Bytes) (cred : MemberCred) (body named : Bytes) (g : GroupState)
      (h : GroupHost)
      → Map.get gid h.groups ≡ some g
      → HasUnsealable g
      → ltb stream_max_bytes (saturating_add g.bytes (length body)) ≡ false
      → authorize_live crypto gid cred h ≡ ok tt
      → remove_checks crypto gid cred.credential_id body h ≡ ok named
      → ((out : StreamAppend) → (append crypto draws gid cred remove_bundle body h).0 ≢ ok out)
        × (Map.get gid (append crypto draws gid cred remove_bundle body h).1.groups
            ≡ some (pushed h.now remove_bundle body g))
  unfolding append append_remove
  removal_blocked draws gid cred body named g h found v fits auth checks =
      let copy = fanout_copy crypto draws gid remove_bundle body h in
      let (fails, same) =
        after_copy-fails gid named copy.0 copy.1
          (λ out. fanout_copy-blocked draws gid remove_bundle body g h out found fits v) in
      rw (auth, checks)
        (fails, rw same (group-fanout_copy crypto draws gid remove_bundle body g h found fits))
