-- ===== src/Server/Groups/Refines/Streams.antt =====
-- Appending to a stream and handling its files refine the steps of a group
-- (crates/nemo-server/src/group.rs).
use nemo_messenger.Prelude.{
  ℕ, ◌+◌, ◌<◌, ◌≤◌, ◌^◌, ◌≡◌, refl, false, Option, none, some, length, ltb, saturating_add, add64,
  add64_within, arith, Bool-cases, Option-cases, inl, inr,
}
use nemo_messenger.Prelude.Bytes.{Bytes}
use nemo_messenger.Prelude.Map
use nemo_messenger.Prelude.Map.{Map, AllValues, get-AllValues, insert-AllValues}
use nemo_messenger.Prelude.Result.{ok, err}
use nemo_messenger.Wire.Sign.{Crypto}
use nemo_messenger.Wire.Envelope.{
  MessageType, double_ratchet, mls_app, attachment_dr, remove_bundle, signing_key_replace,
  attachment_reserve, revocation_statement, mls_handshake,
}
use nemo_messenger.Wire.Revocation.{RevocationStatement, revocation_encode}
use nemo_messenger.Wire.Bodies.{AttachmentReserve}
use nemo_messenger.Server.Error.{ServerResult}
use nemo_messenger.Server.Groups.{
  MemberCred, StreamAppend, CredRecord, StreamRow, GroupState, GroupHost, authorize_live,
  stream_max_bytes,
}
use nemo_messenger.Server.Groups.Stream.{
  Draw, dead, pushed, dropped, drop_with, drop_cred, after_copy, rekeyed, rekey_with, rekey,
  fanout_in, fanout_copy, append_host_revocation, remove_checks, remove_named, append_remove,
  replace_checks, replace_with, append_replace,
}
use nemo_messenger.Server.Groups.Files.{after_reserve, reserve_checks, reserve_with, append_reserve}
use nemo_messenger.Server.Groups.Append.{append_typed, append_authorized, append}
use nemo_messenger.Server.Groups.Steps.{adjust, shut_out, post, GroupPath, stay, one_step}
use nemo_messenger.Server.Groups.Refines.{Fates, same-Fates, put_group-Fates, trans_Fates}

-- What `pushed` does with the counters is plain addition while they have room.
pushed-path :
    (now : ℕ) (type : MessageType) (body : Bytes) (g : GroupState)
    → ltb stream_max_bytes (saturating_add g.bytes (length body)) ≡ false
    → g.next_seq + 1 < 2 ^ 64
    → GroupPath g (pushed now type body g)
pushed-path now type body g fits room =
    let row : StreamRow = record {
      seq = g.next_seq;
      type = type;
      body = body;
      received_at = now;
    } in
    let small : g.bytes + length body ≤ 2 ^ 31 = ground (arith, fits) in
    let next : add64 g.next_seq 1 ≡ g.next_seq + 1 = add64_within g.next_seq 1 room in
    let sum : saturating_add g.bytes (length body) ≡ g.bytes + length body = omega arith in
    rw (next, sum) (one_step g _ (post g row refl small))

-- The counter of every group has room for one more row.
abbrev pub Room : GroupHost → Type 0
Room h = AllValues (λ g. g.next_seq + 1 < 2 ^ 64) h.groups

dropped-path :
    (cid : Bytes) (o : Option CredRecord) (g : GroupState)
    → Map.get cid g.creds ≡ o
    → GroupPath g (dropped cid o g)
dropped-path cid none g e = stay
dropped-path cid (some rec) g e = one_step g _ (shut_out g cid rec (dead rec) e refl)

drop_with-Fates :
    (gid cid : Bytes) (o : Option GroupState) (h : GroupHost)
    → Map.get gid h.groups ≡ o
    → Fates h (drop_with gid cid o h)
drop_with-Fates gid cid none h same = same-Fates h h refl
drop_with-Fates gid cid (some g) h same =
    put_group-Fates gid g (dropped cid (Map.get cid g.creds) g) h same
      (dropped-path cid (Map.get cid g.creds) g refl)

after_copy-Fates :
    (gid named : Bytes) (r : ServerResult StreamAppend) (h : GroupHost)
    → Fates h (after_copy gid named (r, h)).1
unfolding drop_cred
after_copy-Fates gid named (err e) h = same-Fates h h refl
after_copy-Fates gid named (ok out) h = drop_with-Fates gid named (Map.get gid h.groups) h refl

rekeyed-path :
    (cid pk : Bytes) (o : Option CredRecord) (g : GroupState)
    → Map.get cid g.creds ≡ o
    → GroupPath g (rekeyed cid pk o g)
rekeyed-path cid pk none g e = stay
rekeyed-path cid pk (some rec) g e =
    one_step g _ (adjust g cid rec (record rec { signing_pk = some pk }) e refl)

rekey_with-Fates :
    (gid cid pk : Bytes) (o : Option GroupState) (h : GroupHost)
    → Map.get gid h.groups ≡ o
    → Fates h (rekey_with gid cid pk o h)
rekey_with-Fates gid cid pk none h same = same-Fates h h refl
rekey_with-Fates gid cid pk (some g) h same =
    put_group-Fates gid g (rekeyed cid pk (Map.get cid g.creds) g) h same
      (rekeyed-path cid pk (Map.get cid g.creds) g refl)

rekey-Room : (gid cid pk : Bytes) (h : GroupHost) → Room h → Room (rekey gid cid pk h)
unfolding rekey
rekey-Room gid cid pk h room = elim (Option-cases (Map.get gid h.groups)) [
  | inl missing ↦ rw missing room
  | inr (g, found) ↦
      let fits =
        get-AllValues (λ (g : GroupState). g.next_seq + 1 < 2 ^ 64) gid h.groups room found in
      rw found (
        insert-AllValues (λ (g : GroupState). g.next_seq + 1 < 2 ^ 64) gid
          (rekeyed cid pk (Map.get cid g.creds) g) h.groups
          (elim (Option-cases (Map.get cid g.creds)) [
            | inl unknown ↦ rw unknown fits
            | inr (rec, known) ↦ rw known fits
          ])
          room)
]

after_reserve-Fates :
    (gid cid : Bytes) (reserve : AttachmentReserve) (now : ℕ) (r : ServerResult StreamAppend)
    (h : GroupHost)
    → Fates h (after_reserve gid cid reserve now (r, h)).1
after_reserve-Fates gid cid reserve now (err e) h = same-Fates h h refl
after_reserve-Fates gid cid reserve now (ok out) h =
    same-Fates h (after_reserve gid cid reserve now (ok out, h)).1 refl

module _ (crypto : Crypto) (draws : ℕ → Draw) where
  fanout_in-Fates :
      (gid : Bytes) (type : MessageType) (body : Bytes) (o : Option GroupState) (h : GroupHost)
      → Map.get gid h.groups ≡ o
      → Room h
      → Fates h (fanout_in crypto draws gid type body o h).1
  fanout_in-Fates gid type body none h same room = same-Fates h h refl
  fanout_in-Fates gid type body (some g) h same room =
      elim (Bool-cases (ltb stream_max_bytes (saturating_add g.bytes (length body)))) [
        | inl full ↦ rw full (same-Fates h h refl)
        | inr fits ↦ rw fits (
            let room_here =
              get-AllValues (λ (g : GroupState). g.next_seq + 1 < 2 ^ 64) gid h.groups room same in
            put_group-Fates gid g (pushed h.now type body g) h same
              (pushed-path h.now type body g fits room_here))
      ]

  pub fanout_copy-Fates :
      (gid : Bytes) (type : MessageType) (body : Bytes) (h : GroupHost)
      → Room h
      → Fates h (fanout_copy crypto draws gid type body h).1
  unfolding fanout_copy
  fanout_copy-Fates gid type body h room =
      fanout_in-Fates gid type body (Map.get gid h.groups) h refl room

  pub append_host_revocation-Fates :
      (gid : Bytes) (stmt : RevocationStatement) (h : GroupHost)
      → Room h
      → Fates h (append_host_revocation crypto draws gid stmt h).1
  unfolding append_host_revocation
  append_host_revocation-Fates gid stmt h room =
      fanout_copy-Fates gid revocation_statement (revocation_encode stmt) h room

  remove_named-Fates :
      (gid body : Bytes) (r : ServerResult Bytes) (h : GroupHost)
      → Room h
      → Fates h (remove_named crypto draws gid body r h).1
  remove_named-Fates gid body (err e) h room = same-Fates h h refl
  remove_named-Fates gid body (ok named) h room =
      let out = fanout_copy crypto draws gid remove_bundle body h in
      trans_Fates h out.1 (after_copy gid named out).1
        (fanout_copy-Fates gid remove_bundle body h room) (after_copy-Fates gid named out.0 out.1)

  append_remove-Fates :
      (gid cid body : Bytes) (h : GroupHost)
      → Room h
      → Fates h (append_remove crypto draws gid cid body h).1
  unfolding append_remove
  append_remove-Fates gid cid body h room =
      remove_named-Fates gid body (remove_checks crypto gid cid body h) h room

  replace_with-Fates :
      (gid cid body : Bytes) (r : ServerResult Bytes) (h : GroupHost)
      → Room h
      → Fates h (replace_with crypto draws gid cid body r h).1
  unfolding rekey
  replace_with-Fates gid cid body (err e) h room = same-Fates h h refl
  replace_with-Fates gid cid body (ok pk) h room =
      let m = rekey gid cid pk h in
      trans_Fates h m (fanout_copy crypto draws gid signing_key_replace body m).1
        (rekey_with-Fates gid cid pk (Map.get gid h.groups) h refl)
        (fanout_copy-Fates gid signing_key_replace body m (rekey-Room gid cid pk h room))

  append_replace-Fates :
      (gid cid body : Bytes) (h : GroupHost)
      → Room h
      → Fates h (append_replace crypto draws gid cid body h).1
  unfolding append_replace
  append_replace-Fates gid cid body h room =
      replace_with-Fates gid cid body (replace_checks crypto gid cid body h) h room

  reserve_with-Fates :
      (gid cid body : Bytes) (r : ServerResult AttachmentReserve) (h : GroupHost)
      → Room h
      → Fates h (reserve_with crypto draws gid cid body r h).1
  reserve_with-Fates gid cid body (err e) h room = same-Fates h h refl
  reserve_with-Fates gid cid body (ok reserve) h room =
      let out = fanout_copy crypto draws gid attachment_reserve body h in
      trans_Fates h out.1 (after_reserve gid cid reserve h.now out).1
        (fanout_copy-Fates gid attachment_reserve body h room)
        (after_reserve-Fates gid cid reserve h.now out.0 out.1)

  append_typed-Fates :
      (gid cid : Bytes) (type : MessageType) (body : Bytes) (h : GroupHost)
      → Room h
      → Fates h (append_typed crypto draws gid cid type body h).1
  unfolding append_reserve
  append_typed-Fates gid cid remove_bundle body h room = append_remove-Fates gid cid body h room
  append_typed-Fates gid cid signing_key_replace body h room =
      append_replace-Fates gid cid body h room
  append_typed-Fates gid cid mls_handshake body h room =
      fanout_copy-Fates gid mls_handshake body h room
  append_typed-Fates gid cid mls_app body h room = fanout_copy-Fates gid mls_app body h room
  append_typed-Fates gid cid revocation_statement body h room =
      fanout_copy-Fates gid revocation_statement body h room
  append_typed-Fates gid cid attachment_reserve body h room =
      reserve_with-Fates gid cid body (reserve_checks gid body h) h room
  append_typed-Fates gid cid double_ratchet body h room = same-Fates h h refl
  append_typed-Fates gid cid attachment_dr body h room = same-Fates h h refl

  append_authorized-Fates :
      (gid cid : Bytes) (type : MessageType) (body : Bytes) (r : ServerResult (Unit {0}))
      (h : GroupHost)
      → Room h
      → Fates h (append_authorized crypto draws gid cid type body r h).1
  append_authorized-Fates gid cid type body (err e) h room = same-Fates h h refl
  append_authorized-Fates gid cid type body (ok _) h room =
      append_typed-Fates gid cid type body h room

  pub append-Fates :
      (gid : Bytes) (cred : MemberCred) (type : MessageType) (body : Bytes) (h : GroupHost)
      → Room h
      → Fates h (append crypto draws gid cred type body h).1
  unfolding append
  append-Fates gid cred type body h room =
      append_authorized-Fates gid cred.credential_id type body (authorize_live crypto gid cred h) h
        room
