-- ===== src/Server/Groups/Removal.antt =====
-- What a remove bundle does to the member that it names (crates/nemo-server/src/group.rs).
pub mod Blocked
use nemo_messenger.Prelude.{
  ℕ, ◌≡◌, refl, sym, ap, ◌∙◌, Bool, true, false, Option, none, some, length, ltb, saturating_add,
  arith, Bool-cases, inl, inr,
}
use nemo_messenger.Prelude.Bytes.{Bytes}
use nemo_messenger.Prelude.Map
use nemo_messenger.Prelude.Map.{AllValues, get-insert_self}
use nemo_messenger.Prelude.Result.{ok, err, ◌>>=◌, ◌>>◌, bind_success}
use nemo_messenger.Wire.Sign.{Crypto}
use nemo_messenger.Wire.Error.{WireResult}
use nemo_messenger.Wire.Envelope.{MessageType, remove_bundle, OuterEnvelope}
use nemo_messenger.Wire.Bodies.{RemoveBundle, remove_decode, verify_sidecar}
use nemo_messenger.Server.Error.{ServerResult, denied, from_wire}
use nemo_messenger.Server.Groups.{
  MemberCred, StreamAppend, CredRecord, GroupState, GroupHost, new_host, put_cred, authorize_live,
  checked_key, signing_pk, stream_max_bytes,
}
use nemo_messenger.Server.Groups.Stream.{
  Draw, pushed, with_copies, seal_copies, targets, fanout_in, fanout_copy, remove_checks,
  remove_named, append_remove, after_copy, drop_cred, dead,
}
use nemo_messenger.Server.Groups.Append.{append, append_authorized}
use nemo_messenger.Server.Groups.Steps.{GroupPath}
use nemo_messenger.Server.Groups.Steps.Gone.{IsOther, Gone, GroupPath-Gone}
use nemo_messenger.Server.Groups.Steps.Fair.{live-not_waiting}
use nemo_messenger.Server.Groups.Reach.{Runs, Runs-Fates, fate_of_some, reachable-Fair}

-- The group after its member has gone.
record HasGone (gid cid : Bytes) (h : GroupHost) : Type 0 where
  group : GroupState
  found : Map.get gid h.groups ≡ some group
  gone : Gone cid group

drop_cred-HasGone :
    (gid cid : Bytes) (g : GroupState) (rec : CredRecord) (h : GroupHost)
    → Map.get gid h.groups ≡ some g
    → Map.get cid g.creds ≡ some rec
    → AllValues (IsOther cid) g.pending
    → HasGone gid cid (drop_cred gid cid h)
unfolding drop_cred
drop_cred-HasGone gid cid g rec h found known other =
    let k = put_cred cid (dead rec) g in
    rw (found, known)
      (record {
        group = k;
        found = get-insert_self gid k h.groups;
        gone = record {
          state = dead rec;
          known = get-insert_self cid (dead rec) g.creds;
          dormant = refl;
          not_waiting = other;
        };
      })

after_copy_ok :
    (gid cid : Bytes) (r : ServerResult StreamAppend) (k : GroupHost) {out : StreamAppend}
    → (after_copy gid cid (r, k)).0 ≡ ok out
    → (r ≡ ok out) × ((after_copy gid cid (r, k)).1 ≡ drop_cred gid cid k)
after_copy_ok gid cid (ok x) k e = (e, refl)
after_copy_ok gid cid (err x) k e = cc

-- The checks of a removal return the credential that the bundle names.
checks_name :
    (r : WireResult RemoveBundle) (key : ServerResult Bytes)
    (holds : RemoveBundle → Bytes → ServerResult (Unit {0})) (b : RemoveBundle) {named : Bytes}
    → r ≡ ok b
    → (from_wire r >>= λ x. key >>= λ pk. holds x pk >>= λ _. ok x.credential_id) ≡ ok named
    → named ≡ b.credential_id
checks_name (err x) key holds b e h = cc
checks_name (ok x) (err y) holds b e h = cc
checks_name (ok x) (ok pk) holds b {named} e h =
    let next : Unit {0} → ServerResult Bytes = λ _. ok x.credential_id in
    let (done, (last, _)) = bind_success (holds x pk) next (sym h) in cc

module _ (crypto : Crypto) where
  HasGone-denied :
      (gid cid secret : Bytes) (h : GroupHost)
      → HasGone gid cid h
      → authorize_live crypto gid (record { credential_id = cid; credential_secret = secret }) h
        ≡ err denied
  unfolding authorize_live
  HasGone-denied gid cid secret h v = rw (v.found, v.gone.known, v.gone.dormant) refl

  Runs-HasGone :
      (gid cid : Bytes) (h k : GroupHost) → Runs crypto h k → HasGone gid cid h → HasGone gid cid k
  Runs-HasGone gid cid h k r v =
      let (g, found, path) =
        fate_of_some v.group (Map.get gid h.groups) (Map.get gid k.groups) v.found
          (Runs-Fates crypto h k r gid) in
      record { group = g; found = found; gone = GroupPath-Gone cid v.group g path v.gone }

  -- The group behind a fan-out that did not meet the size limit.
  pub group-fanout_copy :
      (draws : ℕ → Draw) (gid : Bytes) (type : MessageType) (body : Bytes) (g : GroupState)
      (h : GroupHost)
      → Map.get gid h.groups ≡ some g
      → ltb stream_max_bytes (saturating_add g.bytes (length body)) ≡ false
      → Map.get gid (fanout_copy crypto draws gid type body h).1.groups
        ≡ some (pushed h.now type body g)
  unfolding fanout_copy
  group-fanout_copy draws gid type body g h found fits =
      rw (found, fits) (get-insert_self gid (pushed h.now type body g) h.groups)

  fits-fanout_copy :
      (draws : ℕ → Draw) (gid : Bytes) (type : MessageType) (body : Bytes) (g : GroupState)
      (h : GroupHost) {out : StreamAppend}
      → Map.get gid h.groups ≡ some g
      → (fanout_copy crypto draws gid type body h).0 ≡ ok out
      → ltb stream_max_bytes (saturating_add g.bytes (length body)) ≡ false
  unfolding fanout_copy
  fits-fanout_copy draws gid type body g h found e =
      elim (Bool-cases (ltb stream_max_bytes (saturating_add g.bytes (length body)))) [
        | inl full ↦ cc (rw (found, full) at e)
        | inr fits ↦ fits
      ]

  remove_named-HasGone :
      (draws : ℕ → Draw) (gid cid body : Bytes) (g : GroupState) (rec : CredRecord) (h : GroupHost)
      {out : StreamAppend}
      → Map.get gid h.groups ≡ some g
      → Map.get cid g.creds ≡ some rec
      → AllValues (IsOther cid) g.pending
      → (remove_named crypto draws gid body (ok cid) h).0 ≡ ok out
      → HasGone gid cid (remove_named crypto draws gid body (ok cid) h).1
  remove_named-HasGone draws gid cid body g rec h found known other e =
      let copy = fanout_copy crypto draws gid remove_bundle body h in
      let (sent, after) = after_copy_ok gid cid copy.0 copy.1 e in
      let fits = fits-fanout_copy draws gid remove_bundle body g h found sent in
      rw after (
        drop_cred-HasGone gid cid (pushed h.now remove_bundle body g) rec copy.1
          (group-fanout_copy draws gid remove_bundle body g h found fits) known other)

  append_remove-HasGone :
      (draws : ℕ → Draw) (gid cid body : Bytes) (b : RemoveBundle) (g : GroupState)
      (rec : CredRecord) (r : ServerResult Bytes) (h : GroupHost) {out : StreamAppend}
      → Map.get gid h.groups ≡ some g
      → Map.get b.credential_id g.creds ≡ some rec
      → AllValues (IsOther b.credential_id) g.pending
      → ((named : Bytes) → r ≡ ok named → named ≡ b.credential_id)
      → (remove_named crypto draws gid body r h).0 ≡ ok out
      → HasGone gid b.credential_id (remove_named crypto draws gid body r h).1
  append_remove-HasGone draws gid cid body b g rec (err x) h found known other names e = cc
  append_remove-HasGone draws gid cid body b g rec (ok named) h found known other names e =
      let same : named ≡ b.credential_id = names named refl in
      rw (same) (
        remove_named-HasGone draws gid b.credential_id body g rec h found known other
          (rw (same) at e))

  remove_checks_name :
      (gid cid body : Bytes) (b : RemoveBundle) (h : GroupHost) (named : Bytes)
      → remove_decode body ≡ ok b
      → remove_checks crypto gid cid body h ≡ ok named
      → named ≡ b.credential_id
  unfolding remove_checks
  remove_checks_name gid cid body b h named e c =
      checks_name (remove_decode body) (checked_key crypto (signing_pk gid cid h))
        (λ x pk. from_wire (verify_sidecar crypto x pk gid)) b e c

  authorized-HasGone :
      (draws : ℕ → Draw) (gid cid body : Bytes) (b : RemoveBundle) (g : GroupState)
      (rec : CredRecord) (a : ServerResult (Unit {0})) (h : GroupHost) {out : StreamAppend}
      → Map.get gid h.groups ≡ some g
      → remove_decode body ≡ ok b
      → Map.get b.credential_id g.creds ≡ some rec
      → AllValues (IsOther b.credential_id) g.pending
      → (append_authorized crypto draws gid cid remove_bundle body a h).0 ≡ ok out
      → HasGone gid b.credential_id
          (append_authorized crypto draws gid cid remove_bundle body a h).1
  unfolding append_remove
  authorized-HasGone draws gid cid body b g rec (err x) h found decoded known other e = cc
  authorized-HasGone draws gid cid body b g rec (ok _) h found decoded known other e =
      append_remove-HasGone draws gid cid body b g rec (remove_checks crypto gid cid body h) h found
        known other (λ named. remove_checks_name gid cid body b h named decoded) e

  append-HasGone :
      (draws : ℕ → Draw) (gid : Bytes) (cred : MemberCred) (body : Bytes) (b : RemoveBundle)
      (g : GroupState) (rec : CredRecord) (h : GroupHost) {out : StreamAppend}
      → Map.get gid h.groups ≡ some g
      → remove_decode body ≡ ok b
      → Map.get b.credential_id g.creds ≡ some rec
      → AllValues (IsOther b.credential_id) g.pending
      → (append crypto draws gid cred remove_bundle body h).0 ≡ ok out
      → HasGone gid b.credential_id (append crypto draws gid cred remove_bundle body h).1
  unfolding append
  append-HasGone draws gid cred body b g rec h found decoded known other e =
      authorized-HasGone draws gid cred.credential_id body b g rec
        (authorize_live crypto gid cred h) h found decoded known other e

  -- Who was removed stays out: when a host that was reached from a new one accepts a remove bundle for a
  -- live member, the credential that the bundle names is denied, with any secret, in every state that the
  -- host reaches from there, whatever is called.
  pub removed_stays_out :
      (draws : ℕ → Draw) (gid : Bytes) (cred : MemberCred) (body secret : Bytes) (b : RemoveBundle)
      (g : GroupState) (rec : CredRecord) (h k : GroupHost) {out : StreamAppend}
      → Runs crypto new_host h
      → Map.get gid h.groups ≡ some g
      → remove_decode body ≡ ok b
      → Map.get b.credential_id g.creds ≡ some rec
      → rec.live ≡ true
      → (append crypto draws gid cred remove_bundle body h).0 ≡ ok out
      → Runs crypto (append crypto draws gid cred remove_bundle body h).1 k
      → authorize_live crypto gid
          (record { credential_id = b.credential_id; credential_secret = secret })
          k
        ≡ err denied
  removed_stays_out draws gid cred body secret b g rec h k start found decoded known live e r =
      let cid = b.credential_id in
      let other =
        live-not_waiting cid g rec (reachable-Fair crypto h gid cid g start found) known live in
      HasGone-denied gid cid secret k (
        Runs-HasGone gid cid (append crypto draws gid cred remove_bundle body h).1 k r
          (append-HasGone draws gid cred body b g rec h found decoded known other e))
