-- ===== src/Server/Groups/Budget/Same.antt =====
-- What an append changes beside the files of the group host (crates/nemo-server/src/group.rs).
use nemo_messenger.Prelude.{
  ℕ, ◌≡◌, refl, ◌∙◌, Option, none, some, length, ltb, saturating_add, Bool-cases, inl, inr,
}
use nemo_messenger.Prelude.Bytes.{Bytes}
use nemo_messenger.Prelude.Map
use nemo_messenger.Prelude.Map.{Map}
use nemo_messenger.Prelude.Result.{ok, err}
use nemo_messenger.Wire.Sign.{Crypto}
use nemo_messenger.Wire.Envelope.{MessageType, remove_bundle, signing_key_replace}
use nemo_messenger.Server.Error.{ServerResult}
use nemo_messenger.Server.Groups.{StreamAppend, GroupState, GroupHost, stream_max_bytes}
use nemo_messenger.Server.Groups.Stream.{
  Draw, fanout_in, fanout_copy, drop_with, drop_cred, after_copy, remove_named, rekey_with, rekey,
  replace_with,
}

-- What the budget depends on is as it was.
pub record SameFiles (h k : GroupHost) : Type 0 where
  pub files : k.files ≡ h.files
  pub now : k.now ≡ h.now
  pub budget : k.file_budget ≡ h.file_budget

pub same_files : (h : GroupHost) → SameFiles h h
same_files h = record { files = refl; now = refl; budget = refl }

module _ (crypto : Crypto) (draws : ℕ → Draw) where
  fanout_in-SameFiles :
      (gid : Bytes) (type : MessageType) (body : Bytes) (o : Option GroupState) (h : GroupHost)
      → SameFiles h (fanout_in crypto draws gid type body o h).1
  fanout_in-SameFiles gid type body none h = same_files h
  fanout_in-SameFiles gid type body (some g) h =
      elim (Bool-cases (ltb stream_max_bytes (saturating_add g.bytes (length body)))) [
        | inl full ↦ rw full (same_files h)
        | inr fits ↦ rw fits (record { files = refl; now = refl; budget = refl })
      ]

  pub fanout_copy-SameFiles :
      (gid : Bytes) (type : MessageType) (body : Bytes) (h : GroupHost)
      → SameFiles h (fanout_copy crypto draws gid type body h).1
  unfolding fanout_copy
  fanout_copy-SameFiles gid type body h = fanout_in-SameFiles gid type body (Map.get gid h.groups) h

  drop_with-SameFiles :
      (gid cid : Bytes) (o : Option GroupState) (h k : GroupHost)
      → SameFiles h k
      → SameFiles h (drop_with gid cid o k)
  drop_with-SameFiles gid cid none h k s = s
  drop_with-SameFiles gid cid (some g) h k s = record {
    files = s.files;
    now = s.now;
    budget = s.budget;
  }

  after_copy-SameFiles :
      (gid cid : Bytes) (r : ServerResult StreamAppend) (h k : GroupHost)
      → SameFiles h k
      → SameFiles h (after_copy gid cid (r, k)).1
  unfolding drop_cred
  after_copy-SameFiles gid cid (err e) h k s = s
  after_copy-SameFiles gid cid (ok out) h k s =
      let d = drop_with-SameFiles gid cid (Map.get gid k.groups) h k s in
      record { files = d.files; now = d.now; budget = d.budget }

  pub remove_named-SameFiles :
      (gid body : Bytes) (r : ServerResult Bytes) (h : GroupHost)
      → SameFiles h (remove_named crypto draws gid body r h).1
  remove_named-SameFiles gid body (err e) h = same_files h
  remove_named-SameFiles gid body (ok named) h =
      let copy = fanout_copy crypto draws gid remove_bundle body h in
      after_copy-SameFiles gid named copy.0 h copy.1
        (fanout_copy-SameFiles gid remove_bundle body h)

  rekey-SameFiles :
      (gid cid pk : Bytes) (o : Option GroupState) (h : GroupHost)
      → SameFiles h (rekey_with gid cid pk o h)
  rekey-SameFiles gid cid pk none h = same_files h
  rekey-SameFiles gid cid pk (some g) h = record { files = refl; now = refl; budget = refl }

  pub replace_with-SameFiles :
      (gid cid body : Bytes) (r : ServerResult Bytes) (h : GroupHost)
      → SameFiles h (replace_with crypto draws gid cid body r h).1
  unfolding rekey
  replace_with-SameFiles gid cid body (err e) h = same_files h
  replace_with-SameFiles gid cid body (ok pk) h =
      let first = rekey-SameFiles gid cid pk (Map.get gid h.groups) h in
      let then_on = fanout_copy-SameFiles gid signing_key_replace body (rekey gid cid pk h) in
      record {
        files = then_on.files ∙ first.files;
        now = then_on.now ∙ first.now;
        budget = then_on.budget ∙ first.budget;
      }
