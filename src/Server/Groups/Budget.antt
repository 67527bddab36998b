-- ===== src/Server/Groups/Budget.antt =====
-- The bytes of a group's files stay within the budget (crates/nemo-server/src/group.rs).
pub mod Same
use nemo_messenger.Prelude.{
  ℕ, ◌+◌, ◌^◌, ◌≤◌, ◌<◌, ◌≡◌, refl, sym, ◌∙◌, Option, none, some, [], ◌∷◌, length, ltb,
  saturating_add, if◌then◌else◌, arith, Bool-cases, Option-cases, inl, inr,
}
use nemo_messenger.Prelude.Bytes.{Bytes, beq, beq_iff}
use nemo_messenger.Prelude.Map
use nemo_messenger.Prelude.Map.{Map}
use nemo_messenger.Prelude.Result.{ok, err, ◌>>=◌, ◌>>◌, fail_if}
use nemo_messenger.Wire.Error.{WireResult}
use nemo_messenger.Wire.Sign.{Crypto}
use nemo_messenger.Wire.Envelope.{
  MessageType, double_ratchet, mls_app, attachment_dr, remove_bundle, signing_key_replace,
  attachment_reserve, revocation_statement, mls_handshake,
}
use nemo_messenger.Wire.Bodies.{AttachmentReserve, inner_len, reserve_decode}
use nemo_messenger.Server.Error.{ServerResult, denied, from_wire}
use nemo_messenger.Server.Groups.{
  MemberCred, StreamAppend, FileSlot, GroupState, GroupHost, authorize_live, stream_max_bytes,
}
use nemo_messenger.Server.Groups.Stream.{
  Draw, fanout_in, fanout_copy, drop_with, drop_cred, after_copy, remove_checks, remove_named,
  append_remove, rekey_with, rekey, replace_checks, replace_with, append_replace,
}
use nemo_messenger.Server.Groups.Files.{
  is_live_file, file_bytes, live_file_bytes, has_file, reserve_checks, reserved_slot, after_reserve,
  reserve_with, append_reserve,
}
use nemo_messenger.Server.Groups.Append.{append_typed, append_authorized, append}
use nemo_messenger.Server.Groups.Budget.Same.{
  SameFiles, same_files, fanout_copy-SameFiles, remove_named-SameFiles, replace_with-SameFiles,
}

-- Every group's files that have not expired are within the budget, which is below the largest `u64`.
pub record InBudget (h : GroupHost) : Type 0 where
  pub bound : (gid : Bytes) → file_bytes gid h.now h.files ≤ h.file_budget
  pub small : h.file_budget + 1 < 2 ^ 64

SameFiles-InBudget : (h k : GroupHost) → SameFiles h k → InBudget h → InBudget k
SameFiles-InBudget h k s v = record {
  bound = λ gid. rw (s.files, s.now, s.budget) (v.bound gid);
  small = rw s.budget v.small;
}

file_bytes-insert :
    (gid tok : Bytes) (now : ℕ) (s : FileSlot) (files : Map FileSlot)
    → Map.get tok files ≡ none
    → file_bytes gid now (Map.insert tok s files)
      ≡ file_bytes gid now files + (if is_live_file gid now s then s.size else 0)
unfolding file_bytes Map.get Map.insert
file_bytes-insert gid tok now s [] e = ground arith
file_bytes-insert gid tok now s ((j, x) ∷ files) e = elim (Bool-cases (beq j tok)) [
  | inl mine ↦ cc (rw mine at e)
  | inr other ↦ rw other (omega (arith, file_bytes-insert gid tok now s files (rw other at e)))
]

-- The checks of a reservation: its token is new, and its size fits.
checks_fit :
    (gid : Bytes) (r : WireResult AttachmentReserve) (h : GroupHost) {reserve : AttachmentReserve}
    → (from_wire r >>= λ x.
        fail_if (has_file (Map.get x.fetch_token h.files)) denied
        >> (fail_if
              (ltb h.file_budget (saturating_add (live_file_bytes gid h) (inner_len x.size_bucket)))
              denied
            >> ok x))
      ≡ ok reserve
    → (Map.get reserve.fetch_token h.files ≡ none)
      × (saturating_add (live_file_bytes gid h) (inner_len reserve.size_bucket) ≤ h.file_budget)
checks_fit gid (err y) h e = cc
checks_fit gid (ok x) h {reserve} e = elim (Option-cases (Map.get x.fetch_token h.files)) [
  | inl new ↦
      elim (Bool-cases
        (ltb h.file_budget (saturating_add (live_file_bytes gid h) (inner_len x.size_bucket)))) [
          | inl over ↦ cc (rw (new, over) at e)
          | inr fits ↦
              let same : x ≡ reserve = cc (rw (new, fits) at e) in
              rw (← same) (new, ground (arith, fits))
        ]
  | inr (slot, taken) ↦ cc (rw taken at e)
]

-- With the reserved slot, the bytes of group `j` are still within the budget.
slot_fits :
    (gid j : Bytes) (slot : FileSlot) (h : GroupHost)
    → slot.group_id ≡ gid
    → saturating_add (live_file_bytes gid h) slot.size ≤ h.file_budget
    → InBudget h
    → file_bytes j h.now h.files + (if is_live_file j h.now slot then slot.size else 0)
      ≤ h.file_budget
unfolding live_file_bytes
slot_fits gid j slot h whose fits v = elim (Bool-cases (is_live_file j h.now slot)) [
  | inl live ↦
      let mine : gid ≡ j = sym whose ∙ (beq_iff slot.group_id j).0 (ground (arith, live)) in
      let small = v.small in let bound = v.bound gid in rw (live, ← mine) (omega arith)
  | inr other ↦ rw other (omega (arith, v.bound j))
]

reserved-InBudget :
    (gid cid : Bytes) (reserve : AttachmentReserve) (r : ServerResult StreamAppend)
    (h k : GroupHost)
    → SameFiles h k
    → Map.get reserve.fetch_token h.files ≡ none
    → saturating_add (live_file_bytes gid h) (inner_len reserve.size_bucket) ≤ h.file_budget
    → InBudget h
    → InBudget (after_reserve gid cid reserve h.now (r, k)).1
reserved-InBudget gid cid reserve (err e) h k s new fits v = SameFiles-InBudget h k s v
reserved-InBudget gid cid reserve (ok out) h k s new fits v =
    let slot = reserved_slot gid cid reserve h.now in
    record {
      bound = λ j.
          rw (s.files, s.now, s.budget)
            (rw (file_bytes-insert j reserve.fetch_token h.now slot h.files new)
              (slot_fits gid j slot h refl fits v));
      small = rw s.budget v.small;
    }

module _ (crypto : Crypto) (draws : ℕ → Draw) where
  reserve_with-InBudget :
      (gid cid body : Bytes) (r : ServerResult AttachmentReserve) (h : GroupHost)
      → ((reserve : AttachmentReserve)
          → r ≡ ok reserve
          → (Map.get reserve.fetch_token h.files ≡ none)
            × (saturating_add (live_file_bytes gid h) (inner_len reserve.size_bucket)
                ≤ h.file_budget))
      → InBudget h
      → InBudget (reserve_with crypto draws gid cid body r h).1
  reserve_with-InBudget gid cid body (err e) h fit v = v
  reserve_with-InBudget gid cid body (ok reserve) h fit v =
      let copy = fanout_copy crypto draws gid attachment_reserve body h in
      let (new, fits) = fit reserve refl in
      reserved-InBudget gid cid reserve copy.0 h copy.1
        (fanout_copy-SameFiles crypto draws gid attachment_reserve body h) new fits v

  append_typed-InBudget :
      (gid cid : Bytes) (type : MessageType) (body : Bytes) (h : GroupHost)
      → InBudget h
      → InBudget (append_typed crypto draws gid cid type body h).1
  unfolding append_remove append_replace append_reserve reserve_checks
  append_typed-InBudget gid cid remove_bundle body h v =
      SameFiles-InBudget h _
        (remove_named-SameFiles crypto draws gid body (remove_checks crypto gid cid body h) h) v
  append_typed-InBudget gid cid signing_key_replace body h v =
      SameFiles-InBudget h _
        (replace_with-SameFiles crypto draws gid cid body (replace_checks crypto gid cid body h) h)
        v
  append_typed-InBudget gid cid mls_handshake body h v =
      SameFiles-InBudget h _ (fanout_copy-SameFiles crypto draws gid mls_handshake body h) v
  append_typed-InBudget gid cid mls_app body h v =
      SameFiles-InBudget h _ (fanout_copy-SameFiles crypto draws gid mls_app body h) v
  append_typed-InBudget gid cid revocation_statement body h v =
      SameFiles-InBudget h _ (fanout_copy-SameFiles crypto draws gid revocation_statement body h) v
  append_typed-InBudget gid cid attachment_reserve body h v =
      reserve_with-InBudget gid cid body (reserve_checks gid body h) h
        (λ reserve e. checks_fit gid (reserve_decode body) h e) v
  append_typed-InBudget gid cid double_ratchet body h v = v
  append_typed-InBudget gid cid attachment_dr body h v = v

  append_authorized-InBudget :
      (gid cid : Bytes) (type : MessageType) (body : Bytes) (r : ServerResult (Unit {0}))
      (h : GroupHost)
      → InBudget h
      → InBudget (append_authorized crypto draws gid cid type body r h).1
  append_authorized-InBudget gid cid type body (err e) h v = v
  append_authorized-InBudget gid cid type body (ok _) h v =
      append_typed-InBudget gid cid type body h v

  -- Whatever a member appends, the files of every group that have not expired stay within the budget, if
  -- they were before.
  pub append-InBudget :
      (gid : Bytes) (cred : MemberCred) (type : MessageType) (body : Bytes) (h : GroupHost)
      → InBudget h
      → InBudget (append crypto draws gid cred type body h).1
  unfolding append
  append-InBudget gid cred type body h v =
      append_authorized-InBudget gid cred.credential_id type body (authorize_live crypto gid cred h)
        h v
