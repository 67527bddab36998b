-- ===== src/Server/Groups/Files.antt =====
-- crates/nemo-server/src/group.rs: attachments of a group, reserved in its stream and uploaded once.
use nemo_messenger.Prelude.{
  ℕ, ◌+◌, ◌%◌, ◌^◌, Bool, true, false, Option, none, some, [], ◌∷◌, ◌&&◌, length, ltb, ◌==◌,
  saturating_add, if◌then◌else◌,
}
use nemo_messenger.Prelude.Bytes.{Bytes, beq}
use nemo_messenger.Prelude.Map
use nemo_messenger.Prelude.Map.{Map}
use nemo_messenger.Prelude.KeySet
use nemo_messenger.Prelude.Result.{ok, err, ◌>>=◌, ◌>>◌, fail_if}
use nemo_messenger.Wire.Sign.{Crypto}
use nemo_messenger.Wire.Envelope.{attachment_reserve, ttl_secs}
use nemo_messenger.Wire.Bodies.{AttachmentReserve, inner_len, reserve_decode}
use nemo_messenger.Server.Error.{ServerResult, denied, from_wire}
use nemo_messenger.Server.Groups.{
  MemberCred, StreamAppend, FileSlot, GroupHost, GroupHandler, mark_groups, authorize_live,
  stream_max_age_secs,
}
use nemo_messenger.Server.Groups.Dirty.{GroupDirty}
use nemo_messenger.Server.Groups.Stream.{Draw, fanout_copy}

abbrev pub is_live_file : Bytes → ℕ → FileSlot → Bool
is_live_file gid now s = beq s.group_id gid && ltb now s.expires_at

-- The bytes of the group's files that have not expired.
unfoldable pub file_bytes : Bytes → ℕ → Map FileSlot → ℕ
file_bytes gid now [] = 0
file_bytes gid now ((tok, s) ∷ files) =
    (if is_live_file gid now s then s.size else 0) + file_bytes gid now files

unfoldable pub live_file_bytes : Bytes → GroupHost → ℕ
unfolding file_bytes
live_file_bytes gid h = file_bytes gid h.now h.files % 2 ^ 64

abbrev pub has_file : Option FileSlot → Bool
has_file none = false
has_file (some _) = true

abbrev pub ttl_or_month : Option ℕ → ℕ
ttl_or_month none = stream_max_age_secs
ttl_or_month (some secs) = secs

abbrev pub mark_file : Bytes → GroupDirty → GroupDirty
mark_file tok d = record d { files = KeySet.add tok d.files }

abbrev pub put_file : Bytes → FileSlot → GroupHost → GroupHost
put_file tok slot h = record h { files = Map.insert tok slot h.files }

-- What `append_reserve` demands before it writes to the stream.
unfoldable pub reserve_checks : Bytes → Bytes → GroupHost → ServerResult AttachmentReserve
unfolding reserve_decode live_file_bytes
reserve_checks gid body h = do
  reserve ← from_wire (reserve_decode body)
  fail_if (has_file (Map.get reserve.fetch_token h.files)) denied
  fail_if
      (ltb h.file_budget (saturating_add (live_file_bytes gid h) (inner_len reserve.size_bucket)))
      denied
  ok reserve

abbrev pub reserved_slot : Bytes → Bytes → AttachmentReserve → ℕ → FileSlot
reserved_slot gid cid reserve now = record {
  group_id = gid;
  owner = cid;
  size = inner_len reserve.size_bucket;
  expires_at = saturating_add now (ttl_or_month (ttl_secs reserve.ttl_bucket));
  content = none;
}

abbrev pub after_reserve :
    Bytes
    → Bytes
    → AttachmentReserve
    → ℕ
    → ServerResult StreamAppend × GroupHost
    → ServerResult StreamAppend × GroupHost
after_reserve gid cid reserve now (err e, h) = (err e, h)
after_reserve gid cid reserve now (ok out, h) = (
  ok out,
  mark_groups (mark_file reserve.fetch_token)
      (put_file reserve.fetch_token (reserved_slot gid cid reserve now) h),
)

abbrev pub is_empty_slot : Option Bytes → Bool
is_empty_slot none = true
is_empty_slot (some _) = false

abbrev pub may_upload : Bytes → MemberCred → Bytes → ℕ → FileSlot → Bool
may_upload gid cred body now slot =
    beq slot.group_id gid
    && (beq slot.owner cred.credential_id
        && (ltb now slot.expires_at && (is_empty_slot slot.content && length body == slot.size)))

abbrev pub upload_to :
    Bytes → MemberCred → Bytes → Bytes → Option FileSlot → GroupHandler (Unit {0})
upload_to gid cred tok body none h = (err denied, h)
upload_to gid cred tok body (some slot) h =
    if may_upload gid cred body h.now slot
    then (ok tt, mark_groups (mark_file tok) (put_file tok (record slot { content = some body }) h))
    else (err denied, h)

abbrev pub upload_with :
    Bytes → MemberCred → Bytes → Bytes → ServerResult (Unit {0}) → GroupHandler (Unit {0})
upload_with gid cred tok body (err e) h = (err e, h)
upload_with gid cred tok body (ok _) h = upload_to gid cred tok body (Map.get tok h.files) h

abbrev pub content_of : Bytes → ℕ → FileSlot → Option Bytes → ServerResult Bytes
content_of gid now slot none = err denied
content_of gid now slot (some bytes) = if is_live_file gid now slot then ok bytes else err denied

abbrev pub file_of : Bytes → ℕ → Option FileSlot → ServerResult Bytes
file_of gid now none = err denied
file_of gid now (some slot) = content_of gid now slot slot.content

module _ (crypto : Crypto) where
  abbrev pub reserve_with :
      (ℕ → Draw)
      → Bytes
      → Bytes
      → Bytes
      → ServerResult AttachmentReserve
      → GroupHandler StreamAppend
  reserve_with draws gid cid body (err e) h = (err e, h)
  reserve_with draws gid cid body (ok reserve) h =
      after_reserve gid cid reserve h.now (fanout_copy crypto draws gid attachment_reserve body h)

  unfoldable pub append_reserve : (ℕ → Draw) → Bytes → Bytes → Bytes → GroupHandler StreamAppend
  unfolding reserve_checks fanout_copy ttl_secs
  append_reserve draws gid cid body h =
      reserve_with draws gid cid body (reserve_checks gid body h) h

  unfoldable pub upload_file : Bytes → MemberCred → Bytes → Bytes → GroupHandler (Unit {0})
  unfolding authorize_live
  upload_file gid cred tok body h =
      upload_with gid cred tok body (authorize_live crypto gid cred h) h

  unfoldable pub fetch_file : Bytes → MemberCred → Bytes → GroupHost → ServerResult Bytes
  unfolding authorize_live
  fetch_file gid cred tok h = do
    authorize_live crypto gid cred h
    file_of gid h.now (Map.get tok h.files)
