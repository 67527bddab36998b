-- ===== src/Server/Groups/Refines/Uploads.antt =====
-- Uploading a file leaves every group as it is (crates/nemo-server/src/group.rs).
use nemo_messenger.Prelude.{refl, Option, none, some, Bool-cases, inl, inr}
use nemo_messenger.Prelude.Bytes.{Bytes}
use nemo_messenger.Prelude.Map
use nemo_messenger.Prelude.Map.{Map, AllValues, get-AllValues, insert-AllValues}
use nemo_messenger.Prelude.Result.{ok, err}
use nemo_messenger.Wire.Sign.{Crypto}
use nemo_messenger.Server.Error.{ServerResult}
use nemo_messenger.Server.Groups.{MemberCred, FileSlot, GroupHost, mark_groups, authorize_live}
use nemo_messenger.Server.Groups.Files.{
  mark_file, put_file, may_upload, upload_to, upload_with, upload_file,
}
use nemo_messenger.Server.Groups.Refines.{Fates, same-Fates}

module _ (crypto : Crypto) where
  upload_to-Fates :
      (gid : Bytes) (cred : MemberCred) (tok body : Bytes) (o : Option FileSlot) (h : GroupHost)
      → Fates h (upload_to gid cred tok body o h).1
  upload_to-Fates gid cred tok body none h = same-Fates h h refl
  upload_to-Fates gid cred tok body (some slot) h =
      elim (Bool-cases (may_upload gid cred body h.now slot)) [
        | inl may ↦
            let k =
              mark_groups (mark_file tok) (put_file tok (record slot { content = some body }) h) in
            rw may (same-Fates h k refl)
        | inr no_right ↦ rw no_right (same-Fates h h refl)
      ]

  upload_with-Fates :
      (gid : Bytes) (cred : MemberCred) (tok body : Bytes) (r : ServerResult (Unit {0}))
      (h : GroupHost)
      → Fates h (upload_with gid cred tok body r h).1
  upload_with-Fates gid cred tok body (err e) h = same-Fates h h refl
  upload_with-Fates gid cred tok body (ok _) h =
      upload_to-Fates gid cred tok body (Map.get tok h.files) h

  pub upload_file-Fates :
      (gid : Bytes) (cred : MemberCred) (tok body : Bytes) (h : GroupHost)
      → Fates h (upload_file crypto gid cred tok body h).1
  unfolding upload_file
  upload_file-Fates gid cred tok body h =
      upload_with-Fates gid cred tok body (authorize_live crypto gid cred h) h
