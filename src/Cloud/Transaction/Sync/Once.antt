-- ===== src/Cloud/Transaction/Sync/Once.antt =====
-- An upload in parts ends: `putObjectRequestMultiPart` with `processSync`.
use myblob.Base.{◌≡◌, refl, inl, inr, none, some, [], ◌∷◌, if◌then◌else◌, Bool-cases, length}
use myblob.Base.Text.{Bytes}
use myblob.Cloud.Transaction.Model.{
  Provider, upload_messages, Message, UploadRequest, Transaction, Answer, initiate_failed, init,
  new_upload,
}
use myblob.Cloud.Transaction.Requests.{part_count, push_message, put_object_request_multi_part}
use myblob.Cloud.Transaction.Uploads.{on_finished, update_upload, begin_upload}
use myblob.Cloud.Transaction.Process.{submit_round, submit_uploads, submit_upload}
use myblob.Cloud.Transaction.Sync.{Schedule, Served, finish_all, sync_round}
use myblob.Cloud.Transaction.Sync.Rounds.{solo}

module _ (p : Provider) where
  abbrev pub upload_of : Bytes → Bytes → UploadRequest
  upload_of remote_path object = record {
    position = 0;
    parts = part_count (length object) p.multipart_upload_size;
    remote_path = remote_path;
    object = object;
  }

  abbrev pub create : Bytes → Bytes → Message
  create remote_path object = record {
    request = p.create_multi_part_request remote_path;
    put_data = none;
    callback = upload_messages (upload_of remote_path object);
  }

module _ (p : Provider) (schedule : Schedule) (served : Served schedule) where
  -- The round of the first request, with the answer to it.
  pub first_round :
      (remote_path object : Bytes) (a : Answer)
      → schedule 0 (some (create p remote_path object) ∷ [])
        ≡ (upload_messages (upload_of p remote_path object), a) ∷ []
      → let r = upload_of p remote_path object in
        let u = new_upload r.parts in
        sync_round p schedule 0 (put_object_request_multi_part p remote_path object init).1 ≡ (
          if a.success
          then (solo (create p remote_path object ∷ []) 0 1 (begin_upload p r a.text u), [])
          else (solo (create p remote_path object ∷ []) 1 1 u, initiate_failed 0 ∷ []))
  unfolding sync_round submit_round submit_uploads submit_upload finish_all on_finished new_upload
      update_upload put_object_request_multi_part push_message init
  first_round remote_path object a e = elim (Bool-cases a.success) [
    | inl s ↦ rw (e, s) refl
    | inr s ↦ rw (e, s) refl
  ]
