-- ===== src/Cloud/Transaction/Uploads.antt =====
-- The callbacks of an upload in parts: `putObjectRequestMultiPart` in include/cloud/transaction.hpp.
pub mod Parts
pub mod Sizes
pub mod Finish
pub mod Tags
use myblob.Base.{
  ℕ, zero, suc, ◌+◌, ◌-◌, Bool, true, false, not, Option, none, some, List, [], ◌∷◌, ◌++◌, ◌==◌,
  leb, ◌%◌, ◌^◌, if◌then◌else◌, length, take, drop, set, get_elem?,
}
use myblob.Base.Text.{Bytes}
use myblob.Cloud.Provider.{get_etag, get_upload_id}
use myblob.Cloud.Transaction.Model.{
  Provider, Callback, upload_messages, finish_multipart, complete_finished, abort_finished, Message,
  UploadRequest, UploadState, MultipartUpload, Transaction, Answer, Notice, initiate_failed,
  uploaded, cancelled,
}

abbrev pub is_aborted : UploadState → Bool
is_aborted UploadState.aborted = true
is_aborted _ = false

-- The part `i` of the object: all but the last have the full size.
unfoldable pub part_size : ℕ → ℕ → ℕ → ℕ → ℕ
part_size i parts split_size left = if i == parts then left else split_size

-- More rounds than a counter of 16 bits has values below its greatest.
abbrev pub part_rounds : ℕ
part_rounds = 65536

module _ (p : Provider) where
  unfoldable pub part_message : UploadRequest → Bytes → ℕ → Bytes → Message
  part_message r upload_id i object = record {
    request = p.put_request_generic r.remote_path object i upload_id;
    put_data = some object;
    callback = finish_multipart r i;
  }

  -- The loop over the parts from `i` on, where `rest` is the object behind the offset, for as many
  -- rounds as are given. The counter has 16 bits, so with 65535 parts it never passes the end.
  unfoldable pub part_messages : ℕ → UploadRequest → Bytes → ℕ → Bytes → List Message
  unfolding part_size
  part_messages zero r upload_id i rest = []
  part_messages (suc rounds) r upload_id i rest = elim (leb i r.parts) [
    | true ↦
        let size = part_size i r.parts p.multipart_upload_size (length rest) in
        part_message r upload_id i (take size rest)
        ∷ part_messages rounds r upload_id ((i + 1) % 2 ^ 16) (drop size rest)
    | false ↦ []
  ]

  -- The messages are written to the places from `i` on.
  unfoldable pub write_messages : List Message → ℕ → List (Option Message) → List (Option Message)
  write_messages [] i slots = slots
  write_messages (m ∷ ms) i slots = write_messages ms (suc i) (set slots i (some m))

  -- The upload once its first request has succeeded.
  unfoldable pub begin_upload : UploadRequest → Bytes → MultipartUpload → MultipartUpload
  begin_upload r content u =
      let upload_id = get_upload_id content in
      record u {
        upload_id = upload_id;
        messages = write_messages (part_messages part_rounds r upload_id 1 r.object) 0 u.messages;
        state = UploadState.sending;
      }

  -- The message that ends an upload whose parts have all finished.
  unfoldable pub last_message : UploadRequest → MultipartUpload → Message
  last_message r u =
      let (request, content) = p.complete_multi_part_request r.remote_path u.upload_id u.etags in
      if is_aborted u.state
      then record {
        request = p.delete_request_generic r.remote_path u.upload_id;
        put_data = none;
        callback = abort_finished r;
      }
      else record { request = request; put_data = some content; callback = complete_finished r }

  -- What a part notes: its tag, or that it failed.
  unfoldable pub note_part : ℕ → Answer → MultipartUpload → MultipartUpload
  note_part i a u =
      if a.success
      then record u { etags = set u.etags (i - 1) (get_etag (take a.offset a.text)) }
      else record u { error_message_id = i - 1; state = UploadState.aborted }

  -- One part less is outstanding, and after the last the end is prepared.
  unfoldable pub count_down : UploadRequest → MultipartUpload → MultipartUpload
  count_down r u =
      let counted = record u { outstanding = u.outstanding - 1 } in
      if u.outstanding == 1
      then record counted {
        messages = set u.messages r.parts (some (last_message r counted));
        state = UploadState.validating;
      }
      else counted

  -- The callback of part `i`.
  unfoldable pub finish_part : UploadRequest → ℕ → Answer → MultipartUpload → MultipartUpload
  finish_part r i a u = count_down r (note_part i a u)

  -- A change of the upload at a place.
  unfoldable pub update_upload :
      ℕ → (MultipartUpload → MultipartUpload) → List MultipartUpload → List MultipartUpload
  update_upload i f us = elim (get_elem? us i) [ none ↦ us | some u ↦ set us i (f u) ]

  abbrev pub end_upload : Transaction → Transaction
  end_upload t = record t { completed_multiparts = t.completed_multiparts + 1 }

  -- The callback of a message that has finished with `a`, and the calls of the caller's callback.
  unfoldable pub on_finished : Callback → Answer → Transaction → Transaction × List Notice
  on_finished (upload_messages r) a t =
      if a.success
      then (
        record t {
          multipart_uploads = update_upload r.position (begin_upload r a.text) t.multipart_uploads;
        },
        [],
      )
      else (end_upload t, initiate_failed r.position ∷ [])
  on_finished (finish_multipart r i) a t = (
    record t {
      multipart_uploads = update_upload r.position (finish_part r i a) t.multipart_uploads;
    },
    [],
  )
  on_finished (complete_finished r) a t =
      (end_upload t, (if a.success then uploaded r.position else cancelled r.position) ∷ [])
  on_finished (abort_finished r) a t = (end_upload t, cancelled r.position ∷ [])
  on_finished _ a t = (t, [])
